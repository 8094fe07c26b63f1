-- ===== src/Failover/Promoted.antt =====
-- What a promotion that succeeds has done to the server.
use mariadb_ha_operator.Base.{◌≡◌, refl, String, Option, none, some}
use mariadb_ha_operator.World.Sql.{MariaDbConnectionInfo, Statement, read_only_on, read_only_off}
use mariadb_ha_operator.World.{Error, Env, History, Go, deferring, return, pass}
use mariadb_ha_operator.World.Calls.{sql_exec}
use mariadb_ha_operator.World.Outcome.{check_error}
use mariadb_ha_operator.World.Answers.{
  Answers, Returns, Answers-return, Answers-if, Answers-bind, Answers-call, Answers-any_call,
  Answers-gets, Returns-function, Anything,
}
use mariadb_ha_operator.Failover.Promotion.{wrap, set_read_only, promote_secondary_to_primary}

-- The server has accepted, in some history of calls, the statement that switches its read-only mode,
-- the promotion's last word.
pub data IsPromoted (env : Env) (info : MariaDbConnectionInfo) : Type 0 where
  writable : (h : History) → env.sql_exec h info read_only_off ≡ none → IsPromoted env info
  read_only : (h : History) → env.sql_exec h info read_only_on ≡ none → IsPromoted env info

-- An error, or the promotion.
pub data Promotion (env : Env) (info : MariaDbConnectionInfo) : Option Error → Type 0 where
  refused : (e : Error) → Promotion env info (some e)
  promoted : IsPromoted env info → Promotion env info none

pub IsPromoted-of_none :
    (env : Env) (info : MariaDbConnectionInfo) (o : Option Error)
    → o ≡ none
    → Promotion env info o
    → IsPromoted env info
IsPromoted-of_none env info o e (refused _) = absurd cc
IsPromoted-of_none env info o e (promoted p) = p

module _ (env : Env) (info : MariaDbConnectionInfo) where
  -- `none` only if the server accepted the statement.
  abbrev Accepted : Statement → Option Error → Type 0
  Accepted q o = (o ≡ none) → (h : History) × (env.sql_exec h info q ≡ none)

  sql_exec-Accepted : (q : Statement) → Returns (Accepted q) (sql_exec env info q)
  unfolding sql_exec
  sql_exec-Accepted q = record { at = λ s e. (s.history, e) }

  wrapped :
      (q : Statement) (m : String) (o : Option Error)
      → ((h : History) → env.sql_exec h info q ≡ none → IsPromoted env info)
      → Accepted q o
      → Promotion env info (wrap m o)
  wrapped q m none f a = let there = a refl in promoted (f there.0 there.1)
  wrapped q m (some e) f a = refused _

  set_read_only-Promotion : Returns (Promotion env info) (set_read_only env info)
  unfolding set_read_only
  set_read_only-Promotion = Returns-function _ (
      Answers-bind _ _ (Answers-gets _) (λ mode _.
        Answers-if mode _ _
          (λ _.
            Answers-bind _ _ (Answers-call _ (sql_exec-Accepted read_only_on))
              (λ o a. Answers-return _ (wrapped read_only_on _ o read_only a)))
          (λ _.
            Answers-bind _ _ (Answers-call _ (sql_exec-Accepted read_only_off))
              (λ o a. Answers-return _ (wrapped read_only_off _ o writable a)))))

  deferring-Promotion :
      (d : Go (Unit {0})) (m : Go (Option Error))
      → Returns (Promotion env info) m
      → Returns (Promotion env info) (deferring d m)
  unfolding deferring
  deferring-Promotion d m k = record { at = λ s. k.at s }

  check_error-Promotion : (o : Option Error) → Answers (Promotion env info) Anything (check_error o)
  unfolding check_error pass return
  check_error-Promotion none = record { at = λ s. tt }
  check_error-Promotion (some e) = record { at = λ s. refused e }

  pub promote_secondary_to_primary-Promotion :
      Returns (Promotion env info) (promote_secondary_to_primary env info)
  unfolding promote_secondary_to_primary
  promote_secondary_to_primary-Promotion = Returns-function _ (
      Answers-bind _ _ (Answers-any_call _) (λ o _.
        Answers-bind _ _ (check_error-Promotion o)
          (λ _ _. Answers-call _ (deferring-Promotion _ _ set_read_only-Promotion))))
