-- ===== src/Replication/Position.antt =====
-- What `setupReplication` makes of the columns of SHOW MASTER STATUS.
use mariadb_ha_operator.Base.{
  ◌≡◌, refl, String, Option, none, some, [], ◌∷◌, length, ◌≢◌, ◌==◌, string_eq,
}
use mariadb_ha_operator.StringMap.{get}
use mariadb_ha_operator.World.Sql.{
  MariaDbConnectionInfo, Rows, row, no_rows, unreadable, show_master_status,
}
use mariadb_ha_operator.World.{
  Error, Result, ok, err, Env, State, History, Go, Body, on_result, on_some, pass, deferring,
}
use mariadb_ha_operator.World.Calls.{sql_query}
use mariadb_ha_operator.World.Answers.{
  Answers, Returns, Answers-return, Answers-if, Answers-bind, Answers-call, Answers-any_call,
  Answers-gets, Returns-function, Anything,
}
use mariadb_ha_operator.Replication.{
  BinlogPosition, scan_position, replicate_from, setup_replication, check_wrapped,
  common_secret_name,
}

-- A row of an answer to SHOW MASTER STATUS has other than two columns.
abbrev pub IsWide : Result Rows → Type 0
IsWide (ok (row columns)) = length columns ≢ 2
IsWide _ = Unit

scan_position-IsWide : (r : Result Rows) → IsWide r → (p : BinlogPosition) → scan_position r ≢ ok p
unfolding scan_position
scan_position-IsWide (err e) w p = λ h. cc
scan_position-IsWide (ok no_rows) w p = λ h. cc
scan_position-IsWide (ok (unreadable e)) w p = λ h. cc
scan_position-IsWide (ok (row [])) w p = λ h. cc
scan_position-IsWide (ok (row (_ ∷ []))) w p = λ h. cc
scan_position-IsWide (ok (row ((_, _) ∷ (_, _) ∷ []))) w p = λ h. w refl
scan_position-IsWide (ok (row (_ ∷ _ ∷ _ ∷ _))) w p = λ h. cc

module _ {R A : Type 0} {P : R → Type 0} {V : A → Type 0} where
  Answers-on_result :
      {B : Type 0} (r : Result B) (f : Error → Body R A) (g : B → Body R A)
      → ((e : Error) → Answers P V (f e))
      → ((b : B) → r ≡ ok b → Answers P V (g b))
      → Answers P V (on_result r f g)
  unfolding on_result
  Answers-on_result (err e) f g p q = p e
  Answers-on_result (ok b) f g p q = q b refl

-- An error is returned.
IsFailure : Option Error → Type 0
IsFailure o = o ≢ none

some-IsFailure : (e : Error) → IsFailure (some e)
unfolding IsFailure
some-IsFailure e = λ h. cc

check_wrapped-IsFailure :
    (o : Option Error) (m : String) → Answers IsFailure Anything (check_wrapped o m)
unfolding on_some pass
check_wrapped-IsFailure none m = record { at = λ s. tt }
check_wrapped-IsFailure (some e) m = Answers-return _ (some-IsFailure _)

deferring-Returns :
    {R : Type 0} {P : R → Type 0} (d : Go (Unit {0})) (m : Go R)
    → Returns P m
    → Returns P (deferring d m)
unfolding deferring
deferring-Returns d m k = record { at = λ s. k.at s }

module _ (env : Env) (primary secondary : MariaDbConnectionInfo)
    (wide : (h : History) → IsWide (env.sql_query h primary show_master_status)) where
  query-IsWide : Returns IsWide (sql_query env primary show_master_status)
  unfolding sql_query
  query-IsWide = record { at = λ s. wide s.history }

  replicate_from-IsFailure :
      (user password : String)
      → Returns IsFailure (replicate_from env primary secondary user password)
  unfolding replicate_from
  replicate_from-IsFailure user password = Returns-function _ (
      Answers-bind _ _ (Answers-call _ query-IsWide) (λ rows w.
        Answers-on_result _ _ _ (λ e. Answers-return _ (some-IsFailure _))
          (λ p found. absurd (scan_position-IsWide rows w p found))))

  whole : Returns IsFailure (setup_replication env primary secondary)
  unfolding setup_replication
  whole = Returns-function _ (
      Answers-bind _ _ (Answers-gets _) (λ ha _.
        Answers-if (common_secret_name ha == "") _ _ (λ _. Answers-return _ (some-IsFailure _))
          (λ _. Answers-bind _ _ (Answers-any_call _) (λ fetched _.
            Answers-on_result _ _ _ (λ e. Answers-return _ (some-IsFailure _))
              (λ secret _.
                Answers-if (get secret.contents "MARIADB_REPLICATION_PASSWORD" == "") _ _
                  (λ _. Answers-return _ (some-IsFailure _))
                  (λ _. Answers-bind _ _ (Answers-any_call _) (λ e _.
                    Answers-bind _ _ (check_wrapped-IsFailure e _) (λ _ _.
                      Answers-call _ (deferring-Returns _ _ (replicate_from-IsFailure _ _))))))))))

-- Whenever a row that answers SHOW MASTER STATUS has other than the two columns that the Scan names,
-- setupReplication returns an error: the replication is never configured. The server's documentation
-- lists four columns.
pub setup_replication-fails :
    (env : Env) (primary secondary : MariaDbConnectionInfo)
    → ((h : History) → IsWide (env.sql_query h primary show_master_status))
    → (s : State) → (setup_replication env primary secondary s).0 ≢ none
unfolding IsFailure
setup_replication-fails env primary secondary wide s = (whole env primary secondary wide).at s
