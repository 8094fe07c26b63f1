-- ===== src/Sessions/Handles.antt =====
-- The database handles that are open, for each server and login: what each call of the history did to
-- their number.
use mariadb_ha_operator.Base.{
  ◌≡◌, refl, ap, ◌∙◌, ℕ, suc, ◌-◌, Bool, true, false, ◌&&◌, ◌==◌, string_eq, nat_eq, if◌then◌else◌,
  Option, none, some, [], ◌∷◌, arith,
}
use mariadb_ha_operator.World.Sql.{MariaDbConnectionInfo}
use mariadb_ha_operator.World.{Error, Call, Env, State, History, Go, deferring}
use mariadb_ha_operator.World.Calls.{sql_open, sql_close}
use mariadb_ha_operator.World.Keeps.{Keeps}
use mariadb_ha_operator.World.Keeps.Calls.{IsQuiet, IsStable}
use mariadb_ha_operator.World.Ensures.{Leaves, Leaves-deferring, Leaves-keep}

-- Two handles are for the same connection.
abbrev pub same_info : MariaDbConnectionInfo → MariaDbConnectionInfo → Bool
same_info i j =
    i.host == j.host
    && i.port == j.port
    && i.username == j.username
    && i.password == j.password
    && i.database == j.database

-- The number of handles for `j` with one for `i` more.
abbrev pub one_more : MariaDbConnectionInfo → MariaDbConnectionInfo → ℕ → ℕ
one_more i j n = if same_info i j then suc n else n

-- The number behind an attempt to open a handle for `i`.
abbrev pub after_open : MariaDbConnectionInfo → MariaDbConnectionInfo → Option Error → ℕ → ℕ
after_open i j none n = one_more i j n
after_open i j (some e) n = n

-- How many handles for `j` are open: sql.Open gives one unless it answers an error, and db.Close
-- takes it back.
unfoldable pub open_handles : Env → MariaDbConnectionInfo → History → ℕ
open_handles env j [] = 0
open_handles env j (Call.sql_open i ∷ h) = after_open i j (env.sql_open h i) (open_handles env j h)
open_handles env j (Call.sql_close i ∷ h) =
    let before = open_handles env j h in if same_info i j then before - 1 else before
open_handles env j (_ ∷ h) = open_handles env j h

close-one_more :
    (b : Bool) (n : ℕ) → (if b then (if b then suc n else n) - 1 else (if b then suc n else n)) ≡ n
close-one_more true n = omega arith
close-one_more false n = refl

module _ (env : Env) (j : MariaDbConnectionInfo) where
  quiet-open_handles :
      (c : Call) (h : History) → IsQuiet c → open_handles env j (c ∷ h) ≡ open_handles env j h
  unfolding open_handles
  quiet-open_handles (Call.sql_open i) h q = absurd q
  quiet-open_handles (Call.sql_close i) h q = absurd q
  quiet-open_handles _ h q = refl

  -- `n` handles for `j` are open.
  pub record Opened (n : ℕ) (s : State) : Type 0 where
    pub count : open_handles env j s.history ≡ n

  pub Opened-stable : (n : ℕ) → IsStable (Opened n)
  Opened-stable n = record {
    after = λ c q s w. record { count = quiet-open_handles c s.history q ∙ w.count };
  }

  pub sql_open-Opened :
      (n : ℕ) (i : MariaDbConnectionInfo)
      → Leaves (Opened n) (λ refused. Opened (after_open i j refused n)) (sql_open env i)
  unfolding sql_open open_handles
  sql_open-Opened n i = record {
    at = λ s w. record { count = ap (after_open i j (env.sql_open s.history i)) w.count };
  }

  pub sql_close-Opened :
      (n : ℕ) (i : MariaDbConnectionInfo)
      → Leaves (Opened (one_more i j n)) (λ _. Opened n) (sql_close i)
  unfolding sql_close open_handles
  sql_close-Opened n i = record {
    at = λ s w. record {
      count =
          ap (λ (before : ℕ). if same_info i j then before - 1 else before) w.count
          ∙ close-one_more (same_info i j) n;
    };
  }

  -- `defer db.Close()` around statements that leave the number as it is.
  pub closing :
      {R : Type 0} (n : ℕ) (i : MariaDbConnectionInfo) (m : Go R)
      → Keeps (Opened (one_more i j n)) m
      → Leaves (Opened (one_more i j n)) (λ _. Opened n) (deferring (sql_close i) m)
  closing n i m k = Leaves-deferring _ _ (Leaves-keep m k) (λ r. sql_close-Opened n i)
