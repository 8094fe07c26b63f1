-- ===== src/Reconciler/Judgement.antt =====
-- What the verdict of `checkHealth` sends to the API server, and what is in memory behind it.
use mariadb_ha_operator.Base.{◌≡◌, ℤ, false, String, Option, none, some, ◌∷◌, if◌then◌else◌}
use mariadb_ha_operator.Api.{MariaDbHa, Phase, running, degraded, ◌is◌}
use mariadb_ha_operator.World.{Error, ok, err, Env, State, History, EventType, Call}
use mariadb_ha_operator.World.Outcome.{Outcome, requeue_in, failed}
use mariadb_ha_operator.Health.Checks.{HealthCheckResult}

-- The phase for a cluster whose primary is healthy.
abbrev pub phase_for : HealthCheckResult → Phase
phase_for health =
    if health.secondary_healthy
    then (if health.replication_healthy then running else degraded)
    else degraded

abbrev pub with_phase : Phase → MariaDbHa → MariaDbHa
with_phase p ha = record ha { status = record ha.status { phase = p } }

abbrev pub with_lag : ℤ → MariaDbHa → MariaDbHa
with_lag lag ha = record ha { status = record ha.status { replication_lag = some lag } }

-- The state behind a write of the status as `sent`, with the answer `ha`.
abbrev pub written : MariaDbHa → MariaDbHa → History → State
written sent ha h = record { ha = ha; history = Call.update_status sent ∷ h }

-- The phase was `p` already, or an event was emitted and the status written with `p`, which the API
-- server has accepted.
pub data Entered (env : Env) (p : Phase) (s : State) : State → Type 0 where
  was_in : s.ha.status.phase ≡ p → Entered env p s s
  wrote :
      (s.ha.status.phase is p) ≡ false
      → (kind : EventType) (reason : String) (ha : MariaDbHa)
      → env.update_status (Call.event kind reason ∷ s.history) (with_phase p s.ha) ≡ ok ha
      → Entered env p s (written (with_phase p s.ha) ha (Call.event kind reason ∷ s.history))

-- No lag was measured, or the status was written with it, which the API server has accepted.
pub data Recorded (env : Env) (measured : Option ℤ) (s : State) : State → Type 0 where
  unmeasured : measured ≡ none → Recorded env measured s s
  recorded :
      (lag : ℤ)
      → measured ≡ some lag
      → (ha : MariaDbHa) → env.update_status s.history (with_lag lag s.ha) ≡ ok ha
      → Recorded env measured s (written (with_lag lag s.ha) ha s.history)

-- What checkHealth does for the phase `p` and the lag behind a complete check that left the state `s`.
pub data Verdict (env : Env) (p : Phase) (measured : Option ℤ) (s : State)
    : Outcome → State → Type 0 where
  judged :
      (t u : State)
      → Entered env p s t
      → Recorded env measured t u
      → u.ha.status.phase ≡ p
      → Verdict env p measured s (requeue_in 5) u
  -- The write of the phase was refused.
  unwritten :
      (e : Error)
      → (s.ha.status.phase is p) ≡ false
      → (kind : EventType) (reason : String)
      → env.update_status (Call.event kind reason ∷ s.history) (with_phase p s.ha) ≡ err e
      → Verdict env p measured s
          (failed e)
          (written (with_phase p s.ha) (with_phase p s.ha) (Call.event kind reason ∷ s.history))
  -- The write of the lag was refused.
  unrecorded :
      (e : Error) (t : State)
      → Entered env p s t
      → t.ha.status.phase ≡ p
      → (lag : ℤ) → measured ≡ some lag
      → env.update_status t.history (with_lag lag t.ha) ≡ err e
      → Verdict env p measured s
          (failed e)
          (written (with_lag lag t.ha) (with_lag lag t.ha) t.history)
