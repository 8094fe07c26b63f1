-- ===== src/Phases.antt =====
-- The phases that the controller can write. For a set of phases, `Within` says of a state that the
-- phase in memory lies in the set, and so does every phase that was sent to the API server.
pub mod Steps
pub mod Cluster
pub mod Reconcile
use mariadb_ha_operator.Base.{◌≡◌, refl, List, [], ◌∷◌, subst, sym}
use mariadb_ha_operator.Api.{MariaDbHa, Phase}
use mariadb_ha_operator.World.{Result, ok, Call, Env, State, Go, made, History}
use mariadb_ha_operator.World.Calls.{update_status}
use mariadb_ha_operator.World.Laws.{StoresStatus}
use mariadb_ha_operator.World.Keeps.{Keeps}
use mariadb_ha_operator.World.Keeps.Calls.{IsQuiet, IsStable, IsTolerant, Keeps-update_status}

module _ (Q : Phase → Type 0) where
  abbrev pub Writes : Call → Type 0
  Writes (Call.update_status ha) = Q ha.status.phase
  Writes _ = Unit

  abbrev pub AllWrites : History → Type 0
  AllWrites [] = Unit
  AllWrites (c ∷ h) = Writes c × AllWrites h

  pub record Within (s : State) : Type 0 where
    pub now : Q s.ha.status.phase
    pub sent : AllWrites s.history

  pub quiet-Writes : (c : Call) → IsQuiet c → Writes c
  quiet-Writes (Call.update_status _) p = absurd p
  quiet-Writes _ p = tt

  pub Within-stable : IsStable Within
  Within-stable = record {
    after = λ c p s w. record { now = w.now; sent = (quiet-Writes c p, w.sent) };
  }

  pub Within-tolerant : IsTolerant Within
  Within-tolerant = record {
    stable = Within-stable;
    opened = λ i s w. record { now = w.now; sent = (tt, w.sent) };
    closed = λ i s w. record { now = w.now; sent = (tt, w.sent) };
  }

  module _ (env : Env) (law : StoresStatus env) where
    pub update_status-Within : Keeps Within (update_status env)
    update_status-Within =
        Keeps-update_status env (λ s w. record { now = w.now; sent = (w.now, w.sent) })
          (λ s ha w e. record {
            now = subst Q (sym (law.phase s.history s.ha ha e)) w.now;
            sent = (w.now, w.sent);
          })
