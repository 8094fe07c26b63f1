-- ===== src/Failover/TakeOver.antt =====
-- The names in the status before a failover, when the secondary has taken over, and what keeps them.
use mariadb_ha_operator.Base.{
  ◌≡◌, refl, ◌∙◌, ap, String, ℤ, Bool, some, List, [], ◌∷◌, ◌++◌, map, last?,
}
use mariadb_ha_operator.Api.{Time, MariaDbHa, FailoverEvent, recovering}
use mariadb_ha_operator.World.{Env, State, Call, made}
use mariadb_ha_operator.World.Calls.{update_status}
use mariadb_ha_operator.World.Laws.{StoresStatus}
use mariadb_ha_operator.World.Frame.{Frame}
use mariadb_ha_operator.World.Keeps.{Keeps}
use mariadb_ha_operator.World.Keeps.Calls.{IsStable, IsTolerant, Keeps-update_status}
use mariadb_ha_operator.Sessions.Tolerant.{tolerant-Sessions}
use mariadb_ha_operator.Health.Counters.{reset_failure_count}
use mariadb_ha_operator.Failover.{after_failover}

-- The primary and the secondary of the status.
pub record Serves (primary secondary : String) (s : State) : Type 0 where
  pub current_primary : s.ha.status.current_primary ≡ primary
  pub current_secondary : s.ha.status.current_secondary ≡ secondary

abbrev pub old_primaries : MariaDbHa → List String
old_primaries ha = map (λ (e : FailoverEvent). e.old_primary) ha.status.failover_history

-- The secondary has taken over from the primary.
pub record TookOver (primary secondary : String) (s : State) : Type 0 where
  pub serves : Serves secondary "" s
  pub phase : s.ha.status.phase ≡ recovering
  pub old_primary : last? (old_primaries s.ha) ≡ some primary

noted-Serves : (p q : String) (c : Call) (s : State) → Serves p q s → Serves p q (made c s)
noted-Serves p q c s w = record {
  current_primary = w.current_primary;
  current_secondary = w.current_secondary;
}

Serves-tolerant : (p q : String) → IsTolerant (Serves p q)
Serves-tolerant p q = record {
  stable = record { after = λ c quiet. noted-Serves p q c };
  opened = λ i. noted-Serves p q (Call.sql_open i);
  closed = λ i. noted-Serves p q (Call.sql_close i);
}

module _ (env : Env) (law : StoresStatus env) (p q : String) where
  pub Serves-Frame : Frame env (Serves p q)
  Serves-Frame = record {
    stable = (Serves-tolerant p q).stable;
    sessions = tolerant-Sessions env (Serves-tolerant p q);
    status =
        Keeps-update_status env (λ s w. noted-Serves p q (Call.update_status s.ha) s w)
          (λ s ha w e. record {
            current_primary = law.current_primary s.history s.ha ha e ∙ w.current_primary;
            current_secondary = law.current_secondary s.history s.ha ha e ∙ w.current_secondary;
          });
    conditions = λ cs s w. record {
      current_primary = w.current_primary;
      current_secondary = w.current_secondary;
    };
    lag = λ l s w. record {
      current_primary = w.current_primary;
      current_secondary = w.current_secondary;
    };
    annotations = λ m s w. record {
      current_primary = w.current_primary;
      current_secondary = w.current_secondary;
    };
  }

  pub noted-TookOver : (c : Call) (s : State) → TookOver p q s → TookOver p q (made c s)
  noted-TookOver c s w = record {
    serves = record {
      current_primary = w.serves.current_primary;
      current_secondary = w.serves.current_secondary;
    };
    phase = w.phase;
    old_primary = w.old_primary;
  }

  pub TookOver-stable : IsStable (TookOver p q)
  TookOver-stable = record { after = λ c pl s w. noted-TookOver c s w }

  pub update_status-TookOver : Keeps (TookOver p q) (update_status env)
  update_status-TookOver =
      Keeps-update_status env (λ s w. noted-TookOver (Call.update_status s.ha) s w)
        (λ s ha w e. record {
          serves = record {
            current_primary = law.current_primary s.history s.ha ha e ∙ w.serves.current_primary;
            current_secondary =
                law.current_secondary s.history s.ha ha e ∙ w.serves.current_secondary;
          };
          phase = law.phase s.history s.ha ha e ∙ w.phase;
          old_primary = ap last? (law.old_primaries s.history s.ha ha e) ∙ w.old_primary;
        })

  pub reset-TookOver :
      (b : Bool) (s : State)
      → TookOver p q s
      → TookOver p q (record s { ha = reset_failure_count b s.ha })
  unfolding reset_failure_count
  reset-TookOver b s w = record {
    serves = record {
      current_primary = w.serves.current_primary;
      current_secondary = w.serves.current_secondary;
    };
    phase = w.phase;
    old_primary = w.old_primary;
  }

last_of_map :
    (es : List FailoverEvent) (e : FailoverEvent)
    → last? (map (λ (x : FailoverEvent). x.old_primary) (es ++ (e ∷ []))) ≡ some e.old_primary
last_of_map [] e = refl
last_of_map (x ∷ []) e = refl
last_of_map (x ∷ y ∷ es) e = last_of_map (y ∷ es) e

module _ (env : Env) (law : StoresStatus env) (p q : String) where
  pub takes_over :
      (now : Time) (d : ℤ) (s : State)
      → Serves p q s
      → TookOver p q (record s { ha = after_failover env now d s.ha })
  unfolding after_failover
  takes_over now d s w = record {
    serves = record { current_primary = w.current_secondary; current_secondary = refl };
    phase = refl;
    old_primary = last_of_map s.ha.status.failover_history _ ∙ ap some w.current_primary;
  }
