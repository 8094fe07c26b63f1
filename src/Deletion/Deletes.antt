-- ===== src/Deletion/Deletes.antt =====
-- An API server that answers every Get and on which nobody else creates objects.
use mariadb_ha_operator.Base.{◌≡◌, none, some, ◌∷◌, ◌⊎◌}
use mariadb_ha_operator.Kube.{StatefulSet, Service, ConfigMap}
use mariadb_ha_operator.World.{
  not_found, ok, err, ObjectKey, Kind, stateful_set, service, config_map, Call, Env, History,
}

-- A Get of the object, if it is of one of the three kinds, answers that there is none.
abbrev pub IsGone : Env → Kind → ObjectKey → History → Type 0
IsGone env stateful_set k h = env.get_stateful_set h k ≡ err not_found
IsGone env service k h = env.get_service h k ≡ err not_found
IsGone env config_map k h = env.get_config_map h k ≡ err not_found
IsGone env _ k h = Unit {0}

abbrev pub CreatesNothing : Call → Type 0
CreatesNothing (Call.create _) = ⊥
CreatesNothing _ = Unit

-- As documented for Get and Delete, with no Get that fails for another reason and no object that a
-- finalizer of its own holds back.
pub record Deletes (env : Env) : Type 0 where
  pub stateful_sets :
      (h : History) (k : ObjectKey)
      → IsGone env stateful_set k h ⊎ ((o : StatefulSet) × (env.get_stateful_set h k ≡ ok o))
  pub services :
      (h : History) (k : ObjectKey)
      → IsGone env service k h ⊎ ((o : Service) × (env.get_service h k ≡ ok o))
  pub config_maps :
      (h : History) (k : ObjectKey)
      → IsGone env config_map k h ⊎ ((o : ConfigMap) × (env.get_config_map h k ≡ ok o))
  pub stays :
      (c : Call) (h : History) (kind : Kind) (k : ObjectKey)
      → CreatesNothing c
      → IsGone env kind k h
      → IsGone env kind k (c ∷ h)
  pub deleted :
      (h : History) (kind : Kind) (k : ObjectKey)
      → (env.delete h kind k ≡ none) ⊎ (env.delete h kind k ≡ some not_found)
      → IsGone env kind k (Call.delete kind k ∷ h)

-- More calls were made, which create nothing.
pub data Extends (h : History) : History → Type 0 where
  no_more : Extends h h
  more : (c : Call) (h' : History) → CreatesNothing c → Extends h h' → Extends h (c ∷ h')

pub Extends-trans : (h h' h'' : History) → Extends h h' → Extends h' h'' → Extends h h''
Extends-trans h h' h'' e no_more = e
Extends-trans h h' h'' e (more c g n e') = more c g n (Extends-trans h h' g e e')

module _ (env : Env) (law : Deletes env) where
  pub stays_gone :
      (kind : Kind) (k : ObjectKey) (h h' : History)
      → Extends h h'
      → IsGone env kind k h
      → IsGone env kind k h'
  stays_gone kind k h h' no_more g = g
  stays_gone kind k h h' (more c h'' n e) g = law.stays c h'' kind k n (stays_gone kind k h h'' e g)
