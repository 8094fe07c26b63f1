-- ===== src/StatefulSets/Updates.antt =====
-- When `needsUpdate` asks for an update of a StatefulSet, and what that means for one that the API
-- server has filled in.
use mariadb_ha_operator.Base.{
  ◌≡◌, refl, ℕ, String, Bool, true, false, Option, none, some, List, [], ◌∷◌, string_eq, nat_eq,
  int_eq, arith, nat_beq_iff, int_beq_iff, eq_iff, All, ◌≢◌, ◌↔◌,
}
use mariadb_ha_operator.Api.{Opaque, MariaDbHa, InstanceConfig}
use mariadb_ha_operator.Kube.{Volume, Container, StatefulSet}
use mariadb_ha_operator.World.{ok}
use mariadb_ha_operator.StatefulSets.Build.{
  build_stateful_set, volumes_of, volumes_equal, needs_update, containers_differ, stateful_set_of,
  option_beq,
}

-- The first containers have the same image and the same resources, where both lists have one.
abbrev pub SameFirst : List Container → List Container → Type 0
SameFirst (c ∷ _) (d ∷ _) = (c.image ≡ d.image) × (c.resources ≡ d.resources)
SameFirst _ _ = Unit

option_beq_iff : (a b : Option ℕ) → (option_beq a b ≡ true) ↔ (a ≡ b)
unfolding option_beq
option_beq_iff none none = ground arith
option_beq_iff none (some b) = ground arith
option_beq_iff (some a) none = ground arith
option_beq_iff (some a) (some b) = ground (arith, nat_beq_iff a b)

volumes_equal_iff : (vs ws : List Volume) → (volumes_equal vs ws ≡ true) ↔ (vs ≡ ws)
unfolding volumes_equal
volumes_equal_iff [] [] = ground arith
volumes_equal_iff [] (w ∷ ws) = ground arith
volumes_equal_iff (v ∷ vs) [] = ground arith
volumes_equal_iff (v ∷ vs) (w ∷ ws) = grind (
  arith,
  eq_iff v.name w.name,
  eq_iff v.config_map w.config_map,
  option_beq_iff v.default_mode w.default_mode,
  volumes_equal_iff vs ws,
)

containers_differ_iff :
    (cs ds : List Container) → (containers_differ cs ds ≡ false) ↔ SameFirst cs ds
unfolding containers_differ
containers_differ_iff [] ds = ground arith
containers_differ_iff (c ∷ cs) [] = ground arith
containers_differ_iff (c ∷ cs) (d ∷ ds) =
    grind (arith, eq_iff c.image d.image, eq_iff c.resources d.resources)

-- needsUpdate answers false exactly if the replicas, the images and resources of the first
-- containers, and the volumes all agree.
pub needs_update_iff :
    (current desired : StatefulSet)
    → (needs_update current desired ≡ false) ↔ (
        (current.replicas ≡ desired.replicas)
        × SameFirst current.template.containers desired.template.containers
        × (current.template.volumes ≡ desired.template.volumes))
unfolding needs_update
needs_update_iff current desired = grind (
  arith,
  int_beq_iff current.replicas desired.replicas,
  containers_differ_iff current.template.containers desired.template.containers,
  volumes_equal_iff current.template.volumes desired.template.volumes,
)

built_volumes :
    (parse_quantity : String → Option Opaque) (ha : MariaDbHa) (p : Bool) (ic : InstanceConfig)
    (config_map : String) (desired : StatefulSet)
    → build_stateful_set parse_quantity ha p ic config_map ≡ ok desired
    → desired.template.volumes ≡ volumes_of config_map
unfolding build_stateful_set stateful_set_of
built_volumes parse ha p ic config_map desired built = ground (arith, built)

filled_differ :
    (vs : List Volume) (config_map : String)
    → All (λ v. v.default_mode ≢ none) vs
    → volumes_equal vs (volumes_of config_map) ≡ false
unfolding volumes_equal option_beq
filled_differ [] config_map filled = refl
filled_differ (v ∷ vs) config_map (has_mode, rest) = ground (arith, has_mode)

-- A StatefulSet whose ConfigMap volumes all have a file mode, as the API server fills it in, is never
-- up to date: whatever buildStatefulSet builds for the instance, needsUpdate asks for an update.
pub needs_update-filled :
    (parse_quantity : String → Option Opaque) (ha : MariaDbHa) (p : Bool) (ic : InstanceConfig)
    (config_map : String) (current desired : StatefulSet)
    → build_stateful_set parse_quantity ha p ic config_map ≡ ok desired
    → All (λ v. v.default_mode ≢ none) current.template.volumes
    → needs_update current desired ≡ true
unfolding needs_update
needs_update-filled parse ha p ic config_map current desired built filled = grind (
  arith,
  built_volumes parse ha p ic config_map desired built,
  filled_differ current.template.volumes config_map filled,
)
