-- ===== src/Tests/Deleted.antt =====
-- A deletion on an API server on which objects stay until they are deleted.
use mariadb_ha_operator.Base.{
  ◌≡◌, refl, String, Bool, true, false, none, some, [], ◌∷◌, All, ◌⊎◌, inl, inr, ◌==◌, ◌&&◌, ◌||◌,
  string_eq, string_beq_refl,
}
use mariadb_ha_operator.Api.{running}
use mariadb_ha_operator.Kube.{ConfigMap}
use mariadb_ha_operator.World.{
  Result, ok, err, not_found, ObjectKey, Kind, stateful_set, service, config_map, mariadb_ha,
  secret, pod, Call, Env, History,
}
use mariadb_ha_operator.World.Calls.{calls, key_of}
use mariadb_ha_operator.World.Outcome.{flow, no_requeue}
use mariadb_ha_operator.Deletion.{
  owned_objects, fetch, delete_object, delete_objects, handle_deletion,
}
use mariadb_ha_operator.Deletion.Deletes.{IsGone, CreatesNothing, Deletes}
use mariadb_ha_operator.Deletion.Gone.{handle_deletion-gone}
use mariadb_ha_operator.Tests.Data.{env, in_phase, start, stored_set, last_service}

abbrev same_kind : Kind → Kind → Bool
same_kind stateful_set stateful_set = true
same_kind service service = true
same_kind config_map config_map = true
same_kind _ _ = false

abbrev same_key : ObjectKey → ObjectKey → Bool
same_key j k = j.namespace == k.namespace && j.name == k.name

abbrev deletes : Kind → ObjectKey → Call → Bool
deletes kind k (Call.delete kind' k') = same_kind kind' kind && same_key k' k
deletes kind k _ = false

abbrev deleted : Kind → ObjectKey → History → Bool
deleted kind k [] = false
deleted kind k (c ∷ h) = deletes kind k c || deleted kind k h

abbrev answer : {A : Type 0} → A → Bool → Result A
answer o true = err not_found
answer o false = ok o

abbrev stored_map : ConfigMap
stored_map = record {
  name = "demo";
  namespace = "databases";
  labels = [];
  owner = none;
  contents = [];
}

abbrev deleting_env : Env
deleting_env = record env {
  get_stateful_set = λ h k. answer stored_set (deleted stateful_set k h);
  get_service = λ h k. answer (last_service []) (deleted service k h);
  get_config_map = λ h k. answer (stored_map) (deleted config_map k h);
}

answer-cases :
    {A : Type 0} (o : A) (b : Bool) → (answer o b ≡ err not_found) ⊎ ((x : A) × (answer o b ≡ ok x))
answer-cases o true = inl refl
answer-cases o false = inr (o, refl)

answer-stays :
    {A : Type 0} (o : A) (a b : Bool)
    → answer o b ≡ err not_found
    → answer o (a || b) ≡ err not_found
answer-stays o true b e = refl
answer-stays o false b e = e

answer-first : {A : Type 0} (o : A) (a b : Bool) → a ≡ true → answer o (a || b) ≡ err not_found
answer-first o true b e = refl
answer-first o false b e = cc

same_key_refl : (k : ObjectKey) → same_key k k ≡ true
same_key_refl k = rw (string_beq_refl k.namespace) (string_beq_refl k.name)

deleting_env-Deletes : Deletes deleting_env
deleting_env-Deletes = record {
  stateful_sets = λ h k. answer-cases stored_set (deleted stateful_set k h);
  services = λ h k. answer-cases (last_service []) (deleted service k h);
  config_maps = λ h k. answer-cases stored_map (deleted config_map k h);
  stays = stays;
  deleted = gone;
}
  where
    stays :
        (c : Call) (h : History) (kind : Kind) (k : ObjectKey)
        → CreatesNothing c
        → IsGone deleting_env kind k h
        → IsGone deleting_env kind k (c ∷ h)
    stays c h stateful_set k n g = answer-stays stored_set (deletes stateful_set k c) _ g
    stays c h service k n g = answer-stays (last_service []) (deletes service k c) _ g
    stays c h config_map k n g = answer-stays stored_map (deletes config_map k c) _ g
    stays c h mariadb_ha k n g = tt
    stays c h secret k n g = tt
    stays c h pod k n g = tt

    gone :
        (h : History) (kind : Kind) (k : ObjectKey)
        → (deleting_env.delete h kind k ≡ none) ⊎ (deleting_env.delete h kind k ≡ some not_found)
        → IsGone deleting_env kind k (Call.delete kind k ∷ h)
    gone h stateful_set k a = answer-first stored_set _ _ (same_key_refl k)
    gone h service k a = answer-first (last_service []) _ _ (same_key_refl k)
    gone h config_map k a = answer-first stored_map _ _ (same_key_refl k)
    gone h mariadb_ha k a = tt
    gone h secret k a = tt
    gone h pod k a = tt

ends : (handle_deletion deleting_env (start running)).0 ≡ no_requeue
unfolding calls flow handle_deletion delete_objects delete_object fetch
ends = refl

handle_deletion-gone_example :
    All
      (λ (o : Kind × String).
        IsGone deleting_env o.0
          (key_of (in_phase running) o.1)
          (handle_deletion deleting_env (start running)).1.history)
      (owned_objects "demo")
handle_deletion-gone_example =
    handle_deletion-gone deleting_env (start running) deleting_env-Deletes ends
