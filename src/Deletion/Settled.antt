-- ===== src/Deletion/Settled.antt =====
-- When a deletion lets the MariaDBHA go.
use mariadb_ha_operator.Base.{
  ◌≡◌, refl, subst, String, Bool, true, false, Option, none, some, List, [], ◌∷◌, All, ◌⊎◌, inl,
  inr, if◌then◌else◌,
}
use mariadb_ha_operator.Api.{MariaDbHa}
use mariadb_ha_operator.World.{
  Error, not_found, other, wrapped, panicked, Result, ok, err, Kind, stateful_set, service,
  config_map, mariadb_ha, secret, pod, Env, State, History, Flow, next, exit, Go, ◌>>=◌, ◌>>◌,
  return, call, function, gets, pass, modify, merge, continue,
}
use mariadb_ha_operator.World.Calls.{calls, key_of, delete, update_mariadb_ha}
use mariadb_ha_operator.World.Outcome.{Outcome, flow, failed, no_requeue, check}
use mariadb_ha_operator.Deletion.{
  remove_finalizer, found, unless_not_found, fetch, delete_object, delete_objects, owned_objects,
  handle_deletion,
}

-- The Get of an object of the program's three kinds failed, in some history of calls.
abbrev pub Unread : Env → MariaDbHa → Kind → String → History → Type 0
Unread env ha stateful_set name h = (e : Error) × (env.get_stateful_set h (key_of ha name) ≡ err e)
Unread env ha service name h = (e : Error) × (env.get_service h (key_of ha name) ≡ err e)
Unread env ha _ name h = (e : Error) × (env.get_config_map h (key_of ha name) ≡ err e)

-- The API server has accepted the Delete of the object, or has answered that there is none; or the
-- Get before it has failed.
pub data IsSettled (env : Env) (ha : MariaDbHa) (kind : Kind) (name : String) : Type 0 where
  unread : (h : History) → Unread env ha kind name h → IsSettled env ha kind name
  deleted : (h : History) → env.delete h kind (key_of ha name) ≡ none → IsSettled env ha kind name
  absent :
      (h : History)
      → env.delete h kind (key_of ha name) ≡ some not_found
      → IsSettled env ha kind name

-- What the block of one object leaves.
abbrev Block : Env → MariaDbHa → Type 0 → Flow Outcome (Unit {0}) × State → Type 0
Block env ha Goal (next _, s) = Goal × (s.ha ≡ ha)
Block env ha Goal (exit r, s) = ((e : Error) × (r ≡ failed e)) × (s.ha ≡ ha)

not_found-err : {A : Type 0} (r : Result A) → found r ≡ false → (e : Error) × (r ≡ err e)
not_found-err (ok a) h = absurd cc
not_found-err (err e) h = (e, refl)

module _ (env : Env) where
  answered :
      (kind : Kind) (name : String) (ha : MariaDbHa) (h : History) (r : Option Error) (s : State)
      → env.delete h kind (key_of ha name) ≡ r
      → s.ha ≡ ha
      → Block env ha (IsSettled env ha kind name) (check (unless_not_found r) s)
  unfolding flow
  answered kind name ha h none s e same = (deleted h e, same)
  answered kind name ha h (some not_found) s e same = (absent h e, same)
  answered kind name ha h (some (other m)) s e same = ((other m, refl), same)
  answered kind name ha h (some (wrapped m e')) s e same = ((wrapped m e', refl), same)
  answered kind name ha h (some (panicked m)) s e same = ((panicked m, refl), same)

  -- The part of the block behind the Get, which has found the object or not.
  attempt :
      (there : Bool) (kind : Kind) (name : String) (s : State)
      → (there ≡ false → IsSettled env s.ha kind name)
      → Block env s.ha (IsSettled env s.ha kind name) (
          (if there
              then (call (delete env kind (key_of s.ha name)) >>= λ refused.
                  check (unless_not_found refused))
              else pass)
            s)
  unfolding flow calls
  attempt true kind name s missing = answered kind name s.ha s.history _ _ refl refl
  attempt false kind name s missing = (missing refl, refl)

  delete_object-IsSettled :
      (kind : Kind) (name : String) (s : State)
      → Block env s.ha (IsSettled env s.ha kind name) (delete_object env kind name s)
  unfolding ◌>>=◌ return call function gets calls fetch delete_object
  delete_object-IsSettled stateful_set name s =
      attempt _ stateful_set name _ (λ h. unread s.history (not_found-err _ h))
  delete_object-IsSettled service name s =
      attempt _ service name _ (λ h. unread s.history (not_found-err _ h))
  delete_object-IsSettled config_map name s =
      attempt _ config_map name _ (λ h. unread s.history (not_found-err _ h))
  delete_object-IsSettled mariadb_ha name s =
      attempt _ mariadb_ha name _ (λ h. unread s.history (not_found-err _ h))
  delete_object-IsSettled secret name s =
      attempt _ secret name _ (λ h. unread s.history (not_found-err _ h))
  delete_object-IsSettled pod name s =
      attempt _ pod name _ (λ h. unread s.history (not_found-err _ h))

  abbrev AllSettled : MariaDbHa → List (Kind × String) → Type 0
  AllSettled ha os = All (λ (o : Kind × String). IsSettled env ha o.0 o.1) os

  chain :
      (G H : Type 0) (ha : MariaDbHa) (r : Flow Outcome (Unit {0}) × State)
      (k : Go (Flow Outcome (Unit {0})))
      → Block env ha G r
      → ((s : State) → s.ha ≡ ha → Block env ha H (k s))
      → Block env ha (G × H) (continue r.0 (λ _. k) r.1)
  chain G H ha (next u, s) k (g, same) f = both g (k s) (f s same)
    where
      both : G → (r : Flow Outcome (Unit {0}) × State) → Block env ha H r → Block env ha (G × H) r
      both g (next u, s) (h, same) = ((g, h), same)
      both g (exit r, s) b = b
  chain G H ha (exit r, s) k b f = b

  delete_objects-AllSettled :
      (os : List (Kind × String)) (ha : MariaDbHa) (s : State)
      → s.ha ≡ ha
      → Block env ha (AllSettled ha os) (delete_objects env os s)
  unfolding delete_objects pass ◌>>=◌
  delete_objects-AllSettled [] ha s same = (tt, same)
  delete_objects-AllSettled ((kind, name) ∷ os) ha s same =
      chain _ _ ha (delete_object env kind name s) (delete_objects env os)
        (subst (λ x. Block env x (IsSettled env x kind name) (delete_object env kind name s)) same
          (delete_object-IsSettled kind name s))
        (λ s' same'. delete_objects-AllSettled os ha s' same')

-- handleDeletion takes the finalizer off only if every one of the eight objects is settled: its
-- Delete was accepted or answered by NotFound, or its Get failed. Otherwise it fails and the object in
-- memory is the one that it was called with, its finalizer included.
pub handle_deletion-cases :
    (env : Env) (s : State)
    → All (λ (o : Kind × String). IsSettled env s.ha o.0 o.1) (owned_objects s.ha.name)
      ⊎ (((e : Error) × ((handle_deletion env s).0 ≡ failed e))
          × ((handle_deletion env s).1.ha ≡ s.ha))
unfolding handle_deletion function gets ◌>>=◌
handle_deletion-cases env s =
    finish (delete_objects env (owned_objects s.ha.name) s)
      (delete_objects-AllSettled env (owned_objects s.ha.name) s.ha s refl)
  where
    rest : Unit {0} → Go (Flow Outcome Outcome)
    rest _ =
        modify (λ ha. record ha { finalizers = remove_finalizer ha.finalizers })
        >> (call (update_mariadb_ha env) >>= λ refused. (check refused >> return no_requeue))

    finish :
        (r : Flow Outcome (Unit {0}) × State)
        → Block env s.ha (AllSettled env s.ha (owned_objects s.ha.name)) r
        → AllSettled env s.ha (owned_objects s.ha.name)
          ⊎ (((e : Error) × (merge (continue r.0 rest r.1).0 ≡ failed e))
              × ((continue r.0 rest r.1).1.ha ≡ s.ha))
    finish (next u, s') (settled, same) = inl settled
    finish (exit o, s') b = inr b
