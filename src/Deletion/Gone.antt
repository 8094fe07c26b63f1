-- ===== src/Deletion/Gone.antt =====
-- A deletion on an API server that answers every Get and on which nobody else creates objects.
use mariadb_ha_operator.Base.{
  ◌≡◌, refl, sym, subst, ap, String, Bool, true, false, Option, none, some, List, [], ◌∷◌, All, ◌⊎◌,
  inl, inr, if◌then◌else◌,
}
use mariadb_ha_operator.Api.{MariaDbHa}
use mariadb_ha_operator.World.{
  Error, not_found, other, wrapped, panicked, Result, ok, err, Kind, stateful_set, service,
  config_map, mariadb_ha, secret, pod, Call, Env, State, History, Flow, next, exit, Go, ◌>>=◌, ◌>>◌,
  return, call, function, gets, pass, modify, merge, continue,
}
use mariadb_ha_operator.World.Calls.{calls, key_of, delete, update_mariadb_ha, stored}
use mariadb_ha_operator.World.Outcome.{Outcome, flow, failed, no_requeue, check}
use mariadb_ha_operator.Deletion.{
  remove_finalizer, found, unless_not_found, fetch, delete_object, delete_objects, owned_objects,
  handle_deletion,
}
use mariadb_ha_operator.Deletion.Deletes.{
  IsGone, CreatesNothing, Deletes, Extends, no_more, more, Extends-trans, stays_gone,
}

unless_found :
    {A : Type 0} (r : Result A)
    → (r ≡ err not_found) ⊎ ((a : A) × (r ≡ ok a))
    → found r ≡ false
    → r ≡ err not_found
unless_found r (inl e) f = e
unless_found r (inr (a, e)) f = let wrong = ap found e in cc

module _ (env : Env) (law : Deletes env) where
  -- What statements leave that were begun with the object `ha` and the history `h`.
  abbrev Leaving :
      MariaDbHa → History → (History → Type 0) → Flow Outcome (Unit {0}) × State → Type 0
  Leaving ha h Goal (next _, s) = Goal s.history × (s.ha ≡ ha) × Extends h s.history
  Leaving ha h Goal (exit r, s) = (e : Error) × (r ≡ failed e)

  abbrev Gone : MariaDbHa → Kind → String → History → Type 0
  Gone ha kind name h = IsGone env kind (key_of ha name) h

  answered :
      (ha : MariaDbHa) (kind : Kind) (name : String) (h g : History) (r : Option Error) (s : State)
      → env.delete g kind (key_of ha name) ≡ r
      → s.history ≡ Call.delete kind (key_of ha name) ∷ g
      → s.ha ≡ ha
      → Extends h s.history
      → Leaving ha h (Gone ha kind name) (check (unless_not_found r) s)
  unfolding flow
  answered ha kind name h g none s e called kept ext = (
    subst (Gone ha kind name) (sym called) (law.deleted g kind (key_of ha name) (inl e)),
    kept,
    ext,
  )
  answered ha kind name h g (some not_found) s e called kept ext = (
    subst (Gone ha kind name) (sym called) (law.deleted g kind (key_of ha name) (inr e)),
    kept,
    ext,
  )
  answered ha kind name h g (some (other m)) s e called kept ext = (other m, refl)
  answered ha kind name h g (some (wrapped m x)) s e called kept ext = (wrapped m x, refl)
  answered ha kind name h g (some (panicked m)) s e called kept ext = (panicked m, refl)

  -- The part of the block behind the Get, which has found the object or not.
  attempt :
      (there : Bool) (kind : Kind) (name : String) (h : History) (s : State)
      → Extends h s.history
      → (there ≡ false → Gone s.ha kind name s.history)
      → Leaving s.ha h (Gone s.ha kind name) (
          (if there
              then (call (delete env kind (key_of s.ha name)) >>= λ refused.
                  check (unless_not_found refused))
              else pass)
            s)
  unfolding flow calls
  attempt true kind name h s ext missing =
      answered s.ha kind name h s.history _ _ refl refl refl (more _ _ tt ext)
  attempt false kind name h s ext missing = (missing refl, refl, ext)

  delete_object-Gone :
      (kind : Kind) (name : String) (s : State)
      → Leaving s.ha s.history (Gone s.ha kind name) (delete_object env kind name s)
  unfolding ◌>>=◌ return call function gets calls fetch delete_object
  delete_object-Gone stateful_set name s =
      attempt _ stateful_set name s.history _ (more _ _ tt no_more)
        (λ f. law.stays _ _ stateful_set _ tt (unless_found _ (law.stateful_sets s.history _) f))
  delete_object-Gone service name s =
      attempt _ service name s.history _ (more _ _ tt no_more)
        (λ f. law.stays _ _ service _ tt (unless_found _ (law.services s.history _) f))
  delete_object-Gone config_map name s =
      attempt _ config_map name s.history _ (more _ _ tt no_more)
        (λ f. law.stays _ _ config_map _ tt (unless_found _ (law.config_maps s.history _) f))
  delete_object-Gone mariadb_ha name s =
      attempt _ mariadb_ha name s.history _ (more _ _ tt no_more) (λ f. tt)
  delete_object-Gone secret name s =
      attempt _ secret name s.history _ (more _ _ tt no_more) (λ f. tt)
  delete_object-Gone pod name s = attempt _ pod name s.history _ (more _ _ tt no_more) (λ f. tt)

  abbrev AllGone : MariaDbHa → List (Kind × String) → History → Type 0
  AllGone ha os h = All (λ (o : Kind × String). Gone ha o.0 o.1 h) os

  -- A goal that the calls after it do not undo, and then another.
  chain :
      (kind : Kind) (name : String) (os : List (Kind × String)) (ha : MariaDbHa) (h : History)
      (r : Flow Outcome (Unit {0}) × State) (k : Go (Flow Outcome (Unit {0})))
      → Leaving ha h (Gone ha kind name) r
      → ((s : State) → s.ha ≡ ha → Leaving ha s.history (AllGone ha os) (k s))
      → Leaving ha h (AllGone ha ((kind, name) ∷ os)) (continue r.0 (λ _. k) r.1)
  chain kind name os ha h (next u, s) k (g, kept, ext) f = both (k s) (f s kept)
    where
      both :
          (r : Flow Outcome (Unit {0}) × State)
          → Leaving ha s.history (AllGone ha os) r
          → Leaving ha h (AllGone ha ((kind, name) ∷ os)) r
      both (next u, t) (gone, kept', ext') = (
        (stays_gone env law kind _ s.history t.history ext' g, gone),
        kept',
        Extends-trans h s.history t.history ext ext',
      )
      both (exit r, t) b = b
  chain kind name os ha h (exit r, s) k b f = b

  delete_objects-AllGone :
      (os : List (Kind × String)) (ha : MariaDbHa) (s : State)
      → s.ha ≡ ha
      → Leaving ha s.history (AllGone ha os) (delete_objects env os s)
  unfolding delete_objects pass ◌>>=◌
  delete_objects-AllGone [] ha s kept = (tt, kept, no_more)
  delete_objects-AllGone ((kind, name) ∷ os) ha s kept =
      chain kind name os ha s.history (delete_object env kind name s) (delete_objects env os)
        (subst (λ x. Leaving x s.history (Gone x kind name) (delete_object env kind name s)) kept
          (delete_object-Gone kind name s))
        (λ s' kept'. delete_objects-AllGone os ha s' kept')

  release : Unit {0} → Go (Flow Outcome Outcome)
  release _ =
      modify (λ ha. record ha { finalizers = remove_finalizer ha.finalizers })
      >> (call (update_mariadb_ha env) >>= λ refused. (check refused >> return no_requeue))

  AllGone-stays :
      (ha : MariaDbHa) (os : List (Kind × String)) (c : Call) (h : History)
      → CreatesNothing c
      → AllGone ha os h
      → AllGone ha os (c ∷ h)
  AllGone-stays ha [] c h n gone = tt
  AllGone-stays ha ((kind, name) ∷ os) c h n (g, gone) =
      (law.stays c h kind (key_of ha name) n g, AllGone-stays ha os c h n gone)

  answered_write :
      (ha : MariaDbHa) (os : List (Kind × String)) (r : Result MariaDbHa) (s : State)
      → AllGone ha os s.history
      → AllGone ha os
          (continue
            (next (stored r s).0)
            (λ refused. check refused >> return {A = Outcome} no_requeue)
            (stored r s).1).1.history
  unfolding flow
  answered_write ha os (ok x) s gone = gone
  answered_write ha os (err x) s gone = gone

  -- The write that takes the finalizer off creates nothing.
  release-AllGone :
      (ha : MariaDbHa) (os : List (Kind × String)) (s : State)
      → AllGone ha os s.history
      → AllGone ha os (release tt s).1.history
  unfolding flow calls release
  release-AllGone ha os s gone =
      let freed : MariaDbHa = record s.ha { finalizers = remove_finalizer s.ha.finalizers } in
      let write = Call.update_mariadb_ha freed in
      answered_write ha os (env.update_mariadb_ha s.history freed)
        (record { ha = freed; history = write ∷ s.history })
        (AllGone-stays ha os write s.history tt gone)

-- handleDeletion ends without an error and without a requeue only when the API server has none of the
-- eight objects any more: at its end a Get of each answers NotFound. It is assumed that a Get answers
-- with the object or with NotFound, that an object is gone once its Delete is accepted, and that no
-- object comes up that nobody creates.
pub handle_deletion-gone :
    (env : Env) (s : State)
    → Deletes env
    → (handle_deletion env s).0 ≡ no_requeue
    → All
        (λ (o : Kind × String). IsGone env o.0 (key_of s.ha o.1) (handle_deletion env s).1.history)
        (owned_objects s.ha.name)
unfolding handle_deletion function gets ◌>>=◌ release
handle_deletion-gone env s law =
    finish (delete_objects env (owned_objects s.ha.name) s)
      (delete_objects-AllGone env law (owned_objects s.ha.name) s.ha s refl)
  where
    finish :
        (r : Flow Outcome (Unit {0}) × State)
        → Leaving env law s.ha s.history (AllGone env law s.ha (owned_objects s.ha.name)) r
        → merge (continue r.0 (release env law) r.1).0 ≡ no_requeue
        → AllGone env law s.ha
            (owned_objects s.ha.name)
            (continue r.0 (release env law) r.1).1.history
    finish (next u, s') (gone, kept, ext) e =
        release-AllGone env law s.ha (owned_objects s.ha.name) s' gone
    finish (exit o, s') (x, y) e = cc
