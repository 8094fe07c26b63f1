-- ===== src/Deletion/Keeps.antt =====
-- What the deletion asks of a predicate: that it is kept by plain calls and by the write of the
-- MariaDBHA, and does not look at the object in memory.
use mariadb_ha_operator.Base.{String, List, [], ◌∷◌}
use mariadb_ha_operator.Api.{MariaDbHa}
use mariadb_ha_operator.World.{
  Kind, stateful_set, service, config_map, mariadb_ha, secret, pod, Env, State, ◌>>=◌, ◌>>◌, call,
  modify, return,
}
use mariadb_ha_operator.World.Calls.{update_mariadb_ha}
use mariadb_ha_operator.World.Outcome.{Outcome, check}
use mariadb_ha_operator.World.Keeps.{
  Keeps, Keeps-bind, Keeps-call, Keeps-function, Keeps-pass, Keeps-modify, Keeps-gets,
}
use mariadb_ha_operator.World.Keeps.Calls.{IsStable, call_rules}
use mariadb_ha_operator.Deletion.{fetch, delete_object, delete_objects, handle_deletion}

module _ {P : State → Type 0} (env : Env) (stable : IsStable P) where
  fetch-Keeps : (k : Kind) (n : String) → Keeps P (fetch env k n)
  unfolding fetch
  fetch-Keeps stateful_set n = search call_rules
  fetch-Keeps service n = search call_rules
  fetch-Keeps config_map n = search call_rules
  fetch-Keeps mariadb_ha n = search call_rules
  fetch-Keeps secret n = search call_rules
  fetch-Keeps pod n = search call_rules

  delete_objects-Keeps : (os : List (Kind × String)) → Keeps P (delete_objects env os)
  unfolding delete_objects delete_object
  delete_objects-Keeps [] = Keeps-pass
  delete_objects-Keeps ((k, n) ∷ os) =
      Keeps-bind _ _ (search (call_rules, fetch-Keeps) depth 30) (λ _. delete_objects-Keeps os)

  module _ (written : Keeps P (update_mariadb_ha env))
      (changed : (f : MariaDbHa → MariaDbHa) (s : State) → P s → P (record s { ha = f s.ha })) where
    -- A change of the object, and its write.
    pub change-Keeps :
        (f : MariaDbHa → MariaDbHa) (o : Outcome)
        → Keeps P (
            modify f
            >> (call (update_mariadb_ha env) >>= λ refused.
                (check refused >> return {A = Outcome} o)))
    change-Keeps f o =
        Keeps-bind _ _ (Keeps-modify f (changed f))
          (λ _. Keeps-bind _ _ (Keeps-call _ written) (λ refused. search call_rules))

    pub handle_deletion-Keeps : Keeps P (handle_deletion env)
    unfolding handle_deletion
    handle_deletion-Keeps = Keeps-function _ (
        Keeps-bind _ _ (Keeps-gets _)
          (λ ha. Keeps-bind _ _ (delete_objects-Keeps _) (λ _. change-Keeps _ _)))
