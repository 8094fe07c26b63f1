-- ===== src/StatefulSets/ConfigMaps.antt =====
-- What `createOrUpdateConfigMap` returns: a ConfigMap that the API server has, with the texts of the
-- configuration.
use mariadb_ha_operator.Base.{
  ◌≡◌, refl, subst, ◌∙◌, ◌⊎◌, inl, inr, String, Bool, false, not, ◌||◌, none, some, [], ◌∷◌, arith,
  ◌==◌, string_eq, eq_iff,
}
use mariadb_ha_operator.StringMap.{StringMap, get, lookup}
use mariadb_ha_operator.Api.{MariaDbHa, MariaDbConfig}
use mariadb_ha_operator.Kube.{ConfigMap}
use mariadb_ha_operator.World.{not_found, Result, ok, err, config_map_object, Env, State, History}
use mariadb_ha_operator.World.Calls.{fetch_config_map, create, update}
use mariadb_ha_operator.World.Keeps.Calls.{
  Keeps-set_controller_reference, Keeps-create, Keeps-update, Keeps-fetch_config_map,
}
use mariadb_ha_operator.World.Answers.{Answered}
use mariadb_ha_operator.World.Ensures.{
  Ensures, Leaves, Leaves-function, Ensures-bind, Ensures-return, Ensures-if, Ensures-known,
}
use mariadb_ha_operator.World.Ask.{
  Holds, Holds-stable, Ensures-ask, Ensures-recall, Ensures-try_error, Ensures-ranged,
  Ensures-result,
}
use mariadb_ha_operator.Names.{config_name}
use mariadb_ha_operator.Config.{generate_mariadb_config, generate_init_script}
use mariadb_ha_operator.StatefulSets.{config_map_for, write_config_map, create_or_update_config_map}

-- The API server has returned the ConfigMap, or has taken it.
pub record IsStored (env : Env) (name : String) (cm : ConfigMap) : Type 0 where
  pub how :
      Answered (fetch_config_map env name) (ok cm)
      ⊎ Answered (create env (config_map_object cm)) none
      ⊎ Answered (update env (config_map_object cm)) none

abbrev pub SameTexts : ConfigMap → ConfigMap → Type 0
SameTexts a b =
    (get a.contents "mariadb.cnf" ≡ get b.contents "mariadb.cnf")
    × (get a.contents "init.sql" ≡ get b.contents "init.sql")

pub record IsGenerated (env : Env) (is_primary : Bool) (ha : MariaDbHa) (params : StringMap)
    (cm : ConfigMap) : Type 0 where
  -- The order in which the loop went through the parameters.
  pub order : StringMap
  pub ordered : (h : History) × (env.range h params ≡ order)
  pub server : get cm.contents "mariadb.cnf" ≡ generate_mariadb_config is_primary params order
  pub script : get cm.contents "init.sql" ≡ generate_init_script is_primary ha

module _ (env : Env) (ha : MariaDbHa) (name : String) (new : ConfigMap) where
  abbrev Written : Result ConfigMap → State → Type 0
  Written (err e) s = Unit
  Written (ok cm) s = IsStored env name cm × SameTexts cm new

  write_config_map-Written :
      (answer : Result ConfigMap)
      → Answered (fetch_config_map env name) answer
      → Ensures (Holds ha) Written Written (write_config_map env new answer)
  unfolding write_config_map
  write_config_map-Written (err not_found) read =
      Ensures-ask _ _ (Keeps-create env _ (Holds-stable ha)) (λ o made.
        Ensures-try_error o _ (λ e s w. tt)
          (λ h. Ensures-return _ (λ s w. (
            record {
              how = inr (inl (subst (Answered (create env (config_map_object new))) h made));
            },
            (refl, refl),
          ))))
  write_config_map-Written (err e) read = Ensures-return _ (λ s w. tt)
  write_config_map-Written (ok found) read =
      let updated = record found { contents = new.contents } in
      Ensures-if
        (not (get found.contents "mariadb.cnf" == get new.contents "mariadb.cnf")
          || not (get found.contents "init.sql" == get new.contents "init.sql"))
        _ _
        (λ differ. Ensures-ask _ _ (Keeps-update env _ (Holds-stable ha)) (λ o made.
          Ensures-try_error o _ (λ e s w. tt)
            (λ h. Ensures-return _ (λ s w. (
              record {
                how = inr (inr (subst (Answered (update env (config_map_object updated))) h made));
              },
              (refl, refl),
            )))))
        (λ same. Ensures-return _ (λ s w. (record { how = inl read }, agree found same)))
    where
      agree :
          (found : ConfigMap)
          → (not (get found.contents "mariadb.cnf" == get new.contents "mariadb.cnf")
              || not (get found.contents "init.sql" == get new.contents "init.sql"))
            ≡ false
          → SameTexts found new
      agree found same = ground (
        arith,
        eq_iff (get found.contents "mariadb.cnf") (get new.contents "mariadb.cnf"),
        eq_iff (get found.contents "init.sql") (get new.contents "init.sql"),
      )

-- The two texts of the ConfigMap that is built.
module _ (server script : String) where
  server_text : get (("mariadb.cnf", server) ∷ ("init.sql", script) ∷ []) "mariadb.cnf" ≡ server
  unfolding get lookup
  server_text = refl

  script_text : get (("mariadb.cnf", server) ∷ ("init.sql", script) ∷ []) "init.sql" ≡ script
  unfolding get lookup
  script_text = refl

module _ (env : Env) (p : Bool) (ha : MariaDbHa) (config : MariaDbConfig) where
  abbrev Created : Result ConfigMap → State → Type 0
  Created (err e) s = Unit
  Created (ok cm) s =
      IsStored env (config_name ha.name p) cm
      × IsGenerated env p ha config.configuration_parameters cm

  Written-Created :
      (order : StringMap) (new : ConfigMap)
      → ((h : History) × (env.range h config.configuration_parameters ≡ order))
      → get new.contents "mariadb.cnf"
        ≡ generate_mariadb_config p config.configuration_parameters order
      → get new.contents "init.sql" ≡ generate_init_script p ha
      → (r : Result ConfigMap) (s : State) → Written env ha (config_name ha.name p) new r s
      → Created r s
  Written-Created order new ordered a b (err e) s w = tt
  Written-Created order new ordered a b (ok cm) s (stored, (server, script)) = (
    stored,
    record { order = order; ordered = ordered; server = server ∙ a; script = script ∙ b },
  )

  create_or_update_config_map-Created :
      Leaves (Holds ha) Created (create_or_update_config_map env p config)
  unfolding create_or_update_config_map
  create_or_update_config_map-Created =
      let stable = Holds-stable ha in
      let params = config.configuration_parameters in
      Leaves-function _ (
        Ensures-recall _ _ (
          Ensures-bind {W = λ order s. ((h : History) × (env.range h params ≡ order)) × Holds ha s}
            _ _ (Ensures-ranged env params)
            (λ order.
              Ensures-known ((h : History) × (env.range h params ≡ order)) _ (Holds ha) _ (λ s w. w)
                (λ ordered.
                  Ensures-ask _ _ (Keeps-set_controller_reference env _ stable) (λ o asked.
                    Ensures-try_error o _ (λ e s w. tt)
                      (λ h. Ensures-ask _ _ (Keeps-fetch_config_map env _ stable) (λ answer read.
                        let cm = record (config_map_for ha p params order) {
                          owner = some ha.name;
                        } in
                        Ensures-result _
                          (Written-Created order cm ordered (server_text _ _) (script_text _ _))
                          (write_config_map-Written env ha (config_name ha.name p) cm answer
                            read))))))))

of_answer :
    (env : Env) (p : Bool) (ha : MariaDbHa) (config : MariaDbConfig) (r : Result ConfigMap)
    (cm : ConfigMap) (s : State)
    → r ≡ ok cm
    → Created env p ha config r s
    → IsStored env (config_name ha.name p) cm
      × IsGenerated env p ha config.configuration_parameters cm
of_answer env p ha config r cm s e c = subst (λ x. Created env p ha config x s) e c

-- The ConfigMap that createOrUpdateConfigMap returns is one that the API server has just returned,
-- created or updated, and it holds the server configuration that was generated from the parameters, in
-- the order of one loop through them, and the init script of the instance, whatever else the API
-- server answers.
pub create_or_update_config_map-IsGenerated :
    (env : Env) (is_primary : Bool) (config : MariaDbConfig) (s : State) (cm : ConfigMap)
    → (create_or_update_config_map env is_primary config s).0 ≡ ok cm
    → IsStored env (config_name s.ha.name is_primary) cm
      × IsGenerated env is_primary s.ha config.configuration_parameters cm
create_or_update_config_map-IsGenerated env p config s cm e =
    of_answer env p s.ha config (create_or_update_config_map env p config s).0 cm
      (create_or_update_config_map env p config s).1 e
      ((create_or_update_config_map-Created env p s.ha config).at s (record { same = refl }))
