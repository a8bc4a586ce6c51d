-- ===== src/Execution/Resolving.antt =====
-- How a request's configs are resolved, and its Execute: controller/exec/exec-request.go and
-- exec-request-yaml.go, with UnmarshalYAML of controller/configset/json.
use controllerbus.Common.{
  ℕ, suc, Bool, ◌&&◌, ◌||◌, not, Option, some, List, [], ◌∷◌, ◌++◌, ◌==◌, is_some, is_empty,
  if◌then◌else◌, lookup, insert, delete,
}
use controllerbus.ConfigMessage.{
  Result, ok, err, ◌>>=◌, ConfigMessage, ConfigTypes, ResolvedConfig, resolve, resolve_map,
  err_id_empty,
}
use controllerbus.Execution.{status_error, StatusEvent}
use controllerbus.Execution.Request.{
  ExecResponse, ExecRequest, RequestState, report, confs_list, request_state, after_resolve,
  watch_set, err_no_config,
}

module _ {C : Type 0} (t : ConfigTypes C) where
  -- A new object is found for the id, and reads the pending data.
  unfoldable pub resolve_underlying : List ℕ → List ℕ → Result C
  resolve_underlying config_id pending = do cf ← t.construct config_id; t.unmarshal_json cf pending

  -- A config in JSON is read as JSON, whatever it begins with.
  unfoldable pub json_resolve : ConfigMessage → Result (ResolvedConfig C)
  unfolding resolve_underlying
  json_resolve m = if is_empty m.id then err err_id_empty else (do
    cf ← t.construct m.id
    parsed ← t.unmarshal_json cf m.config
    ok (record { conf = parsed; conf_rev = m.rev }))

  -- The configs that are added to the set, and their ids.
  unfoldable pub add_configs :
      Bool
      → List (ℕ × ConfigMessage)
      → List ℕ
      → List (ℕ × ResolvedConfig C)
      → Result (List ℕ × List (ℕ × ResolvedConfig C))
  unfolding json_resolve lookup insert
  add_configs overwrite [] added ocs = ok (added, ocs)
  add_configs overwrite ((id, m) ∷ ms) added ocs =
      if is_some (lookup id ocs) && not overwrite then add_configs overwrite ms added ocs else (do
        cfg ← json_resolve m
        add_configs overwrite ms (added ++ id ∷ []) (insert id cfg ocs))

  -- `parse_yaml` is the conversion to JSON and its parser.
  module _ (parse_yaml : List ℕ → Result (List (ℕ × ConfigMessage))) where
    unfoldable pub unmarshal_yaml :
        List ℕ → List (ℕ × ResolvedConfig C) → Bool → Result (List ℕ × List (ℕ × ResolvedConfig C))
    unfolding add_configs
    unmarshal_yaml bytes ocs overwrite = do cs ← parse_yaml bytes; add_configs overwrite cs [] ocs

    unfoldable pub resolve_yaml :
        ExecRequest → List (ℕ × ResolvedConfig C) → Result (List (ℕ × ResolvedConfig C))
    unfolding unmarshal_yaml
    resolve_yaml req set =
        if is_empty req.config_set_yaml
        then ok set
        else (do (added, all) ← unmarshal_yaml req.config_set_yaml set req.yaml_overwrite; ok all)

    -- The set before the configs are resolved one by one.
    unfoldable pub first_set : Bool → ExecRequest → Result (List (ℕ × ResolvedConfig C))
    unfolding resolve_yaml confs_list
    first_set allow_partial_success req =
        if not (is_some req.config_set) && is_empty req.config_set_yaml
        then err err_no_config
        else (do
          set ←
              (if not allow_partial_success && not (is_empty (confs_list req))
                then resolve_map t (confs_list req)
                else ok [])
          resolve_yaml req set)

module _ {C : Type 0} (cb : ExecResponse → Option ℕ) (t : ConfigTypes C) where
  -- The nil that the assignment leaves under the key is deleted.
  unfoldable pub resolve_failed : ℕ → ℕ → RequestState C → RequestState C
  unfolding report delete
  resolve_failed k e s =
      let told : RequestState C = report cb (record s {
        resp = record s.resp { id = k; status = status_error; error_info = some e };
      }) in
      if is_some told.returned then told else record told {
        niniterr = suc told.niniterr;
        last_niniterr = some e;
        conf_set = delete k told.conf_set;
      }

  unfoldable pub resolve_one : ℕ → ConfigMessage → RequestState C → RequestState C
  unfolding resolve_failed lookup insert
  resolve_one k m s = if k == 0 || is_some (lookup k s.conf_set) then s else elim (resolve t m) [
    | ok c ↦ record s { conf_set = insert k c s.conf_set }
    | err e ↦ resolve_failed k e s
  ]

  unfoldable pub resolve_each : List (ℕ × ConfigMessage) → RequestState C → RequestState C
  unfolding resolve_one
  resolve_each [] s = s
  resolve_each ((k, m) ∷ ms) s =
      if is_some s.returned then s else resolve_each ms (resolve_one k m s)

  module _ (parse_yaml : List ℕ → Result (List (ℕ × ConfigMessage))) where
    unfoldable pub execute_request :
        Bool → ExecRequest → Option ℕ → List StatusEvent → RequestState C
    unfolding first_set request_state resolve_each after_resolve watch_set confs_list
    execute_request allow_partial_success req add_err es =
        elim (first_set t parse_yaml allow_partial_success req) [
          | err e ↦ record (request_state []) { returned = some (some e) }
          | ok set ↦
              watch_set cb add_err es
                (after_resolve (confs_list req) (resolve_each (confs_list req) (request_state set)))
        ]
