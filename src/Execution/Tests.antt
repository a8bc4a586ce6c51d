-- ===== src/Execution/Tests.antt =====
-- Executions of a controller, and a request with a config that is found and one that is not.
use controllerbus.Common.{
  ℕ, true, false, Option, none, some, List, [], ◌∷◌, lookup, ◌==◌, if◌then◌else◌, ◌≡◌, refl,
}
use controllerbus.ConfigMessage.{Result, ok, err, ConfigMessage, ConfigTypes}
use controllerbus.Execution.{
  status_configuring, status_running, status_error, StateValue, StatusEvent, state_added,
  state_removed, exec_start, execute_controller, call_cb, handle_added, handle_removed, exec_event,
  same_status, status_code,
}
use controllerbus.Execution.Reports.{IsReported, execute_controller-IsReported}
use controllerbus.Execution.Request.{ExecResponse, ExecRequest, request_state}
use controllerbus.Execution.Resolving.{resolve_each, execute_request}
use controllerbus.Execution.Tracking.{IsTracked}
use controllerbus.Execution.Tracked.{execute_request-IsTracked}
use controllerbus.Execution.Resolved.{wanted, resolve_each-wanted}

abbrev waits : ℕ → StateValue
waits k = record { id = k; controller = none; error = none }

abbrev runs : ℕ → StateValue
runs k = record { id = k; controller = some 40; error = none }

abbrev fails : ℕ → StateValue
fails k = record { id = k; controller = none; error = some 9 }

abbrev rounds : ℕ → List StatusEvent
rounds k =
    state_added (waits k)
    ∷ state_added (runs k)
    ∷ state_removed (runs k)
    ∷ state_added (waits k)
    ∷ state_added (fails k)
    ∷ []

-- The second CONFIGURING is not reported again.
reported_once :
    (execute_controller (rounds 1) exec_start).reported
    ≡ status_error ∷ status_configuring ∷ status_running ∷ status_configuring ∷ []
unfolding execute_controller exec_event handle_added handle_removed call_cb same_status status_code
    exec_start
reported_once = refl

execute_controller-IsReported_example : IsReported (execute_controller (rounds 1) exec_start)
execute_controller-IsReported_example = execute_controller-IsReported (rounds 1)

-- The bus finds the config type 7 only.
construct : List ℕ → Result ℕ
construct [] = err 4
construct (a ∷ rest) = if a == 7 then ok 0 else err 4

abbrev types : ConfigTypes ℕ
types = record {
  config_id = λ c. 7 ∷ [];
  marshal_json = λ c. ok (b'{' ∷ c ∷ b'}' ∷ []);
  marshal_vt = λ c. ok (8 ∷ c ∷ []);
  construct = construct;
  unmarshal_json = λ c bytes. ok 6;
  unmarshal_vt = λ c bytes. ok 5;
}

abbrev accepts : ExecResponse → Option ℕ
accepts r = none

abbrev two_configs : List (ℕ × ConfigMessage)
two_configs =
    (1, record { id = 7 ∷ []; config = 8 ∷ 5 ∷ []; rev = 3 })
    ∷ (2, record { id = 2 ∷ []; config = []; rev = 1 })
    ∷ []

abbrev request : ExecRequest
request = record { config_set = some two_configs; config_set_yaml = []; yaml_overwrite = false }

execute_request-IsTracked_example :
    IsTracked (execute_request accepts types (λ bytes. err 8) true request none (rounds 1))
execute_request-IsTracked_example =
    execute_request-IsTracked accepts types (λ bytes. err 8) true request none (rounds 1)

resolve_each-wanted_example :
    lookup 1 (resolve_each accepts types two_configs (request_state [])).conf_set
    ≡ wanted types 1 two_configs []
unfolding request_state lookup
resolve_each-wanted_example =
    resolve_each-wanted types accepts (λ r. refl) two_configs (request_state []) (refl, (refl, tt))
      refl 1
