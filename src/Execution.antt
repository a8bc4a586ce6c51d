-- ===== src/Execution.antt =====
-- Execution of controllers and of config sets with reports of their status: controller/exec/exec.go.
-- The requests of controller/exec/exec-request.go are in Request.
pub mod Request
pub mod Resolving
pub mod Reports
pub mod Tracking
pub mod Tracked
pub mod Resolved
mod Tests
use controllerbus.Common.{
  ℕ, Bool, true, false, ◌&&◌, ◌||◌, not, Option, none, some, List, [], ◌∷◌, is_some, ◌==◌,
  if◌then◌else◌, ◌≡◌, ◌≢◌, ◌↔◌,
}

pub data ControllerStatus : Type 0 where
  status_unknown status_configuring status_running status_error : ControllerStatus

-- The number of a status in the protocol.
unfoldable pub status_code : ControllerStatus → ℕ
status_code status_unknown = 0
status_code status_configuring = 1
status_code status_running = 2
status_code status_error = 3

unfoldable pub same_status : ControllerStatus → ControllerStatus → Bool
unfolding status_code
same_status a b = status_code a == status_code b

-- A value of the directive: the controller's info, if it runs, and the error.
pub record StateValue : Type 0 where
  pub id : ℕ
  pub controller : Option ℕ
  pub error : Option ℕ

-- What one round of the waiting loop receives: the end of the caller's context, the end of its own
-- context with that error, or a value from one of the two channels.
pub data StatusEvent : Type 0 where
  ctx_ended : StatusEvent
  sub_ctx_ended : ℕ → StatusEvent
  state_added : StateValue → StatusEvent
  state_removed : StateValue → StatusEvent

-- How ExecuteController returns: nil, the context's error, or a value's error.
pub data ExecResult : Type 0 where
  exec_nil : ExecResult
  exec_canceled : ℕ → ExecResult
  exec_error : ℕ → ExecResult

-- The variable prevState, the calls of the callback with the newest first, and the result.
pub record ExecState : Type 0 where
  pub prev_state : ControllerStatus
  pub reported : List ControllerStatus
  pub result : Option ExecResult

unfoldable pub exec_start : ExecState
exec_start = record { prev_state = status_unknown; reported = []; result = none }

unfoldable pub call_cb : ControllerStatus → ExecState → ExecState
unfolding same_status
call_cb next_state s =
    if same_status next_state s.prev_state
    then s
    else record s { prev_state = next_state; reported = next_state ∷ s.reported }

unfoldable pub handle_added : StateValue → ExecState → ExecState
unfolding call_cb
handle_added v s = elim v.error [
  | some e ↦ record (call_cb status_error s) { result = some (exec_error e) }
  | none ↦ if is_some v.controller then call_cb status_running s else call_cb status_configuring s
]

unfoldable pub handle_removed : StateValue → ExecState → ExecState
unfolding call_cb same_status
handle_removed v s =
    if is_some v.controller && same_status s.prev_state status_running
    then call_cb status_configuring s
    else s

unfoldable pub exec_event : StatusEvent → ExecState → ExecState
unfolding handle_added handle_removed
exec_event ctx_ended s = record s { result = some exec_nil }
exec_event (sub_ctx_ended e) s = record s { result = some (exec_canceled e) }
exec_event (state_added v) s = handle_added v s
exec_event (state_removed v) s = handle_removed v s

-- The loop, until it returns.
unfoldable pub execute_controller : List StatusEvent → ExecState → ExecState
unfolding exec_event
execute_controller [] s = s
execute_controller (e ∷ es) s =
    if is_some s.result then s else execute_controller es (exec_event e s)
