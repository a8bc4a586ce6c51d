-- ===== src/Instance/Halting/Idle.antt =====
-- The idle state, the resolvers' contexts and the value cap settle.
use controllerbus.Common.{ℕ, Bool, false, Option, none, some}
use controllerbus.Common.Exec.{Total}
use controllerbus.Common.Exec.Rules.{Total-modify, total_rules}
use controllerbus.Instance.State.{Execution, Resolver}
use controllerbus.Instance.Callbacks.{Outside, new_pointer}
use controllerbus.Instance.Notify.{
  write_resolver, maybe_call_state_changed, defer_check_state_changed, run_deferred,
  mark_state_changed, handle_idle_state_locked, set_idle_locked, set_err_locked,
  populate_directive_state_snapshot_locked,
}
use controllerbus.Instance.Capacity.{
  cancel_ctx, start_goroutine, update_context_locked, mark_full, restart, handle_full_locked,
  handle_not_full_locked, check_full_locked,
}
use controllerbus.Instance.Halting.{Quiet, IsQuiet, call_events-Total}

module _ (out : Outside) (quiet : IsQuiet out) (g : Bool) (n : ℕ) where
  pub write-Total : (r : ℕ) (f : Resolver → Resolver) → Total (Quiet false g n) (write_resolver r f)
  unfolding write_resolver
  write-Total r f = search Total-modify

  pub mark-Total : Total (Quiet false g n) mark_state_changed
  unfolding mark_state_changed
  mark-Total = search Total-modify

  pub new_pointer-Total : Total (Quiet false g n) new_pointer
  unfolding new_pointer
  new_pointer-Total = search (total_rules, Total-modify) depth 9

  cancel-Total : (c : Option ℕ) → Total (Quiet false g n) (cancel_ctx c)
  unfolding cancel_ctx
  cancel-Total none = search total_rules
  cancel-Total (some c) = search Total-modify

  start-Total : (e : Execution) → Total (Quiet false g n) (start_goroutine e)
  unfolding start_goroutine
  start-Total e = search Total-modify

  events-Total : Total (Quiet false g n) (maybe_call_state_changed out)
  unfolding maybe_call_state_changed populate_directive_state_snapshot_locked
  events-Total = search (total_rules, quiet, Total-modify, call_events-Total) depth 20

  pub run_deferred-Total : (d : Bool) → Total (Quiet false g n) (run_deferred out d)
  unfolding run_deferred
  run_deferred-Total d = search (total_rules, Total-modify, events-Total) depth 20

  pub defer_check-Total : Total (Quiet false g n) (defer_check_state_changed out)
  unfolding defer_check_state_changed
  defer_check-Total = search (total_rules, Total-modify) depth 20

  pub handle_idle-Total : Total (Quiet false g n) (handle_idle_state_locked out)
  unfolding handle_idle_state_locked
  handle_idle-Total =
      search
        (
          total_rules, quiet, Total-modify, mark-Total, call_events-Total, defer_check-Total,
          run_deferred-Total,
        )
        depth 20

  pub set_idle-Total : (r : ℕ) (b : Bool) → Total (Quiet false g n) (set_idle_locked out r b)
  unfolding set_idle_locked
  set_idle-Total r b = search (total_rules, write-Total, handle_idle-Total) depth 20

  pub set_err-Total : (r : ℕ) (e : Option ℕ) → Total (Quiet false g n) (set_err_locked out r e)
  unfolding set_err_locked
  set_err-Total r e =
      search (total_rules, write-Total, mark-Total, defer_check-Total, run_deferred-Total) depth 20

  pub update_context-Total :
      (r : ℕ) (start : Bool) → Total (Quiet false g n) (update_context_locked out r start)
  unfolding update_context_locked
  update_context-Total r start =
      search
        (total_rules, write-Total, set_idle-Total, cancel-Total, new_pointer-Total, start-Total)
        depth 30

  mark_full-Total : (r : ℕ) → Total (Quiet false g n) (mark_full out r)
  unfolding mark_full
  mark_full-Total r = search (total_rules, write-Total, update_context-Total) depth 20

  restart-Total : (r : ℕ) → Total (Quiet false g n) (restart out r)
  unfolding restart
  restart-Total r = search (total_rules, update_context-Total) depth 20

  handle_full-Total : Total (Quiet false g n) (handle_full_locked out)
  unfolding handle_full_locked
  handle_full-Total =
      search (total_rules, Total-modify, mark_full-Total, handle_idle-Total) depth 20

  handle_not_full-Total : Total (Quiet false g n) (handle_not_full_locked out)
  unfolding handle_not_full_locked
  handle_not_full-Total = search (total_rules, Total-modify, restart-Total) depth 20

  pub check_full-Total : Total (Quiet false g n) (check_full_locked out)
  unfolding check_full_locked
  check_full-Total = search (total_rules, handle_full-Total, handle_not_full-Total) depth 20
