-- ===== src/Instance/Invariant/Idle.antt =====
-- The invariant through the callback queue, the idle state and the value cap.
use controllerbus.Common.{ℕ, zero, suc, Bool, Option, none, some, List, [], ◌∷◌}
use controllerbus.Common.Exec.{Keeps}
use controllerbus.Common.Exec.Rules.{Keeps-modify, keeps_rules}
use controllerbus.Instance.State.{
  CallbackEvent, call_func, handle_value_added, handle_instance_disposed, call_idle, call_state,
  removed_value, Callback, Execution,
}
use controllerbus.Instance.Callbacks.{
  Outside, call, drain, run_queue, call_callback_events_locked, new_pointer,
}
use controllerbus.Instance.Notify.{
  maybe_call_state_changed, defer_check_state_changed, run_deferred, mark_state_changed,
  handle_idle_state_locked, set_idle_locked, set_err_locked,
  populate_directive_state_snapshot_locked,
}
use controllerbus.Instance.Capacity.{
  cancel_ctx, start_goroutine, update_context_locked, mark_full, restart, handle_full_locked,
  handle_not_full_locked, check_full_locked, attach_start_resolver_locked,
}
use controllerbus.Instance.Invariant.{WellFormed, write_resolver-WellFormed}
use controllerbus.Instance.Invariant.Counted.{push_resolver-WellFormed}

pub mark-WellFormed : Keeps WellFormed mark_state_changed
unfolding mark_state_changed
mark-WellFormed = search (keeps_rules, Keeps-modify)

pub new_pointer-WellFormed : Keeps WellFormed new_pointer
unfolding new_pointer
new_pointer-WellFormed = search (keeps_rules, Keeps-modify) depth 9

cancel-WellFormed : (c : Option ℕ) → Keeps WellFormed (cancel_ctx c)
unfolding cancel_ctx
cancel-WellFormed none = search keeps_rules
cancel-WellFormed (some c) = search (keeps_rules, Keeps-modify)

start-WellFormed : (e : Execution) → Keeps WellFormed (start_goroutine e)
unfolding start_goroutine
start-WellFormed e = search (keeps_rules, Keeps-modify)

module _ (out : Outside) (outside : (e : CallbackEvent) → Keeps WellFormed (out.invoke e)) where
  call-WellFormed : (e : CallbackEvent) → Keeps WellFormed (call out e)
  unfolding call
  call-WellFormed (call_func f) = search outside
  call-WellFormed (handle_value_added h v) = search outside
  call-WellFormed (handle_instance_disposed h) = search outside
  call-WellFormed (call_idle f is_idle errs) = search (keeps_rules, outside) depth 12
  call-WellFormed (call_state f st) = search (keeps_rules, outside) depth 12
  call-WellFormed (removed_value ref v) = search (keeps_rules, outside) depth 12

  drain-WellFormed : (n : ℕ) (es : List CallbackEvent) → Keeps WellFormed (drain out n es)
  unfolding drain
  drain-WellFormed zero [] = search keeps_rules
  drain-WellFormed zero (e ∷ es) = record { at = λ s r e p. cc }
  drain-WellFormed (suc n) [] = search keeps_rules
  drain-WellFormed (suc n) (e ∷ es) =
      search (keeps_rules, Keeps-modify, call-WellFormed, drain-WellFormed n) depth 20

  pub call_events-WellFormed :
      (es : List CallbackEvent) → Keeps WellFormed (call_callback_events_locked out es)
  unfolding call_callback_events_locked run_queue
  call_events-WellFormed es = search (keeps_rules, Keeps-modify, drain-WellFormed) depth 20

  maybe_call-WellFormed : Keeps WellFormed (maybe_call_state_changed out)
  unfolding maybe_call_state_changed populate_directive_state_snapshot_locked
  maybe_call-WellFormed = search (keeps_rules, Keeps-modify, call_events-WellFormed) depth 20

  pub run_deferred-WellFormed : (d : Bool) → Keeps WellFormed (run_deferred out d)
  unfolding run_deferred
  run_deferred-WellFormed d = search (maybe_call-WellFormed, keeps_rules, Keeps-modify) depth 20

  pub defer_check-WellFormed : Keeps WellFormed (defer_check_state_changed out)
  unfolding defer_check_state_changed
  defer_check-WellFormed = search (keeps_rules, Keeps-modify) depth 20

  pub handle_idle-WellFormed : Keeps WellFormed (handle_idle_state_locked out)
  unfolding handle_idle_state_locked
  handle_idle-WellFormed =
      search
        (
          mark-WellFormed, keeps_rules, Keeps-modify, call_events-WellFormed,
          defer_check-WellFormed, run_deferred-WellFormed,
        )
        depth 20

  pub set_idle-WellFormed : (r : ℕ) (b : Bool) → Keeps WellFormed (set_idle_locked out r b)
  unfolding set_idle_locked
  set_idle-WellFormed r b =
      search (keeps_rules, write_resolver-WellFormed r, handle_idle-WellFormed) depth 20

  pub set_err-WellFormed : (r : ℕ) (e : Option ℕ) → Keeps WellFormed (set_err_locked out r e)
  unfolding set_err_locked
  set_err-WellFormed r e =
      search
        (
          keeps_rules,
          write_resolver-WellFormed r,
          defer_check-WellFormed,
          run_deferred-WellFormed,
          mark-WellFormed,
        )
        depth 20

  pub update_context-WellFormed :
      (r : ℕ) (start : Bool) → Keeps WellFormed (update_context_locked out r start)
  unfolding update_context_locked
  update_context-WellFormed r start =
      search
        (
          keeps_rules,
          write_resolver-WellFormed r,
          set_idle-WellFormed,
          cancel-WellFormed,
          new_pointer-WellFormed,
          start-WellFormed,
        )
        depth 30

  mark_full-WellFormed : (r : ℕ) → Keeps WellFormed (mark_full out r)
  unfolding mark_full
  mark_full-WellFormed r =
      search (keeps_rules, write_resolver-WellFormed r, update_context-WellFormed) depth 20

  restart-WellFormed : (r : ℕ) → Keeps WellFormed (restart out r)
  unfolding restart
  restart-WellFormed r = search (keeps_rules, update_context-WellFormed) depth 20

  handle_full-WellFormed : Keeps WellFormed (handle_full_locked out)
  unfolding handle_full_locked
  handle_full-WellFormed =
      search (keeps_rules, Keeps-modify, mark_full-WellFormed, handle_idle-WellFormed) depth 20

  handle_not_full-WellFormed : Keeps WellFormed (handle_not_full_locked out)
  unfolding handle_not_full_locked
  handle_not_full-WellFormed = search (keeps_rules, Keeps-modify, restart-WellFormed) depth 20

  pub check_full-WellFormed : Keeps WellFormed (check_full_locked out)
  unfolding check_full_locked
  check_full-WellFormed =
      search (keeps_rules, handle_full-WellFormed, handle_not_full-WellFormed) depth 20

  pub attach_start-WellFormed :
      (hnd res : ℕ) (rels : List Callback)
      → Keeps WellFormed (attach_start_resolver_locked out hnd res rels)
  unfolding attach_start_resolver_locked
  attach_start-WellFormed hnd res rels =
      search
        (
          keeps_rules,
          Keeps-modify,
          push_resolver-WellFormed hnd res rels,
          write_resolver-WellFormed,
          update_context-WellFormed,
          handle_idle-WellFormed,
        )
        depth 20
