-- ===== src/Instance/Halting/Owners.antt =====
-- Which resolvers an instance has, and whose they are, through the calls that retire a resolver of
-- directive/controller/instance.go, where the callbacks leave both as they are.
use controllerbus.Common.{
  ℕ, zero, suc, Bool, Option, none, some, List, [], ◌∷◌, ◌==◌, ◌≡◌, ◌∙◌, inl, inr, Bool-cases, ap,
  ==_iff,
}
use controllerbus.Common.Exec.{Keeps}
use controllerbus.Common.Exec.Rules.{Keeps-modify, Keeps-bind, keeps_rules}
use controllerbus.Instance.State.{
  Instance, Resolver, Value, CallbackEvent, call_func, handle_value_added, handle_instance_disposed,
  call_idle, call_state, removed_value, Callback, Execution,
}
use controllerbus.Instance.Callbacks.{
  Outside, call, drain, run_queue, call_callback_events_locked, new_pointer,
}
use controllerbus.Instance.Notify.{
  write_resolver, maybe_call_state_changed, defer_check_state_changed, run_deferred,
  mark_state_changed, handle_idle_state_locked, set_idle_locked,
  populate_directive_state_snapshot_locked,
}
use controllerbus.Instance.Capacity.{
  cancel_ctx, start_goroutine, update_context_locked, mark_full, restart, handle_full_locked,
  handle_not_full_locked, check_full_locked,
}
use controllerbus.Instance.Values.{swap_callbacks, on_values_removed_locked, retire_resolver}

-- The instance has these resolvers, and each is the handler's that `owner` says.
abbrev pub Owned : List ℕ → (ℕ → ℕ) → Instance → Type 0
Owned rs owner s = (s.resolvers ≡ rs) × ((r : ℕ) → (s.resolver_at r).hnd ≡ owner r)

module _ (rs : List ℕ) (owner : ℕ → ℕ) where
  write-Owned :
      (r : ℕ) (f : Resolver → Resolver)
      → ((res : Resolver) → (f res).hnd ≡ res.hnd)
      → Keeps (Owned rs owner) (write_resolver r f)
  unfolding write_resolver
  write-Owned r f same = Keeps-modify _ λ s p. (
    p.0,
    λ k. elim (Bool-cases (r == k)) [
      | inl hit ↦ rw hit (
          same (s.resolver_at r)
          ∙ ap (λ (i : ℕ). (s.resolver_at i).hnd) ((==_iff r k).0 hit)
          ∙ p.1 k)
      | inr miss ↦ rw miss (p.1 k)
    ],
  )

  mark-Owned : Keeps (Owned rs owner) mark_state_changed
  unfolding mark_state_changed
  mark-Owned = search (keeps_rules, Keeps-modify)

  new_pointer-Owned : Keeps (Owned rs owner) new_pointer
  unfolding new_pointer
  new_pointer-Owned = search (keeps_rules, Keeps-modify) depth 9

  cancel-Owned : (c : Option ℕ) → Keeps (Owned rs owner) (cancel_ctx c)
  unfolding cancel_ctx
  cancel-Owned none = search keeps_rules
  cancel-Owned (some c) = search (keeps_rules, Keeps-modify)

  start-Owned : (e : Execution) → Keeps (Owned rs owner) (start_goroutine e)
  unfolding start_goroutine
  start-Owned e = search (keeps_rules, Keeps-modify)

  swap-Owned : (cs : List Callback) → Keeps (Owned rs owner) (swap_callbacks cs)
  unfolding swap_callbacks
  swap-Owned [] = search keeps_rules
  swap-Owned (c ∷ cs) = Keeps-bind _ _ (search keeps_rules) λ was.
      Keeps-bind _ _ (search Keeps-modify) λ _. Keeps-bind _ _ (swap-Owned cs) (search keeps_rules)

  module _ (out : Outside)
      (outside : (e : CallbackEvent) → Keeps (Owned rs owner) (out.invoke e)) where
    call-Owned : (e : CallbackEvent) → Keeps (Owned rs owner) (call out e)
    unfolding call
    call-Owned (call_func f) = search outside
    call-Owned (handle_value_added h v) = search outside
    call-Owned (handle_instance_disposed h) = search outside
    call-Owned (call_idle f is_idle errs) = search (keeps_rules, outside) depth 12
    call-Owned (call_state f st) = search (keeps_rules, outside) depth 12
    call-Owned (removed_value ref v) = search (keeps_rules, outside) depth 12

    drain-Owned : (n : ℕ) (es : List CallbackEvent) → Keeps (Owned rs owner) (drain out n es)
    unfolding drain
    drain-Owned zero [] = search keeps_rules
    drain-Owned zero (e ∷ es) = record { at = λ s r e p. cc }
    drain-Owned (suc n) [] = search keeps_rules
    drain-Owned (suc n) (e ∷ es) =
        search (keeps_rules, Keeps-modify, call-Owned, drain-Owned n) depth 20

    call_events-Owned :
        (es : List CallbackEvent) → Keeps (Owned rs owner) (call_callback_events_locked out es)
    unfolding call_callback_events_locked run_queue
    call_events-Owned es = search (keeps_rules, Keeps-modify, drain-Owned) depth 20

    maybe_call-Owned : Keeps (Owned rs owner) (maybe_call_state_changed out)
    unfolding maybe_call_state_changed populate_directive_state_snapshot_locked
    maybe_call-Owned = search (keeps_rules, Keeps-modify, call_events-Owned) depth 20

    run_deferred-Owned : (d : Bool) → Keeps (Owned rs owner) (run_deferred out d)
    unfolding run_deferred
    run_deferred-Owned d = search (maybe_call-Owned, keeps_rules, Keeps-modify) depth 20

    defer_check-Owned : Keeps (Owned rs owner) (defer_check_state_changed out)
    unfolding defer_check_state_changed
    defer_check-Owned = search (keeps_rules, Keeps-modify) depth 20

    handle_idle-Owned : Keeps (Owned rs owner) (handle_idle_state_locked out)
    unfolding handle_idle_state_locked
    handle_idle-Owned =
        search
          (
            mark-Owned, keeps_rules, Keeps-modify, call_events-Owned, defer_check-Owned,
            run_deferred-Owned,
          )
          depth 20

    set_idle-Owned : (r : ℕ) (b : Bool) → Keeps (Owned rs owner) (set_idle_locked out r b)
    unfolding set_idle_locked
    set_idle-Owned r b = search (keeps_rules, write-Owned, handle_idle-Owned) depth 20

    update_context-Owned :
        (r : ℕ) (start : Bool) → Keeps (Owned rs owner) (update_context_locked out r start)
    unfolding update_context_locked
    update_context-Owned r start =
        search
          (keeps_rules, write-Owned, set_idle-Owned, cancel-Owned, new_pointer-Owned, start-Owned)
          depth 30

    mark_full-Owned : (r : ℕ) → Keeps (Owned rs owner) (mark_full out r)
    unfolding mark_full
    mark_full-Owned r = search (keeps_rules, write-Owned, update_context-Owned) depth 20

    restart-Owned : (r : ℕ) → Keeps (Owned rs owner) (restart out r)
    unfolding restart
    restart-Owned r = search (keeps_rules, update_context-Owned) depth 20

    handle_full-Owned : Keeps (Owned rs owner) (handle_full_locked out)
    unfolding handle_full_locked
    handle_full-Owned =
        search (keeps_rules, Keeps-modify, mark_full-Owned, handle_idle-Owned) depth 20

    handle_not_full-Owned : Keeps (Owned rs owner) (handle_not_full_locked out)
    unfolding handle_not_full_locked
    handle_not_full-Owned = search (keeps_rules, Keeps-modify, restart-Owned) depth 20

    check_full-Owned : Keeps (Owned rs owner) (check_full_locked out)
    unfolding check_full_locked
    check_full-Owned = search (keeps_rules, handle_full-Owned, handle_not_full-Owned) depth 20

    on_values_removed-Owned :
        (vals : List Value) → Keeps (Owned rs owner) (on_values_removed_locked out vals)
    unfolding on_values_removed_locked
    on_values_removed-Owned vals =
        search
          (
            keeps_rules, mark-Owned, defer_check-Owned, call_events-Owned, check_full-Owned,
            run_deferred-Owned,
          )
          depth 20

    pub retire-Owned : (r : ℕ) → Keeps (Owned rs owner) (retire_resolver out r)
    unfolding retire_resolver
    retire-Owned r =
        search
          (
            keeps_rules, write-Owned, update_context-Owned, on_values_removed-Owned, swap-Owned,
            call_events-Owned, handle_idle-Owned,
          )
          depth 25
