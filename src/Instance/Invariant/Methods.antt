-- ===== src/Instance/Invariant/Methods.antt =====
-- The invariant through the calls of resolvers and of clients.
use controllerbus.Common.{
  ℕ, ◌+◌, ◌≤◌, ◌<◌, ◌^◌, ◌≡◌, refl, ap, Bool, false, none, some, Option, List, [], ◌∷◌, map, length,
  inl, inr, Bool-cases, arith, sym, ==_iff, ◌==◌,
}
use controllerbus.Common.Exec.{Keeps, ◌>>=◌, gets}
use controllerbus.Common.Exec.Rules.{Keeps-modify, keeps_rules, Keeps-pure}
use controllerbus.Instance.State.{Instance, Value, CallbackEvent}
use controllerbus.Instance.Callbacks.{Outside}
use controllerbus.Instance.Notify.{write_resolver}
use controllerbus.Instance.Values.{replace_value}
use controllerbus.Instance.Handlers.{
  ResolverHandler, is_current, add_value_removed_callback_locked, release_value_removed_callback,
  add_resolver_removed_callback_locked, release_resolver_removed_callback,
  attach_start_sub_resolver_locked, add_value, remove_value, mark_idle, clear_values,
  add_value_removed_callback, add_resolver_removed_callback, add_resolver, invoke_some,
  resolver_exited,
}
use controllerbus.Instance.Api.{
  mark_released, release_dispose_callback, release_idle_callback, release_state_callback,
  add_dispose_callback, add_idle_callback, add_state_callback, close, close_if_unreferenced,
}
use controllerbus.Instance.Notify.{
  get_directive_state_snapshot_locked, populate_directive_state_snapshot_locked,
}
use controllerbus.Instance.Invariant.{
  WellFormed, write_resolver-WellFormed, write_resolver_fewer-WellFormed,
}
use controllerbus.Instance.Invariant.Idle.{
  new_pointer-WellFormed, call_events-WellFormed, defer_check-WellFormed, run_deferred-WellFormed,
  set_idle-WellFormed, set_err-WellFormed, attach_start-WellFormed,
}
use controllerbus.Instance.Invariant.Removal.{
  clear_values-WellFormed, on_values_removed-WellFormed, remove_value-WellFormed,
  add_value_locked-WellFormed,
}
use controllerbus.Instance.Invariant.References.{remove-WellFormed}

abbrev ids : List Value → List ℕ
ids = map (λ v. v.value_id)

ids-replace_value : (new : Value) (vs : List Value) → ids (replace_value new vs) ≡ ids vs
unfolding replace_value
ids-replace_value new [] = refl
ids-replace_value new (v ∷ vs) = elim (Bool-cases (v.value_id == new.value_id)) [
  | inl hit ↦ rw hit (ap (λ (k : ℕ). k ∷ ids vs) (sym ((==_iff _ _).0 hit)))
  | inr miss ↦ rw miss (ap (λ (l : List ℕ). v.value_id ∷ l) (ids-replace_value new vs))
]

length-replace_value : (new : Value) (vs : List Value) → length (replace_value new vs) ≤ length vs
unfolding replace_value
length-replace_value new [] = omega arith
length-replace_value new (v ∷ vs) = ground (arith, length-replace_value new vs)

replace-WellFormed :
    (r : ℕ) (new : Value)
    → Keeps WellFormed (write_resolver r (λ res. record res { vals = replace_value new res.vals }))
replace-WellFormed r new =
    write_resolver_fewer-WellFormed r _ (λ res hi asc. rw (ids-replace_value new res.vals) asc)
      (λ res. length-replace_value new res.vals)

add_callback-WellFormed :
    (r vid cb : ℕ) → Keeps WellFormed (add_value_removed_callback_locked r vid cb)
unfolding add_value_removed_callback_locked
add_callback-WellFormed r vid cb = search (keeps_rules, replace-WellFormed) depth 20

pub release_callback-WellFormed :
    (r vid k : ℕ) → Keeps WellFormed (release_value_removed_callback r vid k)
unfolding release_value_removed_callback
release_callback-WellFormed r vid k = search (keeps_rules, replace-WellFormed) depth 20

add_removed-WellFormed : (r cb : ℕ) → Keeps WellFormed (add_resolver_removed_callback_locked r cb)
unfolding add_resolver_removed_callback_locked
add_removed-WellFormed r cb =
    search (keeps_rules, write_resolver-WellFormed, new_pointer-WellFormed) depth 20

pub release_removed-WellFormed :
    (r k : ℕ) → Keeps WellFormed (release_resolver_removed_callback r k)
unfolding release_resolver_removed_callback
release_removed-WellFormed r k =
    search (keeps_rules, Keeps-modify, write_resolver-WellFormed) depth 20

mark_released-WellFormed : (k : ℕ) → Keeps WellFormed (mark_released k)
unfolding mark_released
mark_released-WellFormed k = search Keeps-modify

pub release_dispose-WellFormed : (k : ℕ) → Keeps WellFormed (release_dispose_callback k)
unfolding release_dispose_callback
release_dispose-WellFormed k = search (keeps_rules, Keeps-modify, mark_released-WellFormed) depth 20

pub release_idle-WellFormed : (k : ℕ) → Keeps WellFormed (release_idle_callback k)
unfolding release_idle_callback
release_idle-WellFormed k = search (keeps_rules, Keeps-modify, mark_released-WellFormed) depth 20

pub release_state-WellFormed : (k : ℕ) → Keeps WellFormed (release_state_callback k)
unfolding release_state_callback
release_state-WellFormed k = search (keeps_rules, Keeps-modify, mark_released-WellFormed) depth 20

snapshot-WellFormed : Keeps WellFormed get_directive_state_snapshot_locked
unfolding get_directive_state_snapshot_locked populate_directive_state_snapshot_locked
snapshot-WellFormed = search (keeps_rules, Keeps-modify) depth 20

module _ (out : Outside) (outside : (e : CallbackEvent) → Keeps WellFormed (out.invoke e)) where
  attach_sub-WellFormed :
      (r sub_res : ℕ) (removed_cb : Option ℕ)
      → Keeps WellFormed (attach_start_sub_resolver_locked out r sub_res removed_cb)
  unfolding attach_start_sub_resolver_locked
  attach_sub-WellFormed r sub_res removed_cb =
      search (keeps_rules, outside, new_pointer-WellFormed, attach_start-WellFormed) depth 20

  pub add_value-WellFormed :
      (h : ResolverHandler) (val : ℕ) (s : Instance) (q : (ℕ × Bool) × Instance)
      → add_value out h val s ≡ some q
      → s.val_ctr + 1 < 2 ^ 32
      → WellFormed s
      → WellFormed q.1
  unfolding add_value ◌>>=◌ gets
  add_value-WellFormed h val s q run room p = elim (Bool-cases (is_current h s)) [
    | inl e ↦ add_value_locked-WellFormed out outside h.r val s q (rw e at run) room p
    | inr e ↦ (Keeps-pure {P = WellFormed} (0, false)).at s q (rw e at run) p
  ]

  pub remove_value_handler-WellFormed :
      (h : ResolverHandler) (vid : ℕ) → Keeps WellFormed (remove_value out h vid)
  unfolding remove_value
  remove_value_handler-WellFormed h vid =
      search (keeps_rules, outside, remove_value-WellFormed) depth 20

  pub mark_idle-WellFormed : (h : ResolverHandler) (b : Bool) → Keeps WellFormed (mark_idle out h b)
  unfolding mark_idle
  mark_idle-WellFormed h b = search (keeps_rules, outside, set_idle-WellFormed) depth 20

  pub clear_handler-WellFormed : (h : ResolverHandler) → Keeps WellFormed (clear_values out h)
  unfolding clear_values
  clear_handler-WellFormed h =
      search (keeps_rules, outside, clear_values-WellFormed, on_values_removed-WellFormed) depth 20

  pub add_value_removed-WellFormed :
      (h : ResolverHandler) (vid : ℕ) (cb : Option ℕ)
      → Keeps WellFormed (add_value_removed_callback out h vid cb)
  unfolding add_value_removed_callback
  add_value_removed-WellFormed h vid none = search keeps_rules
  add_value_removed-WellFormed h vid (some cb) =
      search (keeps_rules, outside, add_callback-WellFormed) depth 20

  pub add_resolver_removed-WellFormed :
      (h : ResolverHandler) (cb : Option ℕ)
      → Keeps WellFormed (add_resolver_removed_callback out h cb)
  unfolding add_resolver_removed_callback
  add_resolver_removed-WellFormed h none = search keeps_rules
  add_resolver_removed-WellFormed h (some cb) =
      search (keeps_rules, outside, add_removed-WellFormed) depth 20

  invoke_some-WellFormed : (f : Option ℕ) → Keeps WellFormed (invoke_some out f)
  unfolding invoke_some
  invoke_some-WellFormed none = search keeps_rules
  invoke_some-WellFormed (some f) = search outside

  pub add_resolver-WellFormed :
      (h : ResolverHandler) (res removed_cb : Option ℕ)
      → Keeps WellFormed (add_resolver out h res removed_cb)
  unfolding add_resolver
  add_resolver-WellFormed h none removed_cb = search (keeps_rules, invoke_some-WellFormed) depth 20
  add_resolver-WellFormed h (some res) removed_cb =
      search (keeps_rules, invoke_some-WellFormed, attach_sub-WellFormed) depth 20

  pub resolver_exited-WellFormed :
      (h : ResolverHandler) (err : Option ℕ) → Keeps WellFormed (resolver_exited out h err)
  unfolding resolver_exited
  resolver_exited-WellFormed h err =
      search
        (
          keeps_rules, outside, write_resolver-WellFormed, defer_check-WellFormed,
          set_err-WellFormed, set_idle-WellFormed, run_deferred-WellFormed,
        )
        depth 20

  pub add_dispose-WellFormed : (cb : ℕ) → Keeps WellFormed (add_dispose_callback out cb)
  unfolding add_dispose_callback
  add_dispose-WellFormed cb =
      search (keeps_rules, outside, Keeps-modify, new_pointer-WellFormed) depth 20

  pub add_idle-WellFormed : (cb : Option ℕ) → Keeps WellFormed (add_idle_callback out cb)
  unfolding add_idle_callback
  add_idle-WellFormed cb =
      search (keeps_rules, outside, Keeps-modify, new_pointer-WellFormed, call_events-WellFormed)
        depth 20

  pub add_state-WellFormed : (cb : Option ℕ) → Keeps WellFormed (add_state_callback out cb)
  unfolding add_state_callback
  add_state-WellFormed cb =
      search
        (
          keeps_rules, outside, Keeps-modify, new_pointer-WellFormed, snapshot-WellFormed,
          call_events-WellFormed,
        )
        depth 20

  pub close-WellFormed : Keeps WellFormed (close out)
  unfolding close
  close-WellFormed = search (keeps_rules, outside, Keeps-modify, remove-WellFormed) depth 20

  pub close_if-WellFormed : (b : Bool) → Keeps WellFormed (close_if_unreferenced out b)
  unfolding close_if_unreferenced
  close_if-WellFormed b = search (keeps_rules, outside, Keeps-modify, remove-WellFormed) depth 20
