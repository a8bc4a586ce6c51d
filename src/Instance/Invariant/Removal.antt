-- ===== src/Instance/Invariant/Removal.antt =====
-- The invariant through the arrival and the removal of values and resolvers.
use controllerbus.Common.{
  ℕ, ◌+◌, ◌≤◌, ◌<◌, ◌^◌, ◌≡◌, Bool, some, List, [], ◌∷◌, map, length, inl, inr, Bool-cases, arith,
  Ascending, Ascending-lower,
}
use controllerbus.Common.Exec.{◌>>=◌, gets, modify, Keeps}
use controllerbus.Common.Exec.Rules.{Keeps-modify, Keeps-bind, keeps_rules, Keeps-bind, >>=-eq-some}
use controllerbus.Instance.State.{Instance, Value, Callback, CallbackEvent}
use controllerbus.Instance.Callbacks.{Outside}
use controllerbus.Instance.Notify.{write_resolver, defer_check_state_changed}
use controllerbus.Instance.Values.{
  without_value, swap_callbacks, rejects_value, push_value, add_value_locked, announce_value,
  reject_value, settle_value, accept_value, on_values_removed_locked, remove_value_locked,
  retire_resolver, remove_resolver_locked,
}
use controllerbus.Instance.Invariant.{
  WellFormed, write_resolver-WellFormed, write_resolver_fewer-WellFormed,
}
use controllerbus.Instance.Invariant.Counted.{push_value-WellFormed, drop_resolver-WellFormed}
use controllerbus.Instance.Invariant.Idle.{
  mark-WellFormed, call_events-WellFormed, run_deferred-WellFormed, defer_check-WellFormed,
  handle_idle-WellFormed, update_context-WellFormed, check_full-WellFormed,
}

abbrev ids : List Value → List ℕ
ids = map (λ v. v.value_id)

without_value-Ascending :
    (vid lo hi : ℕ) (vs : List Value)
    → Ascending lo (ids vs) hi
    → Ascending lo (ids (without_value vid vs)) hi
unfolding without_value
without_value-Ascending vid lo hi [] h = h
without_value-Ascending vid lo hi (v ∷ vs) h = ground (
  arith,
  without_value-Ascending vid v.value_id hi vs h.1,
  Ascending-lower v.value_id lo hi (ids vs) (omega arith) h.1,
)

length-without_value : (vid : ℕ) (vs : List Value) → length (without_value vid vs) ≤ length vs
unfolding without_value
length-without_value vid [] = omega arith
length-without_value vid (v ∷ vs) = ground (arith, length-without_value vid vs)

pub swap-WellFormed : (cs : List Callback) → Keeps WellFormed (swap_callbacks cs)
unfolding swap_callbacks
swap-WellFormed [] = search keeps_rules
swap-WellFormed (c ∷ cs) = Keeps-bind _ _ (search keeps_rules) λ was.
    Keeps-bind _ _ (search Keeps-modify)
      λ _. Keeps-bind _ _ (swap-WellFormed cs) (search keeps_rules)

pub clear_values-WellFormed :
    (r : ℕ) → Keeps WellFormed (write_resolver r (λ res. record res { vals = [] }))
clear_values-WellFormed r =
    write_resolver_fewer-WellFormed r _ (λ res hi asc. omega arith) (λ res. omega arith)

without-WellFormed :
    (r vid : ℕ)
    → Keeps WellFormed (write_resolver r (λ res. record res { vals = without_value vid res.vals }))
without-WellFormed r vid =
    write_resolver_fewer-WellFormed r _
      (λ res hi asc. without_value-Ascending vid 0 hi res.vals asc)
      (λ res. length-without_value vid res.vals)

module _ (out : Outside) (outside : (e : CallbackEvent) → Keeps WellFormed (out.invoke e)) where
  pub on_values_removed-WellFormed :
      (vals : List Value) → Keeps WellFormed (on_values_removed_locked out vals)
  unfolding on_values_removed_locked
  on_values_removed-WellFormed vals =
      search
        (
          keeps_rules, outside, mark-WellFormed, defer_check-WellFormed, call_events-WellFormed,
          check_full-WellFormed, run_deferred-WellFormed,
        )
        depth 20

  pub remove_value-WellFormed : (r vid : ℕ) → Keeps WellFormed (remove_value_locked out r vid)
  unfolding remove_value_locked
  remove_value-WellFormed r vid =
      search (keeps_rules, without-WellFormed, on_values_removed-WellFormed) depth 20

  pub remove_resolver-WellFormed : (r : ℕ) → Keeps WellFormed (remove_resolver_locked out r)
  unfolding remove_resolver_locked retire_resolver
  remove_resolver-WellFormed r =
      search
        (
          keeps_rules, outside, Keeps-modify, drop_resolver-WellFormed, update_context-WellFormed,
          clear_values-WellFormed, on_values_removed-WellFormed, swap-WellFormed,
          write_resolver-WellFormed, call_events-WellFormed, handle_idle-WellFormed,
        )
        depth 20

  announce-WellFormed : (vid val : ℕ) → Keeps WellFormed (announce_value out vid val)
  unfolding announce_value
  announce-WellFormed vid val =
      search (keeps_rules, outside, mark-WellFormed, call_events-WellFormed, check_full-WellFormed)
        depth 20

  reject-WellFormed : (d : Bool) → Keeps WellFormed (reject_value out d)
  unfolding reject_value
  reject-WellFormed d = search (keeps_rules, outside, run_deferred-WellFormed)

  settle-WellFormed : (val : ℕ) (d : Bool) → Keeps WellFormed (settle_value out val d)
  unfolding settle_value
  settle-WellFormed val d =
      search (keeps_rules, outside, announce-WellFormed, run_deferred-WellFormed) depth 20

  -- The id counter has room for one more.
  HasRoom : Instance → Type 0
  HasRoom s = WellFormed s × (s.val_ctr + 1 < 2 ^ 32)

  defer_check-HasRoom : Keeps HasRoom (defer_check_state_changed out)
  unfolding defer_check_state_changed HasRoom
  defer_check-HasRoom = search (keeps_rules, Keeps-modify) depth 20

  -- Whether the value is accepted or rejected, and whatever the callbacks do that keep the
  -- invariant, the instance stays well-formed, unless the value counter wraps.
  pub add_value_locked-WellFormed :
      (r val : ℕ) (s : Instance) (q : (ℕ × Bool) × Instance)
      → add_value_locked out r val s ≡ some q
      → s.val_ctr + 1 < 2 ^ 32
      → WellFormed s
      → WellFormed q.1
  unfolding add_value_locked accept_value HasRoom ◌>>=◌ gets modify
  add_value_locked-WellFormed r val s q run room p =
      let (d, run_d, rest) = >>=-eq-some (defer_check_state_changed out) _ s run in
      let (p', room') = defer_check-HasRoom.at s d run_d (p, room) in
      elim (Bool-cases (rejects_value d.1)) [
        | inl e ↦ (reject-WellFormed d.0).at d.1 q (rw e at rest) p'
        | inr e ↦
            (settle-WellFormed val d.0).at (push_value r val d.1) q (rw e at rest)
              (push_value-WellFormed r val d.1 room' e p')
      ]
