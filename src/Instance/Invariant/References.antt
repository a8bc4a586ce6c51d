-- ===== src/Instance/Invariant/References.antt =====
-- The invariant through references, the end of an instance and its callbacks.
use controllerbus.Common.{ℕ, zero, suc, Bool, Option, List, [], ◌∷◌}
use controllerbus.Common.Exec.{Keeps}
use controllerbus.Common.Exec.Rules.{
  Keeps-modify, Keeps-bind, Keeps-skip, Keeps-on_option, keeps_rules,
}
use controllerbus.Instance.State.{Callback, CallbackEvent, DirRef}
use controllerbus.Instance.Callbacks.{Outside}
use controllerbus.Instance.Lifecycle.{
  release_callbacks, release_ref, swap_refs, stop_destroy_timer, remove_handler_from,
  remove_handler_locked, remove_resolvers, remove_all_resolvers, disconnect, dispose, clean_up,
  remove_locked, handle_referenced_locked, handle_unreferenced_locked, destroy_timer_fired,
  add_reference_locked, remove_reference_locked, release,
}
use controllerbus.Instance.Invariant.{WellFormed}
use controllerbus.Instance.Invariant.RefLists.{
  insert_ref-WellFormed, without_ref-WellFormed, no_refs-WellFormed,
}
use controllerbus.Instance.Invariant.Idle.{new_pointer-WellFormed, call_events-WellFormed}
use controllerbus.Instance.Invariant.Removal.{swap-WellFormed, remove_resolver-WellFormed}

stop_timer-WellFormed : Keeps WellFormed stop_destroy_timer
unfolding stop_destroy_timer
stop_timer-WellFormed = search Keeps-modify

release_ref-WellFormed : (k : ℕ) → Keeps WellFormed (release_ref k)
unfolding release_ref
release_ref-WellFormed k = search Keeps-modify

release_callbacks-WellFormed : (cs : List Callback) → Keeps WellFormed (release_callbacks cs)
unfolding release_callbacks
release_callbacks-WellFormed [] = search keeps_rules
release_callbacks-WellFormed (c ∷ cs) =
    Keeps-bind _ _ (search Keeps-modify) λ _. release_callbacks-WellFormed cs

swap_refs-WellFormed : (rs : List DirRef) → Keeps WellFormed (swap_refs rs)
unfolding swap_refs
swap_refs-WellFormed [] = search keeps_rules
swap_refs-WellFormed (r ∷ rs) = Keeps-bind _ _ (search keeps_rules) λ was.
    Keeps-bind _ _ (release_ref-WellFormed r.ref_id)
      λ _. Keeps-bind _ _ (swap_refs-WellFormed rs) (search keeps_rules)

module _ (out : Outside) (outside : (e : CallbackEvent) → Keeps WellFormed (out.invoke e)) where
  remove_handler_from-WellFormed :
      (n idx hnd : ℕ) → Keeps WellFormed (remove_handler_from out n idx hnd)
  unfolding remove_handler_from
  remove_handler_from-WellFormed zero idx hnd = record { at = λ s r e p. cc }
  remove_handler_from-WellFormed (suc n) idx hnd =
      search (keeps_rules, outside, remove_resolver-WellFormed, remove_handler_from-WellFormed n)
        depth 20

  pub remove_handler-WellFormed : (hnd : ℕ) → Keeps WellFormed (remove_handler_locked out hnd)
  unfolding remove_handler_locked
  remove_handler-WellFormed hnd = search (keeps_rules, remove_handler_from-WellFormed)

  remove_resolvers-WellFormed : (n : ℕ) → Keeps WellFormed (remove_resolvers out n)
  unfolding remove_resolvers
  remove_resolvers-WellFormed zero = record { at = λ s r e p. cc }
  remove_resolvers-WellFormed (suc n) = Keeps-bind _ _ (search keeps_rules) λ last.
      Keeps-on_option last _ _ Keeps-skip λ r.
        Keeps-bind _ _ (remove_resolver-WellFormed out outside r) λ _. remove_resolvers-WellFormed n

  pub remove-WellFormed : Keeps WellFormed (remove_locked out)
  unfolding remove_locked dispose clean_up disconnect remove_all_resolvers
  remove-WellFormed =
      search
        (
          keeps_rules, outside, Keeps-modify, stop_timer-WellFormed, release_callbacks-WellFormed,
          remove_resolvers-WellFormed, swap-WellFormed, swap_refs-WellFormed,
          call_events-WellFormed, no_refs-WellFormed,
        )
        depth 30

  handle_referenced-WellFormed : Keeps WellFormed handle_referenced_locked
  unfolding handle_referenced_locked
  handle_referenced-WellFormed = search (keeps_rules, stop_timer-WellFormed)

  handle_unreferenced-WellFormed : Keeps WellFormed (handle_unreferenced_locked out)
  unfolding handle_unreferenced_locked
  handle_unreferenced-WellFormed =
      search (keeps_rules, Keeps-modify, remove-WellFormed, new_pointer-WellFormed) depth 20

  pub timer_fired-WellFormed : (t : ℕ) → Keeps WellFormed (destroy_timer_fired out t)
  unfolding destroy_timer_fired
  timer_fired-WellFormed t = search (keeps_rules, stop_timer-WellFormed, remove-WellFormed) depth 20

  pub add_reference-WellFormed :
      (h : Option ℕ) (weak_ref : Bool) → Keeps WellFormed (add_reference_locked out h weak_ref)
  unfolding add_reference_locked
  add_reference-WellFormed h weak_ref =
      search
        (
          keeps_rules, outside, Keeps-modify, new_pointer-WellFormed, release_ref-WellFormed,
          insert_ref-WellFormed, handle_referenced-WellFormed, call_events-WellFormed,
        )
        depth 20

  remove_reference-WellFormed : (k : ℕ) → Keeps WellFormed (remove_reference_locked out k)
  unfolding remove_reference_locked
  remove_reference-WellFormed k =
      search
        (
          keeps_rules, Keeps-modify, without_ref-WellFormed, release_ref-WellFormed,
          handle_unreferenced-WellFormed,
        )
        depth 20

  pub release-WellFormed : (k : ℕ) → Keeps WellFormed (release out k)
  unfolding release
  release-WellFormed k =
      search (keeps_rules, release_ref-WellFormed, remove_reference-WellFormed) depth 20
