-- ===== src/Instance/Halting/Removal.antt =====
-- Removing values, resolvers and the whole instance ends.
use controllerbus.Common.{
  ℕ, zero, suc, ◌+◌, ◌-◌, ◌<◌, ◌≡◌, refl, Bool, true, false, some, List, [], ◌∷◌, inl, inr, length,
  contains, without, arith, Bool-cases, Option-cases, ◌==◌,
}
use controllerbus.Common.Exec.{Total, gets, modify, skip, when, on_option, ◌>>=◌}
use controllerbus.Common.Exec.Rules.{>>=-some, Total-modify, Total-bind, total_rules}
use controllerbus.Instance.State.{Instance, Callback, DirRef, Value}
use controllerbus.Instance.Callbacks.{Outside}
use controllerbus.Instance.Values.{
  swap_callbacks, on_values_removed_locked, remove_value_locked, retire_resolver,
  remove_resolver_locked,
}
use controllerbus.Instance.Lifecycle.{
  nth, last_of, release_callbacks, release_ref, swap_refs, stop_destroy_timer, remove_handler_from,
  remove_handler_locked, remove_resolvers, remove_all_resolvers, disconnect, dispose, clean_up,
  remove_locked, handle_unreferenced_locked, remove_reference_locked, release,
}
use controllerbus.Instance.Halting.{Quiet, IsQuiet, call_events-Total}
use controllerbus.Instance.Halting.Idle.{
  write-Total, mark-Total, new_pointer-Total, run_deferred-Total, defer_check-Total,
  handle_idle-Total, update_context-Total, check_full-Total,
}
use controllerbus.Instance.Halting.Listed.{
  length-without, last_of-contains, last_of-none, nth-contains, nth-lt,
}

module _ (out : Outside) (quiet : IsQuiet out) (g : Bool) where
  module _ (n : ℕ) where
    swap-Total : (cs : List Callback) → Total (Quiet false g n) (swap_callbacks cs)
    unfolding swap_callbacks
    swap-Total [] = search total_rules
    swap-Total (c ∷ cs) = Total-bind _ _ (search total_rules) λ was.
        Total-bind _ _ (search Total-modify)
          λ _. Total-bind _ _ (swap-Total cs) (search total_rules)

    pub on_values_removed-Total :
        (vals : List Value) → Total (Quiet false g n) (on_values_removed_locked out vals)
    unfolding on_values_removed_locked
    on_values_removed-Total vals =
        search
          (
            total_rules, quiet, mark-Total, defer_check-Total, call_events-Total, check_full-Total,
            run_deferred-Total,
          )
          depth 20

    -- Taking a value away ends, and leaves nothing queued.
    pub remove_value-Total : (r vid : ℕ) → Total (Quiet false g n) (remove_value_locked out r vid)
    unfolding remove_value_locked
    remove_value-Total r vid =
        search (total_rules, quiet, write-Total, on_values_removed-Total) depth 20

    retire-Total : (r : ℕ) → Total (Quiet false g n) (retire_resolver out r)
    unfolding retire_resolver
    retire-Total r =
        search
          (
            total_rules, quiet, update_context-Total, write-Total, on_values_removed-Total,
            swap-Total, call_events-Total, handle_idle-Total,
          )
          depth 25

    pub release_callbacks-Total :
        (cs : List Callback) → Total (Quiet false g n) (release_callbacks cs)
    unfolding release_callbacks
    release_callbacks-Total [] = search total_rules
    release_callbacks-Total (c ∷ cs) =
        Total-bind _ _ (search Total-modify) λ _. release_callbacks-Total cs

    release_ref-Total : (k : ℕ) → Total (Quiet false g n) (release_ref k)
    unfolding release_ref
    release_ref-Total k = search Total-modify

    swap_refs-Total : (rs : List DirRef) → Total (Quiet false g n) (swap_refs rs)
    unfolding swap_refs
    swap_refs-Total [] = search total_rules
    swap_refs-Total (r ∷ rs) = Total-bind _ _ (search total_rules) λ was.
        Total-bind _ _ (release_ref-Total r.ref_id)
          λ _. Total-bind _ _ (swap_refs-Total rs) (search total_rules)

    stop_timer-Total : Total (Quiet false g n) stop_destroy_timer
    unfolding stop_destroy_timer
    stop_timer-Total = search Total-modify

  -- A resolver that is attached leaves, and the list is one shorter.
  remove_resolver-shorter :
      (n r : ℕ) (s : Instance)
      → contains r s.resolvers ≡ true
      → Quiet false g (suc n) s
      → (q : Unit {0} × Instance) × (remove_resolver_locked out r s ≡ some q) × Quiet false g n q.1
  unfolding remove_resolver_locked gets modify when ◌>>=◌
  remove_resolver-shorter n r s found p =
      let t = record s { resolvers = without r s.resolvers } in
      let (q, run, p') =
        (retire-Total n r).at t
          (p.0, p.1, omega (arith, length-without r s.resolvers found), p.3) in
      (q, rw found run, p')

  -- The loop takes every resolver away.
  remove_resolvers-ends :
      (rounds n : ℕ) (s : Instance)
      → n < rounds
      → Quiet false g n s
      → (q : Unit {0} × Instance) × (remove_resolvers out rounds s ≡ some q) × Quiet false g 0 q.1
  unfolding remove_resolvers on_option skip gets ◌>>=◌
  remove_resolvers-ends zero n s h p = elim h [ ]
  remove_resolvers-ends (suc rounds) zero s h p = elim (Option-cases (last_of s.resolvers)) [
    | inl e ↦ ((tt, s), rw e, p)
    | inr (r, e) ↦
        let fewer = length-without r s.resolvers (last_of-contains s.resolvers r e) in
        absurd (omega arith)
  ]
  remove_resolvers-ends (suc rounds) (suc n) s h p = elim (Option-cases (last_of s.resolvers)) [
    | inl e ↦ ((tt, s), rw e, (p.0, p.1, last_of-none s.resolvers e, p.3))
    | inr (r, e) ↦
        let (q, run, p') = remove_resolver-shorter n r s (last_of-contains s.resolvers r e) p in
        let (q', run', p'') = remove_resolvers-ends rounds n q.1 (omega arith) p' in
        (q', rw e (>>=-some (remove_resolver_locked out r) _ s q q' run run'), p'')
  ]

  pub remove_all-empty :
      (n : ℕ) (s : Instance)
      → Quiet false g n s
      → (q : Unit {0} × Instance) × (remove_all_resolvers out s ≡ some q) × Quiet false g 0 q.1
  unfolding remove_all_resolvers gets ◌>>=◌
  remove_all-empty n s p =
      remove_resolvers-ends (suc (length s.resolvers + out.fuel)) (length s.resolvers) s
        (omega arith) (p.0, p.1, omega arith, p.3)

  remove_all-Total : (n : ℕ) → Total (Quiet false g n) (remove_all_resolvers out)
  remove_all-Total n = record {
    at = λ s p.
        let (q, run, p') = remove_all-empty n s p in (q, run, (p'.0, p'.1, omega arith, p'.3));
  }

  -- The index moves on or the list gets shorter.
  remove_handler_from-ends :
      (rounds n idx hnd : ℕ) (s : Instance)
      → n < idx + rounds
      → 0 < rounds
      → Quiet false g n s
      → (q : Unit {0} × Instance) × (remove_handler_from out rounds idx hnd s ≡ some q)
        × Quiet false g n q.1
  unfolding remove_handler_from on_option skip gets ◌>>=◌
  remove_handler_from-ends zero n idx hnd s h pos p = elim pos [ ]
  remove_handler_from-ends (suc rounds) n idx hnd s h pos p =
      elim (Option-cases (nth s.resolvers idx)) [
        | inl e ↦ ((tt, s), rw e, p)
        | inr (r, e) ↦
            let bound = nth-lt s.resolvers idx r e in
            elim (Bool-cases ((s.resolver_at r).hnd == hnd)) [
              | inl hit ↦
                  let (q, run, p') =
                    remove_resolver-shorter (n - 1) r s (nth-contains s.resolvers idx r e)
                      (p.0, p.1, omega arith, p.3) in
                  let (q', run', p'') =
                    remove_handler_from-ends rounds (n - 1) idx hnd q.1 (omega arith) (omega arith)
                      p' in
                  (
                    q',
                    rw e (rw hit (>>=-some (remove_resolver_locked out r) _ s q q' run run')),
                    (p''.0, p''.1, omega arith, p''.3),
                  )
              | inr miss ↦
                  let (q, run, p') =
                    remove_handler_from-ends rounds n (suc idx) hnd s (omega arith) (omega arith)
                      p in
                  (q, rw e (rw miss run), p')
            ]
      ]

  -- Removing the resolvers of a handler outside of callbacks ends, whichever resolvers are the
  -- handler's, where the callbacks return, queue nothing and attach no resolver.
  pub remove_handler-Total : (n hnd : ℕ) → Total (Quiet false g n) (remove_handler_locked out hnd)
  unfolding remove_handler_locked gets ◌>>=◌
  remove_handler-Total n hnd = record {
    at = λ s p.
        let (q, run, p') =
          remove_handler_from-ends (suc (length s.resolvers + out.fuel)) (length s.resolvers) 0 hnd
            s (omega arith) (omega arith) (p.0, p.1, omega arith, p.3) in
        (q, run, (p'.0, p'.1, omega arith, p'.3));
  }

  pub disconnect-Total : (n : ℕ) → Total (Quiet false g n) (disconnect out)
  unfolding disconnect
  disconnect-Total n =
      search (total_rules, quiet, Total-modify, swap-Total, swap_refs-Total, call_events-Total)
        depth 30

  dispose-Total : (n : ℕ) → Total (Quiet false g n) (dispose out)
  unfolding dispose clean_up
  dispose-Total n =
      search
        (total_rules, Total-modify, release_callbacks-Total, remove_all-Total, disconnect-Total)
        depth 30

  mark_gone-Total :
      (n : ℕ)
      → Total (Quiet false g n) (modify (λ s. record s { released = true; ctx_done = true }))
  mark_gone-Total n = Total-modify _ (λ s p. (p.0, p.1, p.2, λ e. refl))

  -- Disposing of an instance ends, however many resolvers, values and references it has.
  pub remove_locked-Total : (n : ℕ) → Total (Quiet false g n) (remove_locked out)
  unfolding remove_locked
  remove_locked-Total n =
      search (total_rules, mark_gone-Total, stop_timer-Total, dispose-Total) depth 30

  handle_unreferenced-Total : (n : ℕ) → Total (Quiet false g n) (handle_unreferenced_locked out)
  unfolding handle_unreferenced_locked
  handle_unreferenced-Total n =
      search (total_rules, quiet, Total-modify, remove_locked-Total, new_pointer-Total) depth 20

  remove_reference-Total : (n k : ℕ) → Total (Quiet false g n) (remove_reference_locked out k)
  unfolding remove_reference_locked
  remove_reference-Total n k =
      search (total_rules, Total-modify, release_ref-Total, handle_unreferenced-Total) depth 20

  -- Releasing a reference ends, also where it was the last and the instance goes with it.
  pub release-Total : (n k : ℕ) → Total (Quiet false g n) (release out k)
  unfolding release
  release-Total n k = search (total_rules, release_ref-Total, remove_reference-Total) depth 20
