-- ===== src/Instance/Disposal.antt =====
-- When an instance is disposed of, and what is left of it.
use controllerbus.Common.{
  ℕ, suc, ◌≤◌, ◌≡◌, ◌≢◌, refl, ◌∙◌, ap, true, false, Option, none, some, List, [], ◌∷◌, ◌++◌,
  is_empty, inl, inr, length, contains, without, arith, Bool-cases, ==_iff, ◌==◌, if◌then◌else◌,
}
use controllerbus.Common.Exec.{Ensures, pure, gets, modify, skip, when, ◌>>=◌}
use controllerbus.Common.Exec.Rules.{>>=-some, Ensures-modify, Ensures-bind}
use controllerbus.Instance.State.{Instance, DirRef}
use controllerbus.Instance.Callbacks.{Outside, new_pointer, call_callback_events_locked}
use controllerbus.Instance.Lifecycle.{
  any_non_weak_refs, has_ref, without_ref, release_ref, release_callbacks, stop_destroy_timer,
  remove_all_resolvers, disconnect, dispose, clean_up, remove_locked, handle_unreferenced_locked,
  destroy_timer_fired, is_timer, add_reference_locked, handle_referenced_locked,
  remove_reference_locked, release,
}
use controllerbus.Instance.Halting.{Quiet, IsQuiet}
use controllerbus.Instance.Halting.Removal.{
  release_callbacks-Total, remove_all-empty, disconnect-Total,
}
use controllerbus.Instance.Invariant.RefLists.{new_ref}

-- What is left: nothing attached, nobody referring, nothing queued.
pub record IsGone (s : Instance) : Type 0 where
  pub released : s.released ≡ true
  pub no_resolvers : s.resolvers ≡ []
  pub no_refs : s.refs ≡ []
  pub no_queue : s.ref_cbs ≡ []

length-zero {ℓ} : {A : Type ℓ} (xs : List A) → length xs ≤ 0 → xs ≡ []
length-zero [] h = refl
length-zero (x ∷ xs) h = absurd (omega arith)

disconnect-refs :
    (out : Outside) → Ensures (λ (_ : Unit {0}) (s : Instance). s.refs ≡ []) (disconnect out)
unfolding disconnect
disconnect-refs out = search (Ensures-bind, Ensures-modify) depth 20

unreferenced-remove :
    (out : Outside) (s : Instance)
    → s.released ≡ false
    → s.value_opts.unref_dispose_dur ≡ 0
    → handle_unreferenced_locked out s ≡ remove_locked out s
unfolding handle_unreferenced_locked gets when ◌>>=◌
unreferenced-remove out s live no_delay = simp (live, no_delay)

unreferenced-timer :
    (out : Outside) (s : Instance)
    → s.released ≡ false
    → s.value_opts.unref_dispose_dur ≢ 0
    → s.value_opts.unref_dispose_empty_immediate ≡ false
    → s.destroy_timer ≡ none
    → handle_unreferenced_locked out s
      ≡ some
          (tt, record s { next_pointer = suc s.next_pointer; destroy_timer = some s.next_pointer })
unfolding handle_unreferenced_locked new_pointer pure gets modify when ◌>>=◌
unreferenced-timer out s live delay keep no_timer =
    let positive : (s.value_opts.unref_dispose_dur == 0) ≡ false = ground arith in
    simp (live, positive, keep, no_timer)

-- The flag of one reference is set.
abbrev flagged : ℕ → Instance → Instance
flagged k s = record s { ref_released = λ j. if k == j then true else s.ref_released j }

remove_reference-unreferenced :
    (out : Outside) (k : ℕ) (s : Instance)
    → has_ref k s.refs ≡ true
    → any_non_weak_refs (without_ref k s.refs) ≡ false
    → remove_reference_locked out k s
      ≡ handle_unreferenced_locked out (flagged k (record s { refs = without_ref k s.refs }))
unfolding remove_reference_locked release_ref gets modify when ◌>>=◌
remove_reference-unreferenced out k s found last = simp (found, last)

release-remove_reference :
    (out : Outside) (k : ℕ) (s : Instance)
    → s.ref_released k ≡ false
    → release out k s ≡ remove_reference_locked out k (flagged k s)
unfolding release release_ref gets modify when ◌>>=◌
release-remove_reference out k s unreleased = simp unreleased

module _ (out : Outside) (quiet : IsQuiet out) where
  dispose-ends :
      (n : ℕ) (s : Instance)
      → s.released ≡ true
      → Quiet false true n s
      → (q : Unit {0} × Instance) × (dispose out s ≡ some q) × IsGone q.1
  unfolding dispose clean_up gets modify ◌>>=◌
  dispose-ends n s gone p =
      let t = record s { dir = without s.id s.dir; broadcasts = suc s.broadcasts } in
      let (a, run_a, pa) = (release_callbacks-Total out quiet true n t.idles).at t p in
      let u = record a.1 { idles = [] } in
      let (b, run_b, pb) = remove_all-empty out quiet true n u pa in
      let (c, run_c, pc) = (disconnect-Total out quiet true 0).at b.1 pb in
      (
        c,
        >>=-some (release_callbacks t.idles) _ t a c run_a
            (>>=-some (remove_all_resolvers out) _ u b c run_b run_c),
        record {
          released = pc.3 refl;
          no_resolvers = length-zero c.1.resolvers pc.2;
          no_refs = (disconnect-refs out).at b.1 c run_c;
          no_queue = pc.0;
        },
      )

  -- Disposing of an instance that the controller lists, outside of callbacks, ends, and leaves
  -- it released, without resolvers, references and queued callbacks, where the callbacks return,
  -- queue nothing and attach no resolver.
  pub remove_locked-IsGone :
      (n : ℕ) (s : Instance)
      → Quiet false false n s
      → contains s.id s.dir ≡ true
      → (q : Unit {0} × Instance) × (remove_locked out s ≡ some q) × IsGone q.1
  unfolding remove_locked stop_destroy_timer gets modify when ◌>>=◌
  remove_locked-IsGone n s p listed =
      let t = record s { released = true; ctx_done = true; destroy_timer = none } in
      let (q, run, gone) = dispose-ends n t refl (p.0, p.1, p.2, λ e. refl) in
      (q, rw listed run, gone)

  -- Releasing the last strong reference of a live instance that the controller lists, with no
  -- dispose delay and outside of callbacks, ends, and leaves it released, without resolvers,
  -- references and queued callbacks, where the callbacks return, queue nothing and attach no
  -- resolver.
  pub release-IsGone :
      (n k : ℕ) (s : Instance)
      → Quiet false false n s
      → contains s.id s.dir ≡ true
      → s.released ≡ false
      → s.ref_released k ≡ false
      → has_ref k s.refs ≡ true
      → any_non_weak_refs (without_ref k s.refs) ≡ false
      → s.value_opts.unref_dispose_dur ≡ 0
      → (q : Unit {0} × Instance) × (release out k s ≡ some q) × IsGone q.1
  release-IsGone n k s p listed live unreleased found last no_delay =
      let t = flagged k s in
      let u = flagged k (record t { refs = without_ref k t.refs }) in
      let (q, run, gone) = remove_locked-IsGone n u p listed in
      (
        q,
        release-remove_reference out k s unreleased
            ∙ remove_reference-unreferenced out k t found last
            ∙ unreferenced-remove out u live no_delay
            ∙ run,
        gone,
      )

-- Where a live instance has a dispose delay, no timer, and does not go at once when it is empty,
-- releasing its last strong reference arms a timer and takes the reference out of the list; the
-- instance is not released and its resolvers stay.
pub release_arms_timer :
    (out : Outside) (k : ℕ) (s : Instance)
    → s.released ≡ false
    → s.ref_released k ≡ false
    → has_ref k s.refs ≡ true
    → any_non_weak_refs (without_ref k s.refs) ≡ false
    → s.value_opts.unref_dispose_dur ≢ 0
    → s.value_opts.unref_dispose_empty_immediate ≡ false
    → s.destroy_timer ≡ none
    → (t : Instance) × (release out k s ≡ some (tt, t))
      × (t.released ≡ false)
      × (t.destroy_timer ≡ some s.next_pointer)
      × (t.refs ≡ without_ref k s.refs)
      × (t.resolvers ≡ s.resolvers)
release_arms_timer out k s live unreleased found last delay keep no_timer =
    let t = flagged k s in
    let u = flagged k (record t { refs = without_ref k t.refs }) in
    (
      record u { next_pointer = suc s.next_pointer; destroy_timer = some s.next_pointer },
      release-remove_reference out k s unreleased
          ∙ remove_reference-unreferenced out k t found last
          ∙ unreferenced-timer out u live delay keep no_timer,
      live,
      refl,
      refl,
      refl,
    )

not-is_timer : (o : Option ℕ) (t : ℕ) → o ≢ some t → is_timer o t ≡ false
unfolding is_timer
not-is_timer none t h = refl
not-is_timer (some d) t h = elim (Bool-cases (d == t)) [
  | inl same ↦ absurd (h (ap some ((==_iff d t).0 same)))
  | inr other ↦ other
]

-- A timer that is not, or is no longer, the instance's does nothing when it fires.
pub stale_timer :
    (out : Outside) (t : ℕ) (s : Instance)
    → s.destroy_timer ≢ some t
    → destroy_timer_fired out t s ≡ some (tt, s)
unfolding destroy_timer_fired gets modify when skip ◌>>=◌
stale_timer out t s other =
    let miss = not-is_timer s.destroy_timer t other in
    elim (Bool-cases s.released) [ inl e ↦ simp e | inr e ↦ simp (e, miss) ]

-- A strong reference without a handler, added to a live instance that has no strong reference
-- and no queued callback, goes behind the weak ones and stops the timer; the resolvers stay.
pub add_reference_stops_timer :
    (out : Outside) (s : Instance)
    → s.released ≡ false
    → any_non_weak_refs s.refs ≡ false
    → s.ref_cbs ≡ []
    → (ref : DirRef) × (t : Instance) × (add_reference_locked out none false s ≡ some (ref, t))
      × (t.destroy_timer ≡ none)
      × (t.refs ≡ s.refs ++ ref ∷ [])
      × (t.resolvers ≡ s.resolvers)
unfolding add_reference_locked handle_referenced_locked stop_destroy_timer
    call_callback_events_locked new_pointer pure gets modify when skip ◌>>=◌
add_reference_stops_timer out s live weak quiet =
    let ref = new_ref s.next_pointer false none in
    let t = record s {
      next_pointer = suc s.next_pointer;
      refs = s.refs ++ ref ∷ [];
      destroy_timer = none;
    } in
    let run : add_reference_locked out none false s ≡ some (ref, t) =
      elim (Bool-cases (is_empty s.refs)) [
        | inl e ↦ simp (live, e, quiet)
        | inr e ↦ simp (live, e, weak, quiet)
      ] in
    (ref, t, run, refl, refl, refl)
