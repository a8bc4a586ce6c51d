-- ===== src/Clients/Watch/Live.antt =====
-- ExecOneOffWatchCb of bus/watch.go keeps the values that are present by the events in its map.
use controllerbus.Common.{
  ℕ, Bool, true, false, Option, none, some, List, [], ◌∷◌, ◌==◌, if◌then◌else◌, ◌≡◌, refl, sym, ◌∙◌,
  inl, inr, Bool-cases, ==_iff, some_none, insert, delete, lookup-insert, lookup-insert_other,
  lookup-delete_other,
}
use controllerbus.Instance.State.{AttachedValue}
use controllerbus.Clients.{
  ClientEvent, value_added, value_removed, instance_disposed, run_events, mark, mark-other,
  mark-same, IsFresh, has_type,
}
use controllerbus.Clients.Watch.{WatchState, WatchCallback, call_nil, offer_next, watch_step}
use controllerbus.Clients.Watch.Present.{
  IsLive, live_after, true_false, deleted-IsPresent, others-IsPresent, insert-IsPresent,
  offer_next-IsPresent, offer_next-IsAccounted, offer_value-IsLive, settle-IsLive,
}

module _ (is_t : ℕ → Bool) where
  module _ (cb : WatchCallback) where
    -- A value of another type comes or goes.
    untyped-IsLive :
        (live : ℕ → Option ℕ) (id : ℕ) (o : Option ℕ) (s : WatchState)
        → ((val : ℕ) → live id ≡ some val → is_t val ≡ true → ⊥)
        → ((val : ℕ) → o ≡ some val → is_t val ≡ true → ⊥)
        → IsLive is_t live s
        → IsLive is_t (mark live id o) s
    untyped-IsLive live id o s out in_ p = record {
      present = others-IsPresent is_t live id o s.vals out p.present;
      accounted = λ j val here typed. elim (Bool-cases (id == j)) [
        | inl hit ↦ absurd (in_ val (rw hit at here) typed)
        | inr miss ↦ p.accounted j val (sym (mark-other live id j o miss) ∙ here) typed
      ];
    }

    inserted-IsLive :
        (live : ℕ → Option ℕ) (v : AttachedValue) (s : WatchState)
        → live v.attached_id ≡ none
        → is_t v.attached_val ≡ true
        → IsLive is_t live s
        → IsLive is_t
            (mark live v.attached_id (some v.attached_val))
            (record s { vals = insert v.attached_id v s.vals })
    inserted-IsLive live v s free typed p =
        let o = some v.attached_val in
        let id = v.attached_id in
        record {
          present = insert-IsPresent is_t (mark live id o) v s.vals (mark-same live id o) typed (
              others-IsPresent is_t live id o s.vals (λ val here _. some_none (sym here ∙ free))
                p.present);
          accounted = λ j val here typed'. elim (Bool-cases (id == j)) [
            | inl hit ↦ inl (rw (← (==_iff id j).0 hit) (rw (lookup-insert id v s.vals) refl))
            | inr miss ↦
                elim (p.accounted j val (sym (mark-other live id j o miss) ∙ here) typed') [
                  | inl kept ↦ inl (rw (lookup-insert_other j id v s.vals miss) kept)
                  | inr bad ↦ inr bad
                ]
          ];
        }

    deleted-IsLive :
        (live : ℕ → Option ℕ) (id : ℕ) (s : WatchState)
        → IsLive is_t live s
        → IsLive is_t (mark live id none) (record s { vals = delete id s.vals })
    deleted-IsLive live id s p = record {
      present = deleted-IsPresent is_t live id s.vals p.present;
      accounted = λ j val here typed. elim (Bool-cases (id == j)) [
        | inl hit ↦ some_none (sym here ∙ rw hit refl)
        | inr miss ↦ elim (p.accounted j val (sym (mark-other live id j none miss) ∙ here) typed) [
          | inl kept ↦ inl (rw (lookup-delete_other j id s.vals miss) kept)
          | inr bad ↦ inr bad
        ]
      ];
    }

    -- The values are offered in turn, and nil is shown if none is taken.
    next-IsLive :
        (live : ℕ → Option ℕ) (s : WatchState)
        → IsLive is_t live s
        → IsLive is_t live (
            let next = offer_next cb s.vals (record s { curr_value_id = 0 }) in
            if next.curr_value_id == 0 then call_nil cb next else next)
    next-IsLive live s p =
        settle-IsLive is_t cb live (offer_next cb s.vals (record s { curr_value_id = 0 })) (record {
          present =
              offer_next-IsPresent is_t cb live s.vals (record s { curr_value_id = 0 }) p.present;
          accounted = λ id val here typed.
              offer_next-IsAccounted is_t cb live id s.vals (record s { curr_value_id = 0 })
                p.present (p.accounted id val here typed);
        })

    untyped :
        (x : Option ℕ) (val : ℕ) → x ≡ some val → has_type is_t x ≡ false → is_t val ≡ true → ⊥
    untyped x val e miss typed = true_false (sym typed ∙ rw e at miss)

    pub run-IsLive :
        (evs : List ClientEvent) (live : ℕ → Option ℕ) (s : WatchState)
        → IsFresh live evs
        → IsLive is_t live s
        → IsLive is_t (live_after live evs) (run_events (watch_step cb is_t) evs s)
    unfolding run_events watch_step
    run-IsLive [] live s h p = p
    run-IsLive (value_added v ∷ evs) live s (free, fresh) p =
        run-IsLive evs _ _ fresh (elim (Bool-cases (is_t v.attached_val)) [
          | inr other ↦ rw other (
              untyped-IsLive live v.attached_id (some v.attached_val) s
                (λ val here _. some_none (sym here ∙ free))
                (λ val e typed. untyped (some v.attached_val) val e other typed) p)
          | inl typed ↦
              let q = inserted-IsLive live v s free typed p in
              elim (Bool-cases (s.curr_value_id == 0)) [
                | inl z ↦ rw (typed, z) (offer_value-IsLive is_t cb _ v _ q)
                | inr nz ↦ rw (typed, nz) q
              ]
        ])
    run-IsLive (value_removed v ∷ evs) live s (here, fresh) p =
        run-IsLive evs _ _ fresh (elim (Bool-cases (is_t v.attached_val)) [
          | inr other ↦ rw other (
              untyped-IsLive live v.attached_id none s
                (λ val e typed. untyped (some v.attached_val) val (sym here ∙ e) other typed)
                (λ val e typed. some_none (sym e)) p)
          | inl typed ↦
              let q = deleted-IsLive live v.attached_id s p in
              elim (Bool-cases (s.curr_value_id == v.attached_id)) [
                | inr miss ↦ rw (typed, miss) q
                | inl hit ↦
                    rw (typed, hit)
                      (next-IsLive (mark live v.attached_id none)
                        (record s { vals = delete v.attached_id s.vals }) q)
              ]
        ])
    run-IsLive (instance_disposed ∷ evs) live s fresh p = absurd fresh
