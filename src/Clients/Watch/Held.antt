-- ===== src/Clients/Watch/Held.antt =====
-- ExecOneOffWatchCb of bus/watch.go: which value is current, and what the callback was shown.
use controllerbus.Common.{
  ℕ, ◌<◌, Bool, true, false, Option, none, some, List, [], ◌∷◌, ◌==◌, if◌then◌else◌, ◌≡◌, refl, sym,
  ◌∙◌, inl, inr, Bool-cases, ==_iff, ==_refl, arith, All, is_some, some_none, lookup, insert,
  delete, Distinct, lookup-hit, lookup-insert, lookup-insert_other, lookup-delete_other,
  delete-absent, delete-Distinct, insert-Distinct,
}
use controllerbus.Instance.State.{AttachedValue}
use controllerbus.Clients.{
  ClientEvent, value_added, value_removed, instance_disposed, run_events, IsFresh,
}
use controllerbus.Clients.Watch.Present.{IsLive, live_after}
use controllerbus.Clients.Watch.Live.{run-IsLive}
use controllerbus.Clients.Watch.{
  WatchCall, WatchState, WatchCallback, start, call_nil, offer_value, offer_next, watch_step,
}

abbrev shown_after : Option AttachedValue → Bool → ℕ → ℕ
shown_after none ok before = 0
shown_after (some v) true before = v.attached_id
shown_after (some v) false before = before

-- The id of the value that the callback took last, 0 if it was called with nil since.
abbrev pub shown_id : List WatchCall → ℕ
shown_id [] = 0
shown_id (c ∷ calls) = shown_after c.called_with c.accepted (shown_id calls)

abbrev IsEntry : ℕ × AttachedValue → Type 0
IsEntry e = (e.1.attached_id ≡ e.0) × (0 < e.0)

-- A value is current if it is held and the callback took it last; none is only if none is held.
pub record IsHeld (s : WatchState) : Type 0 where
  pub shown : shown_id s.calls ≡ s.curr_value_id
  pub held : 0 < s.curr_value_id → is_some (lookup s.curr_value_id s.vals) ≡ true
  pub left : s.curr_value_id ≡ 0 → s.vals ≡ []
  pub distinct : Distinct s.vals
  pub entries : All IsEntry s.vals

-- The values of an instance have ids from 1. Nothing comes after the disposal.
abbrev pub IsValueEvent : ClientEvent → Type 0
IsValueEvent (value_added v) = 0 < v.attached_id
IsValueEvent (value_removed v) = Unit
IsValueEvent instance_disposed = ⊥

delete-entries : (k : ℕ) (m : List (ℕ × AttachedValue)) → All IsEntry m → All IsEntry (delete k m)
unfolding delete
delete-entries k [] h = tt
delete-entries k ((j, v) ∷ m) h = elim (Bool-cases (j == k)) [
  | inl hit ↦ rw hit (delete-entries k m h.1)
  | inr miss ↦ rw miss (h.0, delete-entries k m h.1)
]

insert-entries :
    (v : AttachedValue) (m : List (ℕ × AttachedValue))
    → 0 < v.attached_id
    → All IsEntry m
    → All IsEntry (insert v.attached_id v m)
unfolding insert
insert-entries v [] p h = ((refl, p), tt)
insert-entries v ((j, w) ∷ m) p h = elim (Bool-cases (j == v.attached_id)) [
  | inl hit ↦ rw hit ((refl, p), h.1)
  | inr miss ↦ rw miss (h.0, insert-entries v m p h.1)
]

delete-first :
    (k : ℕ) (v : AttachedValue) (m : List (ℕ × AttachedValue))
    → lookup k m ≡ none
    → delete k ((k, v) ∷ m) ≡ m
unfolding delete
delete-first k v m h = rw (==_refl k) (delete-absent k m h)

-- What the offers lead to: as `IsHeld`, but nil is still to be shown if none is current.
record IsOffered (s : WatchState) : Type 0 where
  taken : 0 < s.curr_value_id → shown_id s.calls ≡ s.curr_value_id
  held : 0 < s.curr_value_id → is_some (lookup s.curr_value_id s.vals) ≡ true
  left : s.curr_value_id ≡ 0 → s.vals ≡ []
  distinct : Distinct s.vals
  entries : All IsEntry s.vals

module _ (cb : WatchCallback) where
  offer_next-IsOffered :
      (m : List (ℕ × AttachedValue)) (s : WatchState)
      → s.vals ≡ m
      → s.curr_value_id ≡ 0
      → Distinct m
      → All IsEntry m
      → IsOffered (offer_next cb m s)
  unfolding offer_next
  offer_next-IsOffered [] s e z d h = record {
    taken = λ p. absurd (omega arith);
    held = λ p. absurd (omega arith);
    left = λ _. e;
    distinct = rw e tt;
    entries = rw e tt;
  }
  offer_next-IsOffered ((k, v) ∷ m) s e z d h = elim (Bool-cases (cb s.calls (some v))) [
    | inl ok ↦ rw ok (record {
      taken = λ p. h.0.0;
      held = λ p. rw e (rw (lookup-hit k v m) refl);
      left = λ gone. absurd (omega arith);
      distinct = rw e d;
      entries = rw e h;
    })
    | inr not_ok ↦ rw not_ok (offer_next-IsOffered m _ (rw e (delete-first k v m d.0)) refl d.1 h.1)
  ]

  settle-IsHeld :
      (s : WatchState) → IsOffered s → IsHeld (if s.curr_value_id == 0 then call_nil cb s else s)
  unfolding call_nil
  settle-IsHeld s o = elim (Bool-cases (s.curr_value_id == 0)) [
    | inl gone ↦
        let z : s.curr_value_id ≡ 0 = (==_iff _ 0).0 gone in
        rw gone (record {
          shown = sym z;
          held = o.held;
          left = o.left;
          distinct = o.distinct;
          entries = o.entries;
        })
    | inr taken ↦ rw taken (record {
      shown = o.taken (ground arith);
      held = o.held;
      left = o.left;
      distinct = o.distinct;
      entries = o.entries;
    })
  ]

  offer_value-IsHeld :
      (v : AttachedValue) (s : WatchState)
      → 0 < v.attached_id
      → s.curr_value_id ≡ 0
      → IsHeld s
      → IsHeld (offer_value cb v (record s { vals = insert v.attached_id v s.vals }))
  unfolding offer_value lookup insert
  offer_value-IsHeld v s pos z p =
      let d = insert-Distinct v.attached_id v s.vals p.distinct in
      let h = insert-entries v s.vals pos p.entries in
      elim (Bool-cases (cb s.calls (some v))) [
        | inl ok ↦ rw ok (record {
          shown = refl;
          held = λ _. rw (lookup-insert v.attached_id v s.vals) refl;
          left = λ gone. absurd (omega arith);
          distinct = d;
          entries = h;
        })
        | inr not_ok ↦ rw not_ok (record {
          shown = p.shown ∙ z;
          held = λ q. absurd (omega arith);
          left = λ _. rw (p.left z) (delete-first v.attached_id v [] refl);
          distinct = delete-Distinct v.attached_id _ d;
          entries = delete-entries v.attached_id _ h;
        })
      ]

  kept-IsHeld :
      (v : AttachedValue) (s : WatchState)
      → 0 < v.attached_id
      → (s.curr_value_id == 0) ≡ false
      → IsHeld s
      → IsHeld (record s { vals = insert v.attached_id v s.vals })
  kept-IsHeld v s pos nz p = record {
    shown = p.shown;
    held = λ q. elim (Bool-cases (v.attached_id == s.curr_value_id)) [
      | inl hit ↦ rw (← (==_iff _ _).0 hit) (rw (lookup-insert v.attached_id v s.vals) refl)
      | inr miss ↦ rw (lookup-insert_other _ _ v s.vals miss) (p.held q)
    ];
    left = λ z. absurd (ground arith);
    distinct = insert-Distinct v.attached_id v s.vals p.distinct;
    entries = insert-entries v s.vals pos p.entries;
  }

  removed-IsHeld :
      (id : ℕ) (s : WatchState)
      → (s.curr_value_id == id) ≡ false
      → IsHeld s
      → IsHeld (record s { vals = delete id s.vals })
  unfolding delete
  removed-IsHeld id s miss p = record {
    shown = p.shown;
    held = λ q. rw (lookup-delete_other s.curr_value_id id s.vals (ground arith)) (p.held q);
    left = λ z. rw (p.left z) refl;
    distinct = delete-Distinct id s.vals p.distinct;
    entries = delete-entries id s.vals p.entries;
  }

  module _ (is_t : ℕ → Bool) where
    step-IsHeld :
        (ev : ClientEvent) (s : WatchState)
        → IsValueEvent ev
        → IsHeld s
        → IsHeld (watch_step cb is_t ev s)
    unfolding watch_step
    step-IsHeld (value_added v) s pos p = elim (Bool-cases (is_t v.attached_val)) [
      | inr other ↦ rw other p
      | inl typed ↦ elim (Bool-cases (s.curr_value_id == 0)) [
        | inl z ↦ rw (typed, z) (offer_value-IsHeld v s pos ((==_iff _ 0).0 z) p)
        | inr nz ↦ rw (typed, nz) (kept-IsHeld v s pos nz p)
      ]
    ]
    step-IsHeld (value_removed v) s pos p = elim (Bool-cases (is_t v.attached_val)) [
      | inr other ↦ rw other p
      | inl typed ↦ elim (Bool-cases (s.curr_value_id == v.attached_id)) [
        | inr miss ↦ rw (typed, miss) (removed-IsHeld v.attached_id s miss p)
        | inl hit ↦
            rw (typed, hit)
              (settle-IsHeld _ (
                offer_next-IsOffered _ _ refl refl (delete-Distinct v.attached_id s.vals p.distinct)
                  (delete-entries v.attached_id s.vals p.entries)))
      ]
    ]
    step-IsHeld instance_disposed s none_ p = absurd none_

    run-IsHeld :
        (evs : List ClientEvent) (s : WatchState)
        → All IsValueEvent evs
        → IsHeld s
        → IsHeld (run_events (watch_step cb is_t) evs s)
    unfolding run_events
    run-IsHeld [] s h p = p
    run-IsHeld (ev ∷ evs) s h p = run-IsHeld evs _ h.1 (step-IsHeld ev s h.0 p)

    disposed-shown :
        (s : WatchState) → IsHeld s → shown_id (watch_step cb is_t instance_disposed s).calls ≡ 0
    unfolding watch_step call_nil
    disposed-shown s p = elim (Bool-cases (s.curr_value_id == 0)) [
      | inl z ↦ rw z (p.shown ∙ (==_iff _ 0).0 z)
      | inr nz ↦ rw nz refl
    ]

    -- After any values were added and removed, with ids from 1, no id in use added again and
    -- each removed as it was added, and any answers of the callback: the map has only values of
    -- the type that were added and not removed since, and each such value, or the callback
    -- rejected one with its id; the current value is in the map and is the one that the callback
    -- took last, and if there is none, the map is empty and the callback was called with nil
    -- since, or never took one. Disposing of the directive then leaves the callback with nil.
    pub watch-IsHeld :
        (evs : List ClientEvent)
        → All IsValueEvent evs
        → IsFresh (λ _. none) evs
        → IsHeld (run_events (watch_step cb is_t) evs start)
          × IsLive is_t (live_after (λ _. none) evs) (run_events (watch_step cb is_t) evs start)
          × (shown_id
                (watch_step cb is_t instance_disposed
                  (run_events (watch_step cb is_t) evs start)).calls
              ≡ 0)
    unfolding start
    watch-IsHeld evs h fresh =
        let p = run-IsHeld evs start h (record {
          shown = refl;
          held = λ q. absurd (omega arith);
          left = λ _. refl;
          distinct = tt;
          entries = tt;
        }) in
        (
          p,
          run-IsLive is_t cb evs _ start fresh
              (record { present = tt; accounted = λ id val here. some_none (sym here) }),
          disposed-shown _ p,
        )
