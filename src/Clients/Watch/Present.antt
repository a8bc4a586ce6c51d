-- ===== src/Clients/Watch/Present.antt =====
-- ExecOneOffWatchCb of bus/watch.go: the map of values against the values that are present by the
-- events, those that were added and not removed since.
use controllerbus.Common.{
  ℕ, Bool, true, false, Option, none, some, List, [], ◌∷◌, ◌==◌, if◌then◌else◌, ◌≡◌, refl, ap, ◌∙◌,
  inl, inr, ◌⊎◌, Bool-cases, ==_iff, arith, All, is_some, lookup, insert, delete,
  lookup-delete_other,
}
use controllerbus.Instance.State.{AttachedValue}
use controllerbus.Clients.{
  ClientEvent, value_added, value_removed, instance_disposed, mark, mark-other,
}
use controllerbus.Clients.Watch.{
  WatchCall, WatchState, WatchCallback, call_nil, offer_value, offer_next,
}

-- The values that are present after the events, by their ids.
abbrev pub live_after : (ℕ → Option ℕ) → List ClientEvent → ℕ → Option ℕ
live_after live [] = live
live_after live (value_added v ∷ evs) =
    live_after (mark live v.attached_id (some v.attached_val)) evs
live_after live (value_removed v ∷ evs) = live_after (mark live v.attached_id none) evs
live_after live (instance_disposed ∷ evs) = live_after live evs

abbrev refusal : ℕ → Option AttachedValue → Bool → Bool
refusal id none ok = false
refusal id (some v) true = false
refusal id (some v) false = v.attached_id == id

-- Whether the callback rejected a value with the id.
abbrev pub refused : ℕ → List WatchCall → Bool
refused id [] = false
refused id (c ∷ calls) = if refusal id c.called_with c.accepted then true else refused id calls

refused-later :
    (id : ℕ) (c : WatchCall) (calls : List WatchCall)
    → refused id calls ≡ true
    → refused id (c ∷ calls) ≡ true
refused-later id c calls h = elim (Bool-cases (refusal id c.called_with c.accepted)) [
  | inl hit ↦ rw hit refl
  | inr miss ↦ rw miss h
]

pub true_false {ℓ} : {C : Type ℓ} → true ≡ false → C
true_false e = cc

-- An entry of the map: its key is the value's id, and the value is present and of the type.
abbrev pub IsPresent : (ℕ → Bool) → (ℕ → Option ℕ) → ℕ × AttachedValue → Type 0
IsPresent is_t live e =
    (e.1.attached_id ≡ e.0) × (live e.0 ≡ some e.1.attached_val) × (is_t e.1.attached_val ≡ true)

-- The id is in the map, or the callback rejected its value.
abbrev pub IsAccounted : ℕ → WatchState → Type 0
IsAccounted id s = (is_some (lookup id s.vals) ≡ true) ⊎ (refused id s.calls ≡ true)

-- The map has present values only, and each one of the type that the callback did not reject.
pub record IsLive (is_t : ℕ → Bool) (live : ℕ → Option ℕ) (s : WatchState) : Type 0 where
  pub present : All (IsPresent is_t live) s.vals
  pub accounted : (id val : ℕ) → live id ≡ some val → is_t val ≡ true → IsAccounted id s

module _ (is_t : ℕ → Bool) where
  moved-IsPresent :
      (live : ℕ → Option ℕ) (id : ℕ) (o : Option ℕ) (e : ℕ × AttachedValue)
      → (id == e.0) ≡ false
      → IsPresent is_t live e
      → IsPresent is_t (mark live id o) e
  moved-IsPresent live id o e miss (own, here, typed) =
      (own, mark-other live id e.0 o miss ∙ here, typed)

  pub deleted-IsPresent :
      (live : ℕ → Option ℕ) (id : ℕ) (m : List (ℕ × AttachedValue))
      → All (IsPresent is_t live) m
      → All (IsPresent is_t (mark live id none)) (delete id m)
  unfolding delete
  deleted-IsPresent live id [] h = tt
  deleted-IsPresent live id ((j, v) ∷ m) h = elim (Bool-cases (j == id)) [
    | inl hit ↦ rw hit (deleted-IsPresent live id m h.1)
    | inr miss ↦
        rw miss
          (moved-IsPresent live id none (j, v) (ground arith) h.0, deleted-IsPresent live id m h.1)
  ]

  delete-IsPresent :
      (live : ℕ → Option ℕ) (id : ℕ) (m : List (ℕ × AttachedValue))
      → All (IsPresent is_t live) m
      → All (IsPresent is_t live) (delete id m)
  unfolding delete
  delete-IsPresent live id [] h = tt
  delete-IsPresent live id ((j, v) ∷ m) h = elim (Bool-cases (j == id)) [
    | inl hit ↦ rw hit (delete-IsPresent live id m h.1)
    | inr miss ↦ rw miss (h.0, delete-IsPresent live id m h.1)
  ]

  -- The entries are of other ids than one of which no value of the type is present.
  pub others-IsPresent :
      (live : ℕ → Option ℕ) (id : ℕ) (o : Option ℕ) (m : List (ℕ × AttachedValue))
      → ((val : ℕ) → live id ≡ some val → is_t val ≡ true → ⊥)
      → All (IsPresent is_t live) m
      → All (IsPresent is_t (mark live id o)) m
  others-IsPresent live id o [] out h = tt
  others-IsPresent live id o ((j, v) ∷ m) out h = elim (Bool-cases (id == j)) [
    | inl hit ↦ absurd (out v.attached_val (ap live ((==_iff id j).0 hit) ∙ h.0.1) h.0.2)
    | inr miss ↦ (moved-IsPresent live id o (j, v) miss h.0, others-IsPresent live id o m out h.1)
  ]

  pub insert-IsPresent :
      (live : ℕ → Option ℕ) (v : AttachedValue) (m : List (ℕ × AttachedValue))
      → live v.attached_id ≡ some v.attached_val
      → is_t v.attached_val ≡ true
      → All (IsPresent is_t live) m
      → All (IsPresent is_t live) (insert v.attached_id v m)
  unfolding insert
  insert-IsPresent live v [] here typed h = ((refl, here, typed), tt)
  insert-IsPresent live v ((j, w) ∷ m) here typed h = elim (Bool-cases (j == v.attached_id)) [
    | inl hit ↦ rw hit ((refl, here, typed), h.1)
    | inr miss ↦ rw miss (h.0, insert-IsPresent live v m here typed h.1)
  ]

  -- A value that is deleted since the callback rejects it stays accounted for, as do the others.
  rejected-IsAccounted :
      (id k : ℕ) (v : AttachedValue) (curr curr' : ℕ) (vals : List (ℕ × AttachedValue))
      → (calls : List WatchCall) → v.attached_id ≡ k
      → IsAccounted id (record { curr_value_id = curr; vals = vals; calls = calls })
      → IsAccounted id (record {
        curr_value_id = curr';
        vals = delete k vals;
        calls = record { called_with = some v; accepted = false } ∷ calls;
      })
  rejected-IsAccounted id k v curr curr' vals calls own (inr bad) =
      inr (refused-later id (record { called_with = some v; accepted = false }) calls bad)
  rejected-IsAccounted id k v curr curr' vals calls own (inl kept) = elim (Bool-cases (k == id)) [
    | inl hit ↦ inr (rw (own, hit) refl)
    | inr miss ↦ inl (rw (lookup-delete_other id k vals miss) kept)
  ]

  module _ (cb : WatchCallback) (live : ℕ → Option ℕ) where
    pub offer_next-IsPresent :
        (m : List (ℕ × AttachedValue)) (s : WatchState)
        → All (IsPresent is_t live) s.vals
        → All (IsPresent is_t live) (offer_next cb m s).vals
    unfolding offer_next
    offer_next-IsPresent [] s h = h
    offer_next-IsPresent ((k, v) ∷ m) s h = elim (Bool-cases (cb s.calls (some v))) [
      | inl ok ↦ rw ok h
      | inr not_ok ↦ rw not_ok (offer_next-IsPresent m _ (delete-IsPresent live k s.vals h))
    ]

    pub offer_next-IsAccounted :
        (id : ℕ) (m : List (ℕ × AttachedValue)) (s : WatchState)
        → All (IsPresent is_t live) m
        → IsAccounted id s
        → IsAccounted id (offer_next cb m s)
    unfolding offer_next
    offer_next-IsAccounted id [] s h a = a
    offer_next-IsAccounted id ((k, v) ∷ m) s h a = elim (Bool-cases (cb s.calls (some v))) [
      | inl ok ↦ rw ok (elim a [
        | inl kept ↦ inl kept
        | inr bad ↦
            inr (refused-later id (record { called_with = some v; accepted = true }) s.calls bad)
      ])
      | inr not_ok ↦ rw not_ok (
          offer_next-IsAccounted id m _ h.1
            (rejected-IsAccounted id k v s.curr_value_id 0 s.vals s.calls h.0.0 a))
    ]

    pub offer_value-IsLive :
        (v : AttachedValue) (s : WatchState)
        → IsLive is_t live s
        → IsLive is_t live (offer_value cb v s)
    unfolding offer_value
    offer_value-IsLive v s p = elim (Bool-cases (cb s.calls (some v))) [
      | inl ok ↦ rw ok (record {
        present = p.present;
        accounted = λ id val here typed. elim (p.accounted id val here typed) [
          | inl kept ↦ inl kept
          | inr bad ↦
              inr (refused-later id (record { called_with = some v; accepted = true }) s.calls bad)
        ];
      })
      | inr not_ok ↦ rw not_ok (record {
        present = delete-IsPresent live v.attached_id s.vals p.present;
        accounted = λ id val here typed.
            rejected-IsAccounted id v.attached_id v s.curr_value_id 0 s.vals s.calls refl
              (p.accounted id val here typed);
      })
    ]

    pub settle-IsLive :
        (s : WatchState)
        → IsLive is_t live s
        → IsLive is_t live (if s.curr_value_id == 0 then call_nil cb s else s)
    unfolding call_nil
    settle-IsLive s p = elim (Bool-cases (s.curr_value_id == 0)) [
      | inl gone ↦ rw gone (record {
        present = p.present;
        accounted = λ id val here typed. elim (p.accounted id val here typed) [
          | inl kept ↦ inl kept
          | inr bad ↦ inr (
              refused-later id (record { called_with = none; accepted = cb s.calls none }) s.calls
                bad)
        ];
      })
      | inr taken ↦ rw taken p
    ]
