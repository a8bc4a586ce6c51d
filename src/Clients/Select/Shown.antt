-- ===== src/Clients/Select/Shown.antt =====
-- ExecOneOffWatchSelectCb of bus/watch.go shows the value that is selected, and what its sort does.
use controllerbus.Common.{
  ℕ, Bool, true, false, Option, none, some, List, [], ◌∷◌, ◌++◌, ◌==◌, if◌then◌else◌, ◌≡◌, ◌≢◌,
  refl, sym, ap, subst, ◌∙◌, inl, inr, Bool-cases, arith,
}
use mathlib.Core.List.{Perm, reverse_aux, reverse-reverse}
use mathlib.Core.List.Perm
use controllerbus.Instance.State.{AttachedValue}
use controllerbus.Clients.{
  ClientEvent, value_added, value_removed, instance_disposed, run_events, run_events-keeps,
}
use controllerbus.Clients.Collect.Removal.{delete-perm}
use controllerbus.Clients.Select.{
  SelectState, start, select_step, select_next_value, show_selected, selected_value, call_callback,
  value_at, compares_less, sort_func, insert_back, insert_all, delete_value_id,
}

abbrev pub id_of : Option AttachedValue → ℕ
id_of none = 0
id_of (some v) = v.attached_id

-- The id that the last call showed, 0 for none.
abbrev pub shown_id : List (Option AttachedValue) → ℕ
shown_id [] = 0
shown_id (c ∷ calls) = id_of c

-- No call shows what the call before it did.
abbrev pub Changing : List (Option AttachedValue) → Type 0
Changing [] = Unit
Changing (c ∷ calls) = (id_of c ≢ shown_id calls) × Changing calls

pub record IsCurrent (s : SelectState) : Type 0 where
  pub current : shown_id s.calls ≡ s.curr_value_id
  pub changing : Changing s.calls

call_callback-IsCurrent :
    (v : Option AttachedValue) (s : SelectState)
    → IsCurrent s
    → (id_of v ≢ s.curr_value_id)
    → IsCurrent (call_callback v (record s { curr_value_id = id_of v }))
unfolding call_callback
call_callback-IsCurrent v s c new = record {
  current = refl;
  changing = ((λ same. new (same ∙ c.current)), c.changing);
}

false-true {ℓ} : {C : Type ℓ} → true ≡ false → C
false-true e = cc

not_same : (a b : ℕ) → (a == b) ≡ false → a ≢ b
not_same a b h = ground arith

same : (a b : ℕ) → (a == b) ≡ true → a ≡ b
same a b h = ground arith

-- Afterwards the current id is that of the value given, and the last call showed it.
abbrev Shows : Option AttachedValue → SelectState → Type 0
Shows v s = IsCurrent s × (s.curr_value_id ≡ id_of v)

show_selected-Shows :
    (v : Option AttachedValue) (s : SelectState) → IsCurrent s → Shows v (show_selected v s)
unfolding show_selected
show_selected-Shows none s c = elim (Bool-cases (s.curr_value_id == 0)) [
  | inl old ↦ rw old (c, same _ _ old)
  | inr new ↦ rw new (call_callback-IsCurrent none s c (λ e. not_same _ _ new (sym e)), refl)
]
show_selected-Shows (some v) s c = elim (Bool-cases (v.attached_id == s.curr_value_id)) [
  | inl old ↦ rw old (c, sym (same _ _ old))
  | inr new ↦ rw new (call_callback-IsCurrent (some v) s c (not_same _ _ new), refl)
]

show_selected-sorted_vals :
    (v : Option AttachedValue) (s : SelectState) → (show_selected v s).sorted_vals ≡ s.sorted_vals
unfolding show_selected call_callback
show_selected-sorted_vals none s = ground arith
show_selected-sorted_vals (some v) s = ground arith

with_vals-IsCurrent :
    (vals : List AttachedValue) (s : SelectState)
    → IsCurrent s
    → IsCurrent (record s { sorted_vals = vals })
with_vals-IsCurrent vals s c = record { current = c.current; changing = c.changing }

-- The values of the type that were added and not removed since, in the order in which they came.
abbrev pub arrived : (ℕ → Bool) → List AttachedValue → List ClientEvent → List AttachedValue
arrived is_t vals [] = vals
arrived is_t vals (value_added v ∷ evs) =
    arrived is_t (if is_t v.attached_val then vals ++ v ∷ [] else vals) evs
arrived is_t vals (value_removed v ∷ evs) =
    arrived is_t (if is_t v.attached_val then delete_value_id v.attached_id vals else vals) evs
arrived is_t vals (instance_disposed ∷ evs) = arrived is_t [] evs

module _ (select_value : Option (List AttachedValue → Option ℕ)) where
  -- The value selected of those that are held is the one that the last call showed.
  pub record IsShown (s : SelectState) : Type 0 where
    pub is_current : IsCurrent s
    pub selected : id_of (selected_value select_value s.sorted_vals) ≡ shown_id s.calls

  module _ (is_t : ℕ → Bool) (sort : List AttachedValue → List AttachedValue) where
    select_next_value-IsShown :
        (s : SelectState) → IsCurrent s → IsShown (select_next_value is_t sort select_value s)
    unfolding select_next_value
    select_next_value-IsShown s c =
        let v = selected_value select_value s.sorted_vals in
        let (c', e) = show_selected-Shows v s c in
        record {
          is_current = c';
          selected = rw (show_selected-sorted_vals v s) (sym (c'.current ∙ e));
        }

    step-IsShown :
        (ev : ClientEvent) (s : SelectState)
        → IsShown s
        → IsShown (select_step is_t sort select_value ev s)
    unfolding select_step selected_value call_callback
    step-IsShown (value_added v) s p = elim (Bool-cases (is_t v.attached_val)) [
      | inl typed ↦ rw typed (select_next_value-IsShown _ (with_vals-IsCurrent _ s p.is_current))
      | inr other ↦ rw other p
    ]
    step-IsShown (value_removed v) s p = elim (Bool-cases (is_t v.attached_val)) [
      | inl typed ↦ rw typed (select_next_value-IsShown _ (with_vals-IsCurrent _ s p.is_current))
      | inr other ↦ rw other p
    ]
    step-IsShown instance_disposed s p = elim (Bool-cases (s.curr_value_id == 0)) [
      | inl old ↦ rw old (record {
        is_current = with_vals-IsCurrent [] s p.is_current;
        selected = sym (p.is_current.current ∙ same _ _ old);
      })
      | inr new ↦ rw new (record {
        is_current =
            call_callback-IsCurrent none (record s { sorted_vals = [] })
              (with_vals-IsCurrent [] s p.is_current) (λ e. not_same _ _ new (sym e));
        selected = refl;
      })
    ]

    run-IsShown :
        (evs : List ClientEvent)
        → IsShown (run_events (select_step is_t sort select_value) evs start)
    unfolding start selected_value
    run-IsShown evs =
        run_events-keeps (select_step is_t sort select_value) IsShown step-IsShown evs start
          (record { is_current = record { current = refl; changing = tt }; selected = refl })

    module _ (sorts : (vals : List AttachedValue) → Perm (sort vals) vals) where
      step-perm :
          (ev : ClientEvent) (s : SelectState) (vals : List AttachedValue)
          → Perm s.sorted_vals vals
          → Perm (select_step is_t sort select_value ev s).sorted_vals (arrived is_t vals (ev ∷ []))
      unfolding select_step select_next_value call_callback
      step-perm (value_added v) s vals p = elim (Bool-cases (is_t v.attached_val)) [
        | inl typed ↦ rw typed (
            subst (λ (l : List AttachedValue). Perm l (vals ++ v ∷ []))
              (sym (
                show_selected-sorted_vals _
                  (record s { sorted_vals = sort (s.sorted_vals ++ v ∷ []) })))
              (Perm.trans (sorts (s.sorted_vals ++ v ∷ [])) (Perm.append_right (v ∷ []) p)))
        | inr other ↦ rw other p
      ]
      step-perm (value_removed v) s vals p = elim (Bool-cases (is_t v.attached_val)) [
        | inl typed ↦
            let id = v.attached_id in
            rw typed (
              subst (λ (l : List AttachedValue). Perm l (delete_value_id id vals))
                (sym (
                  show_selected-sorted_vals _
                    (record s { sorted_vals = delete_value_id id s.sorted_vals })))
                (delete-perm id s.sorted_vals vals p))
        | inr other ↦ rw other p
      ]
      step-perm instance_disposed s vals p = elim (Bool-cases (s.curr_value_id == 0)) [
        | inl old ↦ rw old Perm.nil
        | inr new ↦ rw new Perm.nil
      ]

      run-perm :
          (evs : List ClientEvent) (s : SelectState) (vals : List AttachedValue)
          → Perm s.sorted_vals vals
          → Perm
              (run_events (select_step is_t sort select_value) evs s).sorted_vals
              (arrived is_t vals evs)
      unfolding run_events
      run-perm [] s vals p = p
      run-perm (value_added v ∷ evs) s vals p =
          run-perm evs _ _ (step-perm (value_added v) s vals p)
      run-perm (value_removed v ∷ evs) s vals p =
          run-perm evs _ _ (step-perm (value_removed v) s vals p)
      run-perm (instance_disposed ∷ evs) s vals p =
          run-perm evs _ _ (step-perm instance_disposed s vals p)

      -- After any calls of the handler, however its list is sorted, as long as sorting leaves
      -- the same values: the list has, up to order, the values of the type that were added and
      -- not removed since, and none after the disposal until one is added; the id that the
      -- callback was last shown, 0 for none, is that of the value selected of the list, it is
      -- the current id, and no call showed the id that the call before it did.
      pub select-IsShown :
          (evs : List ClientEvent)
          → IsShown (run_events (select_step is_t sort select_value) evs start)
            × Perm
                (run_events (select_step is_t sort select_value) evs start).sorted_vals
                (arrived is_t [] evs)
      unfolding start
      select-IsShown evs = (run-IsShown evs, run-perm evs start [] Perm.nil)

-- On a machine with ints of 64 bits no value compares as less than another.
compares_less-false : (a b : AttachedValue) → compares_less 64 a b ≡ false
unfolding compares_less
compares_less-false a b = ground arith

insert_back-first :
    (v : AttachedValue) (ws : List AttachedValue) → insert_back (compares_less 64) v ws ≡ v ∷ ws
unfolding insert_back
insert_back-first v [] = refl
insert_back-first v (w ∷ ws) = rw (compares_less-false v w) refl

insert_all-reverse :
    (vs ws : List AttachedValue) → insert_all (compares_less 64) vs ws ≡ reverse_aux vs ws
unfolding insert_all
insert_all-reverse [] ws = refl
insert_all-reverse (v ∷ vs) ws = rw (insert_back-first v ws) (insert_all-reverse vs (v ∷ ws))

sort_func-same : (vs : List AttachedValue) → sort_func (compares_less 64) vs ≡ vs
unfolding sort_func
sort_func-same vs = rw (insert_all-reverse vs []) (reverse-reverse vs)

pub sort_func-perm : (vs : List AttachedValue) → Perm (sort_func (compares_less 64) vs) vs
sort_func-perm vs =
    subst (λ (l : List AttachedValue). Perm l vs) (sym (sort_func-same vs)) (Perm.refl vs)

module _ (is_t : ℕ → Bool) (select_value : Option (List AttachedValue → Option ℕ)) where
  show_selected-vals :
      (v : Option AttachedValue) (s : SelectState) (vals : List AttachedValue)
      → (show_selected v (record s { sorted_vals = vals })).sorted_vals ≡ vals
  show_selected-vals v s vals = show_selected-sorted_vals v (record s { sorted_vals = vals })

  step-arrived :
      (ev : ClientEvent) (s : SelectState)
      → (select_step is_t (sort_func (compares_less 64)) select_value ev s).sorted_vals
        ≡ arrived is_t s.sorted_vals (ev ∷ [])
  unfolding select_step select_next_value call_callback
  step-arrived (value_added v) s = elim (Bool-cases (is_t v.attached_val)) [
    | inl typed ↦ rw typed (show_selected-vals _ s _ ∙ sort_func-same _)
    | inr other ↦ rw other refl
  ]
  step-arrived (value_removed v) s = elim (Bool-cases (is_t v.attached_val)) [
    | inl typed ↦ rw typed (show_selected-vals _ s _)
    | inr other ↦ rw other refl
  ]
  step-arrived instance_disposed s = ground arith

  arrived-cons :
      (ev : ClientEvent) (evs : List ClientEvent) (vals : List AttachedValue)
      → arrived is_t (arrived is_t vals (ev ∷ [])) evs ≡ arrived is_t vals (ev ∷ evs)
  arrived-cons (value_added v) evs vals = refl
  arrived-cons (value_removed v) evs vals = refl
  arrived-cons instance_disposed evs vals = refl

  run-arrived :
      (evs : List ClientEvent) (s : SelectState)
      → (run_events
          (select_step is_t (sort_func (compares_less 64)) select_value)
          evs
          s).sorted_vals
        ≡ arrived is_t s.sorted_vals evs
  unfolding run_events
  run-arrived [] s = refl
  run-arrived (ev ∷ evs) s =
      run-arrived evs _
      ∙ ap (λ (l : List AttachedValue). arrived is_t l evs) (step-arrived ev s)
      ∙ arrived-cons ev evs s.sorted_vals

selected-first : (vals : List AttachedValue) → selected_value none vals ≡ value_at 0 vals
unfolding selected_value value_at
selected-first [] = refl
selected-first (v ∷ vs) = refl

-- Where an int has 64 bits, slices.SortFunc sorts by insertion, as it does up to twelve
-- elements, and there is no callback to select a value, the id shown after any calls of the
-- handler is that of the value that came first of those that are held, whatever the ids.
pub select-arrived :
    (is_t : ℕ → Bool) (evs : List ClientEvent)
    → shown_id (run_events (select_step is_t (sort_func (compares_less 64)) none) evs start).calls
      ≡ id_of (value_at 0 (arrived is_t [] evs))
unfolding start
select-arrived is_t evs =
    sym (run-IsShown none is_t (sort_func (compares_less 64)) evs).selected
    ∙ ap id_of (selected-first _ ∙ ap (value_at 0) (run-arrived is_t none evs start))
