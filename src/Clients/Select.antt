-- ===== src/Clients/Select.antt =====
-- ExecOneOffWatchSelectCb of bus/watch.go: the values of one type, in a list that is meant to be sorted
-- by id, of which a callback selects the one that is shown. The callbacks are not nil.
pub mod Shown
use controllerbus.Common.{
  ℕ, zero, suc, ◌+◌, ◌-◌, ◌%◌, ◌^◌, Bool, true, false, Option, none, some, List, [], ◌∷◌, ◌++◌,
  ◌==◌, leb, is_empty, if◌then◌else◌,
}
use mathlib.Core.List.{reverse}
use controllerbus.Instance.State.{AttachedValue}
use controllerbus.Clients.{ClientEvent, value_added, value_removed, instance_disposed}

-- `calls` has the calls of the callback, the last first.
pub record SelectState : Type 0 where
  pub sorted_vals : List AttachedValue
  pub curr_value_id : ℕ
  pub calls : List (Option AttachedValue)

unfoldable pub start : SelectState
start = record { sorted_vals = []; curr_value_id = 0; calls = [] }

-- Whether int(a.GetValueID() - b.GetValueID()) is negative: the difference is a uint32, and an int has
-- `int_size` bits.
unfoldable pub compares_less : ℕ → AttachedValue → AttachedValue → Bool
compares_less int_size a b =
    let difference = (a.attached_id + 2 ^ 32 - b.attached_id) % 2 ^ 32 in
    leb (2 ^ (int_size - 1)) (difference % 2 ^ int_size)

-- slices.SortFunc for up to twelve elements: an element moves to the front past those that it is less
-- than. The elements before it are in reverse.
unfoldable pub insert_back :
    (AttachedValue → AttachedValue → Bool) → AttachedValue → List AttachedValue → List AttachedValue
insert_back less v [] = v ∷ []
insert_back less v (w ∷ ws) = if less v w then w ∷ insert_back less v ws else v ∷ w ∷ ws

unfoldable pub insert_all :
    (AttachedValue → AttachedValue → Bool)
    → List AttachedValue
    → List AttachedValue
    → List AttachedValue
insert_all less [] ws = ws
insert_all less (v ∷ vs) ws = insert_all less vs (insert_back less v ws)

unfoldable pub sort_func :
    (AttachedValue → AttachedValue → Bool) → List AttachedValue → List AttachedValue
unfolding insert_back insert_all
sort_func less vs = reverse (insert_all less vs [])

-- slices.DeleteFunc
unfoldable pub delete_value_id : ℕ → List AttachedValue → List AttachedValue
delete_value_id vid [] = []
delete_value_id vid (v ∷ vs) =
    if v.attached_id == vid then delete_value_id vid vs else v ∷ delete_value_id vid vs

unfoldable pub value_at : ℕ → List AttachedValue → Option AttachedValue
value_at i [] = none
value_at zero (v ∷ vs) = some v
value_at (suc i) (v ∷ vs) = value_at i vs

-- An index that `select_value` gives, or none for a negative one; 0 where there is no callback.
unfoldable pub selected_index :
    Option (List AttachedValue → Option ℕ) → List AttachedValue → Option ℕ
selected_index none vals = some 0
selected_index (some select_value) vals = select_value vals

unfoldable pub selected_value :
    Option (List AttachedValue → Option ℕ) → List AttachedValue → Option AttachedValue
unfolding selected_index value_at
selected_value select_value vals =
    if is_empty vals
    then none
    else elim (selected_index select_value vals) [ none ↦ none | some i ↦ value_at i vals ]

unfoldable pub call_callback : Option AttachedValue → SelectState → SelectState
call_callback v s = record s { calls = v ∷ s.calls }

unfoldable pub show_selected : Option AttachedValue → SelectState → SelectState
unfolding call_callback
show_selected none s =
    if s.curr_value_id == 0 then s else call_callback none (record s { curr_value_id = 0 })
show_selected (some v) s =
    if v.attached_id == s.curr_value_id
    then s
    else call_callback (some v) (record s { curr_value_id = v.attached_id })

-- `is_t` tells whether a value has the type asked for; `sort` is what slices.SortFunc does.
module _ (is_t : ℕ → Bool) (sort : List AttachedValue → List AttachedValue)
    (select_value : Option (List AttachedValue → Option ℕ)) where
  unfoldable pub select_next_value : SelectState → SelectState
  select_next_value s = show_selected (selected_value select_value s.sorted_vals) s

  unfoldable pub select_step : ClientEvent → SelectState → SelectState
  unfolding select_next_value
  select_step (value_added v) s =
      if is_t v.attached_val
      then select_next_value (record s { sorted_vals = sort (s.sorted_vals ++ v ∷ []) })
      else s
  select_step (value_removed v) s =
      if is_t v.attached_val
      then select_next_value
          (record s { sorted_vals = delete_value_id v.attached_id s.sorted_vals })
      else s
  select_step instance_disposed s =
      let cleared = record s { sorted_vals = [] } in
      if s.curr_value_id == 0
      then cleared
      else call_callback none (record cleared { curr_value_id = 0 })
