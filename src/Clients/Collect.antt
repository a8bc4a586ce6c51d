-- ===== src/Clients/Collect.antt =====
-- ExecCollectValuesWithFilter of bus/multi.go: the values of one type, collected until the directive is
-- idle. The slices of values and of their ids are kept side by side.
pub mod Removal
pub mod Holds
pub mod Collected
use controllerbus.Common.{
  ℕ, zero, suc, Bool, true, false, not, ◌&&◌, ◌||◌, Option, none, some, List, [], ◌∷◌, ◌++◌, ◌==◌,
  is_some, is_empty, if◌then◌else◌, last_first,
}
use mathlib.Core.Option
use controllerbus.Instance.State.{AttachedValue}
use controllerbus.Clients.{ClientEvent, value_added, value_removed, instance_disposed}
use controllerbus.Clients.OneOff.{first_error, err_directive_disposed, err_canceled}

pub record CollectState : Type 0 where
  pub vals : List ℕ
  pub val_ids : List ℕ
  pub res_err : Option ℕ
  pub idle : Bool
  pub returned : Bool
  pub disposed : Bool
  pub dispose_calls : ℕ

unfoldable pub start : CollectState
start = record {
  vals = [];
  val_ids = [];
  res_err = none;
  idle = false;
  returned = false;
  disposed = false;
  dispose_calls = 0;
}

-- A filter says whether it takes a value, or gives an error; one that is nil takes every value.
unfoldable pub filter_value : Option (ℕ → Bool × Option ℕ) → ℕ → Bool × Option ℕ
filter_value none val = (true, none)
filter_value (some filter_cb) val = filter_cb val

unfoldable pub index_of : ℕ → List ℕ → Option ℕ
index_of id [] = none
index_of id (k ∷ ks) = if k == id then some 0 else Option.map suc (index_of id ks)

-- The last element takes the place of the one at the index.
unfoldable pub swap_remove_at {ℓ} : {A : Type ℓ} → ℕ → List A → List A
swap_remove_at i [] = []
swap_remove_at zero (x ∷ xs) = last_first xs
swap_remove_at (suc i) (x ∷ xs) = x ∷ swap_remove_at i xs

-- `valDisposeCallback`: only its first call calls `valDisposeCb`.
unfoldable pub dispose_values : CollectState → CollectState
dispose_values s =
    if s.disposed then s else record s { disposed = true; dispose_calls = suc s.dispose_calls }

unfoldable pub fail_collect : ℕ → CollectState → CollectState
fail_collect err s =
    if not s.returned && not (is_some s.res_err) then record s { res_err = some err } else s

unfoldable pub collect_value : AttachedValue → Bool × Option ℕ → CollectState → CollectState
unfolding fail_collect
collect_value v (ok, some err) s = fail_collect err s
collect_value v (true, none) s = if s.returned then s else record s {
  vals = s.vals ++ v.attached_val ∷ [];
  val_ids = s.val_ids ++ v.attached_id ∷ [];
}
collect_value v (false, none) s = s

unfoldable pub remove_collected : Option ℕ → CollectState → CollectState
unfolding dispose_values swap_remove_at
remove_collected none s = s
remove_collected (some i) s =
    if s.returned
    then dispose_values s
    else record s { val_ids = swap_remove_at i s.val_ids; vals = swap_remove_at i s.vals }

module _ (is_t : ℕ → Bool) (filter_cb : Option (ℕ → Bool × Option ℕ)) where
  unfoldable pub collect_step : ClientEvent → CollectState → CollectState
  unfolding filter_value collect_value remove_collected index_of dispose_values
  collect_step (value_added v) s =
      if is_t v.attached_val then collect_value v (filter_value filter_cb v.attached_val) s else s
  collect_step (value_removed v) s =
      if is_t v.attached_val then remove_collected (index_of v.attached_id s.val_ids) s else s
  collect_step instance_disposed s =
      if s.returned
      then dispose_values s
      else if is_some s.res_err
      then s
      else record s { res_err = some err_directive_disposed }

unfoldable pub collect_idle : Bool → List (Option ℕ) → CollectState → CollectState
collect_idle is_idle errs s = record s { idle = is_idle; res_err = first_error errs }

pub data CollectResult : Type 0 where
  collected : List ℕ → CollectResult
  failed : List ℕ → ℕ → CollectResult

-- A look of the loop: what it returns, if it does, and the state that it leaves.
unfoldable pub collect_look : Bool → CollectState → Option CollectResult × CollectState
collect_look wait_one s = elim s.res_err [
  | some err ↦ (some (failed s.vals err), record s { returned = true })
  | none ↦
      if s.idle && (not wait_one || not (is_empty s.vals))
      then (some (collected s.vals), record s { returned = true })
      else (none, record s { returned = false })
]

pub data CollectEvent : Type 0 where
  handler_called : ClientEvent → CollectEvent
  idle_called : Bool → List (Option ℕ) → CollectEvent
  looks : CollectEvent
  ctx_done : CollectEvent

module _ (is_t : ℕ → Bool) (filter_cb : Option (ℕ → Bool × Option ℕ)) (wait_one : Bool) where
  unfoldable pub exec_collect_values : List CollectEvent → CollectState → Option CollectResult
  exec_collect_values [] s = none
  exec_collect_values (handler_called ev ∷ evs) s =
      exec_collect_values evs (collect_step is_t filter_cb ev s)
  exec_collect_values (idle_called is_idle errs ∷ evs) s =
      exec_collect_values evs (collect_idle is_idle errs s)
  exec_collect_values (ctx_done ∷ evs) s = some (failed [] err_canceled)
  exec_collect_values (looks ∷ evs) s =
      let (result, s') = collect_look wait_one s in
      elim result [ some r ↦ some r | none ↦ exec_collect_values evs s' ]
