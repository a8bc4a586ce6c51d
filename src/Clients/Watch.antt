-- ===== src/Clients/Watch.antt =====
-- ExecOneOffWatchCb and ExecWatchEffect of bus/watch.go. The maps of the Go functions are lists of
-- entries; a loop over a map takes them in the order of the list. The callbacks are not nil.
pub mod Present
pub mod Live
pub mod Held
pub mod Effects
use controllerbus.Common.{
  ℕ, Bool, true, false, Option, none, some, List, [], ◌∷◌, ◌==◌, not, ◌&&◌, if◌then◌else◌, lookup,
  insert, delete,
}
use controllerbus.Instance.State.{AttachedValue}
use controllerbus.Clients.{ClientEvent, value_added, value_removed, instance_disposed}

-- A call of the callback, with nil or a value, and whether the value was accepted.
pub record WatchCall : Type 0 where
  pub called_with : Option AttachedValue
  pub accepted : Bool

pub record WatchState : Type 0 where
  pub curr_value_id : ℕ
  pub vals : List (ℕ × AttachedValue)
  pub calls : List WatchCall

unfoldable pub start : WatchState
start = record { curr_value_id = 0; vals = []; calls = [] }

-- The answer of the callback may depend on its earlier calls.
abbrev pub WatchCallback : Type 0
WatchCallback = List WatchCall → Option AttachedValue → Bool

module _ (cb : WatchCallback) where
  -- cb(nil), whose answer is not used.
  unfoldable pub call_nil : WatchState → WatchState
  call_nil s = record s {
    calls = record { called_with = none; accepted = cb s.calls none } ∷ s.calls;
  }

  -- The value becomes the current one, unless the callback rejects it.
  unfoldable pub offer_value : AttachedValue → WatchState → WatchState
  offer_value v s =
      let ok = cb s.calls (some v) in
      let calls = record { called_with = some v; accepted = ok } ∷ s.calls in
      if ok
      then record s { curr_value_id = v.attached_id; calls = calls }
      else record { curr_value_id = 0; vals = delete v.attached_id s.vals; calls = calls }

  -- The values in turn, up to the first that is accepted.
  unfoldable pub offer_next : List (ℕ × AttachedValue) → WatchState → WatchState
  unfolding offer_value
  offer_next [] s = s
  offer_next ((val_id, v) ∷ entries) s =
      let ok = cb s.calls (some v) in
      let calls = record { called_with = some v; accepted = ok } ∷ s.calls in
      let rest =
        offer_next entries
          (record { curr_value_id = 0; vals = delete val_id s.vals; calls = calls }) in
      if ok then record s { curr_value_id = val_id; calls = calls } else rest

  unfoldable pub watch_step : (ℕ → Bool) → ClientEvent → WatchState → WatchState
  unfolding call_nil offer_value offer_next
  watch_step is_t (value_added v) s =
      if is_t v.attached_val
      then (let held = record s { vals = insert v.attached_id v s.vals } in
          if s.curr_value_id == 0 then offer_value v held else held)
      else s
  watch_step is_t (value_removed v) s =
      if is_t v.attached_val
      then (let left = record s { vals = delete v.attached_id s.vals } in
          if s.curr_value_id == v.attached_id
          then (let next = offer_next left.vals (record left { curr_value_id = 0 }) in
              if next.curr_value_id == 0 then call_nil next else next)
          else left)
      else s
  watch_step is_t instance_disposed s =
      if s.curr_value_id == 0 then s else call_nil (record s { curr_value_id = 0 })

-- ExecWatchEffect: `rels` is the map valRels. `handed_out` has the functions that the callback has
-- returned and `released` those that were called, both with the last first.
pub record EffectState : Type 0 where
  pub rels : List (ℕ × ℕ)
  pub handed_out : List ℕ
  pub released : List ℕ

unfoldable pub no_effects : EffectState
no_effects = record { rels = []; handed_out = []; released = [] }

-- The function that the callback returns for a value, if it is not nil.
unfoldable pub keep_rel : ℕ → Option ℕ → EffectState → EffectState
keep_rel vid none s = s
keep_rel vid (some rel) s = record s {
  rels = insert vid rel s.rels;
  handed_out = rel ∷ s.handed_out;
}

unfoldable pub release_all : List (ℕ × ℕ) → EffectState → EffectState
release_all [] s = s
release_all ((vid, rel) ∷ entries) s =
    release_all entries (record s { released = rel ∷ s.released; rels = delete vid s.rels })

unfoldable pub effect_step :
    (ℕ → Bool) → (EffectState → AttachedValue → Option ℕ) → ClientEvent → EffectState → EffectState
unfolding keep_rel release_all
effect_step is_t cb (value_added v) s =
    if is_t v.attached_val then keep_rel v.attached_id (cb s v) s else s
effect_step is_t cb (value_removed v) s =
    if is_t v.attached_val
    then elim (lookup v.attached_id s.rels) [
      | none ↦ s
      | some rel ↦ record s { rels = delete v.attached_id s.rels; released = rel ∷ s.released }
    ]
    else s
effect_step is_t cb instance_disposed s = release_all s.rels s
