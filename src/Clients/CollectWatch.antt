-- ===== src/Clients/CollectWatch.antt =====
-- ExecCollectValuesWatchWithFilter of bus/multi.go: the callback is given the values and the errors of
-- the resolvers when they change. Errors are compared by their texts, which are numbers.
pub mod Held
pub mod Emitting
pub mod Watched
use controllerbus.Common.{
  ℕ, Bool, true, false, not, ◌&&◌, ◌||◌, Option, none, some, List, [], ◌∷◌, ◌++◌, ◌==◌, is_empty,
  if◌then◌else◌,
}
use controllerbus.Instance.State.{AttachedValue}
use controllerbus.Clients.{ClientEvent, value_added, value_removed, instance_disposed}
use controllerbus.Clients.OneOff.{err_directive_disposed}
use controllerbus.Clients.Collect.{filter_value, index_of, swap_remove_at}

-- What the callback is called with.
pub record Emission : Type 0 where
  pub emitted_errs : List (Option ℕ)
  pub emitted_vals : List ℕ

-- `emissions` has the calls of the callback, the last first; `stopped`: the goroutine has returned.
pub record WatchState : Type 0 where
  pub vals : List ℕ
  pub val_ids : List ℕ
  pub res_err : List (Option ℕ)
  pub idle : Bool
  pub emitted_once : Bool
  pub pending_emit : Bool
  pub emissions : List Emission
  pub stopped : Bool

unfoldable pub start : WatchState
start = record {
  vals = [];
  val_ids = [];
  res_err = [];
  idle = false;
  emitted_once = false;
  pending_emit = false;
  emissions = [];
  stopped = false;
}

unfoldable pub error_equal : Option ℕ → Option ℕ → Bool
error_equal none none = true
error_equal none (some b) = false
error_equal (some a) none = false
error_equal (some a) (some b) = a == b

unfoldable pub errors_equal : List (Option ℕ) → List (Option ℕ) → Bool
unfolding error_equal
errors_equal [] [] = true
errors_equal [] (b ∷ bs) = false
errors_equal (a ∷ as_) [] = false
errors_equal (a ∷ as_) (b ∷ bs) =
    let rest = errors_equal as_ bs in if error_equal a b then rest else false

unfoldable pub emit_now : WatchState → WatchState
emit_now s = record s { pending_emit = true }

unfoldable pub schedule_emit_if_ready : Bool → WatchState → WatchState
unfolding emit_now
schedule_emit_if_ready wait_idle s = if not wait_idle || s.emitted_once then emit_now s else s

-- An error of the filter, or the disposal.
unfoldable pub fail_watch : ℕ → WatchState → WatchState
unfolding emit_now
fail_watch err s = if is_empty s.res_err then emit_now (record s { res_err = some err ∷ [] }) else s

module _ (wait_idle : Bool) where
  unfoldable pub watch_value : AttachedValue → Bool × Option ℕ → WatchState → WatchState
  unfolding fail_watch schedule_emit_if_ready
  watch_value v (ok, some err) s = fail_watch err s
  watch_value v (true, none) s =
      schedule_emit_if_ready wait_idle (record s {
        vals = s.vals ++ v.attached_val ∷ [];
        val_ids = s.val_ids ++ v.attached_id ∷ [];
      })
  watch_value v (false, none) s = s

  unfoldable pub unwatch_value : Option ℕ → WatchState → WatchState
  unfolding schedule_emit_if_ready
  unwatch_value none s = s
  unwatch_value (some i) s =
      schedule_emit_if_ready wait_idle
        (record s { val_ids = swap_remove_at i s.val_ids; vals = swap_remove_at i s.vals })

  unfoldable pub watch_step :
      (ℕ → Bool) → Option (ℕ → Bool × Option ℕ) → ClientEvent → WatchState → WatchState
  unfolding watch_value unwatch_value fail_watch
  watch_step is_t filter_cb (value_added v) s =
      if is_t v.attached_val then watch_value v (filter_value filter_cb v.attached_val) s else s
  watch_step is_t filter_cb (value_removed v) s =
      if is_t v.attached_val then unwatch_value (index_of v.attached_id s.val_ids) s else s
  watch_step is_t filter_cb instance_disposed s = fail_watch err_directive_disposed s

unfoldable pub watch_idle : Bool → List (Option ℕ) → WatchState → WatchState
unfolding emit_now errors_equal
watch_idle is_idle errs s =
    if errors_equal s.res_err errs
    then (if not s.idle && is_idle && not s.emitted_once
        then emit_now (record s { idle = is_idle })
        else record s { idle = is_idle })
    else emit_now (record s { idle = is_idle; res_err = errs })

-- The snapshot that is emitted: no values beside errors.
unfoldable pub snapshot : WatchState → Emission
snapshot s = record {
  emitted_errs = s.res_err;
  emitted_vals = if is_empty s.res_err then s.vals else [];
}

-- One round of the goroutine. `callback` tells whether it returns an error.
unfoldable pub watch_look : (List Emission → Emission → Bool) → WatchState → WatchState
unfolding snapshot
watch_look callback s =
    if s.stopped
    then s
    else if s.pending_emit
    then record s {
      pending_emit = false;
      emitted_once = true;
      emissions = snapshot s ∷ s.emissions;
      stopped = callback s.emissions (snapshot s);
    }
    else s

-- The goroutine ends with its context.
unfoldable pub watch_done : WatchState → WatchState
watch_done s = record s { stopped = true }

pub data WatchEvent : Type 0 where
  handler_called : ClientEvent → WatchEvent
  idle_called : Bool → List (Option ℕ) → WatchEvent
  looks : WatchEvent
  ctx_done : WatchEvent

unfoldable pub watch_event :
    (ℕ → Bool)
    → Option (ℕ → Bool × Option ℕ)
    → Bool
    → (List Emission → Emission → Bool)
    → WatchEvent
    → WatchState
    → WatchState
watch_event is_t filter_cb wait_idle callback (handler_called ev) s =
    watch_step wait_idle is_t filter_cb ev s
watch_event is_t filter_cb wait_idle callback (idle_called is_idle errs) s =
    watch_idle is_idle errs s
watch_event is_t filter_cb wait_idle callback looks s = watch_look callback s
watch_event is_t filter_cb wait_idle callback ctx_done s = watch_done s
