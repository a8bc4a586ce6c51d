-- ===== src/Clients/OneOff.antt =====
-- ExecOneOffWithFilter of bus/oneoff.go with its idle callbacks. An error is a number, and an entry of
-- a list of errors may be nil.
pub mod First
use controllerbus.Common.{
  ℕ, suc, Bool, true, false, not, ◌&&◌, ◌||◌, Option, none, some, List, [], ◌∷◌, ◌==◌, is_some,
  if◌then◌else◌,
}
use controllerbus.Instance.State.{AttachedValue}
use controllerbus.Clients.{ClientEvent, value_added, value_removed, instance_disposed}

-- Given whether the directive is idle and the errors of the resolvers: whether to wait, and an error.
abbrev pub ExecIdleCallback : Type 0
ExecIdleCallback = Bool → List (Option ℕ) → Bool × Option ℕ

unfoldable pub first_error : List (Option ℕ) → Option ℕ
first_error [] = none
first_error (none ∷ errs) = first_error errs
first_error (some err ∷ errs) = some err

unfoldable pub wait_when_idle : Bool → ExecIdleCallback
wait_when_idle true is_idle errs = (true, none)
wait_when_idle false is_idle errs = elim (first_error errs) [
  | none ↦ (true, none)
  | some err ↦ (false, some err)
]

unfoldable pub return_when_idle : ExecIdleCallback
return_when_idle false errs = (true, none)
return_when_idle true errs = (false, first_error errs)

unfoldable pub return_if_idle : Bool → ExecIdleCallback
return_if_idle true = return_when_idle
return_if_idle false = wait_when_idle false

-- What a callback that is nil stands for.
unfoldable pub idle_callback : Option ExecIdleCallback → ExecIdleCallback
idle_callback none = wait_when_idle false
idle_callback (some cb) = cb

-- directive.ErrDirectiveDisposed and context.Canceled
abbrev pub err_directive_disposed : ℕ
err_directive_disposed = 1

abbrev pub err_canceled : ℕ
err_canceled = 2

pub record OneOffState : Type 0 where
  pub val : Option AttachedValue
  pub res_err : Option ℕ
  pub idle : Bool
  pub wait : Bool
  pub dispose_calls : ℕ

unfoldable pub start : OneOffState
start = record { val = none; res_err = none; idle = false; wait = false; dispose_calls = 0 }

-- A filter says whether it takes a value, or gives an error.
abbrev pub FilterCallback : Type 0
FilterCallback = AttachedValue → Bool × Option ℕ

unfoldable pub apply_filter : Option FilterCallback → FilterCallback
apply_filter none v = (true, none)
apply_filter (some filter_cb) v = filter_cb v

unfoldable pub take_value : AttachedValue → Bool × Option ℕ → OneOffState → OneOffState
take_value v (ok, some err) s = record s { res_err = some err }
take_value v (true, none) s = record s { val = some v }
take_value v (false, none) s = s

-- `has_dispose`: the callback for a value that is disposed of is not nil.
unfoldable pub call_dispose : Bool → OneOffState → OneOffState
call_dispose true s = record s { dispose_calls = suc s.dispose_calls }
call_dispose false s = s

unfoldable pub is_selected : AttachedValue → Option AttachedValue → Bool
is_selected v none = false
is_selected v (some w) = w.attached_id == v.attached_id

module _ (filter_cb : Option FilterCallback) (has_dispose : Bool) where
  unfoldable pub one_off_step : ClientEvent → OneOffState → OneOffState
  unfolding apply_filter take_value call_dispose is_selected
  one_off_step (value_added v) s =
      if not (is_some s.val) && not (is_some s.res_err)
      then take_value v (apply_filter filter_cb v) s
      else s
  one_off_step (value_removed v) s = call_dispose (has_dispose && is_selected v s.val) s
  one_off_step instance_disposed s =
      call_dispose has_dispose
        (if is_some s.res_err then s else record s { res_err = some err_directive_disposed })

unfoldable pub one_off_idle : ExecIdleCallback → Bool → List (Option ℕ) → OneOffState → OneOffState
one_off_idle cb is_idle errs s =
    let (wait, res_err) = cb is_idle errs in
    record s { idle = is_idle; wait = wait; res_err = res_err }

-- What the function returns: a value with the reference, or an error, which may be nil, where the
-- reference is released.
pub data OneOffResult : Type 0 where
  returns_value : AttachedValue → OneOffResult
  releases : Option ℕ → OneOffResult

-- A look of the loop at its variables; `none` is to wait.
unfoldable pub one_off_look : OneOffState → Option OneOffResult
one_off_look s = elim s.val [
  | some v ↦ some (returns_value v)
  | none ↦ if is_some s.res_err || (s.idle && not s.wait) then some (releases s.res_err) else none
]

-- What happens, in order: the calls of the handler and of the idle callback, and the loop's looks.
pub data OneOffEvent : Type 0 where
  handler_called : ClientEvent → OneOffEvent
  idle_called : Bool → List (Option ℕ) → OneOffEvent
  looks : OneOffEvent
  ctx_done : OneOffEvent

module _ (filter_cb : Option FilterCallback) (idle_cb : Option ExecIdleCallback)
    (has_dispose : Bool) where
  unfoldable pub exec_one_off_with_filter : List OneOffEvent → OneOffState → Option OneOffResult
  unfolding idle_callback
  exec_one_off_with_filter [] s = none
  exec_one_off_with_filter (handler_called ev ∷ evs) s =
      exec_one_off_with_filter evs (one_off_step filter_cb has_dispose ev s)
  exec_one_off_with_filter (idle_called is_idle errs ∷ evs) s =
      exec_one_off_with_filter evs (one_off_idle (idle_callback idle_cb) is_idle errs s)
  exec_one_off_with_filter (ctx_done ∷ evs) s = some (releases (some err_canceled))
  exec_one_off_with_filter (looks ∷ evs) s = elim (one_off_look s) [
    | some result ↦ some result
    | none ↦ exec_one_off_with_filter evs s
  ]
