-- ===== src/Loader.antt =====
-- The loader of controllers: the Resolve function of controller/loader/loader-resolve.go, which executes
-- a controller again and again, with a backoff, until it ends without an error.
pub mod Closing
mod Tests
use controllerbus.Common.{
  ℕ, suc, Bool, true, false, ◌&&◌, Option, none, some, List, [], ◌∷◌, ◌==◌, if◌then◌else◌, without,
  delete,
}

-- context.Canceled, and the error of a factory that constructs nil.
abbrev pub err_canceled : ℕ
err_canceled = 1

abbrev pub err_construct_nil : ℕ
err_construct_nil = 2

-- The value that is shown: how long until the next try, if one is waited for, the controller and the
-- error. The times are left out.
pub record ExecControllerValue : Type 0 where
  pub retry_after : Option ℕ
  pub exec_controller : Option ℕ
  pub exec_error : Option ℕ

-- `built` and `closed` have the controllers that were constructed and those whose Close was called;
-- `on_bus` those that are attached to the bus. `vals` are the values of the resolver's handler.
pub record LoaderState : Type 0 where
  pub ci : Option ℕ
  pub last_err : Option ℕ
  pub vals : List (ℕ × ExecControllerValue)
  pub next_val : ℕ
  pub built : List ℕ
  pub closed : List ℕ
  pub on_bus : List ℕ

unfoldable pub start : LoaderState
start = record {
  ci = none;
  last_err = none;
  vals = [];
  next_val = 1;
  built = [];
  closed = [];
  on_bus = [];
}

pub data Constructed : Type 0 where
  construct_fails : ℕ → Constructed
  constructs_nil : Constructed
  constructs : ℕ → Constructed

-- What one round of the loop meets: the next backoff, or none to stop; whether the context ends while
-- it waits; what the factory does; the error of the execution, and whether the context has ended
-- after it; and whether the handler accepts the two values.
pub record Attempt : Type 0 where
  pub next_backoff : Option ℕ
  pub canceled_waiting : Bool
  pub construction : Constructed
  pub exec_err : Option ℕ
  pub ctx_canceled : Bool
  pub accepts_waiting : Bool
  pub accepts_running : Bool

-- What Resolve returns: an error, or nil, where the controller is removed with the value of the id, or
-- with the resolver if there is none.
pub data LoaderResult : Type 0 where
  fails : ℕ → LoaderResult
  completes : Option ℕ → LoaderResult

-- The value's id if the handler accepts it.
unfoldable pub add_value : Bool → ExecControllerValue → LoaderState → Option ℕ × LoaderState
add_value true v s =
    (some s.next_val, record s { vals = (s.next_val, v) ∷ s.vals; next_val = suc s.next_val })
add_value false v s = (none, s)

unfoldable pub remove_value : Option ℕ → LoaderState → LoaderState
remove_value none s = s
remove_value (some vid) s = record s { vals = delete vid s.vals }

unfoldable pub clear_values : LoaderState → LoaderState
clear_values s = record s { vals = [] }

unfoldable pub close_ci : LoaderState → LoaderState
close_ci s = elim s.ci [ none ↦ s | some c ↦ record s { closed = c ∷ s.closed } ]

-- bus.RemoveController(ci)
unfoldable pub remove_controller : LoaderState → LoaderState
remove_controller s = elim s.ci [ none ↦ s | some c ↦ record s { on_bus = without c s.on_bus } ]

-- The callback that is left when Resolve returns nil.
unfoldable pub value_removed : LoaderState → LoaderState
unfolding close_ci remove_controller
value_removed s = close_ci (remove_controller s)

-- The wait before a controller is started again.
unfoldable pub wait_backoff : Attempt → ℕ → ℕ → LoaderState → Option LoaderResult × LoaderState
unfolding add_value remove_value close_ci
wait_backoff a err duration s =
    let (vid, waiting) =
      add_value a.accepts_waiting
        (record { retry_after = some duration; exec_controller = none; exec_error = some err }) s in
    if a.canceled_waiting
    then (some (fails err_canceled), close_ci waiting)
    else (none, remove_value vid waiting)

-- In the first run there is no error, and nothing to wait for.
unfoldable pub back_off : Attempt → LoaderState → Option LoaderResult × LoaderState
unfolding wait_backoff close_ci
back_off a s = elim s.last_err [
  | none ↦ (none, s)
  | some err ↦ elim a.next_backoff [
    | none ↦ (some (fails err), close_ci s)
    | some duration ↦ if duration == 0 then (none, s) else wait_backoff a err duration s
  ]
]

-- bus.ExecuteController(c.ctx, ci): a controller that fails is taken off the bus again.
unfoldable pub execute_controller : Option ℕ → ℕ → LoaderState → LoaderState
execute_controller none c s = record s { on_bus = c ∷ s.on_bus }
execute_controller (some err) c s = s

-- A controller that was canceled leaves no error.
unfoldable pub set_last_err : Bool → Option ℕ → LoaderState → LoaderState
set_last_err ctx_canceled none s = s
set_last_err ctx_canceled (some err) s =
    if ctx_canceled && (err == err_canceled) then s else record s { last_err = some err }

-- What comes after an execution.
unfoldable pub finish_run :
    Bool → Option ℕ → Option ℕ → LoaderState → Option LoaderResult × LoaderState
unfolding clear_values remove_controller close_ci
finish_run true exec_err vid s =
    (some (fails err_canceled), close_ci (remove_controller (clear_values s)))
finish_run false (some err) vid s = (none, s)
finish_run false none vid s = (some (completes vid), s)

unfoldable pub run_controller : Attempt → ℕ → LoaderState → Option LoaderResult × LoaderState
unfolding add_value execute_controller set_last_err finish_run
run_controller a c s =
    let (vid, shown) =
      add_value a.accepts_running
        (record { retry_after = none; exec_controller = some c; exec_error = none }) s in
    finish_run a.ctx_canceled a.exec_err vid
      (set_last_err a.ctx_canceled a.exec_err (execute_controller a.exec_err c shown))

unfoldable pub construct_and_run :
    Attempt → Constructed → LoaderState → Option LoaderResult × LoaderState
unfolding run_controller
construct_and_run a (construct_fails err) s = (none, record s { last_err = some err })
construct_and_run a constructs_nil s =
    (some (fails err_construct_nil), record s { last_err = none })
construct_and_run a (constructs c) s =
    run_controller a c (record s { ci = some c; last_err = none; built = c ∷ s.built })

-- The controller is constructed once.
unfoldable pub ensure_and_run : Attempt → LoaderState → Option LoaderResult × LoaderState
unfolding construct_and_run run_controller
ensure_and_run a s = elim s.ci [
  | some c ↦ run_controller a c s
  | none ↦ construct_and_run a a.construction s
]

-- Where Resolve has returned, nothing follows.
unfoldable pub proceed :
    (LoaderState → Option LoaderResult × LoaderState)
    → Option LoaderResult × LoaderState
    → Option LoaderResult × LoaderState
proceed f (some r, s) = (some r, s)
proceed f (none, s) = f s

-- One round; `none` is to go on.
unfoldable pub resolve_round : Attempt → LoaderState → Option LoaderResult × LoaderState
unfolding clear_values back_off ensure_and_run proceed
resolve_round a s = proceed (ensure_and_run a) (back_off a (clear_values s))

unfoldable pub resolve : List Attempt → LoaderState → Option LoaderResult × LoaderState
unfolding resolve_round proceed
resolve [] s = (none, s)
resolve (a ∷ as_) s = proceed (resolve as_) (resolve_round a s)
