-- ===== src/Bus.antt =====
-- The in-memory bus: bus/inmem/inmem.go. A controller is a number, compared by identity. The bus
-- knows of the directive controller only that a handler can be added and released.
pub mod Attaching
mod Tests
use controllerbus.Common.{
  ℕ, suc, ◌+◌, Bool, true, false, Option, none, some, List, [], ◌∷◌, ◌++◌, ◌==◌, find_first,
  swap_remove,
}
use controllerbus.Common.Exec.{Exec, ◌>>=◌, ◌>>◌, pure, gets, modify, skip, on_option}
use controllerbus.Instance.Callbacks.{Outside}
use controllerbus.Controller.{World, Directives, add_handler, release_handler}

-- What AddHandler returns: the handle of its release function, or an error.
pub data Added : Type 0 where
  added : ℕ → Added
  add_failed : ℕ → Added

pub record Registry (S : Type 0) : Type 0 where
  pub add : ℕ → Exec S Added
  pub release : ℕ → Exec S (Unit {0})

pub record AttachedController : Type 0 where
  pub ctrl : ℕ
  pub rel : ℕ

pub record Bus (S : Type 0) : Type 0 where
  pub registry : S
  pub controllers : List AttachedController
  pub broadcasts : ℕ

-- How Execute ends: it returns, with an error or with none, or it panics, with an error or with
-- another value.
pub data Outcome : Type 0 where
  returns : Option ℕ → Outcome
  panics : Option ℕ → Outcome

-- The errors that the bus makes: of a panic with an error, and of another panic.
pub data ExecError : Type 0 where
  own_error : ℕ → ExecError
  wrapped_panic : ℕ → ExecError
  plain_panic : ExecError

-- The error after `handleControllerPanic`; a panic leaves no error of its own.
unfoldable pub handle_controller_panic : Outcome → Option ExecError
handle_controller_panic (returns none) = none
handle_controller_panic (returns (some e)) = some (own_error e)
handle_controller_panic (panics (some e)) = some (wrapped_panic e)
handle_controller_panic (panics none) = some plain_panic

-- The directive controller as a registry of handlers.
abbrev pub directive_registry : Outside → Directives → Registry World
directive_registry out ds = record {
  add = λ ctrl. (do h ← add_handler out ds; pure (added h));
  release = λ h. release_handler out ds h;
}

unfoldable pub is_ctrl : ℕ → AttachedController → Bool
is_ctrl c a = a.ctrl == c

module _ {S : Type 0} (reg : Registry S) where
  unfoldable pub on_registry : {A : Type 0} → Exec S A → Exec (Bus S) A
  on_registry m b = elim (m b.registry) [
    | none ↦ none
    | some (a, s) ↦ some (a, record b { registry = s })
  ]

  unfoldable pub attach_controller : ℕ → ℕ → Exec (Bus S) (Unit {0})
  attach_controller c h = modify (λ b. record b {
    controllers = b.controllers ++ record { ctrl = c; rel = h } ∷ [];
    broadcasts = suc b.broadcasts;
  })

  -- addController: the error, if the handler cannot be added.
  unfoldable pub add_controller_locked : ℕ → Exec (Bus S) (Option ℕ)
  add_controller_locked c = do
    result ← on_registry (reg.add c)
    elim result [ added h ↦ (do attach_controller c h; pure none) | add_failed e ↦ pure (some e) ]

  unfoldable pub remove_controller : ℕ → Exec (Bus S) (Unit {0})
  remove_controller c = do
    found ← gets (λ b. find_first (is_ctrl c) b.controllers)
    on_option found skip λ a. do
      modify (λ b. record b { controllers = swap_remove (is_ctrl c) b.controllers })
      on_registry (reg.release a.rel)
      modify (λ b. record b { broadcasts = suc b.broadcasts })

  -- After Execute: a controller that failed is removed.
  unfoldable pub controller_exits : ℕ → Outcome → Exec (Bus S) (Option ExecError)
  controller_exits c outcome =
      on_option (handle_controller_panic outcome) (pure none)
        λ e. do remove_controller c; pure (some e)
