-- ===== src/Controller.antt =====
-- The directive controller: directive/controller/controller.go and handler.go. Every instance lives
-- in a store; an operation of an instance runs on it with the controller's list of directives, its
-- broadcasts and the handlers' flags, and hands them back.
pub mod Reuse
pub mod Adding
pub mod Freeing
pub mod Removing
mod Tests
use controllerbus.Common.{
  ℕ, suc, ◌+◌, ◌%◌, ◌^◌, Bool, true, false, not, ◌&&◌, ◌||◌, Option, none, some, List, [], ◌∷◌,
  ◌++◌, contains, length, zero, last_or, swap_remove, ◌==◌, if◌then◌else◌,
}
use controllerbus.Common.Exec.{
  Exec, ◌>>=◌, ◌>>◌, pure, gets, modify, skip, when, on_option, for_each,
}
use controllerbus.Instance.State.{Instance, Resolver, ValueOptions, DirRef, Callback}
use controllerbus.Instance.Callbacks.{Outside}
use controllerbus.Instance.Notify.{
  defer_check_state_changed, run_deferred, handle_idle_state_locked,
}
use controllerbus.Instance.Capacity.{new_resolver, attach_start_resolver_locked}
use controllerbus.Instance.Lifecycle.{remove_locked_at, remove_handler_locked, add_reference_locked}

pub record World : Type 0 where
  pub dir_id : ℕ
  pub next_instance : ℕ
  pub dirs : List ℕ
  pub hnd : List ℕ
  pub next_handler : ℕ
  pub handler_rel : ℕ → Bool
  pub broadcasts : ℕ
  pub instance_at : ℕ → Instance
  pub directive_at : ℕ → ℕ
  pub ident_at : ℕ → ℕ

-- What a directive and a handler decide. `is_equivalent` is none for a directive that is not a
-- DirectiveWithEquiv, and `superceeds` for one that is not a DirectiveWithSuperceeds.
pub record Directives : Type 0 where
  pub value_options : ℕ → ValueOptions
  pub is_equivalent : Option (ℕ → ℕ → Bool)
  pub superceeds : Option (ℕ → ℕ → Bool)
  pub handle_directive : ℕ → ℕ → Exec World (Option (List ℕ))

-- An operation of the instance at a pointer.
unfoldable pub on_instance : {A : Type 0} → ℕ → Exec Instance A → Exec World A
on_instance k m w =
    let before = record (w.instance_at k) {
      dir = w.dirs;
      handler_rel = w.handler_rel;
      broadcasts = w.broadcasts;
    } in
    elim (m before) [
      | none ↦ none
      | some (a, after) ↦ some (
        a,
        record w {
          dirs = after.dir;
          handler_rel = after.handler_rel;
          broadcasts = after.broadcasts;
          instance_at = λ j. if k == j then after else w.instance_at j;
        },
      )
    ]

abbrev pub no_resolver : ℕ → Resolver
no_resolver _ = record {
  hnd = 0;
  res = 0;
  err = none;
  ctx = none;
  exited_ch = none;
  res_rels = [];
  vals = [];
  res_idle = true;
  exited = false;
  stopped = false;
}

-- The fields of a new directiveInstance.
unfoldable pub blank_instance : ℕ → ValueOptions → Instance
blank_instance k opts = record {
  id = k;
  value_opts = opts;
  released = false;
  ctx_done = false;
  parent_done = false;
  ready = false;
  destroy_timer = none;
  rels = [];
  idles = [];
  state_changed = [];
  state_changed_snapshot = none;
  state_changed_skip = false;
  calling_ref_cbs = false;
  ref_cbs = [];
  refs = [];
  resolvers = [];
  val_ctr = 0;
  idle = false;
  full = false;
  resolver_at = no_resolver;
  ref_released = λ _. false;
  cb_released = λ _. false;
  handler_rel = λ _. false;
  ctx_canceled = λ _. false;
  next_resolver = 0;
  next_pointer = 1;
  executions = [];
  dir = [];
  broadcasts = 0;
}

unfoldable pub equivalent_to : Directives → ℕ → ℕ → Bool
equivalent_to ds new old = elim ds.is_equivalent [ none ↦ false | some eq ↦ eq new old ]

unfoldable pub superceeds_it : Directives → ℕ → ℕ → Bool
superceeds_it ds new old = elim ds.superceeds [ none ↦ false | some sup ↦ sup new old ]

-- What a loop over a slice still meets when the entry it is at is removed in place: the entries move
-- up by one, so the next is passed over and the last is met twice.
closed_up : List ℕ → List ℕ
closed_up [] = []
closed_up (x ∷ xs) = xs ++ last_or x xs ∷ []

with_handler : ℕ → List ℕ → List (ℕ × ℕ) → List (ℕ × ℕ)
with_handler h [] rest = rest
with_handler h (r ∷ rs) rest = (h, r) ∷ with_handler h rs rest

module _ (out : Outside) (ds : Directives) where
  -- The scan for an equivalent directive, over as many entries as are listed when it begins: one
  -- that is superceeded is removed, by its index `i`, and any other takes the reference. An index
  -- that is past the end, as the last one is once an entry is removed, panics.
  unfoldable pub find_equivalent : ℕ → Option ℕ → ℕ → ℕ → List ℕ → Exec World (Option (ℕ × DirRef))
  unfolding closed_up
  find_equivalent dir ref i zero ks = pure none
  find_equivalent dir ref i (suc n) [] = pure none
  find_equivalent dir ref i (suc n) (k ∷ ks) = do
    candidate ←
        gets (λ w. not (w.instance_at k).released && equivalent_to ds dir (w.directive_at k))
    superceeded ← gets (λ w. superceeds_it ds dir (w.directive_at k))
    let go = find_equivalent dir ref (suc i) n
    if candidate
        then if superceeded
          then (do on_instance k (remove_locked_at out i); go (closed_up ks))
          else (do r ← on_instance k (add_reference_locked out ref false); pure (some (k, r)))
        else go ks

  -- `newDirectiveInstance`, with its first reference, and its place at the end of the list.
  unfoldable pub push_directive : ℕ → Option ℕ → Exec World (ℕ × DirRef)
  push_directive dir ref = do
    k ← gets (λ w. w.next_instance)
    modify (λ w. record w {
      next_instance = suc k;
      dir_id = (w.dir_id + 1) % 2 ^ 32;
      instance_at =
          λ j. if k == j then blank_instance k (ds.value_options dir) else w.instance_at j;
      directive_at = λ j. if k == j then dir else w.directive_at j;
      ident_at = λ j. if k == j then w.dir_id else w.ident_at j;
    })
    r ← on_instance k (add_reference_locked out ref false)
    modify (λ w. record w { dirs = w.dirs ++ k ∷ []; broadcasts = suc w.broadcasts })
    pure (k, r)

  -- The handlers are asked one after the other with the lock given up: a handler that is removed
  -- by then is passed over, and one that fails adds nothing.
  unfoldable pub ask_handlers : ℕ → List ℕ → Exec World (List (ℕ × ℕ))
  unfolding with_handler
  ask_handlers k [] = pure []
  ask_handlers k (h ∷ hs) = do
    removed ← gets (λ w. w.handler_rel h)
    answer ← if removed then pure none else ds.handle_directive h k
    rest ← ask_handlers k hs
    pure (elim answer [ none ↦ rest | some rs ↦ with_handler h rs rest ])

  unfoldable pub attach_all : ℕ → List (ℕ × ℕ) → Exec Instance (Unit {0})
  attach_all k [] = skip
  attach_all k ((h, r) ∷ rs) = do sub ← attach_start_resolver_locked out h r []; attach_all k rs

  -- The resolvers are attached only if the instance was not released meanwhile.
  unfoldable pub attach_answers : ℕ → List (ℕ × ℕ) → Exec Instance (Unit {0})
  attach_answers k rs = do
    released ← gets (λ s. s.released)
    when (not released)
        (do attach_all k rs; modify (λ s. record s { ready = true }); handle_idle_state_locked out)

  unfoldable pub start_directive : ℕ → Exec World (Unit {0})
  start_directive k = do
    deferred ← on_instance k (defer_check_state_changed out)
    handlers ← gets (λ w. w.hnd)
    answers ← ask_handlers k handlers
    on_instance k (attach_answers k answers)
    on_instance k (run_deferred out deferred)

  unfoldable pub add_directive : ℕ → Option ℕ → Exec World (ℕ × DirRef)
  add_directive dir ref = do
    listed ← gets (λ w. w.dirs)
    found ← find_equivalent dir ref 0 (length listed) listed
    on_option found (do pushed ← push_directive dir ref; start_directive pushed.0; pure pushed) pure

  -- AddHandler: every listed directive is asked with the lock given up, then the answers are
  -- attached, each to its directive.
  unfoldable pub ask_directives : ℕ → List ℕ → Exec World (List (ℕ × ℕ))
  unfolding with_handler
  ask_directives h [] = pure []
  ask_directives h (k ∷ ks) = do
    removed ← gets (λ w. w.handler_rel h)
    answer ← if removed then pure none else ds.handle_directive h k
    rest ← ask_directives h ks
    pure (elim answer [ none ↦ rest | some rs ↦ with_handler k rs rest ])

  unfoldable pub attach_each : ℕ → List (ℕ × ℕ) → Exec World (Unit {0})
  attach_each h [] = skip
  attach_each h ((k, r) ∷ rs) = do
    sub ← on_instance k (attach_start_resolver_locked out h r [])
    attach_each h rs

  unfoldable pub add_handler : Exec World ℕ
  add_handler = do
    h ← gets (λ w. w.next_handler)
    modify (λ w. record w { next_handler = suc h; hnd = w.hnd ++ h ∷ [] })
    listed ← gets (λ w. w.dirs)
    answers ← ask_directives h listed
    attach_each h answers
    pure h

  unfoldable pub remove_from_each : ℕ → List ℕ → Exec World (Unit {0})
  remove_from_each h [] = skip
  remove_from_each h (k ∷ ks) = do
    on_instance k (remove_handler_locked out h)
    remove_from_each h ks

  unfoldable pub remove_handler_at : ℕ → Exec World Bool
  remove_handler_at h = do
    modify (λ w. record w { handler_rel = λ j. if h == j then true else w.handler_rel j })
    found ← gets (λ w. contains h w.hnd)
    if found
        then (do
          modify (λ w. record w { hnd = swap_remove (λ x. x == h) w.hnd })
          listed ← gets (λ w. w.dirs)
          remove_from_each h listed
          pure true)
        else pure false

  -- The function that AddHandler returns.
  unfoldable pub release_handler : ℕ → Exec World (Unit {0})
  release_handler h = do
    removed ← gets (λ w. w.handler_rel h)
    when (not removed) (do found ← remove_handler_at h; skip)
