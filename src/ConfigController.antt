-- ===== src/ConfigController.antt =====
-- The controller of config sets: controller/configset/controller, its running controllers
-- (running-ctrl.go), references (running-ctrl-ref.go) and states (running-ctrl-state.go). The mutexes
-- make every function one step. Running controllers, references and configs are pointers, and a
-- channel with room for one message is the flag that says whether it holds one.
pub mod Loop
pub mod Informed
pub mod Running
pub mod Pushing
pub mod Collecting
pub mod Starting
pub mod Restarting
pub mod SetResolvers
pub mod Following
pub mod Covering
pub mod Covered
mod Tests
use controllerbus.Common.{
  ℕ, suc, ◌+◌, ◌%◌, ◌^◌, Bool, true, false, not, ◌&&◌, ◌||◌, Option, none, some, List, [], ◌∷◌,
  ◌++◌, leb, ◌==◌, is_empty, is_some, if◌then◌else◌, lookup, insert, delete, swap_remove,
}

pub record RunningState : Type 0 where
  pub state_id : ℕ
  pub state_err : Option ℕ
  pub state_conf : Option ℕ
  pub state_ctrl : Option ℕ

pub record RunningController : Type 0 where
  pub key : ℕ
  pub conf : ℕ
  pub conf_restart : Bool
  pub state : RunningState
  pub refs : List ℕ
  pub prev_emitted : RunningState

pub record RunningRef : Type 0 where
  pub ref_key : ℕ
  pub persistent_id : Option ℕ
  pub cbs : List ℕ
  pub rc : Option ℕ
  pub rel_once : Bool

-- `pushed` lists the calls of state callbacks, the latest last, and `releasing` the persistent ids
-- whose release callback has been started as a goroutine.
pub record ConfigSets : Type 0 where
  pub woken : Bool
  pub controllers : List (ℕ × ℕ)
  pub persistent_ref_counter : ℕ
  pub persistent_refs : List (ℕ × ℕ)
  pub rc_at : ℕ → RunningController
  pub ref_at : ℕ → RunningRef
  pub next_rc : ℕ
  pub next_ref : ℕ
  pub pushed : List (ℕ × RunningState)
  pub releasing : List ℕ

abbrev pub same_option : Option ℕ → Option ℕ → Bool
same_option none none = true
same_option none (some b) = false
same_option (some a) none = false
same_option (some a) (some b) = a == b

-- Equals
unfoldable pub state_equals : RunningState → RunningState → Bool
state_equals s other =
    s.state_id == other.state_id
    && same_option s.state_err other.state_err
    && same_option s.state_conf other.state_conf
    && same_option s.state_ctrl other.state_ctrl

abbrev pub wake : ConfigSets → ConfigSets
wake s = record s { woken = true }

abbrev pub put_rc : ℕ → RunningController → ConfigSets → ConfigSets
put_rc r c s = record s { rc_at = λ j. if r == j then c else s.rc_at j }

abbrev pub put_ref : ℕ → RunningRef → ConfigSets → ConfigSets
put_ref f x s = record s { ref_at = λ j. if f == j then x else s.ref_at j }

-- The zero value of a state, whose id is the empty string, here 0.
abbrev pub zero_state : ℕ → RunningState
zero_state k = record { state_id = k; state_err = none; state_conf = none; state_ctrl = none }

unfoldable pub new_running_controller : ℕ → ℕ → RunningController
new_running_controller k conf = record {
  key = k;
  conf = conf;
  conf_restart = false;
  state = zero_state k;
  refs = [];
  prev_emitted = zero_state 0;
}

unfoldable pub new_running_controller_ref : ℕ → Option ℕ → RunningRef
new_running_controller_ref k r = record {
  ref_key = k;
  persistent_id = none;
  cbs = [];
  rc = r;
  rel_once = false;
}

-- Each callback of a reference is called with the state.
unfoldable pub calls : List ℕ → RunningState → List (ℕ × RunningState)
calls [] st = []
calls (cb ∷ cbs) st = (cb, st) ∷ calls cbs st

-- runningControllerRef.pushState
unfoldable pub push_ref_state : ℕ → RunningState → ConfigSets → ConfigSets
push_ref_state f st s = record s { pushed = s.pushed ++ calls (s.ref_at f).cbs st }

unfoldable pub push_to_refs : List ℕ → RunningState → ConfigSets → ConfigSets
push_to_refs [] st s = s
push_to_refs (f ∷ fs) st s = push_to_refs fs st (push_ref_state f st s)

-- runningController.pushState
unfoldable pub push_state : ℕ → RunningState → ConfigSets → ConfigSets
push_state r st s =
    if state_equals (s.rc_at r).prev_emitted st
    then s
    else push_to_refs (s.rc_at r).refs st (put_rc r (record (s.rc_at r) { prev_emitted = st }) s)

unfoldable pub add_reference : ℕ → ℕ → ConfigSets → ConfigSets
add_reference r f s = put_rc r (record (s.rc_at r) { refs = (s.rc_at r).refs ++ f ∷ [] }) s

-- setRunningController: whether the reference took the new controller.
unfoldable pub set_running_controller : ℕ → ℕ → RunningState → ConfigSets → Bool × ConfigSets
set_running_controller f r st s =
    if same_option (s.ref_at f).rc (some r)
    then (false, s)
    else (true, push_ref_state f st (put_ref f (record (s.ref_at f) { rc = some r }) s))

unfoldable pub apply_reference : ℕ → ℕ → ConfigSets → ConfigSets
apply_reference r f s =
    if same_option (s.ref_at f).rc (some r)
    then s
    else (let (updated, t) = set_running_controller f r (s.rc_at r).state s in
        if updated then add_reference r f t else t)

unfoldable pub del_reference : ℕ → ℕ → ConfigSets → ConfigSets
del_reference r f s =
    let t = put_rc r (record (s.rc_at r) { refs = swap_remove (λ x. x == f) (s.rc_at r).refs }) s in
    if is_empty (t.rc_at r).refs then wake t else t

-- GetState of a reference.
unfoldable pub get_ref_state : ℕ → ConfigSets → RunningState
get_ref_state f s = elim (s.ref_at f).rc [
  | none ↦ zero_state (s.ref_at f).ref_key
  | some r ↦ (s.rc_at r).state
]

-- AddStateCallback; `none` is the panic of asking a nil controller for its state.
unfoldable pub add_state_callback : ℕ → ℕ → ConfigSets → Option ConfigSets
add_state_callback f cb s =
    let t = put_ref f (record (s.ref_at f) { cbs = (s.ref_at f).cbs ++ cb ∷ [] }) s in
    elim (s.ref_at f).rc [
      | none ↦ none
      | some r ↦ some (record t { pushed = t.pushed ++ (cb, (t.rc_at r).state) ∷ [] })
    ]

-- Release; the internal callback runs later, as `release_persistent`.
unfoldable pub release : ℕ → ConfigSets → ConfigSets
release f s =
    if (s.ref_at f).rel_once
    then s
    else (let t = put_ref f (record (s.ref_at f) { rel_once = true }) s in
        let u : ConfigSets = elim (s.ref_at f).rc [ none ↦ t | some r ↦ del_reference r f t ] in
        elim (s.ref_at f).persistent_id [
          | none ↦ u
          | some p ↦ record u { releasing = u.releasing ++ p ∷ [] }
        ])

unfoldable pub release_persistent : ℕ → ConfigSets → ConfigSets
release_persistent p s = record s { persistent_refs = delete p s.persistent_refs }

-- The persistent references of the key take the new controller.
unfoldable pub apply_persistent : ℕ → ℕ → List (ℕ × ℕ) → ConfigSets → ConfigSets
apply_persistent k r [] s = s
apply_persistent k r ((p, f) ∷ prefs) s =
    apply_persistent k r prefs (if (s.ref_at f).ref_key == k then apply_reference r f s else s)

unfoldable pub new_ref : RunningRef → ConfigSets → ℕ × ConfigSets
new_ref x s = (s.next_ref, put_ref s.next_ref x (record s { next_ref = suc s.next_ref }))

module _ (rev_of : ℕ → ℕ) where
  -- ApplyConfig: whether the config was newer.
  unfoldable pub apply_config : ℕ → ℕ → ConfigSets → Bool × ConfigSets
  apply_config r conf s =
      if leb (rev_of conf) (rev_of (s.rc_at r).conf)
      then (false, s)
      else (true, put_rc r (record (s.rc_at r) { conf = conf; conf_restart = true }) s)

  -- The running controller of the key, with the config if that is newer.
  unfoldable pub ensure_controller : ℕ → ℕ → ConfigSets → ℕ × ConfigSets
  ensure_controller k conf s = elim (lookup k s.controllers) [
    | some r ↦ let (newer, t) = apply_config r conf s in (r, (if newer then wake t else t))
    | none ↦
        let r = s.next_rc in
        let t = put_rc r (new_running_controller k conf) s in
        (
          r,
          apply_persistent k r s.persistent_refs
              (wake (record t { next_rc = suc r; controllers = insert k r s.controllers })),
        )
  ]

  unfoldable pub push_controller_config : ℕ → ℕ → ConfigSets → ℕ × ConfigSets
  push_controller_config k conf s =
      let (r, t) = ensure_controller k conf s in
      let (f, u) = new_ref (new_running_controller_ref k (some r)) t in (f, add_reference r f u)

unfoldable pub add_config_set_reference : ℕ → ConfigSets → ℕ × ConfigSets
add_config_set_reference k s =
    let p = s.persistent_ref_counter in
    let f = s.next_ref in
    let x = record (new_running_controller_ref k none) { persistent_id = some p } in
    let t = put_ref f x (record s {
      next_ref = suc f;
      persistent_ref_counter = (p + 1) % 2 ^ 32;
      persistent_refs = insert p f s.persistent_refs;
    }) in
    (f, elim (lookup k t.controllers) [ none ↦ t | some r ↦ apply_reference r f t ])
