-- ===== src/Instance/Notify.antt =====
-- The idle state, the state snapshot and the resolver's context: `getResolverErrsLocked` to
-- `getResolverAttachedValsLocked` and `handleIdleStateLocked` of instance.go, and resolver.go.
use controllerbus.Common.{
  ℕ, suc, Bool, true, false, not, ◌&&◌, ◌||◌, Option, none, some, List, [], ◌∷◌, is_some, is_empty,
  ◌==◌, if◌then◌else◌,
}
use controllerbus.Common.Exec.{Exec, ◌>>=◌, ◌>>◌, pure, gets, modify, when, on_option}
use controllerbus.Instance.State.{
  Instance, Resolver, Value, AttachedValue, Snapshot, Callback, CallbackEvent, call_idle,
  call_state,
}
use controllerbus.Instance.Callbacks.{Outside, call_callback_events_locked}

abbrev pub attached : Value → AttachedValue
attached v = record { attached_id = v.value_id; attached_val = v.val }

-- A write through a resolver pointer.
abbrev pub put_resolver : ℕ → Resolver → Instance → Instance
put_resolver r new s = record s { resolver_at = λ k. if r == k then new else s.resolver_at k }

-- Each assignment of several fields of a resolver is one write.
unfoldable pub write_resolver : ℕ → (Resolver → Resolver) → Exec Instance (Unit {0})
write_resolver r f = modify (λ s. put_resolver r (f (s.resolver_at r)) s)

errs_of : (ℕ → Resolver) → List ℕ → List ℕ
errs_of at [] = []
errs_of at (r ∷ rs) = elim (at r).err [ none ↦ errs_of at rs | some e ↦ e ∷ errs_of at rs ]

unfoldable pub get_resolver_errs_locked : Instance → List ℕ
unfolding errs_of
get_resolver_errs_locked s = errs_of s.resolver_at s.resolvers

attach_all : List Value → List AttachedValue → List AttachedValue
attach_all [] rest = rest
attach_all (v ∷ vs) rest = attached v ∷ attach_all vs rest

attached_of : (ℕ → Resolver) → List ℕ → List AttachedValue
attached_of at [] = []
attached_of at (r ∷ rs) = attach_all (at r).vals (attached_of at rs)

unfoldable pub get_resolver_attached_vals_locked : Instance → List AttachedValue
unfolding attach_all attached_of
get_resolver_attached_vals_locked s = attached_of s.resolver_at s.resolvers

unfoldable pub latest_snapshot : Instance → Snapshot
latest_snapshot s = record {
  snap_idle = s.ready && s.idle;
  snap_errs = get_resolver_errs_locked s;
  snap_vals = get_resolver_attached_vals_locked s;
}

unfoldable pub populate_directive_state_snapshot_locked : Exec Instance (Unit {0})
populate_directive_state_snapshot_locked =
    modify (λ s. record s { state_changed_snapshot = some (latest_snapshot s) })

unfoldable pub mark_state_changed : Exec Instance (Unit {0})
mark_state_changed = modify (λ s. record s { state_changed_snapshot = none })

unfoldable pub get_directive_state_snapshot_locked : Exec Instance Snapshot
get_directive_state_snapshot_locked = do
  held ← gets (λ s. s.state_changed_snapshot)
  on_option held (do populate_directive_state_snapshot_locked; gets latest_snapshot) pure

state_events : (ℕ → Bool) → Snapshot → List Callback → List CallbackEvent
state_events rel st [] = []
state_events rel st (c ∷ cs) =
    let rest = state_events rel st cs in
    if not (rel c.cb_id) && is_some c.cb then call_state c.cb st ∷ rest else rest

idle_events : (ℕ → Bool) → Bool → List ℕ → List Callback → List CallbackEvent
idle_events rel is_idle errs [] = []
idle_events rel is_idle errs (c ∷ cs) =
    let rest = idle_events rel is_idle errs cs in
    if not (rel c.cb_id) && is_some c.cb then call_idle c.cb is_idle errs ∷ rest else rest

running_of : (ℕ → Resolver) → List ℕ → ℕ
running_of at [] = 0
running_of at (r ∷ rs) =
    let rest = running_of at rs in
    if not (at r).res_idle && not (at r).exited then suc rest else rest

unfoldable pub count_running_resolvers_locked : Instance → ℕ
unfolding running_of
count_running_resolvers_locked s = running_of s.resolver_at s.resolvers

-- What `handleIdleStateLocked` computes as the new idle state.
unfoldable pub idle_now : Instance → Bool
idle_now s = count_running_resolvers_locked s == 0 && s.ready

abbrev same_bool : Bool → Bool → Bool
same_bool true b = b
same_bool false b = not b

-- Errors are compared by identity.
same_err : Option ℕ → Option ℕ → Bool
same_err none none = true
same_err (some a) (some b) = a == b
same_err _ _ = false

module _ (out : Outside) where
  unfoldable pub maybe_call_state_changed : Exec Instance (Unit {0})
  unfolding state_events
  maybe_call_state_changed = do
    wanted ← gets (λ s. not (is_empty s.state_changed) && not (is_some s.state_changed_snapshot))
    when wanted (do
      populate_directive_state_snapshot_locked
      events ← gets (λ s. state_events s.cb_released (latest_snapshot s) s.state_changed)
      call_callback_events_locked out events)

  -- The deferred function is told apart by whether it does something.
  unfoldable pub defer_check_state_changed : Exec Instance Bool
  defer_check_state_changed = do
    wanted ← gets (λ s. not (s.state_changed_skip || is_empty s.state_changed))
    when wanted (modify (λ s. record s { state_changed_skip = true }))
    pure wanted

  unfoldable pub run_deferred : Bool → Exec Instance (Unit {0})
  run_deferred wanted =
      when wanted
        (do maybe_call_state_changed; modify (λ s. record s { state_changed_skip = false }))

  -- `idles` is read after the state is written, and the events carry the new state.
  unfoldable pub handle_idle_state_locked : Exec Instance (Unit {0})
  unfolding idle_events
  handle_idle_state_locked = do
    idle ← gets idle_now
    old ← gets (λ s. s.idle)
    when (not (same_bool old idle)) (do
      deferred ← defer_check_state_changed
      modify (λ s. record s { idle = idle })
      mark_state_changed
      some_idles ← gets (λ s. not (is_empty s.idles))
      when some_idles (do
        events ← gets (λ s. idle_events s.cb_released idle (get_resolver_errs_locked s) s.idles)
        call_callback_events_locked out events)
      run_deferred deferred)

  unfoldable pub set_idle_locked : ℕ → Bool → Exec Instance (Unit {0})
  set_idle_locked r is_idle = do
    old ← gets (λ s. (s.resolver_at r).res_idle)
    when (not (same_bool old is_idle))
        (do write_resolver r (λ res. record res { res_idle = is_idle }); handle_idle_state_locked)

  unfoldable pub set_err_locked : ℕ → Option ℕ → Exec Instance (Unit {0})
  unfolding same_err
  set_err_locked r err = do
    old ← gets (λ s. (s.resolver_at r).err)
    when (not (same_err old err)) (do
      deferred ← defer_check_state_changed
      write_resolver r (λ res. record res { err = err })
      mark_state_changed
      run_deferred deferred)
