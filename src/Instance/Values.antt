-- ===== src/Instance/Values.antt =====
-- Values, their removal, and the removal of resolvers: `addValueLocked` to `onValuesRemovedLocked`,
-- `removeHandlerLocked` and `removeResolverLocked` of instance.go.
use controllerbus.Common.{
  ℕ, ◌+◌, ◌%◌, ◌^◌, Bool, true, false, not, ◌&&◌, Option, none, some, List, [], ◌∷◌, ◌++◌, is_some,
  is_empty, contains, without, ◌==◌, leb, if◌then◌else◌,
}
use controllerbus.Common.Exec.{Exec, ◌>>=◌, ◌>>◌, pure, gets, modify, when, on_option}
use controllerbus.Instance.State.{
  Instance, Resolver, Value, ValueRemoveCallback, AttachedValue, DirRef, Callback, CallbackEvent,
  call_func, handle_value_added, removed_value,
}
use controllerbus.Instance.Callbacks.{Outside, call_callback_events_locked}
use controllerbus.Instance.Notify.{
  write_resolver, attached, put_resolver, mark_state_changed, defer_check_state_changed,
  run_deferred, handle_idle_state_locked,
}
use controllerbus.Instance.Capacity.{count_values_locked, check_full_locked, update_context_locked}

-- The counters are uint32.
abbrev pub next_uint32 : ℕ → ℕ
next_uint32 n = (n + 1) % 2 ^ 32

-- HandleValueAdded for each reference that has a handler and is not released.
added_events : (ℕ → Bool) → List DirRef → AttachedValue → List CallbackEvent
added_events rel [] v = []
added_events rel (ref ∷ refs) v =
    let rest = added_events rel refs v in
    elim ref.ref_handler [
      | none ↦ rest
      | some h ↦ if rel ref.ref_id then rest else handle_value_added h v ∷ rest
    ]

-- HandleValueRemoved for each such reference, which is looked at again when the event is called.
unfoldable pub removed_events : (ℕ → Bool) → List DirRef → AttachedValue → List CallbackEvent
removed_events rel [] v = []
removed_events rel (ref ∷ refs) v =
    let rest = removed_events rel refs v in
    if not (rel ref.ref_id) && is_some ref.ref_handler then removed_value ref v ∷ rest else rest

-- An entry of `removeCallbacks` is not released: a release takes it out of the list.
unfoldable pub callback_events : List ValueRemoveCallback → List CallbackEvent
callback_events [] = []
callback_events (c ∷ cs) = elim c.vrc_cb [
  | none ↦ callback_events cs
  | some f ↦ call_func f ∷ callback_events cs
]

unfoldable pub all_removed_events : (ℕ → Bool) → List DirRef → List Value → List CallbackEvent
all_removed_events rel refs [] = []
all_removed_events rel refs (v ∷ vs) =
    callback_events v.remove_callbacks
    ++ (removed_events rel refs (attached v) ++ all_removed_events rel refs vs)

unfoldable pub find_value : ℕ → List Value → Option Value
find_value vid [] = none
find_value vid (v ∷ vs) = if v.value_id == vid then some v else find_value vid vs

unfoldable pub without_value : ℕ → List Value → List Value
without_value vid [] = []
without_value vid (v ∷ vs) = if v.value_id == vid then vs else v ∷ without_value vid vs

unfoldable pub replace_value : Value → List Value → List Value
replace_value new [] = []
replace_value new (v ∷ vs) =
    if v.value_id == new.value_id then new ∷ vs else v ∷ replace_value new vs

-- `released.Swap(true)` on each callback of a list: the functions of those that were not released.
unfoldable pub swap_callbacks : List Callback → Exec Instance (List CallbackEvent)
swap_callbacks [] = pure []
swap_callbacks (c ∷ cs) = do
  was ← gets (λ s. s.cb_released c.cb_id)
  modify (λ s. record s { cb_released = λ k. if c.cb_id == k then true else s.cb_released k })
  rest ← swap_callbacks cs
  pure (elim c.cb [ none ↦ rest | some f ↦ if was then rest else call_func f ∷ rest ])

-- The hard cap is reached.
unfoldable pub rejects_value : Instance → Bool
rejects_value s =
    let max_vals = s.value_opts.max_value_count in
    not (max_vals == 0) && (leb max_vals (count_values_locked s) && s.value_opts.max_value_hard_cap)

abbrev pub new_value : ℕ → ℕ → Value
new_value vid val = record {
  value_id = vid;
  val = val;
  remove_callback_ctr = 0;
  remove_callbacks = [];
}

abbrev pub append_value : Value → Resolver → Resolver
append_value v res = record res { vals = res.vals ++ v ∷ [] }

-- The next value id is taken, and the value is appended to the resolver's.
unfoldable pub push_value : ℕ → ℕ → Instance → Instance
push_value r val s =
    let vid = next_uint32 s.val_ctr in
    record (put_resolver r (append_value (new_value vid val) (s.resolver_at r)) s) { val_ctr = vid }

module _ (out : Outside) where
  unfoldable pub announce_value : ℕ → ℕ → Exec Instance (Unit {0})
  unfolding added_events
  announce_value vid val = do
    mark_state_changed
    events ←
        gets (λ s.
          added_events s.ref_released s.refs (record { attached_id = vid; attached_val = val }))
    call_callback_events_locked out events
    check_full_locked out

  -- 0 and false: the value is rejected.
  unfoldable pub reject_value : Bool → Exec Instance (ℕ × Bool)
  reject_value deferred = do run_deferred out deferred; pure (0, false)

  unfoldable pub settle_value : ℕ → Bool → Exec Instance (ℕ × Bool)
  settle_value val deferred = do
    vid ← gets (λ s. s.val_ctr)
    announce_value vid val
    run_deferred out deferred
    pure (vid, true)

  unfoldable pub accept_value : ℕ → ℕ → Bool → Exec Instance (ℕ × Bool)
  accept_value r val deferred = do modify (push_value r val); settle_value val deferred

  unfoldable pub add_value_locked : ℕ → ℕ → Exec Instance (ℕ × Bool)
  add_value_locked r val = do
    deferred ← defer_check_state_changed out
    rejected ← gets rejects_value
    if rejected then reject_value deferred else accept_value r val deferred

  -- The values have left their resolver's list.
  unfoldable pub on_values_removed_locked : List Value → Exec Instance (Unit {0})
  on_values_removed_locked vals = when (not (is_empty vals)) (do
    deferred ← defer_check_state_changed out
    mark_state_changed
    events ← gets (λ s. all_removed_events s.ref_released s.refs vals)
    call_callback_events_locked out events
    check_full_locked out
    run_deferred out deferred)

  unfoldable pub remove_value_locked : ℕ → ℕ → Exec Instance (Option ℕ)
  remove_value_locked r vid = do
    found ← gets (λ s. find_value vid (s.resolver_at r).vals)
    on_option found (pure none) λ v. do
      write_resolver r (λ res. record res { vals = without_value vid res.vals })
      on_values_removed_locked (v ∷ [])
      pure (some v.val)

  -- What follows once the resolver has left the list.
  unfoldable pub retire_resolver : ℕ → Exec Instance (Unit {0})
  retire_resolver r = do
    update_context_locked out r false
    vals ← gets (λ s. (s.resolver_at r).vals)
    write_resolver r (λ res. record res { vals = [] })
    on_values_removed_locked vals
    rels ← gets (λ s. (s.resolver_at r).res_rels)
    events ← swap_callbacks rels
    write_resolver r (λ res. record res { res_rels = [] })
    call_callback_events_locked out events
    handle_idle_state_locked out

  -- The pointers of the resolvers are distinct, so the index that some callers give is the index
  -- at which the search finds the resolver.
  unfoldable pub remove_resolver_locked : ℕ → Exec Instance (Unit {0})
  remove_resolver_locked r = do
    found ← gets (λ s. contains r s.resolvers)
    when found (do modify (λ s. record s { resolvers = without r s.resolvers }); retire_resolver r)
