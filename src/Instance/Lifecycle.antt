-- ===== src/Instance/Lifecycle.antt =====
-- References and the end of an instance: `addReferenceLocked` to `handleUnreferencedLocked`,
-- `removeHandlerLocked` and `removeLocked` of instance.go, and reference.go.
use controllerbus.Common.{
  ℕ, zero, suc, ◌+◌, Bool, true, false, not, ◌&&◌, ◌||◌, Option, none, some, List, [], ◌∷◌, ◌++◌,
  length, is_some, is_empty, contains, without, ◌==◌, if◌then◌else◌,
}
use controllerbus.Common.Exec.{Exec, ◌>>=◌, ◌>>◌, pure, gets, modify, skip, when, on_option}
use controllerbus.Instance.State.{
  Instance, AttachedValue, DirRef, Callback, CallbackEvent, handle_value_added,
  handle_instance_disposed,
}
use controllerbus.Instance.Callbacks.{Outside, call_callback_events_locked, new_pointer}
use controllerbus.Instance.Notify.{get_resolver_attached_vals_locked}
use controllerbus.Instance.Capacity.{any_values_locked}
use controllerbus.Instance.Values.{swap_callbacks, remove_resolver_locked}

-- The element at an index, where there is one.
unfoldable pub nth : List ℕ → ℕ → Option ℕ
nth [] i = none
nth (x ∷ xs) zero = some x
nth (x ∷ xs) (suc i) = nth xs i

-- append(dir[:idx], dir[idx+1:]...); none where slicing is out of range.
unfoldable pub remove_index : ℕ → List ℕ → Option (List ℕ)
remove_index idx [] = none
remove_index zero (x ∷ xs) = some xs
remove_index (suc idx) (x ∷ xs) = elim (remove_index idx xs) [ none ↦ none | some l ↦ some (x ∷ l) ]

unfoldable pub last_of : List ℕ → Option ℕ
last_of [] = none
last_of (x ∷ []) = some x
last_of (x ∷ y ∷ xs) = last_of (y ∷ xs)

-- Whether the last reference is there and is not weak.
unfoldable pub any_non_weak_refs : List DirRef → Bool
any_non_weak_refs [] = false
any_non_weak_refs (r ∷ []) = not r.weak
any_non_weak_refs (r ∷ q ∷ rs) = any_non_weak_refs (q ∷ rs)

unfoldable pub has_ref : ℕ → List DirRef → Bool
has_ref k [] = false
has_ref k (r ∷ rs) = if r.ref_id == k then true else has_ref k rs

unfoldable pub without_ref : ℕ → List DirRef → List DirRef
without_ref k [] = []
without_ref k (r ∷ rs) = if r.ref_id == k then rs else r ∷ without_ref k rs

unfoldable pub release_callbacks : List Callback → Exec Instance (Unit {0})
release_callbacks [] = skip
release_callbacks (c ∷ cs) = do
  modify (λ s. record s { cb_released = λ k. if c.cb_id == k then true else s.cb_released k })
  release_callbacks cs

unfoldable pub release_ref : ℕ → Exec Instance (Unit {0})
release_ref k =
    modify (λ s. record s { ref_released = λ j. if k == j then true else s.ref_released j })

-- `released.Swap(true)` on each reference: HandleInstanceDisposed for those that were not released.
unfoldable pub swap_refs : List DirRef → Exec Instance (List CallbackEvent)
swap_refs [] = pure []
swap_refs (r ∷ rs) = do
  was ← gets (λ s. s.ref_released r.ref_id)
  release_ref r.ref_id
  rest ← swap_refs rs
  pure (elim r.ref_handler [
    | none ↦ rest
    | some h ↦ if was then rest else handle_instance_disposed h ∷ rest
  ])

unfoldable pub stop_destroy_timer : Exec Instance (Unit {0})
stop_destroy_timer = modify (λ s. record s { destroy_timer = none })

unfoldable pub handle_referenced_locked : Exec Instance (Unit {0})
handle_referenced_locked = do
  released ← gets (λ s. s.released)
  when (not released) stop_destroy_timer

unfoldable pub value_events : ℕ → List AttachedValue → List CallbackEvent
value_events h [] = []
value_events h (v ∷ vs) = handle_value_added h v ∷ value_events h vs

unfoldable pub is_timer : Option ℕ → ℕ → Bool
is_timer none t = false
is_timer (some d) t = d == t

module _ (out : Outside) where
  -- `for idx := 0; idx < len(i.res); idx++`, where a removal steps back.
  unfoldable pub remove_handler_from : ℕ → ℕ → ℕ → Exec Instance (Unit {0})
  remove_handler_from zero idx hnd = λ s. none
  remove_handler_from (suc rounds) idx hnd = do
    at_idx ← gets (λ s. nth s.resolvers idx)
    on_option at_idx skip λ r. do
      res_hnd ← gets (λ s. (s.resolver_at r).hnd)
      if res_hnd == hnd
          then (do remove_resolver_locked out r; remove_handler_from rounds idx hnd)
          else remove_handler_from rounds (suc idx) hnd

  unfoldable pub remove_handler_locked : ℕ → Exec Instance (Unit {0})
  remove_handler_locked hnd = do
    count ← gets (λ s. length s.resolvers)
    remove_handler_from (suc (count + out.fuel)) 0 hnd

  -- `for len(i.res) != 0`, from the last resolver on.
  unfoldable pub remove_resolvers : ℕ → Exec Instance (Unit {0})
  remove_resolvers zero = λ s. none
  remove_resolvers (suc rounds) = do
    last ← gets (λ s. last_of s.resolvers)
    on_option last skip λ r. do remove_resolver_locked out r; remove_resolvers rounds

  unfoldable pub remove_all_resolvers : Exec Instance (Unit {0})
  remove_all_resolvers = do
    count ← gets (λ s. length s.resolvers)
    remove_resolvers (suc (count + out.fuel))

  -- The callbacks are called after the resolvers are gone, and the references go last.
  unfoldable pub disconnect : Exec Instance (Unit {0})
  disconnect = do
    rels ← gets (λ s. s.rels)
    rel_events ← swap_callbacks rels
    refs ← gets (λ s. s.refs)
    ref_events ← swap_refs refs
    modify (λ s. record s { rels = [] })
    call_callback_events_locked out (rel_events ++ ref_events)
    modify (λ s. record s { refs = [] })

  -- All that an instance does once it is off the list.
  unfoldable pub clean_up : Exec Instance (Unit {0})
  clean_up = do
    idles ← gets (λ s. s.idles)
    release_callbacks idles
    modify (λ s. record s { idles = [] })
    remove_all_resolvers
    disconnect

  unfoldable pub dispose : Exec Instance (Unit {0})
  dispose = do
    modify (λ s. record s { dir = without s.id s.dir; broadcasts = suc s.broadcasts })
    clean_up

  -- removeLocked(-1), which looks for the instance in the list.
  unfoldable pub remove_locked : Exec Instance (Unit {0})
  remove_locked = do
    modify (λ s. record s { released = true; ctx_done = true })
    stop_destroy_timer
    found ← gets (λ s. contains s.id s.dir)
    when found dispose

  -- removeLocked with the index to take out of the list, which panics if there is none.
  unfoldable pub remove_locked_at : ℕ → Exec Instance (Unit {0})
  unfolding remove_index
  remove_locked_at idx = do
    modify (λ s. record s { released = true; ctx_done = true })
    stop_destroy_timer
    rest ← gets (λ s. remove_index idx s.dir)
    on_option rest (λ s. none)
        λ dirs. do modify (λ s. record s { dir = dirs; broadcasts = suc s.broadcasts }); clean_up

  unfoldable pub handle_unreferenced_locked : Exec Instance (Unit {0})
  handle_unreferenced_locked = do
    released ← gets (λ s. s.released)
    opts ← gets (λ s. s.value_opts)
    any_values ← gets any_values_locked
    timer ← gets (λ s. s.destroy_timer)
    when (not released) (
        if opts.unref_dispose_dur == 0 || opts.unref_dispose_empty_immediate && not any_values
        then remove_locked
        else when (not (is_some timer))
            (do t ← new_pointer; modify (λ s. record s { destroy_timer = some t })))

  -- The destroy timer fires: it disposes only if it is still the instance's timer.
  unfoldable pub destroy_timer_fired : ℕ → Exec Instance (Unit {0})
  destroy_timer_fired t = do
    current ← gets (λ s. not s.released && is_timer s.destroy_timer t)
    when current (do stop_destroy_timer; remove_locked)

  unfoldable pub add_reference_locked : Option ℕ → Bool → Exec Instance DirRef
  add_reference_locked h weak_ref = do
    k ← new_pointer
    let ref : DirRef = record { ref_id = k; weak = weak_ref; ref_handler = h }
    released ← gets (λ s. s.released)
    if released
        then (do
          release_ref k
          call_callback_events_locked out
              (elim h [ none ↦ [] | some f ↦ handle_instance_disposed f ∷ [] ])
          pure ref)
        else (do
          refs ← gets (λ s. s.refs)
          let first_ref = is_empty refs
          let first_non_weak_ref = not first_ref && (not weak_ref && not (any_non_weak_refs refs))
          modify (λ s. record s { refs = if weak_ref then ref ∷ s.refs else s.refs ++ ref ∷ [] })
          events ← gets (λ s. elim h [
            | none ↦ []
            | some f ↦ value_events f (get_resolver_attached_vals_locked s)
          ])
          when (not weak_ref && (first_ref || first_non_weak_ref)) handle_referenced_locked
          call_callback_events_locked out events
          pure ref)

  unfoldable pub remove_reference_locked : ℕ → Exec Instance (Unit {0})
  remove_reference_locked k = do
    found ← gets (λ s. has_ref k s.refs)
    when found (do
      modify (λ s. record s { refs = without_ref k s.refs })
      release_ref k
      strong ← gets (λ s. any_non_weak_refs s.refs)
      when (not strong) handle_unreferenced_locked)

  -- `dirRef.Release`: the flag is swapped before the lock is taken.
  unfoldable pub release : ℕ → Exec Instance (Unit {0})
  release k = do
    was ← gets (λ s. s.ref_released k)
    when (not was) (do release_ref k; remove_reference_locked k)
