-- ===== src/Instance/Api.antt =====
-- The exported methods of an instance that register callbacks and end it: instance.go,
-- `AddDisposeCallback` to `CloseIfUnreferenced`, and `newDirectiveInstance`.
use controllerbus.Common.{
  ℕ, Bool, true, not, ◌&&◌, Option, none, some, [], ◌∷◌, ◌++◌, is_empty, ◌==◌, if◌then◌else◌,
}
use controllerbus.Common.Exec.{Exec, ◌>>=◌, ◌>>◌, pure, gets, modify, when}
use controllerbus.Instance.State.{Instance, call_func, call_idle, call_state}
use controllerbus.Instance.Callbacks.{
  Outside, new_pointer, remove_from_callbacks, call_callback_events_locked,
}
use controllerbus.Instance.Notify.{get_resolver_errs_locked, get_directive_state_snapshot_locked}
use controllerbus.Instance.Lifecycle.{any_non_weak_refs, remove_locked}

unfoldable pub mark_released : ℕ → Exec Instance (Unit {0})
mark_released k =
    modify (λ s. record s { cb_released = λ j. if k == j then true else s.cb_released j })

-- The release functions of the three kinds of callbacks.
unfoldable pub release_dispose_callback : ℕ → Exec Instance (Unit {0})
release_dispose_callback k = do
  was ← gets (λ s. s.cb_released k)
  when (not was)
      (do mark_released k; modify (λ s. record s { rels = remove_from_callbacks s.rels k }))

unfoldable pub release_idle_callback : ℕ → Exec Instance (Unit {0})
release_idle_callback k = do
  was ← gets (λ s. s.cb_released k)
  when (not was)
      (do mark_released k; modify (λ s. record s { idles = remove_from_callbacks s.idles k }))

unfoldable pub release_state_callback : ℕ → Exec Instance (Unit {0})
release_state_callback k = do
  was ← gets (λ s. s.cb_released k)
  when (not was) (do
    mark_released k
    modify (λ s. record s { state_changed = remove_from_callbacks s.state_changed k }))

module _ (out : Outside) where
  -- `none` where the callback was called at once.
  unfoldable pub add_dispose_callback : ℕ → Exec Instance (Option ℕ)
  add_dispose_callback cb = do
    released ← gets (λ s. s.released)
    if released then (do out.invoke (call_func cb); pure none) else (do
      k ← new_pointer
      modify (λ s. record s { rels = s.rels ++ record { cb_id = k; cb = some cb } ∷ [] })
      pure (some k))

  unfoldable pub add_idle_callback : Option ℕ → Exec Instance ℕ
  add_idle_callback cb = do
    k ← new_pointer
    modify (λ s. record s { idles = s.idles ++ record { cb_id = k; cb = cb } ∷ [] })
    is_idle ← gets (λ s. s.ready && s.idle)
    errs ← gets get_resolver_errs_locked
    call_callback_events_locked out (call_idle cb is_idle errs ∷ [])
    pure k

  unfoldable pub add_state_callback : Option ℕ → Exec Instance ℕ
  add_state_callback cb = do
    k ← new_pointer
    modify (λ s. record s { state_changed = s.state_changed ++ record { cb_id = k; cb = cb } ∷ [] })
    st ← get_directive_state_snapshot_locked
    call_callback_events_locked out (call_state cb st ∷ [])
    pure k

  unfoldable pub close : Exec Instance (Unit {0})
  close = do
    was ← gets (λ s. s.released)
    modify (λ s. record s { released = true })
    when (not was) (remove_locked out)

  unfoldable pub close_if_unreferenced : Bool → Exec Instance Bool
  close_if_unreferenced incl_weak_refs = do
    released ← gets (λ s. s.released)
    has_refs ←
        gets (λ s. if incl_weak_refs then not (is_empty s.refs) else any_non_weak_refs s.refs)
    if released then pure true else (do
      when (not has_refs) (do modify (λ s. record s { released = true }); remove_locked out)
      gets (λ s. s.released))
