-- ===== src/Instance/Handlers.antt =====
-- What a running resolver may call, each guarded by its context: resolver-handler.go, with
-- `addValueRemovedCallbackLocked` to `attachStartSubResolverLocked` of instance.go.
use controllerbus.Common.{
  ℕ, Bool, true, false, not, ◌||◌, Option, none, some, List, [], ◌∷◌, ◌++◌, map, length, is_some,
  contains, ◌==◌, if◌then◌else◌,
}
use controllerbus.Common.Exec.{Exec, ◌>>=◌, ◌>>◌, pure, gets, modify, skip, when, on_option}
use controllerbus.Instance.State.{Instance, Value, ValueRemoveCallback, call_func}
use controllerbus.Instance.Callbacks.{Outside, new_pointer, remove_from_callbacks}
use controllerbus.Instance.Notify.{
  write_resolver, defer_check_state_changed, run_deferred, set_idle_locked, set_err_locked,
}
use controllerbus.Instance.Capacity.{count_values_locked, attach_start_resolver_locked}
use controllerbus.Instance.Values.{
  next_uint32, find_value, replace_value, add_value_locked, remove_value_locked,
  on_values_removed_locked, remove_resolver_locked,
}

-- A resolverHandler: its resolver and the context that the resolver had when it was started.
pub record ResolverHandler : Type 0 where
  pub r : ℕ
  pub hctx : ℕ

-- `r.r.ctx == r.ctx`
unfoldable pub is_current : ResolverHandler → Instance → Bool
is_current h s = elim (s.resolver_at h.r).ctx [ none ↦ false | some c ↦ c == h.hctx ]

without_remove_callback : ℕ → List ValueRemoveCallback → List ValueRemoveCallback
without_remove_callback k [] = []
without_remove_callback k (c ∷ cs) = if c.vrc_id == k then cs else c ∷ without_remove_callback k cs

-- The value id and the callback id of the entry, if the value is there.
unfoldable pub add_value_removed_callback_locked : ℕ → ℕ → ℕ → Exec Instance (Option ℕ)
add_value_removed_callback_locked r vid cb = do
  found ← gets (λ s. find_value vid (s.resolver_at r).vals)
  on_option found (pure none) λ v. do
    let cb_id = next_uint32 v.remove_callback_ctr
    let v' : Value = record v {
      remove_callback_ctr = cb_id;
      remove_callbacks = v.remove_callbacks ++ record { vrc_id = cb_id; vrc_cb = some cb } ∷ [];
    }
    write_resolver r (λ res. record res { vals = replace_value v' res.vals })
    pure (some cb_id)

-- The function that the call above returns: the entry leaves a value that is still attached.
unfoldable pub release_value_removed_callback : ℕ → ℕ → ℕ → Exec Instance (Unit {0})
unfolding without_remove_callback
release_value_removed_callback r vid cb_id = do
  found ← gets (λ s. find_value vid (s.resolver_at r).vals)
  on_option found skip λ v.
      let v' : Value = record v {
        remove_callbacks = without_remove_callback cb_id v.remove_callbacks;
      } in
      write_resolver r (λ res. record res { vals = replace_value v' res.vals })

-- `none` where the resolver is no longer attached.
unfoldable pub add_resolver_removed_callback_locked : ℕ → ℕ → Exec Instance (Option ℕ)
add_resolver_removed_callback_locked r cb = do
  attached ← gets (λ s. contains r s.resolvers)
  if attached
      then (do
        k ← new_pointer
        write_resolver r (λ res. record res {
          res_rels = res.res_rels ++ record { cb_id = k; cb = some cb } ∷ [];
        })
        pure (some k))
      else pure none

unfoldable pub release_resolver_removed_callback : ℕ → ℕ → Exec Instance (Unit {0})
release_resolver_removed_callback r k = do
  was ← gets (λ s. s.cb_released k)
  when (not was) (do
    modify (λ s. record s { cb_released = λ j. if k == j then true else s.cb_released j })
    write_resolver r (λ res. record res { res_rels = remove_from_callbacks res.res_rels k }))

module _ (out : Outside) where
  unfoldable pub attach_start_sub_resolver_locked : ℕ → ℕ → Option ℕ → Exec Instance (Option ℕ)
  attach_start_sub_resolver_locked r sub_res removed_cb = do
    gone ←
        gets
          (λ s. not (contains r s.resolvers) || (s.handler_rel (s.resolver_at r).hnd || s.released))
    hnd ← gets (λ s. (s.resolver_at r).hnd)
    if gone then pure none else (do
      k ← new_pointer
      sub ←
          attach_start_resolver_locked out hnd sub_res
            (elim removed_cb [ none ↦ [] | some f ↦ record { cb_id = k; cb = some f } ∷ [] ])
      pure (some sub))

  unfoldable pub add_value : ResolverHandler → ℕ → Exec Instance (ℕ × Bool)
  add_value h val = do
    current ← gets (is_current h)
    if current then add_value_locked out h.r val else pure (0, false)

  unfoldable pub remove_value : ResolverHandler → ℕ → Exec Instance (Option ℕ)
  remove_value h vid = do
    current ← gets (is_current h)
    if current then remove_value_locked out h.r vid else pure none

  unfoldable pub mark_idle : ResolverHandler → Bool → Exec Instance (Unit {0})
  mark_idle h is_idle = do
    current ← gets (is_current h)
    when current (set_idle_locked out h.r is_idle)

  unfoldable pub count_values : ResolverHandler → Bool → Exec Instance ℕ
  count_values h all_resolvers =
      gets (λ s. if all_resolvers then count_values_locked s else length (s.resolver_at h.r).vals)

  unfoldable pub clear_values : ResolverHandler → Exec Instance (List ℕ)
  clear_values h = do
    current ← gets (is_current h)
    vals ← gets (λ s. (s.resolver_at h.r).vals)
    if current
        then (do
          write_resolver h.r (λ res. record res { vals = [] })
          on_values_removed_locked out vals
          pure (map (λ v. v.value_id) vals))
        else pure []

  -- A callback that finds its value or resolver gone is called at once; `none` is the empty release.
  unfoldable pub add_value_removed_callback :
      ResolverHandler → ℕ → Option ℕ → Exec Instance (Option ℕ)
  add_value_removed_callback h vid none = pure none
  add_value_removed_callback h vid (some cb) = do
    current ← gets (is_current h)
    found ← if current then add_value_removed_callback_locked h.r vid cb else pure none
    when (not (is_some found)) (out.invoke (call_func cb))
    pure found

  unfoldable pub add_resolver_removed_callback :
      ResolverHandler → Option ℕ → Exec Instance (Option ℕ)
  add_resolver_removed_callback h none = pure none
  add_resolver_removed_callback h (some cb) = do
    current ← gets (is_current h)
    found ← if current then add_resolver_removed_callback_locked h.r cb else pure none
    when (not (is_some found)) (out.invoke (call_func cb))
    pure found

  unfoldable pub invoke_some : Option ℕ → Exec Instance (Unit {0})
  invoke_some none = skip
  invoke_some (some f) = out.invoke (call_func f)

  unfoldable pub add_resolver : ResolverHandler → Option ℕ → Option ℕ → Exec Instance (Option ℕ)
  add_resolver h none removed_cb = do invoke_some removed_cb; pure none
  add_resolver h (some res) removed_cb = do
    current ← gets (is_current h)
    found ← if current then attach_start_sub_resolver_locked h.r res removed_cb else pure none
    when (not (is_some found)) (invoke_some removed_cb)
    pure found

  unfoldable pub release_sub_resolver : ℕ → Exec Instance (Unit {0})
  release_sub_resolver sub = remove_resolver_locked out sub

  -- `executeResolver` after Resolve has returned `err`.
  unfoldable pub resolver_exited : ResolverHandler → Option ℕ → Exec Instance (Unit {0})
  resolver_exited h err = do
    current ← gets (is_current h)
    when current (do
      deferred ← defer_check_state_changed out
      write_resolver h.r (λ res. record res { exited = true })
      set_err_locked out h.r err
      set_idle_locked out h.r true
      run_deferred out deferred)
