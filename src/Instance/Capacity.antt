-- ===== src/Instance/Capacity.antt =====
-- Starting and stopping resolvers (resolver.go: `updateContextLocked`) and the value cap
-- (instance.go: `countValuesLocked` to `checkFullLocked`, `attachStartResolverLocked`).
use controllerbus.Common.{
  ℕ, suc, ◌+◌, Bool, true, false, not, ◌&&◌, ◌||◌, Option, none, some, List, [], ◌∷◌, ◌++◌, length,
  is_some, is_empty, ◌==◌, leb, if◌then◌else◌,
}
use controllerbus.Common.Exec.{Exec, ◌>>=◌, ◌>>◌, pure, gets, modify, when, for_each}
use controllerbus.Instance.State.{Instance, Resolver, Callback, Execution}
use controllerbus.Instance.Callbacks.{Outside, new_pointer}
use controllerbus.Instance.Notify.{
  put_resolver, write_resolver, handle_idle_state_locked, set_idle_locked,
}

-- A resolver's context is done when it, the instance's or the controller's is canceled.
unfoldable pub is_done : Instance → Option ℕ → Bool
is_done s none = true
is_done s (some c) = s.ctx_canceled c || s.ctx_done || s.parent_done

unfoldable pub cancel_ctx : Option ℕ → Exec Instance (Unit {0})
cancel_ctx none = pure tt
cancel_ctx (some c) =
    modify (λ s. record s { ctx_canceled = λ k. if c == k then true else s.ctx_canceled k })

unfoldable pub start_goroutine : Execution → Exec Instance (Unit {0})
start_goroutine e = modify (λ s. record s { executions = s.executions ++ e ∷ [] })

unfoldable pub values_of : (ℕ → Resolver) → List ℕ → ℕ
values_of at [] = 0
values_of at (r ∷ rs) = length (at r).vals + values_of at rs

unfoldable pub count_values_locked : Instance → ℕ
count_values_locked s = values_of s.resolver_at s.resolvers

any_of : (ℕ → Resolver) → List ℕ → Bool
any_of at [] = false
any_of at (r ∷ rs) = not (is_empty (at r).vals) || any_of at rs

unfoldable pub any_values_locked : Instance → Bool
unfolding any_of
any_values_locked s = any_of s.resolver_at s.resolvers

unfoldable pub new_resolver : ℕ → ℕ → List Callback → Resolver
new_resolver hnd res rels = record {
  hnd = hnd;
  res = res;
  err = none;
  ctx = none;
  exited_ch = none;
  res_rels = rels;
  vals = [];
  res_idle = true;
  exited = false;
  stopped = false;
}

-- The object is made where it is attached, since nothing can reach it before.
unfoldable pub push_resolver : ℕ → ℕ → List Callback → Instance → Instance
push_resolver hnd res rels s =
    let r = suc s.next_resolver in
    record (put_resolver r (new_resolver hnd res rels) s) {
      next_resolver = r;
      resolvers = s.resolvers ++ r ∷ [];
    }

module _ (out : Outside) where
  stop_resolver : ℕ → Exec Instance (Unit {0})
  stop_resolver r = do
    write_resolver r (λ res. record res { exited = true })
    set_idle_locked out r true

  -- The new context is set after the idle callbacks have run.
  start_resolver : ℕ → Exec Instance (Unit {0})
  start_resolver r = do
    exited_ch ← new_pointer
    wait_ch ← gets (λ s. (s.resolver_at r).exited_ch)
    write_resolver r (λ res. record res {
      exited_ch = some exited_ch;
      err = none;
      exited = false;
      stopped = false;
    })
    set_idle_locked out r false
    ctx ← new_pointer
    write_resolver r (λ res. record res { ctx = some ctx })
    start_goroutine (record {
      exec_resolver = r;
      exec_ctx = ctx;
      exec_exited_ch = exited_ch;
      exec_wait_ch = wait_ch;
    })

  -- `start` is false where the code passes nil, and true where it passes the instance's context.
  unfoldable pub update_context_locked : ℕ → Bool → Exec Instance (Unit {0})
  unfolding stop_resolver start_resolver
  update_context_locked r start = do
    running ← gets (λ s. not (is_done s (s.resolver_at r).ctx) && not (s.resolver_at r).exited)
    when (not (start && running)) (do
      ctx ← gets (λ s. (s.resolver_at r).ctx)
      cancel_ctx ctx
      write_resolver r (λ res. record res { ctx = none })
      if start then start_resolver r else stop_resolver r)

  -- The loops go over the resolvers that are attached when they begin.
  unfoldable pub mark_full : ℕ → Exec Instance (Unit {0})
  mark_full r = do
    res ← gets (λ s. s.resolver_at r)
    when (not res.res_idle) (
        if not res.exited && is_empty res.vals
        then (do
          write_resolver r (λ res. record res { stopped = true })
          update_context_locked r false)
        else write_resolver r (λ res. record res { res_idle = true }))

  unfoldable pub handle_full_locked : Exec Instance (Unit {0})
  handle_full_locked = do
    full ← gets (λ s. s.full)
    when (not full) (do
      modify (λ s. record s { full = true })
      rs ← gets (λ s. s.resolvers)
      for_each rs mark_full
      handle_idle_state_locked out)

  unfoldable pub restart : ℕ → Exec Instance (Unit {0})
  restart r = do
    res ← gets (λ s. s.resolver_at r)
    when (res.exited && is_some res.err || res.stopped) (update_context_locked r true)

  unfoldable pub handle_not_full_locked : Exec Instance (Unit {0})
  handle_not_full_locked = do
    full ← gets (λ s. s.full)
    when full (do
      modify (λ s. record s { full = false })
      rs ← gets (λ s. s.resolvers)
      for_each rs restart)

  unfoldable pub check_full_locked : Exec Instance (Unit {0})
  check_full_locked = do
    max_vals ← gets (λ s. s.value_opts.max_value_count)
    when (not (max_vals == 0)) (do
      value_count ← gets count_values_locked
      if leb max_vals value_count then handle_full_locked else handle_not_full_locked)

  unfoldable pub attach_start_resolver_locked : ℕ → ℕ → List Callback → Exec Instance ℕ
  attach_start_resolver_locked hnd res rels = do
    modify (push_resolver hnd res rels)
    r ← gets (λ s. s.next_resolver)
    full ← gets (λ s. s.full)
    if full
        then (do
          write_resolver r (λ res. record res { res_idle = true })
          update_context_locked r false)
        else (do update_context_locked r true; handle_idle_state_locked out)
    pure r
