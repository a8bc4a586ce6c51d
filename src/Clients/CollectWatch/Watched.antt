-- ===== src/Clients/CollectWatch/Watched.antt =====
-- ExecCollectValuesWatchWithFilter of bus/multi.go: its values and errors are those that the events leave.
use controllerbus.Common.{
  ℕ, Bool, Option, none, List, [], ◌∷◌, ◌≡◌, ◌≢◌, refl, sym, subst, ◌∙◌, inl, inr, Bool-cases,
  arith,
}
use mathlib.Core.List.Perm
use controllerbus.Instance.State.{AttachedValue}
use controllerbus.Clients.{
  ClientEvent, value_added, value_removed, instance_disposed, run_events, IsFresh,
}
use controllerbus.Clients.OneOff.{err_directive_disposed}
use controllerbus.Clients.Collect.{collect_step, filter_value, index_of}
use controllerbus.Clients.Collect.Removal.{ids_count, ids_of}
use controllerbus.Clients.Collect.Holds.{Holds, alike-Holds}
use controllerbus.Clients.Collect.Collected.{held, step-Holds}
use controllerbus.Clients.CollectWatch.{
  Emission, WatchState, WatchEvent, handler_called, idle_called, looks, ctx_done, watch_step,
  watch_idle, watch_look, watch_done, watch_event, start,
}
use controllerbus.Clients.CollectWatch.Held.{
  slices, watched_calls, errs_after, fail-res_err, Alike, value-Alike, removed-Alike, value-res_err,
  removed-res_err, idle-slices, idle-res_err, look-slices, look-res_err,
}

module _ (is_t : ℕ → Bool) (filter_cb : Option (ℕ → Bool × Option ℕ)) (wait_idle : Bool)
    (callback : List Emission → Emission → Bool) where
  -- The values and errors of a state are those that the events before it leave.
  pub record Keeps (h : List AttachedValue) (errs : List (Option ℕ)) (s : WatchState) : Type 0 where
    pub live : ℕ → Option ℕ
    pub holds : Holds is_t live h (slices s)
    pub errors : s.res_err ≡ errs

  pub same-Keeps :
      (h : List AttachedValue) (errs errs' : List (Option ℕ)) (s t : WatchState)
      → (p : Keeps h errs s) → slices t ≡ slices s
      → t.res_err ≡ errs'
      → Keeps h errs' t
  same-Keeps h errs errs' s t p e f = record {
    live = p.live;
    holds = subst (Holds is_t p.live h) (sym e) p.holds;
    errors = f;
  }

  step-Alike :
      (ev : ClientEvent) (s : WatchState)
      → ev ≢ instance_disposed
      → Alike
          (collect_step is_t filter_cb ev (slices s))
          (slices (watch_step wait_idle is_t filter_cb ev s))
  unfolding watch_step collect_step
  step-Alike (value_added v) s other = elim (Bool-cases (is_t v.attached_val)) [
    | inl typed ↦ rw typed (value-Alike wait_idle v (filter_value filter_cb v.attached_val) s)
    | inr untyped ↦ rw untyped (refl, refl, refl)
  ]
  step-Alike (value_removed v) s other = elim (Bool-cases (is_t v.attached_val)) [
    | inl typed ↦ rw typed (removed-Alike wait_idle (index_of v.attached_id s.val_ids) s)
    | inr untyped ↦ rw untyped (refl, refl, refl)
  ]
  step-Alike instance_disposed s other = absurd (other refl)

  step-errs :
      (ev : ClientEvent) (s : WatchState)
      → (watch_step wait_idle is_t filter_cb ev s).res_err
        ≡ errs_after is_t filter_cb s.res_err (handler_called ev ∷ [])
  unfolding watch_step
  step-errs (value_added v) s = elim (Bool-cases (is_t v.attached_val)) [
    | inl typed ↦ rw typed (value-res_err wait_idle v (filter_value filter_cb v.attached_val) s)
    | inr untyped ↦ rw untyped refl
  ]
  step-errs (value_removed v) s = elim (Bool-cases (is_t v.attached_val)) [
    | inl typed ↦ rw typed (removed-res_err wait_idle (index_of v.attached_id s.val_ids) s)
    | inr untyped ↦ rw untyped refl
  ]
  step-errs instance_disposed s = fail-res_err err_directive_disposed s

  run-Holds :
      (evs : List WatchEvent) (live : ℕ → Option ℕ) (h : List AttachedValue) (s : WatchState)
      → IsFresh live (watched_calls evs)
      → Holds is_t live h (slices s)
      → Keeps
          (held is_t filter_cb h (watched_calls evs))
          (errs_after is_t filter_cb s.res_err evs)
          (run_events (watch_event is_t filter_cb wait_idle callback) evs s)
  unfolding run_events watch_event watch_done
  run-Holds [] live h s fresh p = record { live = live; holds = p; errors = refl }
  run-Holds (handler_called (value_added v) ∷ evs) live h s fresh p =
      let ev = value_added v in
      let t = watch_step wait_idle is_t filter_cb ev s in
      let (live', fresh', q) = step-Holds is_t filter_cb live h ev _ (slices s) fresh p in
      let (a, b, c) = step-Alike ev s (λ e. cc) in
      subst
        (λ (errs : List (Option ℕ)).
          Keeps (held is_t filter_cb (held is_t filter_cb h (ev ∷ [])) (watched_calls evs))
            (errs_after is_t filter_cb errs evs)
            (run_events (watch_event is_t filter_cb wait_idle callback) evs t))
        (step-errs ev s)
        (run-Holds evs live' _ t fresh' (alike-Holds is_t live' live' _ _ _ q q.free a b c))
  run-Holds (handler_called (value_removed v) ∷ evs) live h s fresh p =
      let ev = value_removed v in
      let t = watch_step wait_idle is_t filter_cb ev s in
      let (live', fresh', q) = step-Holds is_t filter_cb live h ev _ (slices s) fresh p in
      let (a, b, c) = step-Alike ev s (λ e. cc) in
      subst
        (λ (errs : List (Option ℕ)).
          Keeps (held is_t filter_cb (held is_t filter_cb h (ev ∷ [])) (watched_calls evs))
            (errs_after is_t filter_cb errs evs)
            (run_events (watch_event is_t filter_cb wait_idle callback) evs t))
        (step-errs ev s)
        (run-Holds evs live' _ t fresh' (alike-Holds is_t live' live' _ _ _ q q.free a b c))
  run-Holds (handler_called instance_disposed ∷ evs) live h s fresh p = absurd fresh
  run-Holds (idle_called is_idle errs ∷ evs) live h s fresh p =
      let t = watch_idle is_idle errs s in
      subst
        (λ (errs' : List (Option ℕ)).
          Keeps (held is_t filter_cb h (watched_calls evs)) (errs_after is_t filter_cb errs' evs)
            (run_events (watch_event is_t filter_cb wait_idle callback) evs t))
        (idle-res_err is_idle errs s)
        (run-Holds evs live h t fresh
          (subst (Holds is_t live h) (sym (idle-slices is_idle errs s)) p))
  run-Holds (looks ∷ evs) live h s fresh p =
      let t = watch_look callback s in
      subst
        (λ (errs' : List (Option ℕ)).
          Keeps (held is_t filter_cb h (watched_calls evs)) (errs_after is_t filter_cb errs' evs)
            (run_events (watch_event is_t filter_cb wait_idle callback) evs t))
        (look-res_err callback s)
        (run-Holds evs live h t fresh (subst (Holds is_t live h) (sym (look-slices callback s)) p))
  run-Holds (ctx_done ∷ evs) live h s fresh p = run-Holds evs live h _ fresh p

  -- What the goroutine has, once it has looked after the events, are their values and errors.
  pub watched-Keeps :
      (evs : List WatchEvent)
      → IsFresh (λ id. none) (watched_calls evs)
      → Keeps (held is_t filter_cb [] (watched_calls evs)) (errs_after is_t filter_cb [] evs) (
          watch_look callback
            (run_events (watch_event is_t filter_cb wait_idle callback) evs start))
  unfolding start ids_of ids_count
  watched-Keeps evs fresh =
      let p =
        run-Holds evs (λ id. none) [] start fresh
          (record {
            items = [];
            vals_are = refl;
            ids_are = refl;
            same = Perm.nil;
            once = λ k. omega arith;
            free = λ k h. refl;
            open_ = refl;
          }) in
      let s = run_events (watch_event is_t filter_cb wait_idle callback) evs start in
      same-Keeps _ _ _ s (watch_look callback s) p (look-slices callback s)
        (look-res_err callback s ∙ p.errors)
