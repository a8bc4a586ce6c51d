-- ===== src/Clients/CollectWatch/Emitting.antt =====
-- ExecCollectValuesWatchWithFilter of bus/multi.go loses no change.
use controllerbus.Common.{
  ℕ, Bool, true, false, not, ◌&&◌, ◌||◌, Option, none, some, List, [], ◌∷◌, is_empty, ◌≡◌, refl,
  sym, ap, subst, ◌∙◌, inl, inr, Bool-cases, arith,
}
use mathlib.Core.List.{Perm}
use mathlib.Core.List.Perm
use controllerbus.Instance.State.{AttachedValue}
use controllerbus.Clients.{
  value_added, value_removed, instance_disposed, run_events, run_events-keeps, IsFresh,
}
use controllerbus.Clients.Collect.Holds.{vals_of}
use controllerbus.Clients.Collect.Collected.{held}
use controllerbus.Clients.CollectWatch.Held.{watched_calls, errs_after}
use controllerbus.Clients.CollectWatch.Watched.{Keeps, watched-Keeps}
use controllerbus.Clients.CollectWatch.{
  Emission, WatchState, WatchEvent, handler_called, idle_called, looks, ctx_done, start,
  errors_equal, emit_now, schedule_emit_if_ready, fail_watch, watch_value, unwatch_value,
  watch_step, watch_idle, snapshot, watch_look, watch_done, watch_event,
}

false_true {ℓ} : {C : Type ℓ} → false ≡ true → C
false_true e = cc

-- What was emitted last; at first, no errors and no values.
abbrev pub last_emission : List Emission → Emission
last_emission [] = record { emitted_errs = []; emitted_vals = [] }
last_emission (e ∷ es) = e

-- Unless the goroutine has ended, or the values are still collected, the last emission is of the
-- present errors and values, or one is pending.
pub record IsEmitting (wait_idle : Bool) (s : WatchState) : Type 0 where
  pub shows :
      s.stopped ≡ false
      → (not wait_idle || s.emitted_once) ≡ true
      → s.pending_emit ≡ false
      → last_emission s.emissions ≡ snapshot s

-- The emission of the errors, or of the values if there are none, in any order.
pub record IsEmissionOf (errs : List (Option ℕ)) (vals : List ℕ) (e : Emission) : Type 0 where
  pub errs_are : e.emitted_errs ≡ errs
  pub vals_are : is_empty errs ≡ true → Perm e.emitted_vals vals
  pub no_vals : is_empty errs ≡ false → e.emitted_vals ≡ []

module _ (wait_idle : Bool) where
  pending-IsEmitting : (s : WatchState) → s.pending_emit ≡ true → IsEmitting wait_idle s
  pending-IsEmitting s h = record { shows = λ a b c. false_true (sym c ∙ h) }

  schedule-IsEmitting : (s : WatchState) → IsEmitting wait_idle (schedule_emit_if_ready wait_idle s)
  unfolding schedule_emit_if_ready emit_now
  schedule-IsEmitting s = elim (Bool-cases (not wait_idle || s.emitted_once)) [
    | inl ready ↦ rw ready (pending-IsEmitting _ refl)
    | inr waits ↦ rw waits (record { shows = λ a b c. false_true (sym waits ∙ b) })
  ]

  fail-IsEmitting :
      (err : ℕ) (s : WatchState) → IsEmitting wait_idle s → IsEmitting wait_idle (fail_watch err s)
  unfolding fail_watch emit_now
  fail-IsEmitting err s p = elim (Bool-cases (is_empty s.res_err)) [
    | inl first ↦ rw first (pending-IsEmitting _ refl)
    | inr other ↦ rw other p
  ]

  value-IsEmitting :
      (v : AttachedValue) (r : Bool × Option ℕ) (s : WatchState)
      → IsEmitting wait_idle s
      → IsEmitting wait_idle (watch_value wait_idle v r s)
  unfolding watch_value
  value-IsEmitting v (true, some err) s p = fail-IsEmitting err s p
  value-IsEmitting v (false, some err) s p = fail-IsEmitting err s p
  value-IsEmitting v (true, none) s p = schedule-IsEmitting _
  value-IsEmitting v (false, none) s p = p

  unwatch-IsEmitting :
      (o : Option ℕ) (s : WatchState)
      → IsEmitting wait_idle s
      → IsEmitting wait_idle (unwatch_value wait_idle o s)
  unfolding unwatch_value
  unwatch-IsEmitting none s p = p
  unwatch-IsEmitting (some i) s p = schedule-IsEmitting _

  idle-IsEmitting :
      (is_idle : Bool) (errs : List (Option ℕ)) (s : WatchState)
      → IsEmitting wait_idle s
      → IsEmitting wait_idle (watch_idle is_idle errs s)
  unfolding watch_idle emit_now snapshot
  idle-IsEmitting is_idle errs s p = elim (Bool-cases (errors_equal s.res_err errs)) [
    | inr changed ↦ rw changed (pending-IsEmitting _ refl)
    | inl same ↦ elim (Bool-cases (not s.idle && is_idle && not s.emitted_once)) [
      | inl first ↦ rw same (rw first (pending-IsEmitting _ refl))
      | inr other ↦ rw same (rw other (record { shows = λ a b c. p.shows a b c }))
    ]
  ]

  look-same :
      (callback : List Emission → Emission → Bool) (s : WatchState)
      → s.stopped ≡ false
      → s.pending_emit ≡ false
      → watch_look callback s ≡ s
  unfolding watch_look
  look-same callback s runs quiet = ground arith

  look-IsEmitting :
      (callback : List Emission → Emission → Bool) (s : WatchState)
      → IsEmitting wait_idle s
      → IsEmitting wait_idle (watch_look callback s)
  unfolding watch_look snapshot
  look-IsEmitting callback s p = elim (Bool-cases s.stopped) [
    | inl ended ↦ rw ended (record { shows = λ a b c. false_true (sym a) })
    | inr runs ↦ elim (Bool-cases s.pending_emit) [
      | inl pends ↦ rw runs (rw pends (record { shows = λ a b c. refl }))
      | inr quiet ↦ subst (IsEmitting wait_idle) (sym (look-same callback s runs quiet)) p
    ]
  ]

  look-pending :
      (callback : List Emission → Emission → Bool) (s : WatchState)
      → (watch_look callback s).stopped ≡ false
      → (watch_look callback s).pending_emit ≡ false
  unfolding watch_look
  look-pending callback s runs = ground arith

  module _ (is_t : ℕ → Bool) (filter_cb : Option (ℕ → Bool × Option ℕ))
      (callback : List Emission → Emission → Bool) where
    event-IsEmitting :
        (ev : WatchEvent) (s : WatchState)
        → IsEmitting wait_idle s
        → IsEmitting wait_idle (watch_event is_t filter_cb wait_idle callback ev s)
    unfolding watch_event watch_step watch_done
    event-IsEmitting (handler_called (value_added v)) s p =
        elim (Bool-cases (is_t v.attached_val)) [
          | inl typed ↦ rw typed (value-IsEmitting v _ s p)
          | inr other ↦ rw other p
        ]
    event-IsEmitting (handler_called (value_removed v)) s p =
        elim (Bool-cases (is_t v.attached_val)) [
          | inl typed ↦ rw typed (unwatch-IsEmitting _ s p)
          | inr other ↦ rw other p
        ]
    event-IsEmitting (handler_called instance_disposed) s p = fail-IsEmitting _ s p
    event-IsEmitting (idle_called is_idle errs) s p = idle-IsEmitting is_idle errs s p
    event-IsEmitting looks s p = look-IsEmitting callback s p
    event-IsEmitting ctx_done s p = record { shows = λ a b c. false_true (sym a) }

    abbrev pub watched_after : List WatchEvent → WatchState
    watched_after evs = run_events (watch_event is_t filter_cb wait_idle callback) evs start

    run-IsEmitting : (evs : List WatchEvent) → IsEmitting wait_idle (watched_after evs)
    unfolding start snapshot
    run-IsEmitting evs =
        run_events-keeps _ (IsEmitting wait_idle) event-IsEmitting evs start
          (record { shows = λ a b c. refl })

    snapshot-IsEmissionOf :
        (h : List AttachedValue) (errs : List (Option ℕ)) (s : WatchState)
        → Keeps is_t filter_cb wait_idle callback h errs s
        → IsEmissionOf errs (vals_of h) (snapshot s)
    unfolding snapshot
    snapshot-IsEmissionOf h errs s p = record {
      errs_are = p.errors;
      vals_are = λ none_.
          let ok : is_empty s.res_err ≡ true = ap is_empty p.errors ∙ none_ in
          rw ok (
            subst (λ (l : List ℕ). Perm l (vals_of h)) (sym p.holds.vals_are)
              (Perm.map (λ (v : AttachedValue). v.attached_val) p.holds.same));
      no_vals = λ some_.
          let bad : is_empty s.res_err ≡ false = ap is_empty p.errors ∙ some_ in rw bad refl;
    }

    -- After any calls of the handler and of the idle callback and any looks of the goroutine,
    -- where no value is added under an id in use, each is removed as it was added, and the
    -- directive is not disposed of: a look leaves the goroutine, unless it has ended or still
    -- collects the first values, with a last emission that has the errors of the events, those
    -- last reported or else the first of the filter since, and beside no errors, up to order,
    -- the values of the type that the filter takes and that were added and not removed since,
    -- and beside errors no values.
    pub watch-emits :
        (evs : List WatchEvent)
        → IsFresh (λ id. none) (watched_calls evs)
        → (watch_look callback (watched_after evs)).stopped ≡ false
        → (not wait_idle || (watch_look callback (watched_after evs)).emitted_once) ≡ true
        → IsEmissionOf
            (errs_after is_t filter_cb [] evs)
            (vals_of (held is_t filter_cb [] (watched_calls evs)))
            (last_emission (watch_look callback (watched_after evs)).emissions)
    watch-emits evs fresh runs ready =
        let s = watched_after evs in
        subst (IsEmissionOf _ _)
          (sym (
            (look-IsEmitting callback s (run-IsEmitting evs)).shows runs ready
              (look-pending callback s runs)))
          (snapshot-IsEmissionOf _ _ _ (watched-Keeps is_t filter_cb wait_idle callback evs fresh))
