-- ===== src/Clients/CollectWatch/Held.antt =====
-- ExecCollectValuesWatchWithFilter of bus/multi.go: the values and the errors against those that the
-- events leave. The values are kept as ExecCollectValuesWithFilter keeps them.
use controllerbus.Common.{
  ℕ, Bool, true, false, not, ◌&&◌, ◌||◌, Option, none, some, List, [], ◌∷◌, is_empty, if◌then◌else◌,
  ◌≡◌, refl, ap, ==_iff, inl, inr, Bool-cases, arith,
}
use controllerbus.Instance.State.{AttachedValue}
use controllerbus.Clients.{ClientEvent, value_added, value_removed, instance_disposed}
use controllerbus.Clients.OneOff.{err_directive_disposed}
use controllerbus.Clients.Collect.{
  CollectState, filter_value, collect_value, remove_collected, fail_collect,
}
use controllerbus.Clients.CollectWatch.{
  Emission, WatchState, WatchEvent, error_equal, errors_equal, handler_called, idle_called, looks,
  ctx_done, emit_now, schedule_emit_if_ready, fail_watch, watch_value, unwatch_value, watch_idle,
  watch_look,
}

-- The slices of the values and their ids, as the state that collects them once.
abbrev pub slices : WatchState → CollectState
slices s = record {
  vals = s.vals;
  val_ids = s.val_ids;
  res_err = none;
  idle = false;
  returned = false;
  disposed = false;
  dispose_calls = 0;
}

-- The calls of the handler among the events.
abbrev pub watched_calls : List WatchEvent → List ClientEvent
watched_calls [] = []
watched_calls (handler_called ev ∷ evs) = ev ∷ watched_calls evs
watched_calls (idle_called is_idle errs ∷ evs) = watched_calls evs
watched_calls (looks ∷ evs) = watched_calls evs
watched_calls (ctx_done ∷ evs) = watched_calls evs

-- An error beside those that there are: only the first is kept.
abbrev pub first_failure : List (Option ℕ) → ℕ → List (Option ℕ)
first_failure errs err = if is_empty errs then some err ∷ [] else errs

abbrev pub filter_failure : List (Option ℕ) → Bool × Option ℕ → List (Option ℕ)
filter_failure errs (ok, none) = errs
filter_failure errs (ok, some err) = first_failure errs err

module _ (is_t : ℕ → Bool) (filter_cb : Option (ℕ → Bool × Option ℕ)) where
  -- The errors that the events leave: those of the last call of the idle callback, or else the first
  -- one of the filter or of the disposal since.
  abbrev pub errs_after : List (Option ℕ) → List WatchEvent → List (Option ℕ)
  errs_after errs [] = errs
  errs_after errs (handler_called (value_added v) ∷ evs) =
      errs_after
        (if is_t v.attached_val
          then filter_failure errs (filter_value filter_cb v.attached_val)
          else errs)
        evs
  errs_after errs (handler_called (value_removed v) ∷ evs) = errs_after errs evs
  errs_after errs (handler_called instance_disposed ∷ evs) =
      errs_after (first_failure errs err_directive_disposed) evs
  errs_after errs (idle_called is_idle errs' ∷ evs) = errs_after errs' evs
  errs_after errs (looks ∷ evs) = errs_after errs evs
  errs_after errs (ctx_done ∷ evs) = errs_after errs evs

false_true {ℓ} : {C : Type ℓ} → false ≡ true → C
false_true e = cc

error_equal-eq : (a b : Option ℕ) → error_equal a b ≡ true → a ≡ b
unfolding error_equal
error_equal-eq none none h = refl
error_equal-eq none (some b) h = cc
error_equal-eq (some a) none h = cc
error_equal-eq (some a) (some b) h = ap some ((==_iff a b).0 h)

errors_equal-eq : (xs ys : List (Option ℕ)) → errors_equal xs ys ≡ true → xs ≡ ys
unfolding errors_equal
errors_equal-eq [] [] h = refl
errors_equal-eq [] (y ∷ ys) h = cc
errors_equal-eq (x ∷ xs) [] h = cc
errors_equal-eq (x ∷ xs) (y ∷ ys) h = elim (Bool-cases (error_equal x y)) [
  | inr differ ↦ false_true (rw differ at h)
  | inl same ↦ cc (error_equal-eq x y same, errors_equal-eq xs ys (rw same at h))
]

schedule-slices : (w : Bool) (s : WatchState) → slices (schedule_emit_if_ready w s) ≡ slices s
unfolding schedule_emit_if_ready emit_now
schedule-slices w s = elim (Bool-cases (not w || s.emitted_once)) [
  | inl ready ↦ rw ready refl
  | inr waits ↦ rw waits refl
]

schedule-res_err : (w : Bool) (s : WatchState) → (schedule_emit_if_ready w s).res_err ≡ s.res_err
unfolding schedule_emit_if_ready emit_now
schedule-res_err w s = ground arith

fail-slices : (err : ℕ) (s : WatchState) → slices (fail_watch err s) ≡ slices s
unfolding fail_watch emit_now
fail-slices err s = elim (Bool-cases (is_empty s.res_err)) [
  | inl first ↦ rw first refl
  | inr other ↦ rw other refl
]

pub fail-res_err :
    (err : ℕ) (s : WatchState) → (fail_watch err s).res_err ≡ first_failure s.res_err err
unfolding fail_watch emit_now
fail-res_err err s = elim (Bool-cases (is_empty s.res_err)) [
  | inl first ↦ rw first refl
  | inr other ↦ rw other refl
]

-- Both functions keep the slices in the same way.
abbrev pub Alike : CollectState → CollectState → Type 0
Alike s t = (t.vals ≡ s.vals) × (t.val_ids ≡ s.val_ids) × (t.returned ≡ s.returned)

same-Alike : {s t : CollectState} → t ≡ s → Alike s t
same-Alike e = (
  ap (λ (x : CollectState). x.vals) e,
  ap (λ (x : CollectState). x.val_ids) e,
  ap (λ (x : CollectState). x.returned) e,
)

pub value-Alike :
    (w : Bool) (v : AttachedValue) (r : Bool × Option ℕ) (s : WatchState)
    → Alike (collect_value v r (slices s)) (slices (watch_value w v r s))
unfolding watch_value collect_value fail_collect
value-Alike w v (true, some err) s = (
  ap (λ (x : CollectState). x.vals) (fail-slices err s),
  ap (λ (x : CollectState). x.val_ids) (fail-slices err s),
  refl,
)
value-Alike w v (false, some err) s = (
  ap (λ (x : CollectState). x.vals) (fail-slices err s),
  ap (λ (x : CollectState). x.val_ids) (fail-slices err s),
  refl,
)
value-Alike w v (true, none) s = same-Alike (schedule-slices w _)
value-Alike w v (false, none) s = (refl, refl, refl)

pub removed-Alike :
    (w : Bool) (o : Option ℕ) (s : WatchState)
    → Alike (remove_collected o (slices s)) (slices (unwatch_value w o s))
unfolding unwatch_value remove_collected
removed-Alike w none s = (refl, refl, refl)
removed-Alike w (some i) s = same-Alike (schedule-slices w _)

pub value-res_err :
    (w : Bool) (v : AttachedValue) (r : Bool × Option ℕ) (s : WatchState)
    → (watch_value w v r s).res_err ≡ filter_failure s.res_err r
unfolding watch_value
value-res_err w v (true, some err) s = fail-res_err err s
value-res_err w v (false, some err) s = fail-res_err err s
value-res_err w v (true, none) s = schedule-res_err w _
value-res_err w v (false, none) s = refl

pub removed-res_err :
    (w : Bool) (o : Option ℕ) (s : WatchState) → (unwatch_value w o s).res_err ≡ s.res_err
unfolding unwatch_value
removed-res_err w none s = refl
removed-res_err w (some i) s = schedule-res_err w _

pub idle-slices :
    (is_idle : Bool) (errs : List (Option ℕ)) (s : WatchState)
    → slices (watch_idle is_idle errs s) ≡ slices s
unfolding watch_idle emit_now
idle-slices is_idle errs s = elim (Bool-cases (errors_equal s.res_err errs)) [
  | inr changed ↦ rw changed refl
  | inl same ↦ elim (Bool-cases (not s.idle && is_idle && not s.emitted_once)) [
    | inl first ↦ rw same (rw first refl)
    | inr other ↦ rw same (rw other refl)
  ]
]

pub idle-res_err :
    (is_idle : Bool) (errs : List (Option ℕ)) (s : WatchState)
    → (watch_idle is_idle errs s).res_err ≡ errs
unfolding watch_idle emit_now
idle-res_err is_idle errs s = elim (Bool-cases (errors_equal s.res_err errs)) [
  | inr changed ↦ rw changed refl
  | inl same ↦ elim (Bool-cases (not s.idle && is_idle && not s.emitted_once)) [
    | inl first ↦ rw same (rw first (errors_equal-eq s.res_err errs same))
    | inr other ↦ rw same (rw other (errors_equal-eq s.res_err errs same))
  ]
]

pub look-slices :
    (callback : List Emission → Emission → Bool) (s : WatchState)
    → slices (watch_look callback s) ≡ slices s
unfolding watch_look
look-slices callback s = elim (Bool-cases s.stopped) [
  | inl ended ↦ rw ended refl
  | inr runs ↦ elim (Bool-cases s.pending_emit) [
    | inl pends ↦ rw runs (rw pends refl)
    | inr quiet ↦ rw runs (rw quiet refl)
  ]
]

pub look-res_err :
    (callback : List Emission → Emission → Bool) (s : WatchState)
    → (watch_look callback s).res_err ≡ s.res_err
unfolding watch_look
look-res_err callback s = ground arith
