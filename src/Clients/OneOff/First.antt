-- ===== src/Clients/OneOff/First.antt =====
-- ExecOneOffWithFilter of bus/oneoff.go: which value it returns, and when it gives up.
use controllerbus.Common.{
  ℕ, Bool, true, false, not, ◌&&◌, Option, none, some, List, [], ◌∷◌, ◌++◌, if◌then◌else◌, ◌≡◌,
  refl, ◌∙◌, inl, inr, Bool-cases, Option-cases, arith, All,
}
use controllerbus.Instance.State.{AttachedValue}
use controllerbus.Clients.{ClientEvent, value_added, value_removed, instance_disposed}
use controllerbus.Clients.OneOff.{
  ExecIdleCallback, FilterCallback, OneOffState, OneOffResult, OneOffEvent, returns_value, releases,
  handler_called, idle_called, looks, ctx_done, start, first_error, return_when_idle, idle_callback,
  apply_filter, take_value, call_dispose, is_selected, one_off_step, one_off_idle, one_off_look,
  exec_one_off_with_filter,
}

-- The events before the loop looks, one after the other.
abbrev pub one_off_event :
    Option FilterCallback → Option ExecIdleCallback → Bool → OneOffEvent → OneOffState → OneOffState
one_off_event filter_cb idle_cb has_dispose (handler_called ev) s =
    one_off_step filter_cb has_dispose ev s
one_off_event filter_cb idle_cb has_dispose (idle_called is_idle errs) s =
    one_off_idle (idle_callback idle_cb) is_idle errs s
one_off_event filter_cb idle_cb has_dispose looks s = s
one_off_event filter_cb idle_cb has_dispose ctx_done s = s

-- The first value that is added and that the filter takes.
abbrev pub first_taken : FilterCallback → List OneOffEvent → Option AttachedValue
first_taken filter [] = none
first_taken filter (handler_called (value_added v) ∷ evs) =
    let rest = first_taken filter evs in if (filter v).0 then some v else rest
first_taken filter (handler_called _ ∷ evs) = first_taken filter evs
first_taken filter (_ ∷ evs) = first_taken filter evs

-- Nothing that happens before the value is taken is an error.
abbrev pub IsSmooth : FilterCallback → ExecIdleCallback → OneOffEvent → Type 0
IsSmooth filter cb (handler_called (value_added v)) = (filter v).1 ≡ none
IsSmooth filter cb (handler_called (value_removed v)) = Unit
IsSmooth filter cb (handler_called instance_disposed) = ⊥
IsSmooth filter cb (idle_called is_idle errs) =
    ((cb is_idle errs).1 ≡ none) × ((is_idle && not (cb is_idle errs).0) ≡ false)
IsSmooth filter cb looks = Unit
IsSmooth filter cb ctx_done = ⊥

pair-eq : (p : Bool × Option ℕ) {b : Bool} {o : Option ℕ} → p.0 ≡ b → p.1 ≡ o → p ≡ (b, o)
pair-eq p e h = cc

-- The result of a look that finds a value, or the wait for one.
abbrev pub returned : Option AttachedValue → Option OneOffResult
returned none = none
returned (some v) = some (returns_value v)

module _ (filter_cb : Option FilterCallback) (idle_cb : Option ExecIdleCallback)
    (has_dispose : Bool) where
  look_waits-exec :
      (evs : List OneOffEvent) (s : OneOffState)
      → one_off_look s ≡ none
      → exec_one_off_with_filter filter_cb idle_cb has_dispose (looks ∷ evs) s
        ≡ exec_one_off_with_filter filter_cb idle_cb has_dispose evs s
  unfolding exec_one_off_with_filter
  look_waits-exec evs s e = rw (e, exec_one_off_with_filter) refl

  look_returns-exec :
      (evs : List OneOffEvent) (s : OneOffState) (r : OneOffResult)
      → one_off_look s ≡ some r
      → exec_one_off_with_filter filter_cb idle_cb has_dispose (looks ∷ evs) s ≡ some r
  unfolding exec_one_off_with_filter
  look_returns-exec evs s r e = rw (e, exec_one_off_with_filter) refl

  abbrev pub exec : List OneOffEvent → OneOffState → Option OneOffResult
  exec = exec_one_off_with_filter filter_cb idle_cb has_dispose

  abbrev pub Smooth : List OneOffEvent → Type 0
  Smooth = All (IsSmooth (apply_filter filter_cb) (idle_callback idle_cb))

  step-val :
      (ev : ClientEvent) (s : OneOffState) (v : AttachedValue)
      → s.val ≡ some v
      → (one_off_step filter_cb has_dispose ev s).val ≡ some v
  unfolding one_off_step call_dispose
  step-val (value_added w) s v e = rw e refl
  step-val (value_removed w) s v e = ground arith
  step-val instance_disposed s v e = ground arith

  -- A value that was taken is the one that is returned.
  taken-returned :
      (evs : List OneOffEvent) (s : OneOffState) (v : AttachedValue)
      → s.val ≡ some v
      → Smooth evs
      → exec (evs ++ looks ∷ []) s ≡ some (returns_value v)
  unfolding exec_one_off_with_filter one_off_look one_off_idle
  taken-returned [] s v e h = rw e refl
  taken-returned (handler_called ev ∷ evs) s v e h = taken-returned evs _ v (step-val ev s v e) h.1
  taken-returned (idle_called is_idle errs ∷ evs) s v e h = taken-returned evs _ v e h.1
  taken-returned (looks ∷ evs) s v e h = rw e refl
  taken-returned (ctx_done ∷ evs) s v e h = absurd h.0

  record IsWaiting (s : OneOffState) : Type 0 where
    no_val : s.val ≡ none
    no_err : s.res_err ≡ none
    waits : (s.idle && not s.wait) ≡ false

  look-waits : (s : OneOffState) → IsWaiting s → one_off_look s ≡ none
  unfolding one_off_look
  look-waits s w = rw w.no_val (rw w.no_err (rw w.waits refl))

  added-IsWaiting :
      (v : AttachedValue) (s : OneOffState)
      → IsWaiting s
      → (apply_filter filter_cb v) ≡ (false, none)
      → IsWaiting (one_off_step filter_cb has_dispose (value_added v) s)
  unfolding one_off_step take_value
  added-IsWaiting v s w e =
      rw w.no_val (rw w.no_err (rw e (record { no_val = refl; no_err = refl; waits = w.waits })))

  added-taken :
      (v : AttachedValue) (s : OneOffState)
      → IsWaiting s
      → (apply_filter filter_cb v) ≡ (true, none)
      → (one_off_step filter_cb has_dispose (value_added v) s).val ≡ some v
  unfolding one_off_step take_value
  added-taken v s w e = rw w.no_val (rw w.no_err (rw e refl))

  call_dispose-IsWaiting : (b : Bool) (s : OneOffState) → IsWaiting s → IsWaiting (call_dispose b s)
  unfolding call_dispose
  call_dispose-IsWaiting true s w = record { no_val = w.no_val; no_err = w.no_err; waits = w.waits }
  call_dispose-IsWaiting false s w = w

  removed-IsWaiting :
      (v : AttachedValue) (s : OneOffState)
      → IsWaiting s
      → IsWaiting (one_off_step filter_cb has_dispose (value_removed v) s)
  unfolding one_off_step
  removed-IsWaiting v s w = call_dispose-IsWaiting (has_dispose && is_selected v s.val) s w

  waiting-first :
      (evs : List OneOffEvent) (s : OneOffState)
      → IsWaiting s
      → Smooth evs
      → exec (evs ++ looks ∷ []) s ≡ returned (first_taken (apply_filter filter_cb) evs)
  unfolding exec_one_off_with_filter one_off_idle
  waiting-first [] s w h = look_waits-exec [] s (look-waits s w)
  waiting-first (handler_called (value_added v) ∷ evs) s w h =
      elim (Bool-cases (apply_filter filter_cb v).0) [
        | inl ok ↦ rw ok (taken-returned evs _ v (added-taken v s w (pair-eq _ ok h.0)) h.1)
        | inr not_ok ↦
            rw not_ok (waiting-first evs _ (added-IsWaiting v s w (pair-eq _ not_ok h.0)) h.1)
      ]
  waiting-first (handler_called (value_removed v) ∷ evs) s w h =
      waiting-first evs _ (removed-IsWaiting v s w) h.1
  waiting-first (handler_called instance_disposed ∷ evs) s w h = absurd h.0
  waiting-first (idle_called is_idle errs ∷ evs) s w h =
      waiting-first evs _ (record { no_val = w.no_val; no_err = h.0.0; waits = h.0.1 }) h.1
  waiting-first (looks ∷ evs) s w h =
      look_waits-exec (evs ++ looks ∷ []) s (look-waits s w) ∙ waiting-first evs s w h.1
  waiting-first (ctx_done ∷ evs) s w h = absurd h.0

  -- Where no filter or idle callback returns an error or asks to stop, the directive is not
  -- disposed of and the context does not end, the function returns, when the loop has looked
  -- last, the first value that was added and that the filter takes, and waits if there is none,
  -- wherever else the loop looks.
  pub one_off-first :
      (evs : List OneOffEvent)
      → Smooth evs
      → exec (evs ++ looks ∷ []) start ≡ returned (first_taken (apply_filter filter_cb) evs)
  unfolding start
  one_off-first evs h =
      waiting-first evs start (record { no_val = refl; no_err = refl; waits = refl }) h

idle-looks :
    (errs : List (Option ℕ)) (s : OneOffState)
    → (r : OneOffResult) × (one_off_look (one_off_idle return_when_idle true errs s) ≡ some r)
unfolding one_off_look one_off_idle return_when_idle
idle-looks errs s = elim (Option-cases s.val) [
  | inr (v, taken) ↦ (returns_value v, rw taken refl)
  | inl no_val ↦ elim (Option-cases (first_error errs)) [
    | inl no_err ↦ (releases none, rw no_val (rw no_err refl))
    | inr (err, failed) ↦ (releases (some err), rw no_val (rw failed refl))
  ]
]

-- With the callback ReturnWhenIdle, from any state and after any events, a report that the
-- directive is idle followed by a look of the loop leaves no wait: the function has returned.
pub return_when_idle-returns :
    (filter_cb : Option FilterCallback) (has_dispose : Bool) (evs rest : List OneOffEvent)
    → (errs : List (Option ℕ)) (s : OneOffState)
    → (r : OneOffResult) × (exec_one_off_with_filter filter_cb
          (some return_when_idle)
          has_dispose
          (evs ++ idle_called true errs ∷ looks ∷ rest)
          s
        ≡ some r)
unfolding exec_one_off_with_filter idle_callback
return_when_idle-returns filter_cb has_dispose [] rest errs s =
    let (r, found) = idle-looks errs s in
    (r, look_returns-exec filter_cb (some return_when_idle) has_dispose rest _ r found)
return_when_idle-returns filter_cb has_dispose (handler_called ev ∷ evs) rest errs s =
    return_when_idle-returns filter_cb has_dispose evs rest errs _
return_when_idle-returns filter_cb has_dispose (idle_called is_idle errs' ∷ evs) rest errs s =
    return_when_idle-returns filter_cb has_dispose evs rest errs _
return_when_idle-returns filter_cb has_dispose (looks ∷ evs) rest errs s =
    elim (Option-cases (one_off_look s)) [
      | inr (r, found) ↦ (
        r,
        look_returns-exec filter_cb (some return_when_idle) has_dispose
            (evs ++ idle_called true errs ∷ looks ∷ rest) s r found,
      )
      | inl waits ↦
          let (r, later) = return_when_idle-returns filter_cb has_dispose evs rest errs s in
          (
            r,
            look_waits-exec filter_cb (some return_when_idle) has_dispose
                  (evs ++ idle_called true errs ∷ looks ∷ rest) s waits
                ∙ later,
          )
    ]
return_when_idle-returns filter_cb has_dispose (ctx_done ∷ evs) rest errs s = (_, refl)
