-- ===== src/Execution/Reports.antt =====
-- The reports of ExecuteController: controller/exec/exec.go.
use controllerbus.Common.{
  ℕ, zero, suc, Bool, true, false, ◌&&◌, Option, none, some, List, [], ◌∷◌, is_some, ◌≡◌, ◌≢◌, refl,
  sym, ap, ◌∙◌, inl, inr, Bool-cases, Option-cases, ==_iff, ==_refl,
}
use controllerbus.Execution.{
  ControllerStatus, status_unknown, status_configuring, status_running, status_error, status_code,
  same_status, StatusEvent, ctx_ended, sub_ctx_ended, state_added, state_removed, ExecResult,
  exec_nil, exec_canceled, exec_error, ExecState, exec_start, call_cb, handle_added, handle_removed,
  exec_event, execute_controller,
}

status_of_code : ℕ → ControllerStatus
status_of_code zero = status_unknown
status_of_code (suc zero) = status_configuring
status_of_code (suc (suc zero)) = status_running
status_of_code (suc (suc (suc n))) = status_error

code-back : (a : ControllerStatus) → status_of_code (status_code a) ≡ a
unfolding status_code status_of_code
code-back status_unknown = refl
code-back status_configuring = refl
code-back status_running = refl
code-back status_error = refl

pub same_status_eq : (a b : ControllerStatus) → same_status a b ≡ true → a ≡ b
unfolding same_status
same_status_eq a b h =
    sym (code-back a)
    ∙ ap status_of_code ((==_iff (status_code a) (status_code b)).0 h)
    ∙ code-back b

pub same_status_refl : (a : ControllerStatus) → same_status a a ≡ true
unfolding same_status
same_status_refl a = ==_refl (status_code a)

pub differs : (a b : ControllerStatus) → same_status a b ≡ false → a ≢ b
differs a b h e = cc (same_status_refl b, ap (λ (x : ControllerStatus). same_status x b) e, h)

-- The status that was reported last.
abbrev pub last_status : List ControllerStatus → ControllerStatus
last_status [] = status_unknown
last_status (st ∷ sts) = st

-- No report repeats the one before it.
abbrev pub NoRepeats : List ControllerStatus → Type 0
NoRepeats [] = Unit
NoRepeats (st ∷ sts) = (st ≢ last_status sts) × NoRepeats sts

-- Whether the function returned the error of a value.
abbrev pub returns_error : Option ExecResult → Bool
returns_error none = false
returns_error (some exec_nil) = false
returns_error (some (exec_canceled e)) = false
returns_error (some (exec_error e)) = true

pub record IsReported (s : ExecState) : Type 0 where
  pub last : last_status s.reported ≡ s.prev_state
  pub no_repeats : NoRepeats s.reported
  pub error_last : same_status s.prev_state status_error ≡ returns_error s.result

call_cb-reports :
    (st : ControllerStatus) (s : ExecState)
    → last_status s.reported ≡ s.prev_state
    → NoRepeats s.reported
    → (last_status (call_cb st s).reported ≡ st)
      × ((call_cb st s).prev_state ≡ st)
      × NoRepeats (call_cb st s).reported
unfolding call_cb
call_cb-reports st s last fresh = elim (Bool-cases (same_status st s.prev_state)) [
  | inl same ↦
      let e : s.prev_state ≡ st = sym (same_status_eq st s.prev_state same) in
      rw same (last ∙ e, e, fresh)
  | inr new ↦ rw new (refl, refl, ((λ e. differs st s.prev_state new (e ∙ last)), fresh))
]

call_cb-result : (st : ControllerStatus) (s : ExecState) → (call_cb st s).result ≡ s.result
unfolding call_cb
call_cb-result st s = elim (Bool-cases (same_status st s.prev_state)) [
  | inl same ↦ rw same refl
  | inr new ↦ rw new refl
]

-- A report that is no error, or is one with which the function returns.
reports :
    (st : ControllerStatus) (r : Option ExecResult) (s : ExecState)
    → IsReported s
    → same_status st status_error ≡ returns_error r
    → IsReported (record (call_cb st s) { result = r })
reports st r s p same =
    let (last, now, fresh) = call_cb-reports st s p.last p.no_repeats in
    record {
      last = last ∙ sym now;
      no_repeats = fresh;
      error_last = ap (λ (x : ControllerStatus). same_status x status_error) now ∙ same;
    }

goes_on :
    (st : ControllerStatus) (s : ExecState)
    → IsReported s
    → s.result ≡ none
    → same_status st status_error ≡ false
    → IsReported (call_cb st s)
goes_on st s p running other =
    let (last, now, fresh) = call_cb-reports st s p.last p.no_repeats in
    record {
      last = last ∙ sym now;
      no_repeats = fresh;
      error_last =
          ap (λ (x : ControllerStatus). same_status x status_error) now
          ∙ other
          ∙ sym (ap returns_error (call_cb-result st s ∙ running));
    }

no_error : same_status status_running status_error ≡ false
unfolding same_status
no_error = refl

configuring_no_error : same_status status_configuring status_error ≡ false
unfolding same_status
configuring_no_error = refl

ended :
    (s : ExecState) (r : ExecResult)
    → IsReported s
    → s.result ≡ none
    → returns_error (some r) ≡ false
    → IsReported (record s { result = some r })
ended s r p running other = record {
  last = p.last;
  no_repeats = p.no_repeats;
  error_last = p.error_last ∙ ap returns_error running ∙ sym other;
}

exec_event-IsReported :
    (e : StatusEvent) (s : ExecState) → IsReported s → s.result ≡ none → IsReported (exec_event e s)
unfolding exec_event handle_added handle_removed
exec_event-IsReported ctx_ended s p running = ended s exec_nil p running refl
exec_event-IsReported (sub_ctx_ended e) s p running = ended s (exec_canceled e) p running refl
exec_event-IsReported (state_added v) s p running = elim (Option-cases v.error) [
  | inr (e, failed) ↦
      rw failed (reports status_error (some (exec_error e)) s p (same_status_refl status_error))
  | inl good ↦ rw good (elim (Bool-cases (is_some v.controller)) [
    | inl runs ↦ rw runs (goes_on status_running s p running no_error)
    | inr waits ↦ rw waits (goes_on status_configuring s p running configuring_no_error)
  ])
]
exec_event-IsReported (state_removed v) s p running =
    elim (Bool-cases (is_some v.controller && same_status s.prev_state status_running)) [
      | inl shown ↦ rw shown (goes_on status_configuring s p running configuring_no_error)
      | inr hidden ↦ rw hidden p
    ]

pub some-false : {A : Type 0} (o : Option A) → is_some o ≡ false → o ≡ none
some-false none e = refl
some-false (some a) e = cc

loop-IsReported :
    (es : List StatusEvent) (s : ExecState) → IsReported s → IsReported (execute_controller es s)
unfolding execute_controller
loop-IsReported [] s p = p
loop-IsReported (e ∷ es) s p = elim (Bool-cases (is_some s.result)) [
  | inl over ↦ rw over p
  | inr running ↦
      let next = exec_event-IsReported e s p (some-false s.result running) in
      rw running (loop-IsReported es (exec_event e s) next)
]

-- After any events, the status kept is the one that the callback was told last, no call repeats
-- the status of the one before it, none tells UNKNOWN first, and the status is ERROR just when
-- the function has returned the error of a value.
pub execute_controller-IsReported :
    (es : List StatusEvent) → IsReported (execute_controller es exec_start)
unfolding exec_start same_status
execute_controller-IsReported es =
    loop-IsReported es exec_start (record { last = refl; no_repeats = tt; error_last = refl })
