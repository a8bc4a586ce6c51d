-- ===== src/Loader/Closing.antt =====
-- controller/loader/loader-resolve.go closes every controller that it constructs, once.
use controllerbus.Common.{
  ℕ, Bool, true, false, ◌&&◌, Option, none, some, List, [], ◌∷◌, ◌==◌, without, ◌≡◌, refl, sym, ap,
  ◌∙◌, inl, inr, Bool-cases, Option-cases, arith,
}
use controllerbus.Loader.{
  LoaderState, LoaderResult, ExecControllerValue, Attempt, Constructed, construct_fails,
  constructs_nil, constructs, fails, completes, err_canceled, start, add_value, remove_value,
  clear_values, close_ci, remove_controller, value_removed, wait_backoff, back_off,
  execute_controller, set_last_err, run_controller, finish_run, construct_and_run, proceed,
  ensure_and_run, resolve_round, resolve,
}

abbrev pub listed : Option ℕ → List ℕ
listed none = []
listed (some c) = c ∷ []

-- While it goes on, the controller that there is has not been closed; when it has failed, what was
-- built is closed; when it has completed, the callback that is left closes it.
abbrev pub Accounts : Option LoaderResult → LoaderState → Type 0
Accounts none s = (s.built ≡ listed s.ci) × (s.closed ≡ []) × (s.on_bus ≡ [])
Accounts (some (fails err)) s = (s.closed ≡ s.built) × (s.on_bus ≡ [])
Accounts (some (completes vid)) s =
    (s.closed ≡ [])
    × ((value_removed s).closed ≡ s.built)
    × ((value_removed s).on_bus ≡ [])
    × (s.built ≡ listed s.ci)

close_ci-Accounts :
    (err : ℕ) (s : LoaderState) → Accounts none s → Accounts (some (fails err)) (close_ci s)
unfolding close_ci
close_ci-Accounts err s p = elim (Option-cases s.ci) [
  | inl none_ ↦ rw none_ (p.1 ∙ sym (p.0 ∙ ap listed none_), p.2)
  | inr (c, there) ↦ rw there (ap (λ (l : List ℕ). c ∷ l) p.1 ∙ sym (p.0 ∙ ap listed there), p.2)
]

-- What Accounts says of a state whose values alone differ.
same_but_vals :
    (s t : LoaderState)
    → t.ci ≡ s.ci
    → t.built ≡ s.built
    → t.closed ≡ s.closed
    → t.on_bus ≡ s.on_bus
    → Accounts none s
    → Accounts none t
same_but_vals s t a b c d p = (b ∙ p.0 ∙ ap listed (sym a), c ∙ p.1, d ∙ p.2)

add_value-Accounts :
    (ok : Bool) (v : ExecControllerValue) (s : LoaderState)
    → Accounts none s
    → Accounts none (add_value ok v s).1
unfolding add_value
add_value-Accounts true v s p = p
add_value-Accounts false v s p = p

remove_value-Accounts :
    (vid : Option ℕ) (s : LoaderState) → Accounts none s → Accounts none (remove_value vid s)
unfolding remove_value
remove_value-Accounts none s p = p
remove_value-Accounts (some vid) s p = p

wait_backoff-Accounts :
    (a : Attempt) (err duration : ℕ) (s : LoaderState)
    → Accounts none s
    → Accounts (wait_backoff a err duration s).0 (wait_backoff a err duration s).1
unfolding wait_backoff
wait_backoff-Accounts a err duration s p =
    let q =
      add_value-Accounts a.accepts_waiting
        (record { retry_after = some duration; exec_controller = none; exec_error = some err }) s
        p in
    elim (Bool-cases a.canceled_waiting) [
      | inl canceled ↦ rw canceled (close_ci-Accounts err_canceled _ q)
      | inr timer ↦ rw timer (remove_value-Accounts _ _ q)
    ]

back_off-Accounts :
    (a : Attempt) (s : LoaderState) → Accounts none s → Accounts (back_off a s).0 (back_off a s).1
unfolding back_off
back_off-Accounts a s p = elim (Option-cases s.last_err) [
  | inl first ↦ rw first p
  | inr (err, failed) ↦ elim (Option-cases a.next_backoff) [
    | inl stop ↦ rw failed (rw stop (close_ci-Accounts err _ p))
    | inr (duration, next) ↦ elim (Bool-cases (duration == 0)) [
      | inl at_once ↦ rw failed (rw next (rw at_once p))
      | inr later ↦ rw failed (
          rw next (
            rw later
              (wait_backoff-Accounts (record a { next_backoff = some duration }) err duration _ p)))
    ]
  ]
]

-- After an execution the controller is on the bus if it returned no error.
abbrev executed : Option ℕ → ℕ → List ℕ
executed none c = c ∷ []
executed (some err) c = []

abbrev IsExecuted : Option ℕ → ℕ → LoaderState → Type 0
IsExecuted e c s =
    (s.ci ≡ some c) × (s.built ≡ c ∷ []) × (s.closed ≡ []) × (s.on_bus ≡ executed e c)

shown-IsExecuted :
    (ok : Bool) (v : ExecControllerValue) (e : Option ℕ) (c : ℕ) (s : LoaderState)
    → s.ci ≡ some c
    → Accounts none s
    → IsExecuted e c (execute_controller e c (add_value ok v s).1)
unfolding add_value execute_controller
shown-IsExecuted true v none c s there p =
    (there, p.0 ∙ ap listed there, p.1, ap (λ (l : List ℕ). c ∷ l) p.2)
shown-IsExecuted false v none c s there p =
    (there, p.0 ∙ ap listed there, p.1, ap (λ (l : List ℕ). c ∷ l) p.2)
shown-IsExecuted true v (some err) c s there p = (there, p.0 ∙ ap listed there, p.1, p.2)
shown-IsExecuted false v (some err) c s there p = (there, p.0 ∙ ap listed there, p.1, p.2)

set_last_err-IsExecuted :
    (b : Bool) (o e : Option ℕ) (c : ℕ) (s : LoaderState)
    → IsExecuted e c s
    → IsExecuted e c (set_last_err b o s)
unfolding set_last_err
set_last_err-IsExecuted b none e c s p = p
set_last_err-IsExecuted b (some err) e c s p = elim (Bool-cases (b && (err == err_canceled))) [
  | inl canceled ↦ rw canceled p
  | inr other ↦ rw other p
]

without-executed : (e : Option ℕ) (c : ℕ) → without c (executed e c) ≡ []
unfolding without
without-executed none c = ground arith
without-executed (some err) c = refl

-- Taking the controller off the bus and closing it.
removed-closed :
    (e : Option ℕ) (c : ℕ) (s : LoaderState)
    → IsExecuted e c s
    → ((close_ci (remove_controller s)).closed ≡ c ∷ [])
      × ((close_ci (remove_controller s)).built ≡ c ∷ [])
      × ((close_ci (remove_controller s)).on_bus ≡ [])
unfolding close_ci remove_controller
removed-closed e c s p =
    rw p.0 (ap (λ (l : List ℕ). c ∷ l) p.2, p.1, ap (without c) p.3 ∙ without-executed e c)

finish_run-Accounts :
    (canceled : Bool) (e vid : Option ℕ) (c : ℕ) (s : LoaderState)
    → IsExecuted e c s
    → Accounts (finish_run canceled e vid s).0 (finish_run canceled e vid s).1
unfolding finish_run clear_values value_removed
finish_run-Accounts true e vid c s p =
    let (closed, built, bus) = removed-closed e c (clear_values s) p in (closed ∙ sym built, bus)
finish_run-Accounts false (some err) vid c s p = (p.1 ∙ sym (ap listed p.0), p.2, p.3)
finish_run-Accounts false none vid c s p =
    let (closed, built, bus) = removed-closed none c s p in
    (p.2, closed ∙ sym p.1, bus, p.1 ∙ sym (ap listed p.0))

run_controller-Accounts :
    (a : Attempt) (c : ℕ) (s : LoaderState)
    → s.ci ≡ some c
    → Accounts none s
    → Accounts (run_controller a c s).0 (run_controller a c s).1
unfolding run_controller
run_controller-Accounts a c s there p = finish_run-Accounts a.ctx_canceled a.exec_err _ c _ (
    set_last_err-IsExecuted a.ctx_canceled a.exec_err a.exec_err c _
      (shown-IsExecuted a.accepts_running _ a.exec_err c s there p))

construct_and_run-Accounts :
    (a : Attempt) (k : Constructed) (s : LoaderState)
    → s.ci ≡ none
    → Accounts none s
    → Accounts (construct_and_run a k s).0 (construct_and_run a k s).1
unfolding construct_and_run
construct_and_run-Accounts a (construct_fails err) s gone p = p
construct_and_run-Accounts a constructs_nil s gone p = (p.1 ∙ sym (p.0 ∙ ap listed gone), p.2)
construct_and_run-Accounts a (constructs c) s gone p =
    run_controller-Accounts a c (record s { ci = some c; last_err = none; built = c ∷ s.built })
      refl (ap (λ (l : List ℕ). c ∷ l) (p.0 ∙ ap listed gone), p.1, p.2)

proceed-Accounts :
    (f : LoaderState → Option LoaderResult × LoaderState) (q : Option LoaderResult × LoaderState)
    → ((s : LoaderState) → Accounts none s → Accounts (f s).0 (f s).1)
    → Accounts q.0 q.1
    → Accounts (proceed f q).0 (proceed f q).1
unfolding proceed
proceed-Accounts f (some r, s) h p = p
proceed-Accounts f (none, s) h p = h s p

ensure_and_run-Accounts :
    (a : Attempt) (s : LoaderState)
    → Accounts none s
    → Accounts (ensure_and_run a s).0 (ensure_and_run a s).1
unfolding ensure_and_run
ensure_and_run-Accounts a s p = elim (Option-cases s.ci) [
  | inl gone ↦
      rw gone (construct_and_run-Accounts a a.construction _ refl (p.0 ∙ ap listed gone, p.1, p.2))
  | inr (c, there) ↦ rw there (run_controller-Accounts a c _ refl (p.0 ∙ ap listed there, p.1, p.2))
]

resolve_round-Accounts :
    (a : Attempt) (s : LoaderState)
    → Accounts none s
    → Accounts (resolve_round a s).0 (resolve_round a s).1
unfolding resolve_round clear_values
resolve_round-Accounts a s p =
    proceed-Accounts (ensure_and_run a) (back_off a (clear_values s)) (ensure_and_run-Accounts a)
      (back_off-Accounts a (clear_values s) p)

run-Accounts :
    (attempts : List Attempt) (s : LoaderState)
    → Accounts none s
    → Accounts (resolve attempts s).0 (resolve attempts s).1
unfolding resolve
run-Accounts [] s p = p
run-Accounts (a ∷ attempts) s p =
    proceed-Accounts (resolve attempts) (resolve_round a s) (run-Accounts attempts)
      (resolve_round-Accounts a s p)

-- After any rounds: while Resolve goes on, nothing was closed and at most one controller was
-- constructed, which is not on the bus; if it has returned an error, every controller
-- constructed was closed once and is off the bus; if it has returned nil, none was closed, and
-- the callback that is left closes it once and takes it off the bus.
pub resolve-Accounts :
    (attempts : List Attempt) → Accounts (resolve attempts start).0 (resolve attempts start).1
unfolding start
resolve-Accounts attempts = run-Accounts attempts start (refl, refl, refl)
