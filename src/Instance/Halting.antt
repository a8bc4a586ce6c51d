-- ===== src/Instance/Halting.antt =====
-- That the calls end: the loop over the callback queue, and the loops that remove resolvers.
pub mod Idle
pub mod Removal
pub mod Listed
pub mod Owners
pub mod Owned
use controllerbus.Common.{
  ℕ, zero, suc, ◌≤◌, ◌<◌, ◌≡◌, refl, sym, subst, ap, inl, inr, Bool-cases, Bool, true, false, not,
  ◌&&◌, ◌||◌, Option, none, some, List, [], ◌∷◌, ◌++◌, length, is_empty, arith, without,
}
use controllerbus.Common.Exec.{Total, gets, modify, skip, when, ◌>>=◌}
use controllerbus.Common.Exec.Rules.{
  >>=-some, Total-modify, Total-bind, Total-skip, Total-when, Total-on_option, total_rules,
}
use controllerbus.Instance.State.{
  Instance, Callback, CallbackEvent, Execution, Value, call_func, handle_value_added,
  handle_instance_disposed, call_idle, call_state, removed_value,
}
use controllerbus.Instance.Callbacks.{
  Outside, call, drain, run_queue, call_callback_events_locked, new_pointer,
}

-- Nothing is queued, the flag is as given, there are at most `n` resolvers, and the instance is
-- released if `gone` says so.
abbrev pub Quiet : Bool → Bool → ℕ → Instance → Type 0
Quiet calling gone n s =
    (s.ref_cbs ≡ [])
    × (s.calling_ref_cbs ≡ calling)
    × (length s.resolvers ≤ n)
    × (gone ≡ true → s.released ≡ true)

-- Callbacks that return, call for no other callback and attach no resolver, and at least one round.
pub record IsQuiet (out : Outside) : Type 0 where
  pub returns :
      (calling g : Bool) (n : ℕ) (e : CallbackEvent) → Total (Quiet calling g n) (out.invoke e)
  pub has_round : 0 < out.fuel

module _ (out : Outside) (quiet : IsQuiet out) (g : Bool) (n : ℕ) where
  invoke-Total : (calling : Bool) (e : CallbackEvent) → Total (Quiet calling g n) (out.invoke e)
  invoke-Total calling e = quiet.returns calling g n e

  call-Total : (e : CallbackEvent) → Total (Quiet true g n) (call out e)
  unfolding call
  call-Total (call_func f) = search invoke-Total
  call-Total (handle_value_added h v) = search invoke-Total
  call-Total (handle_instance_disposed h) = search invoke-Total
  call-Total (call_idle f is_idle errs) = search (total_rules, invoke-Total) depth 12
  call-Total (call_state f st) = search (total_rules, invoke-Total) depth 12
  call-Total (removed_value ref v) = search (total_rules, invoke-Total) depth 12

  drain-nil : (rounds : ℕ) (s : Instance) → drain out rounds [] s ≡ some (tt, s)
  unfolding drain skip
  drain-nil zero s = refl
  drain-nil (suc rounds) s = refl

  -- After a round of such callbacks the queue is empty.
  drain-Total :
      (rounds : ℕ) (es : List CallbackEvent)
      → 0 < rounds
      → Total (Quiet true g n) (drain out rounds es)
  unfolding drain gets modify ◌>>=◌
  drain-Total zero es h = elim h [ ]
  drain-Total (suc rounds) [] h = search total_rules
  drain-Total (suc rounds) (e ∷ es) h =
      Total-bind _ _ (search (total_rules, call-Total) depth 12) λ _. record {
        at = λ s p.
            let t = record s { ref_cbs = [] } in
            (
              (tt, t),
              subst (λ (l : List CallbackEvent). drain out rounds l t ≡ some (tt, t)) (sym p.0)
                  (drain-nil rounds t),
              (refl, p.1, p.2, p.3),
            );
      }

  run_queue-ends :
      (s : Instance)
      → length s.resolvers ≤ n
      → (g ≡ true → s.released ≡ true)
      → (r : Unit {0} × Instance) × (run_queue out s ≡ some r) × Quiet false g n r.1
  unfolding run_queue gets modify ◌>>=◌
  run_queue-ends s le since =
      let t = record s { calling_ref_cbs = true; ref_cbs = [] } in
      let (r, run, q) =
        (drain-Total out.fuel s.ref_cbs quiet.has_round).at t (refl, refl, le, since) in
      (
        (tt, record r.1 { calling_ref_cbs = false }),
        >>=-some (drain out out.fuel s.ref_cbs) _ t r _ run refl,
        (q.0, refl, q.2, q.3),
      )

  pub call_events-Total :
      (es : List CallbackEvent) → Total (Quiet false g n) (call_callback_events_locked out es)
  unfolding call_callback_events_locked gets modify skip when ◌>>=◌
  call_events-Total es = record {
    at = λ s p. elim (Bool-cases (not (is_empty (es ++ s.ref_cbs)))) [
      | inr e ↦ ((tt, s), rw e, p)
      | inl e ↦
          let t = record s { ref_cbs = s.ref_cbs ++ es } in
          let (r, run, q) = run_queue-ends t p.2 p.3 in
          (r, rw e (subst (λ (b : Bool). when (not b) (run_queue out) t ≡ some r) (sym p.1) run), q)
    ];
  }
