-- ===== src/ConfigController/Restarting.antt =====
-- Which config the execution of a running controller uses.
use controllerbus.Common.{
  ℕ, Option, none, some, ◌≡◌, refl, sym, ap, ◌∙◌, ◌⊎◌, inl, inr, Bool-cases, subst, some_none,
}
use controllerbus.ConfigController.{ConfigSets}
use controllerbus.ConfigController.Loop.{
  Phase, at_top, waiting, finished, ExecEvent, ctx_done, begins, begin_fails, begin_canceled,
  restart, disposed, no_value, shows_value, execute_step,
}

-- Steps of the execution at `r`, between which the other functions may change anything.
pub data ExecRun (validate : ℕ → Option ℕ) (r : ℕ) (p : Phase) : Phase → Type 0 where
  here : ExecRun validate r p p
  next :
      {q q' : Phase} (ev : ExecEvent) (s t : ConfigSets)
      → ExecRun validate r p q
      → execute_step validate r ev q s ≡ some (q', t)
      → ExecRun validate r p q'

-- The execution still has this config, or has ended.
abbrev pub StaysAt : ℕ → Phase → Type 0
StaysAt conf p = (p ≡ at_top conf) ⊎ (p ≡ waiting conf) ⊎ (p ≡ finished)

module _ (validate : ℕ → Option ℕ) (r conf err : ℕ) (invalid : validate conf ≡ some err) where
  some-phase : (o o' : Phase × ConfigSets) → some o ≡ some o' → o'.0 ≡ o.0
  some-phase o o' e = ap (λ (x : Phase × ConfigSets). x.0) (sym (some-pair e))
    where
      some-pair : some o ≡ some o' → o ≡ o'
      some-pair e = cc

  top-stays :
      (ev : ExecEvent) (s : ConfigSets) (o : Phase × ConfigSets)
      → execute_step validate r ev (at_top conf) s ≡ some o
      → StaysAt conf o.0
  unfolding execute_step
  top-stays ctx_done s o e = inr (inr (some-phase _ o e))
  top-stays begins s o e = inr (inl (some-phase _ o (rw (invalid, execute_step) at e)))
  top-stays (begin_fails x) s o e = inr (inl (some-phase _ o (rw (invalid, execute_step) at e)))
  top-stays begin_canceled s o e = inr (inl (some-phase _ o (rw (invalid, execute_step) at e)))
  top-stays restart s o e = inr (inl (some-phase _ o (rw (invalid, execute_step) at e)))
  top-stays disposed s o e = inr (inl (some-phase _ o (rw (invalid, execute_step) at e)))
  top-stays no_value s o e = inr (inl (some-phase _ o (rw (invalid, execute_step) at e)))
  top-stays (shows_value x y) s o e = inr (inl (some-phase _ o (rw (invalid, execute_step) at e)))

  waiting-stays :
      (ev : ExecEvent) (s : ConfigSets) (o : Phase × ConfigSets)
      → execute_step validate r ev (waiting conf) s ≡ some o
      → StaysAt conf o.0
  unfolding execute_step
  waiting-stays ctx_done s o e = inr (inr (some-phase _ o e))
  waiting-stays restart s o e = elim (Bool-cases (s.rc_at r).conf_restart) [
    | inl asked ↦ inl (some-phase _ o (rw asked at e))
    | inr quiet ↦ some_none (sym (rw quiet at e))
  ]
  waiting-stays begins s o e = some_none (sym e)
  waiting-stays (begin_fails x) s o e = some_none (sym e)
  waiting-stays begin_canceled s o e = some_none (sym e)
  waiting-stays disposed s o e = some_none (sym e)
  waiting-stays no_value s o e = some_none (sym e)
  waiting-stays (shows_value x y) s o e = some_none (sym e)

  ended : (ev : ExecEvent) (s : ConfigSets) → execute_step validate r ev finished s ≡ none
  unfolding execute_step
  ended ctx_done s = refl
  ended restart s = refl
  ended begins s = refl
  ended (begin_fails x) s = refl
  ended begin_canceled s = refl
  ended disposed s = refl
  ended no_value s = refl
  ended (shows_value x y) s = refl

  step-stays :
      (ev : ExecEvent) (p : Phase) (s : ConfigSets) (o : Phase × ConfigSets)
      → StaysAt conf p
      → execute_step validate r ev p s ≡ some o
      → StaysAt conf o.0
  step-stays ev p s o (inl h) e =
      top-stays ev s o (subst (λ (x : Phase). execute_step validate r ev x s ≡ some o) h e)
  step-stays ev p s o (inr (inl h)) e =
      waiting-stays ev s o (subst (λ (x : Phase). execute_step validate r ev x s ≡ some o) h e)
  step-stays ev p s o (inr (inr h)) e =
      some_none (
        sym (sym (ended ev s) ∙ subst (λ (x : Phase). execute_step validate r ev x s ≡ some o) h e))

  -- An execution that begins with a config that is not valid keeps that config until its context
  -- is canceled, however often it is restarted and whatever the other functions do between its
  -- steps.
  pub ExecRun-invalid : (p : Phase) → ExecRun validate r (at_top conf) p → StaysAt conf p
  ExecRun-invalid p here = inl refl
  ExecRun-invalid p (next {q} ev s t run e) = step-stays ev q s (p, t) (ExecRun-invalid q run) e
