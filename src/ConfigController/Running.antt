-- ===== src/ConfigController/Running.antt =====
-- The states that a running controller shows.
use controllerbus.Common.{
  ℕ, Bool, true, false, not, ◌||◌, Option, none, some, ◌≡◌, ◌≢◌, refl, sym, inl, inr, if◌then◌else◌,
  subst, is_some,
}
use controllerbus.ConfigController.{ConfigSets, RunningController, same_option}
use controllerbus.ConfigController.Informed.{
  IsInformed, Informed, Ready, put_rc-same, set_state-Informed,
}
use controllerbus.ConfigController.Loop.{
  Phase, at_top, waiting, watching, finished, ExecEvent, ctx_done, begins, begin_fails,
  begin_canceled, restart, disposed, no_value, shows_value, set_state, clear_state, end_watch,
  begin_watch, execute_step, take_restart,
}

-- While the execution watches its controller, or waits for a valid config, every callback of the
-- references was last called with the state; before and after, unless nothing was emitted yet.
abbrev pub Shown : ℕ → Phase → ConfigSets → Type 0
Shown r (at_top conf) s = Ready r s
Shown r (waiting conf) s = Informed r s
Shown r (watching conf) s = Informed r s
Shown r finished s = Ready r s

Shown-Ready : (r : ℕ) (p : Phase) (s : ConfigSets) → Shown r p s → Ready r s
Shown-Ready r (at_top conf) s h = h
Shown-Ready r (waiting conf) s h = inl h
Shown-Ready r (watching conf) s h = inl h
Shown-Ready r finished s h = h

clear_state-Informed :
    (r conf : ℕ) (err : Option ℕ) (s : ConfigSets)
    → Ready r s
    → Informed r (clear_state r conf err s)
unfolding clear_state
clear_state-Informed r conf err s h = set_state-Informed r _ s refl h

take_restart-Ready : (r : ℕ) (s : ConfigSets) → Ready r s → Ready r (take_restart r s)
unfolding take_restart
take_restart-Ready r s h = elim h [
  | inl informed ↦ inl (
      subst (IsInformed s.ref_at s.pushed)
        (sym (put_rc-same r (record (s.rc_at r) { conf_restart = false }) s)) informed)
  | inr new ↦ inr (
      subst (λ (c : RunningController). c.prev_emitted.state_id ≢ c.state.state_id)
        (sym (put_rc-same r (record (s.rc_at r) { conf_restart = false }) s)) new)
]

end_watch-Ready : (r : ℕ) (s : ConfigSets) → Ready r s → Ready r (end_watch r s).1
unfolding end_watch
end_watch-Ready r s h = go (
    is_some (s.rc_at r).state.state_ctrl
    || not (same_option (s.rc_at r).state.state_conf (some (s.rc_at r).conf)))
  where
    go :
        (b : Bool)
        → Ready r (
            if b
            then set_state r
                (record (s.rc_at r).state { state_ctrl = none; state_conf = some (s.rc_at r).conf })
                s
            else s)
    go true = inl (
        set_state-Informed r
          (record (s.rc_at r).state { state_ctrl = none; state_conf = some (s.rc_at r).conf }) s
          refl h)
    go false = h

module _ (validate : ℕ → Option ℕ) (r : ℕ) where
  abbrev Becomes : Option (Phase × ConfigSets) → Type 0
  Becomes none = Unit
  Becomes (some o) = Shown r o.0 o.1

  if-Becomes :
      (b : Bool) (o : Phase × ConfigSets) → Becomes (some o) → Becomes (if b then some o else none)
  if-Becomes true o h = h
  if-Becomes false o h = tt

  begin-Shown :
      (conf : ℕ) (ev : ExecEvent) (s : ConfigSets)
      → Ready r s
      → Becomes (begin_watch validate r conf ev s)
  unfolding begin_watch
  begin-Shown conf begins s h = clear_state-Informed r conf none s h
  begin-Shown conf (begin_fails err) s h =
      clear_state-Informed r conf (some err) (clear_state r conf none s)
        (inl (clear_state-Informed r conf none s h))
  begin-Shown conf begin_canceled s h = inl (clear_state-Informed r conf none s h)
  begin-Shown conf ctx_done s h = tt
  begin-Shown conf restart s h = tt
  begin-Shown conf disposed s h = tt
  begin-Shown conf no_value s h = tt
  begin-Shown conf (shows_value x y) s h = tt

  top-Shown :
      (conf : ℕ) (ev : ExecEvent) (s : ConfigSets)
      → Ready r s
      → Becomes (elim (validate conf) [
        | some err ↦ some (waiting conf, clear_state r conf (some err) s)
        | none ↦ begin_watch validate r conf ev s
      ])
  top-Shown conf ev s h = go (validate conf)
    where
      go :
          (o : Option ℕ)
          → Becomes (elim o [
            | some err ↦ some (waiting conf, clear_state r conf (some err) s)
            | none ↦ begin_watch validate r conf ev s
          ])
      go none = begin-Shown conf ev s h
      go (some err) = clear_state-Informed r conf (some err) s h

  ends-Shown : (s : ConfigSets) → Ready r s → Becomes (some (end_watch r s))
  unfolding end_watch
  ends-Shown s h = end_watch-Ready r s h

  step-Shown :
      (ev : ExecEvent) (p : Phase) (s : ConfigSets)
      → Ready r s
      → Becomes (execute_step validate r ev p s)
  unfolding execute_step
  step-Shown ctx_done (at_top conf) s h = h
  step-Shown begins (at_top conf) s h = top-Shown conf begins s h
  step-Shown (begin_fails x) (at_top conf) s h = top-Shown conf (begin_fails x) s h
  step-Shown begin_canceled (at_top conf) s h = top-Shown conf begin_canceled s h
  step-Shown restart (at_top conf) s h = top-Shown conf restart s h
  step-Shown disposed (at_top conf) s h = top-Shown conf disposed s h
  step-Shown no_value (at_top conf) s h = top-Shown conf no_value s h
  step-Shown (shows_value x y) (at_top conf) s h = top-Shown conf (shows_value x y) s h
  step-Shown ctx_done (waiting conf) s h = h
  step-Shown restart (waiting conf) s h =
      if-Becomes (s.rc_at r).conf_restart _ (take_restart-Ready r s h)
  step-Shown begins (waiting conf) s h = tt
  step-Shown (begin_fails x) (waiting conf) s h = tt
  step-Shown begin_canceled (waiting conf) s h = tt
  step-Shown disposed (waiting conf) s h = tt
  step-Shown no_value (waiting conf) s h = tt
  step-Shown (shows_value x y) (waiting conf) s h = tt
  step-Shown ctx_done (watching conf) s h = ends-Shown s h
  step-Shown restart (watching conf) s h =
      if-Becomes (s.rc_at r).conf_restart _
        (ends-Shown (take_restart r s) (take_restart-Ready r s h))
  step-Shown begins (watching conf) s h = tt
  step-Shown (begin_fails x) (watching conf) s h = tt
  step-Shown begin_canceled (watching conf) s h = tt
  step-Shown disposed (watching conf) s h = ends-Shown s h
  step-Shown no_value (watching conf) s h = clear_state-Informed r conf none s h
  step-Shown (shows_value x y) (watching conf) s h = set_state-Informed r _ s refl h
  step-Shown ev finished s h = tt

  -- Call a running controller informed if the state last emitted is the one that it has and
  -- every callback of each of its references was last called with it, and fresh if the state
  -- last emitted has another id, as before any was. A step that begins informed, or fresh at the
  -- top or finished, ends informed if the execution then watches its controller or waits for a
  -- valid config, and informed or fresh if it is then at the top or has finished.
  pub execute_step-Shown :
      (ev : ExecEvent) (p q : Phase) (s t : ConfigSets)
      → Shown r p s
      → execute_step validate r ev p s ≡ some (q, t)
      → Shown r q t
  execute_step-Shown ev p q s t h e = subst Becomes e (step-Shown ev p s (Shown-Ready r p s h))
