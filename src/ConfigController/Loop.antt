-- ===== src/ConfigController/Loop.antt =====
-- The loops of controller/configset/controller: Controller.Execute (controller.go), one round for one
-- wake, and runningController.Execute (running-ctrl.go), one step for each thing that it waits for.
use controllerbus.Common.{
  ℕ, suc, false, not, ◌||◌, Option, none, some, List, [], ◌∷◌, is_empty, is_some, if◌then◌else◌,
  lookup, insert, delete,
}
use controllerbus.ConfigController.{ConfigSets, RunningState, put_rc, push_state, same_option}

-- `exec` is the map execControllers, from a key to the context that its cancel function cancels.
pub record Loop : Type 0 where
  pub sets : ConfigSets
  pub exec : List (ℕ × ℕ)
  pub next_ctx : ℕ
  pub canceled : List ℕ
  pub started : List (ℕ × ℕ)

-- A running controller without references is dropped.
unfoldable pub collect_garbage : ℕ → ConfigSets → ConfigSets
collect_garbage k s = elim (lookup k s.controllers) [
  | none ↦ s
  | some r ↦
      if is_empty (s.rc_at r).refs then record s { controllers = delete k s.controllers } else s
]

unfoldable pub stop_missing : ℕ → ℕ → Loop → Loop
stop_missing k ctx l = elim (lookup k l.sets.controllers) [
  | some r ↦ l
  | none ↦ record l { canceled = ctx ∷ l.canceled; exec = delete k l.exec }
]

unfoldable pub collect : List (ℕ × ℕ) → Loop → Loop
collect [] l = l
collect ((k, ctx) ∷ entries) l =
    collect entries (stop_missing k ctx (record l { sets = collect_garbage k l.sets }))

unfoldable pub start_controller : ℕ → ℕ → Loop → Loop
start_controller k r l = elim (lookup k l.exec) [
  | some ctx ↦ l
  | none ↦ record l {
    exec = insert k l.next_ctx l.exec;
    started = (l.next_ctx, r) ∷ l.started;
    next_ctx = suc l.next_ctx;
  }
]

unfoldable pub start_missing : List (ℕ × ℕ) → Loop → Loop
start_missing [] l = l
start_missing ((k, r) ∷ entries) l = start_missing entries (start_controller k r l)

-- What the loop does when it is woken.
unfoldable pub execute_round : Loop → Loop
execute_round l =
    let woken = record l { sets = record l.sets { woken = false } } in
    let collected = collect l.exec woken in start_missing collected.sets.controllers collected

-- What it does in the end, when its context is canceled.
unfoldable pub stop_all : List (ℕ × ℕ) → Loop → Loop
stop_all [] l = l
stop_all ((k, r) ∷ entries) l =
    let s = record l.sets { controllers = delete k l.sets.controllers } in
    stop_all entries (elim (lookup k l.exec) [
      | none ↦ record l { sets = s }
      | some ctx ↦ record l { sets = s; canceled = ctx ∷ l.canceled; exec = delete k l.exec }
    ])

unfoldable pub execute_stop : Loop → Loop
execute_stop l = stop_all l.sets.controllers l

-- Where runningController.Execute stands, with its copy of the config.
pub data Phase : Type 0 where
  at_top : ℕ → Phase
  waiting : ℕ → Phase
  watching : ℕ → Phase
  finished : Phase

-- What it meets: its context is canceled; the directive is added, or is not, with an error; a restart
-- is asked for; the directive is disposed of; a value of it is shown, with an error and a controller.
pub data ExecEvent : Type 0 where
  ctx_done : ExecEvent
  begins : ExecEvent
  begin_fails : ℕ → ExecEvent
  begin_canceled : ExecEvent
  restart : ExecEvent
  disposed : ExecEvent
  no_value : ExecEvent
  shows_value : Option ℕ → Option ℕ → ExecEvent

-- The state is set and pushed.
unfoldable pub set_state : ℕ → RunningState → ConfigSets → ConfigSets
set_state r st s = push_state r st (put_rc r (record (s.rc_at r) { state = st }) s)

unfoldable pub clear_state : ℕ → ℕ → Option ℕ → ConfigSets → ConfigSets
clear_state r conf err s =
    set_state r
      (record (s.rc_at r).state { state_ctrl = none; state_err = err; state_conf = some conf }) s

unfoldable pub take_restart : ℕ → ConfigSets → ConfigSets
take_restart r s = put_rc r (record (s.rc_at r) { conf_restart = false }) s

-- The config is read again when the watch ends.
unfoldable pub end_watch : ℕ → ConfigSets → Phase × ConfigSets
end_watch r s =
    let conf = (s.rc_at r).conf in
    let st = (s.rc_at r).state in
    (
      at_top conf,
      (if is_some st.state_ctrl || not (same_option st.state_conf (some conf))
          then set_state r (record st { state_ctrl = none; state_conf = some conf }) s
          else s),
    )

-- `validate` gives the error of a config that is not valid.
module _ (validate : ℕ → Option ℕ) where
  unfoldable pub begin_watch : ℕ → ℕ → ExecEvent → ConfigSets → Option (Phase × ConfigSets)
  begin_watch r conf begins s = some (watching conf, clear_state r conf none s)
  begin_watch r conf (begin_fails err) s =
      some (watching conf, clear_state r conf (some err) (clear_state r conf none s))
  begin_watch r conf begin_canceled s = some (finished, clear_state r conf none s)
  begin_watch r conf _ s = none

  -- One step; `none` where nothing of the kind can be met.
  unfoldable pub execute_step : ℕ → ExecEvent → Phase → ConfigSets → Option (Phase × ConfigSets)
  execute_step r ctx_done (at_top conf) s = some (finished, s)
  execute_step r ev (at_top conf) s = elim (validate conf) [
    | some err ↦ some (waiting conf, clear_state r conf (some err) s)
    | none ↦ begin_watch r conf ev s
  ]
  execute_step r ctx_done (waiting conf) s = some (finished, s)
  execute_step r restart (waiting conf) s =
      if (s.rc_at r).conf_restart then some (at_top conf, take_restart r s) else none
  execute_step r _ (waiting conf) s = none
  execute_step r ctx_done (watching conf) s = some (end_watch r s)
  execute_step r restart (watching conf) s =
      if (s.rc_at r).conf_restart then some (end_watch r (take_restart r s)) else none
  execute_step r disposed (watching conf) s = some (end_watch r s)
  execute_step r no_value (watching conf) s = some (watching conf, clear_state r conf none s)
  execute_step r (shows_value err ctrl) (watching conf) s = some (
    watching conf,
    set_state r
        (record (s.rc_at r).state { state_err = err; state_ctrl = ctrl; state_conf = some conf }) s,
  )
  execute_step r _ (watching conf) s = none
  execute_step r ev finished s = none
