-- ===== src/Execution/Request.antt =====
-- ExecControllerRequest.Execute: controller/exec/exec-request.go and exec-request-yaml.go, with
-- UnmarshalYAML of controller/configset/json. The empty id is 0.
use controllerbus.Common.{
  ℕ, Bool, ◌&&◌, ◌||◌, not, Option, none, some, List, [], ◌∷◌, ◌==◌, is_some, is_empty,
  if◌then◌else◌, length, lookup, insert,
}
use controllerbus.ConfigMessage.{ConfigMessage, ResolvedConfig}
use controllerbus.Execution.{
  ControllerStatus, status_unknown, status_configuring, status_running, status_error, same_status,
  StateValue, StatusEvent, ctx_ended, sub_ctx_ended, state_added, state_removed,
}

-- "at least one config must be specified" and ErrAllControllersFailed
abbrev pub err_no_config : ℕ
err_no_config = 11

abbrev pub err_all_controllers_failed : ℕ
err_all_controllers_failed = 12

pub record ExecResponse : Type 0 where
  pub id : ℕ
  pub status : ControllerStatus
  pub controller_info : Option ℕ
  pub error_info : Option ℕ

-- resp after Reset
abbrev pub blank : ExecResponse
blank = record { id = 0; status = status_unknown; controller_info = none; error_info = none }

-- The config set that the proto has, and the one in YAML, with whether it overwrites.
pub record ExecRequest : Type 0 where
  pub config_set : Option (List (ℕ × ConfigMessage))
  pub config_set_yaml : List ℕ
  pub yaml_overwrite : Bool

-- The variables of Execute: resp, prevStates, confSet, niniterr and lastniniterr; the responses that
-- the callback was given, the newest first; and the result, once it returns.
pub record RequestState (C : Type 0) : Type 0 where
  pub resp : ExecResponse
  pub prev_states : List (ℕ × ControllerStatus)
  pub conf_set : List (ℕ × ResolvedConfig C)
  pub niniterr : ℕ
  pub last_niniterr : Option ℕ
  pub responses : List ExecResponse
  pub returned : Option (Option ℕ)

unfoldable pub status_of : ℕ → List (ℕ × ControllerStatus) → ControllerStatus
unfolding lookup
status_of k states = elim (lookup k states) [ some st ↦ st | none ↦ status_unknown ]

-- What the response says of a value.
unfoldable pub respond : StateValue → ExecResponse → ExecResponse
respond v resp = elim v.error [
  | some e ↦ record resp { id = v.id; status = status_error; error_info = some e }
  | none ↦ elim v.controller [
    | some info ↦ record resp { id = v.id; status = status_running; controller_info = some info }
    | none ↦ record resp { id = v.id; status = status_configuring }
  ]
]

unfoldable pub confs_list : ExecRequest → List (ℕ × ConfigMessage)
confs_list req = elim req.config_set [ some set ↦ set | none ↦ [] ]

module _ {C : Type 0} where
  -- The state with that set.
  unfoldable pub request_state : List (ℕ × ResolvedConfig C) → RequestState C
  request_state set = record {
    resp = blank;
    prev_states = [];
    conf_set = set;
    niniterr = 0;
    last_niniterr = none;
    responses = [];
    returned = none;
  }

  -- All failed: the one error, or that all did.
  unfoldable pub check_all_failed : List (ℕ × ConfigMessage) → RequestState C → RequestState C
  check_all_failed ms s =
      if s.niniterr == length ms && not (is_empty ms)
      then (if length ms == 1 && is_some s.last_niniterr
          then record s { returned = some s.last_niniterr }
          else record s { returned = some (some err_all_controllers_failed) })
      else record s { resp = blank }

  unfoldable pub after_resolve : List (ℕ × ConfigMessage) → RequestState C → RequestState C
  unfolding check_all_failed
  after_resolve ms s = if is_some s.returned then s else check_all_failed ms s

module _ {C : Type 0} (cb : ExecResponse → Option ℕ) where
  -- The status is kept, then the callback is called; an error of it ends the execution, and the
  -- response is reset otherwise.
  unfoldable pub report : RequestState C → RequestState C
  unfolding insert
  report s =
      let told : RequestState C = record s {
        prev_states = insert s.resp.id s.resp.status s.prev_states;
        responses = s.resp ∷ s.responses;
      } in
      elim (cb s.resp) [
        | some e ↦ record told { returned = some (some e) }
        | none ↦ record told { resp = blank }
      ]

  unfoldable pub request_added : StateValue → RequestState C → RequestState C
  unfolding report respond status_of same_status
  request_added v s =
      let answered : RequestState C = record s { resp = respond v s.resp } in
      if not (same_status (status_of v.id s.prev_states) answered.resp.status)
        || not (same_status answered.resp.status status_configuring)
      then report answered
      else record s { resp = blank }

  unfoldable pub request_removed : StateValue → RequestState C → RequestState C
  unfolding report status_of same_status
  request_removed v s =
      if same_status (status_of v.id s.prev_states) status_configuring
      then record s { resp = record s.resp { status = status_unknown } }
      else report (record s { resp = record s.resp { status = status_configuring; id = v.id } })

  -- The end of ctx is seen as that of subCtx. A value without an id is not sent to the channels.
  unfoldable pub request_event : StatusEvent → RequestState C → RequestState C
  unfolding request_added request_removed
  request_event ctx_ended s = s
  request_event (sub_ctx_ended e) s = record s { returned = some (some e) }
  request_event (state_added v) s = if v.id == 0 then s else request_added v s
  request_event (state_removed v) s = if v.id == 0 then s else request_removed v s

  -- The loop, until it returns.
  unfoldable pub request_loop : List StatusEvent → RequestState C → RequestState C
  unfolding request_event
  request_loop [] s = s
  request_loop (e ∷ es) s = if is_some s.returned then s else request_loop es (request_event e s)

  -- `add_err` is the error that AddDirective returns.
  unfoldable pub watch_set : Option ℕ → List StatusEvent → RequestState C → RequestState C
  unfolding request_loop
  watch_set add_err es s = if is_some s.returned then s else elim add_err [
    | some e ↦ record s { returned = some (some e) }
    | none ↦ request_loop es s
  ]
