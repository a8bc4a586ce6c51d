-- ===== src/Execution/Tracking.antt =====
-- The responses of ExecControllerRequest.Execute: controller/exec/exec-request.go.
use controllerbus.Common.{
  ℕ, Bool, true, false, ◌&&◌, ◌||◌, not, Option, List, [], ◌∷◌, is_some, if◌then◌else◌, ◌≡◌, ◌⊎◌,
  refl, sym, ap, ◌∙◌, subst, inl, inr, Bool-cases, Option-cases, ◌==◌, ==_iff, All, insert,
  lookup-insert, lookup-insert_other, arith,
}
use controllerbus.Execution.{
  ControllerStatus, status_unknown, status_configuring, status_running, status_error, same_status,
  StateValue, StatusEvent, ctx_ended, sub_ctx_ended, state_added, state_removed,
}
use controllerbus.Execution.Reports.{same_status_eq, same_status_refl}
use controllerbus.Execution.Request.{
  ExecResponse, blank, RequestState, status_of, report, respond, request_added, request_removed,
  request_event, request_loop,
}

-- The status of a key in the last of its responses.
abbrev pub last_reported : ℕ → List ExecResponse → ControllerStatus
last_reported k [] = status_unknown
last_reported k (r ∷ rs) = if r.id == k then r.status else last_reported k rs

unfoldable pub is_configuring : ControllerStatus → Bool
unfolding same_status
is_configuring st = same_status st status_configuring

-- No key is reported as configuring twice in a row.
abbrev pub Settled : List ExecResponse → Type 0
Settled [] = Unit
Settled (r ∷ rs) =
    ((is_configuring r.status && is_configuring (last_reported r.id rs)) ≡ false) × Settled rs

-- A response has a controller's info if it says that the controller runs, and an error's if it says
-- that there was one.
abbrev pub IsClean : ExecResponse → Type 0
IsClean r =
    (is_some r.controller_info ≡ same_status r.status status_running)
    × (is_some r.error_info ≡ same_status r.status status_error)

pub record Tracks (states : List (ℕ × ControllerStatus)) (rs : List ExecResponse) : Type 0 where
  pub statuses : (k : ℕ) → status_of k states ≡ last_reported k rs
  pub settled : Settled rs
  pub clean : All IsClean rs

-- The response is blank between the rounds.
pub record IsTracked {C : Type 0} (s : RequestState C) : Type 0 where
  pub tracks : Tracks s.prev_states s.responses
  pub reset : (s.resp ≡ blank) ⊎ (is_some s.returned ≡ true)

status_of-insert :
    (k i : ℕ) (st : ControllerStatus) (m : List (ℕ × ControllerStatus))
    → status_of k (insert i st m) ≡ (if i == k then st else status_of k m)
unfolding status_of
status_of-insert k i st m = elim (Bool-cases (i == k)) [
  | inl hit ↦ rw hit (rw ((==_iff i k).0 hit) (rw (lookup-insert k st m, status_of) refl))
  | inr miss ↦ rw miss (rw (lookup-insert_other k i st m miss, status_of) refl)
]

told-Tracks :
    (r : ExecResponse) (states : List (ℕ × ControllerStatus)) (rs : List ExecResponse)
    → Tracks states rs
    → (is_configuring r.status && is_configuring (status_of r.id states)) ≡ false
    → IsClean r
    → Tracks (insert r.id r.status states) (r ∷ rs)
told-Tracks r states rs p fresh good = record {
  statuses = λ k.
      status_of-insert k r.id r.status states
      ∙ ap (λ (st : ControllerStatus). if r.id == k then r.status else st) (p.statuses k);
  settled = (
    subst (λ (st : ControllerStatus). (is_configuring r.status && is_configuring st) ≡ false)
        (p.statuses r.id) fresh,
    p.settled,
  );
  clean = (good, p.clean);
}

respond-IsClean : (v : StateValue) → IsClean (respond v blank)
unfolding respond same_status
respond-IsClean v = elim (Option-cases v.error) [
  | inr (e, failed) ↦ rw failed (refl, refl)
  | inl good ↦ rw good (elim (Option-cases v.controller) [
    | inr (info, runs) ↦ rw runs (refl, refl)
    | inl waits ↦ rw waits (refl, refl)
  ])
]

respond-id : (v : StateValue) → (respond v blank).id ≡ v.id
unfolding respond
respond-id v = elim (Option-cases v.error) [
  | inr (e, failed) ↦ rw failed refl
  | inl good ↦ rw good (elim (Option-cases v.controller) [
    | inr (info, runs) ↦ rw runs refl
    | inl waits ↦ rw waits refl
  ])
]

-- What is reported, since it is new or is not CONFIGURING, is not that twice.
fresh :
    (now before : ControllerStatus)
    → (not (same_status before now) || not (same_status now status_configuring)) ≡ true
    → (is_configuring now && is_configuring before) ≡ false
unfolding is_configuring
fresh now before h = elim (Bool-cases (same_status now status_configuring)) [
  | inr other ↦ rw other refl
  | inl is ↦ elim (Bool-cases (same_status before status_configuring)) [
    | inr other ↦ rw other (ground arith)
    | inl was ↦
        let e = same_status_eq before status_configuring was in
        let i = same_status_eq now status_configuring is in
        let same =
          subst (λ (x : ControllerStatus). same_status x now ≡ true) (i ∙ sym e)
            (same_status_refl now) in
        ground arith
  ]
]

removing-IsClean : (k : ℕ) → IsClean (record blank { status = status_configuring; id = k })
unfolding same_status
removing-IsClean k = (refl, refl)

module _ {C : Type 0} (cb : ExecResponse → Option ℕ) where
  pub report-IsTracked :
      (s : RequestState C)
      → Tracks s.prev_states s.responses
      → (is_configuring s.resp.status && is_configuring (status_of s.resp.id s.prev_states)) ≡ false
      → IsClean s.resp
      → IsTracked (report cb s)
  unfolding report
  report-IsTracked s p fresh good =
      let told = told-Tracks s.resp s.prev_states s.responses p fresh good in
      elim (Option-cases (cb s.resp)) [
        | inr (e, failed) ↦ rw (failed, report) (record { tracks = told; reset = inr refl })
        | inl fine ↦ rw (fine, report) (record { tracks = told; reset = inl refl })
      ]

  added-IsTracked :
      (v : StateValue) (s : RequestState C)
      → Tracks s.prev_states s.responses
      → s.resp ≡ blank
      → IsTracked (request_added cb v s)
  unfolding request_added is_configuring
  added-IsTracked v s p e =
      let answer = respond v blank in
      let news : Bool =
        not (same_status (status_of v.id s.prev_states) answer.status)
        || not (same_status answer.status status_configuring) in
      rw e (elim (Bool-cases news) [
        | inl new ↦
            rw (new, request_added)
              (report-IsTracked (record s { resp = answer }) p
                (rw (respond-id v) (fresh answer.status (status_of v.id s.prev_states) new))
                (respond-IsClean v))
        | inr old ↦ rw (old, request_added) (record { tracks = p; reset = inl refl })
      ])

  removed-IsTracked :
      (v : StateValue) (s : RequestState C)
      → Tracks s.prev_states s.responses
      → s.resp ≡ blank
      → IsTracked (request_removed cb v s)
  unfolding request_removed is_configuring
  removed-IsTracked v s p e =
      rw e (elim (Bool-cases (is_configuring (status_of v.id s.prev_states))) [
        | inl was ↦ rw (was, request_removed) (record { tracks = p; reset = inl refl })
        | inr new ↦
            rw (new, request_removed)
              (report-IsTracked
                (record s { resp = record blank { status = status_configuring; id = v.id } }) p new
                (removing-IsClean v.id))
      ])

  event-IsTracked :
      (e : StatusEvent) (s : RequestState C)
      → Tracks s.prev_states s.responses
      → s.resp ≡ blank
      → IsTracked (request_event cb e s)
  unfolding request_event
  event-IsTracked ctx_ended s p clear = record { tracks = p; reset = inl clear }
  event-IsTracked (sub_ctx_ended e) s p clear = record { tracks = p; reset = inr refl }
  event-IsTracked (state_added v) s p clear = elim (Bool-cases (v.id == 0)) [
    | inl nameless ↦ rw (nameless, request_event) (record { tracks = p; reset = inl clear })
    | inr named ↦ rw (named, request_event) (added-IsTracked v s p clear)
  ]
  event-IsTracked (state_removed v) s p clear = elim (Bool-cases (v.id == 0)) [
    | inl nameless ↦ rw (nameless, request_event) (record { tracks = p; reset = inl clear })
    | inr named ↦ rw (named, request_event) (removed-IsTracked v s p clear)
  ]

  pub loop-IsTracked :
      (es : List StatusEvent) (s : RequestState C) → IsTracked s → IsTracked (request_loop cb es s)
  unfolding request_loop
  loop-IsTracked [] s p = p
  loop-IsTracked (e ∷ es) s p = elim p.reset [
    | inr over ↦ rw over p
    | inl clear ↦ elim (Bool-cases (is_some s.returned)) [
      | inl over ↦ rw over p
      | inr running ↦
          rw running (loop-IsTracked es (request_event cb e s) (event-IsTracked e s p.tracks clear))
    ]
  ]
