-- ===== src/Execution/Tracked.antt =====
-- The responses of a whole execution of a request: controller/exec/exec-request.go.
use controllerbus.Common.{
  ℕ, Bool, ◌&&◌, ◌||◌, not, Option, none, some, List, [], ◌∷◌, is_some, ◌≡◌, refl, inl, inr,
  Bool-cases, ◌==◌, lookup, insert, length, is_empty,
}
use controllerbus.ConfigMessage.{
  Result, ok, err, ConfigMessage, ConfigTypes, ResolvedConfig, resolve,
}
use controllerbus.Execution.{status_error, same_status, StatusEvent}
use controllerbus.Execution.Request.{
  ExecResponse, blank, ExecRequest, RequestState, status_of, report, check_all_failed,
  after_resolve, watch_set, request_state, confs_list,
}
use controllerbus.Execution.Resolving.{
  resolve_failed, resolve_one, resolve_each, first_set, execute_request,
}
use controllerbus.Execution.Tracking.{
  is_configuring, Tracks, IsTracked, report-IsTracked, loop-IsTracked,
}

module _ {C : Type 0} (cb : ExecResponse → Option ℕ) (t : ConfigTypes C) where
  failed-IsTracked :
      (k e : ℕ) (s : RequestState C)
      → Tracks s.prev_states s.responses
      → s.resp ≡ blank
      → IsTracked (resolve_failed cb t k e s)
  unfolding resolve_failed is_configuring same_status
  failed-IsTracked k e s p clear =
      let failed = record blank { id = k; status = status_error; error_info = some e } in
      let told = report-IsTracked cb (record s { resp = failed }) p refl (refl, refl) in
      rw clear (elim (Bool-cases (is_some (report cb (record s { resp = failed })).returned)) [
        | inl over ↦ rw (over, resolve_failed) told
        | inr running ↦
            rw (running, resolve_failed) (record { tracks = told.tracks; reset = told.reset })
      ])

  one-IsTracked :
      (k : ℕ) (m : ConfigMessage) (s : RequestState C)
      → Tracks s.prev_states s.responses
      → s.resp ≡ blank
      → IsTracked (resolve_one cb t k m s)
  unfolding resolve_one
  one-IsTracked k m s p clear = elim (Bool-cases (k == 0 || is_some (lookup k s.conf_set))) [
    | inl skipped ↦ rw (skipped, resolve_one) (record { tracks = p; reset = inl clear })
    | inr taken ↦ rw (taken, resolve_one) (resolving (resolve t m))
  ]
    where
      resolving :
          (r : Result (ResolvedConfig C))
          → IsTracked (elim r [
            | ok c ↦ record s { conf_set = insert k c s.conf_set }
            | err e ↦ resolve_failed cb t k e s
          ])
      resolving (ok c) = record { tracks = p; reset = inl clear }
      resolving (err e) = failed-IsTracked k e s p clear

  each-IsTracked :
      (ms : List (ℕ × ConfigMessage)) (s : RequestState C)
      → IsTracked s
      → IsTracked (resolve_each cb t ms s)
  unfolding resolve_each
  each-IsTracked [] s p = p
  each-IsTracked ((k, m) ∷ ms) s p = elim p.reset [
    | inr over ↦ rw over p
    | inl clear ↦ elim (Bool-cases (is_some s.returned)) [
      | inl over ↦ rw over p
      | inr running ↦
          rw running
            (each-IsTracked ms (resolve_one cb t k m s) (one-IsTracked k m s p.tracks clear))
    ]
  ]

  checked-IsTracked :
      (ms : List (ℕ × ConfigMessage)) (s : RequestState C)
      → IsTracked s
      → IsTracked (after_resolve ms s)
  unfolding after_resolve check_all_failed
  checked-IsTracked ms s p = elim (Bool-cases (is_some s.returned)) [
    | inl over ↦ rw (over, after_resolve) p
    | inr running ↦ elim (Bool-cases (s.niniterr == length ms && not (is_empty ms))) [
      | inr some_work ↦
          rw (running, after_resolve)
            (rw (some_work, check_all_failed) (record { tracks = p.tracks; reset = inl refl }))
      | inl none_work ↦ elim (Bool-cases (length ms == 1 && is_some s.last_niniterr)) [
        | inl single ↦
            rw (running, after_resolve)
              (rw (none_work, check_all_failed)
                (rw single (record { tracks = p.tracks; reset = inr refl })))
        | inr several ↦
            rw (running, after_resolve)
              (rw (none_work, check_all_failed)
                (rw several (record { tracks = p.tracks; reset = inr refl })))
      ]
    ]
  ]

  watched-IsTracked :
      (add_err : Option ℕ) (es : List StatusEvent) (s : RequestState C)
      → IsTracked s
      → IsTracked (watch_set cb add_err es s)
  unfolding watch_set
  watched-IsTracked none es s p = elim (Bool-cases (is_some s.returned)) [
    | inl over ↦ rw over p
    | inr running ↦ rw running (loop-IsTracked cb es s p)
  ]
  watched-IsTracked (some e) es s p = elim (Bool-cases (is_some s.returned)) [
    | inl over ↦ rw over p
    | inr running ↦ rw running (record { tracks = p.tracks; reset = inr refl })
  ]

  module _ (parse_yaml : List ℕ → Result (List (ℕ × ConfigMessage))) where
    start-Tracks : Tracks [] []
    unfolding status_of lookup
    start-Tracks = record { statuses = λ k. refl; settled = tt; clean = tt }

    -- After any execution of a request, whatever the callback returns and whatever values come
    -- and go: the state kept of a key is the one in its last response; no key is reported as
    -- CONFIGURING twice in a row; a response has a controller's info just when it says RUNNING
    -- and an error just when it says ERROR; and the response is blank unless Execute has
    -- returned.
    pub execute_request-IsTracked :
        (allow_partial_success : Bool) (req : ExecRequest) (add_err : Option ℕ)
        (es : List StatusEvent)
        → IsTracked (execute_request cb t parse_yaml allow_partial_success req add_err es)
    unfolding execute_request request_state
    execute_request-IsTracked allow_partial_success req add_err es =
        executed (first_set t parse_yaml allow_partial_success req)
      where
        executed :
            (r : Result (List (ℕ × ResolvedConfig C)))
            → IsTracked (elim r [
              | err e ↦ record (request_state []) { returned = some (some e) }
              | ok set ↦ watch_set cb add_err es (
                  after_resolve
                    (confs_list req)
                    (resolve_each cb t (confs_list req) (request_state set)))
            ])
        executed (err e) = record { tracks = start-Tracks; reset = inr refl }
        executed (ok set) = watched-IsTracked add_err es _ (
            checked-IsTracked (confs_list req) _ (
              each-IsTracked (confs_list req) _
                (record { tracks = start-Tracks; reset = inl refl })))
