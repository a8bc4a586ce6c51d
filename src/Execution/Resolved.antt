-- ===== src/Execution/Resolved.antt =====
-- The set that a request applies: controller/exec/exec-request.go.
use controllerbus.Common.{
  ℕ, Bool, true, false, ◌||◌, Option, none, some, List, [], ◌∷◌, is_some, if◌then◌else◌, ◌≡◌, refl,
  sym, ◌∙◌, subst, inl, inr, Bool-cases, ◌==◌, ==_iff, lookup, insert, delete, lookup-insert,
  lookup-insert_other, lookup-delete, lookup-delete_other, lookup-hit, lookup-miss, Distinct, arith,
}
use controllerbus.ConfigMessage.{
  Result, ok, err, ConfigMessage, ConfigTypes, ResolvedConfig, resolve,
}
use controllerbus.Execution.{status_error}
use controllerbus.Execution.Reports.{some-false}
use controllerbus.Execution.Request.{ExecResponse, RequestState, report}
use controllerbus.Execution.Resolving.{resolve_failed, resolve_one, resolve_each}

abbrev pub to_option : {A : Type 0} → Result A → Option A
to_option (ok a) = some a
to_option (err e) = none

none_else : {A : Type 0} (b : Bool) (o : Option A) → (if b || is_some o then o else none) ≡ o
none_else true o = refl
none_else false none = refl
none_else false (some a) = refl

module _ {C : Type 0} (t : ConfigTypes C) where
  -- The config of the message that is found, if it is resolved.
  abbrev pub config_of : Option ConfigMessage → Option (ResolvedConfig C)
  config_of (some m) = to_option (resolve t m)
  config_of none = none

  -- What a key has in the end: what the set had, else what its message is resolved to.
  abbrev pub wanted :
      ℕ → List (ℕ × ConfigMessage) → List (ℕ × ResolvedConfig C) → Option (ResolvedConfig C)
  wanted k ms set =
      if k == 0 || is_some (lookup k set) then lookup k set else config_of (lookup k ms)

  -- A message that is passed over changes nothing that is wanted.
  wanted-skip :
      (i k : ℕ) (m : ConfigMessage) (ms : List (ℕ × ConfigMessage))
      → (set : List (ℕ × ResolvedConfig C)) → (k == 0 || is_some (lookup k set)) ≡ true
      → wanted i ms set ≡ wanted i ((k, m) ∷ ms) set
  wanted-skip i k m ms set old = elim (Bool-cases (k == i)) [
    | inr miss ↦ rw (lookup-miss i k m ms miss) refl
    | inl hit ↦
        let same =
          subst (λ (n : ℕ). (n == 0 || is_some (lookup n set)) ≡ true) ((==_iff k i).0 hit) old in
        rw same refl
  ]

  -- A message that is tried gives its key what is wanted.
  wanted-taken :
      (i k : ℕ) (m : ConfigMessage) (ms : List (ℕ × ConfigMessage))
      → (set set' : List (ℕ × ResolvedConfig C)) → lookup k ms ≡ none
      → (k == 0 || is_some (lookup k set)) ≡ false
      → lookup i set' ≡ (if k == i then to_option (resolve t m) else lookup i set)
      → wanted i ms set' ≡ wanted i ((k, m) ∷ ms) set
  wanted-taken i k m ms set set' once new entry = elim (Bool-cases (k == i)) [
    | inr miss ↦
        let kept : lookup i set' ≡ lookup i set = rw miss at entry in
        rw kept (rw (lookup-miss i k m ms miss) refl)
    | inl hit ↦
        let same = (==_iff k i).0 hit in
        let gone = subst (λ (n : ℕ). lookup n ms ≡ none) same once in
        let free = subst (λ (n : ℕ). (n == 0 || is_some (lookup n set)) ≡ false) same new in
        let made : lookup i set' ≡ to_option (resolve t m) = rw hit at entry in
        let found =
          subst (λ (n : ℕ). lookup i ((n, m) ∷ ms) ≡ some m) (sym same) (lookup-hit i m ms) in
        rw made (rw gone (rw free (rw found (none_else (i == 0) (to_option (resolve t m))))))
  ]

  module _ (cb : ExecResponse → Option ℕ) (fine : (r : ExecResponse) → cb r ≡ none) where
    failed-set :
        (k e : ℕ) (s : RequestState C)
        → s.returned ≡ none
        → ((resolve_failed cb t k e s).conf_set ≡ delete k s.conf_set)
          × ((resolve_failed cb t k e s).returned ≡ none)
    unfolding resolve_failed report
    failed-set k e s running =
        let failed : ExecResponse = record s.resp {
          id = k;
          status = status_error;
          error_info = some e;
        } in
        let told : RequestState C = record s { resp = failed } in
        let same : is_some (report cb told).returned ≡ false =
          rw (fine failed, report) (rw running refl) in
        rw (same, resolve_failed) (rw (fine failed, report) (refl, running))

    one-lookup :
        (k : ℕ) (m : ConfigMessage) (s : RequestState C)
        → s.returned ≡ none
        → (k == 0 || is_some (lookup k s.conf_set)) ≡ false
        → ((i : ℕ)
            → lookup i (resolve_one cb t k m s).conf_set
              ≡ (if k == i then to_option (resolve t m) else lookup i s.conf_set))
          × ((resolve_one cb t k m s).returned ≡ none)
    unfolding resolve_one
    one-lookup k m s running new = rw (new, resolve_one) (go (resolve t m))
      where
        go :
            (r : Result (ResolvedConfig C))
            → let s' : RequestState C = elim r [
              | ok c ↦ record s { conf_set = insert k c s.conf_set }
              | err e ↦ resolve_failed cb t k e s
            ] in
              ((i : ℕ)
                → lookup i s'.conf_set ≡ (if k == i then to_option r else lookup i s.conf_set))
              × (s'.returned ≡ none)
        go (ok c) = (
          (λ i. elim (Bool-cases (k == i)) [
            | inl hit ↦ rw hit (rw (← (==_iff k i).0 hit) (lookup-insert k c s.conf_set))
            | inr miss ↦ rw miss (lookup-insert_other i k c s.conf_set miss)
          ]),
          running,
        )
        go (err e) =
            let (set, on) = failed-set k e s running in
            (
              (λ i. rw set (elim (Bool-cases (k == i)) [
                | inl hit ↦ rw hit (rw (← (==_iff k i).0 hit) (lookup-delete k s.conf_set))
                | inr miss ↦ rw miss (lookup-delete_other i k s.conf_set miss)
              ])),
              on,
            )

    skipped :
        (k : ℕ) (m : ConfigMessage) (s : RequestState C)
        → (k == 0 || is_some (lookup k s.conf_set)) ≡ true
        → resolve_one cb t k m s ≡ s
    unfolding resolve_one
    skipped k m s old = rw (old, resolve_one) refl

    -- Where the callback returns no error and the message has no two configs of a key, the set
    -- to apply has under each key, once the configs are resolved one by one, what it had before,
    -- else what the key's config is resolved to, and nothing if that fails, there is none, or
    -- the key is empty.
    pub resolve_each-wanted :
        (ms : List (ℕ × ConfigMessage)) (s : RequestState C)
        → Distinct ms
        → s.returned ≡ none
        → (k : ℕ) → lookup k (resolve_each cb t ms s).conf_set ≡ wanted k ms s.conf_set
    unfolding resolve_each lookup
    resolve_each-wanted [] s d running i =
        elim (Bool-cases (i == 0 || is_some (lookup i s.conf_set))) [
          | inl old ↦ rw old refl
          | inr new ↦ rw new (some-false (lookup i s.conf_set) (ground arith))
        ]
    resolve_each-wanted ((k, m) ∷ ms) s d running i =
        let on : is_some s.returned ≡ false = rw running refl in
        rw on (elim (Bool-cases (k == 0 || is_some (lookup k s.conf_set))) [
          | inl old ↦
              rw (skipped k m s old)
                (resolve_each-wanted ms s d.1 running i ∙ wanted-skip i k m ms s.conf_set old)
          | inr new ↦
              let (entries, still) = one-lookup k m s running new in
              resolve_each-wanted ms (resolve_one cb t k m s) d.1 still i
              ∙ wanted-taken i k m ms s.conf_set _ d.0 new (entries i)
        ])
