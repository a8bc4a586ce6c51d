-- ===== src/ConfigController/Collecting.antt =====
-- Which running controllers the loop of controller/configset/controller keeps, starts and stops.
use controllerbus.Common.{
  ℕ, Bool, true, false, ◌&&◌, Option, none, some, List, [], ◌∷◌, ◌==◌, ◌≡◌, refl, sym, ap, ◌∙◌, ◌⊎◌,
  inl, inr, Bool-cases, Option-cases, if◌then◌else◌, arith, subst, ==_iff, is_empty, is_some,
  lookup, lookup-delete, lookup-delete_other, lookup-miss, lookup-hit,
}
use controllerbus.ConfigController.{ConfigSets, RunningController}
use controllerbus.ConfigController.Loop.{Loop, collect_garbage, stop_missing, collect}

-- What is left of a controller: nothing if it runs without a reference.
abbrev pub survivor : Bool → (ℕ → RunningController) → Option ℕ → Option ℕ
survivor runs rc_at none = none
survivor runs rc_at (some r) = if runs && is_empty (rc_at r).refs then none else some r

abbrev collect_one : ℕ → ℕ → Loop → Loop
collect_one k ctx l = stop_missing k ctx (record l { sets = collect_garbage k l.sets })

garbage-rc : (k : ℕ) (s : ConfigSets) → (collect_garbage k s).rc_at ≡ s.rc_at
unfolding collect_garbage
garbage-rc k s = elim (Option-cases (lookup k s.controllers)) [
  | inl absent ↦ rw (absent, collect_garbage) refl
  | inr (r, found) ↦ elim (Bool-cases (is_empty (s.rc_at r).refs)) [
    | inl e ↦ rw (found, e, collect_garbage) refl
    | inr e ↦ rw (found, e, collect_garbage) refl
  ]
]

garbage-same :
    (k : ℕ) (s : ConfigSets)
    → lookup k (collect_garbage k s).controllers ≡ survivor true s.rc_at (lookup k s.controllers)
unfolding collect_garbage
garbage-same k s = elim (Option-cases (lookup k s.controllers)) [
  | inl absent ↦ rw (absent, collect_garbage) absent
  | inr (r, found) ↦ elim (Bool-cases (is_empty (s.rc_at r).refs)) [
    | inl e ↦ rw (found, e, collect_garbage) (lookup-delete k s.controllers)
    | inr e ↦ rw (found, e, collect_garbage) found
  ]
]

garbage-other :
    (i k : ℕ) (s : ConfigSets)
    → (k == i) ≡ false
    → lookup i (collect_garbage k s).controllers ≡ lookup i s.controllers
unfolding collect_garbage
garbage-other i k s miss = elim (Option-cases (lookup k s.controllers)) [
  | inl absent ↦ rw (absent, collect_garbage) refl
  | inr (r, found) ↦ elim (Bool-cases (is_empty (s.rc_at r).refs)) [
    | inl e ↦ rw (found, e, collect_garbage) (lookup-delete_other i k s.controllers miss)
    | inr e ↦ rw (found, e, collect_garbage) refl
  ]
]

stop-sets : (k ctx : ℕ) (l : Loop) → (stop_missing k ctx l).sets ≡ l.sets
unfolding stop_missing
stop-sets k ctx l = elim (Option-cases (lookup k l.sets.controllers)) [
  | inl absent ↦ rw (absent, stop_missing) refl
  | inr (r, found) ↦ rw (found, stop_missing) refl
]

stop-other :
    (i k ctx : ℕ) (l : Loop)
    → (k == i) ≡ false
    → lookup i (stop_missing k ctx l).exec ≡ lookup i l.exec
unfolding stop_missing
stop-other i k ctx l miss = elim (Option-cases (lookup k l.sets.controllers)) [
  | inl absent ↦ rw (absent, stop_missing) (lookup-delete_other i k l.exec miss)
  | inr (r, found) ↦ rw (found, stop_missing) refl
]

pub lookup_nil : (k : ℕ) → lookup {V = ℕ} k [] ≡ none
unfolding lookup
lookup_nil k = refl

-- A key that runs has a controller.
abbrev pub Settled : ℕ → Loop → Type 0
Settled k l = (lookup k l.exec ≡ none) ⊎ (is_some (lookup k l.sets.controllers) ≡ true)

stop-Settled : (k ctx : ℕ) (l : Loop) → Settled k (stop_missing k ctx l)
unfolding stop_missing
stop-Settled k ctx l = elim (Option-cases (lookup k l.sets.controllers)) [
  | inl absent ↦ rw (absent, stop_missing) (inl (lookup-delete k l.exec))
  | inr (r, found) ↦ rw (found, stop_missing) (inr (rw found refl))
]

collect_one-controllers :
    (k ctx : ℕ) (l : Loop) → (collect_one k ctx l).sets ≡ collect_garbage k l.sets
collect_one-controllers k ctx l = stop-sets k ctx (record l { sets = collect_garbage k l.sets })

one-rc : (k ctx : ℕ) (l : Loop) → (collect_one k ctx l).sets.rc_at ≡ l.sets.rc_at
one-rc k ctx l =
    ap (λ (x : ConfigSets). x.rc_at) (collect_one-controllers k ctx l) ∙ garbage-rc k l.sets

one-same :
    (k ctx : ℕ) (l : Loop)
    → lookup k (collect_one k ctx l).sets.controllers
      ≡ survivor true l.sets.rc_at (lookup k l.sets.controllers)
one-same k ctx l =
    ap (λ (x : ConfigSets). lookup k x.controllers) (collect_one-controllers k ctx l)
    ∙ garbage-same k l.sets

one-other :
    (k j ctx : ℕ) (l : Loop)
    → (j == k) ≡ false
    → lookup k (collect_one j ctx l).sets.controllers ≡ lookup k l.sets.controllers
one-other k j ctx l miss =
    ap (λ (x : ConfigSets). lookup k x.controllers) (collect_one-controllers j ctx l)
    ∙ garbage-other k j l.sets miss

one-Settled :
    (k j ctx : ℕ) (l : Loop) → (j == k) ≡ false → Settled k l → Settled k (collect_one j ctx l)
one-Settled k j ctx l miss (inl e) =
    inl (stop-other k j ctx (record l { sets = collect_garbage j l.sets }) miss ∙ e)
one-Settled k j ctx l miss (inr e) = inr (ap is_some (one-other k j ctx l miss) ∙ e)

pub collect-Settled :
    (k : ℕ) (entries : List (ℕ × ℕ)) (l : Loop)
    → (lookup k entries ≡ none → Settled k l)
    → Settled k (collect entries l)
unfolding collect
collect-Settled k [] l h = h (lookup_nil k)
collect-Settled k ((j, ctx) ∷ entries) l h = collect-Settled k entries (collect_one j ctx l) λ e.
    elim (Bool-cases (j == k)) [
      | inl hit ↦
          subst (λ (i : ℕ). Settled i (collect_one j ctx l)) ((==_iff j k).0 hit)
            (stop-Settled j ctx (record l { sets = collect_garbage j l.sets }))
      | inr miss ↦ one-Settled k j ctx l miss (h (lookup-miss k j ctx entries miss ∙ e))
    ]

survivor-idle : (rc_at : ℕ → RunningController) (o : Option ℕ) → survivor false rc_at o ≡ o
survivor-idle rc_at none = refl
survivor-idle rc_at (some r) = refl

survivor-twice :
    (runs : Bool) (rc_at : ℕ → RunningController) (o : Option ℕ)
    → survivor runs rc_at (survivor true rc_at o) ≡ survivor true rc_at o
survivor-twice runs rc_at none = refl
survivor-twice runs rc_at (some r) = elim (Bool-cases (is_empty (rc_at r).refs)) [
  | inl e ↦ rw e refl
  | inr e ↦ ground (arith, e)
]

-- The keys that run when the round begins are looked at, each with its controller.
unfoldable pub CollectsTo : ℕ → List (ℕ × ℕ) → Loop → Type 0
CollectsTo k entries l =
    lookup k (collect entries l).sets.controllers
    ≡ survivor (is_some (lookup k entries)) l.sets.rc_at (lookup k l.sets.controllers)

collect-hit :
    (k ctx : ℕ) (entries : List (ℕ × ℕ)) (l : Loop)
    → CollectsTo k entries (collect_one k ctx l)
    → CollectsTo k ((k, ctx) ∷ entries) l
unfolding collect CollectsTo
collect-hit k ctx entries l h =
    h
    ∙ ap
        (λ (rc : ℕ → RunningController).
          survivor (is_some (lookup k entries)) rc
            (lookup k (collect_one k ctx l).sets.controllers))
        (one-rc k ctx l)
    ∙ ap (survivor (is_some (lookup k entries)) l.sets.rc_at) (one-same k ctx l)
    ∙ survivor-twice (is_some (lookup k entries)) l.sets.rc_at (lookup k l.sets.controllers)
    ∙ ap (λ (o : Option ℕ). survivor (is_some o) l.sets.rc_at (lookup k l.sets.controllers))
        (sym (lookup-hit k ctx entries))

collect-miss :
    (k j ctx : ℕ) (entries : List (ℕ × ℕ)) (l : Loop)
    → (j == k) ≡ false
    → CollectsTo k entries (collect_one j ctx l)
    → CollectsTo k ((j, ctx) ∷ entries) l
unfolding collect CollectsTo
collect-miss k j ctx entries l miss h =
    h
    ∙ ap
        (λ (rc : ℕ → RunningController).
          survivor (is_some (lookup k entries)) rc
            (lookup k (collect_one j ctx l).sets.controllers))
        (one-rc j ctx l)
    ∙ ap (survivor (is_some (lookup k entries)) l.sets.rc_at) (one-other k j ctx l miss)
    ∙ ap (λ (o : Option ℕ). survivor (is_some o) l.sets.rc_at (lookup k l.sets.controllers))
        (sym (lookup-miss k j ctx entries miss))

collect_nil : (k : ℕ) (l : Loop) → CollectsTo k [] l
unfolding CollectsTo collect lookup
collect_nil k l = sym (survivor-idle l.sets.rc_at (lookup k l.sets.controllers))

pub collect-survivor : (k : ℕ) (entries : List (ℕ × ℕ)) (l : Loop) → CollectsTo k entries l
collect-survivor k [] l = collect_nil k l
collect-survivor k ((j, ctx) ∷ entries) l = elim (Bool-cases (j == k)) [
  | inl hit ↦
      subst (λ (i : ℕ). CollectsTo k ((i, ctx) ∷ entries) l) (sym ((==_iff j k).0 hit))
        (collect-hit k ctx entries l (collect-survivor k entries (collect_one k ctx l)))
  | inr miss ↦
      collect-miss k j ctx entries l miss (collect-survivor k entries (collect_one j ctx l))
]
