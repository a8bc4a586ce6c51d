-- ===== src/ConfigSet/Equality.antt =====
-- Equal config sets are those with the same configs under the same keys.
use controllerbus.Common.{
  ℕ, Bool, true, false, Option, none, some, List, [], ◌∷◌, ◌==◌, if◌then◌else◌, lookup, Distinct,
  lookup-hit, lookup-miss, lookup-tail, some_none, Option-cases, ◌≡◌, ◌↔◌, refl, sym, ◌∙◌, arith,
  Bool-cases, ==_iff, inl, inr, subst,
}
use controllerbus.ConfigSet.{ControllerConfig, entry_equal, entries_equal, keys_in, equal}

lookup_nil : (k : ℕ) → lookup {V = ControllerConfig} k [] ≡ none
unfolding lookup
lookup_nil k = refl

false_true : {C : Type 0} → false ≡ true → C
false_true e = cc

both : (a b : Bool) → (if a then b else false) ≡ true → (a ≡ true) × (b ≡ true)
both true b h = (refl, h)
both false b h = false_true h

same_some : {v w : ControllerConfig} → some v ≡ some w → v ≡ w
same_some e = cc

module _ (equals_config : ℕ → ℕ → Bool) where
  -- Both sets miss a key, or both have it, with the same revision and equal configs.
  abbrev pub Matches : Option ControllerConfig → Option ControllerConfig → Type 0
  Matches none none = Unit
  Matches none (some ov) = ⊥
  Matches (some v) none = ⊥
  Matches (some v) (some ov) = (equals_config ov.config v.config ≡ true) × (ov.rev ≡ v.rev)

  Matches-none : (o : Option ControllerConfig) → Matches none o → o ≡ none
  Matches-none none h = refl
  Matches-none (some v) h = elim h [ ]

  entry-Matches :
      (v : ControllerConfig) (o : Option ControllerConfig)
      → (entry_equal equals_config v o ≡ true) ↔ Matches (some v) o
  unfolding entry_equal
  entry-Matches v none = (λ h. false_true h, λ h. elim h [ ])
  entry-Matches v (some ov) = ground (arith)

  entries-match :
      (c os : List (ℕ × ControllerConfig))
      → entries_equal equals_config c os ≡ true
      → (k : ℕ) (v : ControllerConfig) → lookup k c ≡ some v
      → Matches (some v) (lookup k os)
  unfolding entries_equal
  entries-match [] os h k v e = some_none (sym e ∙ lookup_nil k)
  entries-match ((j, w) ∷ c) os h k v e =
      elim (Bool-cases (entry_equal equals_config w (lookup j os))) [
        | inr differ ↦ false_true (rw differ at h)
        | inl same ↦ elim (Bool-cases (j == k)) [
          | inl hit ↦
              let at_k = (==_iff j k).0 hit in
              subst (λ (x : ControllerConfig). Matches (some x) (lookup k os))
                (same_some (
                  sym (lookup-hit k w c)
                  ∙ subst (λ (i : ℕ). lookup k ((i, w) ∷ c) ≡ some v) at_k e))
                (subst (λ (i : ℕ). Matches (some w) (lookup i os)) at_k
                  ((entry-Matches w (lookup j os)).0 same))
          | inr miss ↦ entries-match c os (rw same at h) k v (sym (lookup-miss k j w c miss) ∙ e)
        ]
      ]

  keys-match :
      (os c : List (ℕ × ControllerConfig))
      → keys_in os c ≡ true
      → (k : ℕ) → lookup k c ≡ none
      → lookup k os ≡ none
  unfolding keys_in
  keys-match [] c h k e = lookup_nil k
  keys-match ((j, w) ∷ os) c h k e = elim (Option-cases (lookup j c)) [
    | inl absent ↦ false_true (rw (absent, keys_in) at h)
    | inr (x, found) ↦ elim (Bool-cases (j == k)) [
      | inl hit ↦
          some_none (sym found ∙ subst (λ (i : ℕ). lookup i c ≡ none) (sym ((==_iff j k).0 hit)) e)
      | inr miss ↦ lookup-miss k j w os miss ∙ keys-match os c (rw (found, keys_in) at h) k e
    ]
  ]

  match-entries :
      (c os : List (ℕ × ControllerConfig))
      → Distinct c
      → ((k : ℕ) (v : ControllerConfig) → lookup k c ≡ some v → Matches (some v) (lookup k os))
      → entries_equal equals_config c os ≡ true
  unfolding entries_equal
  match-entries [] os d h = refl
  match-entries ((j, w) ∷ c) os d h =
      rw ((entry-Matches w (lookup j os)).1 (h j w (lookup-hit j w c)))
        (match-entries c os d.1 (λ k v e. h k v (passed k v e)))
    where
      passed : (k : ℕ) (v : ControllerConfig) → lookup k c ≡ some v → lookup k ((j, w) ∷ c) ≡ some v
      passed k v e = elim (Bool-cases (j == k)) [
        | inl hit ↦
            some_none (sym e ∙ subst (λ (i : ℕ). lookup i c ≡ none) ((==_iff j k).0 hit) d.0)
        | inr miss ↦ lookup-miss k j w c miss ∙ e
      ]

  match-keys :
      (os c : List (ℕ × ControllerConfig))
      → ((k : ℕ) → lookup k c ≡ none → lookup k os ≡ none)
      → keys_in os c ≡ true
  unfolding keys_in
  match-keys [] c h = refl
  match-keys ((j, w) ∷ os) c h = elim (Option-cases (lookup j c)) [
    | inl absent ↦ some_none (sym (lookup-hit j w os) ∙ h j absent)
    | inr (x, found) ↦
        rw (found, keys_in) (match-keys os c (λ k e. (lookup-tail k j w os (h k e)).1))
  ]

  -- Of two sets without nil configs, of which the first has no two entries of a key, Equal says
  -- whether under every key they both have nothing or configs that are equal and of one
  -- revision.
  pub equal_iff :
      (c os : List (ℕ × ControllerConfig))
      → Distinct c
      → (equal equals_config (some c) (some os) ≡ true)
        ↔ ((k : ℕ) → Matches (lookup k c) (lookup k os))
  unfolding equal
  equal_iff c os d = (
    λ h k. elim (Option-cases (lookup k c)) [
      | inl absent ↦
          subst (λ (o : Option ControllerConfig). Matches o (lookup k os)) (sym absent)
            (subst (Matches none) (sym (keys-match os c (both _ _ h).1 k absent)) tt)
      | inr (v, found) ↦
          subst (λ (o : Option ControllerConfig). Matches o (lookup k os)) (sym found)
            (entries-match c os (both _ _ h).0 k v found)
    ],
    λ h.
        rw
          (match-entries c os d
            (λ k v e. subst (λ (o : Option ControllerConfig). Matches o (lookup k os)) e (h k)))
          (match-keys os c (λ k e.
            Matches-none (lookup k os)
              (subst (λ (o : Option ControllerConfig). Matches o (lookup k os)) e (h k)))),
  )
