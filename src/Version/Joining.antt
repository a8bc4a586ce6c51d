-- ===== src/Version/Joining.antt =====
-- A text is its parts with the dots between them: split of controller/version.go.
use controllerbus.Common.{
  ℕ, true, false, List, [], ◌∷◌, ◌++◌, ◌==◌, ◌≡◌, refl, ap, sym, ◌∙◌, Bool-cases, ==_iff, inl, inr,
}
use controllerbus.Version.{dot, push_first, split}

-- The parts with dots between them.
abbrev pub join : List (List ℕ) → List ℕ
join [] = []
join (p ∷ []) = p
join (p ∷ q ∷ ps) = p ++ dot ∷ join (q ∷ ps)

join-push : (c : ℕ) (p : List ℕ) (ps : List (List ℕ)) → join ((c ∷ p) ∷ ps) ≡ c ∷ join (p ∷ ps)
join-push c p [] = refl
join-push c p (q ∷ ps) = refl

split-some : (s : List ℕ) → (p : List ℕ) × (ps : List (List ℕ)) × (split s ≡ p ∷ ps)
unfolding split push_first
split-some [] = ([], [], refl)
split-some (c ∷ cs) = elim (Bool-cases (c == dot)) [
  | inl hit ↦ ([], split cs, rw hit refl)
  | inr miss ↦ let (p, ps, e) = split-some cs in (c ∷ p, ps, rw (miss, e) refl)
]

split-hit : (c : ℕ) (cs : List ℕ) → (c == dot) ≡ true → split (c ∷ cs) ≡ [] ∷ split cs
unfolding split
split-hit c cs hit = rw hit refl

split-miss : (c : ℕ) (cs : List ℕ) → (c == dot) ≡ false → split (c ∷ cs) ≡ push_first c (split cs)
unfolding split
split-miss c cs miss = rw miss refl

split_nil : split [] ≡ [] ∷ []
unfolding split
split_nil = refl

pub join-split : (s : List ℕ) → join (split s) ≡ s
unfolding push_first
join-split [] = ap join split_nil
join-split (c ∷ cs) =
    let (p, ps, e) = split-some cs in
    let ih = ap join (sym e) ∙ join-split cs in
    elim (Bool-cases (c == dot)) [
      | inl hit ↦
          ap join (split-hit c cs hit ∙ ap (λ (l : List (List ℕ)). [] ∷ l) e)
          ∙ (λ i. sym ((==_iff c dot).0 hit) i ∷ ih i)
      | inr miss ↦
          ap join (split-miss c cs miss ∙ ap (push_first c) e)
          ∙ join-push c p ps
          ∙ ap (λ (l : List ℕ). c ∷ l) ih
    ]
