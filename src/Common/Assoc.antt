-- ===== src/Common/Assoc.antt =====
-- Maps as association lists: the first entry of a key counts, and a key that is new goes last.
use Prim.Native.Nat.{ℕ}
use mathlib.Core.Path.{◌≡◌, refl, sym, ap, ◌∙◌, subst}
use mathlib.Core.List.{List, [], ◌∷◌}
use mathlib.Core.Option.{Option, none, some}
use mathlib.Core.Logic.{inl, inr}
use mathlib.Core.Bool.{false}
use native.Mathlib.Omega.{arith}
use controllerbus.Common.Tests.{◌==◌, Bool-cases, if◌then◌else◌, ==_refl, ==_iff}

pub some_none {ℓ κ} : {C : Type κ} {A : Type ℓ} {v : A} → some v ≡ none → C
some_none e = cc

module _ {ℓ} {V : Type ℓ} where
  unfoldable pub lookup : ℕ → List (ℕ × V) → Option V
  lookup k [] = none
  lookup k ((j, v) ∷ m) = if j == k then some v else lookup k m

  unfoldable pub insert : ℕ → V → List (ℕ × V) → List (ℕ × V)
  insert k v [] = (k, v) ∷ []
  insert k v ((j, w) ∷ m) = if j == k then (k, v) ∷ m else (j, w) ∷ insert k v m

  unfoldable pub delete : ℕ → List (ℕ × V) → List (ℕ × V)
  delete k [] = []
  delete k ((j, w) ∷ m) = if j == k then delete k m else (j, w) ∷ delete k m

  -- No key has two entries.
  abbrev pub Distinct : List (ℕ × V) → Type ℓ
  Distinct [] = Unit
  Distinct ((k, v) ∷ m) = (lookup k m ≡ none) × Distinct m

  pub lookup-insert : (k : ℕ) (v : V) (m : List (ℕ × V)) → lookup k (insert k v m) ≡ some v
  unfolding lookup insert
  lookup-insert k v [] = ground arith
  lookup-insert k v ((j, w) ∷ m) = ground (arith, lookup-insert k v m)

  pub lookup-insert_other :
      (i k : ℕ) (v : V) (m : List (ℕ × V)) → (k == i) ≡ false → lookup i (insert k v m) ≡ lookup i m
  unfolding lookup insert
  lookup-insert_other i k v [] h = ground arith
  lookup-insert_other i k v ((j, w) ∷ m) h = ground (arith, lookup-insert_other i k v m h)

  pub lookup-delete : (k : ℕ) (m : List (ℕ × V)) → lookup k (delete k m) ≡ none
  unfolding lookup delete
  lookup-delete k [] = refl
  lookup-delete k ((j, w) ∷ m) = ground (arith, lookup-delete k m)

  pub lookup-delete_other :
      (i k : ℕ) (m : List (ℕ × V)) → (k == i) ≡ false → lookup i (delete k m) ≡ lookup i m
  unfolding lookup delete
  lookup-delete_other i k [] h = refl
  lookup-delete_other i k ((j, w) ∷ m) h = ground (arith, lookup-delete_other i k m h)

  pub lookup-hit : (k : ℕ) (v : V) (m : List (ℕ × V)) → lookup k ((k, v) ∷ m) ≡ some v
  unfolding lookup
  lookup-hit k v m = rw (==_refl k) refl

  pub lookup-miss :
      (k j : ℕ) (v : V) (m : List (ℕ × V)) → (j == k) ≡ false → lookup k ((j, v) ∷ m) ≡ lookup k m
  unfolding lookup
  lookup-miss k j v m miss = rw miss refl

  -- A key that is missing is neither the first nor in the rest.
  pub lookup-tail :
      (k j : ℕ) (v : V) (m : List (ℕ × V))
      → lookup k ((j, v) ∷ m) ≡ none
      → ((j == k) ≡ false) × (lookup k m ≡ none)
  unfolding lookup
  lookup-tail k j v m h = elim (Bool-cases (j == k)) [
    | inl hit ↦ some_none (rw hit at h)
    | inr miss ↦ (miss, rw miss at h)
  ]

  pub delete-absent : (k : ℕ) (m : List (ℕ × V)) → lookup k m ≡ none → delete k m ≡ m
  unfolding lookup delete
  delete-absent k [] h = refl
  delete-absent k ((j, v) ∷ m) h =
      let (miss, rest) = lookup-tail k j v m h in
      rw miss (ap (λ (l : List (ℕ × V)). (j, v) ∷ l) (delete-absent k m rest))

  delete-absent_other :
      (i k : ℕ) (m : List (ℕ × V)) → lookup i m ≡ none → lookup i (delete k m) ≡ none
  delete-absent_other i k m h = elim (Bool-cases (k == i)) [
    | inl hit ↦
        subst (λ (n : ℕ). lookup i (delete n m) ≡ none) (sym ((==_iff k i).0 hit))
          (lookup-delete i m)
    | inr miss ↦ lookup-delete_other i k m miss ∙ h
  ]

  pub delete-Distinct : (k : ℕ) (m : List (ℕ × V)) → Distinct m → Distinct (delete k m)
  unfolding delete
  delete-Distinct k [] d = tt
  delete-Distinct k ((j, v) ∷ m) d = elim (Bool-cases (j == k)) [
    | inl hit ↦ rw hit (delete-Distinct k m d.1)
    | inr miss ↦ rw miss (delete-absent_other j k m d.0, delete-Distinct k m d.1)
  ]

  pub insert-Distinct : (k : ℕ) (v : V) (m : List (ℕ × V)) → Distinct m → Distinct (insert k v m)
  unfolding insert lookup
  insert-Distinct k v [] d = (refl, tt)
  insert-Distinct k v ((j, w) ∷ m) d = elim (Bool-cases (j == k)) [
    | inl hit ↦ rw hit (subst (λ (n : ℕ). lookup n m ≡ none) ((==_iff j k).0 hit) d.0, d.1)
    | inr miss ↦
        rw miss (lookup-insert_other j k v m (ground arith) ∙ d.0, insert-Distinct k v m d.1)
  ]
