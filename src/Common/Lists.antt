-- ===== src/Common/Lists.antt =====
-- Lists measured by native numbers, and the orders on lists that the components keep.
use Prim.Native.Nat.{ℕ, suc, ◌+◌, ◌≤◌, ◌<◌}
use mathlib.Core.Path.{◌≡◌, refl, ap, subst}
use mathlib.Core.List.{List, [], ◌∷◌, ◌++◌, Perm, perm_middle, append-nil}
use mathlib.Core.List.Perm
use mathlib.Core.Option.{Option, none, some}
use mathlib.Core.Logic.{inl, inr}
use mathlib.Core.Bool.{Bool, true, false}
use native.Mathlib.Omega.{arith}
use controllerbus.Common.Tests.{◌==◌, Bool-cases, if◌then◌else◌}

module _ {ℓ} {A : Type ℓ} where
  abbrev pub length : List A → ℕ
  length [] = 0
  length (x ∷ xs) = suc (length xs)

  abbrev pub is_empty : List A → Bool
  is_empty [] = true
  is_empty (x ∷ xs) = false

  pub length-append : (xs ys : List A) → length (xs ++ ys) ≡ length xs + length ys
  length-append [] ys = omega arith
  length-append (x ∷ xs) ys = omega (arith, length-append xs ys)

module _ {ℓ} {A : Type ℓ} where
  unfoldable pub last_or : A → List A → A
  last_or d [] = d
  last_or d (x ∷ xs) = last_or x xs

  unfoldable pub drop_last : List A → List A
  drop_last [] = []
  drop_last (x ∷ []) = []
  drop_last (x ∷ y ∷ xs) = x ∷ drop_last (y ∷ xs)

  -- The last element of a list moves to its front.
  unfoldable pub last_first : List A → List A
  unfolding last_or drop_last
  last_first [] = []
  last_first (x ∷ xs) = last_or x xs ∷ drop_last (x ∷ xs)

  -- `s[i] = s[len-1]; s = s[:len-1]`: the last element takes the place of the first that passes.
  unfoldable pub swap_remove : (A → Bool) → List A → List A
  unfolding last_first
  swap_remove p [] = []
  swap_remove p (x ∷ xs) = if p x then last_first xs else x ∷ swap_remove p xs

  unfoldable pub find_first : (A → Bool) → List A → Option A
  find_first p [] = none
  find_first p (x ∷ xs) = if p x then some x else find_first p xs

  some-injective : {x y : A} → some x ≡ some y → x ≡ y
  some-injective e = cc

  none-elim {κ} : {C : Type κ} {x : A} → some x ≡ none → C
  none-elim e = cc

  head_found :
      (y : A) (xs : List A) (p : A → Bool) (x : A)
      → p y ≡ true
      → find_first p (y ∷ xs) ≡ some x
      → some y ≡ some x
  unfolding find_first
  head_found y xs p x hit e = rw hit at e

  pub drop_last-last : (x : A) (xs : List A) → drop_last (x ∷ xs) ++ last_or x xs ∷ [] ≡ x ∷ xs
  unfolding last_or drop_last
  drop_last-last x [] = refl
  drop_last-last x (y ∷ xs) = ap (λ (l : List A). x ∷ l) (drop_last-last y xs)

  pub last_first-perm : (xs : List A) → Perm xs (last_first xs)
  unfolding last_first
  last_first-perm [] = Perm.nil
  last_first-perm (x ∷ xs) =
      subst (λ (l : List A). Perm l (last_or x xs ∷ drop_last (x ∷ xs))) (drop_last-last x xs)
        (subst (λ (l : List A). Perm (drop_last (x ∷ xs) ++ last_or x xs ∷ []) (last_or x xs ∷ l))
          (append-nil (drop_last (x ∷ xs))) (perm_middle (drop_last (x ∷ xs)) []))

  pub find_first-snoc :
      (p : A → Bool) (xs : List A) (x : A)
      → find_first p xs ≡ none
      → p x ≡ true
      → find_first p (xs ++ x ∷ []) ≡ some x
  unfolding find_first
  find_first-snoc p [] x h e = rw e refl
  find_first-snoc p (y ∷ xs) x h e = elim (Bool-cases (p y)) [
    | inl hit ↦ none-elim (rw (hit, find_first) at h)
    | inr miss ↦ rw miss (find_first-snoc p xs x (rw (miss, find_first) at h) e)
  ]

  pub swap_remove-snoc :
      (p : A → Bool) (xs : List A) (x : A)
      → find_first p xs ≡ none
      → p x ≡ true
      → swap_remove p (xs ++ x ∷ []) ≡ xs
  unfolding find_first swap_remove last_first
  swap_remove-snoc p [] x h e = rw e refl
  swap_remove-snoc p (y ∷ xs) x h e = elim (Bool-cases (p y)) [
    | inl hit ↦ none-elim (rw (hit, find_first) at h)
    | inr miss ↦
        rw (miss, swap_remove)
          (ap (λ (l : List A). y ∷ l) (swap_remove-snoc p xs x (rw (miss, find_first) at h) e))
  ]

  -- What is left is the list without the element that was found, up to order.
  pub swap_remove-perm :
      (p : A → Bool) (xs : List A) (x : A)
      → find_first p xs ≡ some x
      → Perm xs (x ∷ swap_remove p xs)
  unfolding swap_remove find_first
  swap_remove-perm p [] x e = cc
  swap_remove-perm p (y ∷ xs) x e = elim (Bool-cases (p y)) [
    | inl hit ↦
        rw hit (Perm.cons' (some-injective (head_found y xs p x hit e)) (last_first-perm xs))
    | inr miss ↦ rw miss (
        Perm.trans (Perm.cons' refl (swap_remove-perm p xs x (rw miss at e)))
          (Perm.swap x y (swap_remove p xs)))
  ]

  pub swap_remove-none :
      (p : A → Bool) (xs : List A) → find_first p xs ≡ none → swap_remove p xs ≡ xs
  unfolding swap_remove find_first
  swap_remove-none p [] e = refl
  swap_remove-none p (y ∷ xs) e = elim (Bool-cases (p y)) [
    | inl hit ↦ none-elim (rw hit at e)
    | inr miss ↦ rw miss (ap (λ (l : List A). y ∷ l) (swap_remove-none p xs (rw miss at e)))
  ]

abbrev pub All {ℓ κ} : {A : Type ℓ} → (A → Type κ) → List A → Type κ
All P [] = Unit
All P (x ∷ xs) = P x × All P xs

-- lo < x₁ < … < xₖ ≤ hi
abbrev pub Ascending : ℕ → List ℕ → ℕ → Type 0
Ascending lo [] hi = lo ≤ hi
Ascending lo (x ∷ xs) hi = (lo < x) × Ascending x xs hi

unfoldable pub contains : ℕ → List ℕ → Bool
contains k [] = false
contains k (x ∷ xs) = if x == k then true else contains k xs

-- The first occurrence of a number is taken out.
unfoldable pub without : ℕ → List ℕ → List ℕ
without k [] = []
without k (x ∷ xs) = if x == k then xs else x ∷ without k xs

pub Ascending-le : (lo hi : ℕ) (xs : List ℕ) → Ascending lo xs hi → lo ≤ hi
Ascending-le lo hi [] h = h
Ascending-le lo hi (x ∷ xs) h = omega (arith, Ascending-le x hi xs h.1)

pub Ascending-lower :
    (lo lo' hi : ℕ) (xs : List ℕ) → lo' ≤ lo → Ascending lo xs hi → Ascending lo' xs hi
Ascending-lower lo lo' hi [] l h = omega arith
Ascending-lower lo lo' hi (x ∷ xs) l h = (omega arith, h.1)

pub Ascending-upper :
    (lo hi hi' : ℕ) (xs : List ℕ) → hi ≤ hi' → Ascending lo xs hi → Ascending lo xs hi'
Ascending-upper lo hi hi' [] l h = omega arith
Ascending-upper lo hi hi' (x ∷ xs) l h = (h.0, Ascending-upper x hi hi' xs l h.1)

pub Ascending-snoc :
    (lo hi k : ℕ) (xs : List ℕ) → hi < k → Ascending lo xs hi → Ascending lo (xs ++ k ∷ []) k
Ascending-snoc lo hi k [] l h = (omega arith, omega arith)
Ascending-snoc lo hi k (x ∷ xs) l h = (h.0, Ascending-snoc x hi k xs l h.1)

pub without-Ascending :
    (k lo hi : ℕ) (xs : List ℕ) → Ascending lo xs hi → Ascending lo (without k xs) hi
unfolding without
without-Ascending k lo hi [] h = h
without-Ascending k lo hi (x ∷ xs) h =
    ground (arith, without-Ascending k x hi xs h.1, Ascending-lower x lo hi xs (omega arith) h.1)
