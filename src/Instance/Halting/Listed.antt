-- ===== src/Instance/Halting/Listed.antt =====
-- Lists of pointers that get shorter, and their elements, for the loops of directive/controller/instance.go.
use controllerbus.Common.{
  ℕ, zero, suc, ◌≤◌, ◌<◌, ◌≡◌, true, none, some, List, [], ◌∷◌, length, contains, without, arith,
}
use controllerbus.Instance.Lifecycle.{nth, last_of}

pub length-without :
    (k : ℕ) (xs : List ℕ) → contains k xs ≡ true → length xs ≡ suc (length (without k xs))
unfolding contains without
length-without k [] h = cc
length-without k (x ∷ xs) h = ground (arith, length-without k xs)

pub last_of-contains : (xs : List ℕ) (x : ℕ) → last_of xs ≡ some x → contains x xs ≡ true
unfolding last_of contains
last_of-contains [] x e = cc
last_of-contains (y ∷ []) x e = ground arith
last_of-contains (y ∷ z ∷ xs) x e = ground (arith, last_of-contains (z ∷ xs) x e)

pub last_of-none : (xs : List ℕ) → last_of xs ≡ none → length xs ≤ 0
unfolding last_of
last_of-none [] e = omega arith
last_of-none (y ∷ []) e = cc
last_of-none (y ∷ z ∷ xs) e = let r = last_of-none (z ∷ xs) e in absurd (omega arith)

pub nth-contains : (xs : List ℕ) (i x : ℕ) → nth xs i ≡ some x → contains x xs ≡ true
unfolding nth contains
nth-contains [] i x e = cc
nth-contains (y ∷ xs) zero x e = ground arith
nth-contains (y ∷ xs) (suc i) x e = ground (arith, nth-contains xs i x e)

pub nth-lt : (xs : List ℕ) (i x : ℕ) → nth xs i ≡ some x → i < length xs
unfolding nth
nth-lt [] i x e = cc
nth-lt (y ∷ xs) zero x e = omega arith
nth-lt (y ∷ xs) (suc i) x e = omega (arith, nth-lt xs i x e)
