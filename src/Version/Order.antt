-- ===== src/Version/Order.antt =====
-- The order of controller versions.
use controllerbus.Common.{
  ℕ, true, false, not, List, [], ◌∷◌, ◌==◌, ◌≡◌, refl, arith, Bool-cases, inl, inr, ==_iff,
}
use controllerbus.Version.{
  Version, Sign, less, equal, greater, compare_strings, compare_part, compare_version, is_positive,
  is_nonnegative, gt, gte,
}

abbrev pub opposite : Sign → Sign
opposite less = greater
opposite equal = equal
opposite greater = less

compare_part-opposite :
    (a b : ℕ) (p q : Sign) → p ≡ opposite q → compare_part a b p ≡ opposite (compare_part b a q)
unfolding compare_part
compare_part-opposite a b p q h = ground arith

compare_strings-opposite : (a b : List ℕ) → compare_strings a b ≡ opposite (compare_strings b a)
unfolding compare_strings compare_part
compare_strings-opposite [] [] = refl
compare_strings-opposite [] (d ∷ ds) = refl
compare_strings-opposite (c ∷ cs) [] = refl
compare_strings-opposite (c ∷ cs) (d ∷ ds) =
    compare_part-opposite c d (compare_strings cs ds) (compare_strings ds cs)
      (compare_strings-opposite cs ds)

-- Comparing two versions the other way around gives the opposite sign.
pub compare_version-opposite :
    (a b : Version) → compare_version a b ≡ opposite (compare_version b a)
unfolding compare_version
compare_version-opposite a b = compare_part-opposite _ _ _ _ (
    compare_part-opposite _ _ _ _
      (compare_part-opposite _ _ _ _ (compare_strings-opposite a.value b.value)))

-- A part that decides for two neighbours decides for the outer two.
compare_part_trans :
    (a b c : ℕ) (p q r : Sign)
    → (is_nonnegative p ≡ true → is_nonnegative q ≡ true → is_nonnegative r ≡ true)
    → is_nonnegative (compare_part a b p) ≡ true
    → is_nonnegative (compare_part b c q) ≡ true
    → is_nonnegative (compare_part a c r) ≡ true
unfolding compare_part
compare_part_trans a b c p q r h l m = ground arith

compare_strings_trans :
    (a b c : List ℕ)
    → is_nonnegative (compare_strings a b) ≡ true
    → is_nonnegative (compare_strings b c) ≡ true
    → is_nonnegative (compare_strings a c) ≡ true
unfolding compare_strings compare_part
compare_strings_trans [] [] c l m = m
compare_strings_trans [] (y ∷ ys) c l m = cc
compare_strings_trans (x ∷ xs) [] [] l m = refl
compare_strings_trans (x ∷ xs) [] (z ∷ zs) l m = cc
compare_strings_trans (x ∷ xs) (y ∷ ys) [] l m = refl
compare_strings_trans (x ∷ xs) (y ∷ ys) (z ∷ zs) l m =
    compare_part_trans x y z _ _ _ (compare_strings_trans xs ys zs) l m

-- GTE is transitive.
pub gte_trans : (a b c : Version) → gte a b ≡ true → gte b c ≡ true → gte a c ≡ true
unfolding gte compare_version
gte_trans a b c l m =
    compare_part_trans _ _ _ _ _ _
      (compare_part_trans _ _ _ _ _ _
        (compare_part_trans _ _ _ _ _ _ (compare_strings_trans a.value b.value c.value)))
      l m

pub gte-opposite : (a b : Version) → gte a b ≡ not (gt b a)
unfolding gte gt
gte-opposite a b = rw (compare_version-opposite a b) (negated (compare_version b a))
  where
    negated : (s : Sign) → is_nonnegative (opposite s) ≡ not (is_positive s)
    negated less = refl
    negated equal = refl
    negated greater = refl

compare_part-equal : (a b : ℕ) (p : Sign) → compare_part a b p ≡ equal → (a ≡ b) × (p ≡ equal)
unfolding compare_part
compare_part-equal a b p h = elim (Bool-cases (a == b)) [
  | inl e ↦ ((==_iff a b).0 e, rw e at h)
  | inr e ↦ ground arith
]

compare_strings-equal : (a b : List ℕ) → compare_strings a b ≡ equal → a ≡ b
unfolding compare_strings compare_part
compare_strings-equal [] [] h = refl
compare_strings-equal [] (d ∷ ds) h = cc
compare_strings-equal (c ∷ cs) [] h = cc
compare_strings-equal (c ∷ cs) (d ∷ ds) h =
    let (e, t) = compare_part-equal c d (compare_strings cs ds) h in
    let rest = compare_strings-equal cs ds t in cc

-- Two versions compare as equal only when they are the same, in every part and in the text.
pub compare_version-equal : (a b : Version) → compare_version a b ≡ equal → a ≡ b
unfolding compare_version
compare_version-equal a b h =
    let (x, h') = compare_part-equal _ _ _ h in
    let (y, h'') = compare_part-equal _ _ _ h' in
    let (z, h''') = compare_part-equal _ _ _ h'' in
    let v = compare_strings-equal a.value b.value h''' in
    λ i. record { value = v i; major = x i; minor = y i; patch = z i }

-- Of two versions one is at least the other.
pub gte-total : (a b : Version) → gte a b ≡ false → gte b a ≡ true
unfolding gte
gte-total a b h =
    turned (compare_version a b) (compare_version b a) (compare_version-opposite a b) h
  where
    turned : (p q : Sign) → p ≡ opposite q → is_nonnegative p ≡ false → is_nonnegative q ≡ true
    turned p less e h = cc
    turned p equal e h = refl
    turned p greater e h = refl

pub gte_refl : (a : Version) → gte a a ≡ true
gte_refl a = elim (Bool-cases (gte a a)) [ inl h ↦ h | inr h ↦ gte-total a a h ]
