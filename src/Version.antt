-- ===== src/Version.antt =====
-- Controller versions: controller/version.go. A Go string is the list of its bytes, and a uint64 a
-- number that the parser keeps below 2 ^ 64.
pub mod Parse
pub mod Order
pub mod Joining
mod Tests
use controllerbus.Common.{
  ℕ, ◌+◌, ◌-◌, ◌*◌, ◌^◌, Bool, true, false, ◌&&◌, ◌||◌, List, [], ◌∷◌, ltb, leb, ◌==◌, is_empty,
  if◌then◌else◌,
}

pub data VersionError : Type 0 where
  not_major_minor_patch : VersionError
  part_is_empty : VersionError
  invalid_syntax : VersionError
  value_out_of_range : VersionError

pub data Result (A : Type 0) : Type 0 where
  ok : A → Result A
  failed : VersionError → Result A

unfoldable pub ◌>>=◌ : {A B : Type 0} → Result A → (A → Result B) → Result B

infixl 35 ◌>>=◌
ok a >>= f = f a
failed e >>= f = failed e

pub record Version : Type 0 where
  pub value : List ℕ
  pub major : ℕ
  pub minor : ℕ
  pub patch : ℕ

-- What compareVersion returns: -1, 0 or 1.
pub data Sign : Type 0 where
  less : Sign
  equal : Sign
  greater : Sign

abbrev pub dot : ℕ
dot = 46

abbrev pub plus : ℕ
plus = 43

abbrev pub minus : ℕ
minus = 45

-- strings.IndexAny(value, "-+") and the slice before it.
unfoldable pub base_of : List ℕ → List ℕ
base_of [] = []
base_of (c ∷ cs) = if c == minus || c == plus then [] else c ∷ base_of cs

unfoldable pub push_first : ℕ → List (List ℕ) → List (List ℕ)
push_first c [] = (c ∷ []) ∷ []
push_first c (p ∷ ps) = (c ∷ p) ∷ ps

-- strings.Split(s, ".")
unfoldable pub split : List ℕ → List (List ℕ)
split [] = [] ∷ []
split (c ∷ cs) = if c == dot then [] ∷ split cs else push_first c (split cs)

abbrev pub is_digit : ℕ → Bool
is_digit c = leb 48 c && leb c 57

-- The loop of strconv.ParseUint(part, 10, 64).
unfoldable pub digits : ℕ → List ℕ → Result ℕ
digits n [] = ok n
digits n (c ∷ cs) =
    if is_digit c
    then (if ltb (n * 10 + (c - 48)) (2 ^ 64)
        then digits (n * 10 + (c - 48)) cs
        else failed value_out_of_range)
    else failed invalid_syntax

unfoldable pub parse_version_part : List ℕ → Result ℕ
parse_version_part [] = failed part_is_empty
parse_version_part (c ∷ cs) = digits 0 (c ∷ cs)

unfoldable pub parse_parts : List ℕ → List (List ℕ) → Result Version
parse_parts v (a ∷ b ∷ c ∷ []) = do
  x ← parse_version_part a
  y ← parse_version_part b
  z ← parse_version_part c
  ok (record { value = v; major = x; minor = y; patch = z })
parse_parts v _ = failed not_major_minor_patch

unfoldable pub parse_version : List ℕ → Result Version
parse_version v = parse_parts v (split (base_of v))

-- strings.Compare
unfoldable pub compare_strings : List ℕ → List ℕ → Sign
compare_strings [] [] = equal
compare_strings [] (d ∷ ds) = less
compare_strings (c ∷ cs) [] = greater
compare_strings (c ∷ cs) (d ∷ ds) =
    if c == d then compare_strings cs ds else if ltb d c then greater else less

-- A part of two versions that differs decides.
unfoldable pub compare_part : ℕ → ℕ → Sign → Sign
compare_part a b next = if a == b then next else if ltb b a then greater else less

unfoldable pub compare_version : Version → Version → Sign
compare_version a b =
    compare_part a.major b.major (
      compare_part a.minor b.minor (compare_part a.patch b.patch (compare_strings a.value b.value)))

abbrev pub is_positive : Sign → Bool
is_positive less = false
is_positive equal = false
is_positive greater = true

abbrev pub is_nonnegative : Sign → Bool
is_nonnegative less = false
is_nonnegative equal = true
is_nonnegative greater = true

unfoldable pub gt : Version → Version → Bool
gt v other = is_positive (compare_version v other)

unfoldable pub gte : Version → Version → Bool
gte v other = is_nonnegative (compare_version v other)
