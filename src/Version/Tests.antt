-- ===== src/Version/Tests.antt =====
-- Concrete versions at which the theorems on versions apply.
use controllerbus.Common.{ℕ, List, [], ◌∷◌, ◌++◌, ◌≡◌, refl, arith}
use controllerbus.Version.{Version, ok, dot, base_of, parse_version}
use controllerbus.Version.Parse.{IsPart, decimal, parse_version-parts, parse_version-only}

-- 0.12.3-a
abbrev text : List ℕ
text = 48 ∷ 46 ∷ 49 ∷ 50 ∷ 46 ∷ 51 ∷ 45 ∷ 97 ∷ []

abbrev zero_part : List ℕ
zero_part = 48 ∷ []

abbrev twelve_part : List ℕ
twelve_part = 49 ∷ 50 ∷ []

abbrev three_part : List ℕ
three_part = 51 ∷ []

abbrev version : Version
version = record { value = text; major = 0; minor = 12; patch = 3 }

abbrev later : Version
later = record { value = 49 ∷ []; major = 0; minor = 13; patch = 0 }

zero_part-IsPart : IsPart zero_part
zero_part-IsPart = record { all_digits = (refl, tt); not_empty = refl; fits = omega arith }

twelve_part-IsPart : IsPart twelve_part
twelve_part-IsPart = record {
  all_digits = (refl, (refl, tt));
  not_empty = refl;
  fits = omega arith;
}

three_part-IsPart : IsPart three_part
three_part-IsPart = record { all_digits = (refl, tt); not_empty = refl; fits = omega arith }

parse_version-parts_example : parse_version text ≡ ok version
unfolding base_of
parse_version-parts_example =
    parse_version-parts zero_part twelve_part three_part (45 ∷ 97 ∷ []) zero_part-IsPart
      twelve_part-IsPart three_part-IsPart refl

parse_version-only_example :
    (a : List ℕ) × (b : List ℕ) × (c : List ℕ) × (base_of text ≡ a ++ dot ∷ (b ++ dot ∷ c))
    × IsPart a
    × IsPart b
    × IsPart c
    × (version
        ≡ record { value = text; major = decimal 0 a; minor = decimal 0 b; patch = decimal 0 c })
parse_version-only_example = parse_version-only text version parse_version-parts_example
