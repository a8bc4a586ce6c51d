-- ===== src/ConfigSet/Tests.antt =====
-- Concrete config sets at which the theorems on them apply.
use controllerbus.Common.{ℕ, true, List, [], ◌∷◌, none, some, ◌≡◌, ◌↔◌, refl, ◌==◌, lookup}
use controllerbus.ConfigSet.{ControllerConfig, ConfigSet, merge_config_sets, equal}
use controllerbus.ConfigSet.Merge.{column, IsHighest, merge_config_sets-IsHighest}
use controllerbus.ConfigSet.Equality.{Matches, equal_iff}

abbrev at_rev : ℕ → ControllerConfig
at_rev r = record { rev = r; config = 8 }

abbrev sets : List ConfigSet
sets =
    ((1, some (at_rev 5)) ∷ (2, none) ∷ [])
    ∷ []
    ∷ ((2, some (at_rev 1)) ∷ (1, some (at_rev 3)) ∷ [])
    ∷ []

merge_config_sets-IsHighest_example : IsHighest (column 1 sets) (lookup 1 (merge_config_sets sets))
unfolding lookup
merge_config_sets-IsHighest_example =
    merge_config_sets-IsHighest sets ((refl, (refl, tt)), (tt, ((refl, (refl, tt)), tt))) 1

abbrev two : List (ℕ × ControllerConfig)
two = (1, at_rev 5) ∷ (2, at_rev 6) ∷ []

abbrev two_turned : List (ℕ × ControllerConfig)
two_turned = (2, at_rev 6) ∷ (1, at_rev 5) ∷ []

equal_iff_example :
    (equal ◌==◌ (some two) (some two_turned) ≡ true)
    ↔ ((k : ℕ) → Matches ◌==◌ (lookup k two) (lookup k two_turned))
unfolding lookup
equal_iff_example = equal_iff ◌==◌ two two_turned (refl, (refl, tt))
