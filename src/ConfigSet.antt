-- ===== src/ConfigSet.antt =====
-- Sets of controller configs: controller/configset/configset.go and the merges of
-- controller/configset/proto/configset.go. A key is a number, a set is the list of its entries in
-- the order in which a loop meets them, and `none` as an entry's value is a nil config.
pub mod Merge
pub mod Equality
pub mod Entries
mod Tests
use controllerbus.Common.{
  ℕ, Bool, true, false, not, Option, none, some, List, [], ◌∷◌, ltb, ◌==◌, is_empty, if◌then◌else◌,
  lookup, insert,
}

pub record ControllerConfig : Type 0 where
  pub rev : ℕ
  pub config : ℕ

abbrev pub ConfigSet : Type 0
ConfigSet = List (ℕ × Option ControllerConfig)

-- `out[k] = v`, unless the entry that is there has a higher revision.
unfoldable pub merge_entry :
    List (ℕ × ControllerConfig) → ℕ → Option ControllerConfig → List (ℕ × ControllerConfig)
merge_entry out k none = out
merge_entry out k (some v) = elim (lookup k out) [
  | none ↦ insert k v out
  | some existing ↦ if ltb v.rev existing.rev then out else insert k v out
]

unfoldable pub merge_set : List (ℕ × ControllerConfig) → ConfigSet → List (ℕ × ControllerConfig)
merge_set out [] = out
merge_set out ((k, v) ∷ set) = merge_set (merge_entry out k v) set

-- MergeConfigSetMaps
unfoldable pub merge_config_set_maps :
    List (ℕ × ControllerConfig) → List ConfigSet → List (ℕ × ControllerConfig)
merge_config_set_maps out [] = out
merge_config_set_maps out (set ∷ sets) = merge_config_set_maps (merge_set out set) sets

unfoldable pub merge_config_sets : List ConfigSet → List (ℕ × ControllerConfig)
merge_config_sets sets = merge_config_set_maps [] sets

-- MergeConfigSets of the messages passes over those without entries.
unfoldable pub non_empty_maps : List ConfigSet → List ConfigSet
non_empty_maps [] = []
non_empty_maps (set ∷ sets) =
    if is_empty set then non_empty_maps sets else set ∷ non_empty_maps sets

unfoldable pub merge_config_set_messages : List ConfigSet → List (ℕ × ControllerConfig)
merge_config_set_messages sets = merge_config_set_maps [] (non_empty_maps sets)

unfoldable pub keys_in : List (ℕ × ControllerConfig) → List (ℕ × ControllerConfig) → Bool
keys_in [] c = true
keys_in ((k, v) ∷ os) c = elim (lookup k c) [ none ↦ false | some w ↦ keys_in os c ]

module _ (equals_config : ℕ → ℕ → Bool) where
  unfoldable pub entry_equal : ControllerConfig → Option ControllerConfig → Bool
  entry_equal v none = false
  entry_equal v (some ov) = if equals_config ov.config v.config then ov.rev == v.rev else false

  unfoldable pub entries_equal : List (ℕ × ControllerConfig) → List (ℕ × ControllerConfig) → Bool
  entries_equal [] os = true
  entries_equal ((k, v) ∷ c) os = if entry_equal v (lookup k os) then entries_equal c os else false

  -- ConfigSet.Equal of sets that hold no nil config; a nil set equals none.
  unfoldable pub equal :
      Option (List (ℕ × ControllerConfig)) → Option (List (ℕ × ControllerConfig)) → Bool
  equal none os = false
  equal (some c) none = false
  equal (some c) (some os) = if entries_equal c os then keys_in os c else false
