-- ===== src/ConfigSet/Merge.antt =====
-- Merged config sets hold the highest revision of each key.
use controllerbus.Common.{
  ℕ, ◌≤◌, ◌<◌, Option, none, some, List, [], ◌∷◌, ltb, lookup, Distinct, All, some_none, ◌≡◌, refl,
  sym, ap, ◌∙◌, arith, Bool-cases, inl, inr, subst, ◌⊎◌,
}
use controllerbus.ConfigSet.{
  ControllerConfig, ConfigSet, merge_set, merge_config_set_maps, merge_config_sets, non_empty_maps,
  merge_config_set_messages,
}
use controllerbus.ConfigSet.Entries.{held, newer, same_some, merge_set-lookup}

newest : Option ControllerConfig → List (Option ControllerConfig) → Option ControllerConfig
newest o [] = o
newest o (v ∷ vs) = newest (newer o v) vs

abbrev pub column : ℕ → List ConfigSet → List (Option ControllerConfig)
column k [] = []
column k (set ∷ sets) = held k set ∷ column k sets

maps-lookup :
    (k : ℕ) (out : List (ℕ × ControllerConfig)) (sets : List ConfigSet)
    → All Distinct sets
    → lookup k (merge_config_set_maps out sets) ≡ newest (lookup k out) (column k sets)
unfolding merge_config_set_maps newest
maps-lookup k out [] d = refl
maps-lookup k out (set ∷ sets) d =
    maps-lookup k (merge_set out set) sets d.1
    ∙ ap (λ (o : Option ControllerConfig). newest o (column k sets))
        (merge_set-lookup k out set d.0)

abbrev pub RevAtMost : ℕ → Option ControllerConfig → Type 0
RevAtMost r none = Unit
RevAtMost r (some v) = v.rev ≤ r

abbrev pub RevBelow : ℕ → Option ControllerConfig → Type 0
RevBelow r none = Unit
RevBelow r (some v) = v.rev < r

-- A list in which a config stands with no higher revision before it and only lower ones after it.
abbrev pub HighestIn : List (Option ControllerConfig) → ControllerConfig → Type 0
HighestIn [] w = ⊥
HighestIn (v ∷ vs) w =
    ((v ≡ some w) × All (RevBelow w.rev) vs) ⊎ (RevAtMost w.rev v × HighestIn vs w)

-- The last of those with the highest revision, and nothing if all are nil.
abbrev pub IsHighest : List (Option ControllerConfig) → Option ControllerConfig → Type 0
IsHighest vs none = All (λ v. v ≡ none) vs
IsHighest vs (some w) = HighestIn vs w

nil_first :
    (vs : List (Option ControllerConfig)) (r : Option ControllerConfig)
    → IsHighest vs r
    → IsHighest (none ∷ vs) r
nil_first vs none h = (refl, h)
nil_first vs (some w) h = inr (tt, h)

nil_second :
    (o : Option ControllerConfig) (vs : List (Option ControllerConfig))
    (r : Option ControllerConfig)
    → IsHighest (o ∷ vs) r
    → IsHighest (o ∷ none ∷ vs) r
nil_second o vs none (p, q) = (p, (refl, q))
nil_second o vs (some w) (inl (e, q)) = inl (e, (tt, q))
nil_second o vs (some w) (inr (le, q)) = inr (le, inr (tt, q))

lower_second :
    (w v : ControllerConfig) (vs : List (Option ControllerConfig)) (r : Option ControllerConfig)
    → v.rev < w.rev
    → IsHighest (some w ∷ vs) r
    → IsHighest (some w ∷ some v ∷ vs) r
lower_second w v vs none l (p, q) = some_none p
lower_second w v vs (some x) l (inl (e, q)) =
    inl
      (e, (subst (λ (n : ℕ). v.rev < n) (ap (λ (c : ControllerConfig). c.rev) (same_some e)) l, q))
lower_second w v vs (some x) l (inr (le, q)) = inr (le, inr (omega arith, q))

higher_second :
    (w v : ControllerConfig) (vs : List (Option ControllerConfig)) (r : Option ControllerConfig)
    → w.rev ≤ v.rev
    → IsHighest (some v ∷ vs) r
    → IsHighest (some w ∷ some v ∷ vs) r
higher_second w v vs none l (p, q) = some_none p
higher_second w v vs (some x) l (inl (e, q)) = inr (
  subst (λ (n : ℕ). w.rev ≤ n) (ap (λ (c : ControllerConfig). c.rev) (same_some e)) l,
  inl (e, q),
)
higher_second w v vs (some x) l (inr (le, q)) = inr (omega arith, inr (le, q))

newest-IsHighest :
    (o : Option ControllerConfig) (vs : List (Option ControllerConfig))
    → IsHighest (o ∷ vs) (newest o vs)
unfolding newest
newest-IsHighest none [] = (refl, tt)
newest-IsHighest (some w) [] = inl (refl, tt)
newest-IsHighest o (none ∷ vs) = nil_second o vs _ (newest-IsHighest o vs)
newest-IsHighest none (some v ∷ vs) = nil_first (some v ∷ vs) _ (newest-IsHighest (some v) vs)
newest-IsHighest (some w) (some v ∷ vs) = elim (Bool-cases (ltb v.rev w.rev)) [
  | inl lower ↦ rw lower (lower_second w v vs _ (ground arith) (newest-IsHighest (some w) vs))
  | inr higher ↦ rw higher (higher_second w v vs _ (ground arith) (newest-IsHighest (some v) vs))
]

without_nil :
    (vs : List (Option ControllerConfig)) (r : Option ControllerConfig)
    → IsHighest (none ∷ vs) r
    → IsHighest vs r
without_nil vs none (p, q) = q
without_nil vs (some w) (inl (e, q)) = some_none (sym e)
without_nil vs (some w) (inr (le, q)) = q

-- The merge of sets, none of which has two entries of a key, holds under each key the config
-- with the highest revision that any of them has there, of those the one of the last set, and
-- nothing if no set has any but a nil config.
pub merge_config_sets-IsHighest :
    (sets : List ConfigSet)
    → All Distinct sets
    → (k : ℕ) → IsHighest (column k sets) (lookup k (merge_config_sets sets))
unfolding merge_config_sets lookup
merge_config_sets-IsHighest sets d k =
    subst (IsHighest (column k sets)) (sym (maps-lookup k [] sets d))
      (without_nil (column k sets) _ (newest-IsHighest none (column k sets)))

non_empty-same :
    (out : List (ℕ × ControllerConfig)) (sets : List ConfigSet)
    → merge_config_set_maps out (non_empty_maps sets) ≡ merge_config_set_maps out sets
unfolding merge_config_set_maps non_empty_maps merge_set
non_empty-same out [] = refl
non_empty-same out ([] ∷ sets) = non_empty-same out sets
non_empty-same out ((e ∷ set) ∷ sets) = non_empty-same (merge_set out (e ∷ set)) sets

-- The merge of messages, which leaves out the empty ones, is the merge of the sets.
pub merge_config_set_messages-same :
    (sets : List ConfigSet) → merge_config_set_messages sets ≡ merge_config_sets sets
unfolding merge_config_set_messages merge_config_sets
merge_config_set_messages-same sets = non_empty-same [] sets
