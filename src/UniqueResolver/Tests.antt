-- ===== src/UniqueResolver/Tests.antt =====
-- A handler with one cleared slot, at which the theorems on the keyed resolvers apply.
use controllerbus.Common.{
  ℕ, zero, suc, true, false, Option, none, some, [], ◌∷◌, ◌≡◌, refl, sym, ◌∙◌, some_none, lookup,
}
use controllerbus.UniqueResolver.{Emitter, transformed_changed}
use controllerbus.UniqueResolver.Synced.{IsSynced, update}
use controllerbus.UniqueResolver.Changes.{transformed_changed-IsSynced}
use controllerbus.UniqueResolver.Slots.{slot, slots, Slots, slots-IsTable, false_clash}

abbrev nothing_wanted : ℕ → Option ℕ
nothing_wanted k = none

-- One slot has been cleared, and no key has a value.
abbrev cleared : Emitter Slots
cleared = record { value_ids = []; handler = none ∷ [] }

cleared-IsSynced : IsSynced slots slot nothing_wanted cleared
unfolding lookup
cleared-IsSynced = record {
  shown = λ k id found. some_none (sym found);
  complete = λ k x w. some_none (sym w);
  owned = λ id x held. some_none (sym held ∙ slot_cleared id);
  one_key = λ j k id a b. some_none (sym a);
}
  where
    slot_cleared : (i : ℕ) → slot i (none ∷ []) ≡ none
    slot_cleared zero = refl
    slot_cleared (suc i) = refl

-- Key 4 is added with the object 9, and changes to 6.
abbrev shown_once : Emitter Slots
shown_once = transformed_changed slots (λ k v. some v) 4 9 true false cleared

shown_once-IsSynced : IsSynced slots slot (update nothing_wanted 4 (some 9)) shown_once
shown_once-IsSynced =
    transformed_changed-IsSynced slots slot slots-IsTable (λ k v. some v) 4 9 true false
      nothing_wanted cleared (λ e. refl) cleared-IsSynced

transformed_changed-IsSynced_example :
    IsSynced slots slot
      (update (update nothing_wanted 4 (some 9)) 4 (some 6))
      (transformed_changed slots (λ k v. some v) 4 6 false false shown_once)
transformed_changed-IsSynced_example =
    transformed_changed-IsSynced slots slot slots-IsTable (λ k v. some v) 4 6 false false
      (update nothing_wanted 4 (some 9)) shown_once false_clash shown_once-IsSynced
