-- ===== src/UniqueResolver.antt =====
-- Resolvers of keyed objects: directive/unique-list-resolver.go and directive/unique-map-resolver.go.
-- The keyed list or map, of another module, calls a function for each key that is added, changed or
-- removed; the function keeps the ids of the values that it has added to the value handler.
pub mod Synced
pub mod Changes
pub mod Slots
mod Tests
use controllerbus.Common.{
  ℕ, Bool, true, false, Option, none, some, List, [], ◌∷◌, if◌then◌else◌, lookup, insert, delete,
}

-- A value handler: `add` gives the id of a value that is accepted.
pub record ValueHandler (S : Type 0) : Type 0 where
  pub add : ℕ → S → Option ℕ × S
  pub remove : ℕ → S → S

pub record Emitter (S : Type 0) : Type 0 where
  pub value_ids : List (ℕ × ℕ)
  pub handler : S

module _ {S : Type 0} (hnd : ValueHandler S) where
  unfoldable pub emit : ℕ → ℕ → Emitter S → Emitter S
  emit k x e =
      let (id, s) = hnd.add x e.handler in
      elim id [
        | none ↦ record e { handler = s }
        | some val_id ↦ record { value_ids = insert k val_id e.value_ids; handler = s }
      ]

  unfoldable pub retract : ℕ → Emitter S → Emitter S
  retract k e = elim (lookup k e.value_ids) [
    | none ↦ e
    | some val_id ↦ record {
      value_ids = delete k e.value_ids;
      handler = hnd.remove val_id e.handler;
    }
  ]

  -- The function of the resolvers that emit the objects as they are.
  unfoldable pub object_changed : ℕ → ℕ → Bool → Bool → Emitter S → Emitter S
  object_changed k v added removed e =
      if added then emit k v e else if removed then retract k e else emit k v (retract k e)

  unfoldable pub emit_transformed : ℕ → Option ℕ → Emitter S → Emitter S
  emit_transformed k none e = e
  emit_transformed k (some x) e = emit k x e

  -- The function of the resolvers that transform them first; `xfrm` may drop one.
  unfoldable pub transformed_changed :
      (ℕ → ℕ → Option ℕ) → ℕ → ℕ → Bool → Bool → Emitter S → Emitter S
  transformed_changed xfrm k v added removed e =
      if added
      then emit_transformed k (xfrm k v) e
      else if removed
      then retract k e
      else emit_transformed k (xfrm k v) (retract k e)
