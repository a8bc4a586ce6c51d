-- ===== src/Resolvers.antt =====
-- Resolvers of package directive that follow another source of values: directive/watchable-resolver.go
-- and directive/transform-resolver.go. A value is a number and 0 is the empty value.
pub mod Watching
pub mod Transforming
pub mod Counting
mod Tests
use controllerbus.Common.{
  ℕ, Bool, true, false, Option, none, some, List, [], ◌∷◌, ◌++◌, ◌==◌, if◌then◌else◌, lookup,
  insert, delete, is_some,
}
use controllerbus.Instance.State.{AttachedValue}
use controllerbus.Clients.{ClientEvent, value_added, value_removed, instance_disposed}
use controllerbus.UniqueResolver.{ValueHandler}

-- The variable valID, 0 if there is none, the handler, and whether Resolve has returned as a value was
-- not accepted.
pub record WatchableState (S : Type 0) : Type 0 where
  pub val_id : ℕ
  pub handler : S
  pub ended : Bool

-- What the transformation of a value gives: the value, its release function, whether there is a value,
-- and an error.
pub record Transformed : Type 0 where
  pub rval : ℕ
  pub rel : Option ℕ
  pub is_value : Bool
  pub xfrm_err : Option ℕ

-- The map addedVals, with the id and the release function of an entry; the handler; the error in
-- errCh; and the release functions that were called, in their order.
pub record TransformState (S : Type 0) : Type 0 where
  pub added_vals : List (ℕ × (ℕ × Option ℕ))
  pub handler : S
  pub pushed_err : Option ℕ
  pub rel_calls : List ℕ

-- ErrDirectiveDisposed
abbrev pub err_disposed : ℕ
err_disposed = 1

module _ {S : Type 0} where
  unfoldable pub transform_start : S → TransformState S
  transform_start h = record { added_vals = []; handler = h; pushed_err = none; rel_calls = [] }

  unfoldable pub call_rel : Option ℕ → TransformState S → TransformState S
  call_rel none s = s
  call_rel (some rel) s = record s { rel_calls = s.rel_calls ++ rel ∷ [] }

  -- The channel holds one error; another one is dropped.
  unfoldable pub push_err : ℕ → TransformState S → TransformState S
  push_err e s = if is_some s.pushed_err then s else record s { pushed_err = some e }

  -- The loop over the map, which gets empty.
  unfoldable pub release_added : List (ℕ × (ℕ × Option ℕ)) → TransformState S → TransformState S
  unfolding call_rel
  release_added [] s = record s { added_vals = [] }
  release_added ((k, (id, rel)) ∷ entries) s = release_added entries (call_rel rel s)

module _ {S : Type 0} (hnd : ValueHandler S) where
  -- The value before is taken back.
  unfoldable pub drop_value : WatchableState S → WatchableState S
  drop_value s =
      if s.val_id == 0 then s else record s { val_id = 0; handler = hnd.remove s.val_id s.handler }

  unfoldable pub show_value : ℕ → WatchableState S → WatchableState S
  show_value value s =
      if value == 0
      then s
      else (let (id, t) = hnd.add value s.handler in
          elim id [
            | none ↦ record s { val_id = 0; handler = t; ended = true }
            | some val_id ↦ record s { val_id = val_id; handler = t }
          ])

  -- What WatchChanges is called with, and its calls for the values one after the other.
  unfoldable pub watch_values : List ℕ → WatchableState S → WatchableState S
  unfolding drop_value show_value
  watch_values [] s = s
  watch_values (value ∷ values) s =
      if s.ended then s else watch_values values (show_value value (drop_value s))

  unfoldable pub watchable_resolve : (S → S) → List ℕ → S → WatchableState S
  unfolding watch_values
  watchable_resolve clear_values values h =
      watch_values values (record { val_id = 0; handler = clear_values h; ended = false })

  -- A value that is emitted with its release function: the map has it under the handler's id.
  unfoldable pub emit_value : ℕ → ℕ → Option ℕ → TransformState S → TransformState S
  unfolding call_rel insert
  emit_value attached val rel s =
      let (id, t) = hnd.add val s.handler in
      elim id [
        | none ↦ call_rel rel (record s { handler = t })
        | some handler_id ↦ record s {
          added_vals = insert handler_id (attached, rel) s.added_vals;
          handler = t;
        }
      ]

  unfoldable pub transform_added : ℕ → Transformed → TransformState S → TransformState S
  unfolding emit_value push_err call_rel
  transform_added attached x s = elim x.xfrm_err [
    | some e ↦ call_rel x.rel (push_err e s)
    | none ↦ if x.is_value then emit_value attached x.rval x.rel s else call_rel x.rel s
  ]

  -- The map is asked for the attached value's id, and the handler for the id of the entry.
  unfoldable pub transform_removed : ℕ → TransformState S → TransformState S
  unfolding call_rel lookup delete
  transform_removed attached s = elim (lookup attached s.added_vals) [
    | none ↦ s
    | some (id, rel) ↦
        call_rel rel (record s {
          added_vals = delete attached s.added_vals;
          handler = hnd.remove id s.handler;
        })
  ]

  -- `xfrm` is the transformation; without one a value of the type is emitted as it is.
  module _ (xfrm : AttachedValue → Transformed) where
    unfoldable pub transform_resolver_step : ClientEvent → TransformState S → TransformState S
    unfolding transform_added transform_removed release_added push_err
    transform_resolver_step (value_added v) s = transform_added v.attached_id (xfrm v) s
    transform_resolver_step (value_removed v) s = transform_removed v.attached_id s
    transform_resolver_step instance_disposed s =
        release_added s.added_vals (push_err err_disposed s)

    unfoldable pub transform_resolver_run : List ClientEvent → TransformState S → TransformState S
    unfolding transform_resolver_step
    transform_resolver_run [] s = s
    transform_resolver_run (e ∷ es) s = transform_resolver_run es (transform_resolver_step e s)
