-- ===== src/ConfigController/SetResolvers.antt =====
-- The resolvers of the directives ApplyConfigSet and LookupConfigSet:
-- controller/configset/controller/apply-config-set.go and lookup-config-set.go. A result `none` is a
-- panic. The empty key is 0.
use controllerbus.Common.{
  ℕ, ◌||◌, Option, none, some, List, [], ◌∷◌, ◌==◌, map, contains, if◌then◌else◌, lookup, insert,
}
use controllerbus.UniqueResolver.{ValueHandler}
use controllerbus.ConfigController.{
  ConfigSets, RunningState, push_controller_config, add_config_set_reference, add_state_callback,
  get_ref_state, release,
}

-- The resolver with the controller's state: each reference has the id of its value, or 0.
pub record SetResolver (S : Type 0) : Type 0 where
  pub sets : ConfigSets
  pub set_refs : List (ℕ × ℕ)
  pub handler : S

-- `value_of` is the pointer to a state.
module _ {S : Type 0} (hnd : ValueHandler S) (value_of : RunningState → ℕ) where
  -- The state callback of a reference.
  unfoldable pub show_state : ℕ → RunningState → SetResolver S → SetResolver S
  unfolding lookup insert
  show_state f st s = elim (lookup f s.set_refs) [
    | none ↦ s
    | some v ↦
        let cleared = if v == 0 then s.handler else hnd.remove v s.handler in
        let (id, t) = hnd.add (value_of st) cleared in
        elim id [
          | some val_id ↦ record s { set_refs = insert f val_id s.set_refs; handler = t }
          | none ↦ record s { set_refs = insert f 0 s.set_refs; handler = t }
        ]
  ]

  -- A new reference is kept and gets its callback, which is called with the state at once.
  unfoldable pub follow : ℕ → SetResolver S → Option (SetResolver S)
  unfolding show_state add_state_callback get_ref_state insert
  follow f s =
      let noted : SetResolver S = record s { set_refs = insert f 0 s.set_refs } in
      elim (add_state_callback f f noted.sets) [
        | none ↦ none
        | some sets ↦ some (show_state f (get_ref_state f sets) (record noted { sets = sets }))
      ]

  -- The keys of the references that there are already.
  unfoldable pub catalog : SetResolver S → List ℕ
  catalog s = map (λ (entry : ℕ × ℕ). (s.sets.ref_at entry.0).ref_key) s.set_refs

  unfoldable pub lookup_one : List ℕ → ℕ → SetResolver S → Option (SetResolver S)
  unfolding follow add_config_set_reference contains
  lookup_one existing k s =
      if k == 0 || contains k existing
      then some s
      else (let (f, sets) = add_config_set_reference k s.sets in
          follow f (record s { sets = sets }))

  unfoldable pub lookup_each : List ℕ → List ℕ → SetResolver S → Option (SetResolver S)
  unfolding lookup_one
  lookup_each existing [] s = some s
  lookup_each existing (k ∷ ks) s = elim (lookup_one existing k s) [
    | none ↦ none
    | some t ↦ lookup_each existing ks t
  ]

  unfoldable pub lookup_resolve : List ℕ → SetResolver S → Option (SetResolver S)
  unfolding lookup_each catalog
  lookup_resolve keys s = lookup_each (catalog s) keys s

  module _ (rev_of : ℕ → ℕ) where
    unfoldable pub apply_one : List ℕ → ℕ → ℕ → SetResolver S → Option (SetResolver S)
    unfolding follow push_controller_config contains
    apply_one existing k conf s =
        if k == 0 || contains k existing
        then some s
        else (let (f, sets) = push_controller_config rev_of k conf s.sets in
            follow f (record s { sets = sets }))

    unfoldable pub apply_each : List ℕ → List (ℕ × ℕ) → SetResolver S → Option (SetResolver S)
    unfolding apply_one
    apply_each existing [] s = some s
    apply_each existing ((k, conf) ∷ set) s = elim (apply_one existing k conf s) [
      | none ↦ none
      | some t ↦ apply_each existing set t
    ]

    unfoldable pub apply_resolve : List (ℕ × ℕ) → SetResolver S → Option (SetResolver S)
    unfolding apply_each catalog
    apply_resolve set s = apply_each (catalog s) set s

unfoldable pub release_each : List (ℕ × ℕ) → ConfigSets → ConfigSets
unfolding release
release_each [] s = s
release_each ((f, v) ∷ refs) s = release_each refs (release f s)

-- waitCleanupRefs, once the context has ended
unfoldable pub cleanup_refs : {S : Type 0} → SetResolver S → SetResolver S
unfolding release_each
cleanup_refs s = record s { sets = release_each s.set_refs s.sets; set_refs = [] }
