-- ===== src/ConfigController/Following.antt =====
-- When the resolvers of config set directives panic: controller/configset/controller.
use controllerbus.Common.{
  ℕ, Bool, true, false, ◌||◌, ◌&&◌, Option, none, some, List, [], ◌∷◌, ◌==◌, contains, is_some,
  lookup, insert, ◌≡◌, refl, ap, ◌∙◌, inl, inr, Bool-cases, Option-cases, ==_refl,
}
use controllerbus.UniqueResolver.{ValueHandler}
use controllerbus.ConfigController.{
  ConfigSets, RunningState, push_controller_config, add_config_set_reference, add_state_callback,
  apply_reference, set_running_controller, push_ref_state, add_reference,
  new_running_controller_ref,
}
use controllerbus.ConfigController.Pushing.{push_controller_config-Pushed}
use controllerbus.ConfigController.SetResolvers.{
  SetResolver, show_state, follow, catalog, lookup_one, lookup_each, lookup_resolve, apply_one,
  apply_each, apply_resolve,
}

-- Whether a key is passed over or has a controller.
abbrev pub is_controlled : List ℕ → List (ℕ × ℕ) → ℕ → Bool
is_controlled existing controllers k =
    (k == 0 || contains k existing) || is_some (lookup k controllers)

abbrev pub all_controlled : List ℕ → List (ℕ × ℕ) → List ℕ → Bool
all_controlled existing controllers [] = true
all_controlled existing controllers (k ∷ ks) =
    is_controlled existing controllers k && all_controlled existing controllers ks

-- A new reference to a key points to the key's controller, and the controllers stay.
applied :
    (r f : ℕ) (s : ConfigSets)
    → (s.ref_at f).rc ≡ none
    → (((apply_reference r f s).ref_at f).rc ≡ some r)
      × ((apply_reference r f s).controllers ≡ s.controllers)
unfolding apply_reference set_running_controller push_ref_state add_reference
applied r f s new = rw new (rw (==_refl f) (refl, refl))

referenced :
    (k : ℕ) (s : ConfigSets)
    → let o = add_config_set_reference k s in
      ((o.1.ref_at o.0).rc ≡ lookup k s.controllers) × (o.1.controllers ≡ s.controllers)
unfolding add_config_set_reference new_running_controller_ref
referenced k s = elim (Option-cases (lookup k s.controllers)) [
  | inl absent ↦ rw (absent, add_config_set_reference) (rw (==_refl s.next_ref) (refl, refl))
  | inr (r, found) ↦
      rw (found, add_config_set_reference) (applied r s.next_ref _ (rw (==_refl s.next_ref) refl))
]

module _ {S : Type 0} (hnd : ValueHandler S) (value_of : RunningState → ℕ) where
  pub shown-sets :
      (f : ℕ) (st : RunningState) (s : SetResolver S)
      → (show_state hnd value_of f st s).sets ≡ s.sets
  unfolding show_state
  shown-sets f st s = elim (Option-cases (lookup f s.set_refs)) [
    | inl unknown ↦ rw (unknown, show_state) refl
    | inr (v, known) ↦ rw (known, show_state) (answered _ (hnd.add (value_of st) _).0)
  ]
    where
      answered :
          (t : S) (id : Option ℕ)
          → let out : SetResolver S = elim id [
            | some val_id ↦ record s { set_refs = insert f val_id s.set_refs; handler = t }
            | none ↦ record s { set_refs = insert f 0 s.set_refs; handler = t }
          ] in
            out.sets ≡ s.sets
      answered t none = refl
      answered t (some val_id) = refl

  follow-none :
      (f : ℕ) (s : SetResolver S) → (s.sets.ref_at f).rc ≡ none → follow hnd value_of f s ≡ none
  unfolding follow add_state_callback
  follow-none f s absent = rw (absent, follow) refl

  follow-some :
      (f r : ℕ) (s : SetResolver S)
      → (s.sets.ref_at f).rc ≡ some r
      → (t : SetResolver S) × (follow hnd value_of f s ≡ some t)
        × (t.sets.controllers ≡ s.sets.controllers)
  unfolding follow add_state_callback
  follow-some f r s there =
      rw (there, follow) (_, refl, ap (λ (c : ConfigSets). c.controllers) (shown-sets f _ _))

  -- A key is passed over, or followed if it has a controller, and panics otherwise.
  one-controlled :
      (existing : List ℕ) (k : ℕ) (s : SetResolver S)
      → is_controlled existing s.sets.controllers k ≡ true
      → (t : SetResolver S) × (lookup_one hnd value_of existing k s ≡ some t)
        × (t.sets.controllers ≡ s.sets.controllers)
  unfolding lookup_one
  one-controlled existing k s h = elim (Bool-cases (k == 0 || contains k existing)) [
    | inl skipped ↦ rw (skipped, lookup_one) (s, refl, refl)
    | inr taken ↦ elim (Option-cases (lookup k s.sets.controllers)) [
      | inl absent ↦ cc (h, taken, absent)
      | inr (r, found) ↦
          let o = add_config_set_reference k s.sets in
          let (points, same) = referenced k s.sets in
          let (t, went, kept) = follow-some o.0 r (record s { sets = o.1 }) (points ∙ found) in
          rw (taken, lookup_one) (t, went, kept ∙ same)
    ]
  ]

  one-uncontrolled :
      (existing : List ℕ) (k : ℕ) (s : SetResolver S)
      → is_controlled existing s.sets.controllers k ≡ false
      → lookup_one hnd value_of existing k s ≡ none
  unfolding lookup_one
  one-uncontrolled existing k s h = elim (Bool-cases (k == 0 || contains k existing)) [
    | inl skipped ↦ cc (h, skipped)
    | inr taken ↦ elim (Option-cases (lookup k s.sets.controllers)) [
      | inr (r, found) ↦ cc (h, taken, found)
      | inl absent ↦
          let o = add_config_set_reference k s.sets in
          let (points, same) = referenced k s.sets in
          rw (taken, lookup_one) (follow-none o.0 (record s { sets = o.1 }) (points ∙ absent))
    ]
  ]

  each-controlled :
      (existing ks : List ℕ) (s : SetResolver S)
      → is_some (lookup_each hnd value_of existing ks s)
        ≡ all_controlled existing s.sets.controllers ks
  unfolding lookup_each
  each-controlled existing [] s = refl
  each-controlled existing (k ∷ ks) s =
      elim (Bool-cases (is_controlled existing s.sets.controllers k)) [
        | inr uncontrolled ↦
            rw (one-uncontrolled existing k s uncontrolled, lookup_each) (rw uncontrolled refl)
        | inl controlled ↦
            let (t, went, kept) = one-controlled existing k s controlled in
            rw (went, lookup_each)
              (rw controlled (
                each-controlled existing ks t
                ∙ ap (λ (m : List (ℕ × ℕ)). all_controlled existing m ks) kept))
      ]

  -- Resolve of LookupConfigSet returns without a panic if and only if each of its keys is empty,
  -- or is the key of a reference that the resolver has, or has a controller.
  pub lookup_resolve-all_controlled :
      (keys : List ℕ) (s : SetResolver S)
      → is_some (lookup_resolve hnd value_of keys s)
        ≡ all_controlled (catalog hnd value_of s) s.sets.controllers keys
  unfolding lookup_resolve
  lookup_resolve-all_controlled keys s = each-controlled (catalog hnd value_of s) keys s

  module _ (rev_of : ℕ → ℕ) where
    apply_one-some :
        (existing : List ℕ) (k conf : ℕ) (s : SetResolver S)
        → (t : SetResolver S) × (apply_one hnd value_of rev_of existing k conf s ≡ some t)
    unfolding apply_one
    apply_one-some existing k conf s = elim (Bool-cases (k == 0 || contains k existing)) [
      | inl skipped ↦ rw (skipped, apply_one) (s, refl)
      | inr taken ↦
          let o = push_controller_config rev_of k conf s.sets in
          let p = push_controller_config-Pushed rev_of k conf s.sets in
          let (t, went, kept) =
            follow-some o.0 p.controller (record s { sets = o.1 }) p.points_back in
          rw (taken, apply_one) (t, went)
    ]

    each-some :
        (existing : List ℕ) (set : List (ℕ × ℕ)) (s : SetResolver S)
        → is_some (apply_each hnd value_of rev_of existing set s) ≡ true
    unfolding apply_each
    each-some existing [] s = refl
    each-some existing ((k, conf) ∷ set) s =
        let (t, went) = apply_one-some existing k conf s in
        rw (went, apply_each) (each-some existing set t)

    -- The other resolver does not panic.
    pub apply_resolve-some :
        (set : List (ℕ × ℕ)) (s : SetResolver S)
        → is_some (apply_resolve hnd value_of rev_of set s) ≡ true
    unfolding apply_resolve
    apply_resolve-some set s = each-some (catalog hnd value_of s) set s
