-- ===== src/UniqueResolver/Changes.antt =====
-- What one call of the functions in directive/unique-list-resolver.go and
-- directive/unique-map-resolver.go does to the values of the handler.
use controllerbus.Common.{
  ℕ, Bool, true, false, Option, none, some, ◌==◌, ◌≡◌, refl, sym, ◌∙◌, inl, inr, Bool-cases,
  Option-cases, some_none, lookup,
}
use controllerbus.UniqueResolver.{
  ValueHandler, Emitter, retract, emit_transformed, object_changed, transformed_changed,
}
use controllerbus.UniqueResolver.Synced.{
  IsTable, IsSynced, update, offered, absent-IsSynced, emit-IsSynced, retract-IsSynced,
}

module _ {S : Type 0} (hnd : ValueHandler S) (holds : ℕ → S → Option ℕ) where
  module _ (table : IsTable hnd holds) where
    alike-IsSynced :
        (wanted wanted' : ℕ → Option ℕ) (e : Emitter S)
        → ((j : ℕ) → wanted j ≡ wanted' j)
        → IsSynced hnd holds wanted e
        → IsSynced hnd holds wanted' e
    alike-IsSynced wanted wanted' e same p = record {
      shown = λ j id found. let (y, w, h) = p.shown j id found in (y, sym (same j) ∙ w, h);
      complete = λ k x w. p.complete k x (same k ∙ w);
      owned = p.owned;
      one_key = p.one_key;
    }

    update-update :
        (wanted : ℕ → Option ℕ) (k : ℕ) (o : Option ℕ) (j : ℕ)
        → update (update wanted k none) k o j ≡ update wanted k o j
    update-update wanted k o j = elim (Bool-cases (k == j)) [
      | inl hit ↦ rw hit refl
      | inr miss ↦ rw miss refl
    ]

    emit_transformed-IsSynced :
        (wanted : ℕ → Option ℕ) (k : ℕ) (o : Option ℕ) (e : Emitter S)
        → lookup k e.value_ids ≡ none
        → IsSynced hnd holds wanted e
        → IsSynced hnd holds
            (update wanted k (offered hnd holds table o e.handler))
            (emit_transformed hnd k o e)
    unfolding emit_transformed
    emit_transformed-IsSynced wanted k none e free p =
        absent-IsSynced hnd holds table wanted k e free p
    emit_transformed-IsSynced wanted k (some x) e free p =
        emit-IsSynced hnd holds table wanted k x e free p

    unwanted-absent :
        (wanted : ℕ → Option ℕ) (k : ℕ) (e : Emitter S)
        → wanted k ≡ none
        → IsSynced hnd holds wanted e
        → lookup k e.value_ids ≡ none
    unwanted-absent wanted k e none_wanted p = elim (Option-cases (lookup k e.value_ids)) [
      | inl absent ↦ absent
      | inr (id, found) ↦ let (y, w, h) = p.shown k id found in some_none (sym w ∙ none_wanted)
    ]

    -- The value that stands for the key after the call: the new object, if there is one and the handler
    -- accepts it, at a change once the old one is taken back.
    abbrev pub wanted_after : ℕ → Option ℕ → Bool → Bool → Emitter S → Option ℕ
    wanted_after k o true removed e = offered hnd holds table o e.handler
    wanted_after k o false true e = none
    wanted_after k o false false e = offered hnd holds table o (retract hnd k e).handler

    -- If the handler holds, for each key for which a value is wanted, that value, one for a key,
    -- and nothing else, and a key is said to be added only if nothing was wanted for it, then
    -- this holds after the call, where what is wanted for the key is then the transformed
    -- object, unless it was removed or dropped or the handler rejects it.
    pub transformed_changed-IsSynced :
        (xfrm : ℕ → ℕ → Option ℕ) (k v : ℕ) (added removed : Bool)
        → (wanted : ℕ → Option ℕ) (e : Emitter S) → (added ≡ true → wanted k ≡ none)
        → IsSynced hnd holds wanted e
        → IsSynced hnd holds
            (update wanted k (wanted_after k (xfrm k v) added removed e))
            (transformed_changed hnd xfrm k v added removed e)
    unfolding transformed_changed
    transformed_changed-IsSynced xfrm k v true removed wanted e new p =
        emit_transformed-IsSynced wanted k (xfrm k v) e (unwanted-absent wanted k e (new refl) p) p
    transformed_changed-IsSynced xfrm k v false true wanted e new p =
        (retract-IsSynced hnd holds table wanted k e p).0
    transformed_changed-IsSynced xfrm k v false false wanted e new p =
        let (q, free) = retract-IsSynced hnd holds table wanted k e p in
        alike-IsSynced _ _ _ (update-update wanted k _)
          (emit_transformed-IsSynced (update wanted k none) k (xfrm k v) (retract hnd k e) free q)

module _ {S : Type 0} (hnd : ValueHandler S) where
  -- Emitting the objects as they are is transforming each to itself.
  pub object_changed-transformed_changed :
      (k v : ℕ) (added removed : Bool) (e : Emitter S)
      → object_changed hnd k v added removed e
        ≡ transformed_changed hnd (λ i x. some x) k v added removed e
  unfolding object_changed transformed_changed emit_transformed
  object_changed-transformed_changed k v true removed e = refl
  object_changed-transformed_changed k v false true e = refl
  object_changed-transformed_changed k v false false e = refl
