-- ===== src/StaticResolver/Newest.antt =====
-- The resolver holds the newest factory of each config id.
use controllerbus.Common.{
  ℕ, true, false, Option, none, some, List, [], ◌∷◌, ◌==◌, lookup, All, ◌≡◌, refl, sym, ◌∙◌, ◌⊎◌,
  inl, inr, Bool-cases, Option-cases, subst, ==_iff, some_none, lookup-insert, lookup-insert_other,
}
use controllerbus.Version.{gte}
use controllerbus.Version.Order.{gte_trans, gte-total, gte_refl}
use controllerbus.StaticResolver.{
  Factory, StaticResolver, put_factory, add_factory, add_factories, new_resolver,
  get_factory_matching_config,
}

-- Every factory of the config id in the list is at most as new as the one held.
abbrev pub NoneNewer : ℕ → Option Factory → List Factory → Type 0
NoneNewer id none fs = All (λ f. (f.config_id == id) ≡ false) fs
NoneNewer id (some g) fs = All (λ f. (f.config_id == id) ≡ true → gte g.version f.version ≡ true) fs

-- One that is held may be replaced by one that is as new.
AtLeast : ℕ → Option Factory → Option Factory → Type 0
AtLeast id none o = Unit
AtLeast id (some g) none = ⊥
AtLeast id (some g) (some g') = gte g'.version g.version ≡ true

add_factory-other :
    (id : ℕ) (f : Factory) (r : StaticResolver)
    → (f.config_id == id) ≡ false
    → lookup id (add_factory f r).factories ≡ lookup id r.factories
unfolding add_factory put_factory
add_factory-other id f r miss = elim (Option-cases (lookup f.config_id r.factories)) [
  | inl absent ↦ rw (absent, add_factory) (lookup-insert_other id f.config_id f r.factories miss)
  | inr (g, found) ↦ elim (Bool-cases (gte g.version f.version)) [
    | inl newer ↦ rw (found, newer, add_factory) refl
    | inr older ↦
        rw (found, older, add_factory) (lookup-insert_other id f.config_id f r.factories miss)
  ]
]

-- After adding a factory, one at least as new as it and as the one held before is held.
add_factory-same :
    (f : Factory) (r : StaticResolver)
    → (g : Factory) × (lookup f.config_id (add_factory f r).factories ≡ some g)
      × (gte g.version f.version ≡ true)
      × AtLeast f.config_id (lookup f.config_id r.factories) (some g)
unfolding add_factory put_factory AtLeast
add_factory-same f r = elim (Option-cases (lookup f.config_id r.factories)) [
  | inl absent ↦ (
    f,
    rw (absent, add_factory) (lookup-insert f.config_id f r.factories),
    gte_refl f.version,
    rw absent tt,
  )
  | inr (g, found) ↦ elim (Bool-cases (gte g.version f.version)) [
    | inl newer ↦ (g, rw (found, newer, add_factory) found, newer, rw found (gte_refl g.version))
    | inr older ↦ (
      f,
      rw (found, older, add_factory) (lookup-insert f.config_id f r.factories),
      gte_refl f.version,
      rw found (gte-total g.version f.version older),
    )
  ]
]

AtLeast-refl : (id : ℕ) (o : Option Factory) → AtLeast id o o
unfolding AtLeast
AtLeast-refl id none = tt
AtLeast-refl id (some g) = gte_refl g.version

AtLeast-trans : (id : ℕ) (a b c : Option Factory) → AtLeast id a b → AtLeast id b c → AtLeast id a c
unfolding AtLeast
AtLeast-trans id none b c p q = tt
AtLeast-trans id (some x) (some y) (some z) p q = gte_trans z.version y.version x.version q p
AtLeast-trans id (some x) none c p q = elim p [ ]
AtLeast-trans id (some x) (some y) none p q = elim q [ ]

abbrev pub OneOf : Factory → List Factory → Type 0
OneOf g [] = ⊥
OneOf g (f ∷ fs) = (f ≡ g) ⊎ OneOf g fs

-- A factory of the id, from the list or held before it.
abbrev From : ℕ → Option Factory → List Factory → Option Factory → Type 0
From id before fs none = before ≡ none
From id before fs (some g) = (before ≡ some g) ⊎ ((g.config_id ≡ id) × OneOf g fs)

record Held (id : ℕ) (before : Option Factory) (fs : List Factory) (o : Option Factory)
    : Type 0 where
  none_newer : NoneNewer id o fs
  at_least : AtLeast id before o
  from_list : From id before fs o

-- The factory takes its entry or leaves it as it is.
add_factory-own :
    (f : Factory) (r : StaticResolver)
    → (lookup f.config_id (add_factory f r).factories ≡ lookup f.config_id r.factories)
      ⊎ ((f.config_id ≡ f.config_id) × (lookup f.config_id (add_factory f r).factories ≡ some f))
unfolding add_factory put_factory
add_factory-own f r = elim (Option-cases (lookup f.config_id r.factories)) [
  | inl absent ↦ rw (absent, add_factory) (inr (refl, lookup-insert f.config_id f r.factories))
  | inr (g, found) ↦ elim (Bool-cases (gte g.version f.version)) [
    | inl newer ↦ rw (found, newer, add_factory) (inl found)
    | inr older ↦
        rw (found, older, add_factory) (inr (refl, lookup-insert f.config_id f r.factories))
  ]
]

-- What one factory does to the entry of an id.
some-same : {f g : Factory} → some f ≡ some g → f ≡ g
some-same e = cc

true_false : {C : Type 0} → true ≡ false → C
true_false e = cc

add_factory-at :
    (id : ℕ) (f : Factory) (r : StaticResolver)
    → f.config_id ≡ id
    → (g : Factory) × (lookup id (add_factory f r).factories ≡ some g)
      × (gte g.version f.version ≡ true)
      × AtLeast id (lookup id r.factories) (some g)
add_factory-at id f r e =
    subst
      (λ (i : ℕ).
        (g : Factory) × (lookup i (add_factory f r).factories ≡ some g)
        × (gte g.version f.version ≡ true)
        × AtLeast i (lookup i r.factories) (some g))
      e (add_factory-same f r)

add_factory-From :
    (id : ℕ) (f : Factory) (r : StaticResolver)
    → (lookup id (add_factory f r).factories ≡ lookup id r.factories)
      ⊎ ((f.config_id ≡ id) × (lookup id (add_factory f r).factories ≡ some f))
unfolding add_factory put_factory
add_factory-From id f r = elim (Bool-cases (f.config_id == id)) [
  | inr miss ↦ inl (add_factory-other id f r miss)
  | inl hit ↦
      subst
        (λ (i : ℕ).
          (lookup i (add_factory f r).factories ≡ lookup i r.factories)
          ⊎ ((f.config_id ≡ i) × (lookup i (add_factory f r).factories ≡ some f)))
        ((==_iff f.config_id id).0 hit) (add_factory-own f r)
]

newer_than-first :
    (id : ℕ) (f g : Factory) (fs : List Factory) (o : Option Factory)
    → gte g.version f.version ≡ true
    → AtLeast id (some g) o
    → NoneNewer id o fs
    → NoneNewer id o (f ∷ fs)
unfolding AtLeast
newer_than-first id f g fs none n l h = elim l [ ]
newer_than-first id f g fs (some x) n l h = (λ e. gte_trans x.version g.version f.version l n, h)

other-first :
    (id : ℕ) (f : Factory) (fs : List Factory) (o : Option Factory)
    → (f.config_id == id) ≡ false
    → NoneNewer id o fs
    → NoneNewer id o (f ∷ fs)
other-first id f fs none miss h = (miss, h)
other-first id f fs (some x) miss h = (λ e. true_false (sym e ∙ miss), h)

From-first :
    (id : ℕ) (f : Factory) (fs : List Factory) (before middle o : Option Factory)
    → (middle ≡ before) ⊎ ((f.config_id ≡ id) × (middle ≡ some f))
    → From id middle fs o
    → From id before (f ∷ fs) o
From-first id f fs before middle none (inl e) h = sym e ∙ h
From-first id f fs before middle none (inr (i, e)) h = some_none (sym e ∙ h)
From-first id f fs before middle (some g) (inl e) (inl h) = inl (sym e ∙ h)
From-first id f fs before middle (some g) (inr (i, e)) (inl h) =
    let same = some-same (sym e ∙ h) in
    inr (subst (λ (x : Factory). x.config_id ≡ id) same i, inl same)
From-first id f fs before middle (some g) w (inr (i, h)) = inr (i, inr h)

NoneNewer-nil : (id : ℕ) (o : Option Factory) → NoneNewer id o []
NoneNewer-nil id none = tt
NoneNewer-nil id (some g) = tt

From-nil : (id : ℕ) (o : Option Factory) → From id o [] o
From-nil id none = refl
From-nil id (some g) = inl refl

add_factories-Held :
    (id : ℕ) (fs : List Factory) (r : StaticResolver)
    → Held id (lookup id r.factories) fs (lookup id (add_factories fs r).factories)
unfolding add_factories
add_factories-Held id [] r = record {
  none_newer = NoneNewer-nil id (lookup id r.factories);
  at_least = AtLeast-refl id (lookup id r.factories);
  from_list = From-nil id (lookup id r.factories);
}
add_factories-Held id (f ∷ fs) r =
    let h = add_factories-Held id fs (add_factory f r) in
    let after = lookup id (add_factories fs (add_factory f r)).factories in
    let origin =
      From-first id f fs (lookup id r.factories) (lookup id (add_factory f r).factories) after
        (add_factory-From id f r) h.from_list in
    elim (Bool-cases (f.config_id == id)) [
      | inl hit ↦
          let (g, found, newer, least) = add_factory-at id f r ((==_iff f.config_id id).0 hit) in
          let l = subst (λ (o : Option Factory). AtLeast id o after) found h.at_least in
          record {
            none_newer = newer_than-first id f g fs after newer l h.none_newer;
            at_least = AtLeast-trans id (lookup id r.factories) (some g) after least l;
            from_list = origin;
          }
      | inr miss ↦ record {
        none_newer = other-first id f fs after miss h.none_newer;
        at_least =
            subst (λ (o : Option Factory). AtLeast id o after) (add_factory-other id f r miss)
              h.at_least;
        from_list = origin;
      }
    ]

-- A factory of the list that no other of its config id is newer than, and none if the list has none
-- of the id.
abbrev pub IsNewest : ℕ → List Factory → Option Factory → Type 0
IsNewest id fs none = All (λ f. (f.config_id == id) ≡ false) fs
IsNewest id fs (some g) =
    OneOf g fs
    × (g.config_id ≡ id)
    × All (λ f. (f.config_id == id) ≡ true → gte g.version f.version ≡ true) fs

Held-IsNewest :
    (id : ℕ) (fs : List Factory) (o : Option Factory) → Held id none fs o → IsNewest id fs o
Held-IsNewest id fs none h = h.none_newer
Held-IsNewest id fs (some g) h = elim h.from_list [
  | inl e ↦ some_none (sym e)
  | inr (i, m) ↦ (m, i, h.none_newer)
]

-- A resolver made with a list of factories finds, for every config id, a factory of the list that
-- has the id and is at least as new as all of them that have it, and none if none has it.
pub new_resolver-IsNewest :
    (fs : List Factory) (id : ℕ) → IsNewest id fs (get_factory_matching_config id (new_resolver fs))
unfolding get_factory_matching_config new_resolver lookup
new_resolver-IsNewest fs id =
    Held-IsNewest id fs _ (add_factories-Held id fs (record { factories = []; broadcasts = 0 }))
