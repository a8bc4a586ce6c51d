-- ===== src/ConfigController/Covered.antt =====
-- The references that there are after Resolve of ApplyConfigSet:
-- controller/configset/controller/apply-config-set.go.
use controllerbus.Common.{
  ℕ, true, false, some, List, [], ◌∷◌, ◌==◌, map, contains, is_some, lookup, ◌≡◌, refl, sym, subst,
  inl, inr, Bool-cases, ==_iff, lookup-hit, lookup-miss,
}
use controllerbus.UniqueResolver.{ValueHandler}
use controllerbus.ConfigController.{RunningState, push_controller_config}
use controllerbus.ConfigController.Pushing.{push_controller_config-Pushed}
use controllerbus.ConfigController.SetResolvers.{
  SetResolver, catalog, apply_one, apply_each, apply_resolve,
}
use controllerbus.ConfigController.Covering.{HasKey, IsMade, Applied, taken-Applied, follow-Follows}

module _ {S : Type 0} (hnd : ValueHandler S) (value_of : RunningState → ℕ) where
  -- A key of the catalog is that of a reference.
  listed :
      (k : ℕ) (s : SetResolver S) (refs : List (ℕ × ℕ))
      → contains k (map (λ (entry : ℕ × ℕ). (s.sets.ref_at entry.0).ref_key) refs) ≡ true
      → (f : ℕ) × (is_some (lookup f refs) ≡ true) × ((s.sets.ref_at f).ref_key ≡ k)
  unfolding contains
  listed k s [] h = cc
  listed k s ((f, v) ∷ refs) h = elim (Bool-cases ((s.sets.ref_at f).ref_key == k)) [
    | inl hit ↦ (f, rw (lookup-hit f v refs) refl, (==_iff (s.sets.ref_at f).ref_key k).0 hit)
    | inr miss ↦
        let (g, there, key) = listed k s refs (rw miss at h) in
        elim (Bool-cases (f == g)) [
          | inl same ↦ (
            g,
            rw
                (subst (λ (n : ℕ). lookup g ((n, v) ∷ refs) ≡ some v) (sym ((==_iff f g).0 same))
                  (lookup-hit g v refs))
                refl,
            key,
          )
          | inr other ↦ (g, rw (lookup-miss g f v refs other) there, key)
        ]
  ]

  module _ (rev_of : ℕ → ℕ) where
    one-Applied :
        (existing : List ℕ) (k conf : ℕ) (s : SetResolver S)
        → IsMade s
        → (contains k existing ≡ true → HasKey k s)
        → (k == 0) ≡ false
        → (t : SetResolver S) × (apply_one hnd value_of rev_of existing k conf s ≡ some t)
          × Applied hnd value_of rev_of k s t
          × HasKey k t
    unfolding apply_one
    one-Applied existing k conf s m covered named = elim (Bool-cases (contains k existing)) [
      | inl old ↦
          rw (named, apply_one)
            (rw (old, apply_one) (s, refl, record { made = m; keeps = λ j has. has }, covered old))
      | inr new ↦
          let o = push_controller_config rev_of k conf s.sets in
          let p = push_controller_config-Pushed rev_of k conf s.sets in
          let (t, went, w) =
            follow-Follows hnd value_of o.0 p.controller (record s { sets = o.1 }) p.points_back in
          let (applied, has) = taken-Applied hnd value_of rev_of k conf s t m w in
          rw (named, apply_one) (rw (new, apply_one) (t, went, applied, has))
    ]

    passed :
        (existing : List ℕ) (k conf : ℕ) (s : SetResolver S)
        → (k == 0) ≡ true
        → apply_one hnd value_of rev_of existing k conf s ≡ some s
    unfolding apply_one
    passed existing k conf s nameless = rw (nameless, apply_one) refl

    -- Every key that has a reference keeps it, and every entry's key has one in the end.
    record Covers (set : List (ℕ × ℕ)) (s t : SetResolver S) : Type 0 where
      keeps_all : (j : ℕ) → HasKey j s → HasKey j t
      covers : (k conf : ℕ) → lookup k set ≡ some conf → (k == 0) ≡ false → HasKey k t

    each-Covers :
        (existing : List ℕ) (set : List (ℕ × ℕ)) (s : SetResolver S)
        → IsMade s
        → ((k : ℕ) → contains k existing ≡ true → HasKey k s)
        → (t : SetResolver S) × (apply_each hnd value_of rev_of existing set s ≡ some t)
          × Covers set s t
    unfolding apply_each lookup
    each-Covers existing [] s m covered =
        (s, refl, record { keeps_all = λ j has. has; covers = λ k conf found named. cc })
    each-Covers existing ((k, conf) ∷ set) s m covered = elim (Bool-cases (k == 0)) [
      | inl nameless ↦
          let (t, went, c) = each-Covers existing set s m covered in
          rw (passed existing k conf s nameless, apply_each)
            (
              t,
              went,
              record {
                keeps_all = c.keeps_all;
                covers = λ i w found named. elim (Bool-cases (k == i)) [
                  | inr miss ↦ c.covers i w (rw miss at found) named
                  | inl hit ↦
                      cc (named, subst (λ (n : ℕ). (n == 0) ≡ true) ((==_iff k i).0 hit) nameless)
                ];
              },
            )
      | inr named ↦
          let (u, first, applied, has) = one-Applied existing k conf s m (covered k) named in
          let (t, went, c) =
            each-Covers existing set u applied.made (λ j old. applied.keeps j (covered j old)) in
          rw (first, apply_each)
            (
              t,
              went,
              record {
                keeps_all = λ j before. c.keeps_all j (applied.keeps j before);
                covers = λ i w found given. elim (Bool-cases (k == i)) [
                  | inr miss ↦ c.covers i w (rw miss at found) given
                  | inl hit ↦ subst (λ (n : ℕ). HasKey n t) ((==_iff k i).0 hit) (c.keeps_all k has)
                ];
              },
            )
    ]

    -- If the references of the resolver of ApplyConfigSet have all been made, Resolve returns
    -- without a panic, and the resolver has a reference with the key of each entry of the set,
    -- if the key is not empty.
    pub apply_resolve-HasKey :
        (set : List (ℕ × ℕ)) (s : SetResolver S) (k conf : ℕ)
        → IsMade s
        → lookup k set ≡ some conf
        → (k == 0) ≡ false
        → (t : SetResolver S) × (apply_resolve hnd value_of rev_of set s ≡ some t) × HasKey k t
    unfolding apply_resolve catalog
    apply_resolve-HasKey set s k conf m found named =
        let (t, went, c) =
          each-Covers (catalog hnd value_of s) set s m (λ j old. listed j s s.set_refs old) in
        (t, went, c.covers k conf found named)
