-- ===== src/StaticResolver/Listing.antt =====
-- The factories that GetFactories lists: controller/resolver/static/resolver.go.
use controllerbus.Common.{
  ℕ, ◌≤◌, false, Option, none, some, List, [], ◌∷◌, ◌==◌, leb, map, if◌then◌else◌, ◌≡◌, refl, sym,
  ap, ◌∙◌, subst, inl, inr, Bool-cases, Option-cases, arith, All, lookup, insert, Distinct,
  insert-Distinct, some_none,
}
use controllerbus.Version.{gte}
use controllerbus.StaticResolver.{
  Factory, StaticResolver, put_factory, add_factory, add_factories, new_resolver, insert_sorted,
  sort_factories, get_factories,
}

-- The first of the factories with the config id.
abbrev pub listed_for : ℕ → List Factory → Option Factory
listed_for id [] = none
listed_for id (f ∷ fs) = if f.config_id == id then some f else listed_for id fs

-- The config ids do not go down.
abbrev pub IsSorted : List Factory → Type 0
IsSorted [] = Unit
IsSorted (f ∷ fs) = All (λ (g : Factory). f.config_id ≤ g.config_id) fs × IsSorted fs

-- Each factory is under its config id, and none has two entries.
abbrev IsOwn : ℕ × Factory → Type 0
IsOwn entry = entry.1.config_id ≡ entry.0

record IsKeyed (m : List (ℕ × Factory)) : Type 0 where
  own : All IsOwn m
  distinct : Distinct m

insert-IsOwn :
    (f : Factory) (m : List (ℕ × Factory)) → All IsOwn m → All IsOwn (insert f.config_id f m)
unfolding insert
insert-IsOwn f [] p = (refl, tt)
insert-IsOwn f ((k, g) ∷ m) p = elim (Bool-cases (k == f.config_id)) [
  | inl hit ↦ rw hit (refl, p.1)
  | inr miss ↦ rw miss (p.0, insert-IsOwn f m p.1)
]

put-IsKeyed :
    (f : Factory) (r : StaticResolver) → IsKeyed r.factories → IsKeyed (put_factory f r).factories
unfolding put_factory
put-IsKeyed f r p = record {
  own = insert-IsOwn f r.factories p.own;
  distinct = insert-Distinct f.config_id f r.factories p.distinct;
}

add-IsKeyed :
    (f : Factory) (r : StaticResolver) → IsKeyed r.factories → IsKeyed (add_factory f r).factories
unfolding add_factory
add-IsKeyed f r p = elim (Option-cases (lookup f.config_id r.factories)) [
  | inl absent ↦ rw (absent, add_factory) (put-IsKeyed f r p)
  | inr (old, found) ↦ elim (Bool-cases (gte old.version f.version)) [
    | inl newer ↦ rw (found, add_factory) (rw newer p)
    | inr older ↦ rw (found, add_factory) (rw older (put-IsKeyed f r p))
  ]
]

all-IsKeyed :
    (fs : List Factory) (r : StaticResolver)
    → IsKeyed r.factories
    → IsKeyed (add_factories fs r).factories
unfolding add_factories
all-IsKeyed [] r p = p
all-IsKeyed (f ∷ fs) r p = all-IsKeyed fs (add_factory f r) (add-IsKeyed f r p)

listed-insert :
    (id : ℕ) (f : Factory) (gs : List Factory)
    → listed_for f.config_id gs ≡ none
    → listed_for id (insert_sorted f gs) ≡ (if f.config_id == id then some f else listed_for id gs)
unfolding insert_sorted
listed-insert id f [] free = refl
listed-insert id f (g ∷ gs) free = elim (Bool-cases (leb f.config_id g.config_id)) [
  | inl first ↦ rw first refl
  | inr later ↦ elim (Bool-cases (g.config_id == f.config_id)) [
    | inl same ↦ some_none (rw same at free)
    | inr other ↦
        let ih = listed-insert id f gs (rw other at free) in
        rw later (
          rw ih (elim (Bool-cases (g.config_id == id)) [
            | inr miss ↦ rw miss refl
            | inl hit ↦
                let apart : (f.config_id == id) ≡ false = ground arith in rw hit (rw apart refl)
          ]))
  ]
]

abbrev values_of_map : List (ℕ × Factory) → List Factory
values_of_map m = map (λ (entry : ℕ × Factory). entry.1) m

sorted-listed :
    (m : List (ℕ × Factory))
    → IsKeyed m
    → (id : ℕ) → listed_for id (sort_factories (values_of_map m)) ≡ lookup id m
unfolding sort_factories lookup
sorted-listed [] p id = refl
sorted-listed ((k, f) ∷ m) p id =
    let rest : IsKeyed m = record { own = p.own.1; distinct = p.distinct.1 } in
    let free : listed_for f.config_id (sort_factories (values_of_map m)) ≡ none =
      sorted-listed m rest f.config_id
      ∙ subst (λ (n : ℕ). lookup n m ≡ none) (sym p.own.0) p.distinct.0 in
    listed-insert id f (sort_factories (values_of_map m)) free
    ∙ ap (λ (o : Option Factory). if f.config_id == id then some f else o) (sorted-listed m rest id)
    ∙ ap (λ (n : ℕ). if n == id then some f else lookup id m) p.own.0

insert_sorted-All :
    (n : ℕ) (f : Factory) (gs : List Factory)
    → n ≤ f.config_id
    → All (λ (g : Factory). n ≤ g.config_id) gs
    → All (λ (g : Factory). n ≤ g.config_id) (insert_sorted f gs)
unfolding insert_sorted
insert_sorted-All n f [] le p = (le, tt)
insert_sorted-All n f (g ∷ gs) le p = elim (Bool-cases (leb f.config_id g.config_id)) [
  | inl first ↦ rw first (le, p)
  | inr later ↦ rw later (p.0, insert_sorted-All n f gs le p.1)
]

All-raise :
    (n k : ℕ) (gs : List Factory)
    → n ≤ k
    → All (λ (g : Factory). k ≤ g.config_id) gs
    → All (λ (g : Factory). n ≤ g.config_id) gs
All-raise n k [] le p = tt
All-raise n k (g ∷ gs) le p = (let above = p.0 in omega arith, All-raise n k gs le p.1)

insert_sorted-IsSorted :
    (f : Factory) (gs : List Factory) → IsSorted gs → IsSorted (insert_sorted f gs)
unfolding insert_sorted
insert_sorted-IsSorted f [] p = (tt, tt)
insert_sorted-IsSorted f (g ∷ gs) p = elim (Bool-cases (leb f.config_id g.config_id)) [
  | inl first ↦
      let le : f.config_id ≤ g.config_id = ground arith in
      rw first ((le, All-raise f.config_id g.config_id gs le p.0), p)
  | inr later ↦
      let le : g.config_id ≤ f.config_id = ground arith in
      rw later (insert_sorted-All g.config_id f gs le p.0, insert_sorted-IsSorted f gs p.1)
]

sort_factories-IsSorted : (fs : List Factory) → IsSorted (sort_factories fs)
unfolding sort_factories
sort_factories-IsSorted [] = tt
sort_factories-IsSorted (f ∷ fs) =
    insert_sorted-IsSorted f (sort_factories fs) (sort_factories-IsSorted fs)

-- After any factories were added to a new resolver, GetFactories lists them in an order in which
-- the config ids do not go down, and the first that it lists of a config id is the one that the
-- resolver finds for it, and there is none if it finds none.
pub get_factories-lists :
    (fs : List Factory)
    → IsSorted (get_factories (new_resolver fs))
      × ((id : ℕ)
          → listed_for id (get_factories (new_resolver fs)) ≡ lookup id (new_resolver fs).factories)
unfolding get_factories new_resolver lookup
get_factories-lists fs = (
  sort_factories-IsSorted (values_of_map (new_resolver fs).factories),
  sorted-listed (new_resolver fs).factories (all-IsKeyed fs _ (record { own = tt; distinct = tt })),
)
