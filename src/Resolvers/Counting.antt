-- ===== src/Resolvers/Counting.antt =====
-- How often a function is in a list of calls or in the map of values: directive/transform-resolver.go.
use controllerbus.Common.{
  ℕ, suc, ◌+◌, Option, none, some, List, [], ◌∷◌, ◌++◌, ◌==◌, if◌then◌else◌, ◌≡◌, refl, ap, subst,
  inl, inr, Bool-cases, ==_iff, arith, lookup, insert, delete, Distinct, lookup-tail, delete-absent,
}

-- How often a function is in a list, and is the one that there may be.
abbrev pub count : ℕ → List ℕ → ℕ
count f [] = 0
count f (g ∷ gs) = if f == g then suc (count f gs) else count f gs

abbrev pub count_rel : ℕ → Option ℕ → ℕ
count_rel f none = 0
count_rel f (some g) = if f == g then 1 else 0

abbrev pub count_added : ℕ → List (ℕ × (ℕ × Option ℕ)) → ℕ
count_added f [] = 0
count_added f ((k, (id, rel)) ∷ entries) = count_rel f rel + count_added f entries

pub count-snoc :
    (f : ℕ) (fs : List ℕ) (g : ℕ) → count f (fs ++ g ∷ []) ≡ count f fs + count_rel f (some g)
count-snoc f [] g = ground arith
count-snoc f (h ∷ fs) g = ground (arith, count-snoc f fs g)

-- A new key adds what its entry has.
pub count-insert :
    (f k id : ℕ) (rel : Option ℕ) (m : List (ℕ × (ℕ × Option ℕ)))
    → lookup k m ≡ none
    → count_added f (insert k (id, rel) m) ≡ count_rel f rel + count_added f m
unfolding insert
count-insert f k id rel [] free = refl
count-insert f k id rel ((j, (i, r)) ∷ m) free =
    let (miss, rest) = lookup-tail k j (i, r) m free in
    rw miss (rw (count-insert f k id rel m rest) (omega arith))

abbrev rel_of : Option (ℕ × Option ℕ) → Option ℕ
rel_of none = none
rel_of (some entry) = entry.1

-- A key that is deleted takes away what its entry had.
pub count-delete :
    (f k id : ℕ) (rel : Option ℕ) (m : List (ℕ × (ℕ × Option ℕ)))
    → Distinct m
    → lookup k m ≡ some (id, rel)
    → count_rel f rel + count_added f (delete k m) ≡ count_added f m
unfolding lookup delete
count-delete f k id rel [] d found = cc
count-delete f k id rel ((j, (i, r)) ∷ m) d found = elim (Bool-cases (j == k)) [
  | inl hit ↦
      let free = subst (λ (n : ℕ). lookup n m ≡ none) ((==_iff j k).0 hit) d.0 in
      let same : r ≡ rel = ap rel_of (rw hit at found) in
      rw hit (rw (delete-absent k m free) (rw same refl))
  | inr miss ↦ let ih = count-delete f k id rel m d.1 (rw miss at found) in rw miss (omega arith)
]
