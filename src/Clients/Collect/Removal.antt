-- ===== src/Clients/Collect/Removal.antt =====
-- Taking a value out of the slices of bus/multi.go: the last value takes its place, which is deleting
-- it, up to order, where no two values have its id.
use controllerbus.Common.{
  ℕ, zero, suc, ◌+◌, ◌≤◌, true, Option, none, some, List, [], ◌∷◌, ◌++◌, map, ◌==◌, if◌then◌else◌,
  ◌≡◌, refl, sym, ap, inl, inr, Bool-cases, Option-cases, arith, some_none, last_first, last_or,
  drop_last, last_first-perm, drop_last-last,
}
use mathlib.Core.List.{Perm, filter_map}
use mathlib.Core.List.Perm
use mathlib.Core.Option
use controllerbus.Instance.State.{AttachedValue}
use controllerbus.Clients.Select.{delete_value_id}
use controllerbus.Clients.Collect.{index_of, swap_remove_at}

-- How many of the values have an id.
unfoldable pub ids_count : ℕ → List AttachedValue → ℕ
ids_count k [] = 0
ids_count k (v ∷ vs) = let rest = ids_count k vs in if v.attached_id == k then suc rest else rest

pub ids_count-append :
    (k : ℕ) (vs ws : List AttachedValue) → ids_count k (vs ++ ws) ≡ ids_count k vs + ids_count k ws
unfolding ids_count
ids_count-append k [] ws = omega arith
ids_count-append k (v ∷ vs) ws = ground (arith, ids_count-append k vs ws)

ids_count-last_first :
    (k : ℕ) (vs : List AttachedValue) → ids_count k (last_first vs) ≡ ids_count k vs
unfolding last_first ids_count
ids_count-last_first k [] = refl
ids_count-last_first k (v ∷ vs) = ground (
  arith,
  ids_count-append k (drop_last (v ∷ vs)) (last_or v vs ∷ []),
  ap (ids_count k) (drop_last-last v vs),
)

delete-uncounted :
    (id : ℕ) (vs : List AttachedValue) → ids_count id vs ≡ 0 → delete_value_id id vs ≡ vs
unfolding ids_count delete_value_id
delete-uncounted id [] h = refl
delete-uncounted id (v ∷ vs) h = elim (Bool-cases (v.attached_id == id)) [
  | inl hit ↦ absurd (ground arith)
  | inr miss ↦
      rw miss (ap (λ (l : List AttachedValue). v ∷ l) (delete-uncounted id vs (rw miss at h)))
]

pub ids_count-delete_same :
    (id : ℕ) (vs : List AttachedValue) → ids_count id (delete_value_id id vs) ≡ 0
unfolding ids_count delete_value_id
ids_count-delete_same id [] = refl
ids_count-delete_same id (v ∷ vs) = ground (arith, ids_count-delete_same id vs)

pub ids_count-delete_le :
    (k id : ℕ) (vs : List AttachedValue) → ids_count k (delete_value_id id vs) ≤ ids_count k vs
unfolding ids_count delete_value_id
ids_count-delete_le k id [] = omega arith
ids_count-delete_le k id (v ∷ vs) = ground (arith, ids_count-delete_le k id vs)

other_id : ℕ → AttachedValue → Option AttachedValue
other_id id v = if v.attached_id == id then none else some v

-- The library's filter deletes in the same way, and a permutation goes through it.
delete-filter_map :
    (id : ℕ) (vs : List AttachedValue) → delete_value_id id vs ≡ filter_map (other_id id) vs
unfolding delete_value_id filter_map other_id
delete-filter_map id [] = refl
delete-filter_map id (v ∷ vs) = elim (Bool-cases (v.attached_id == id)) [
  | inl hit ↦ rw hit (delete-filter_map id vs)
  | inr miss ↦ rw miss (ap (λ (l : List AttachedValue). v ∷ l) (delete-filter_map id vs))
]

pub delete-perm :
    (id : ℕ) (vs ws : List AttachedValue)
    → Perm vs ws
    → Perm (delete_value_id id vs) (delete_value_id id ws)
delete-perm id vs ws p =
    rw (delete-filter_map id vs, delete-filter_map id ws) (Perm.filter_map (other_id id) p)

unfoldable pub ids_of : List AttachedValue → List ℕ
ids_of = map (λ (v : AttachedValue). v.attached_id)

-- Two lists of values up to order, and with as many of each id.
abbrev pub SameValues : List AttachedValue → List AttachedValue → Type 0
SameValues vs ws = Perm vs ws × ((k : ℕ) → ids_count k vs ≡ ids_count k ws)

cons-SameValues :
    (v : AttachedValue) (vs ws : List AttachedValue)
    → SameValues vs ws
    → SameValues (v ∷ vs) (v ∷ ws)
unfolding ids_count
cons-SameValues v vs ws p = (Perm.cons' refl p.0, λ k. ground (arith, p.1 k))

last_first-SameValues : (vs : List AttachedValue) → SameValues (last_first vs) vs
last_first-SameValues vs = (Perm.symm (last_first-perm vs), λ k. ids_count-last_first k vs)

count_rest :
    (id : ℕ) (v : AttachedValue) (vs : List AttachedValue)
    → (v.attached_id == id) ≡ true
    → ids_count id (v ∷ vs) ≤ 1
    → ids_count id vs ≡ 0
unfolding ids_count
count_rest id v vs hit c = ground arith

count_tail :
    (id : ℕ) (v : AttachedValue) (vs : List AttachedValue)
    → ids_count id (v ∷ vs) ≤ 1
    → ids_count id vs ≤ 1
unfolding ids_count
count_tail id v vs c = ground arith

some-zero : {i : ℕ} → some 0 ≡ some i → 0 ≡ i
some-zero e = cc

some-suc : {i j : ℕ} → some (suc j) ≡ some i → suc j ≡ i
some-suc e = cc

pub swap_remove_at-delete :
    (id : ℕ) (vs : List AttachedValue) (i : ℕ)
    → ids_count id vs ≤ 1
    → index_of id (ids_of vs) ≡ some i
    → SameValues (swap_remove_at i vs) (delete_value_id id vs)
unfolding delete_value_id swap_remove_at index_of ids_of
swap_remove_at-delete id [] i c e = some_none (sym e)
swap_remove_at-delete id (v ∷ vs) i c e = elim (Bool-cases (v.attached_id == id)) [
  | inl hit ↦
      let same = delete-uncounted id vs (count_rest id v vs hit c) in
      rw (← some-zero (rw hit at e)) (rw hit (rw same (last_first-SameValues vs)))
  | inr miss ↦
      let found : Option.map suc (index_of id (ids_of vs)) ≡ some i = rw miss at e in
      elim (Option-cases (index_of id (ids_of vs))) [
        | inl missing ↦ some_none (sym (rw missing at found))
        | inr (j, at_j) ↦ rw (← some-suc (rw at_j at found)) (
            rw miss
              (cons-SameValues v _ _ (swap_remove_at-delete id vs j (count_tail id v vs c) at_j)))
      ]
]

pub unfound-delete :
    (id : ℕ) (vs : List AttachedValue) → index_of id (ids_of vs) ≡ none → delete_value_id id vs ≡ vs
unfolding delete_value_id index_of ids_of
unfound-delete id [] e = refl
unfound-delete id (v ∷ vs) e = elim (Bool-cases (v.attached_id == id)) [
  | inl hit ↦ some_none (rw hit at e)
  | inr miss ↦
      let rest : Option.map suc (index_of id (ids_of vs)) ≡ none = rw miss at e in
      elim (Option-cases (index_of id (ids_of vs))) [
        | inl missing ↦
            rw miss (ap (λ (l : List AttachedValue). v ∷ l) (unfound-delete id vs missing))
        | inr (j, at_j) ↦ some_none (rw at_j at rest)
      ]
]

last_or-map :
    {A B : Type 0} (f : A → B) (x : A) (xs : List A) → last_or (f x) (map f xs) ≡ f (last_or x xs)
unfolding last_or
last_or-map f x [] = refl
last_or-map f x (y ∷ ys) = last_or-map f y ys

drop_last-map :
    {A B : Type 0} (f : A → B) (xs : List A) → drop_last (map f xs) ≡ map f (drop_last xs)
unfolding drop_last
drop_last-map f [] = refl
drop_last-map f (x ∷ []) = refl
drop_last-map f (x ∷ y ∷ ys) = ap (λ (l : List _). f x ∷ l) (drop_last-map f (y ∷ ys))

last_first-map :
    {A B : Type 0} (f : A → B) (xs : List A) → last_first (map f xs) ≡ map f (last_first xs)
unfolding last_first
last_first-map f [] = refl
last_first-map f (x ∷ xs) = cc (last_or-map f x xs, drop_last-map f (x ∷ xs))

pub swap_remove_at-map :
    {A B : Type 0} (f : A → B) (xs : List A) (i : ℕ)
    → swap_remove_at i (map f xs) ≡ map f (swap_remove_at i xs)
unfolding swap_remove_at
swap_remove_at-map f [] i = refl
swap_remove_at-map f (x ∷ xs) zero = last_first-map f xs
swap_remove_at-map f (x ∷ xs) (suc i) = ap (λ (l : List _). f x ∷ l) (swap_remove_at-map f xs i)
