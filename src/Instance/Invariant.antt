-- ===== src/Instance/Invariant.antt =====
-- The well-formedness invariant of an instance, and what each single write does to it.
pub mod Idle
pub mod Removal
pub mod References
pub mod Methods
pub mod RefLists
pub mod Counted
use mathlib.Core.Path.{fun_ext}
use controllerbus.Common.{
  ℕ, suc, ◌+◌, ◌≤◌, ◌<◌, ◌≡◌, ◌≢◌, refl, sym, ap, subst, Bool, true, false, not, Option, List, [],
  ◌∷◌, ◌++◌, map, length, arith, inl, inr, Bool-cases, ==_iff, ==_refl, Ascending, Ascending-snoc,
  Ascending-upper, without, without-Ascending, length-append, ◌^◌, ◌==◌, if◌then◌else◌,
}
use controllerbus.Common.Exec.{Exec, modify, Keeps}
use controllerbus.Common.Exec.Rules.{Keeps-modify}
use controllerbus.Instance.State.{Instance, Resolver, Value, ValueOptions, DirRef, Callback}
use controllerbus.Instance.Notify.{write_resolver, put_resolver}
use controllerbus.Instance.Capacity.{values_of, count_values_locked, new_resolver, push_resolver}
use controllerbus.Instance.Values.{next_uint32, new_value, append_value, rejects_value, push_value}
use controllerbus.Instance.Lifecycle.{without_ref}

-- All weak references are at the beginning of the list.
abbrev pub AllStrong : List DirRef → Type 0
AllStrong [] = Unit
AllStrong (r ∷ rs) = (r.weak ≡ false) × AllStrong rs

abbrev pub WeakFirst : List DirRef → Type 0
WeakFirst [] = Unit
WeakFirst (r ∷ rs) = if r.weak then WeakFirst rs else AllStrong rs

abbrev pub value_ids : Resolver → List ℕ
value_ids res = map (λ v. v.value_id) res.vals

-- With a hard cap the attached values stay within it.
abbrev pub WithinCap : ValueOptions → ℕ → Type 0
WithinCap opts count =
    opts.max_value_hard_cap ≡ true → opts.max_value_count ≢ 0 → count ≤ opts.max_value_count

pub record IsWellFormed (opts : ValueOptions) (refs : List DirRef) (resolvers : List ℕ) (next : ℕ)
    (at : ℕ → Resolver) (ctr : ℕ) : Type 0 where
  pub weak_first : WeakFirst refs
  pub resolvers_sorted : Ascending 0 resolvers next
  pub values_sorted : (r : ℕ) → Ascending 0 (value_ids (at r)) ctr
  pub within_cap : WithinCap opts (values_of at resolvers)

abbrev pub WellFormed : Instance → Type 0
WellFormed s = IsWellFormed s.value_opts s.refs s.resolvers s.next_resolver s.resolver_at s.val_ctr

module _ (at : ℕ → Resolver) (r : ℕ) (new : Resolver) where
  abbrev replaced : ℕ → Resolver
  replaced k = if r == k then new else at k

  pub replaced_self : replaced r ≡ new
  replaced_self = rw (==_refl r)

  values_of-put :
      (rs : List ℕ) → length new.vals ≡ length (at r).vals → values_of replaced rs ≡ values_of at rs
  unfolding values_of
  values_of-put [] e = refl
  values_of-put (x ∷ rs) e = elim (Bool-cases (r == x)) [
    | inl hit ↦
        let same : r ≡ x = (==_iff r x).0 hit in
        rw hit (omega (arith, values_of-put rs e, ap (λ k. length (at k).vals) same, e))
    | inr miss ↦ rw miss (omega (arith, values_of-put rs e))
  ]

  values_of-put-le :
      (rs : List ℕ) → length new.vals ≤ length (at r).vals → values_of replaced rs ≤ values_of at rs
  unfolding values_of
  values_of-put-le [] e = omega arith
  values_of-put-le (x ∷ rs) e = elim (Bool-cases (r == x)) [
    | inl hit ↦
        let same : r ≡ x = (==_iff r x).0 hit in
        rw hit (omega (arith, values_of-put-le rs e, ap (λ k. length (at k).vals) same, e))
    | inr miss ↦ rw miss (omega (arith, values_of-put-le rs e))
  ]

  -- A resolver that comes before all others in the list is not in it.
  values_of-put_before :
      (lo hi : ℕ) (rs : List ℕ)
      → r ≤ lo
      → Ascending lo rs hi
      → values_of replaced rs ≡ values_of at rs
  unfolding values_of
  values_of-put_before lo hi [] l h = refl
  values_of-put_before lo hi (x ∷ rs) l h =
      ground (arith, values_of-put_before x hi rs (omega arith) h.1)

  pub values_of-put_one :
      (lo hi : ℕ) (rs : List ℕ)
      → Ascending lo rs hi
      → length new.vals ≡ suc (length (at r).vals)
      → values_of replaced rs ≤ suc (values_of at rs)
  unfolding values_of
  values_of-put_one lo hi [] h e = omega arith
  values_of-put_one lo hi (x ∷ rs) h e = elim (Bool-cases (r == x)) [
    | inl hit ↦
        let same : r ≡ x = (==_iff r x).0 hit in
        rw hit (
          omega (
            arith,
            values_of-put_before x hi rs (omega arith) h.1,
            ap (λ k. length (at k).vals) same,
            e,
          ))
    | inr miss ↦ rw miss (omega (arith, values_of-put_one x hi rs h.1 e))
  ]

pub if-pick {ℓ} :
    {A : Type 0} (P : A → Type ℓ) (b : Bool) (x y : A) → P x → P y → P (if b then x else y)
if-pick P true x y px py = px
if-pick P false x y px py = py

-- A write to a resolver that adds no value to it.
pub put_resolver-WellFormed :
    (r : ℕ) (new : Resolver) (s : Instance)
    → Ascending 0 (value_ids new) s.val_ctr
    → length new.vals ≤ length (s.resolver_at r).vals
    → WellFormed s
    → WellFormed (put_resolver r new s)
put_resolver-WellFormed r new s asc le p = record {
  weak_first = p.weak_first;
  resolvers_sorted = p.resolvers_sorted;
  values_sorted = λ k.
      if-pick (λ (x : Resolver). Ascending 0 (value_ids x) s.val_ctr) (r == k) new (s.resolver_at k)
        asc (p.values_sorted k);
  within_cap = λ hard cap.
      let fewer = values_of-put-le s.resolver_at r new s.resolvers le in
      let bound = p.within_cap hard cap in omega arith;
}

module _ (r : ℕ) (f : Resolver → Resolver) where
  -- A write that leaves the values alone.
  pub write_resolver-WellFormed :
      ((res : Resolver) → (f res).vals ≡ res.vals) → Keeps WellFormed (write_resolver r f)
  unfolding write_resolver
  write_resolver-WellFormed same = Keeps-modify _ λ s p.
      put_resolver-WellFormed r (f (s.resolver_at r)) s
        (subst (λ (vs : List Value). Ascending 0 (map (λ v. v.value_id) vs) s.val_ctr)
          (sym (same (s.resolver_at r))) (p.values_sorted r))
        (omega (arith, ap length (same (s.resolver_at r)))) p

  -- A write that takes values away and keeps the others as they stand.
  pub write_resolver_fewer-WellFormed :
      ((res : Resolver) (hi : ℕ)
        → Ascending 0 (value_ids res) hi
        → Ascending 0 (value_ids (f res)) hi)
      → ((res : Resolver) → length (f res).vals ≤ length res.vals)
      → Keeps WellFormed (write_resolver r f)
  unfolding write_resolver
  write_resolver_fewer-WellFormed keep fewer = Keeps-modify _ λ s p.
      put_resolver-WellFormed r (f (s.resolver_at r)) s
        (keep (s.resolver_at r) s.val_ctr (p.values_sorted r)) (fewer (s.resolver_at r)) p
