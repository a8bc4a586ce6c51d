-- ===== src/Instance/Invariant/Counted.antt =====
-- Resolvers and values that are added and removed keep an instance well-formed (directive/controller/instance.go).
use controllerbus.Common.{
  ℕ, suc, ◌+◌, ◌≤◌, ◌<◌, ◌≡◌, refl, ap, false, List, [], ◌∷◌, ◌++◌, map, length, arith, Ascending,
  Ascending-snoc, Ascending-upper, without, without-Ascending, length-append, ◌^◌, ◌==◌,
}
use controllerbus.Instance.State.{Instance, Resolver, Value, Callback}
use controllerbus.Instance.Notify.{put_resolver}
use controllerbus.Instance.Capacity.{values_of, count_values_locked, new_resolver, push_resolver}
use controllerbus.Instance.Values.{next_uint32, new_value, append_value, rejects_value, push_value}
use controllerbus.Instance.Invariant.{
  value_ids, WellFormed, replaced_self, values_of-put_one, if-pick, put_resolver-WellFormed,
}

values_of-append :
    (at : ℕ → Resolver) (rs : List ℕ) (r : ℕ)
    → values_of at (rs ++ r ∷ []) ≡ values_of at rs + length (at r).vals
unfolding values_of
values_of-append at [] r = omega arith
values_of-append at (x ∷ rs) r = omega (arith, values_of-append at rs r)

-- A new resolver is the last of the list and holds no value.
pub push_resolver-WellFormed :
    (hnd res : ℕ) (rels : List Callback) (s : Instance)
    → WellFormed s
    → WellFormed (push_resolver hnd res rels s)
unfolding push_resolver new_resolver
push_resolver-WellFormed hnd res rels s p =
    let r = suc s.next_resolver in
    let new = new_resolver hnd res rels in
    let q = put_resolver-WellFormed r new s (omega arith) (omega arith) p in
    record {
      weak_first = p.weak_first;
      resolvers_sorted =
          Ascending-snoc 0 s.next_resolver r s.resolvers (omega arith) p.resolvers_sorted;
      values_sorted = q.values_sorted;
      within_cap = λ hard cap.
          let more = values_of-append (put_resolver r new s).resolver_at s.resolvers r in
          let none_new = ap (λ (x : Resolver). length x.vals) (replaced_self s.resolver_at r new) in
          let bound = q.within_cap hard cap in omega arith;
    }

value_ids-snoc :
    (vs : List Value) (v : Value)
    → map (λ v. v.value_id) (vs ++ v ∷ []) ≡ map (λ v. v.value_id) vs ++ v.value_id ∷ []
value_ids-snoc [] v = refl
value_ids-snoc (x ∷ vs) v = ap (λ l. x.value_id ∷ l) (value_ids-snoc vs v)

-- An accepted value takes the next id, unless the counter wraps, and stays within a hard cap.
pub push_value-WellFormed :
    (r val : ℕ) (s : Instance)
    → s.val_ctr + 1 < 2 ^ 32
    → rejects_value s ≡ false
    → WellFormed s
    → WellFormed (push_value r val s)
unfolding push_value rejects_value count_values_locked
push_value-WellFormed r val s room accepted p =
    let new = append_value (new_value (next_uint32 s.val_ctr) val) (s.resolver_at r) in
    let next : next_uint32 s.val_ctr ≡ s.val_ctr + 1 = omega arith in
    record {
      weak_first = p.weak_first;
      resolvers_sorted = p.resolvers_sorted;
      values_sorted = λ k.
          if-pick (λ (x : Resolver). Ascending 0 (value_ids x) (next_uint32 s.val_ctr)) (r == k) new
            (s.resolver_at k)
            (rw value_ids-snoc (
              Ascending-snoc 0 s.val_ctr (next_uint32 s.val_ctr) (value_ids (s.resolver_at r))
                (omega arith) (p.values_sorted r)))
            (Ascending-upper 0 s.val_ctr (next_uint32 s.val_ctr) (value_ids (s.resolver_at k))
              (omega arith) (p.values_sorted k));
      within_cap = λ hard cap.
          let one =
            values_of-put_one s.resolver_at r new 0 s.next_resolver s.resolvers p.resolvers_sorted (
              omega (
                arith,
                length-append (s.resolver_at r).vals (new_value (next_uint32 s.val_ctr) val ∷ []),
              )) in
          let bound = p.within_cap hard cap in
          let room_left : values_of s.resolver_at s.resolvers < s.value_opts.max_value_count =
            ground arith in
          omega arith;
    }

values_of-without :
    (at : ℕ → Resolver) (r : ℕ) (rs : List ℕ) → values_of at (without r rs) ≤ values_of at rs
unfolding values_of without
values_of-without at r [] = omega arith
values_of-without at r (x ∷ rs) = ground (arith, values_of-without at r rs)

-- A resolver leaves the list.
pub drop_resolver-WellFormed :
    (r : ℕ) (s : Instance)
    → WellFormed s
    → WellFormed (record s { resolvers = without r s.resolvers })
drop_resolver-WellFormed r s p = record {
  weak_first = p.weak_first;
  resolvers_sorted = without-Ascending r 0 s.next_resolver s.resolvers p.resolvers_sorted;
  values_sorted = p.values_sorted;
  within_cap = λ hard cap.
      let fewer = values_of-without s.resolver_at r s.resolvers in
      let bound = p.within_cap hard cap in omega arith;
}
