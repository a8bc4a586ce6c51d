-- ===== src/Clients/Collect/Holds.antt =====
-- What the slices of ExecCollectValuesWithFilter of bus/multi.go hold, and that a value that is added or
-- removed keeps it so.
use controllerbus.Common.{
  ℕ, suc, ◌≤◌, Bool, true, false, Option, none, some, List, [], ◌∷◌, ◌++◌, map, ◌==◌, if◌then◌else◌,
  ◌≡◌, refl, sym, ap, ◌∙◌, subst, inl, inr, Bool-cases, Option-cases, ==_iff, arith,
}
use mathlib.Core.List.{Perm, map-append}
use mathlib.Core.List.Perm
use controllerbus.Instance.State.{AttachedValue}
use controllerbus.Clients.{mark, has_type, untyped_other, live_before}
use controllerbus.Clients.Select.{delete_value_id}
use controllerbus.Clients.Collect.{
  CollectState, index_of, swap_remove_at, fail_collect, collect_value, remove_collected,
}
use controllerbus.Clients.Collect.Removal.{
  ids_count, ids_of, ids_count-append, delete-perm, SameValues, swap_remove_at-delete,
  unfound-delete, swap_remove_at-map, ids_count-delete_same, ids_count-delete_le,
}

abbrev pub takes : Bool × Option ℕ → Bool
takes (true, none) = true
takes (true, some err) = false
takes (false, o) = false

abbrev pub vals_of : List AttachedValue → List ℕ
vals_of = map (λ (v : AttachedValue). v.attached_val)

module _ (is_t : ℕ → Bool) where
  -- The items that are collected are, up to order, those of `h`. `live` has the values of the instance.
  pub record Holds (live : ℕ → Option ℕ) (h : List AttachedValue) (s : CollectState) : Type 0 where
    pub items : List AttachedValue
    pub vals_are : s.vals ≡ vals_of items
    pub ids_are : s.val_ids ≡ ids_of items
    pub same : Perm items h
    pub once : (k : ℕ) → ids_count k items ≤ 1
    pub free : (k : ℕ) → has_type is_t (live k) ≡ false → ids_count k items ≡ 0
    pub open_ : s.returned ≡ false

  pub alike-Holds :
      (live live' : ℕ → Option ℕ) (h : List AttachedValue) (s t : CollectState) (p : Holds live h s)
      → ((k : ℕ) → has_type is_t (live' k) ≡ false → ids_count k p.items ≡ 0)
      → t.vals ≡ s.vals
      → t.val_ids ≡ s.val_ids
      → t.returned ≡ s.returned
      → Holds live' h t
  alike-Holds live live' h s t p free a b c = record {
    items = p.items;
    vals_are = a ∙ p.vals_are;
    ids_are = b ∙ p.ids_are;
    same = p.same;
    once = p.once;
    free = free;
    open_ = c ∙ p.open_;
  }

  ids_count-snoc :
      (k : ℕ) (vs : List AttachedValue) (v : AttachedValue)
      → ids_count k (vs ++ v ∷ [])
        ≡ (if v.attached_id == k then suc (ids_count k vs) else ids_count k vs)
  unfolding ids_count
  ids_count-snoc k vs v = ground (arith, ids_count-append k vs (v ∷ []))

  append-Holds :
      (live : ℕ → Option ℕ) (h : List AttachedValue) (v : AttachedValue) (s : CollectState)
      → is_t v.attached_val ≡ true
      → live v.attached_id ≡ none
      → Holds live h s
      → Holds (mark live v.attached_id (some v.attached_val)) (h ++ v ∷ []) (record s {
        vals = s.vals ++ v.attached_val ∷ [];
        val_ids = s.val_ids ++ v.attached_id ∷ [];
      })
  unfolding ids_of
  append-Holds live h v s typed new p = record {
    items = p.items ++ v ∷ [];
    vals_are =
        rw p.vals_are (sym (map-append (λ (w : AttachedValue). w.attached_val) p.items (v ∷ [])));
    ids_are =
        rw p.ids_are (sym (map-append (λ (w : AttachedValue). w.attached_id) p.items (v ∷ [])));
    same = Perm.append_right (v ∷ []) p.same;
    once = λ k. elim (Bool-cases (v.attached_id == k)) [
      | inl hit ↦ ground (arith, ids_count-snoc k p.items v, p.free v.attached_id (rw new refl))
      | inr miss ↦ ground (arith, ids_count-snoc k p.items v, p.once k)
    ];
    free = λ k e.
        let miss = untyped_other is_t live v.attached_id v.attached_val k typed e in
        ids_count-snoc k p.items v ∙ rw miss (p.free k (live_before is_t live _ k _ miss e));
    open_ = p.open_;
  }

  -- Marking an id that no item has.
  pub kept_free :
      (live : ℕ → Option ℕ) (h : List AttachedValue) (id : ℕ) (o : Option ℕ) (s : CollectState)
      → (p : Holds live h s) → ids_count id p.items ≡ 0
      → (k : ℕ) → has_type is_t (mark live id o k) ≡ false
      → ids_count k p.items ≡ 0
  kept_free live h id o s p new k e = elim (Bool-cases (id == k)) [
    | inl hit ↦ subst (λ (n : ℕ). ids_count n p.items ≡ 0) ((==_iff id k).0 hit) new
    | inr miss ↦ p.free k (live_before is_t live id k o miss e)
  ]

  pub collect_value-Holds :
      (live : ℕ → Option ℕ) (h : List AttachedValue) (v : AttachedValue) (r : Bool × Option ℕ)
      → (s : CollectState) → is_t v.attached_val ≡ true
      → live v.attached_id ≡ none
      → Holds live h s
      → Holds
          (mark live v.attached_id (some v.attached_val))
          (if takes r then h ++ v ∷ [] else h)
          (collect_value v r s)
  unfolding collect_value fail_collect
  collect_value-Holds live h v (true, some err) s typed new p =
      alike-Holds live _ h s _ p (kept_free live h _ _ s p (p.free _ (rw new refl))) (ground arith)
        (ground arith) (ground arith)
  collect_value-Holds live h v (false, some err) s typed new p =
      alike-Holds live _ h s _ p (kept_free live h _ _ s p (p.free _ (rw new refl))) (ground arith)
        (ground arith) (ground arith)
  collect_value-Holds live h v (false, none) s typed new p =
      alike-Holds live _ h s _ p (kept_free live h _ _ s p (p.free _ (rw new refl))) refl refl refl
  collect_value-Holds live h v (true, none) s typed new p =
      subst
        (λ (b : Bool). Holds (mark live v.attached_id (some v.attached_val)) (h ++ v ∷ []) (
          if b then s else record s {
            vals = s.vals ++ v.attached_val ∷ [];
            val_ids = s.val_ids ++ v.attached_id ∷ [];
          }))
        (sym p.open_) (append-Holds live h v s typed new p)

  -- The state after a value has been taken out.
  removed-Holds :
      (live : ℕ → Option ℕ) (h : List AttachedValue) (id : ℕ) (items' : List AttachedValue)
      → (s t : CollectState) (p : Holds live h s) → SameValues items' (delete_value_id id p.items)
      → t.vals ≡ vals_of items'
      → t.val_ids ≡ ids_of items'
      → t.returned ≡ false
      → Holds (mark live id none) (delete_value_id id h) t
  removed-Holds live h id items' s t p q a b c = record {
    items = items';
    vals_are = a;
    ids_are = b;
    same = Perm.trans q.0 (delete-perm id p.items h p.same);
    once = λ k. omega (arith, q.1 k, ids_count-delete_le k id p.items, p.once k);
    free = λ k e. elim (Bool-cases (id == k)) [
      | inl hit ↦
          q.1 k
          ∙ ap (λ (n : ℕ). ids_count n (delete_value_id id p.items)) (sym ((==_iff id k).0 hit))
          ∙ ids_count-delete_same id p.items
      | inr miss ↦ omega (
        arith,
        q.1 k,
        ids_count-delete_le k id p.items,
        p.free k (live_before is_t live id k none miss e),
      )
    ];
    open_ = c;
  }

  remove_collected-open :
      (i : ℕ) (s : CollectState)
      → s.returned ≡ false
      → remove_collected (some i) s
        ≡ record s { val_ids = swap_remove_at i s.val_ids; vals = swap_remove_at i s.vals }
  unfolding remove_collected
  remove_collected-open i s e = ground arith

  pub remove_collected-Holds :
      (live : ℕ → Option ℕ) (h : List AttachedValue) (id : ℕ) (s : CollectState)
      → Holds live h s
      → Holds
          (mark live id none)
          (delete_value_id id h)
          (remove_collected (index_of id s.val_ids) s)
  unfolding remove_collected ids_of
  remove_collected-Holds live h id s p = elim (Option-cases (index_of id (ids_of p.items))) [
    | inl missing ↦ rw (ap (index_of id) p.ids_are ∙ missing) (
        removed-Holds live h id p.items s s p
          (rw (unfound-delete id p.items missing) (Perm.refl p.items, λ k. refl)) p.vals_are
          p.ids_are p.open_)
    | inr (i, found) ↦ rw (ap (index_of id) p.ids_are ∙ found) (
        rw (remove_collected-open i s p.open_) (
          removed-Holds live h id (swap_remove_at i p.items) s _ p
            (swap_remove_at-delete id p.items i (p.once id) found)
            (ap (swap_remove_at i) p.vals_are ∙ swap_remove_at-map _ p.items i)
            (ap (swap_remove_at i) p.ids_are ∙ swap_remove_at-map _ p.items i) p.open_))
  ]
