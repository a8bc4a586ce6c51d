-- ===== src/UniqueResolver/Synced.antt =====
-- The values of the handler follow the objects of the keyed list.
use controllerbus.Common.{
  ℕ, true, false, Option, none, some, List, ◌==◌, if◌then◌else◌, ◌≡◌, refl, sym, ap, ◌∙◌, subst,
  inl, inr, ◌⊎◌, Bool-cases, Option-cases, ==_iff, ==_refl, some_none, lookup, insert, delete,
  lookup-insert, lookup-insert_other, lookup-delete, lookup-delete_other,
}
use controllerbus.UniqueResolver.{ValueHandler, Emitter, emit, retract}

-- A handler with a table of the values that it holds: an accepted value gets an id that is free, and
-- a value that is removed is gone.
pub record IsTable {S : Type 0} (hnd : ValueHandler S) (holds : ℕ → S → Option ℕ) : Type 0 where
  pub rejects : (x : ℕ) (s t : S) → hnd.add x s ≡ (none, t) → (i : ℕ) → holds i t ≡ holds i s
  pub accepts_free : (x : ℕ) (s t : S) (id : ℕ) → hnd.add x s ≡ (some id, t) → holds id s ≡ none
  pub accepts : (x : ℕ) (s t : S) (id : ℕ) → hnd.add x s ≡ (some id, t) → holds id t ≡ some x
  pub accepts_other :
      (x : ℕ) (s t : S) (id : ℕ)
      → hnd.add x s ≡ (some id, t)
      → (i : ℕ) → (id == i) ≡ false
      → holds i t ≡ holds i s
  pub removes : (id : ℕ) (s : S) → holds id (hnd.remove id s) ≡ none
  pub removes_other :
      (id : ℕ) (s : S) (i : ℕ) → (id == i) ≡ false → holds i (hnd.remove id s) ≡ holds i s

abbrev pub update : (ℕ → Option ℕ) → ℕ → Option ℕ → ℕ → Option ℕ
update wanted k o j = if k == j then o else wanted j

module _ {S : Type 0} (hnd : ValueHandler S) (holds : ℕ → S → Option ℕ) where
  -- Every key for which a value is wanted has an id, every id belongs to a key and stands for the value
  -- wanted for it, and every value that is held is a key's, of one only.
  pub record IsSynced (wanted : ℕ → Option ℕ) (e : Emitter S) : Type 0 where
    pub shown :
        (k id : ℕ)
        → lookup k e.value_ids ≡ some id
        → (x : ℕ) × (wanted k ≡ some x) × (holds id e.handler ≡ some x)
    pub complete : (k x : ℕ) → wanted k ≡ some x → (id : ℕ) × (lookup k e.value_ids ≡ some id)
    pub owned :
        (id x : ℕ) → holds id e.handler ≡ some x → (k : ℕ) × (lookup k e.value_ids ≡ some id)
    pub one_key :
        (j k id : ℕ) → lookup j e.value_ids ≡ some id → lookup k e.value_ids ≡ some id → j ≡ k

  same_some : {x y : ℕ} → some x ≡ some y → x ≡ y
  same_some e = cc

  update-other :
      (wanted : ℕ → Option ℕ) (k j : ℕ) (o : Option ℕ)
      → (k == j) ≡ false
      → update wanted k o j ≡ wanted j
  update-other wanted k j o miss = rw miss refl

  update-same : (wanted : ℕ → Option ℕ) (k : ℕ) (o : Option ℕ) → update wanted k o k ≡ o
  update-same wanted k o = rw (==_refl k) refl

  -- A value that is wanted after an update is the new one, or it was wanted of another key.
  updated :
      (wanted : ℕ → Option ℕ) (k : ℕ) (o : Option ℕ) (j y : ℕ)
      → update wanted k o j ≡ some y
      → ((k ≡ j) × (o ≡ some y)) ⊎ (((k == j) ≡ false) × (wanted j ≡ some y))
  updated wanted k o j y h = elim (Bool-cases (k == j)) [
    | inr miss ↦ inr (miss, sym (update-other wanted k j o miss) ∙ h)
    | inl hit ↦ inl ((==_iff k j).0 hit, rw hit at h)
  ]

  -- What is wanted of the other keys still has its ids.
  others_complete :
      (wanted : ℕ → Option ℕ) (k : ℕ) (e : Emitter S)
      → IsSynced wanted e
      → (j y : ℕ) → update wanted k none j ≡ some y
      → ((k == j) ≡ false) × ((id : ℕ) × (lookup j e.value_ids ≡ some id))
  others_complete wanted k e p j y h = elim (updated wanted k none j y h) [
    | inl (kj, clash) ↦ some_none (sym clash)
    | inr (miss, w) ↦ (miss, p.complete j y w)
  ]

  -- A key that has an id is not one that has none.
  other_key :
      (k j id : ℕ) (m : List (ℕ × ℕ)) → lookup k m ≡ none → lookup j m ≡ some id → (k == j) ≡ false
  other_key k j id m a b = elim (Bool-cases (k == j)) [
    | inr miss ↦ miss
    | inl hit ↦ some_none (sym b ∙ subst (λ (i : ℕ). lookup i m ≡ none) ((==_iff k j).0 hit) a)
  ]

  -- A held id is not a free one.
  other_id : (i id x : ℕ) (s : S) → holds id s ≡ none → holds i s ≡ some x → (id == i) ≡ false
  other_id i id x s a b = elim (Bool-cases (id == i)) [
    | inr miss ↦ miss
    | inl hit ↦ some_none (sym b ∙ subst (λ (n : ℕ). holds n s ≡ none) ((==_iff id i).0 hit) a)
  ]

  -- What is found after an insertion is the new entry or was there before.
  inserted :
      (k id j i : ℕ) (m : List (ℕ × ℕ))
      → lookup j (insert k id m) ≡ some i
      → ((k ≡ j) × (id ≡ i)) ⊎ (((k == j) ≡ false) × (lookup j m ≡ some i))
  inserted k id j i m found = elim (Bool-cases (k == j)) [
    | inr miss ↦ inr (miss, sym (lookup-insert_other j k id m miss) ∙ found)
    | inl hit ↦
        let kj = (==_iff k j).0 hit in
        inl (
          kj,
          same_some (
              subst (λ (n : ℕ). some id ≡ lookup n (insert k id m)) kj (sym (lookup-insert k id m))
              ∙ found),
        )
  ]

  true_false : {C : Type 0} → true ≡ false → C
  true_false e = cc

  -- What is found after a deletion was there before, of another key.
  deleted :
      (k j i : ℕ) (m : List (ℕ × ℕ))
      → lookup j (delete k m) ≡ some i
      → ((k == j) ≡ false) × (lookup j m ≡ some i)
  deleted k j i m left = elim (Bool-cases (k == j)) [
    | inr miss ↦ (miss, sym (lookup-delete_other j k m miss) ∙ left)
    | inl hit ↦ some_none (
        sym left
        ∙ subst (λ (n : ℕ). lookup n (delete k m) ≡ none) ((==_iff k j).0 hit) (lookup-delete k m))
  ]

  module _ (table : IsTable hnd holds) where
    rejected-IsSynced :
        (wanted : ℕ → Option ℕ) (k x : ℕ) (e : Emitter S) (t : S)
        → hnd.add x e.handler ≡ (none, t)
        → lookup k e.value_ids ≡ none
        → IsSynced wanted e
        → IsSynced (update wanted k none) (record e { handler = t })
    rejected-IsSynced wanted k x e t run free p = record {
      shown = λ j id found.
          let (y, w, h) = p.shown j id found in
          (
            y,
            update-other wanted k j none (other_key k j id e.value_ids free found) ∙ w,
            table.rejects x e.handler t run id ∙ h,
          );
      complete = λ j y h. (others_complete wanted k e p j y h).1;
      owned = λ id y h. p.owned id y (sym (table.rejects x e.handler t run id) ∙ h);
      one_key = p.one_key;
    }

    accepted-IsSynced :
        (wanted : ℕ → Option ℕ) (k x : ℕ) (e : Emitter S) (id : ℕ) (t : S)
        → hnd.add x e.handler ≡ (some id, t)
        → lookup k e.value_ids ≡ none
        → IsSynced wanted e
        → IsSynced
            (update wanted k (some x))
            (record { value_ids = insert k id e.value_ids; handler = t })
    accepted-IsSynced wanted k x e id t run free p =
        let fresh = table.accepts_free x e.handler t id run in
        record {
          shown = λ j i found. elim (inserted k id j i e.value_ids found) [
            | inl (kj, same) ↦ (
              x,
              subst (λ (n : ℕ). update wanted k (some x) n ≡ some x) kj
                  (update-same wanted k (some x)),
              subst (λ (n : ℕ). holds n t ≡ some x) same (table.accepts x e.handler t id run),
            )
            | inr (miss, was) ↦
                let (y, w, h) = p.shown j i was in
                (
                  y,
                  update-other wanted k j (some x) miss ∙ w,
                  table.accepts_other x e.handler t id run i (other_id i id y e.handler fresh h)
                      ∙ h,
                )
          ];
          complete = λ j y h. elim (updated wanted k (some x) j y h) [
            | inl (kj, same) ↦ (
              id,
              subst (λ (n : ℕ). lookup n (insert k id e.value_ids) ≡ some id) kj
                  (lookup-insert k id e.value_ids),
            )
            | inr (miss, w) ↦
                let (i, found) = p.complete j y w in
                (i, lookup-insert_other j k id e.value_ids miss ∙ found)
          ];
          owned = λ i y h. elim (Bool-cases (id == i)) [
            | inl hit ↦ (k, lookup-insert k id e.value_ids ∙ ap some ((==_iff id i).0 hit))
            | inr miss ↦
                let (j, found) =
                  p.owned i y (sym (table.accepts_other x e.handler t id run i miss) ∙ h) in
                (
                  j,
                  lookup-insert_other j k id e.value_ids (other_key k j i e.value_ids free found)
                      ∙ found,
                )
          ];
          one_key = λ i j n a b. elim (inserted k id i n e.value_ids a) [
            | inl (ki, same) ↦ elim (inserted k id j n e.value_ids b) [
              | inl (kj, same') ↦ sym ki ∙ kj
              | inr (miss, was) ↦
                  let (y, w, h) = p.shown j n was in
                  some_none (sym h ∙ subst (λ (m : ℕ). holds m e.handler ≡ none) same fresh)
            ]
            | inr (miss, was) ↦ elim (inserted k id j n e.value_ids b) [
              | inl (kj, same) ↦
                  let (y, w, h) = p.shown i n was in
                  some_none (sym h ∙ subst (λ (m : ℕ). holds m e.handler ≡ none) same fresh)
              | inr (miss', was') ↦ p.one_key i j n was was'
            ]
          ];
        }

    -- The object that the handler has after it is offered one: none if it rejects it.
    abbrev pub offered : Option ℕ → S → Option ℕ
    offered none s = none
    offered (some x) s = elim (hnd.add x s).0 [ none ↦ none | some id ↦ some x ]

    pub emit-IsSynced :
        (wanted : ℕ → Option ℕ) (k x : ℕ) (e : Emitter S)
        → lookup k e.value_ids ≡ none
        → IsSynced wanted e
        → IsSynced (update wanted k (offered (some x) e.handler)) (emit hnd k x e)
    unfolding emit
    emit-IsSynced wanted k x e free p = go (hnd.add x e.handler) refl
      where
        go :
            (r : Option ℕ × S)
            → hnd.add x e.handler ≡ r
            → IsSynced (update wanted k (elim r.0 [ none ↦ none | some id ↦ some x ])) (elim r.0 [
              | none ↦ record e { handler = r.1 }
              | some val_id ↦ record { value_ids = insert k val_id e.value_ids; handler = r.1 }
            ])
        go (none, t) run = rejected-IsSynced wanted k x e t run free p
        go (some id, t) run = accepted-IsSynced wanted k x e id t run free p

    pub absent-IsSynced :
        (wanted : ℕ → Option ℕ) (k : ℕ) (e : Emitter S)
        → lookup k e.value_ids ≡ none
        → IsSynced wanted e
        → IsSynced (update wanted k none) e
    absent-IsSynced wanted k e absent p = record {
      shown = λ j id found.
          let (y, w, h) = p.shown j id found in
          (y, update-other wanted k j none (other_key k j id e.value_ids absent found) ∙ w, h);
      complete = λ j y h. (others_complete wanted k e p j y h).1;
      owned = p.owned;
      one_key = p.one_key;
    }

    -- The other keys have other ids.
    other_value :
        (wanted : ℕ → Option ℕ) (k j id i : ℕ) (e : Emitter S)
        → IsSynced wanted e
        → lookup k e.value_ids ≡ some id
        → lookup j e.value_ids ≡ some i
        → (k == j) ≡ false
        → (id == i) ≡ false
    other_value wanted k j id i e p found was miss = elim (Bool-cases (id == i)) [
      | inr other ↦ other
      | inl hit ↦
          let at_id = was ∙ ap some (sym ((==_iff id i).0 hit)) in
          true_false (sym ((==_iff k j).1 (p.one_key k j id found at_id)) ∙ miss)
    ]

    -- And other ids are of other keys.
    other_owner :
        (k j id i : ℕ) (e : Emitter S)
        → lookup k e.value_ids ≡ some id
        → lookup j e.value_ids ≡ some i
        → (id == i) ≡ false
        → (k == j) ≡ false
    other_owner k j id i e found was miss = elim (Bool-cases (k == j)) [
      | inr other ↦ other
      | inl hit ↦
          let at_j = subst (λ (n : ℕ). lookup n e.value_ids ≡ some id) ((==_iff k j).0 hit) found in
          true_false (sym ((==_iff id i).1 (same_some (sym at_j ∙ was))) ∙ miss)
    ]

    removed-IsSynced :
        (wanted : ℕ → Option ℕ) (k : ℕ) (e : Emitter S) (id : ℕ)
        → lookup k e.value_ids ≡ some id
        → IsSynced wanted e
        → IsSynced
            (update wanted k none)
            (record { value_ids = delete k e.value_ids; handler = hnd.remove id e.handler })
    removed-IsSynced wanted k e id found p = record {
      shown = λ j i left.
          let (miss, was) = deleted k j i e.value_ids left in
          let (y, w, h) = p.shown j i was in
          (
            y,
            update-other wanted k j none miss ∙ w,
            table.removes_other id e.handler i (other_value wanted k j id i e p found was miss) ∙ h,
          );
      complete = λ j y h.
          let (miss, (i, was)) = others_complete wanted k e p j y h in
          (i, lookup-delete_other j k e.value_ids miss ∙ was);
      owned = λ i y h. elim (Bool-cases (id == i)) [
        | inl hit ↦ some_none (
            sym h
            ∙ subst (λ (n : ℕ). holds n (hnd.remove id e.handler) ≡ none) ((==_iff id i).0 hit)
                (table.removes id e.handler))
        | inr miss ↦
            let (j, was) = p.owned i y (sym (table.removes_other id e.handler i miss) ∙ h) in
            (j, lookup-delete_other j k e.value_ids (other_owner k j id i e found was miss) ∙ was)
      ];
      one_key = λ i j n a b.
          p.one_key i j n (deleted k i n e.value_ids a).1 (deleted k j n e.value_ids b).1;
    }

    pub retract-IsSynced :
        (wanted : ℕ → Option ℕ) (k : ℕ) (e : Emitter S)
        → IsSynced wanted e
        → IsSynced (update wanted k none) (retract hnd k e)
          × (lookup k (retract hnd k e).value_ids ≡ none)
    unfolding retract
    retract-IsSynced wanted k e p = elim (Option-cases (lookup k e.value_ids)) [
      | inl absent ↦ rw (absent, retract) (absent-IsSynced wanted k e absent p, absent)
      | inr (id, found) ↦
          rw (found, retract) (removed-IsSynced wanted k e id found p, lookup-delete k e.value_ids)
    ]
