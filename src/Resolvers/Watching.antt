-- ===== src/Resolvers/Watching.antt =====
-- The value that the handler of the resolver over a watchable holds: directive/watchable-resolver.go.
use controllerbus.Common.{
  ℕ, Bool, true, false, not, ◌&&◌, Option, none, some, List, [], ◌∷◌, ◌==◌, if◌then◌else◌, ◌≡◌, ◌⊎◌,
  refl, sym, ◌∙◌, subst, inl, inr, Bool-cases, ==_iff, arith, last_or,
}
use controllerbus.UniqueResolver.{ValueHandler}
use controllerbus.UniqueResolver.Synced.{IsTable}
use controllerbus.Resolvers.{
  WatchableState, drop_value, show_value, watch_values, watchable_resolve,
}

module _ {S : Type 0} (hnd : ValueHandler S) (holds : ℕ → S → Option ℕ) where
  -- The handler holds the value under valID and nothing else; there is no valID just when the value is
  -- empty, or Resolve has returned since it was not accepted.
  pub record IsHolding (value : ℕ) (s : WatchableState S) : Type 0 where
    pub table :
        (i : ℕ) → holds i s.handler ≡ (if s.val_id == i && not (i == 0) then some value else none)
    pub shown : (s.ended ≡ true) ⊎ ((s.val_id == 0) ≡ (value == 0))
    pub left : (s.ended ≡ false) ⊎ (s.val_id ≡ 0)

  -- Nothing is held, and values are still watched.
  record IsEmpty (s : WatchableState S) : Type 0 where
    pub nothing : (i : ℕ) → holds i s.handler ≡ none
    pub no_id : s.val_id ≡ 0
    pub going_on : s.ended ≡ false

  zero_only : (i : ℕ) → (0 == i && not (i == 0)) ≡ false
  zero_only i = ground arith

  cleared-IsHolding : (s : WatchableState S) → IsEmpty s → IsHolding 0 s
  cleared-IsHolding s p = record {
    table = λ i. p.nothing i ∙ sym (rw p.no_id (rw (zero_only i) refl));
    shown = inr (rw p.no_id refl);
    left = inl p.going_on;
  }

  module _ (t : IsTable hnd holds)
      (ids : (x : ℕ) (s s' : S) (id : ℕ) → hnd.add x s ≡ (some id, s') → (id == 0) ≡ false) where
    drop-IsEmpty :
        (value : ℕ) (s : WatchableState S)
        → IsHolding value s
        → s.ended ≡ false
        → IsEmpty (drop_value hnd s)
    unfolding drop_value
    drop-IsEmpty value s p on = elim (Bool-cases (s.val_id == 0)) [
      | inl none_yet ↦
          let zero_id = (==_iff s.val_id 0).0 none_yet in
          rw (none_yet, drop_value)
            (record {
              nothing = λ i. p.table i ∙ rw zero_id (rw (zero_only i) refl);
              no_id = zero_id;
              going_on = on;
            })
      | inr has ↦
          rw (has, drop_value)
            (record {
              nothing = λ i. elim (Bool-cases (s.val_id == i)) [
                | inl hit ↦
                    subst (λ (n : ℕ). holds n (hnd.remove s.val_id s.handler) ≡ none)
                      ((==_iff s.val_id i).0 hit) (t.removes s.val_id s.handler)
                | inr miss ↦ t.removes_other s.val_id s.handler i miss ∙ p.table i ∙ rw miss refl
              ];
              no_id = refl;
              going_on = on;
            })
    ]

    -- What AddValue has done with a value that is not empty.
    added :
        (value : ℕ) (s : WatchableState S) (r : Option ℕ) (h : S)
        → IsEmpty s
        → (value == 0) ≡ false
        → hnd.add value s.handler ≡ (r, h)
        → IsHolding value (elim r [
          | none ↦ record s { val_id = 0; handler = h; ended = true }
          | some val_id ↦ record s { val_id = val_id; handler = h }
        ])
    added value s none h p full e = record {
      table = λ i. t.rejects value s.handler h e i ∙ p.nothing i ∙ sym (rw (zero_only i) refl);
      shown = inl refl;
      left = inr refl;
    }
    added value s (some id) h p full e = record {
      table = λ i. elim (Bool-cases (id == i)) [
        | inl hit ↦
            let same = (==_iff id i).0 hit in
            let given : (i == 0) ≡ false =
              subst (λ (n : ℕ). (n == 0) ≡ false) same (ids value s.handler h id e) in
            subst (λ (n : ℕ). holds n h ≡ some value) same (t.accepts value s.handler h id e)
            ∙ sym (rw hit (rw given refl))
        | inr miss ↦
            t.accepts_other value s.handler h id e i miss ∙ p.nothing i ∙ sym (rw miss refl)
      ];
      shown = inr (ids value s.handler h id e ∙ sym full);
      left = inl p.going_on;
    }

    show-IsHolding :
        (value : ℕ) (s : WatchableState S) → IsEmpty s → IsHolding value (show_value hnd value s)
    unfolding show_value
    show-IsHolding value s p = elim (Bool-cases (value == 0)) [
      | inl empty ↦
          rw (empty, show_value)
            (subst (λ (n : ℕ). IsHolding n s) (sym ((==_iff value 0).0 empty))
              (cleared-IsHolding s p))
      | inr full ↦ rw (full, show_value) (added value s _ _ p full refl)
    ]

    ended-IsHolding :
        (v w : ℕ) (s : WatchableState S) → IsHolding v s → s.ended ≡ true → IsHolding w s
    ended-IsHolding v w s p over = elim p.left [
      | inl on ↦ cc
      | inr zero_id ↦ record {
        table = λ i. p.table i ∙ rw zero_id (rw (zero_only i) refl);
        shown = inl over;
        left = p.left;
      }
    ]

    values-IsHolding :
        (values : List ℕ) (v : ℕ) (s : WatchableState S)
        → IsHolding v s
        → IsHolding (last_or v values) (watch_values hnd values s)
    unfolding watch_values last_or
    values-IsHolding [] v s p = p
    values-IsHolding (value ∷ values) v s p =
        let next = watch_values hnd values (show_value hnd value (drop_value hnd s)) in
        let holding : WatchableState S → Type 0 = λ st. IsHolding (last_or value values) st in
        elim (Bool-cases s.ended) [
          | inl over ↦
              subst (λ (b : Bool). holding (if b then s else next)) (sym over)
                (ended-IsHolding v (last_or value values) s p over)
          | inr on ↦
              subst (λ (b : Bool). holding (if b then s else next)) (sym on)
                (values-IsHolding values value _
                  (show-IsHolding value (drop_value hnd s) (drop-IsEmpty v s p on)))
        ]

    -- After any watched values the handler, a table whose ids are not 0 and that ClearValues
    -- empties, holds the last of them under valID and nothing else; it holds nothing if that is
    -- the empty value, or if Resolve has returned since a value was not accepted.
    pub watchable_resolve-IsHolding :
        (clear_values : S → S) (h : S) (values : List ℕ)
        → ((i : ℕ) → holds i (clear_values h) ≡ none)
        → IsHolding (last_or 0 values) (watchable_resolve hnd clear_values values h)
    unfolding watchable_resolve
    watchable_resolve-IsHolding clear_values h values clear =
        values-IsHolding values 0 _
          (cleared-IsHolding _ (record { nothing = clear; no_id = refl; going_on = refl }))
