-- ===== src/Clients/Relay/Disposing.antt =====
-- The handlers of bus/transform.go and bus/passthru.go leave no value behind.
use controllerbus.Common.{
  ℕ, Bool, true, false, Option, none, some, List, [], ◌∷◌, ◌==◌, ◌≡◌, refl, sym, ap, ◌∙◌, subst,
  inl, inr, Bool-cases, Option-cases, ==_iff, some_none, lookup, insert, lookup-insert,
  lookup-insert_other,
}
use controllerbus.Instance.State.{AttachedValue}
use controllerbus.UniqueResolver.{ValueHandler}
use controllerbus.UniqueResolver.Synced.{IsTable}
use controllerbus.Clients.{
  ClientEvent, value_added, value_removed, instance_disposed, run_events, mark, IsFresh, mark-other,
  mark-same,
}
use controllerbus.Clients.Relay.{
  TransformHandler, new_transform_handler, hand_on, take_back, remove_all, transform_step,
}

true_false : {C : Type 0} → true ≡ false → C
true_false e = cc

same_some : {x y : ℕ} → some x ≡ some y → x ≡ y
same_some e = cc

module _ {S : Type 0} (hnd : ValueHandler S) (holds : ℕ → S → Option ℕ)
    (table : IsTable hnd holds) where
  -- Each value that is held is that of a value of the directive.
  record IsOwned (live : ℕ → Option ℕ) (h : TransformHandler S) : Type 0 where
    owner :
        (i x : ℕ)
        → holds i h.passthru ≡ some x
        → (k : ℕ) × (y : ℕ) × (live k ≡ some y) × (lookup k h.id_mapping ≡ some i)

  -- A key that is in use is another than one that is not.
  other_key :
      (live : ℕ → Option ℕ) (id k y : ℕ) → live id ≡ none → live k ≡ some y → (id == k) ≡ false
  other_key live id k y new old = elim (Bool-cases (id == k)) [
    | inr miss ↦ miss
    | inl hit ↦ some_none (sym old ∙ ap live (sym ((==_iff id k).0 hit)) ∙ new)
  ]

  unmapped-IsOwned :
      (live : ℕ → Option ℕ) (id : ℕ) (o : Option ℕ) (h : TransformHandler S)
      → live id ≡ none
      → IsOwned live h
      → IsOwned (mark live id o) h
  unmapped-IsOwned live id o h new p = record {
    owner = λ i x e.
        let (k, y, old, there) = p.owner i x e in
        (k, y, mark-other live id k o (other_key live id k y new old) ∙ old, there);
  }

  -- The state after the handler has accepted a value.
  accepted-IsOwned :
      (live : ℕ → Option ℕ) (id y val j : ℕ) (h : TransformHandler S) (s : S)
      → live id ≡ none
      → hnd.add val h.passthru ≡ (some j, s)
      → IsOwned live h
      → IsOwned
          (mark live id (some y))
          (record h { passthru = s; id_mapping = insert id j h.id_mapping })
  accepted-IsOwned live id y val j h s new added p = record {
    owner = λ i x e. elim (Bool-cases (j == i)) [
      | inl hit ↦ (
        id,
        y,
        mark-same live id (some y),
        lookup-insert id j h.id_mapping ∙ ap some ((==_iff j i).0 hit),
      )
      | inr miss ↦
          let before = sym (table.accepts_other val h.passthru s j added i miss) ∙ e in
          let (k, z, old, there) = p.owner i x before in
          let other = other_key live id k z new old in
          (
            k,
            z,
            mark-other live id k (some y) other ∙ old,
            lookup-insert_other k id j h.id_mapping other ∙ there,
          )
    ];
  }

  hand_on-IsOwned :
      (live : ℕ → Option ℕ) (id y : ℕ) (o : Option ℕ) (h : TransformHandler S)
      → live id ≡ none
      → IsOwned live h
      → IsOwned (mark live id (some y)) (hand_on hnd id o h)
  unfolding hand_on
  hand_on-IsOwned live id y none h new p = unmapped-IsOwned live id (some y) h new p
  hand_on-IsOwned live id y (some val) h new p =
      let t : S = (hnd.add val h.passthru).1 in
      elim (Option-cases (hnd.add val h.passthru).0) [
        | inl rejected ↦
            let e : hnd.add val h.passthru ≡ (none, t) = ap (λ (o : Option ℕ). (o, t)) rejected in
            rw (rejected, hand_on)
              (unmapped-IsOwned live id (some y) (record h { passthru = t }) new
                (record {
                  owner = λ i x held. p.owner i x (sym (table.rejects val h.passthru t e i) ∙ held);
                }))
        | inr (j, accepted) ↦
            let e : hnd.add val h.passthru ≡ (some j, t) = ap (λ (o : Option ℕ). (o, t)) accepted in
            rw (accepted, hand_on) (accepted-IsOwned live id y val j h t new e p)
      ]

  -- A value that is still held after another was removed was held before, under another id.
  held_before :
      (i j x : ℕ) (s : S)
      → holds i (hnd.remove j s) ≡ some x
      → ((j == i) ≡ false) × (holds i s ≡ some x)
  held_before i j x s e = elim (Bool-cases (j == i)) [
    | inr miss ↦ (miss, sym (table.removes_other j s i miss) ∙ e)
    | inl hit ↦ some_none (
        sym e
        ∙ subst (λ (n : ℕ). holds n (hnd.remove j s) ≡ none) ((==_iff j i).0 hit)
            (table.removes j s))
  ]

  -- Keys with different ids are different.
  mapped_other :
      (id k i j : ℕ) (m : List (ℕ × ℕ))
      → lookup id m ≡ some j
      → lookup k m ≡ some i
      → (j == i) ≡ false
      → (id == k) ≡ false
  mapped_other id k i j m a b differ = elim (Bool-cases (id == k)) [
    | inr miss ↦ miss
    | inl hit ↦
        let same = same_some (sym a ∙ ap (λ (n : ℕ). lookup n m) ((==_iff id k).0 hit) ∙ b) in
        true_false (sym ((==_iff j i).1 same) ∙ differ)
  ]

  take_back-IsOwned :
      (live : ℕ → Option ℕ) (id : ℕ) (o : Option ℕ) (h : TransformHandler S)
      → lookup id h.id_mapping ≡ o
      → IsOwned live h
      → IsOwned (mark live id none) (take_back hnd o h)
  unfolding take_back
  take_back-IsOwned live id none h found p = record {
    owner = λ i x e.
        let (k, y, old, there) = p.owner i x e in
        let miss = other_key (λ n. lookup n h.id_mapping) id k i found there in
        (k, y, mark-other live id k none miss ∙ old, there);
  }
  take_back-IsOwned live id (some j) h found p = record {
    owner = λ i x e.
        let (differ, before) = held_before i j x h.passthru e in
        let (k, y, old, there) = p.owner i x before in
        let miss = mapped_other id k i j h.id_mapping found there differ in
        (k, y, mark-other live id k none miss ∙ old, there);
  }

  remove_all-none :
      (m : List (ℕ × ℕ)) (s : S) (i : ℕ) → holds i s ≡ none → holds i (remove_all hnd m s) ≡ none
  unfolding remove_all
  remove_all-none [] s i e = e
  remove_all-none ((vid, j) ∷ m) s i e =
      remove_all-none m (hnd.remove j s) i (elim (Bool-cases (j == i)) [
        | inl hit ↦
            subst (λ (n : ℕ). holds n (hnd.remove j s) ≡ none) ((==_iff j i).0 hit)
              (table.removes j s)
        | inr miss ↦ table.removes_other j s i miss ∙ e
      ])

  remove_all-mapped :
      (m : List (ℕ × ℕ)) (s : S) (k i : ℕ)
      → lookup k m ≡ some i
      → holds i (remove_all hnd m s) ≡ none
  unfolding remove_all lookup
  remove_all-mapped [] s k i e = some_none (sym e)
  remove_all-mapped ((vid, j) ∷ m) s k i e = elim (Bool-cases (vid == k)) [
    | inl hit ↦
        let same = same_some (rw hit at e) in
        remove_all-none m (hnd.remove j s) i
          (subst (λ (n : ℕ). holds n (hnd.remove j s) ≡ none) same (table.removes j s))
    | inr miss ↦ remove_all-mapped m (hnd.remove j s) k i (rw miss at e)
  ]

  emptied :
      (live : ℕ → Option ℕ) (h : TransformHandler S)
      → IsOwned live h
      → (i : ℕ) → holds i (remove_all hnd h.id_mapping h.passthru) ≡ none
  emptied live h p i = elim (Option-cases (holds i h.passthru)) [
    | inl free ↦ remove_all-none h.id_mapping h.passthru i free
    | inr (x, held) ↦
        let (k, y, old, there) = p.owner i x held in
        remove_all-mapped h.id_mapping h.passthru k i there
  ]

  module _ (value_of : AttachedValue → Option ℕ) (has_dispose : Bool) where
    run-IsOwned :
        (evs : List ClientEvent) (live : ℕ → Option ℕ) (h : TransformHandler S)
        → IsFresh live evs
        → IsOwned live h
        → (live' : ℕ → Option ℕ) × IsOwned live'
            (run_events (transform_step (some hnd) value_of has_dispose) evs h)
    unfolding run_events transform_step
    run-IsOwned [] live h fresh p = (live, p)
    run-IsOwned (value_added v ∷ evs) live h fresh p =
        run-IsOwned evs _ _ fresh.1
          (hand_on-IsOwned live v.attached_id v.attached_val (value_of v) h fresh.0 p)
    run-IsOwned (value_removed v ∷ evs) live h fresh p =
        run-IsOwned evs _ _ fresh.1 (take_back-IsOwned live v.attached_id _ h refl p)
    run-IsOwned (instance_disposed ∷ evs) live h fresh p = absurd fresh

    disposed-none :
        (live : ℕ → Option ℕ) (h : TransformHandler S)
        → IsOwned live h
        → (i : ℕ)
        → holds i (transform_step (some hnd) value_of has_dispose instance_disposed h).passthru
          ≡ none
    unfolding transform_step
    disposed-none live h p i = elim (Bool-cases has_dispose) [
      | inl calls ↦ rw calls (emptied live h p i)
      | inr quiet ↦ rw quiet (emptied live h p i)
    ]

    -- After any values were added and removed, as an instance does it, and the directive was
    -- disposed of, a resolver handler that held nothing holds nothing, whatever the
    -- transformation and whichever values the handler accepts.
    pub transform-disposed :
        (evs : List ClientEvent) (s : S)
        → IsFresh (λ id. none) evs
        → ((i : ℕ) → holds i s ≡ none)
        → (i : ℕ)
        → holds i
            (transform_step (some hnd) value_of has_dispose instance_disposed (
              run_events
                (transform_step (some hnd) value_of has_dispose)
                evs
                (new_transform_handler s))).passthru
          ≡ none
    unfolding new_transform_handler
    transform-disposed evs s fresh empty i =
        let (live, p) =
          run-IsOwned evs (λ id. none) (new_transform_handler s) fresh
            (record { owner = λ j x e. some_none (sym e ∙ empty j) }) in
        disposed-none live _ p i
