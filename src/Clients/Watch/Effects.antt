-- ===== src/Clients/Watch/Effects.antt =====
-- ExecWatchEffect of bus/watch.go: the functions that the callback returns are called once each.
use controllerbus.Common.{
  ℕ, suc, ◌+◌, Bool, true, false, Option, none, some, List, [], ◌∷◌, ◌==◌, if◌then◌else◌, ◌≡◌, refl,
  ◌∙◌, subst, inl, inr, Bool-cases, Option-cases, ==_iff, arith, some_none, lookup, insert, delete,
  Distinct, lookup-insert_other, lookup-delete, lookup-delete_other, delete-absent, delete-Distinct,
  insert-Distinct,
}
use controllerbus.Instance.State.{AttachedValue}
use controllerbus.Clients.{
  ClientEvent, value_added, value_removed, instance_disposed, run_events, mark, IsFresh, has_type,
  untyped_other, live_before,
}
use controllerbus.Clients.Watch.{EffectState, no_effects, keep_rel, release_all, effect_step}

true_false {ℓ} : {C : Type ℓ} → true ≡ false → C
true_false e = cc

abbrev pub count : ℕ → List ℕ → ℕ
count x [] = 0
count x (y ∷ ys) = let rest = count x ys in if y == x then suc rest else rest

-- How often a function is kept in the map.
abbrev pub pending : ℕ → List (ℕ × ℕ) → ℕ
pending x [] = 0
pending x ((k, y) ∷ m) = let rest = pending x m in if y == x then suc rest else rest

pending-insert :
    (x k rel : ℕ) (m : List (ℕ × ℕ))
    → lookup k m ≡ none
    → pending x (insert k rel m) ≡ pending x ((k, rel) ∷ m)
unfolding insert lookup
pending-insert x k rel [] h = refl
pending-insert x k rel ((j, w) ∷ m) h = elim (Bool-cases (j == k)) [
  | inl hit ↦ some_none (rw hit at h)
  | inr miss ↦ rw miss (ground (arith, pending-insert x k rel m (rw miss at h)))
]

pending-delete :
    (x k rel : ℕ) (m : List (ℕ × ℕ))
    → Distinct m
    → lookup k m ≡ some rel
    → pending x m ≡ pending x ((k, rel) ∷ delete k m)
unfolding delete lookup
pending-delete x k rel [] d h = cc
pending-delete x k rel ((j, w) ∷ m) d h = elim (Bool-cases (j == k)) [
  | inl hit ↦
      let gone =
        delete-absent k m (subst (λ (n : ℕ). lookup n m ≡ none) ((==_iff j k).0 hit) d.0) in
      let same : some w ≡ some rel = rw hit at h in rw hit (rw gone (ground arith))
  | inr miss ↦ rw miss (ground (arith, pending-delete x k rel m d.1 (rw miss at h)))
]

module _ (is_t : ℕ → Bool) where
  -- A function that was handed out has been called or is kept.
  pub record IsAccounted (live : ℕ → Option ℕ) (s : EffectState) : Type 0 where
    pub counted : (x : ℕ) → count x s.handed_out ≡ count x s.released + pending x s.rels
    pub distinct : Distinct s.rels
    pub known : (id : ℕ) → has_type is_t (live id) ≡ false → lookup id s.rels ≡ none

  -- Marking an id under which nothing is kept.
  unkept-IsAccounted :
      (live : ℕ → Option ℕ) (id : ℕ) (o : Option ℕ) (s : EffectState)
      → lookup id s.rels ≡ none
      → IsAccounted live s
      → IsAccounted (mark live id o) s
  unkept-IsAccounted live id o s free p = record {
    counted = p.counted;
    distinct = p.distinct;
    known = λ j h. elim (Bool-cases (id == j)) [
      | inl hit ↦ subst (λ (n : ℕ). lookup n s.rels ≡ none) ((==_iff id j).0 hit) free
      | inr miss ↦ p.known j (live_before is_t live id j o miss h)
    ];
  }

  keep-IsAccounted :
      (live : ℕ → Option ℕ) (id val : ℕ) (o : Option ℕ) (s : EffectState)
      → is_t val ≡ true
      → lookup id s.rels ≡ none
      → IsAccounted live s
      → IsAccounted (mark live id (some val)) (keep_rel id o s)
  unfolding keep_rel
  keep-IsAccounted live id val none s typed free p = unkept-IsAccounted live id (some val) s free p
  keep-IsAccounted live id val (some rel) s typed free p = record {
    counted = λ x. rw (pending-insert x id rel s.rels free) (ground (arith, p.counted x));
    distinct = insert-Distinct id rel s.rels p.distinct;
    known = λ j h.
        let miss = untyped_other is_t live id val j typed h in
        lookup-insert_other j id rel s.rels miss
        ∙ p.known j (live_before is_t live id j (some val) miss h);
  }

  release-IsAccounted :
      (live : ℕ → Option ℕ) (id rel : ℕ) (s : EffectState)
      → lookup id s.rels ≡ some rel
      → IsAccounted live s
      → IsAccounted
          (mark live id none)
          (record s { rels = delete id s.rels; released = rel ∷ s.released })
  release-IsAccounted live id rel s found p = record {
    counted = λ x. ground (arith, p.counted x, pending-delete x id rel s.rels p.distinct found);
    distinct = delete-Distinct id s.rels p.distinct;
    known = λ j h. elim (Bool-cases (id == j)) [
      | inl hit ↦
          subst (λ (n : ℕ). lookup n (delete id s.rels) ≡ none) ((==_iff id j).0 hit)
            (lookup-delete id s.rels)
      | inr miss ↦
          lookup-delete_other j id s.rels miss ∙ p.known j (live_before is_t live id j none miss h)
    ];
  }

  release_all-counted :
      (x : ℕ) (m : List (ℕ × ℕ)) (s : EffectState)
      → count x (release_all m s).released ≡ pending x m + count x s.released
  unfolding release_all
  release_all-counted x [] s = omega arith
  release_all-counted x ((k, rel) ∷ m) s = ground (
    arith,
    release_all-counted x m (record s { released = rel ∷ s.released; rels = delete k s.rels }),
  )

  release_all-handed_out :
      (m : List (ℕ × ℕ)) (s : EffectState) → (release_all m s).handed_out ≡ s.handed_out
  unfolding release_all
  release_all-handed_out [] s = refl
  release_all-handed_out ((k, rel) ∷ m) s = release_all-handed_out m _

  module _ (cb : EffectState → AttachedValue → Option ℕ) where
    added-IsAccounted :
        (live : ℕ → Option ℕ) (v : AttachedValue) (s : EffectState)
        → live v.attached_id ≡ none
        → IsAccounted live s
        → IsAccounted
            (mark live v.attached_id (some v.attached_val))
            (effect_step is_t cb (value_added v) s)
    unfolding effect_step
    added-IsAccounted live v s new p =
        let free = p.known v.attached_id (rw new refl) in
        elim (Bool-cases (is_t v.attached_val)) [
          | inl typed ↦ rw typed (keep-IsAccounted live _ _ (cb s v) s typed free p)
          | inr other ↦ rw other (unkept-IsAccounted live _ _ s free p)
        ]

    removed-IsAccounted :
        (live : ℕ → Option ℕ) (v : AttachedValue) (s : EffectState)
        → live v.attached_id ≡ some v.attached_val
        → IsAccounted live s
        → IsAccounted (mark live v.attached_id none) (effect_step is_t cb (value_removed v) s)
    unfolding effect_step
    removed-IsAccounted live v s old p = elim (Bool-cases (is_t v.attached_val)) [
      | inr other ↦
          rw other (unkept-IsAccounted live _ none s (p.known v.attached_id (rw old other)) p)
      | inl typed ↦ elim (Option-cases (lookup v.attached_id s.rels)) [
        | inl free ↦ rw typed (rw free (unkept-IsAccounted live _ none s free p))
        | inr (rel, found) ↦ rw typed (rw found (release-IsAccounted live _ rel s found p))
      ]
    ]

    run-IsAccounted :
        (evs : List ClientEvent) (live : ℕ → Option ℕ) (s : EffectState)
        → IsFresh live evs
        → IsAccounted live s
        → (live' : ℕ → Option ℕ) × IsAccounted live' (run_events (effect_step is_t cb) evs s)
    unfolding run_events
    run-IsAccounted [] live s h p = (live, p)
    run-IsAccounted (value_added v ∷ evs) live s h p =
        run-IsAccounted evs _ _ h.1 (added-IsAccounted live v s h.0 p)
    run-IsAccounted (value_removed v ∷ evs) live s h p =
        run-IsAccounted evs _ _ h.1 (removed-IsAccounted live v s h.0 p)
    run-IsAccounted (instance_disposed ∷ evs) live s h p = absurd h

    abbrev pub effects_after : List ClientEvent → EffectState
    effects_after evs = run_events (effect_step is_t cb) evs no_effects

    abbrev pub disposed_after : List ClientEvent → EffectState
    disposed_after evs = effect_step is_t cb instance_disposed (effects_after evs)

    -- After any values were added and removed, as an instance does it, each function that the
    -- callback returned has been called as often as it was returned, less the times it is kept
    -- for a value that is held; after disposing of the directive, as often as it was returned.
    pub effects-released :
        (evs : List ClientEvent)
        → IsFresh (λ id. none) evs
        → (x : ℕ)
        → (count x (effects_after evs).handed_out
            ≡ count x (effects_after evs).released + pending x (effects_after evs).rels)
          × (count x (disposed_after evs).handed_out ≡ count x (disposed_after evs).released)
    unfolding effect_step no_effects lookup
    effects-released evs h x =
        let s = effects_after evs in
        let (live, p) =
          run-IsAccounted evs (λ id. none) no_effects h
            (record { counted = λ y. omega arith; distinct = tt; known = λ id e. refl }) in
        let kept = release_all-handed_out s.rels s in
        let gone = release_all-counted x s.rels s in
        (p.counted x, rw kept (ground (arith, p.counted x, gone)))
