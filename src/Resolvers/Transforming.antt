-- ===== src/Resolvers/Transforming.antt =====
-- The release functions of transformed values: directive/transform-resolver.go.
use controllerbus.Common.{
  ℕ, suc, ◌+◌, ◌≤◌, Option, none, some, List, [], ◌∷◌, ◌==◌, ◌≡◌, refl, ap, ◌∙◌, subst, inl, inr,
  Bool-cases, Option-cases, ==_iff, arith, lookup, insert, delete, Distinct, lookup-insert_other,
  lookup-delete_other, lookup-delete, is_some, delete-Distinct, insert-Distinct,
}
use controllerbus.Instance.State.{AttachedValue}
use controllerbus.Clients.{ClientEvent, value_added, value_removed, instance_disposed}
use controllerbus.UniqueResolver.{ValueHandler}
use controllerbus.Resolvers.{
  Transformed, TransformState, transform_start, call_rel, push_err, release_added, emit_value,
  transform_added, transform_removed, transform_resolver_step, transform_resolver_run, err_disposed,
}
use controllerbus.Resolvers.Counting.{
  count, count_rel, count_added, count-snoc, count-insert, count-delete,
}

-- The ids that the handler gives count up.
pub record IsCounting {S : Type 0} (hnd : ValueHandler S) (next : S → ℕ) : Type 0 where
  pub given : (x : ℕ) (s t : S) (id : ℕ) → hnd.add x s ≡ (some id, t) → id ≡ next s
  pub counts : (x : ℕ) (s t : S) (id : ℕ) → hnd.add x s ≡ (some id, t) → next t ≡ suc (next s)
  pub rejects : (x : ℕ) (s t : S) → hnd.add x s ≡ (none, t) → next t ≡ next s
  pub removes : (id : ℕ) (s : S) → next (hnd.remove id s) ≡ next s

-- How often the transformation has handed out a function.
abbrev pub count_given : (AttachedValue → Transformed) → ℕ → List ClientEvent → ℕ
count_given xfrm f [] = 0
count_given xfrm f (value_added v ∷ es) = count_rel f (xfrm v).rel + count_given xfrm f es
count_given xfrm f (value_removed v ∷ es) = count_given xfrm f es
count_given xfrm f (instance_disposed ∷ es) = count_given xfrm f es

count_given-cons :
    (xfrm : AttachedValue → Transformed) (f : ℕ) (e : ClientEvent) (es : List ClientEvent)
    → count_given xfrm f (e ∷ es) ≡ count_given xfrm f (e ∷ []) + count_given xfrm f es
count_given-cons xfrm f (value_added v) es = omega arith
count_given-cons xfrm f (value_removed v) es = omega arith
count_given-cons xfrm f instance_disposed es = omega arith

push_err-calls :
    {S : Type 0} (e : ℕ) (s : TransformState S) → (push_err e s).rel_calls ≡ s.rel_calls
unfolding push_err
push_err-calls e s = elim (Bool-cases (is_some s.pushed_err)) [
  | inl full ↦ rw (full, push_err) refl
  | inr room ↦ rw (room, push_err) refl
]

module _ {S : Type 0} (hnd : ValueHandler S) (next : S → ℕ) where
  -- How often a function was called or is kept to be called.
  abbrev pub accounted : ℕ → TransformState S → ℕ
  accounted f s = count f s.rel_calls + count_added f s.added_vals

  -- The keys of the map are ids that were given.
  record IsKeyed (s : TransformState S) : Type 0 where
    pub distinct : Distinct s.added_vals
    pub below : (k : ℕ) → next s.handler ≤ k → lookup k s.added_vals ≡ none

  -- What a step makes of the state: it stays keyed, and n more calls of f are accounted for.
  abbrev Adds : ℕ → ℕ → TransformState S → TransformState S → Type 0
  Adds f n s t = IsKeyed t × (accounted f t ≡ n + accounted f s)

  call_rel-count :
      (f : ℕ) (rel : Option ℕ) (s : TransformState S)
      → count f (call_rel rel s).rel_calls ≡ count f s.rel_calls + count_rel f rel
  unfolding call_rel
  call_rel-count f none s = omega arith
  call_rel-count f (some g) s = count-snoc f s.rel_calls g

  call_rel-Adds :
      (f : ℕ) (rel : Option ℕ) (s : TransformState S)
      → IsKeyed s
      → Adds f (count_rel f rel) s (call_rel rel s)
  unfolding call_rel
  call_rel-Adds f none s p = (p, omega arith)
  call_rel-Adds f (some g) s p = (
    record { distinct = p.distinct; below = p.below },
    rw (count-snoc f s.rel_calls g) (omega arith),
  )

  push_err-Adds : (f e : ℕ) (s : TransformState S) → IsKeyed s → Adds f 0 s (push_err e s)
  unfolding push_err
  push_err-Adds f e s p = elim (Bool-cases (is_some s.pushed_err)) [
    | inl full ↦ rw (full, push_err) (p, omega arith)
    | inr room ↦
        rw (room, push_err) (record { distinct = p.distinct; below = p.below }, omega arith)
  ]

  Adds-then :
      (f m n : ℕ) (s t u : TransformState S)
      → Adds f m s t
      → (IsKeyed t → Adds f n t u)
      → Adds f (n + m) s u
  Adds-then f m n s t u first then_ =
      let (keyed, sum) = then_ first.0 in (keyed, sum ∙ rw first.1 (omega arith))

  release_added-Adds :
      (f : ℕ) (entries : List (ℕ × (ℕ × Option ℕ))) (s : TransformState S)
      → IsKeyed (release_added entries s)
        × (count f (release_added entries s).rel_calls
            ≡ count f s.rel_calls + count_added f entries)
        × ((release_added entries s).added_vals ≡ [])
  unfolding release_added lookup
  release_added-Adds f [] s = (record { distinct = tt; below = λ k le. refl }, omega arith, refl)
  release_added-Adds f ((k, (id, rel)) ∷ entries) s =
      let (keyed, sum, gone) = release_added-Adds f entries (call_rel rel s) in
      (keyed, sum ∙ rw (call_rel-count f rel s) (omega arith), gone)

  module _ (p : IsCounting hnd next) where
    emitted :
        (f attached val : ℕ) (rel : Option ℕ) (s : TransformState S) (r : Option ℕ) (h : S)
        → IsKeyed s
        → hnd.add val s.handler ≡ (r, h)
        → Adds f (count_rel f rel) s (elim r [
          | none ↦ call_rel rel (record s { handler = h })
          | some handler_id ↦ record s {
            added_vals = insert handler_id (attached, rel) s.added_vals;
            handler = h;
          }
        ])
    emitted f attached val rel s none h k e =
        call_rel-Adds f rel (record s { handler = h })
          (record {
            distinct = k.distinct;
            below = λ i le. k.below i (subst (λ (n : ℕ). n ≤ i) (p.rejects val s.handler h e) le);
          })
    emitted f attached val rel s (some id) h k e =
        let fresh : lookup id s.added_vals ≡ none =
          rw (p.given val s.handler h id e) (k.below (next s.handler) (omega arith)) in
        (
          record {
            distinct = insert-Distinct id (attached, rel) s.added_vals k.distinct;
            below = λ i le.
                let above : suc (next s.handler) ≤ i =
                  subst (λ (n : ℕ). n ≤ i) (p.counts val s.handler h id e) le in
                let same = p.given val s.handler h id e in
                lookup-insert_other i id (attached, rel) s.added_vals (ground arith)
                ∙ k.below i (omega arith);
          },
          rw (count-insert f id attached rel s.added_vals fresh) (omega arith),
        )

    added-Adds :
        (f attached : ℕ) (x : Transformed) (s : TransformState S)
        → IsKeyed s
        → Adds f (count_rel f x.rel) s (transform_added hnd attached x s)
    unfolding transform_added emit_value
    added-Adds f attached x s k = elim (Option-cases x.xfrm_err) [
      | inr (e, failed) ↦
          rw (failed, transform_added)
            (let first = push_err-Adds f e s k in
              let (keyed, sum) = call_rel-Adds f x.rel (push_err e s) first.0 in
              (keyed, sum ∙ rw first.1 (omega arith)))
      | inl good ↦ elim (Bool-cases x.is_value) [
        | inl has_value ↦
            rw (good, transform_added)
              (rw (has_value, transform_added) (emitted f attached x.rval x.rel s _ _ k refl))
        | inr no_value ↦
            rw (good, transform_added) (rw (no_value, transform_added) (call_rel-Adds f x.rel s k))
      ]
    ]

    removed-Adds :
        (f attached : ℕ) (s : TransformState S)
        → IsKeyed s
        → Adds f 0 s (transform_removed hnd attached s)
    unfolding transform_removed
    removed-Adds f attached s k = elim (Option-cases (lookup attached s.added_vals)) [
      | inl none_there ↦ rw (none_there, transform_removed) (k, omega arith)
      | inr ((id, rel), there) ↦
          let taken : TransformState S = record s {
            added_vals = delete attached s.added_vals;
            handler = hnd.remove id s.handler;
          } in
          let (keyed, sum) = call_rel-Adds f rel taken (record {
            distinct = delete-Distinct attached s.added_vals k.distinct;
            below = λ i le. elim (Bool-cases (attached == i)) [
              | inl hit ↦
                  subst (λ (n : ℕ). lookup n (delete attached s.added_vals) ≡ none)
                    ((==_iff attached i).0 hit) (lookup-delete attached s.added_vals)
              | inr miss ↦
                  lookup-delete_other i attached s.added_vals miss
                  ∙ k.below i (subst (λ (n : ℕ). n ≤ i) (p.removes id s.handler) le)
            ];
          }) in
          let took = count-delete f attached id rel s.added_vals k.distinct there in
          rw (there, transform_removed) (keyed, sum ∙ omega arith)
    ]

    module _ (xfrm : AttachedValue → Transformed) where
      step-Adds :
          (f : ℕ) (e : ClientEvent) (s : TransformState S)
          → IsKeyed s
          → Adds f (count_given xfrm f (e ∷ [])) s (transform_resolver_step hnd xfrm e s)
      unfolding transform_resolver_step
      step-Adds f (value_added v) s k =
          let (keyed, sum) = added-Adds f v.attached_id (xfrm v) s k in (keyed, sum ∙ omega arith)
      step-Adds f (value_removed v) s k = removed-Adds f v.attached_id s k
      step-Adds f instance_disposed s k =
          let first = push_err-Adds f err_disposed s k in
          let (keyed, sum, gone) = release_added-Adds f s.added_vals (push_err err_disposed s) in
          let same : count f (push_err err_disposed s).rel_calls ≡ count f s.rel_calls =
            ap (count f) (push_err-calls err_disposed s) in
          let nothing : count_added f
                (release_added s.added_vals (push_err err_disposed s)).added_vals
              ≡ 0 =
            ap (count_added f) gone in
          (keyed, omega arith)

      run-Adds :
          (f : ℕ) (es : List ClientEvent) (s : TransformState S)
          → IsKeyed s
          → Adds f (count_given xfrm f es) s (transform_resolver_run hnd xfrm es s)
      unfolding transform_resolver_run
      run-Adds f [] s k = (k, omega arith)
      run-Adds f (e ∷ es) s k =
          let first = step-Adds f e s k in
          let (keyed, sum) = run-Adds f es (transform_resolver_step hnd xfrm e s) first.0 in
          let given = count_given-cons xfrm f e es in let head = first.1 in (keyed, omega arith)

      -- After any values were added and removed, and then the directive was disposed of, each
      -- release function was called as often as the transformation handed it out, whichever
      -- values were errors, were dropped or were not accepted, where the ids that the handler
      -- gives count up.
      pub transform_resolver-released :
          (es : List ClientEvent) (h : S) (f : ℕ)
          → count f
              (transform_resolver_step hnd xfrm instance_disposed
                (transform_resolver_run hnd xfrm es (transform_start h))).rel_calls
            ≡ count_given xfrm f es
      unfolding transform_resolver_step transform_start lookup
      transform_resolver-released es h f =
          let (keyed, sum) =
            run-Adds f es (transform_start h) (record { distinct = tt; below = λ k le. refl }) in
          let s = transform_resolver_run hnd xfrm es (transform_start h) in
          let (over, all, gone) = release_added-Adds f s.added_vals (push_err err_disposed s) in
          let same : count f (push_err err_disposed s).rel_calls ≡ count f s.rel_calls =
            ap (count f) (push_err-calls err_disposed s) in
          omega arith
