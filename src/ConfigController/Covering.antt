-- ===== src/ConfigController/Covering.antt =====
-- The references that the resolver of ApplyConfigSet holds:
-- controller/configset/controller/apply-config-set.go.
use controllerbus.Common.{
  ℕ, suc, ◌<◌, Bool, true, false, ◌||◌, Option, none, some, List, [], ◌∷◌, ◌++◌, ◌==◌, is_some, leb,
  lookup, insert, ◌≡◌, refl, sym, ap, ◌∙◌, subst, inl, inr, Bool-cases, Option-cases, ==_refl,
  ==_iff, arith, lookup-insert, lookup-insert_other,
}
use controllerbus.UniqueResolver.{ValueHandler}
use controllerbus.ConfigController.{
  ConfigSets, RunningState, RunningRef, push_controller_config, apply_config, ensure_controller,
  apply_persistent, new_ref, apply_reference, set_running_controller, push_ref_state, add_reference,
  put_ref, same_option, new_running_controller_ref, add_state_callback, get_ref_state,
}
use controllerbus.ConfigController.Following.{shown-sets}
use controllerbus.ConfigController.SetResolvers.{SetResolver, show_state, follow}

-- The references are those that there were, with their keys.
record SameKeys (s t : ConfigSets) : Type 0 where
  next : t.next_ref ≡ s.next_ref
  keys : (g : ℕ) → (t.ref_at g).ref_key ≡ (s.ref_at g).ref_key

SameKeys-refl : (s : ConfigSets) → SameKeys s s
SameKeys-refl s = record { next = refl; keys = λ g. refl }

SameKeys-trans : (s t u : ConfigSets) → SameKeys s t → SameKeys t u → SameKeys s u
SameKeys-trans s t u p q = record { next = q.next ∙ p.next; keys = λ g. q.keys g ∙ p.keys g }

put_ref-key :
    (f g : ℕ) (x : RunningRef) (s : ConfigSets)
    → x.ref_key ≡ (s.ref_at f).ref_key
    → ((put_ref f x s).ref_at g).ref_key ≡ (s.ref_at g).ref_key
put_ref-key f g x s same = elim (Bool-cases (f == g)) [
  | inl hit ↦ rw hit (subst (λ (n : ℕ). x.ref_key ≡ (s.ref_at n).ref_key) ((==_iff f g).0 hit) same)
  | inr miss ↦ rw miss refl
]

apply_reference-SameKeys : (r f : ℕ) (s : ConfigSets) → SameKeys s (apply_reference r f s)
unfolding apply_reference set_running_controller push_ref_state add_reference
apply_reference-SameKeys r f s = elim (Bool-cases (same_option (s.ref_at f).rc (some r))) [
  | inl same ↦ rw same (SameKeys-refl s)
  | inr differ ↦ rw differ (record {
    next = refl;
    keys = λ g. put_ref-key f g (record (s.ref_at f) { rc = some r }) s refl;
  })
]

apply_persistent-SameKeys :
    (k r : ℕ) (prefs : List (ℕ × ℕ)) (s : ConfigSets) → SameKeys s (apply_persistent k r prefs s)
unfolding apply_persistent
apply_persistent-SameKeys k r [] s = SameKeys-refl s
apply_persistent-SameKeys k r ((p, f) ∷ prefs) s = elim (Bool-cases ((s.ref_at f).ref_key == k)) [
  | inl hit ↦ rw hit (
      SameKeys-trans s _ _ (apply_reference-SameKeys r f s)
        (apply_persistent-SameKeys k r prefs (apply_reference r f s)))
  | inr miss ↦ rw miss (apply_persistent-SameKeys k r prefs s)
]

module _ (rev_of : ℕ → ℕ) where
  ensure-SameKeys : (k conf : ℕ) (s : ConfigSets) → SameKeys s (ensure_controller rev_of k conf s).1
  unfolding ensure_controller apply_config
  ensure-SameKeys k conf s = elim (Option-cases (lookup k s.controllers)) [
    | inl absent ↦
        rw (absent, ensure_controller)
          (SameKeys-trans s _ _ (record { next = refl; keys = λ g. refl })
            (apply_persistent-SameKeys k s.next_rc s.persistent_refs _))
    | inr (r, found) ↦ elim (Bool-cases (leb (rev_of conf) (rev_of (s.rc_at r).conf))) [
      | inl old ↦ rw (found, old, ensure_controller) (SameKeys-refl s)
      | inr newer ↦ rw (found, newer, ensure_controller) (record { next = refl; keys = λ g. refl })
    ]
  ]

  -- Pushing makes the next reference, with the key, and keeps the others.
  record Makes (k : ℕ) (s : ConfigSets) (o : ℕ × ConfigSets) : Type 0 where
    is_next : o.0 ≡ s.next_ref
    next_one : o.1.next_ref ≡ suc s.next_ref
    its_key : (o.1.ref_at o.0).ref_key ≡ k
    others : (g : ℕ) → (s.next_ref == g) ≡ false → (o.1.ref_at g).ref_key ≡ (s.ref_at g).ref_key

  push-Makes : (k conf : ℕ) (s : ConfigSets) → Makes k s (push_controller_config rev_of k conf s)
  unfolding push_controller_config new_ref add_reference new_running_controller_ref
  push-Makes k conf s =
      let p = ensure-SameKeys k conf s in
      record {
        is_next = p.next;
        next_one = ap (λ (n : ℕ). suc n) p.next;
        its_key = rw (==_refl (ensure_controller rev_of k conf s).1.next_ref) refl;
        others = λ g miss.
            let other : ((ensure_controller rev_of k conf s).1.next_ref == g) ≡ false =
              rw p.next miss in
            rw other (p.keys g);
      }

insert-known :
    (f g v : ℕ) (m : List (ℕ × ℕ))
    → is_some (lookup g (insert f v m)) ≡ ((f == g) || is_some (lookup g m))
insert-known f g v m = elim (Bool-cases (f == g)) [
  | inl hit ↦ rw hit (
      subst (λ (n : ℕ). is_some (lookup n (insert f v m)) ≡ true) ((==_iff f g).0 hit)
        (rw (lookup-insert f v m) refl))
  | inr miss ↦ rw miss (rw (lookup-insert_other g f v m miss) refl)
]

or_true : (a : Bool) → (a || true) ≡ true
or_true true = refl
or_true false = refl

known_either :
    (f g : ℕ) (m : List (ℕ × ℕ))
    → is_some (lookup f m) ≡ true
    → ((f == g) || is_some (lookup g m)) ≡ is_some (lookup g m)
known_either f g m known = elim (Bool-cases (f == g)) [
  | inl hit ↦
      rw hit (sym (subst (λ (n : ℕ). is_some (lookup n m) ≡ true) ((==_iff f g).0 hit) known))
  | inr miss ↦ rw miss refl
]

-- The resolver has a reference with the key.
abbrev pub HasKey : {S : Type 0} → ℕ → SetResolver S → Type 0
HasKey k s = (f : ℕ) × (is_some (lookup f s.set_refs) ≡ true) × ((s.sets.ref_at f).ref_key ≡ k)

-- The references of the resolver have been made.
abbrev pub IsMade : {S : Type 0} → SetResolver S → Type 0
IsMade s = (g : ℕ) → is_some (lookup g s.set_refs) ≡ true → g < s.sets.next_ref

module _ {S : Type 0} (hnd : ValueHandler S) (value_of : RunningState → ℕ) where
  -- One more reference, and no other change of keys.
  pub record Follows (f : ℕ) (s t : SetResolver S) : Type 0 where
    same : SameKeys s.sets t.sets
    refs : (g : ℕ) → is_some (lookup g t.set_refs) ≡ ((f == g) || is_some (lookup g s.set_refs))

  shown-refs :
      (f g : ℕ) (st : RunningState) (s : SetResolver S)
      → is_some (lookup g (show_state hnd value_of f st s).set_refs) ≡ is_some (lookup g s.set_refs)
  unfolding show_state
  shown-refs f g st s = elim (Option-cases (lookup f s.set_refs)) [
    | inl unknown ↦ rw (unknown, show_state) refl
    | inr (v, known) ↦
        rw (known, show_state) (answered (rw known refl) _ (hnd.add (value_of st) _).0)
  ]
    where
      answered :
          is_some (lookup f s.set_refs) ≡ true
          → (t : S) (id : Option ℕ)
          → let out : SetResolver S = elim id [
            | some val_id ↦ record s { set_refs = insert f val_id s.set_refs; handler = t }
            | none ↦ record s { set_refs = insert f 0 s.set_refs; handler = t }
          ] in
            is_some (lookup g out.set_refs) ≡ is_some (lookup g s.set_refs)
      answered known t none = insert-known f g 0 s.set_refs ∙ known_either f g s.set_refs known
      answered known t (some val_id) =
          insert-known f g val_id s.set_refs ∙ known_either f g s.set_refs known

  pub follow-Follows :
      (f r : ℕ) (s : SetResolver S)
      → (s.sets.ref_at f).rc ≡ some r
      → (t : SetResolver S) × (follow hnd value_of f s ≡ some t) × Follows f s t
  unfolding follow add_state_callback
  follow-Follows f r s there =
      let x : RunningRef = record (s.sets.ref_at f) { cbs = (s.sets.ref_at f).cbs ++ f ∷ [] } in
      let w : ConfigSets = record (put_ref f x s.sets) {
        pushed = s.sets.pushed ++ (f, (s.sets.rc_at r).state) ∷ [];
      } in
      let n : SetResolver S = record s { sets = w; set_refs = insert f 0 s.set_refs } in
      let st = get_ref_state f w in
      let kept : SameKeys s.sets w = record {
        next = refl;
        keys = λ g. put_ref-key f g x s.sets refl;
      } in
      rw (there, follow)
        (
          show_state hnd value_of f st n,
          refl,
          record {
            same =
                subst (λ (c : ConfigSets). SameKeys s.sets c) (sym (shown-sets hnd value_of f st n))
                  kept;
            refs = λ g. shown-refs f g st n ∙ insert-known f g 0 s.set_refs;
          },
        )

  module _ (rev_of : ℕ → ℕ) where
    -- A key is passed over or gets a reference, and the others keep theirs.
    pub record Applied (k : ℕ) (s t : SetResolver S) : Type 0 where
      pub made : IsMade t
      pub keeps : (j : ℕ) → HasKey j s → HasKey j t

    pub taken-Applied :
        (k conf : ℕ) (s t : SetResolver S)
        → IsMade s
        → let o = push_controller_config rev_of k conf s.sets in
          Follows o.0 (record s { sets = o.1 }) t → Applied k s t × HasKey k t
    taken-Applied k conf s t m w =
        let o = push_controller_config rev_of k conf s.sets in
        let p = push-Makes rev_of k conf s.sets in
        (
          record {
            made = λ g known. elim (Bool-cases (o.0 == g)) [
              | inl hit ↦
                  let here = (==_iff o.0 g).0 hit in
                  let next = w.same.next in
                  let one = p.next_one in let is = p.is_next in omega arith
              | inr miss ↦
                  let before : is_some (lookup g s.set_refs) ≡ true =
                    sym (w.refs g ∙ rw miss refl) ∙ known in
                  let below = m g before in
                  let next = w.same.next in let one = p.next_one in omega arith
            ];
            keeps = λ j has.
                let (g, known, key) = has in
                let below = m g known in
                let other : (s.sets.next_ref == g) ≡ false = ground arith in
                (
                  g,
                  w.refs g ∙ rw known (or_true (o.0 == g)),
                  w.same.keys g ∙ p.others g other ∙ key,
                );
          },
          (o.0, w.refs o.0 ∙ rw (==_refl o.0) refl, w.same.keys o.0 ∙ p.its_key),
        )
