-- ===== src/ConfigController/Pushing.antt =====
-- What pushing a config does to the controller of its key.
use controllerbus.Common.{
  ℕ, suc, ◌≤◌, true, false, Option, none, some, List, [], ◌∷◌, ◌++◌, ◌==◌, leb, ◌≡◌, refl, sym, ap,
  ◌∙◌, ◌⊎◌, inl, inr, Bool-cases, Option-cases, arith, subst, some_none, ==_refl, ==_iff, lookup,
  insert, lookup-insert, contains,
}
use controllerbus.ConfigController.{
  ConfigSets, RunningController, RunningRef, same_option, wake, put_rc, put_ref,
  new_running_controller, new_running_controller_ref, push_ref_state, add_reference,
  set_running_controller, apply_reference, apply_config, apply_persistent, ensure_controller,
  new_ref, push_controller_config,
}

-- The controllers, their configs and the wake message are as they were.
record Alike (s t : ConfigSets) : Type 0 where
  same_controllers : t.controllers ≡ s.controllers
  same_woken : t.woken ≡ s.woken
  same_conf : (j : ℕ) → (t.rc_at j).conf ≡ (s.rc_at j).conf

Alike-refl : (s : ConfigSets) → Alike s s
Alike-refl s = record { same_controllers = refl; same_woken = refl; same_conf = λ j. refl }

Alike-trans : (s t u : ConfigSets) → Alike s t → Alike t u → Alike s u
Alike-trans s t u p q = record {
  same_controllers = q.same_controllers ∙ p.same_controllers;
  same_woken = q.same_woken ∙ p.same_woken;
  same_conf = λ j. q.same_conf j ∙ p.same_conf j;
}

put_rc-conf :
    (r j : ℕ) (c : RunningController) (s : ConfigSets)
    → c.conf ≡ (s.rc_at r).conf
    → ((put_rc r c s).rc_at j).conf ≡ (s.rc_at j).conf
put_rc-conf r j c s h = elim (Bool-cases (r == j)) [
  | inl hit ↦ rw hit (subst (λ (i : ℕ). c.conf ≡ (s.rc_at i).conf) ((==_iff r j).0 hit) h)
  | inr miss ↦ rw miss refl
]

add_reference-Alike : (r f : ℕ) (s : ConfigSets) → Alike s (add_reference r f s)
unfolding add_reference
add_reference-Alike r f s = record {
  same_controllers = refl;
  same_woken = refl;
  same_conf =
      λ j. put_rc-conf r j (record (s.rc_at r) { refs = (s.rc_at r).refs ++ f ∷ [] }) s refl;
}

apply_reference-Alike : (r f : ℕ) (s : ConfigSets) → Alike s (apply_reference r f s)
unfolding apply_reference set_running_controller push_ref_state
apply_reference-Alike r f s = elim (Bool-cases (same_option (s.ref_at f).rc (some r))) [
  | inl same ↦ rw same (Alike-refl s)
  | inr differ ↦ rw differ (
      Alike-trans s _ _
        (record { same_controllers = refl; same_woken = refl; same_conf = λ j. refl })
        (add_reference-Alike r f _))
]

apply_persistent-Alike :
    (k r : ℕ) (prefs : List (ℕ × ℕ)) (s : ConfigSets) → Alike s (apply_persistent k r prefs s)
unfolding apply_persistent
apply_persistent-Alike k r [] s = Alike-refl s
apply_persistent-Alike k r ((p, f) ∷ prefs) s = elim (Bool-cases ((s.ref_at f).ref_key == k)) [
  | inl hit ↦ rw hit (
      Alike-trans s _ _ (apply_reference-Alike r f s)
        (apply_persistent-Alike k r prefs (apply_reference r f s)))
  | inr miss ↦ rw miss (apply_persistent-Alike k r prefs s)
]

new_conf : (k conf : ℕ) → (new_running_controller k conf).conf ≡ conf
unfolding new_running_controller
new_conf k conf = refl

put_rc-same : (r : ℕ) (c : RunningController) (s : ConfigSets) → (put_rc r c s).rc_at r ≡ c
put_rc-same r c s = rw (==_refl r) refl

contains-snoc : (f : ℕ) (fs : List ℕ) → contains f (fs ++ f ∷ []) ≡ true
unfolding contains
contains-snoc f [] = rw (==_refl f) refl
contains-snoc f (g ∷ fs) = ground (arith, contains-snoc f fs)

added_counts : (r f : ℕ) (s : ConfigSets) → contains f ((add_reference r f s).rc_at r).refs ≡ true
unfolding add_reference
added_counts r f s = rw (==_refl r) (contains-snoc f (s.rc_at r).refs)

put_ref-same : (f : ℕ) (x : RunningRef) (s : ConfigSets) → (put_ref f x s).ref_at f ≡ x
put_ref-same f x s = rw (==_refl f) refl

pushed_ref :
    (r f : ℕ) (x : RunningRef) (s : ConfigSets)
    → (add_reference r f (put_ref f x (record s { next_ref = suc f }))).ref_at f ≡ x
unfolding add_reference
pushed_ref r f x s = put_ref-same f x (record s { next_ref = suc f })

new_ref_rc : (k : ℕ) (r : Option ℕ) → (new_running_controller_ref k r).rc ≡ r
unfolding new_running_controller_ref
new_ref_rc k r = refl

module _ (rev_of : ℕ → ℕ) where
  -- The key has this controller, whose config has at least the revision of the config pushed, and
  -- that of the config it had.
  record Ensured (k conf : ℕ) (s : ConfigSets) (r : ℕ) (t : ConfigSets) : Type 0 where
    listed : lookup k t.controllers ≡ some r
    newest : rev_of conf ≤ rev_of (t.rc_at r).conf
    kept : lookup k s.controllers ≡ some r → rev_of (s.rc_at r).conf ≤ rev_of (t.rc_at r).conf
    wakes : (lookup k s.controllers ≡ some r) ⊎ (t.woken ≡ true)

  abbrev EnsuredBy : ℕ → ℕ → ConfigSets → ℕ × ConfigSets → Type 0
  EnsuredBy k conf s o = Ensured k conf s o.0 o.1

  known_old :
      (k conf r : ℕ) (s : ConfigSets)
      → lookup k s.controllers ≡ some r
      → leb (rev_of conf) (rev_of (s.rc_at r).conf) ≡ true
      → ensure_controller rev_of k conf s ≡ (r, s)
  unfolding ensure_controller apply_config
  known_old k conf r s found old = rw (found, old, ensure_controller) refl

  abbrev with_conf : ℕ → ℕ → ConfigSets → ConfigSets
  with_conf r conf s = put_rc r (record (s.rc_at r) { conf = conf; conf_restart = true }) s

  known_new :
      (k conf r : ℕ) (s : ConfigSets)
      → lookup k s.controllers ≡ some r
      → leb (rev_of conf) (rev_of (s.rc_at r).conf) ≡ false
      → ensure_controller rev_of k conf s ≡ (r, wake (with_conf r conf s))
  unfolding ensure_controller apply_config
  known_new k conf r s found new = rw (found, new, ensure_controller) refl

  abbrev with_new : ℕ → ℕ → ConfigSets → ConfigSets
  with_new k conf s =
      let t = put_rc s.next_rc (new_running_controller k conf) s in
      wake (record t { next_rc = suc s.next_rc; controllers = insert k s.next_rc s.controllers })

  unknown :
      (k conf : ℕ) (s : ConfigSets)
      → lookup k s.controllers ≡ none
      → ensure_controller rev_of k conf s
        ≡ (s.next_rc, apply_persistent k s.next_rc s.persistent_refs (with_new k conf s))
  unfolding ensure_controller
  unknown k conf s absent = rw (absent, ensure_controller) refl

  ensure-known :
      (k conf r : ℕ) (s : ConfigSets)
      → lookup k s.controllers ≡ some r
      → EnsuredBy k conf s (ensure_controller rev_of k conf s)
  ensure-known k conf r s found = elim (Bool-cases (leb (rev_of conf) (rev_of (s.rc_at r).conf))) [
    | inl old ↦ subst (EnsuredBy k conf s) (sym (known_old k conf r s found old)) (record {
      listed = found;
      newest = ground arith;
      kept = λ e. omega arith;
      wakes = inl found;
    })
    | inr new ↦
        let same =
          ap (λ (c : RunningController). rev_of c.conf)
            (put_rc-same r (record (s.rc_at r) { conf = conf; conf_restart = true }) s) in
        subst (EnsuredBy k conf s) (sym (known_new k conf r s found new)) (record {
          listed = found;
          newest = subst (λ (n : ℕ). rev_of conf ≤ n) (sym same) (omega arith);
          kept = λ e. subst (λ (n : ℕ). rev_of (s.rc_at r).conf ≤ n) (sym same) (ground arith);
          wakes = inl found;
        })
  ]

  ensure-unknown :
      (k conf : ℕ) (s : ConfigSets)
      → lookup k s.controllers ≡ none
      → EnsuredBy k conf s (ensure_controller rev_of k conf s)
  ensure-unknown k conf s absent =
      let alike = apply_persistent-Alike k s.next_rc s.persistent_refs (with_new k conf s) in
      let conf_eq =
        alike.same_conf s.next_rc
        ∙ ap (λ (c : RunningController). c.conf)
            (put_rc-same s.next_rc (new_running_controller k conf) s)
        ∙ new_conf k conf in
      subst (EnsuredBy k conf s) (sym (unknown k conf s absent)) (record {
        listed = ap (lookup k) alike.same_controllers ∙ lookup-insert k s.next_rc s.controllers;
        newest = subst (λ (c : ℕ). rev_of conf ≤ rev_of c) (sym conf_eq) (omega arith);
        kept = λ e. some_none (sym e ∙ absent);
        wakes = inr alike.same_woken;
      })

  ensure-Ensured :
      (k conf : ℕ) (s : ConfigSets) → EnsuredBy k conf s (ensure_controller rev_of k conf s)
  ensure-Ensured k conf s = elim (Option-cases (lookup k s.controllers)) [
    | inl absent ↦ ensure-unknown k conf s absent
    | inr (r, found) ↦ ensure-known k conf r s found
  ]

  -- The reference `f` counts for the controller that the key has, whose config has at least the
  -- revision of the config pushed, and that of the config it had; a controller that is new wakes the
  -- loop.
  pub record Pushed (k conf : ℕ) (s : ConfigSets) (o : ℕ × ConfigSets) : Type 0 where
    pub controller : ℕ
    pub is_listed : lookup k o.1.controllers ≡ some controller
    pub is_newest : rev_of conf ≤ rev_of (o.1.rc_at controller).conf
    pub keeps_newer :
        lookup k s.controllers ≡ some controller
        → rev_of (s.rc_at controller).conf ≤ rev_of (o.1.rc_at controller).conf
    pub woken_if_new : (lookup k s.controllers ≡ some controller) ⊎ (o.1.woken ≡ true)
    pub is_counted : contains o.0 (o.1.rc_at controller).refs ≡ true
    pub points_back : (o.1.ref_at o.0).rc ≡ some controller

  -- Pushing a config returns a reference that counts for the controller listed under its key and
  -- points to it; the config of this controller has at least the revision of the one pushed and,
  -- if the controller was there, of the one it had; if it was not, the loop is woken.
  pub push_controller_config-Pushed :
      (k conf : ℕ) (s : ConfigSets) → Pushed k conf s (push_controller_config rev_of k conf s)
  unfolding push_controller_config new_ref
  push_controller_config-Pushed k conf s =
      let o = ensure_controller rev_of k conf s in
      let e = ensure-Ensured k conf s in
      let x = new_running_controller_ref k (some o.0) in
      let u = put_ref o.1.next_ref x (record o.1 { next_ref = suc o.1.next_ref }) in
      let alike = add_reference-Alike o.0 o.1.next_ref u in
      record {
        controller = o.0;
        is_listed = ap (lookup k) alike.same_controllers ∙ e.listed;
        is_newest = subst (λ (c : ℕ). rev_of conf ≤ rev_of c) (sym (alike.same_conf o.0)) e.newest;
        keeps_newer = λ h.
            subst (λ (c : ℕ). rev_of (s.rc_at o.0).conf ≤ rev_of c) (sym (alike.same_conf o.0))
              (e.kept h);
        woken_if_new = elim e.wakes [ inl h ↦ inl h | inr w ↦ inr (alike.same_woken ∙ w) ];
        is_counted = added_counts o.0 o.1.next_ref u;
        points_back =
            ap (λ (y : RunningRef). y.rc) (pushed_ref o.0 o.1.next_ref x o.1)
            ∙ new_ref_rc k (some o.0);
      }
