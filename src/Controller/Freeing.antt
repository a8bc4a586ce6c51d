-- ===== src/Controller/Freeing.antt =====
-- Removing a handler from the controller takes its resolvers from the instances that are listed.
use controllerbus.Common.{
  ℕ, true, false, Option, some, List, [], ◌∷◌, ◌==◌, if◌then◌else◌, ◌≡◌, refl, sym, ap, ◌∙◌, subst,
  inl, inr, Bool-cases, Option-cases, ==_iff, contains, some_none,
}
use controllerbus.Common.Exec.{Exec, Keeps, skip}
use controllerbus.Common.Exec.Rules.{>>=-eq-some}
use controllerbus.Instance.State.{Instance, CallbackEvent}
use controllerbus.Instance.Callbacks.{Outside}
use controllerbus.Instance.Lifecycle.{remove_handler_locked}
use controllerbus.Instance.Halting.Owners.{Owned}
use controllerbus.Instance.Halting.Owned.{others, others-others, remove_handler-others}
use controllerbus.Controller.{World, Directives, on_instance, remove_from_each}

true_false {ℓ} : {C : Type ℓ} → true ≡ false → C
true_false e = cc

-- Callbacks leave the resolvers of the instance and their handlers as they are.
abbrev pub LeavesOwned : Outside → Type 0
LeavesOwned out =
    (rs : List ℕ) (owner : ℕ → ℕ) (e : CallbackEvent) → Keeps (Owned rs owner) (out.invoke e)

module _ (out : Outside) (ds : Directives) (outside : LeavesOwned out) (h j : ℕ) (rs : List ℕ)
    (owner : ℕ → ℕ) where
  -- The instance at `j` has the resolvers, or those of them that are not the handler's.
  abbrev Has : World → Type 0
  Has w = Owned rs owner (w.instance_at j)

  abbrev IsFree : World → Type 0
  IsFree w = Owned (others h owner rs) owner (w.instance_at j)

  -- The instance at `k` after its operation, and the others as they were.
  on_instance-run :
      (k : ℕ) (m : Exec Instance (Unit {0})) (w : World) (q : Unit {0} × World)
      → on_instance k m w ≡ some q
      → (s : Instance) × (u : Unit {0} × Instance) × (m s ≡ some u)
        × (s.resolvers ≡ (w.instance_at k).resolvers)
        × (s.resolver_at ≡ (w.instance_at k).resolver_at)
        × (q.1.instance_at ≡ (λ i. if k == i then u.1 else w.instance_at i))
  unfolding on_instance
  on_instance-run k m w q run =
      let s = record (w.instance_at k) {
        dir = w.dirs;
        handler_rel = w.handler_rel;
        broadcasts = w.broadcasts;
      } in
      elim (Option-cases (m s)) [
        | inl failed ↦ some_none (sym (rw (failed, on_instance) at run))
        | inr (u, ran) ↦
            let t = record w {
              dirs = u.1.dir;
              handler_rel = u.1.handler_rel;
              broadcasts = u.1.broadcasts;
              instance_at = λ i. if k == i then u.1 else w.instance_at i;
            } in
            let e : ◌≡◌ {A = Option (Unit {0} × World)} (some (u.0, t)) (some q) =
              rw (ran, on_instance) at run in
            let same : t ≡ q.1 = cc e in
            (s, u, ran, refl, refl, sym (ap (λ (x : World). x.instance_at) same))
      ]

  step-here :
      (rs' : List ℕ) (k : ℕ) (w : World) (q : Unit {0} × World)
      → (k == j) ≡ true
      → on_instance k (remove_handler_locked out h) w ≡ some q
      → Owned rs' owner (w.instance_at j)
      → Owned (others h owner rs') owner (q.1.instance_at j)
  step-here rs' k w q hit run p =
      let (s, u, ran, a, b, c) = on_instance-run k (remove_handler_locked out h) w q run in
      let at_k : Owned rs' owner (w.instance_at k) =
        subst (λ (i : ℕ). Owned rs' owner (w.instance_at i)) (sym ((==_iff k j).0 hit)) p in
      let at_s : Owned rs' owner s =
        (a ∙ at_k.0, λ r. ap (λ (g : ℕ → _). (g r).hnd) b ∙ at_k.1 r) in
      let freed = remove_handler-others h owner out (λ l e. outside l owner e) rs' s u at_s ran in
      subst (λ (g : ℕ → Instance). Owned (others h owner rs') owner (g j)) (sym c) (rw hit freed)

  step-other :
      (P : Instance → Type 0) (k : ℕ) (w : World) (q : Unit {0} × World)
      → (k == j) ≡ false
      → on_instance k (remove_handler_locked out h) w ≡ some q
      → P (w.instance_at j)
      → P (q.1.instance_at j)
  step-other P k w q miss run p =
      let (s, u, ran, a, b, c) = on_instance-run k (remove_handler_locked out h) w q run in
      subst (λ (g : ℕ → Instance). P (g j)) (sym c) (rw miss p)

  world-eq : {w t : World} {q : Unit {0} × World} → some (tt, w) ≡ some q → q ≡ (tt, t) → w ≡ t
  world-eq e f = cc

  -- Nothing comes back.
  each-keeps :
      (ks : List ℕ) (w : World) (q : Unit {0} × World)
      → remove_from_each out ds h ks w ≡ some q
      → IsFree w
      → IsFree q.1
  unfolding remove_from_each skip
  each-keeps [] w q run p =
      let e : ◌≡◌ {A = Option (Unit {0} × World)} (some (tt, w)) (some q) = run in
      let same : w ≡ q.1 = cc e in subst IsFree same p
  each-keeps (k ∷ ks) w q run p =
      let (u, first, rest) =
        >>=-eq-some (on_instance k (remove_handler_locked out h))
          (λ _. remove_from_each out ds h ks) w run in
      each-keeps ks u.1 q rest (elim (Bool-cases (k == j)) [
        | inl hit ↦
            subst (λ (l : List ℕ). Owned l owner (u.1.instance_at j)) (others-others h owner rs)
              (step-here (others h owner rs) k w u hit first p)
        | inr miss ↦ step-other (Owned (others h owner rs) owner) k w u miss first p
      ])

  -- An instance that is met loses the handler's resolvers.
  pub each-frees :
      (ks : List ℕ) (w : World) (q : Unit {0} × World)
      → remove_from_each out ds h ks w ≡ some q
      → contains j ks ≡ true
      → Has w
      → IsFree q.1
  unfolding remove_from_each contains
  each-frees [] w q run met p = true_false (sym met)
  each-frees (k ∷ ks) w q run met p =
      let (u, first, rest) =
        >>=-eq-some (on_instance k (remove_handler_locked out h))
          (λ _. remove_from_each out ds h ks) w run in
      elim (Bool-cases (k == j)) [
        | inl hit ↦ each-keeps ks u.1 q rest (step-here rs k w u hit first p)
        | inr miss ↦
            each-frees ks u.1 q rest (rw miss at met)
              (step-other (Owned rs owner) k w u miss first p)
      ]
