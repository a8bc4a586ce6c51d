-- ===== src/Controller/Removing.antt =====
-- Removing a handler from the controller.
use controllerbus.Common.{
  ℕ, true, false, some, List, [], ◌∷◌, contains, swap_remove, swap_remove-perm, find_first, ◌==◌,
  ◌≡◌, refl, sym, ap, if◌then◌else◌, subst, Bool-cases, inl, inr, ==_iff,
}
use mathlib.Core.List.{Perm}
use controllerbus.Common.Exec.{Exec, Total, ◌>>=◌, pure, gets, modify}
use controllerbus.Common.Exec.Rules.{>>=-some, Total-bind, Total-skip}
use controllerbus.Instance.State.{Instance}
use controllerbus.Instance.Callbacks.{Outside}
use controllerbus.Instance.Lifecycle.{remove_handler_locked}
use controllerbus.Instance.Halting.{Quiet, IsQuiet}
use controllerbus.Instance.Halting.Removal.{remove_handler-Total}
use controllerbus.Instance.Halting.Owned.{others}
use controllerbus.Controller.Freeing.{LeavesOwned, each-frees}
use controllerbus.Controller.{World, Directives, on_instance, remove_from_each, remove_handler_at}

false_true : {C : Type 0} → false ≡ true → C
false_true e = cc

module _ (out : Outside) (ds : Directives) (quiet : IsQuiet out) (bound : ℕ → ℕ) (hs : List ℕ) where
  -- No instance is calling callbacks, each has at most so many resolvers, and these are the handlers.
  abbrev AllQuiet : World → Type 0
  AllQuiet w = ((k : ℕ) → Quiet false false (bound k) (w.instance_at k)) × (w.hnd ≡ hs)

  -- The instance as its operation finds it, and the controller after it.
  abbrev seen : ℕ → World → Instance
  seen k w = record (w.instance_at k) {
    dir = w.dirs;
    handler_rel = w.handler_rel;
    broadcasts = w.broadcasts;
  }

  abbrev put_back : ℕ → World → Instance → World
  put_back k w after = record w {
    dirs = after.dir;
    handler_rel = after.handler_rel;
    broadcasts = after.broadcasts;
    instance_at = λ j. if k == j then after else w.instance_at j;
  }

  on_instance-run :
      {A : Type 0} (k : ℕ) (m : Exec Instance A) (w : World) (q : A × Instance)
      → m (seen k w) ≡ some q
      → on_instance k m w ≡ some (q.0, put_back k w q.1)
  unfolding on_instance
  on_instance-run k m w q run = rw (run, on_instance) refl

  put_back-Quiet :
      (k : ℕ) (w : World) (after : Instance)
      → AllQuiet w
      → Quiet false false (bound k) after
      → AllQuiet (put_back k w after)
  put_back-Quiet k w after p r = (
    λ j. elim (Bool-cases (k == j)) [
      | inl hit ↦
          rw hit (subst (λ (i : ℕ). Quiet false false (bound i) after) ((==_iff k j).0 hit) r)
      | inr miss ↦ rw miss (p.0 j)
    ],
    p.1,
  )

  on_instance-Total :
      {A : Type 0} (k : ℕ) (m : Exec Instance A)
      → Total (Quiet false false (bound k)) m
      → Total AllQuiet (on_instance k m)
  on_instance-Total k m t = record {
    at = λ w p.
        let (q, run, r) = t.at (seen k w) (p.0 k) in
        ((q.0, put_back k w q.1), on_instance-run k m w q run, put_back-Quiet k w q.1 p r);
  }

  remove_from_each-Total : (h : ℕ) (ks : List ℕ) → Total AllQuiet (remove_from_each out ds h ks)
  unfolding remove_from_each
  remove_from_each-Total h [] = Total-skip
  remove_from_each-Total h (k ∷ ks) =
      Total-bind _ _
        (on_instance-Total k (remove_handler_locked out h)
          (remove_handler-Total out quiet false (bound k) h))
        λ _. remove_from_each-Total h ks

module _ (out : Outside) (ds : Directives) (quiet : IsQuiet out) (bound : ℕ → ℕ) where
  found-contains :
      (h : ℕ) (hs : List ℕ) → contains h hs ≡ true → find_first (λ x. x == h) hs ≡ some h
  unfolding contains find_first
  found-contains h [] e = false_true e
  found-contains h (x ∷ hs) e = elim (Bool-cases (x == h)) [
    | inl hit ↦ rw hit (ap some ((==_iff x h).0 hit))
    | inr miss ↦ rw miss (found-contains h hs (rw miss at e))
  ]

  -- Where no instance is calling callbacks, and callbacks return, queue nothing, and leave the
  -- resolvers of the instance and their handlers as they are, removing a handler that the
  -- controller lists ends: it is taken out of the list once and no other is, every listed
  -- instance is left with its resolvers of other handlers, in their order, and no others, and no
  -- instance gets more resolvers or a queued callback.
  pub remove_handler_at-removes :
      (h : ℕ) (w : World)
      → LeavesOwned out
      → ((k : ℕ) → Quiet false false (bound k) (w.instance_at k))
      → contains h w.hnd ≡ true
      → (t : World) × (remove_handler_at out ds h w ≡ some (true, t))
        × Perm w.hnd (h ∷ t.hnd)
        × ((k : ℕ)
            → contains k w.dirs ≡ true
            → (t.instance_at k).resolvers
              ≡ others h (λ r. ((w.instance_at k).resolver_at r).hnd) (w.instance_at k).resolvers)
        × ((k : ℕ) → Quiet false false (bound k) (t.instance_at k))
  unfolding remove_handler_at gets modify ◌>>=◌ pure
  remove_handler_at-removes h w leaves p listed =
      let w1 = record w { handler_rel = λ j. if h == j then true else w.handler_rel j } in
      let w2 = record w1 { hnd = swap_remove (λ x. x == h) w.hnd } in
      let (q, run, r) =
        (remove_from_each-Total out ds quiet bound w2.hnd h w.dirs).at w2 (p, refl) in
      (
        q.1,
        rw listed (>>=-some (remove_from_each out ds h w.dirs) _ w2 q (true, q.1) run refl),
        subst (λ (l : List ℕ). Perm w.hnd (h ∷ l)) (sym r.1)
            (swap_remove-perm (λ x. x == h) w.hnd h (found-contains h w.hnd listed)),
        λ k met.
            let owner = λ (i : ℕ). ((w.instance_at k).resolver_at i).hnd in
            (each-frees out ds leaves h k (w.instance_at k).resolvers owner w.dirs w2 q run met
              (refl, λ i. refl)).0,
        r.0,
      )
