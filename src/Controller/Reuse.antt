-- ===== src/Controller/Reuse.antt =====
-- Which instance a directive that is added gets.
use controllerbus.Common.{
  none, ℕ, suc, Bool, true, false, not, ◌&&◌, Option, some, List, [], ◌∷◌, ◌++◌, All, length, ◌≡◌,
  refl, sym, ◌∙◌, subst, Option-cases, inl, inr,
}
use controllerbus.Common.Exec.{Exec, ◌>>=◌, pure, gets, on_option}
use controllerbus.Instance.State.{DirRef}
use controllerbus.Instance.Callbacks.{Outside}
use controllerbus.Instance.Lifecycle.{add_reference_locked}
use controllerbus.Controller.{
  World, Directives, on_instance, equivalent_to, superceeds_it, find_equivalent, add_directive,
}

module _ {A B : Type 0} where
  pub bind-run :
      (m : Exec World A) (f : A → Exec World B) (w : World) (a : A) (w' : World)
      → m w ≡ some (a, w')
      → (m >>= f) w ≡ f a w'
  unfolding ◌>>=◌
  bind-run m f w a w' h = rw (h, ◌>>=◌) refl

  bind-cong :
      (m m' : Exec World A) (f : A → Exec World B) (w : World)
      → m w ≡ m' w
      → (m >>= f) w ≡ (m' >>= f) w
  unfolding ◌>>=◌
  bind-cong m m' f w h = rw (h, ◌>>=◌) refl

pub gets-run : {A : Type 0} (f : World → A) (w : World) → gets f w ≡ some (f w, w)
unfolding gets
gets-run f w = refl

bind-pure :
    {A B C : Type 0} (m : Exec World A) (g : A → B) (f : B → Exec World C) (w : World)
    → (m >>= (λ a. pure (g a)) >>= f) w ≡ (m >>= λ a. f (g a)) w
unfolding ◌>>=◌ pure
bind-pure m g f w = elim (Option-cases (m w)) [
  | inl e ↦ rw (e, ◌>>=◌) refl
  | inr (q, e) ↦ rw (e, ◌>>=◌) refl
]

module _ (out : Outside) (ds : Directives) (dir : ℕ) (ref : Option ℕ) where
  -- The instance at `k` is live and its directive equivalent to the one added.
  abbrev pub candidate : World → ℕ → Bool
  candidate w k = not (w.instance_at k).released && equivalent_to ds dir (w.directive_at k)

  find-here :
      (i n k : ℕ) (ks : List ℕ) (w : World)
      → candidate w k ≡ true
      → superceeds_it ds dir (w.directive_at k) ≡ false
      → find_equivalent out ds dir ref i (suc n) (k ∷ ks) w
        ≡ (on_instance k (add_reference_locked out ref false) >>= λ r. pure (some (k, r))) w
  unfolding find_equivalent gets ◌>>=◌
  find-here i n k ks w c s = rw (c, s, find_equivalent) refl

  find-passed :
      (i n k : ℕ) (ks : List ℕ) (w : World)
      → candidate w k ≡ false
      → find_equivalent out ds dir ref i (suc n) (k ∷ ks) w
        ≡ find_equivalent out ds dir ref (suc i) n ks w
  unfolding find_equivalent gets ◌>>=◌
  find-passed i n k ks w c = rw (c, find_equivalent) refl

  Reuses : ℕ → Exec World (Option (ℕ × DirRef))
  Reuses k = on_instance k (add_reference_locked out ref false) >>= λ r. pure (some (k, r))

  find-first :
      (i : ℕ) (before : List ℕ) (k : ℕ) (after : List ℕ) (w : World)
      → All (λ j. candidate w j ≡ false) before
      → candidate w k ≡ true
      → superceeds_it ds dir (w.directive_at k) ≡ false
      → find_equivalent out ds dir ref i (length (before ++ k ∷ after)) (before ++ k ∷ after) w
        ≡ Reuses k w
  unfolding Reuses
  find-first i [] k after w h c s = find-here i (length after) k after w c s
  find-first i (j ∷ before) k after w h c s =
      find-passed i (length (before ++ k ∷ after)) j (before ++ k ∷ after) w h.0
      ∙ find-first (suc i) before k after w h.1 c s

  find-nothing : (i : ℕ) (w : World) → find_equivalent out ds dir ref i 0 [] w ≡ some (none, w)
  unfolding find_equivalent pure
  find-nothing i w = refl

  pub find-none :
      (i : ℕ) (ks : List ℕ) (w : World)
      → All (λ j. candidate w j ≡ false) ks
      → find_equivalent out ds dir ref i (length ks) ks w ≡ some (none, w)
  find-none i [] w h = find-nothing i w
  find-none i (j ∷ ks) w h = find-passed i (length ks) j ks w h.0 ∙ find-none (suc i) ks w h.1

  -- If, of the directives listed, the first that is live and equivalent to the one added is not
  -- superceeded, adding the directive is adding a strong reference to that instance, which is
  -- returned: the controller does nothing else.
  pub add_directive-reuses :
      (before : List ℕ) (k : ℕ) (after : List ℕ) (w : World)
      → w.dirs ≡ before ++ k ∷ after
      → All (λ j. candidate w j ≡ false) before
      → candidate w k ≡ true
      → superceeds_it ds dir (w.directive_at k) ≡ false
      → add_directive out ds dir ref w
        ≡ (on_instance k (add_reference_locked out ref false) >>= λ r. pure (k, r)) w
  unfolding add_directive Reuses on_option
  add_directive-reuses before k after w e h c s =
      bind-run (gets (λ (w : World). w.dirs)) _ w w.dirs w (gets-run _ w)
      ∙ bind-cong (find_equivalent out ds dir ref 0 (length w.dirs) w.dirs) (Reuses k) _ w (
          subst (λ (l : List ℕ). find_equivalent out ds dir ref 0 (length l) l w ≡ Reuses k w)
            (sym e) (find-first 0 before k after w h c s))
      ∙ bind-pure (on_instance k (add_reference_locked out ref false)) (λ r. some (k, r)) _ w
