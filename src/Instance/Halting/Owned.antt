-- ===== src/Instance/Halting/Owned.antt =====
-- Removing a handler's resolvers from an instance: those of the other handlers are left.
use controllerbus.Common.{
  ℕ, zero, suc, true, false, Option, none, some, List, [], ◌∷◌, ◌==◌, if◌then◌else◌, ◌≡◌, refl, sym,
  ap, ◌∙◌, subst, inl, inr, Bool-cases, Option-cases, ==_iff, contains, without, some_none, length,
  ◌+◌,
}
use controllerbus.Common.Exec.{Keeps, ◌>>=◌, gets, modify, skip, when, on_option}
use controllerbus.Common.Exec.Rules.{>>=-eq-some}
use controllerbus.Instance.State.{Instance, CallbackEvent}
use controllerbus.Instance.Callbacks.{Outside}
use controllerbus.Instance.Values.{remove_resolver_locked}
use controllerbus.Instance.Lifecycle.{nth, remove_handler_from, remove_handler_locked}
use controllerbus.Instance.Halting.Listed.{nth-contains}
use controllerbus.Instance.Halting.Owners.{Owned, retire-Owned}

-- The resolvers that are not the handler's.
unfoldable pub others : ℕ → (ℕ → ℕ) → List ℕ → List ℕ
others h owner [] = []
others h owner (r ∷ rs) = if owner r == h then others h owner rs else r ∷ others h owner rs

true_false {ℓ} : {C : Type ℓ} → true ≡ false → C
true_false e = cc

module _ (h : ℕ) (owner : ℕ → ℕ) where
  -- None of so many first resolvers is the handler's.
  abbrev Clear : ℕ → List ℕ → Type 0
  Clear zero rs = Unit
  Clear (suc i) [] = Unit
  Clear (suc i) (r ∷ rs) = ((owner r == h) ≡ false) × Clear i rs

  others-Clear : (i : ℕ) (rs : List ℕ) → nth rs i ≡ none → Clear i rs → others h owner rs ≡ rs
  unfolding nth others
  others-Clear zero [] e c = refl
  others-Clear zero (r ∷ rs) e c = some_none e
  others-Clear (suc i) [] e c = refl
  others-Clear (suc i) (r ∷ rs) e c =
      rw (c.0) (ap (λ (l : List ℕ). r ∷ l) (others-Clear i rs e c.1))

  pub others-others : (rs : List ℕ) → others h owner (others h owner rs) ≡ others h owner rs
  unfolding others
  others-others [] = refl
  others-others (r ∷ rs) = elim (Bool-cases (owner r == h)) [
    | inl hit ↦ rw hit (others-others rs)
    | inr miss ↦ rw miss (rw miss (ap (λ (l : List ℕ). r ∷ l) (others-others rs)))
  ]

  others-without :
      (r : ℕ) (rs : List ℕ)
      → (owner r == h) ≡ true
      → others h owner (without r rs) ≡ others h owner rs
  unfolding others without
  others-without r [] hit = refl
  others-without r (x ∷ rs) hit = elim (Bool-cases (x == r)) [
    | inl same ↦
        let own : (owner x == h) ≡ true =
          subst (λ (i : ℕ). (owner i == h) ≡ true) (sym ((==_iff x r).0 same)) hit in
        rw same (rw own refl)
    | inr other ↦ elim (Bool-cases (owner x == h)) [
      | inl own ↦ rw other (rw own (others-without r rs hit))
      | inr not_own ↦ rw other (rw not_own (ap (λ (l : List ℕ). x ∷ l) (others-without r rs hit)))
    ]
  ]

  without-Clear :
      (i r : ℕ) (rs : List ℕ) → (owner r == h) ≡ true → Clear i rs → Clear i (without r rs)
  unfolding without
  without-Clear zero r rs hit c = tt
  without-Clear (suc i) r [] hit c = tt
  without-Clear (suc i) r (x ∷ rs) hit c = elim (Bool-cases (x == r)) [
    | inl same ↦
        true_false (sym hit ∙ ap (λ (j : ℕ). owner j == h) (sym ((==_iff x r).0 same)) ∙ c.0)
    | inr other ↦ rw other (c.0, without-Clear i r rs hit c.1)
  ]

  some-eq : {a b : ℕ} → some a ≡ some b → a ≡ b
  some-eq e = cc

  next-Clear :
      (i r : ℕ) (rs : List ℕ)
      → nth rs i ≡ some r
      → (owner r == h) ≡ false
      → Clear i rs
      → Clear (suc i) rs
  unfolding nth
  next-Clear zero r [] e miss c = tt
  next-Clear zero r (x ∷ rs) e miss c =
      (subst (λ (j : ℕ). (owner j == h) ≡ false) (sym (some-eq e)) miss, tt)
  next-Clear (suc i) r [] e miss c = tt
  next-Clear (suc i) r (x ∷ rs) e miss c = (c.0, next-Clear i r rs e miss c.1)

  module _ (out : Outside)
      (outside : (rs : List ℕ) (e : CallbackEvent) → Keeps (Owned rs owner) (out.invoke e)) where
    remove_resolver-without :
        (r : ℕ) (s : Instance) (q : Unit {0} × Instance)
        → contains r s.resolvers ≡ true
        → ((k : ℕ) → (s.resolver_at k).hnd ≡ owner k)
        → remove_resolver_locked out r s ≡ some q
        → Owned (without r s.resolvers) owner q.1
    unfolding remove_resolver_locked gets modify when ◌>>=◌
    remove_resolver-without r s q found own run =
        (retire-Owned (without r s.resolvers) owner out (outside (without r s.resolvers)) r).at
          (record s { resolvers = without r s.resolvers }) q (rw found at run) (refl, own)

    remove_handler_from-others :
        (rounds i : ℕ) (s : Instance) (q : Unit {0} × Instance)
        → Clear i s.resolvers
        → ((k : ℕ) → (s.resolver_at k).hnd ≡ owner k)
        → remove_handler_from out rounds i h s ≡ some q
        → Owned (others h owner s.resolvers) owner q.1
    unfolding remove_handler_from on_option skip gets ◌>>=◌
    remove_handler_from-others zero i s q c own run = some_none (sym run)
    remove_handler_from-others (suc rounds) i s q c own run =
        elim (Option-cases (nth s.resolvers i)) [
          | inl gone ↦
              let e : ◌≡◌ {A = Option (Unit {0} × Instance)} (some (tt, s)) (some q) =
                rw gone at run in
              let same : s ≡ q.1 = cc e in
              subst (Owned (others h owner s.resolvers) owner) same
                (sym (others-Clear i s.resolvers gone c), own)
          | inr (r, here) ↦ elim (Bool-cases ((s.resolver_at r).hnd == h)) [
            | inl hit ↦
                let hit' : (owner r == h) ≡ true = subst (λ (j : ℕ). (j == h) ≡ true) (own r) hit in
                let (u, first, rest) =
                  >>=-eq-some (remove_resolver_locked out r)
                    (λ _. remove_handler_from out rounds i h) s (rw hit at (rw here at run)) in
                let p =
                  remove_resolver-without r s u (nth-contains s.resolvers i r here) own first in
                let c' = subst (Clear i) (sym p.0) (without-Clear i r s.resolvers hit' c) in
                let t = remove_handler_from-others rounds i u.1 q c' p.1 rest in
                (t.0 ∙ ap (others h owner) p.0 ∙ others-without r s.resolvers hit', t.1)
            | inr miss ↦
                let miss' : (owner r == h) ≡ false =
                  subst (λ (j : ℕ). (j == h) ≡ false) (own r) miss in
                remove_handler_from-others rounds (suc i) s q
                  (next-Clear i r s.resolvers here miss' c) own (rw miss at (rw here at run))
          ]
        ]

    -- The resolvers of the other handlers are left, and no other.
    pub remove_handler-others :
        (rs : List ℕ) (s : Instance) (q : Unit {0} × Instance)
        → Owned rs owner s
        → remove_handler_locked out h s ≡ some q
        → Owned (others h owner rs) owner q.1
    unfolding remove_handler_locked gets ◌>>=◌
    remove_handler-others rs s q p run =
        subst (λ (l : List ℕ). Owned (others h owner l) owner q.1) p.0
          (remove_handler_from-others (suc (length s.resolvers + out.fuel)) 0 s q tt p.1 run)
