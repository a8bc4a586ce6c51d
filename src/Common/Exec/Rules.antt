-- ===== src/Common/Exec/Rules.antt =====
-- Rules for invariants of stateful code and for its ending, one for each way to build it.
use mathlib.Core.Path.{◌≡◌, refl, subst}
use mathlib.Core.Logic.{inl, inr}
use mathlib.Core.Bool.{Bool, true, false}
use mathlib.Core.Option.{Option, none, some}
use mathlib.Core.List.{List, [], ◌∷◌}
use native.Mathlib.Omega.{arith}
use controllerbus.Common.Tests.{Option-cases, if◌then◌else◌}
use controllerbus.Common.Exec.{
  Exec, ◌>>=◌, pure, gets, modify, skip, when, on_option, for_each, Keeps, Total, Ensures,
}

-- Inversion of a run of two parts.
pub >>=-eq-some :
    {S A B : Type 0} (m : Exec S A) (f : A → Exec S B) (s : S) {r : B × S}
    → (m >>= f) s ≡ some r
    → (q : A × S) × (m s ≡ some q) × (f q.0 q.1 ≡ some r)
unfolding ◌>>=◌
>>=-eq-some m f s e = elim (Option-cases (m s)) [
  | inl out ↦ ground (arith, out)
  | inr (q, run) ↦ (q, run, ground (arith, run))
]

pub >>=-some :
    {S A B : Type 0} (m : Exec S A) (f : A → Exec S B) (s : S) (q : A × S) (r : B × S)
    → m s ≡ some q
    → f q.0 q.1 ≡ some r
    → (m >>= f) s ≡ some r
unfolding ◌>>=◌
>>=-some m f s q r run rest = rw (run, ◌>>=◌) rest

Keeps-run :
    {S A : Type 0} (P : S → Type 0) (a : A) (t : S) {r : A × S} → some (a, t) ≡ some r → P t → P r.1
Keeps-run {S} {A} P a t {r} e p =
    let same : ◌≡◌ {A = A × S} (a, t) r = cc in subst (λ (q : A × S). P q.1) same p

module _ {S : Type 0} {P : S → Type 0} where
  pub Keeps-pure : {A : Type 0} (a : A) → Keeps P (pure a)
  unfolding pure
  Keeps-pure a = record { at = λ s r e p. Keeps-run P a s e p }

  pub Keeps-gets : {A : Type 0} (f : S → A) → Keeps P (gets f)
  unfolding gets
  Keeps-gets f = record { at = λ s r e p. Keeps-run P (f s) s e p }

  pub Keeps-skip : Keeps P skip
  unfolding skip
  Keeps-skip = record { at = λ s r e p. Keeps-run P tt s e p }

  pub Keeps-modify : (f : S → S) → ((s : S) → P s → P (f s)) → Keeps P (modify f)
  unfolding modify
  Keeps-modify f k = record { at = λ s r e p. Keeps-run P tt (f s) e (k s p) }

  pub Keeps-bind :
      {A B : Type 0} (m : Exec S A) (f : A → Exec S B)
      → Keeps P m
      → ((a : A) → Keeps P (f a))
      → Keeps P (m >>= f)
  Keeps-bind m f km kf = record {
    at = λ s r e p.
        let (q, run, rest) = >>=-eq-some m f s e in (kf q.0).at q.1 r rest (km.at s q run p);
  }

  pub Keeps-when : (b : Bool) (m : Exec S (Unit {0})) → Keeps P m → Keeps P (when b m)
  unfolding when
  Keeps-when true m k = k
  Keeps-when false m k = Keeps-skip

  pub Keeps-if :
      {A : Type 0} (b : Bool) (m n : Exec S A)
      → Keeps P m
      → Keeps P n
      → Keeps P (if b then m else n)
  Keeps-if true m n km kn = km
  Keeps-if false m n km kn = kn

  pub Keeps-on_option :
      {A X : Type 0} (o : Option X) (m : Exec S A) (f : X → Exec S A)
      → Keeps P m
      → ((x : X) → Keeps P (f x))
      → Keeps P (on_option o m f)
  unfolding on_option
  Keeps-on_option none m f km kf = km
  Keeps-on_option (some x) m f km kf = kf x

  pub Keeps-for_each :
      {X : Type 0} (xs : List X) (f : X → Exec S (Unit {0}))
      → ((x : X) → Keeps P (f x))
      → Keeps P (for_each xs f)
  unfolding for_each
  Keeps-for_each [] f k = Keeps-skip
  Keeps-for_each (x ∷ xs) f k = Keeps-bind (f x) _ (k x) (λ _. Keeps-for_each xs f k)

pub ruleset keeps_rules = (
  Keeps-pure, Keeps-gets, Keeps-skip, Keeps-bind, Keeps-when, Keeps-if, Keeps-on_option,
  Keeps-for_each,
)

module _ {S : Type 0} {P : S → Type 0} where
  pub Total-pure : {A : Type 0} (a : A) → Total P (pure a)
  unfolding pure
  Total-pure a = record { at = λ s p. ((a, s), refl, p) }

  pub Total-gets : {A : Type 0} (f : S → A) → Total P (gets f)
  unfolding gets
  Total-gets f = record { at = λ s p. ((f s, s), refl, p) }

  pub Total-skip : Total P skip
  unfolding skip
  Total-skip = record { at = λ s p. ((tt, s), refl, p) }

  pub Total-modify : (f : S → S) → ((s : S) → P s → P (f s)) → Total P (modify f)
  unfolding modify
  Total-modify f k = record { at = λ s p. ((tt, f s), refl, k s p) }

  pub Total-bind :
      {A B : Type 0} (m : Exec S A) (f : A → Exec S B)
      → Total P m
      → ((a : A) → Total P (f a))
      → Total P (m >>= f)
  Total-bind m f km kf = record {
    at = λ s p.
        let (q, run, p') = km.at s p in
        let (r, rest, p'') = (kf q.0).at q.1 p' in (r, >>=-some m f s q r run rest, p'');
  }

  pub Total-when : (b : Bool) (m : Exec S (Unit {0})) → Total P m → Total P (when b m)
  unfolding when
  Total-when true m k = k
  Total-when false m k = Total-skip

  pub Total-if :
      {A : Type 0} (b : Bool) (m n : Exec S A)
      → Total P m
      → Total P n
      → Total P (if b then m else n)
  Total-if true m n km kn = km
  Total-if false m n km kn = kn

  pub Total-on_option :
      {A X : Type 0} (o : Option X) (m : Exec S A) (f : X → Exec S A)
      → Total P m
      → ((x : X) → Total P (f x))
      → Total P (on_option o m f)
  unfolding on_option
  Total-on_option none m f km kf = km
  Total-on_option (some x) m f km kf = kf x

  pub Total-for_each :
      {X : Type 0} (xs : List X) (f : X → Exec S (Unit {0}))
      → ((x : X) → Total P (f x))
      → Total P (for_each xs f)
  unfolding for_each
  Total-for_each [] f k = Total-skip
  Total-for_each (x ∷ xs) f k = Total-bind (f x) _ (k x) (λ _. Total-for_each xs f k)

pub ruleset total_rules = (
  Total-pure, Total-gets, Total-skip, Total-bind, Total-when, Total-if, Total-on_option,
  Total-for_each,
)

module _ {S : Type 0} where
  pub Ensures-modify :
      (Q : Unit {0} → S → Type 0) (f : S → S) → ((s : S) → Q tt (f s)) → Ensures Q (modify f)
  unfolding modify
  Ensures-modify Q f h = record { at = λ s r e. Keeps-run (Q tt) tt (f s) e (h s) }

  pub Ensures-bind :
      {A B : Type 0} {Q : B → S → Type 0} (m : Exec S A) (f : A → Exec S B)
      → ((a : A) → Ensures Q (f a))
      → Ensures Q (m >>= f)
  Ensures-bind m f k = record {
    at = λ s r e. let (q, run, rest) = >>=-eq-some m f s e in (k q.0).at q.1 r rest;
  }
