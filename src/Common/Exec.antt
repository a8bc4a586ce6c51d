-- ===== src/Common/Exec.antt =====
-- Stateful code with loops on fuel. `none` means that the fuel ran out.
pub mod Rules
use mathlib.Core.Path.{◌≡◌}
use mathlib.Core.Bool.{Bool, true, false}
use mathlib.Core.Option.{Option, none, some}
use mathlib.Core.List.{List, [], ◌∷◌}

abbrev pub Exec : Type 0 → Type 0 → Type 0
Exec S A = S → Option (A × S)

infixl 5 ◌>>=◌ ◌>>◌
unfoldable pub ◌>>=◌ : {S A B : Type 0} → Exec S A → (A → Exec S B) → Exec S B
◌>>=◌ m f s = elim (m s) [ none ↦ none | some (a, s') ↦ f a s' ]

abbrev pub ◌>>◌ : {S B : Type 0} → Exec S (Unit {0}) → Exec S B → Exec S B
m >> k = m >>= λ _. k

module _ {S : Type 0} where
  unfoldable pub pure : {A : Type 0} → A → Exec S A
  pure a s = some (a, s)

  unfoldable pub gets : {A : Type 0} → (S → A) → Exec S A
  gets f s = some (f s, s)

  unfoldable pub modify : (S → S) → Exec S (Unit {0})
  modify f s = some (tt, f s)

  unfoldable pub skip : Exec S (Unit {0})
  skip s = some (tt, s)

  unfoldable pub when : Bool → Exec S (Unit {0}) → Exec S (Unit {0})
  when true m = m
  when false m = skip

  unfoldable pub on_option : {A X : Type 0} → Option X → Exec S A → (X → Exec S A) → Exec S A
  on_option none m f = m
  on_option (some x) m f = f x

  unfoldable pub for_each : {X : Type 0} → List X → (X → Exec S (Unit {0})) → Exec S (Unit {0})
  unfolding skip
  for_each [] f = skip
  for_each (x ∷ xs) f = f x >>= λ _. for_each xs f

-- Whatever a run that ends returns, it keeps `P`.
pub record Keeps {S A : Type 0} (P : S → Type 0) (m : Exec S A) : Type 0 where
  pub at : (s : S) (r : A × S) → m s ≡ some r → P s → P r.1

-- A run from a state with `P` ends, in a state with `P`.
pub record Total {S A : Type 0} (P : S → Type 0) (m : Exec S A) : Type 0 where
  pub at : (s : S) → P s → (r : A × S) × (m s ≡ some r) × P r.1

-- A run that ends has a result and a state with `Q`.
pub record Ensures {S A : Type 0} (Q : A → S → Type 0) (m : Exec S A) : Type 0 where
  pub at : (s : S) (r : A × S) → m s ≡ some r → Q r.0 r.1
