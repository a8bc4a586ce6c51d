-- ===== src/Clients.antt =====
-- The clients of package bus (bus/oneoff.go, bus/multi.go, bus/watch.go, bus/transform.go). The
-- handler that each of them adds with its directive gets the events below from the instance, one
-- after the other, and its callbacks change the variables that the Go function declares.
pub mod Select
pub mod Watch
pub mod OneOff
pub mod Collect
pub mod CollectWatch
pub mod Relay
mod Tests
use controllerbus.Common.{
  ℕ, Option, none, some, List, [], ◌∷◌, ◌==◌, ==_refl, refl, false, if◌then◌else◌, ◌≡◌, Bool, true,
  sym, ◌∙◌, inl, inr, Bool-cases,
}
use controllerbus.Instance.State.{AttachedValue}

-- The calls of a reference handler.
pub data ClientEvent : Type 0 where
  value_added : AttachedValue → ClientEvent
  value_removed : AttachedValue → ClientEvent
  instance_disposed : ClientEvent

module _ {E S : Type 0} where
  unfoldable pub run_events : (E → S → S) → List E → S → S
  run_events step [] s = s
  run_events step (ev ∷ evs) s = run_events step evs (step ev s)

  pub run_events-keeps :
      (step : E → S → S) (P : S → Type 0)
      → ((ev : E) (s : S) → P s → P (step ev s))
      → (evs : List E) (s : S) → P s
      → P (run_events step evs s)
  unfolding run_events
  run_events-keeps step P keep [] s p = p
  run_events-keeps step P keep (ev ∷ evs) s p =
      run_events-keeps step P keep evs (step ev s) (keep ev s p)

abbrev pub mark : (ℕ → Option ℕ) → ℕ → Option ℕ → ℕ → Option ℕ
mark live id o j = if id == j then o else live j

-- What an instance sends: it adds no value under an id that is in use, removes a value as it was
-- added, and sends nothing after the disposal. `live` has the values that are in use.
abbrev pub IsFresh : (ℕ → Option ℕ) → List ClientEvent → Type 0
IsFresh live [] = Unit
IsFresh live (value_added v ∷ evs) =
    (live v.attached_id ≡ none) × IsFresh (mark live v.attached_id (some v.attached_val)) evs
IsFresh live (value_removed v ∷ evs) =
    (live v.attached_id ≡ some v.attached_val) × IsFresh (mark live v.attached_id none) evs
IsFresh live (instance_disposed ∷ evs) = ⊥

pub mark-other :
    (live : ℕ → Option ℕ) (id j : ℕ) (o : Option ℕ) → (id == j) ≡ false → mark live id o j ≡ live j
mark-other live id j o miss = rw miss refl

pub mark-same : (live : ℕ → Option ℕ) (id : ℕ) (o : Option ℕ) → mark live id o id ≡ o
mark-same live id o = rw (==_refl id) refl

-- Whether the value, if there is one, has the type.
abbrev pub has_type : (ℕ → Bool) → Option ℕ → Bool
has_type is_t none = false
has_type is_t (some val) = is_t val

true_false {ℓ} : {C : Type ℓ} → true ≡ false → C
true_false e = cc

module _ (is_t : ℕ → Bool) where
  pub untyped_other :
      (live : ℕ → Option ℕ) (id val j : ℕ)
      → is_t val ≡ true
      → has_type is_t (mark live id (some val) j) ≡ false
      → (id == j) ≡ false
  untyped_other live id val j typed h = elim (Bool-cases (id == j)) [
    | inr miss ↦ miss
    | inl hit ↦ true_false (sym typed ∙ rw hit at h)
  ]

  pub live_before :
      (live : ℕ → Option ℕ) (id j : ℕ) (o : Option ℕ)
      → (id == j) ≡ false
      → has_type is_t (mark live id o j) ≡ false
      → has_type is_t (live j) ≡ false
  live_before live id j o miss h = rw miss at h
