-- ===== src/Instance/Tests.antt =====
-- Concrete instances and callbacks at which the theorems on directive instances apply.
use controllerbus.Common.{
  ℕ, ◌≡◌, ◌≢◌, refl, true, false, Option, none, some, [], ◌∷◌, arith, contains,
}
use controllerbus.Common.Exec.{Keeps, skip, gets, modify, when, pure, ◌>>=◌}
use controllerbus.Common.Exec.Rules.{Keeps-skip, Total-skip}
use controllerbus.Instance.State.{Instance, DirRef, ValueOptions, CallbackEvent, Resolver}
use controllerbus.Instance.Callbacks.{Outside, new_pointer, call_callback_events_locked}
use controllerbus.Instance.Capacity.{values_of}
use controllerbus.Instance.Lifecycle.{
  add_reference_locked, release, has_ref, without_ref, any_non_weak_refs, handle_referenced_locked,
  stop_destroy_timer,
}
use controllerbus.Instance.Invariant.{WellFormed}
use controllerbus.Instance.Halting.{Quiet, IsQuiet}
use controllerbus.Instance.Disposal.{IsGone, release-IsGone}
use controllerbus.Instance.Runs.{
  Run, Run-WellFormed, Run-any_non_weak_refs, has_strong, here, next, adds_reference,
}
use controllerbus.Controller.{blank_instance, no_resolver}

-- Callbacks that do nothing.
abbrev silent : Outside
silent = record { invoke = λ _. skip; fuel = 1 }

silent-IsQuiet : IsQuiet silent
silent-IsQuiet = record { returns = λ calling g n e. Total-skip; has_round = omega arith }

silent-Keeps : (e : CallbackEvent) → Keeps WellFormed (silent.invoke e)
silent-Keeps e = Keeps-skip

abbrev options : ℕ → ValueOptions
options delay = record {
  max_value_count = 2;
  max_value_hard_cap = true;
  unref_dispose_dur = delay;
  unref_dispose_empty_immediate = false;
}

abbrev strong_ref : DirRef
strong_ref = record { ref_id = 7; weak = false; ref_handler = none }

abbrev weak_ref : DirRef
weak_ref = record { ref_id = 5; weak = true; ref_handler = none }

-- A resolver with one value, of a handler 4.
abbrev busy_resolver : Resolver
busy_resolver = record (no_resolver 0) {
  hnd = 4;
  vals = record { value_id = 2; val = 9; remove_callback_ctr = 0; remove_callbacks = [] } ∷ [];
}

-- A listed instance with a weak and a strong reference and two resolvers, each with a value.
abbrev referred : ℕ → Instance
referred delay = record (blank_instance 1 (options delay)) {
  dir = 3 ∷ 1 ∷ [];
  refs = weak_ref ∷ strong_ref ∷ [];
  resolvers = 1 ∷ 2 ∷ [];
  resolver_at = λ _. busy_resolver;
  next_resolver = 2;
  next_pointer = 9;
  val_ctr = 2;
}

referred-Quiet : (delay : ℕ) → Quiet false false 2 (referred delay)
unfolding blank_instance
referred-Quiet delay = (refl, refl, omega arith, λ e. refl_false e)
  where
    refl_false : false ≡ true → false ≡ true
    refl_false e = e

referred-WellFormed : WellFormed (referred 0)
unfolding blank_instance values_of
referred-WellFormed = record {
  weak_first = tt;
  resolvers_sorted = (omega arith, (omega arith, omega arith));
  values_sorted = λ r. (omega arith, omega arith);
  within_cap = λ hard some_cap. omega arith;
}

-- The instance once a second strong reference has been added.
abbrev second_ref : DirRef
second_ref = record { ref_id = 9; weak = false; ref_handler = none }

abbrev twice_referred : Instance
twice_referred = record (referred 0) {
  refs = weak_ref ∷ strong_ref ∷ second_ref ∷ [];
  next_pointer = 10;
}

referred-Run : Run silent (referred 0) twice_referred
unfolding blank_instance add_reference_locked new_pointer gets modify when skip pure ◌>>=◌
    any_non_weak_refs call_callback_events_locked handle_referenced_locked stop_destroy_timer
referred-Run = next here (adds_reference none false second_ref refl)

Run-WellFormed_example : WellFormed twice_referred
Run-WellFormed_example =
    Run-WellFormed silent silent-Keeps (referred 0) twice_referred referred-WellFormed referred-Run

Run-any_non_weak_refs_example :
    any_non_weak_refs twice_referred.refs ≡ has_strong twice_referred.refs
Run-any_non_weak_refs_example =
    Run-any_non_weak_refs silent silent-Keeps (referred 0) twice_referred referred-WellFormed
      referred-Run

release-IsGone_example :
    (q : Unit {0} × Instance) × (release silent 7 (referred 0) ≡ some q) × IsGone q.1
unfolding blank_instance contains has_ref without_ref any_non_weak_refs
release-IsGone_example =
    release-IsGone silent silent-IsQuiet 2 7 (referred 0) (referred-Quiet 0) refl refl refl refl
      refl refl

delay_not_zero : ◌≢◌ {A = ℕ} 1 0
delay_not_zero = omega arith

no_timer : ◌≢◌ {A = Option ℕ} none (some 3)
no_timer e = cc

-- Only a weak reference is left, and the timer runs.
abbrev dying : Instance
dying = record (referred 1) { refs = weak_ref ∷ []; destroy_timer = some 8 }
