-- ===== src/Controller/Tests.antt =====
-- A concrete controller at which the theorems on it apply.
use controllerbus.Common.{
  ℕ, true, false, none, some, [], ◌∷◌, ◌≡◌, refl, ◌==◌, if◌then◌else◌, contains, arith,
}
use mathlib.Core.List.{Perm}
use controllerbus.Common.Exec.{◌>>=◌, skip, pure}
use controllerbus.Common.Exec.Rules.{Total-skip, Keeps-skip}
use controllerbus.Instance.State.{ValueOptions}
use controllerbus.Instance.Callbacks.{Outside}
use controllerbus.Instance.Lifecycle.{add_reference_locked}
use controllerbus.Instance.Halting.{Quiet, IsQuiet}
use controllerbus.Instance.Halting.Owned.{others}
use controllerbus.Controller.{
  no_resolver, World, Directives, blank_instance, on_instance, add_directive, remove_handler_at,
  equivalent_to, superceeds_it,
}
use controllerbus.Controller.Reuse.{add_directive-reuses}
use controllerbus.Controller.Removing.{remove_handler_at-removes}

abbrev idle_outside : Outside
idle_outside = record { invoke = λ _. skip; fuel = 1 }

idle_outside-IsQuiet : IsQuiet idle_outside
idle_outside-IsQuiet = record { returns = λ calling g n e. Total-skip; has_round = omega arith }

abbrev no_options : ValueOptions
no_options = record {
  max_value_count = 0;
  max_value_hard_cap = false;
  unref_dispose_dur = 0;
  unref_dispose_empty_immediate = false;
}

-- Directives are equivalent when they are the same, and a handler resolves each with one resolver.
abbrev directives : Directives
directives = record {
  value_options = λ _. no_options;
  is_equivalent = some ◌==◌;
  superceeds = none;
  handle_directive = λ h k. pure (some (h ∷ []));
}

-- Three directives, 10, 11 and 11 again, and two handlers.
abbrev busy_world : World
busy_world = record {
  dir_id = 3;
  next_instance = 3;
  dirs = 0 ∷ 1 ∷ 2 ∷ [];
  hnd = 4 ∷ 5 ∷ 6 ∷ [];
  next_handler = 7;
  handler_rel = λ _. false;
  broadcasts = 0;
  instance_at = λ k. blank_instance k no_options;
  directive_at = λ k. if k == 0 then 10 else 11;
  ident_at = λ k. k;
}

add_directive-reuses_example :
    add_directive idle_outside directives 11 (some 2) busy_world
    ≡ (on_instance 1 (add_reference_locked idle_outside (some 2) false) >>= λ r. pure (1, r))
        busy_world
unfolding blank_instance equivalent_to superceeds_it
add_directive-reuses_example =
    add_directive-reuses idle_outside directives 11 (some 2) (0 ∷ []) 1 (2 ∷ []) busy_world refl
      (refl, tt) refl refl

-- Every instance has the resolvers 8, of the handler 5, and 9, of the handler 4.
abbrev resolved_world : World
resolved_world = record busy_world {
  instance_at = λ k. record (blank_instance k no_options) {
    resolvers = 8 ∷ 9 ∷ [];
    resolver_at = λ r. record (no_resolver r) { hnd = if r == 8 then 5 else 4 };
  };
}

all-Quiet : (k : ℕ) → Quiet false false 2 (resolved_world.instance_at k)
unfolding blank_instance
all-Quiet k = (refl, refl, omega arith, λ e. same e)
  where
    same : false ≡ true → false ≡ true
    same e = e

remove_handler_at-removes_example :
    (t : World) × (remove_handler_at idle_outside directives 5 resolved_world ≡ some (true, t))
    × Perm (4 ∷ 5 ∷ 6 ∷ []) (5 ∷ t.hnd)
    × ((k : ℕ) → contains k (0 ∷ 1 ∷ 2 ∷ []) ≡ true → (t.instance_at k).resolvers ≡ 9 ∷ [])
    × ((k : ℕ) → Quiet false false 2 (t.instance_at k))
unfolding contains others
remove_handler_at-removes_example =
    remove_handler_at-removes idle_outside directives idle_outside-IsQuiet (λ _. 2) 5 resolved_world
      (λ rs owner e. Keeps-skip) all-Quiet refl
