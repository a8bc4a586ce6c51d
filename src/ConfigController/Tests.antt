-- ===== src/ConfigController/Tests.antt =====
-- A concrete controller of config sets at which the theorems on it apply.
use controllerbus.Common.{
  ℕ, ◌+◌, true, Option, none, some, [], ◌∷◌, ◌≡◌, refl, ◌==◌, lookup, is_some, if◌then◌else◌,
  contains, false, inl, inr, Bool-cases, arith,
}
use controllerbus.ConfigController.{
  ConfigSets, RunningState, new_running_controller, new_running_controller_ref,
  push_controller_config, put_rc,
}
use controllerbus.UniqueResolver.Slots.{slots, Slots}
use controllerbus.ConfigController.SetResolvers.{
  SetResolver, catalog, lookup_resolve, apply_resolve,
}
use controllerbus.ConfigController.Following.{lookup_resolve-all_controlled}
use controllerbus.ConfigController.Covering.{HasKey, IsMade}
use controllerbus.ConfigController.Covered.{apply_resolve-HasKey}
use controllerbus.ConfigController.Loop.{
  Loop, at_top, watching, begins, restart, clear_state, take_restart, begin_watch, execute_step,
  execute_round,
}
use controllerbus.ConfigController.Pushing.{Pushed, push_controller_config-Pushed}
use controllerbus.ConfigController.Starting.{execute_round-controllers, execute_round-exec}
use controllerbus.ConfigController.Running.{Shown, execute_step-Shown}
use controllerbus.ConfigController.Restarting.{ExecRun, here, next, StaysAt, ExecRun-invalid}

-- Two controllers, 0 with a reference and 1 without, of the keys 20 and 21, with the configs 3 and 4.
abbrev config_sets : ConfigSets
config_sets = record {
  woken = true;
  controllers = (20, 0) ∷ (21, 1) ∷ [];
  persistent_ref_counter = 0;
  persistent_refs = [];
  rc_at = λ r. record (new_running_controller (20 + r) (3 + r)) {
    refs = if r == 0 then 6 ∷ [] else [];
  };
  ref_at = λ f. new_running_controller_ref 20 (some 0);
  next_rc = 2;
  next_ref = 7;
  pushed = [];
  releasing = [];
}

-- A config is its own revision, and the config 3 is not valid.
abbrev rev_of : ℕ → ℕ
rev_of conf = conf

abbrev validate : ℕ → Option ℕ
validate conf = if conf == 3 then some 99 else none

push_controller_config-Pushed_example :
    Pushed rev_of 20 5 config_sets (push_controller_config rev_of 20 5 config_sets)
push_controller_config-Pushed_example = push_controller_config-Pushed rev_of 20 5 config_sets

abbrev running : Loop
running = record {
  sets = config_sets;
  exec = (20, 100) ∷ (21, 101) ∷ [];
  next_ctx = 102;
  canceled = [];
  started = [];
}

execute_round-controllers_example : lookup 21 (execute_round running).sets.controllers ≡ none
unfolding lookup new_running_controller
execute_round-controllers_example = execute_round-controllers 21 running

execute_round-exec_example :
    is_some (lookup 20 (execute_round running).exec)
    ≡ is_some (lookup 20 (execute_round running).sets.controllers)
execute_round-exec_example = execute_round-exec 20 running

-- Controller 0 begins with the config 3, is given the config 5, and is restarted.
abbrev begun : ConfigSets
begun = clear_state 0 3 (some 99) config_sets

abbrev newer : ConfigSets
newer = put_rc 0 (record (begun.rc_at 0) { conf = 5; conf_restart = true }) begun

restarted : ExecRun validate 0 (at_top 3) (at_top 3)
unfolding execute_step
restarted = next restart newer (take_restart 0 newer) (next begins config_sets begun here refl) refl

ExecRun-invalid_example : StaysAt 3 (at_top 3)
ExecRun-invalid_example = ExecRun-invalid validate 0 3 99 refl (at_top 3) restarted

-- The reference of controller 0 has the callback 8.
abbrev called_back : ConfigSets
called_back = record config_sets {
  ref_at = λ f. record (new_running_controller_ref 20 (some 0)) { cbs = 8 ∷ [] };
}

nothing_emitted : Shown 0 (at_top 4) called_back
unfolding new_running_controller
nothing_emitted = inr (λ e. omega (arith, e))

execute_step-Shown_example : Shown 0 (watching 4) (clear_state 0 4 none called_back)
unfolding execute_step begin_watch
execute_step-Shown_example =
    execute_step-Shown validate 0 begins (at_top 4) (watching 4) called_back
      (clear_state 0 4 none called_back) nothing_emitted refl

-- A resolver with the reference 6 to the key 20.
abbrev resolver : SetResolver Slots
resolver = record { sets = config_sets; set_refs = (6, 1) ∷ []; handler = [] }

abbrev state_pointer : RunningState → ℕ
state_pointer st = st.state_id

-- The key 22 has no controller.
lookup_resolve-all_controlled_example :
    is_some (lookup_resolve slots state_pointer (20 ∷ 22 ∷ []) resolver) ≡ false
unfolding catalog contains lookup new_running_controller_ref
lookup_resolve-all_controlled_example =
    lookup_resolve-all_controlled slots state_pointer (20 ∷ 22 ∷ []) resolver

resolver-IsMade : IsMade resolver
unfolding lookup
resolver-IsMade g known = elim (Bool-cases (6 == g)) [
  | inl hit ↦ ground arith
  | inr miss ↦ cc (known, miss)
]

apply_resolve-HasKey_example :
    (t : SetResolver Slots) × (apply_resolve slots state_pointer rev_of
        ((20, 3) ∷ (22, 5) ∷ [])
        resolver
      ≡ some t)
    × HasKey 22 t
unfolding lookup
apply_resolve-HasKey_example =
    apply_resolve-HasKey slots state_pointer rev_of ((20, 3) ∷ (22, 5) ∷ []) resolver 22 5
      resolver-IsMade refl refl
