-- ===== src/Bus/Tests.antt =====
-- A concrete bus, on a directive controller without directives, at which the theorems apply.
use controllerbus.Common.{true, false, none, some, [], ◌∷◌, ◌==◌, if◌then◌else◌}
use controllerbus.Common.Exec.{pure, skip}
use controllerbus.Instance.State.{ValueOptions}
use controllerbus.Instance.Callbacks.{Outside}
use controllerbus.Controller.{World, Directives, blank_instance}
use controllerbus.Bus.{Registry, Bus, directive_registry}

abbrev nothing_outside : Outside
nothing_outside = record { invoke = λ _. skip; fuel = 1 }

abbrev unlimited : ValueOptions
unlimited = record {
  max_value_count = 0;
  max_value_hard_cap = false;
  unref_dispose_dur = 0;
  unref_dispose_empty_immediate = false;
}

abbrev same_directives : Directives
same_directives = record {
  value_options = λ _. unlimited;
  is_equivalent = some ◌==◌;
  superceeds = none;
  handle_directive = λ h k. pure none;
}

abbrev empty_world : World
empty_world = record {
  dir_id = 0;
  next_instance = 0;
  dirs = [];
  hnd = [];
  next_handler = 0;
  handler_rel = λ _. false;
  broadcasts = 0;
  instance_at = λ k. blank_instance k unlimited;
  directive_at = λ _. 0;
  ident_at = λ _. 0;
}

abbrev one_handler : World
one_handler = record empty_world { hnd = 0 ∷ []; next_handler = 1 }

abbrev no_handler : World
no_handler = record empty_world {
  next_handler = 1;
  handler_rel = λ j. if 0 == j then true else false;
}

abbrev registry_of : Registry World
registry_of = directive_registry nothing_outside same_directives

abbrev bus : Bus World
bus = record {
  registry = empty_world;
  controllers = record { ctrl = 8; rel = 5 } ∷ [];
  broadcasts = 0;
}
