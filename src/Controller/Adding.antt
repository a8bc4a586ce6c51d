-- ===== src/Controller/Adding.antt =====
-- A directive that is added and is equivalent to none that is listed.
use controllerbus.Common.{ℕ, suc, ◌+◌, ◌%◌, ◌^◌, false, Option, [], ◌∷◌, ◌++◌, ◌==◌, if◌then◌else◌}
use controllerbus.Instance.State.{Instance, DirRef, ValueOptions}
use controllerbus.Instance.Callbacks.{Outside}
use controllerbus.Controller.{World, Directives, blank_instance}

-- The first reference, which is strong, and a new instance with it.
abbrev pub first_ref : Option ℕ → DirRef
first_ref ref = record { ref_id = 1; weak = false; ref_handler = ref }

abbrev pub first_instance : ℕ → ValueOptions → Option ℕ → World → Instance
first_instance k opts ref w = record (blank_instance k opts) {
  refs = first_ref ref ∷ [];
  next_pointer = 2;
  dir = w.dirs;
  handler_rel = w.handler_rel;
  broadcasts = w.broadcasts;
}

module _ (out : Outside) (ds : Directives) (dir : ℕ) (ref : Option ℕ) where
  -- The new instance before it has its reference.
  abbrev made : World → World
  made w = record w {
    next_instance = suc w.next_instance;
    dir_id = (w.dir_id + 1) % 2 ^ 32;
    instance_at = λ j.
        if w.next_instance == j
        then blank_instance w.next_instance (ds.value_options dir)
        else w.instance_at j;
    directive_at = λ j. if w.next_instance == j then dir else w.directive_at j;
    ident_at = λ j. if w.next_instance == j then w.dir_id else w.ident_at j;
  }

  abbrev referred : World → World
  referred w = record (made w) {
    instance_at = λ j.
        if w.next_instance == j
        then first_instance w.next_instance (ds.value_options dir) ref w
        else (made w).instance_at j;
  }

  abbrev listed : World → World
  listed w = record (referred w) {
    dirs = w.dirs ++ w.next_instance ∷ [];
    broadcasts = suc w.broadcasts;
  }
