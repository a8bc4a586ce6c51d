-- ===== src/Loader/Tests.antt =====
-- A run of the loader at which its theorem applies.
use controllerbus.Common.{true, false, none, some, [], ◌∷◌}
use controllerbus.Loader.{Attempt, construct_fails, constructs, resolve, start, completes}
use controllerbus.Loader.Closing.{Accounts, resolve-Accounts}

-- The construction fails, then the controller 8 fails, and then it ends without an error.
abbrev failing : Attempt
failing = record {
  next_backoff = some 100;
  canceled_waiting = false;
  construction = construct_fails 5;
  exec_err = some 6;
  ctx_canceled = false;
  accepts_waiting = true;
  accepts_running = true;
}

abbrev failing_run : Attempt
failing_run = record failing { construction = constructs 8 }

abbrev good_run : Attempt
good_run = record failing { exec_err = none }

resolve-Accounts_example :
    Accounts (some (completes (some 4))) (resolve (failing ∷ failing_run ∷ good_run ∷ []) start).1
unfolding resolve start
resolve-Accounts_example = resolve-Accounts (failing ∷ failing_run ∷ good_run ∷ [])
