-- ===== src/Bus/Attaching.antt =====
-- Controllers that are added to the bus and removed from it.
use controllerbus.Common.{
  ℕ, suc, true, Option, none, some, [], ◌∷◌, ◌++◌, ==_refl, find_first, find_first-snoc,
  swap_remove-snoc, ◌≡◌, refl,
}
use controllerbus.Common.Exec.{Exec, ◌>>=◌, pure, gets, modify, skip, on_option}
use controllerbus.Bus.{
  Registry, AttachedController, Bus, added, Outcome, ExecError, returns, panics, own_error,
  wrapped_panic, plain_panic, is_ctrl, on_registry, attach_controller, add_controller_locked,
  remove_controller,
}

is_ctrl-own : (c h : ℕ) → is_ctrl c (record { ctrl = c; rel = h }) ≡ true
unfolding is_ctrl
is_ctrl-own c h = ==_refl c

module _ {S A : Type 0} where
  bind_step :
      {B : Type 0} (m : Exec S A) (f : A → Exec S B) (s : S) (a : A) (t : S) (r : Option (B × S))
      → m s ≡ some (a, t)
      → f a t ≡ r
      → (m >>= f) s ≡ r
  unfolding ◌>>=◌
  bind_step m f s a t r h e = rw (h, ◌>>=◌) e

module _ {S : Type 0} (reg : Registry S) where
  registry-run :
      {A : Type 0} (m : Exec S A) (b : Bus S) (a : A) (s : S)
      → m b.registry ≡ some (a, s)
      → on_registry reg m b ≡ some (a, record b { registry = s })
  unfolding on_registry
  registry-run m b a s h = rw (h, on_registry) refl

  abbrev pub attached_bus : ℕ → ℕ → S → Bus S → Bus S
  attached_bus c h s b = record {
    registry = s;
    controllers = b.controllers ++ record { ctrl = c; rel = h } ∷ [];
    broadcasts = suc b.broadcasts;
  }

  add-run :
      (c h : ℕ) (b : Bus S) (s : S)
      → reg.add c b.registry ≡ some (added h, s)
      → add_controller_locked reg c b ≡ some (none, attached_bus c h s b)
  unfolding add_controller_locked attach_controller modify pure ◌>>=◌
  add-run c h b s run =
      bind_step (on_registry reg (reg.add c)) _ b (added h) (record b { registry = s }) _
        (registry-run (reg.add c) b (added h) s run) refl

  remove-run :
      (c h : ℕ) (b : Bus S) (s t : S)
      → find_first (is_ctrl c) b.controllers ≡ none
      → reg.release h s ≡ some (tt, t)
      → remove_controller reg c (attached_bus c h s b)
        ≡ some (tt, record b { registry = t; broadcasts = suc (suc b.broadcasts) })
  unfolding remove_controller gets modify skip on_option ◌>>=◌
  remove-run c h b s t new run =
      let a : AttachedController = record { ctrl = c; rel = h } in
      let own = is_ctrl-own c h in
      rw
        (
          find_first-snoc (is_ctrl c) b.controllers a new own,
          swap_remove-snoc (is_ctrl c) b.controllers a new own,
        )
        (bind_step (on_registry reg (reg.release h)) _
          (record b { registry = s; broadcasts = suc b.broadcasts }) tt
          (record b { registry = t; broadcasts = suc b.broadcasts }) _
          (registry-run (reg.release h) (record b { registry = s; broadcasts = suc b.broadcasts })
            tt t run)
          refl)

  -- A controller that is not attached and whose handler can be added and released, added to the
  -- bus and then removed, leaves the list of controllers as it was, and the bus is signalled
  -- twice.
  pub add_controller-remove_controller :
      (c h : ℕ) (b : Bus S) (s t : S)
      → find_first (is_ctrl c) b.controllers ≡ none
      → reg.add c b.registry ≡ some (added h, s)
      → reg.release h s ≡ some (tt, t)
      → (add_controller_locked reg c >>= λ _. remove_controller reg c) b
        ≡ some (tt, record b { registry = t; broadcasts = suc (suc b.broadcasts) })
  add_controller-remove_controller c h b s t new add release =
      bind_step (add_controller_locked reg c) _ b none (attached_bus c h s b) _
        (add-run c h b s add) (remove-run c h b s t new release)

  -- The error of a controller's execution: the one that it returned, or the one that it panicked with,
  -- wrapped, or the error of a panic with a value that is none.
  abbrev pub error_of : Outcome → Option ExecError
  error_of (returns none) = none
  error_of (returns (some e)) = some (own_error e)
  error_of (panics none) = some plain_panic
  error_of (panics (some e)) = some (wrapped_panic e)

  -- The bus after the execution of a controller: still attached if it returned without an error,
  -- removed if not.
  abbrev pub bus_after : ℕ → ℕ → S → S → Bus S → Outcome → Bus S
  bus_after c h s t b (returns none) = attached_bus c h s b
  bus_after c h s t b (returns (some e)) = record b {
    registry = t;
    broadcasts = suc (suc b.broadcasts);
  }
  bus_after c h s t b (panics o) = record b { registry = t; broadcasts = suc (suc b.broadcasts) }
