-- ===== src/ConfigController/Starting.antt =====
-- One round of the loop of controller/configset/controller, as a whole.
use controllerbus.Common.{
  ℕ, Bool, true, false, ◌||◌, Option, List, [], ◌∷◌, ◌==◌, ◌≡◌, refl, sym, ap, ◌∙◌, inl, inr,
  Bool-cases, Option-cases, arith, subst, ==_iff, is_some, lookup, lookup-insert,
  lookup-insert_other,
}
use controllerbus.ConfigController.{ConfigSets}
use controllerbus.ConfigController.Loop.{
  Loop, collect, start_controller, start_missing, execute_round,
}
use controllerbus.ConfigController.Collecting.{
  survivor, Settled, CollectsTo, collect-survivor, collect-Settled, lookup_nil,
}

start_one-sets : (k r : ℕ) (l : Loop) → (start_controller k r l).sets ≡ l.sets
unfolding start_controller
start_one-sets k r l = elim (Option-cases (lookup k l.exec)) [
  | inl absent ↦ rw (absent, start_controller) refl
  | inr (ctx, found) ↦ rw (found, start_controller) refl
]

start-sets : (entries : List (ℕ × ℕ)) (l : Loop) → (start_missing entries l).sets ≡ l.sets
unfolding start_missing
start-sets [] l = refl
start-sets ((k, r) ∷ entries) l = start-sets entries (start_controller k r l) ∙ start_one-sets k r l

or_assoc : (a b c : Bool) → ((a || b) || c) ≡ (a || (b || c))
or_assoc true b c = refl
or_assoc false b c = refl

or_true : (a : Bool) → (a || true) ≡ true
or_true true = refl
or_true false = refl

or_false : (a : Bool) → (a || false) ≡ a
or_false true = refl
or_false false = refl

start_one-hit : (k r : ℕ) (l : Loop) → is_some (lookup k (start_controller k r l).exec) ≡ true
unfolding start_controller
start_one-hit k r l = elim (Option-cases (lookup k l.exec)) [
  | inl absent ↦ rw (absent, start_controller) (ap is_some (lookup-insert k l.next_ctx l.exec))
  | inr (ctx, found) ↦ rw (found, start_controller) (ap is_some found)
]

start_one-miss :
    (k j r : ℕ) (l : Loop)
    → (j == k) ≡ false
    → lookup k (start_controller j r l).exec ≡ lookup k l.exec
unfolding start_controller
start_one-miss k j r l miss = elim (Option-cases (lookup j l.exec)) [
  | inl absent ↦ rw (absent, start_controller) (lookup-insert_other k j l.next_ctx l.exec miss)
  | inr (ctx, found) ↦ rw (found, start_controller) refl
]

start_one-exec :
    (k j r : ℕ) (l : Loop)
    → is_some (lookup k (start_controller j r l).exec) ≡ (is_some (lookup k l.exec) || (j == k))
start_one-exec k j r l = elim (Bool-cases (j == k)) [
  | inl hit ↦
      subst (λ (i : ℕ). is_some (lookup i (start_controller j r l).exec) ≡ true)
        ((==_iff j k).0 hit) (start_one-hit j r l)
      ∙ sym (or_true (is_some (lookup k l.exec)))
      ∙ ap (λ (b : Bool). is_some (lookup k l.exec) || b) (sym hit)
  | inr miss ↦
      ap is_some (start_one-miss k j r l miss)
      ∙ sym (or_false (is_some (lookup k l.exec)))
      ∙ ap (λ (b : Bool). is_some (lookup k l.exec) || b) (sym miss)
]

has_key :
    (k j r : ℕ) (entries : List (ℕ × ℕ))
    → is_some (lookup k ((j, r) ∷ entries)) ≡ ((j == k) || is_some (lookup k entries))
unfolding lookup
has_key k j r entries = ground arith

-- A list of controllers adds its keys to the map.
start-exec :
    (k : ℕ) (entries : List (ℕ × ℕ)) (l : Loop)
    → is_some (lookup k (start_missing entries l).exec)
      ≡ (is_some (lookup k l.exec) || is_some (lookup k entries))
unfolding start_missing
start-exec k [] l =
    sym (or_false (is_some (lookup k l.exec)))
    ∙ ap (λ (o : Option ℕ). is_some (lookup k l.exec) || is_some o) (sym (lookup_nil k))
start-exec k ((j, r) ∷ entries) l =
    start-exec k entries (start_controller j r l)
    ∙ ap (λ (b : Bool). b || is_some (lookup k entries)) (start_one-exec k j r l)
    ∙ or_assoc (is_some (lookup k l.exec)) (j == k) (is_some (lookup k entries))
    ∙ ap (λ (b : Bool). is_some (lookup k l.exec) || b) (sym (has_key k j r entries))

-- After a round a key has the controller that it had, or none if it ran without a reference.
pub execute_round-controllers :
    (k : ℕ) (l : Loop)
    → lookup k (execute_round l).sets.controllers
      ≡ survivor (is_some (lookup k l.exec)) l.sets.rc_at (lookup k l.sets.controllers)
unfolding execute_round CollectsTo
execute_round-controllers k l =
    let woken = record l { sets = record l.sets { woken = false } } in
    let collected = collect l.exec woken in
    ap (λ (s : ConfigSets). lookup k s.controllers)
      (start-sets collected.sets.controllers collected)
    ∙ collect-survivor k l.exec woken

Settled-or :
    (k : ℕ) (l : Loop)
    → Settled k l
    → (is_some (lookup k l.exec) || is_some (lookup k l.sets.controllers))
      ≡ is_some (lookup k l.sets.controllers)
Settled-or k l (inl e) = rw e refl
Settled-or k l (inr e) = rw e (or_true (is_some (lookup k l.exec)))

-- After a round a key runs if and only if it has a controller.
pub execute_round-exec :
    (k : ℕ) (l : Loop)
    → is_some (lookup k (execute_round l).exec)
      ≡ is_some (lookup k (execute_round l).sets.controllers)
unfolding execute_round
execute_round-exec k l =
    let woken = record l { sets = record l.sets { woken = false } } in
    let collected = collect l.exec woken in
    start-exec k collected.sets.controllers collected
    ∙ Settled-or k collected (collect-Settled k l.exec woken (λ e. inl e))
    ∙ ap (λ (s : ConfigSets). is_some (lookup k s.controllers))
        (sym (start-sets collected.sets.controllers collected))
