-- ===== src/Resolvers/Tests.antt =====
-- A handler that counts its ids from 1, and runs of the resolvers with it.
use controllerbus.Common.{
  ℕ, zero, suc, true, false, Option, none, some, [], ◌∷◌, ◌++◌, ◌==◌, length, ◌≡◌, refl, sym, ap,
  subst, ◌∙◌, some_none, arith, last_or, if◌then◌else◌,
}
use controllerbus.Instance.State.{AttachedValue}
use controllerbus.Clients.{value_added, value_removed, instance_disposed}
use controllerbus.UniqueResolver.{ValueHandler}
use controllerbus.UniqueResolver.Synced.{IsTable}
use controllerbus.UniqueResolver.Slots.{
  slot, slots, clear_slot, Slots, some_same, slot-length, slot-snoc, slot-snoc_other, slot-clear,
  slot-clear_other, same_id,
}
use controllerbus.Resolvers.{
  Transformed, watchable_resolve, transform_start, transform_resolver_step, transform_resolver_run,
}
use controllerbus.Resolvers.Watching.{IsHolding, watchable_resolve-IsHolding}
use controllerbus.Resolvers.Transforming.{IsCounting, transform_resolver-released}
use controllerbus.Resolvers.Counting.{count}

abbrev held_under : ℕ → Slots → Option ℕ
held_under zero l = none
held_under (suc i) l = slot i l

abbrev remove_under : ℕ → Slots → Slots
remove_under zero l = l
remove_under (suc i) l = clear_slot i l

abbrev numbered : ValueHandler Slots
numbered = record { add = λ x l. (some (suc (length l)), l ++ some x ∷ []); remove = remove_under }

next_id : (x : ℕ) (s t : Slots) (id : ℕ) → numbered.add x s ≡ (some id, t) → suc (length s) ≡ id
next_id x s t id e = some_same (ap (λ (p : Option ℕ × Slots). p.0) e)

next_list : (x : ℕ) (s t : Slots) (id : ℕ) → numbered.add x s ≡ (some id, t) → s ++ some x ∷ [] ≡ t
next_list x s t id e = ap (λ (p : Option ℕ × Slots). p.1) e

added_other :
    (x : ℕ) (s : Slots) (i : ℕ)
    → (suc (length s) == i) ≡ false
    → held_under i (s ++ some x ∷ []) ≡ held_under i s
added_other x s zero miss = refl
added_other x s (suc i) miss = slot-snoc_other x s i (ground arith)

removed_under : (id : ℕ) (s : Slots) → held_under id (remove_under id s) ≡ none
removed_under zero s = refl
removed_under (suc i) s = slot-clear i s

removed_other :
    (id : ℕ) (s : Slots) (i : ℕ)
    → (id == i) ≡ false
    → held_under i (remove_under id s) ≡ held_under i s
removed_other zero s i miss = refl
removed_other (suc id) s zero miss = refl
removed_other (suc id) s (suc i) miss = slot-clear_other id s i (ground arith)

numbered-IsTable : IsTable numbered held_under
numbered-IsTable = record {
  rejects = λ x s t e i. some_none (ap (λ (p : Option ℕ × Slots). p.0) e);
  accepts_free =
      λ x s t id e. subst (λ (n : ℕ). held_under n s ≡ none) (next_id x s t id e) (slot-length s);
  accepts = λ x s t id e.
      subst (λ (n : ℕ). held_under n t ≡ some x) (next_id x s t id e)
        (subst (λ (l : Slots). slot (length s) l ≡ some x) (next_list x s t id e) (slot-snoc x s));
  accepts_other = λ x s t id e i miss.
      subst (λ (l : Slots). held_under i l ≡ held_under i s) (next_list x s t id e)
        (added_other x s i (subst (λ (n : ℕ). (n == i) ≡ false) (sym (next_id x s t id e)) miss));
  removes = removed_under;
  removes_other = removed_other;
}

numbered_ids : (x : ℕ) (s t : Slots) (id : ℕ) → numbered.add x s ≡ (some id, t) → (id == 0) ≡ false
numbered_ids x s t id e = subst (λ (n : ℕ). (n == 0) ≡ false) (next_id x s t id e) (ground arith)

watchable_resolve-IsHolding_example :
    IsHolding numbered held_under 7
      (watchable_resolve numbered (λ s. []) (5 ∷ 0 ∷ 7 ∷ []) (some 3 ∷ []))
unfolding last_or
watchable_resolve-IsHolding_example =
    watchable_resolve-IsHolding numbered held_under numbered-IsTable numbered_ids (λ s. [])
      (some 3 ∷ []) (5 ∷ 0 ∷ 7 ∷ []) (λ i. none_held i)
  where
    none_held : (i : ℕ) → held_under i [] ≡ none
    none_held zero = refl
    none_held (suc i) = refl

length-snoc : (x : ℕ) (l : Slots) → length (l ++ some x ∷ []) ≡ suc (length l)
length-snoc x [] = refl
length-snoc x (o ∷ l) = ap (λ (n : ℕ). suc n) (length-snoc x l)

length-clear_slot : (i : ℕ) (l : Slots) → length (clear_slot i l) ≡ length l
length-clear_slot i [] = refl
length-clear_slot zero (o ∷ l) = refl
length-clear_slot (suc i) (o ∷ l) = ap (λ (n : ℕ). suc n) (length-clear_slot i l)

slots-IsCounting : IsCounting slots length
slots-IsCounting = record {
  given = λ x s t id e. sym (same_id x s t id e);
  counts = λ x s t id e.
      ap (λ (l : Slots). length l) (sym (ap (λ (p : Option ℕ × Slots). p.1) e)) ∙ length-snoc x s;
  rejects = λ x s t e. some_none (ap (λ (p : Option ℕ × Slots). p.0) e);
  removes = length-clear_slot;
}

-- Each value is emitted, with the release function 20 for the first and 21 for the others.
abbrev emits : AttachedValue → Transformed
emits v = record {
  rval = 4;
  rel = some (if v.attached_id == 1 then 20 else 21);
  is_value = true;
  xfrm_err = none;
}

abbrev value : ℕ → AttachedValue
value id = record { attached_id = id; attached_val = 3 }

transform_resolver-released_example :
    count 21
      (transform_resolver_step slots emits instance_disposed (
        transform_resolver_run slots emits
          (value_added (value 1) ∷ value_added (value 2) ∷ value_removed (value 1) ∷ [])
          (transform_start []))).rel_calls
    ≡ 1
transform_resolver-released_example =
    transform_resolver-released slots length slots-IsCounting emits
      (value_added (value 1) ∷ value_added (value 2) ∷ value_removed (value 1) ∷ []) [] 21
