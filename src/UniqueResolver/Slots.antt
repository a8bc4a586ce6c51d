-- ===== src/UniqueResolver/Slots.antt =====
-- A concrete value handler, a list of slots: the id of a value is its place. It shows that a handler
-- with a table can be.
use controllerbus.Common.{
  ℕ, zero, suc, true, false, Option, none, some, List, [], ◌∷◌, ◌++◌, ◌==◌, length, ◌≡◌, refl, sym,
  ap, subst, some_none, arith,
}
use controllerbus.UniqueResolver.{ValueHandler}
use controllerbus.UniqueResolver.Synced.{IsTable}

abbrev pub slot : ℕ → List (Option ℕ) → Option ℕ
slot i [] = none
slot zero (o ∷ l) = o
slot (suc i) (o ∷ l) = slot i l

abbrev pub clear_slot : ℕ → List (Option ℕ) → List (Option ℕ)
clear_slot i [] = []
clear_slot zero (o ∷ l) = none ∷ l
clear_slot (suc i) (o ∷ l) = o ∷ clear_slot i l

abbrev pub slots : ValueHandler (List (Option ℕ))
slots = record { add = λ x l. (some (length l), l ++ some x ∷ []); remove = clear_slot }

pub false_clash : {C : Type 0} → false ≡ true → C
false_clash e = cc

pub true_clash : {C : Type 0} → true ≡ false → C
true_clash e = cc

pub some_same : {a b : ℕ} → some a ≡ some b → a ≡ b
some_same e = cc

pub slot-length : (l : List (Option ℕ)) → slot (length l) l ≡ none
slot-length [] = refl
slot-length (o ∷ l) = slot-length l

pub slot-snoc : (x : ℕ) (l : List (Option ℕ)) → slot (length l) (l ++ some x ∷ []) ≡ some x
slot-snoc x [] = refl
slot-snoc x (o ∷ l) = slot-snoc x l

pub slot-snoc_other :
    (x : ℕ) (l : List (Option ℕ)) (i : ℕ)
    → (length l == i) ≡ false
    → slot i (l ++ some x ∷ []) ≡ slot i l
slot-snoc_other x [] zero h = true_clash h
slot-snoc_other x [] (suc i) h = refl
slot-snoc_other x (o ∷ l) zero h = refl
slot-snoc_other x (o ∷ l) (suc i) h = slot-snoc_other x l i (ground arith)

pub slot-clear : (i : ℕ) (l : List (Option ℕ)) → slot i (clear_slot i l) ≡ none
slot-clear i [] = refl
slot-clear zero (o ∷ l) = refl
slot-clear (suc i) (o ∷ l) = slot-clear i l

pub slot-clear_other :
    (id : ℕ) (l : List (Option ℕ)) (i : ℕ) → (id == i) ≡ false → slot i (clear_slot id l) ≡ slot i l
slot-clear_other id [] i h = refl
slot-clear_other zero (o ∷ l) zero h = true_clash h
slot-clear_other zero (o ∷ l) (suc i) h = refl
slot-clear_other (suc id) (o ∷ l) zero h = refl
slot-clear_other (suc id) (o ∷ l) (suc i) h = slot-clear_other id l i (ground arith)

abbrev pub Slots : Type 0
Slots = List (Option ℕ)

pub same_id : (x : ℕ) (s t : Slots) (id : ℕ) → slots.add x s ≡ (some id, t) → length s ≡ id
same_id x s t id e = some_same (ap (λ (p : Option ℕ × Slots). p.0) e)

pub slots-IsTable : IsTable slots slot
slots-IsTable = record {
  rejects = λ x s t e i. some_none (ap (λ (p : Option ℕ × Slots). p.0) e);
  accepts_free =
      λ x s t id e. subst (λ (n : ℕ). slot n s ≡ none) (same_id x s t id e) (slot-length s);
  accepts = λ x s t id e.
      subst (λ (n : ℕ). slot n t ≡ some x) (same_id x s t id e)
        (subst (λ (l : Slots). slot (length s) l ≡ some x) (ap (λ (p : Option ℕ × Slots). p.1) e)
          (slot-snoc x s));
  accepts_other = λ x s t id e i miss.
      subst (λ (l : Slots). slot i l ≡ slot i s) (ap (λ (p : Option ℕ × Slots). p.1) e)
        (slot-snoc_other x s i
          (subst (λ (n : ℕ). (n == i) ≡ false) (sym (same_id x s t id e)) miss));
  removes = λ id s. slot-clear id s;
  removes_other = λ id s i miss. slot-clear_other id s i miss;
}
