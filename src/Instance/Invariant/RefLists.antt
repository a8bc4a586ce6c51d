-- ===== src/Instance/Invariant/RefLists.antt =====
-- The list of references stays ordered, weak ones first (directive/controller/instance.go).
use controllerbus.Common.{
  ℕ, ◌≡◌, refl, Bool, true, false, Option, List, [], ◌∷◌, ◌++◌, arith, inl, inr, Bool-cases, ◌==◌,
  if◌then◌else◌,
}
use controllerbus.Instance.State.{Instance, DirRef}
use controllerbus.Instance.Lifecycle.{without_ref}
use controllerbus.Instance.Invariant.{AllStrong, WeakFirst, WellFormed, if-pick}

AllStrong-snoc :
    (refs : List DirRef) (ref : DirRef)
    → ref.weak ≡ false
    → AllStrong refs
    → AllStrong (refs ++ ref ∷ [])
AllStrong-snoc [] ref e h = (e, tt)
AllStrong-snoc (r ∷ refs) ref e h = (h.0, AllStrong-snoc refs ref e h.1)

WeakFirst-snoc :
    (refs : List DirRef) (ref : DirRef)
    → ref.weak ≡ false
    → WeakFirst refs
    → WeakFirst (refs ++ ref ∷ [])
WeakFirst-snoc [] ref e h = ground arith
WeakFirst-snoc (r ∷ refs) ref e h = elim (Bool-cases r.weak) [
  | inl w ↦ rw w (WeakFirst-snoc refs ref e (rw w at h))
  | inr w ↦ rw w (AllStrong-snoc refs ref e (rw w at h))
]

abbrev pub new_ref : ℕ → Bool → Option ℕ → DirRef
new_ref k weak h = record { ref_id = k; weak = weak; ref_handler = h }

insert_ref-WeakFirst :
    (k : ℕ) (weak : Bool) (h : Option ℕ) (refs : List DirRef)
    → WeakFirst refs
    → WeakFirst (if weak then new_ref k weak h ∷ refs else refs ++ new_ref k weak h ∷ [])
insert_ref-WeakFirst k true h refs p = p
insert_ref-WeakFirst k false h refs p = WeakFirst-snoc refs (new_ref k false h) refl p

-- A weak reference goes to the front and a strong one to the end.
pub insert_ref-WellFormed :
    (k : ℕ) (weak : Bool) (h : Option ℕ) (s : Instance)
    → WellFormed s
    → WellFormed (record s {
      refs = if weak then new_ref k weak h ∷ s.refs else s.refs ++ new_ref k weak h ∷ [];
    })
insert_ref-WellFormed k weak h s p = record {
  weak_first = insert_ref-WeakFirst k weak h s.refs p.weak_first;
  resolvers_sorted = p.resolvers_sorted;
  values_sorted = p.values_sorted;
  within_cap = p.within_cap;
}

AllStrong-WeakFirst : (refs : List DirRef) → AllStrong refs → WeakFirst refs
AllStrong-WeakFirst [] h = tt
AllStrong-WeakFirst (r ∷ refs) h = rw h.0 h.1

without_ref-AllStrong :
    (k : ℕ) (refs : List DirRef) → AllStrong refs → AllStrong (without_ref k refs)
unfolding without_ref
without_ref-AllStrong k [] h = tt
without_ref-AllStrong k (r ∷ refs) h = ground (arith, without_ref-AllStrong k refs h.1)

without_ref-WeakFirst :
    (k : ℕ) (refs : List DirRef) → WeakFirst refs → WeakFirst (without_ref k refs)
unfolding without_ref
without_ref-WeakFirst k [] h = tt
without_ref-WeakFirst k (r ∷ refs) h = elim (Bool-cases r.weak) [
  | inl w ↦
      if-pick WeakFirst (r.ref_id == k) refs (r ∷ without_ref k refs) (rw w at h)
        (rw w (without_ref-WeakFirst k refs (rw w at h)))
  | inr w ↦
      if-pick WeakFirst (r.ref_id == k) refs (r ∷ without_ref k refs)
        (AllStrong-WeakFirst refs (rw w at h)) (rw w (without_ref-AllStrong k refs (rw w at h)))
]

pub without_ref-WellFormed :
    (k : ℕ) (s : Instance) → WellFormed s → WellFormed (record s { refs = without_ref k s.refs })
without_ref-WellFormed k s p = record {
  weak_first = without_ref-WeakFirst k s.refs p.weak_first;
  resolvers_sorted = p.resolvers_sorted;
  values_sorted = p.values_sorted;
  within_cap = p.within_cap;
}

pub no_refs-WellFormed : (s : Instance) → WellFormed s → WellFormed (record s { refs = [] })
no_refs-WellFormed s p = record {
  weak_first = tt;
  resolvers_sorted = p.resolvers_sorted;
  values_sorted = p.values_sorted;
  within_cap = p.within_cap;
}
