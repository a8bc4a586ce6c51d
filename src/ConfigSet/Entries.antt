-- ===== src/ConfigSet/Entries.antt =====
-- What an entry and a set change of the config under a key: controller/configset/configset.go.
use controllerbus.Common.{
  ℕ, true, false, Option, none, some, List, [], ◌∷◌, ltb, ◌==◌, if◌then◌else◌, lookup, insert,
  Distinct, lookup-insert, lookup-insert_other, lookup-tail, ◌≡◌, refl, sym, ap, ◌∙◌, Bool-cases,
  ==_iff, inl, inr, subst,
}
use controllerbus.ConfigSet.{ControllerConfig, ConfigSet, merge_entry, merge_set}

-- The config that a set holds under a key.
abbrev pub held : ℕ → ConfigSet → Option ControllerConfig
held k set = elim (lookup k set) [ none ↦ none | some v ↦ v ]

-- Of two configs the later counts, unless the other has a higher revision.
abbrev pub newer : Option ControllerConfig → Option ControllerConfig → Option ControllerConfig
newer o none = o
newer none (some v) = some v
newer (some w) (some v) = if ltb v.rev w.rev then some w else some v

merge_entry-same :
    (out : List (ℕ × ControllerConfig)) (k : ℕ) (v : Option ControllerConfig)
    → lookup k (merge_entry out k v) ≡ newer (lookup k out) v
unfolding merge_entry
merge_entry-same out k none = refl
merge_entry-same out k (some v) = go (lookup k out) refl
  where
    go :
        (o : Option ControllerConfig)
        → lookup k out ≡ o
        → lookup k (elim o [
          | none ↦ insert k v out
          | some existing ↦ if ltb v.rev existing.rev then out else insert k v out
        ])
          ≡ newer o (some v)
    go none e = lookup-insert k v out
    go (some w) e = elim (Bool-cases (ltb v.rev w.rev)) [
      | inl lower ↦ rw lower e
      | inr higher ↦ rw higher (lookup-insert k v out)
    ]

merge_entry-other :
    (out : List (ℕ × ControllerConfig)) (i k : ℕ) (v : Option ControllerConfig)
    → (k == i) ≡ false
    → lookup i (merge_entry out k v) ≡ lookup i out
unfolding merge_entry
merge_entry-other out i k none h = refl
merge_entry-other out i k (some v) h = go (lookup k out)
  where
    go :
        (o : Option ControllerConfig)
        → lookup i (elim o [
          | none ↦ insert k v out
          | some existing ↦ if ltb v.rev existing.rev then out else insert k v out
        ])
          ≡ lookup i out
    go none = lookup-insert_other i k v out h
    go (some w) = elim (Bool-cases (ltb v.rev w.rev)) [
      | inl lower ↦ rw lower refl
      | inr higher ↦ rw higher (lookup-insert_other i k v out h)
    ]

pub same_some : {w v : ControllerConfig} → some w ≡ some v → w ≡ v
same_some e = cc

merge_set-absent :
    (k : ℕ) (out : List (ℕ × ControllerConfig)) (set : ConfigSet)
    → lookup k set ≡ none
    → lookup k (merge_set out set) ≡ lookup k out
unfolding merge_set
merge_set-absent k out [] h = refl
merge_set-absent k out ((j, v) ∷ set) h =
    let (miss, h') = lookup-tail k j v set h in
    merge_set-absent k (merge_entry out j v) set h' ∙ merge_entry-other out k j v miss

held_nil : (k : ℕ) → held k [] ≡ none
unfolding lookup
held_nil k = refl

held-hit :
    (k j : ℕ) (v : Option ControllerConfig) (set : ConfigSet)
    → (j == k) ≡ true
    → held k ((j, v) ∷ set) ≡ v
unfolding lookup
held-hit k j v set hit = rw (hit, held) refl

held-miss :
    (k j : ℕ) (v : Option ControllerConfig) (set : ConfigSet)
    → (j == k) ≡ false
    → held k ((j, v) ∷ set) ≡ held k set
unfolding lookup
held-miss k j v set miss = rw (miss, held) refl

pub merge_set-lookup :
    (k : ℕ) (out : List (ℕ × ControllerConfig)) (set : ConfigSet)
    → Distinct set
    → lookup k (merge_set out set) ≡ newer (lookup k out) (held k set)
unfolding merge_set
merge_set-lookup k out [] d = ap (newer (lookup k out)) (sym (held_nil k))
merge_set-lookup k out ((j, v) ∷ set) d = elim (Bool-cases (j == k)) [
  | inl hit ↦
      merge_set-absent k (merge_entry out j v) set
        (subst (λ (i : ℕ). lookup i set ≡ none) ((==_iff j k).0 hit) d.0)
      ∙ subst (λ (i : ℕ). lookup i (merge_entry out j v) ≡ newer (lookup i out) v)
          ((==_iff j k).0 hit) (merge_entry-same out j v)
      ∙ ap (newer (lookup k out)) (sym (held-hit k j v set hit))
  | inr miss ↦
      merge_set-lookup k (merge_entry out j v) set d.1
      ∙ ap (λ (o : Option ControllerConfig). newer o (held k set))
          (merge_entry-other out k j v miss)
      ∙ ap (newer (lookup k out)) (sym (held-miss k j v set miss))
]
