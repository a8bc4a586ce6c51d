-- ===== src/Clients/Collect/Collected.antt =====
-- ExecCollectValuesWithFilter of bus/multi.go returns the values that are held.
use controllerbus.Common.{
  ℕ, Bool, false, not, ◌&&◌, Option, none, some, List, [], ◌∷◌, ◌++◌, is_empty, if◌then◌else◌, ◌≡◌,
  ◌⊎◌, ◌||◌, refl, sym, ap, ◌∙◌, subst, inl, inr, Bool-cases, Option-cases, arith,
}
use mathlib.Core.List.{Perm}
use mathlib.Core.List.Perm
use controllerbus.Instance.State.{AttachedValue}
use controllerbus.Clients.{
  ClientEvent, value_added, value_removed, instance_disposed, mark, IsFresh,
}
use controllerbus.Clients.Select.{delete_value_id}
use controllerbus.Clients.Collect.{
  CollectState, CollectEvent, CollectResult, handler_called, idle_called, looks, ctx_done,
  collected, failed, start, filter_value, collect_step, collect_idle, collect_look,
  exec_collect_values,
}
use controllerbus.Clients.Collect.Removal.{ids_count, ids_of}
use controllerbus.Clients.Collect.Holds.{
  Holds, vals_of, takes, alike-Holds, kept_free, collect_value-Holds, remove_collected-Holds,
}

module _ (is_t : ℕ → Bool) (filter_cb : Option (ℕ → Bool × Option ℕ)) where
  -- The values of the type that the filter takes, added and not removed since.
  abbrev pub held : List AttachedValue → List ClientEvent → List AttachedValue
  held h [] = h
  held h (value_added v ∷ evs) =
      held
        (if is_t v.attached_val
          then (if takes (filter_value filter_cb v.attached_val) then h ++ v ∷ [] else h)
          else h)
        evs
  held h (value_removed v ∷ evs) =
      held (if is_t v.attached_val then delete_value_id v.attached_id h else h) evs
  held h (instance_disposed ∷ evs) = held h evs

  -- The calls of the handler among the events.
  abbrev pub handler_events : List CollectEvent → List ClientEvent
  handler_events [] = []
  handler_events (handler_called ev ∷ evs) = ev ∷ handler_events evs
  handler_events (idle_called is_idle errs ∷ evs) = handler_events evs
  handler_events (looks ∷ evs) = handler_events evs
  handler_events (ctx_done ∷ evs) = handler_events evs

  pub step-Holds :
      (live : ℕ → Option ℕ) (h : List AttachedValue) (ev : ClientEvent) (evs : List ClientEvent)
      → (s : CollectState) → IsFresh live (ev ∷ evs)
      → Holds is_t live h s
      → (live' : ℕ → Option ℕ) × IsFresh live' evs
        × Holds is_t live' (held h (ev ∷ [])) (collect_step is_t filter_cb ev s)
  unfolding collect_step
  step-Holds live h (value_added v) evs s fresh p = (
    mark live v.attached_id (some v.attached_val),
    fresh.1,
    elim (Bool-cases (is_t v.attached_val)) [
      | inl typed ↦ rw typed (collect_value-Holds is_t live h v _ s typed fresh.0 p)
      | inr other ↦ rw other (
          alike-Holds is_t live _ h s s p
            (kept_free is_t live h _ _ s p (p.free _ (rw fresh.0 refl))) refl refl refl)
    ],
  )
  step-Holds live h (value_removed v) evs s fresh p = (
    mark live v.attached_id none,
    fresh.1,
    elim (Bool-cases (is_t v.attached_val)) [
      | inl typed ↦ rw typed (remove_collected-Holds is_t live h v.attached_id s p)
      | inr other ↦ rw other (
          alike-Holds is_t live _ h s s p
            (kept_free is_t live h _ _ s p (p.free _ (rw fresh.0 other))) refl refl refl)
    ],
  )
  step-Holds live h instance_disposed evs s fresh p = absurd fresh

module _ (wait_one : Bool) where
  -- What a look can find.
  look-cases :
      (s : CollectState)
      → ((err : ℕ) × ((collect_look wait_one s).0 ≡ some (failed s.vals err)))
        ⊎ (((collect_look wait_one s).0 ≡ some (collected s.vals))
            ⊎ (((collect_look wait_one s).0 ≡ none)
                × ((collect_look wait_one s).1 ≡ record s { returned = false })))
  unfolding collect_look
  look-cases s = elim (Option-cases s.res_err) [
    | inr (err, e) ↦ inl (err, rw e refl)
    | inl none_ ↦ elim (Bool-cases (s.idle && (not wait_one || not (is_empty s.vals)))) [
      | inl ready ↦ inr (inl (rw none_ (rw ready refl)))
      | inr waits ↦ inr (inr (rw none_ (rw waits refl), rw none_ (rw waits refl)))
    ]
  ]

module _ (is_t : ℕ → Bool) (filter_cb : Option (ℕ → Bool × Option ℕ)) (wait_one : Bool) where
  -- There is a look before which the values of the handler's calls are held.
  abbrev pub HeldAt : List AttachedValue → List CollectEvent → List ℕ → Type 0
  HeldAt h evs vals =
      (before : List CollectEvent) × (after : List CollectEvent) × (evs ≡ before ++ looks ∷ after)
      × Perm vals (vals_of (held is_t filter_cb h (handler_events is_t filter_cb before)))

  later :
      (h h' : List AttachedValue) (ev : CollectEvent) (evs : List CollectEvent) (vals : List ℕ)
      → ((before : List CollectEvent)
          → held is_t filter_cb h (handler_events is_t filter_cb (ev ∷ before))
            ≡ held is_t filter_cb h' (handler_events is_t filter_cb before))
      → HeldAt h' evs vals
      → HeldAt h (ev ∷ evs) vals
  later h h' ev evs vals same (before, after, e, p) = (
    ev ∷ before,
    after,
    ap (λ (l : List CollectEvent). ev ∷ l) e,
    subst (λ (l : List AttachedValue). Perm vals (vals_of l)) (sym (same before)) p,
  )

  collected-eq : {xs ys : List ℕ} → some (collected xs) ≡ some (collected ys) → xs ≡ ys
  collected-eq e = cc

  no-result : {C : Type 0} {r : CollectResult} → none ≡ some r → C
  no-result e = cc

  not-collected :
      {C : Type 0} {xs ys : List ℕ} {err : ℕ} → some (failed xs err) ≡ some (collected ys) → C
  not-collected e = cc

  run-held :
      (evs : List CollectEvent) (h : List AttachedValue) (live : ℕ → Option ℕ) (s : CollectState)
      → (vals : List ℕ) → IsFresh live (handler_events is_t filter_cb evs)
      → Holds is_t live h s
      → exec_collect_values is_t filter_cb wait_one evs s ≡ some (collected vals)
      → HeldAt h evs vals
  unfolding exec_collect_values collect_idle
  run-held [] h live s vals fresh p e = no-result e
  run-held (handler_called (value_added v) ∷ evs) h live s vals fresh p e =
      let (live', fresh', p') = step-Holds is_t filter_cb live h (value_added v) _ s fresh p in
      later h _ _ evs vals (λ before. refl) (run-held evs _ live' _ vals fresh' p' e)
  run-held (handler_called (value_removed v) ∷ evs) h live s vals fresh p e =
      let (live', fresh', p') = step-Holds is_t filter_cb live h (value_removed v) _ s fresh p in
      later h _ _ evs vals (λ before. refl) (run-held evs _ live' _ vals fresh' p' e)
  run-held (handler_called instance_disposed ∷ evs) h live s vals fresh p e = absurd fresh
  run-held (idle_called is_idle errs ∷ evs) h live s vals fresh p e =
      later h h _ evs vals (λ before. refl)
        (run-held evs h live _ vals fresh (alike-Holds is_t live live h s _ p p.free refl refl refl)
          e)
  run-held (ctx_done ∷ evs) h live s vals fresh p e = not-collected e
  run-held (looks ∷ evs) h live s vals fresh p e = elim (look-cases wait_one s) [
    | inl (err, found) ↦ not-collected (rw (found, exec_collect_values) at e)
    | inr (inl found) ↦
        let same = collected-eq (rw (found, exec_collect_values) at e) in
        (
          [],
          evs,
          refl,
          subst (λ (l : List ℕ). Perm l (vals_of h)) (sym p.vals_are ∙ same)
              (Perm.map (λ (v : AttachedValue). v.attached_val) p.same),
        )
    | inr (inr (waits, left)) ↦
        later h h _ evs vals (λ before. refl)
          (run-held evs h live (record s { returned = false }) vals fresh
            (alike-Holds is_t live live h s _ p p.free refl refl (sym p.open_))
            (rw left at (rw (waits, exec_collect_values) at e)))
  ]

  -- If the function returns values, then there was a look of the loop such that they are, up to
  -- order, the values of the type that the filter takes and that were added and not removed
  -- before it, where the instance adds no value under an id in use and removes it as it was
  -- added.
  pub collect-held :
      (evs : List CollectEvent) (vals : List ℕ)
      → IsFresh (λ id. none) (handler_events is_t filter_cb evs)
      → exec_collect_values is_t filter_cb wait_one evs start ≡ some (collected vals)
      → HeldAt [] evs vals
  unfolding start ids_of ids_count
  collect-held evs vals fresh e =
      run-held evs [] (λ id. none) start vals fresh
        (record {
          items = [];
          vals_are = refl;
          ids_are = refl;
          same = Perm.nil;
          once = λ k. omega arith;
          free = λ k h. refl;
          open_ = refl;
        })
        e
