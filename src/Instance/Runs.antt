-- ===== src/Instance/Runs.antt =====
-- Runs of an instance: any sequence of the calls that clients, resolvers, timers and the controller
-- make, with whatever the callbacks do on the way.
use controllerbus.Common.{
  ℕ, ◌+◌, ◌<◌, ◌^◌, ◌≡◌, refl, Bool, true, false, Option, some, List, [], ◌∷◌, if◌then◌else◌, inl,
  inr, Bool-cases, arith,
}
use controllerbus.Common.Exec.{Exec, Keeps, modify, ◌>>◌}
use controllerbus.Common.Exec.Rules.{Keeps-modify, keeps_rules}
use controllerbus.Instance.State.{Instance, CallbackEvent, DirRef}
use controllerbus.Instance.Callbacks.{Outside}
use controllerbus.Instance.Notify.{handle_idle_state_locked}
use controllerbus.Instance.Capacity.{attach_start_resolver_locked}
use controllerbus.Instance.Lifecycle.{
  any_non_weak_refs, remove_handler_locked, destroy_timer_fired, add_reference_locked, release,
}
use controllerbus.Instance.Handlers.{
  ResolverHandler, release_value_removed_callback, release_resolver_removed_callback, add_value,
  remove_value, mark_idle, clear_values, add_value_removed_callback, add_resolver_removed_callback,
  add_resolver, release_sub_resolver, resolver_exited,
}
use controllerbus.Instance.Api.{
  release_dispose_callback, release_idle_callback, release_state_callback, add_dispose_callback,
  add_idle_callback, add_state_callback, close, close_if_unreferenced,
}
use controllerbus.Instance.Invariant.{WellFormed, WeakFirst, AllStrong}
use controllerbus.Instance.Invariant.Idle.{handle_idle-WellFormed, attach_start-WellFormed}
use controllerbus.Instance.Invariant.Removal.{remove_resolver-WellFormed}
use controllerbus.Instance.Invariant.References.{
  remove_handler-WellFormed, timer_fired-WellFormed, add_reference-WellFormed, release-WellFormed,
}
use controllerbus.Instance.Invariant.Methods

-- AddDirective marks the instance ready once the handlers have been asked.
unfoldable pub become_ready : Outside → Exec Instance (Unit {0})
become_ready out = do modify (λ s. record s { ready = true }); handle_idle_state_locked out

-- One call ends, from the first state in the second.
pub data Step (out : Outside) (s t : Instance) : Type 0 where
  adds_reference :
      (h : Option ℕ) (weak : Bool) (ref : DirRef)
      → add_reference_locked out h weak s ≡ some (ref, t)
      → Step out s t
  releases : (k : ℕ) → release out k s ≡ some (tt, t) → Step out s t
  timer_fires : (k : ℕ) → destroy_timer_fired out k s ≡ some (tt, t) → Step out s t
  attaches :
      (hnd res r : ℕ) → attach_start_resolver_locked out hnd res [] s ≡ some (r, t) → Step out s t
  removes_handler : (hnd : ℕ) → remove_handler_locked out hnd s ≡ some (tt, t) → Step out s t
  gets_ready : become_ready out s ≡ some (tt, t) → Step out s t
  adds_value :
      (h : ResolverHandler) (val : ℕ) (r : ℕ × Bool)
      → s.val_ctr + 1 < 2 ^ 32
      → add_value out h val s ≡ some (r, t)
      → Step out s t
  removes_value :
      (h : ResolverHandler) (vid : ℕ) (r : Option ℕ)
      → remove_value out h vid s ≡ some (r, t)
      → Step out s t
  marks_idle : (h : ResolverHandler) (b : Bool) → mark_idle out h b s ≡ some (tt, t) → Step out s t
  clears_values :
      (h : ResolverHandler) (r : List ℕ) → clear_values out h s ≡ some (r, t) → Step out s t
  watches_value :
      (h : ResolverHandler) (vid : ℕ) (cb r : Option ℕ)
      → add_value_removed_callback out h vid cb s ≡ some (r, t)
      → Step out s t
  unwatches_value :
      (r vid k : ℕ) → release_value_removed_callback r vid k s ≡ some (tt, t) → Step out s t
  watches_resolver :
      (h : ResolverHandler) (cb r : Option ℕ)
      → add_resolver_removed_callback out h cb s ≡ some (r, t)
      → Step out s t
  unwatches_resolver :
      (r k : ℕ) → release_resolver_removed_callback r k s ≡ some (tt, t) → Step out s t
  adds_resolver :
      (h : ResolverHandler) (res cb r : Option ℕ)
      → add_resolver out h res cb s ≡ some (r, t)
      → Step out s t
  removes_resolver : (sub : ℕ) → release_sub_resolver out sub s ≡ some (tt, t) → Step out s t
  exits :
      (h : ResolverHandler) (err : Option ℕ)
      → resolver_exited out h err s ≡ some (tt, t)
      → Step out s t
  adds_dispose :
      (cb : ℕ) (r : Option ℕ) → add_dispose_callback out cb s ≡ some (r, t) → Step out s t
  adds_idle : (cb : Option ℕ) (r : ℕ) → add_idle_callback out cb s ≡ some (r, t) → Step out s t
  adds_state : (cb : Option ℕ) (r : ℕ) → add_state_callback out cb s ≡ some (r, t) → Step out s t
  drops_dispose : (k : ℕ) → release_dispose_callback k s ≡ some (tt, t) → Step out s t
  drops_idle : (k : ℕ) → release_idle_callback k s ≡ some (tt, t) → Step out s t
  drops_state : (k : ℕ) → release_state_callback k s ≡ some (tt, t) → Step out s t
  closes : close out s ≡ some (tt, t) → Step out s t
  closes_unreferenced : (b r : Bool) → close_if_unreferenced out b s ≡ some (r, t) → Step out s t

pub data Run (out : Outside) (s : Instance) : Instance → Type 0 where
  here : Run out s s
  next : {t u : Instance} → Run out s t → Step out t u → Run out s u

module _ (out : Outside) (outside : (e : CallbackEvent) → Keeps WellFormed (out.invoke e)) where
  ready-WellFormed : Keeps WellFormed (become_ready out)
  unfolding become_ready
  ready-WellFormed = search (keeps_rules, outside, Keeps-modify, handle_idle-WellFormed) depth 20

  sub-WellFormed : (sub : ℕ) → Keeps WellFormed (release_sub_resolver out sub)
  unfolding release_sub_resolver
  sub-WellFormed sub = remove_resolver-WellFormed out outside sub

  Step-WellFormed : {s t : Instance} → Step out s t → WellFormed s → WellFormed t
  Step-WellFormed (adds_reference h weak ref e) p =
      (add_reference-WellFormed out outside h weak).at _ _ e p
  Step-WellFormed (releases k e) p = (release-WellFormed out outside k).at _ _ e p
  Step-WellFormed (timer_fires k e) p = (timer_fired-WellFormed out outside k).at _ _ e p
  Step-WellFormed (attaches hnd res r e) p =
      (attach_start-WellFormed out outside hnd res []).at _ _ e p
  Step-WellFormed (removes_handler hnd e) p = (remove_handler-WellFormed out outside hnd).at _ _ e p
  Step-WellFormed (gets_ready e) p = ready-WellFormed.at _ _ e p
  Step-WellFormed (adds_value h val r room e) p =
      Methods.add_value-WellFormed out outside h val _ _ e room p
  Step-WellFormed (removes_value h vid r e) p =
      (Methods.remove_value_handler-WellFormed out outside h vid).at _ _ e p
  Step-WellFormed (marks_idle h b e) p = (Methods.mark_idle-WellFormed out outside h b).at _ _ e p
  Step-WellFormed (clears_values h r e) p =
      (Methods.clear_handler-WellFormed out outside h).at _ _ e p
  Step-WellFormed (watches_value h vid cb r e) p =
      (Methods.add_value_removed-WellFormed out outside h vid cb).at _ _ e p
  Step-WellFormed (unwatches_value r vid k e) p =
      (Methods.release_callback-WellFormed r vid k).at _ _ e p
  Step-WellFormed (watches_resolver h cb r e) p =
      (Methods.add_resolver_removed-WellFormed out outside h cb).at _ _ e p
  Step-WellFormed (unwatches_resolver r k e) p = (Methods.release_removed-WellFormed r k).at _ _ e p
  Step-WellFormed (adds_resolver h res cb r e) p =
      (Methods.add_resolver-WellFormed out outside h res cb).at _ _ e p
  Step-WellFormed (removes_resolver sub e) p = (sub-WellFormed sub).at _ _ e p
  Step-WellFormed (exits h err e) p =
      (Methods.resolver_exited-WellFormed out outside h err).at _ _ e p
  Step-WellFormed (adds_dispose cb r e) p =
      (Methods.add_dispose-WellFormed out outside cb).at _ _ e p
  Step-WellFormed (adds_idle cb r e) p = (Methods.add_idle-WellFormed out outside cb).at _ _ e p
  Step-WellFormed (adds_state cb r e) p = (Methods.add_state-WellFormed out outside cb).at _ _ e p
  Step-WellFormed (drops_dispose k e) p = (Methods.release_dispose-WellFormed k).at _ _ e p
  Step-WellFormed (drops_idle k e) p = (Methods.release_idle-WellFormed k).at _ _ e p
  Step-WellFormed (drops_state k e) p = (Methods.release_state-WellFormed k).at _ _ e p
  Step-WellFormed (closes e) p = (Methods.close-WellFormed out outside).at _ _ e p
  Step-WellFormed (closes_unreferenced b r e) p =
      (Methods.close_if-WellFormed out outside b).at _ _ e p

  -- From an instance of which this holds, after any calls, in any order, with callbacks that
  -- keep it: weak references come first, resolvers and the values of each resolver are in the
  -- order of their ids, and with a hard cap no more values are attached than it allows, as long
  -- as the value counter does not wrap.
  pub Run-WellFormed : (s t : Instance) → WellFormed s → Run out s t → WellFormed t
  Run-WellFormed s t p here = p
  Run-WellFormed s t p (next r st) = Step-WellFormed st (Run-WellFormed s _ p r)

-- The check of the last reference alone tells whether any reference is strong.
abbrev pub has_strong : List DirRef → Bool
has_strong [] = false
has_strong (r ∷ refs) = if r.weak then has_strong refs else true

AllStrong-any :
    (r : DirRef) (refs : List DirRef) → AllStrong (r ∷ refs) → any_non_weak_refs (r ∷ refs) ≡ true
unfolding any_non_weak_refs
AllStrong-any r [] h = rw h.0
AllStrong-any r (q ∷ refs) h = AllStrong-any q refs h.1

any-has_strong : (refs : List DirRef) → WeakFirst refs → any_non_weak_refs refs ≡ has_strong refs
unfolding any_non_weak_refs
any-has_strong [] h = refl
any-has_strong (r ∷ []) h = ground arith
any-has_strong (r ∷ q ∷ refs) h = elim (Bool-cases r.weak) [
  | inl w ↦ rw w (any-has_strong (q ∷ refs) (rw w at h))
  | inr w ↦ rw w (AllStrong-any q refs (rw w at h))
]

-- After any run from a well-formed instance, with callbacks that keep it so, looking at the last
-- reference alone, as the code does, tells whether any of the references is strong.
pub Run-any_non_weak_refs :
    (out : Outside)
    → ((e : CallbackEvent) → Keeps WellFormed (out.invoke e))
    → (s t : Instance) → WellFormed s
    → Run out s t
    → any_non_weak_refs t.refs ≡ has_strong t.refs
Run-any_non_weak_refs out outside s t p r =
    any-has_strong t.refs (Run-WellFormed out outside s t p r).weak_first
