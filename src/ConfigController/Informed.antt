-- ===== src/ConfigController/Informed.antt =====
-- The callbacks of the references of a running controller, running-ctrl.go and running-ctrl-ref.go: the
-- states that they were last called with.
use controllerbus.Common.{
  ℕ, Bool, true, false, ◌&&◌, Option, none, some, List, [], ◌∷◌, ◌++◌, ◌==◌, if◌then◌else◌, ◌≡◌,
  ◌≢◌, ◌⊎◌, refl, sym, ap, ◌∙◌, subst, inl, inr, Bool-cases, ==_iff, ==_refl,
}
use controllerbus.ConfigController.{
  ConfigSets, RunningState, RunningController, RunningRef, same_option, state_equals, put_rc, calls,
  push_ref_state, push_to_refs, push_state,
}
use controllerbus.ConfigController.Loop.{set_state}

same_option-eq : (a b : Option ℕ) → same_option a b ≡ true → a ≡ b
same_option-eq none none h = refl
same_option-eq none (some b) h = cc
same_option-eq (some a) none h = cc
same_option-eq (some a) (some b) h = ap some ((==_iff a b).0 h)

and_both : (a b : Bool) → (a && b) ≡ true → (a ≡ true) × (b ≡ true)
and_both true b h = (refl, h)
and_both false b h = cc

state_equals-eq : (a b : RunningState) → state_equals a b ≡ true → a ≡ b
unfolding state_equals
state_equals-eq a b h =
    let (h', x) = and_both _ _ h in
    let (h'', c) = and_both _ _ h' in
    let (i, e) = and_both _ _ h'' in
    let id_eq = (==_iff a.state_id b.state_id).0 i in
    let err_eq = same_option-eq a.state_err b.state_err e in
    let conf_eq = same_option-eq a.state_conf b.state_conf c in
    let ctrl_eq = same_option-eq a.state_ctrl b.state_ctrl x in
    λ i. record {
      state_id = id_eq i;
      state_err = err_eq i;
      state_conf = conf_eq i;
      state_ctrl = ctrl_eq i;
    }

-- The state that a callback was last called with, if it was called.
unfoldable pub last_call : ℕ → List (ℕ × RunningState) → Option RunningState → Option RunningState
last_call cb [] o = o
last_call cb (c ∷ log) o = last_call cb log (if c.0 == cb then some c.1 else o)

-- The callback is one of those in the list.
abbrev pub Among : ℕ → List ℕ → Type 0
Among cb [] = ⊥
Among cb (c ∷ cbs) = (c ≡ cb) ⊎ Among cb cbs

-- Every callback of the references was last called with the state.
abbrev pub Told : (ℕ → RunningRef) → List (ℕ × RunningState) → List ℕ → RunningState → Type 0
Told ref_at log fs st =
    (f cb : ℕ) → Among f fs → Among cb (ref_at f).cbs → last_call cb log none ≡ some st

-- The state of the controller is the one that was emitted last, and every callback of its references was
-- last called with it.
abbrev pub IsInformed : (ℕ → RunningRef) → List (ℕ × RunningState) → RunningController → Type 0
IsInformed ref_at log c = (c.prev_emitted ≡ c.state) × Told ref_at log c.refs c.state

abbrev pub Informed : ℕ → ConfigSets → Type 0
Informed r s = IsInformed s.ref_at s.pushed (s.rc_at r)

-- Or nothing was emitted yet: the emitted state has another id.
abbrev pub Ready : ℕ → ConfigSets → Type 0
Ready r s = Informed r s ⊎ ((s.rc_at r).prev_emitted.state_id ≢ (s.rc_at r).state.state_id)

last_call-append :
    (cb : ℕ) (xs ys : List (ℕ × RunningState)) (o : Option RunningState)
    → last_call cb (xs ++ ys) o ≡ last_call cb ys (last_call cb xs o)
unfolding last_call
last_call-append cb [] ys o = refl
last_call-append cb (c ∷ xs) ys o = last_call-append cb xs ys (if c.0 == cb then some c.1 else o)

-- A callback that was called with the state stays so through more calls with it.
calls-keep :
    (cb : ℕ) (st : RunningState) (cbs : List ℕ) → last_call cb (calls cbs st) (some st) ≡ some st
unfolding calls last_call
calls-keep cb st [] = refl
calls-keep cb st (c ∷ cbs) =
    ap (last_call cb (calls cbs st)) (same_either (c == cb)) ∙ calls-keep cb st cbs
  where
    same_either : (b : Bool) → (if b then some st else some st) ≡ some st
    same_either true = refl
    same_either false = refl

calls-reach :
    (cb : ℕ) (st : RunningState) (cbs : List ℕ) (o : Option RunningState)
    → Among cb cbs
    → last_call cb (calls cbs st) o ≡ some st
unfolding calls last_call
calls-reach cb st [] o h = absurd h
calls-reach cb st (c ∷ cbs) o (inl here) =
    ap (λ (b : Bool). last_call cb (calls cbs st) (if b then some st else o)) ((==_iff c cb).1 here)
    ∙ calls-keep cb st cbs
calls-reach cb st (c ∷ cbs) o (inr there) =
    calls-reach cb st cbs (if c == cb then some st else o) there

push_ref_state-keeps :
    (cb f : ℕ) (st : RunningState) (s : ConfigSets)
    → last_call cb s.pushed none ≡ some st
    → last_call cb (push_ref_state f st s).pushed none ≡ some st
unfolding push_ref_state
push_ref_state-keeps cb f st s h =
    last_call-append cb s.pushed (calls (s.ref_at f).cbs st) none
    ∙ ap (last_call cb (calls (s.ref_at f).cbs st)) h
    ∙ calls-keep cb st (s.ref_at f).cbs

push_ref_state-reaches :
    (cb f : ℕ) (st : RunningState) (s : ConfigSets)
    → Among cb (s.ref_at f).cbs
    → last_call cb (push_ref_state f st s).pushed none ≡ some st
unfolding push_ref_state
push_ref_state-reaches cb f st s h =
    last_call-append cb s.pushed (calls (s.ref_at f).cbs st) none
    ∙ calls-reach cb st (s.ref_at f).cbs (last_call cb s.pushed none) h

push_to_refs-keeps :
    (cb : ℕ) (fs : List ℕ) (st : RunningState) (s : ConfigSets)
    → last_call cb s.pushed none ≡ some st
    → last_call cb (push_to_refs fs st s).pushed none ≡ some st
unfolding push_to_refs
push_to_refs-keeps cb [] st s h = h
push_to_refs-keeps cb (f ∷ fs) st s h =
    push_to_refs-keeps cb fs st (push_ref_state f st s) (push_ref_state-keeps cb f st s h)

push_to_refs-Told :
    (fs : List ℕ) (st : RunningState) (s : ConfigSets)
    → Told s.ref_at (push_to_refs fs st s).pushed fs st
unfolding push_to_refs push_ref_state
push_to_refs-Told [] st s f cb h g = absurd h
push_to_refs-Told (f' ∷ fs) st s f cb (inr there) g =
    push_to_refs-Told fs st (push_ref_state f' st s) f cb there g
push_to_refs-Told (f' ∷ fs) st s f cb (inl here) g =
    push_to_refs-keeps cb fs st (push_ref_state f' st s) (
      push_ref_state-reaches cb f' st s (subst (λ (i : ℕ). Among cb (s.ref_at i).cbs) (sym here) g))

push_to_refs-ref_at :
    (fs : List ℕ) (st : RunningState) (s : ConfigSets)
    → ((push_to_refs fs st s).ref_at ≡ s.ref_at) × ((push_to_refs fs st s).rc_at ≡ s.rc_at)
unfolding push_to_refs push_ref_state
push_to_refs-ref_at [] st s = (refl, refl)
push_to_refs-ref_at (f ∷ fs) st s = push_to_refs-ref_at fs st (push_ref_state f st s)

pub put_rc-same : (r : ℕ) (c : RunningController) (s : ConfigSets) → (put_rc r c s).rc_at r ≡ c
put_rc-same r c s = rw (==_refl r) refl

-- Pushing the state that the controller has got.
push_state-Informed :
    (r : ℕ) (st : RunningState) (s : ConfigSets)
    → (s.rc_at r).state ≡ st
    → ((s.rc_at r).prev_emitted ≡ st → Told s.ref_at s.pushed (s.rc_at r).refs st)
    → Informed r (push_state r st s)
unfolding push_state
push_state-Informed r st s has told = elim (Bool-cases (state_equals (s.rc_at r).prev_emitted st)) [
  | inl same ↦
      let e = state_equals-eq _ _ same in
      rw same (e ∙ sym has, subst (Told s.ref_at s.pushed (s.rc_at r).refs) (sym has) (told e))
  | inr differ ↦
      let c : RunningController = record (s.rc_at r) { prev_emitted = st } in
      let u = put_rc r c s in
      let (refs_at, rcs_at) = push_to_refs-ref_at (s.rc_at r).refs st u in
      let q = push_to_refs-Told (s.rc_at r).refs st u in
      rw differ (
        subst
          (λ (g : ℕ → RunningRef).
            IsInformed g (push_to_refs (s.rc_at r).refs st u).pushed
              ((push_to_refs (s.rc_at r).refs st u).rc_at r))
          (sym refs_at)
          (subst
            (λ (x : RunningController).
              IsInformed s.ref_at (push_to_refs (s.rc_at r).refs st u).pushed x)
            (sym (ap (λ (g : ℕ → RunningController). g r) rcs_at ∙ put_rc-same r c s))
            (
              sym has,
              subst (Told s.ref_at (push_to_refs (s.rc_at r).refs st u).pushed (s.rc_at r).refs)
                  (sym has) q,
            )))
]

-- Once the state is set, with the id that it has, every callback has been called with it.
pub set_state-Informed :
    (r : ℕ) (st : RunningState) (s : ConfigSets)
    → st.state_id ≡ (s.rc_at r).state.state_id
    → Ready r s
    → Informed r (set_state r st s)
unfolding set_state
set_state-Informed r st s same_id ready =
    let c : RunningController = record (s.rc_at r) { state = st } in
    let e = put_rc-same r c s in
    push_state-Informed r st (put_rc r c s) (ap (λ (x : RunningController). x.state) e) λ shown.
      subst (λ (x : RunningController). Told s.ref_at s.pushed x.refs st) (sym e)
        (told (sym (ap (λ (x : RunningController). x.prev_emitted) e) ∙ shown))
  where
    told : (s.rc_at r).prev_emitted ≡ st → Told s.ref_at s.pushed (s.rc_at r).refs st
    told shown = elim ready [
      | inl (emitted, known) ↦
          subst (Told s.ref_at s.pushed (s.rc_at r).refs) (sym emitted ∙ shown) known
      | inr new ↦ absurd (new (ap (λ (x : RunningState). x.state_id) shown ∙ same_id))
    ]
