-- ===== src/Instance/Callbacks.antt =====
-- The callback queue of instance.go: `callbackEvent.call`, `callCallbacksLocked` and
-- `callCallbackEventsLocked`, with the lists of callbacks of callback.go.
use controllerbus.Common.{
  ℕ, zero, suc, true, false, not, ◌&&◌, none, List, [], ◌∷◌, ◌++◌, is_some, is_empty, ◌==◌,
  if◌then◌else◌,
}
use controllerbus.Common.Exec.{Exec, ◌>>=◌, ◌>>◌, pure, gets, modify, skip, when, for_each}
use controllerbus.Instance.State.{
  Instance, Callback, CallbackEvent, call_func, handle_value_added, handle_instance_disposed,
  call_idle, call_state, removed_value,
}

-- What the instance's code does not decide: what happens while the lock is given up to call one
-- event (the callback's own calls, a panic that is recovered, and what other goroutines do), and
-- how many rounds of the queue are followed.
pub record Outside : Type 0 where
  pub invoke : CallbackEvent → Exec Instance (Unit {0})
  pub fuel : ℕ

-- A new pointer.
unfoldable pub new_pointer : Exec Instance ℕ
new_pointer = do
  p ← gets (λ s. s.next_pointer)
  modify (λ s. record s { next_pointer = suc s.next_pointer })
  pure p

-- `removeFromCallbacks`: the first entry with the pointer is taken out.
unfoldable pub remove_from_callbacks : List Callback → ℕ → List Callback
remove_from_callbacks [] cb = []
remove_from_callbacks (c ∷ cbs) cb = if c.cb_id == cb then cbs else c ∷ remove_from_callbacks cbs cb

-- A nil handler or a nil function is not run: the panic of calling it is recovered.
module _ (out : Outside) where
  unfoldable pub call : CallbackEvent → Exec Instance (Unit {0})
  call (call_func f) = out.invoke (call_func f)
  call (handle_value_added h v) = out.invoke (handle_value_added h v)
  call (handle_instance_disposed h) = out.invoke (handle_instance_disposed h)
  call (call_idle f is_idle errs) = when (is_some f) (out.invoke (call_idle f is_idle errs))
  call (call_state f st) = when (is_some f) (out.invoke (call_state f st))
  call (removed_value ref v) = do
    ref_rel ← gets (λ s. s.ref_released ref.ref_id)
    when (not ref_rel && is_some ref.ref_handler) (out.invoke (removed_value ref v))

  -- One round calls what was queued when it began.
  unfoldable pub drain : ℕ → List CallbackEvent → Exec Instance (Unit {0})
  drain zero [] = skip
  drain zero (e ∷ es) = λ s. none
  drain (suc rounds) [] = skip
  drain (suc rounds) (e ∷ es) = do
    for_each (e ∷ es) call
    next ← gets (λ s. s.ref_cbs)
    modify (λ s. record s { ref_cbs = [] })
    drain rounds next

  unfoldable pub run_queue : Exec Instance (Unit {0})
  run_queue = do
    modify (λ s. record s { calling_ref_cbs = true })
    batch ← gets (λ s. s.ref_cbs)
    modify (λ s. record s { ref_cbs = [] })
    drain out.fuel batch
    modify (λ s. record s { calling_ref_cbs = false })

  unfoldable pub call_callback_events_locked : List CallbackEvent → Exec Instance (Unit {0})
  call_callback_events_locked cbs = do
    queued ← gets (λ s. s.ref_cbs)
    when (not (is_empty (cbs ++ queued))) (do
      modify (λ s. record s { ref_cbs = s.ref_cbs ++ cbs })
      calling ← gets (λ s. s.calling_ref_cbs)
      when (not calling) run_queue)
