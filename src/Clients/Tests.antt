-- ===== src/Clients/Tests.antt =====
-- Concrete events and callbacks at which the theorems on the clients of the bus apply.
use controllerbus.Common.{
  ℕ, ◌+◌, Bool, true, false, not, Option, none, some, List, [], ◌∷◌, ◌++◌, ◌==◌, leb, ◌≡◌, refl,
  arith, last_first,
}
use mathlib.Core.List.{Perm}
use controllerbus.Instance.State.{AttachedValue}
use controllerbus.UniqueResolver.Slots.{slot, slots, slots-IsTable}
use controllerbus.Clients.{
  ClientEvent, value_added, value_removed, instance_disposed, run_events, IsFresh,
}
use controllerbus.Clients.Select
use controllerbus.Clients.Select.{
  select_step, sort_func, compares_less, value_at, delete_value_id, selected_value,
}
use controllerbus.Clients.Select.Shown
use controllerbus.Clients.Select.Shown.{IsShown, select-IsShown, sort_func-perm, select-arrived}
use controllerbus.Clients.Watch
use controllerbus.Clients.Watch.{WatchCallback, watch_step}
use controllerbus.Clients.Watch.Present.{IsLive, live_after}
use controllerbus.Clients.Watch.Held
use controllerbus.Clients.Watch.Held.{IsHeld, watch-IsHeld}
use controllerbus.Clients.Watch.Effects.{
  effects-released, effects_after, disposed_after, count, pending,
}
use controllerbus.Clients.OneOff
use controllerbus.Clients.OneOff.{
  OneOffEvent, OneOffResult, FilterCallback, returns_value, return_when_idle, wait_when_idle,
  exec_one_off_with_filter,
}
use controllerbus.Clients.OneOff.First.{one_off-first, return_when_idle-returns}
use controllerbus.Clients.Collect
use controllerbus.Clients.Collect.{CollectEvent, collected, exec_collect_values}
use controllerbus.Clients.Collect.Collected.{HeldAt, collect-held}
use controllerbus.Clients.CollectWatch
use controllerbus.Clients.CollectWatch.{Emission, WatchEvent, watch_look, watch_event}
use controllerbus.Clients.CollectWatch.Emitting.{
  last_emission, watched_after, IsEmissionOf, watch-emits,
}
use controllerbus.Clients.Relay.{transform_step, new_transform_handler, pass_thru_value}
use controllerbus.Clients.Relay.Disposing.{transform-disposed}

abbrev attached : ℕ → ℕ → AttachedValue
attached id val = record { attached_id = id; attached_val = val }

-- A value below 100 has the type that is asked for.
abbrev small : ℕ → Bool
small val = leb val 99

-- The value 50 comes first, under the id 9; one of another type, and one that goes again, follow.
abbrev events : List ClientEvent
events =
    value_added (attached 9 50)
    ∷ value_added (attached 3 40)
    ∷ value_added (attached 4 400)
    ∷ value_added (attached 5 60)
    ∷ value_removed (attached 3 40)
    ∷ []

events-IsFresh : IsFresh (λ id. none) events
events-IsFresh = (refl, (refl, (refl, (refl, (refl, tt)))))

-- The last value of the list is selected.
abbrev select_second : Option (List AttachedValue → Option ℕ)
select_second = some (λ vals. some 1)

select-IsShown_example :
    IsShown select_second (
      run_events
        (select_step small (sort_func (compares_less 64)) select_second)
        events
        Select.start)
    × Perm
        (run_events
          (select_step small (sort_func (compares_less 64)) select_second)
          events
          Select.start).sorted_vals
        (attached 9 50 ∷ attached 5 60 ∷ [])
unfolding delete_value_id
select-IsShown_example =
    select-IsShown select_second small (sort_func (compares_less 64)) sort_func-perm events

-- The value 50 is shown, though 60 has the lower id.
select-arrived_example :
    Shown.shown_id
      (run_events (select_step small (sort_func (compares_less 64)) none) events Select.start).calls
    ≡ 9
unfolding value_at delete_value_id
select-arrived_example = select-arrived small events

-- The callback rejects the value 60.
abbrev rejects_60 : WatchCallback
rejects_60 calls none = true
rejects_60 calls (some v) = not (v.attached_val == 60)

-- When 50 goes, 60 is offered and rejected.
abbrev watch_events : List ClientEvent
watch_events =
    value_added (attached 9 50) ∷ value_added (attached 5 60) ∷ value_removed (attached 9 50) ∷ []

watch-IsHeld_example :
    IsHeld (run_events (watch_step rejects_60 small) watch_events Watch.start)
    × IsLive small
        (live_after (λ id. none) watch_events)
        (run_events (watch_step rejects_60 small) watch_events Watch.start)
    × (Held.shown_id
          (watch_step rejects_60 small instance_disposed
            (run_events (watch_step rejects_60 small) watch_events Watch.start)).calls
        ≡ 0)
watch-IsHeld_example =
    watch-IsHeld rejects_60 small watch_events (omega arith, (omega arith, (tt, tt)))
      (refl, (refl, (refl, tt)))

effects-released_example :
    (count 50 (effects_after small (λ s v. some v.attached_val) events).handed_out
      ≡ count 50 (effects_after small (λ s v. some v.attached_val) events).released
        + pending 50 (effects_after small (λ s v. some v.attached_val) events).rels)
    × (count 50 (disposed_after small (λ s v. some v.attached_val) events).handed_out
        ≡ count 50 (disposed_after small (λ s v. some v.attached_val) events).released)
effects-released_example =
    effects-released small (λ s v. some v.attached_val) events events-IsFresh 50

-- A filter that takes the values from 50.
abbrev from_50 : Option FilterCallback
from_50 = some (λ v. (leb 50 v.attached_val, none))

abbrev one_off_events : List OneOffEvent
one_off_events =
    OneOff.handler_called (value_added (attached 3 40))
    ∷ OneOff.looks
    ∷ OneOff.idle_called true []
    ∷ OneOff.handler_called (value_added (attached 9 50))
    ∷ OneOff.handler_called (value_added (attached 5 60))
    ∷ []

one_off-first_example :
    exec_one_off_with_filter from_50 none true (one_off_events ++ OneOff.looks ∷ []) OneOff.start
    ≡ some (returns_value (attached 9 50))
unfolding OneOff.apply_filter OneOff.idle_callback wait_when_idle OneOff.first_error
one_off-first_example =
    one_off-first from_50 none true one_off_events (refl, (tt, ((refl, refl), (refl, (refl, tt)))))

return_when_idle-returns_example :
    (r : OneOffResult) × (exec_one_off_with_filter from_50
        (some return_when_idle)
        true
        (OneOff.handler_called instance_disposed
          ∷ OneOff.idle_called true (none ∷ some 7 ∷ [])
          ∷ OneOff.looks
          ∷ [])
        OneOff.start
      ≡ some r)
return_when_idle-returns_example =
    return_when_idle-returns from_50 true (OneOff.handler_called instance_disposed ∷ []) []
      (none ∷ some 7 ∷ []) OneOff.start

abbrev collect_events : List CollectEvent
collect_events =
    Collect.handler_called (value_added (attached 9 50))
    ∷ Collect.handler_called (value_added (attached 3 40))
    ∷ Collect.looks
    ∷ Collect.handler_called (value_added (attached 5 60))
    ∷ Collect.handler_called (value_removed (attached 9 50))
    ∷ Collect.idle_called true []
    ∷ Collect.looks
    ∷ []

collect-held_example : HeldAt small none true [] collect_events (60 ∷ 40 ∷ [])
unfolding exec_collect_values Collect.start Collect.collect_look Collect.collect_step
    Collect.collect_idle OneOff.first_error last_first
collect-held_example =
    collect-held small none true collect_events (60 ∷ 40 ∷ []) (refl, (refl, (refl, (refl, tt))))
      refl

abbrev emission_events : List WatchEvent
emission_events =
    CollectWatch.handler_called (value_added (attached 9 50))
    ∷ CollectWatch.idle_called true []
    ∷ CollectWatch.looks
    ∷ CollectWatch.handler_called (value_added (attached 3 60))
    ∷ CollectWatch.handler_called (value_removed (attached 9 50))
    ∷ []

-- The callback returns no error.
abbrev no_error : List Emission → Emission → Bool
no_error es e = false

watch-emits_example : IsEmissionOf [] (60 ∷ []) (
    last_emission
      (watch_look no_error (watched_after true small none no_error emission_events)).emissions)
unfolding watch_look watch_event CollectWatch.start run_events CollectWatch.watch_step
    Collect.index_of CollectWatch.watch_idle Collect.filter_value delete_value_id
watch-emits_example =
    watch-emits true small none no_error emission_events (refl, (refl, (refl, tt))) refl refl

transform-disposed_example :
    slot 0
      (transform_step (some slots) pass_thru_value true instance_disposed (
        run_events
          (transform_step (some slots) pass_thru_value true)
          events
          (new_transform_handler []))).passthru
    ≡ none
transform-disposed_example =
    transform-disposed slots slot slots-IsTable pass_thru_value true events [] events-IsFresh
      (λ i. refl) 0
