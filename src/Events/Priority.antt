-- ===== src/Events/Priority.antt =====
-- Reactor::sortByPriority (TransportInfra/Reactor/Reactor.hpp): the order it hands to
-- std::stable_sort.
use ipcinfra.Prelude.{◌≡◌, ◌≢◌, Bool, true, ◌||◌, ◌&&◌, not, arith, ltb, if◌then◌else◌}
use ipcinfra.Prelude.Classes.{◌==◌}
use ipcinfra.Events.{
  HandleEvent, null_event, prio_in_event, err_event, shutdown_event, event_eq, underlying,
}

-- The λ of `sortByPriority`, applied to `lh_event` and `rh_event`.
unfoldable pub goes_before : HandleEvent → HandleEvent → Bool
goes_before lh_event rh_event =
    if rh_event == shutdown_event
    then true
    else (if rh_event == err_event && not (lh_event == shutdown_event)
        then true
        else (if rh_event == prio_in_event
            then not (lh_event == err_event || lh_event == shutdown_event)
            else ltb (underlying rh_event) (underlying lh_event)))

abbrev pub BothWays : HandleEvent → HandleEvent → Type 0
BothWays a b = (goes_before a b ≡ true) × (goes_before b a ≡ true)

abbrev pub Lower : HandleEvent → HandleEvent → Type 0
Lower a b = ltb (underlying a) (underlying b) ≡ true

-- The order given to the sort puts two events before one another both ways: the shutdown event
-- and any lower one but the priority event, the error event and any lower one but the priority
-- event, the priority event and any lower one.
pub goes_before-BothWays :
    (event : HandleEvent)
    → (Lower event shutdown_event → event ≢ prio_in_event → BothWays event shutdown_event)
      × (Lower event err_event → event ≢ prio_in_event → BothWays event err_event)
      × (Lower event prio_in_event → BothWays event prio_in_event)
unfolding goes_before
goes_before-BothWays null_event = ground arith
goes_before-BothWays _ = ground arith
