-- ===== src/Tests/Machines.antt =====
-- The reactor at concrete inputs.
use ipcinfra.Prelude.{ℕ, ◌≡◌, refl, true, false, some, [], ◌∷◌, ◌++◌, arith}
use ipcinfra.Prelude.Int.{pos, to_uint32}
use ipcinfra.Prelude.Classes.{nat_eq, int_eq, int_ord, ◌==◌}
use ipcinfra.Prelude.Run.{ok, Returns}
use ipcinfra.LookupTable.Hash.{find}
use ipcinfra.LookupTable.Hash.Laws.{IsUnique}
use ipcinfra.LookupTable.Sorted
use ipcinfra.LookupTable.Sorted.{get_value_position_for}
use ipcinfra.Events.{HandleEventResult, in_event}
use ipcinfra.Demux.{get_key_for}
use ipcinfra.Demux.Monitor.{EventNotification, EventQueue, timed_out, monitor_wait_thread}
use ipcinfra.Reactor.{
  SubscriberContext, EventHandlerWrapper, Reactor, null_subscriber_id, cleanup_expired,
}
use ipcinfra.Reactor.Cleanup.{Cleaned, cleanup_expired-Cleaned}
use ipcinfra.Reactor.Soundness.{IsSound}
use ipcinfra.Reactor.Subscribing.{subscribe, unsubscribe}
use ipcinfra.Reactor.Subscribe.{key_for, Subscribes, subscribe-Subscribes}
use ipcinfra.Reactor.Unsubscribe.{Unsubscribes, unsubscribe-Unsubscribes}
use ipcinfra.Reactor.Resubscribe.{IsActive, Detaches, subscribe-Detaches}
use ipcinfra.Reactor.Dispatch.{HandlerCode, Sort, process_notification}
use ipcinfra.Reactor.Delivery.{Keeps, process_notification-IsSound}
use ipcinfra.Reactor.Lifecycle.{start, stop_request, stop_joined, last_event_notification}
use ipcinfra.Reactor.Restart.{start-stop}
use ipcinfra.EventHandling.{EventHandlingPolicy, listener_subscribe}
use ipcinfra.EventHandling.Session.{Session}
use ipcinfra.EventHandling.OverReactor.{reactor_listener, reactor_registry, reactor-Session}
use ipcinfra.Tests.Tables.{accepting, handles, handles-IsSorted}

abbrev queue : EventQueue
queue = record { contents = []; held = false }

abbrev context_of : ℕ → SubscriberContext
context_of n = record {
  registered_to_monitor = true;
  expired = false;
  handle = pos n;
  subscribed_events_mask = 1;
  id = n;
}

abbrev idle : EventHandlerWrapper ℕ
idle = record { event_handler = some 70; in_progress = false }

-- Handles 4 and 7 are registered under themselves.
abbrev serving : Reactor ℕ ℕ
serving = record {
  demux_wait_thread = true;
  event_processing_thread = true;
  subscribers_table = (4, context_of 4) ∷ (7, context_of 7) ∷ [];
  handlers_table = (7, idle) ∷ [];
  event_queue = queue;
  demux_impl = record {
    kernel = 2;
    wait_timeout_ms = 5000;
    monitoring_ended = false;
    handle_id_map = handles;
  };
  reactor_running = true;
  cleanup_ts = 0;
}

abbrev identity : ℕ → ℕ
identity n = n

serving_subscribers : IsUnique serving.subscribers_table
unfolding find
serving_subscribers = (refl, (refl, tt))

serving_handlers : IsUnique serving.handlers_table
unfolding find
serving_handlers = (refl, tt)

serving-IsSound : IsSound serving
unfolding find get_value_position_for
serving-IsSound = record {
  unique_subscribers = serving_subscribers;
  unique_handlers = serving_handlers;
  sorted = handles-IsSorted;
  linked = λ k context e reg. ground arith;
}

nine_is_free :
    (context : SubscriberContext)
    → find (key_for identity (pos 9) serving) serving.subscribers_table ≡ some context
    → (pos 9 == context.handle) ≡ true
unfolding find get_key_for Sorted.value_for get_value_position_for to_uint32
nine_is_free context e = cc

subscribe-Subscribes_example :
    Returns
      (Subscribes accepting identity (in_event ∷ []) (pos 9) 90)
      (subscribe accepting identity 1 5 (in_event ∷ []) (pos 9) 90 serving)
subscribe-Subscribes_example =
    subscribe-Subscribes accepting identity 0 5 (in_event ∷ []) (pos 9) 90 serving serving-IsSound
      nine_is_free

-- A policy whose listener is to be told of handle 9.
abbrev unsubscribed_policy : EventHandlingPolicy
unsubscribed_policy = record { listener_sub_id = 0; optional_handle_ref = some (pos 9) }

reactor-Session_example :
    Returns
      (Session
        (reactor_listener accepting identity 0 5 90)
        (reactor_registry accepting identity 0 5 90)
        unsubscribed_policy)
      (listener_subscribe
        (reactor_listener accepting identity 0 5 90)
        (pos 9)
        (in_event ∷ [])
        unsubscribed_policy
        serving)
reactor-Session_example =
    reactor-Session accepting identity 0 5 90 (pos 9) (in_event ∷ []) unsubscribed_policy serving
      serving-IsSound nine_is_free

unsubscribe-Unsubscribes_example :
    Returns (Unsubscribes accepting 7 serving) (unsubscribe accepting 5 7 serving)
unsubscribe-Unsubscribes_example = unsubscribe-Unsubscribes accepting 5 7 serving serving-IsSound

seven-IsActive : IsActive 7 (context_of 7) idle serving
unfolding find
seven-IsActive = record {
  present = refl;
  registered = refl;
  current = refl;
  handler = refl;
  idle = refl;
}

subscribe-Detaches_example :
    Returns
      (λ answer. (answer.0 ≡ null_subscriber_id) × Detaches 7 idle serving answer.1)
      (subscribe accepting identity 1 5 (in_event ∷ []) (pos 7) 70 serving)
subscribe-Detaches_example =
    subscribe-Detaches accepting identity 0 5 7 (in_event ∷ []) (context_of 7) idle 70 serving
      serving-IsSound seven-IsActive

abbrev detached : Reactor ℕ ℕ
detached = record serving {
  subscribers_table =
      (4, context_of 4) ∷ (7, record (context_of 7) { registered_to_monitor = false }) ∷ [];
  cleanup_ts = 5;
}

detached_subscribers : IsUnique detached.subscribers_table
unfolding find
detached_subscribers = (refl, (refl, tt))

detached-IsSound : IsSound detached
unfolding find get_value_position_for
detached-IsSound = record {
  unique_subscribers = detached_subscribers;
  unique_handlers = serving_handlers;
  sorted = handles-IsSorted;
  linked = λ k context e reg. ground arith;
}

detached-Detaches : Detaches 7 idle serving detached
unfolding find
detached-Detaches = record {
  sound = detached-IsSound;
  unregistered = (record (context_of 7) { registered_to_monitor = false }, refl, refl);
  same_demux = refl;
  same_handler = refl;
}

cleanup_expired-Cleaned_example :
    (r' : Reactor ℕ ℕ) × (cleanup_expired 9 serving ≡ ok r') × Cleaned 9 serving r'
cleanup_expired-Cleaned_example =
    cleanup_expired-Cleaned 9 serving serving_subscribers serving_handlers

-- A hash that gives every handle the key 4.
abbrev constant : ℕ → ℕ
constant n = 4

four_collides :
    (context : SubscriberContext) × (find
        (key_for constant (pos 9) serving)
        serving.subscribers_table
      ≡ some context)
    × ((pos 9 == context.handle) ≡ false)
unfolding find get_key_for Sorted.value_for get_value_position_for to_uint32
four_collides = (context_of 4, refl, refl)

abbrev succeed : HandlerCode ℕ ℕ
succeed handler id event r = ok (HandleEventResult.success, r)

abbrev as_it_is : Sort
as_it_is before events = events

abbrev notification : ℕ → EventNotification
notification n = record { handle = pos n; notified_events_mask = 1; last_event = false }

succeed-Keeps : (id : ℕ) (context : SubscriberContext) → Keeps succeed id context
succeed-Keeps id context h event r s = ((HandleEventResult.success, r), refl, s)

process_notification-IsSound_example :
    Returns
      (λ answer. (answer.0 ≡ false) × IsSound answer.1)
      (process_notification succeed identity as_it_is 5 (notification 7) serving)
process_notification-IsSound_example =
    process_notification-IsSound succeed identity as_it_is 5 (notification 7) serving
      serving-IsSound
      (λ context e. succeed-Keeps (get_key_for identity (pos 7) serving.demux_impl) context)

start-stop_example :
    Returns
      (λ stopped.
        let again = start 9 (stop_joined stopped.1) in
        (again.reactor_running ≡ true)
        × (again.demux_wait_thread ≡ true)
        × (stopped.1.event_queue.contents
            ≡ serving.event_queue.contents ++ last_event_notification ∷ [])
        × (monitor_wait_thread ((again.demux_impl.monitoring_ended, timed_out) ∷ []) queue
            ≡ ok (true, queue)))
      (stop_request serving)
start-stop_example = start-stop 9 serving [] queue refl refl
