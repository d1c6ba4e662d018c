-- ===== src/Connection.antt =====
-- EndpointConnectionInitialiserBase (TransportInfra/EndpointConnectionInitialiserBase.hpp): endpoints
-- that wait for the event that completes their connection, over any listener. What the deriving
-- class does is an argument. The calls of completion callbacks are kept in a list, the latest last,
-- each with the endpoint that it was given, `none` for the null pointer.
pub mod Connector
pub mod Acceptor
pub mod Tallies
pub mod Completing
pub mod Outcomes
pub mod Stranding
use ipcinfra.Prelude.{ℕ, Bool, true, false, Option, none, some, List, [], ◌∷◌, ◌++◌, if◌then◌else◌}
use ipcinfra.Prelude.Int.{ℤ}
use ipcinfra.Prelude.Classes.{◌==◌, nat_eq}
use ipcinfra.Prelude.Run.{Run, Fault, ok, ◌>>=◌}
use ipcinfra.Events.{HandleEvent, HandleEventResult}
use ipcinfra.EventHandling.{Listener, null_subscriber_id}
use ipcinfra.LookupTable.Hash.{find, insert_or_assign, erase}

-- What the deriving class and the endpoint's destructor do.
pub record Initialiser (E L : Type 0) : Type 0 where
  pub handle_event_impl : HandleEvent → HandleEventResult
  pub post_connection_action : E → L → Run (Bool × E × L)
  pub destroy : E → L → Run L

pub record ClientEndpointSubscriber (E C : Type 0) : Type 0 where
  pub p_wrapped_endpoint : Option E
  pub completion_callback : C

pub record Connection (E C L : Type 0) : Type 0 where
  pub active_subscriptions : List (ℕ × ClientEndpointSubscriber E C)
  pub completed : List (C × Option E)
  pub listener : L

module _ {E C L : Type 0} where
  unfoldable pub complete_client_service :
      ℕ → ClientEndpointSubscriber E C → Connection E C L → Connection E C L
  complete_client_service id client_sub s = record s {
    completed = s.completed ++ (client_sub.completion_callback, client_sub.p_wrapped_endpoint) ∷ [];
    active_subscriptions = erase id s.active_subscriptions;
  }

module _ {E L : Type 0} (derived : Initialiser E L) where
  unfoldable pub destroy_endpoint : Option E → L → Run L
  destroy_endpoint none l = ok l
  destroy_endpoint (some e) l = derived.destroy e l

  -- What the action after the connection answers; a null pointer has no action.
  unfoldable pub act : Option E → L → Run (Bool × E × L)
  act none l = Run.fault Fault.undefined_behaviour
  act (some e) l = derived.post_connection_action e l

module _ {E C L : Type 0} (listeners : Listener L) (derived : Initialiser E L) where
  unfoldable pub handle_connection_success :
      ℕ → ClientEndpointSubscriber E C → Connection E C L → Run (Connection E C L)
  unfolding act complete_client_service
  handle_connection_success id client s = listeners.unsubscribe id s.listener >>= λ (_, l).
      act derived client.p_wrapped_endpoint l >>= λ (done, e, l').
      let client' = record client { p_wrapped_endpoint = some e } in
      let s' : Connection E C L = record s {
        active_subscriptions = (insert_or_assign id client' s.active_subscriptions).0;
        listener = l';
      } in
      ok (if done then complete_client_service id client' s' else s')

  unfoldable pub handle_connection_failure :
      ℕ → ClientEndpointSubscriber E C → Connection E C L → Run (Connection E C L)
  unfolding destroy_endpoint complete_client_service
  handle_connection_failure id client s = listeners.unsubscribe id s.listener >>= λ (_, l).
      destroy_endpoint derived client.p_wrapped_endpoint l >>= λ l'. ok (
        complete_client_service id (record client { p_wrapped_endpoint = none })
          (record s { listener = l' }))

  -- The switch on the result.
  unfoldable pub follow :
      HandleEventResult
      → ℕ
      → ClientEndpointSubscriber E C
      → Connection E C L
      → Run (Connection E C L)
  unfolding handle_connection_success handle_connection_failure
  follow HandleEventResult.success id client s = handle_connection_success id client s
  follow HandleEventResult.failure id client s = handle_connection_failure id client s
  follow _ id client s = ok s

  unfoldable pub handle_found :
      ℕ
      → HandleEvent
      → Option (ClientEndpointSubscriber E C)
      → Connection E C L
      → Run (HandleEventResult × Connection E C L)
  unfolding follow
  handle_found id event none s = ok (HandleEventResult.invalid_reference, s)
  handle_found id event (some client) s =
      follow (derived.handle_event_impl event) id client s >>= λ s'.
      ok (derived.handle_event_impl event, s')

  unfoldable pub handle_event :
      ℕ → HandleEvent → Connection E C L → Run (HandleEventResult × Connection E C L)
  unfolding handle_found
  handle_event id event s = handle_found id event (find id s.active_subscriptions) s

  -- What an entry that is overwritten owned.
  unfoldable pub destroy_entry : Option (ClientEndpointSubscriber E C) → L → Run L
  unfolding destroy_endpoint
  destroy_entry none l = ok l
  destroy_entry (some client) l = destroy_endpoint derived client.p_wrapped_endpoint l

  unfoldable pub subscribe :
      ℤ → C → E → List HandleEvent → Connection E C L → Run (Bool × Connection E C L)
  unfolding destroy_entry
  subscribe handle cb e subscribed_events s =
      listeners.subscribe subscribed_events handle s.listener >>= λ (id, l).
      if null_subscriber_id == id
      then (derived.destroy e l >>= λ l'. ok (false, record s { listener = l' }))
      else destroy_entry (find id s.active_subscriptions) l >>= λ l'. ok (
        true,
        record s {
          active_subscriptions =
              (insert_or_assign id
                (record { p_wrapped_endpoint = some e; completion_callback = cb })
                s.active_subscriptions).0;
          listener = l';
        },
      )
