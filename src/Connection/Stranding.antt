-- ===== src/Connection/Stranding.antt =====
-- An acceptor whose first client cannot be subscribed (TransportInfra/Acceptor.hpp).
use ipcinfra.Prelude.{ℕ, ◌≡◌, refl, sym, Bool, true, false, Option, some, [], ◌∷◌, ◌++◌}
use mathlib.Core.Path.{subst}
use ipcinfra.Prelude.Int.{ℤ}
use ipcinfra.Prelude.Classes.{Eq, ◌==◌, nat_eq, int_eq}
use ipcinfra.Prelude.Run.{ok, Returns}
use ipcinfra.Events.{HandleEventResult, in_event}
use ipcinfra.EventHandling.{
  Listener, null_subscriber_id, listener_subscribe, subscribed_to_listener, set_handle, keep_id,
}
use ipcinfra.LookupTable.Hash.{find}
use ipcinfra.LookupTable.Hash.Laws.{find-assigned}
use ipcinfra.Client.{ConnectableDevice}
use ipcinfra.Server.{
  AcceptingDevice, default_handle, accept, take_accepted, setup_client_endpoint, client_endpoint,
  keep_client, destroy,
}
use ipcinfra.Connection.{
  ClientEndpointSubscriber, Connection, handle_event, handle_found, follow,
  handle_connection_success, act,
}
use ipcinfra.Connection.Acceptor
use ipcinfra.Connection.Acceptor.{ServingEndpoint, accepting}

module _ {A D K C L : Type 0} (listeners : Listener L) (acceptor : AcceptingDevice A D) where
  -- The listener gives up the acceptor's subscription, the kernel gives a client, and the listener
  -- then refuses the client's subscription, by the id that stands for none.
  pub record Refuses (id : ℕ) (e : ServingEndpoint A D K C L) (d : D) (l l' : L) : Type 0 where
    pub given_up :
        (l1 : L) × (b : Bool) × (listeners.unsubscribe id l ≡ ok (b, l1))
        × (listeners.subscribe (in_event ∷ []) (acceptor.get_handle d) l1
            ≡ ok (null_subscriber_id, l'))
    pub given : (a : A) × (acceptor.accept true e.server.device ≡ ok (some d, a))
    pub has_handle : (default_handle == acceptor.get_handle d) ≡ false

module _ {A D K C B L : Type 0} where
  -- The client is dropped, the listener holds no subscription of the acceptor, the entry still
  -- waits, and no callback is called.
  pub record Strands (id : ℕ) (e : ServingEndpoint A D K C L) (cb : B) (d : D) (l' : L)
      (s s' : Connection (ServingEndpoint A D K C L) B L) : Type 0 where
    pub same_listener : s'.listener ≡ l'
    pub not_called : s'.completed ≡ s.completed
    pub waiting : ServingEndpoint A D K C L
    pub still_waits :
        find id s'.active_subscriptions
        ≡ some (record { p_wrapped_endpoint = some waiting; completion_callback = cb })
    pub dropped : waiting.server.released ≡ e.server.released ++ d ∷ []
    pub not_stored : waiting.server.storage ≡ e.server.storage

module _ {A D K C B L : Type 0} ⦃keys : Eq K⦄ (acceptor : AcceptingDevice A D)
    (devices : ConnectableDevice D) (listeners : Listener L) (generate_key : ℤ → K)
    (get_handle : A → ℤ) where
  found-Strands :
      (id : ℕ) (e : ServingEndpoint A D K C L) (cb : B) (d : D) (l' : L)
      (s : Connection (ServingEndpoint A D K C L) B L)
      → Refuses listeners acceptor id e d s.listener l'
      → Returns
          (λ answer. (answer.0 ≡ HandleEventResult.success) × Strands id e cb d l' s answer.1)
          (handle_found listeners
            (accepting acceptor devices listeners generate_key get_handle)
            id
            in_event
            (some (record { p_wrapped_endpoint = some e; completion_callback = cb }))
            s)
  unfolding handle_found follow Acceptor.handle_event_impl handle_connection_success act
      Acceptor.post_connection_action Acceptor.subscribe_accepted accept take_accepted
      setup_client_endpoint client_endpoint listener_subscribe set_handle keep_id keep_client
      destroy subscribed_to_listener
  found-Strands id e cb d l' s refuses =
      let (l1, b, unsubscribed, refused) = refuses.given_up in
      let (a, given) = refuses.given in
      let waiting : ServingEndpoint A D K C L = record e {
        server = record e.server {
          device = a;
          listener = l';
          released = e.server.released ++ d ∷ [];
        };
      } in
      let client' : ClientEndpointSubscriber (ServingEndpoint A D K C L) B = record {
        p_wrapped_endpoint = some waiting;
        completion_callback = cb;
      } in
      rw (unsubscribed, given, refuses.has_handle, refused)
        (
          _,
          refl,
          (
            refl,
            record {
              same_listener = refl;
              not_called = refl;
              waiting = waiting;
              still_waits = find-assigned id client' s.active_subscriptions;
              dropped = refl;
              not_stored = refl;
            },
          ),
        )

  -- If a server's endpoint waits in the acceptor, the listener gives up its subscription, the
  -- accept of its device gives a client with a handle, and the listener then refuses the client's
  -- subscription, handleEvent of the input event returns success: the listener holds what the
  -- refusal left, the client's endpoint is destroyed and not stored, but the server's endpoint
  -- still waits by the id and the completion callback is not called.
  pub handle_event-Strands :
      (id : ℕ) (e : ServingEndpoint A D K C L) (cb : B) (d : D) (l' : L)
      (s : Connection (ServingEndpoint A D K C L) B L)
      → find id s.active_subscriptions
        ≡ some (record { p_wrapped_endpoint = some e; completion_callback = cb })
      → Refuses listeners acceptor id e d s.listener l'
      → Returns
          (λ answer. (answer.0 ≡ HandleEventResult.success) × Strands id e cb d l' s answer.1)
          (handle_event listeners
            (accepting acceptor devices listeners generate_key get_handle)
            id
            in_event
            s)
  unfolding handle_event
  handle_event-Strands id e cb d l' s there refuses =
      subst
        (λ (o : Option (ClientEndpointSubscriber (ServingEndpoint A D K C L) B)).
          Returns {A = HandleEventResult × Connection (ServingEndpoint A D K C L) B L}
            (λ answer. (answer.0 ≡ HandleEventResult.success) × Strands id e cb d l' s answer.1)
            (handle_found listeners (accepting acceptor devices listeners generate_key get_handle)
              id in_event o s))
        (sym there) (found-Strands id e cb d l' s refuses)
