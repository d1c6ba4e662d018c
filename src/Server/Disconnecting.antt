-- ===== src/Server/Disconnecting.antt =====
-- What the server does when a client leaves (TransportInfra/Policies/ServerCallbackPolicy.hpp,
-- TransportInfra/TransportEndpoint.hpp), over a listener that answers every call.
use ipcinfra.Prelude.{
  ◌≡◌, refl, ap, ◌∙◌, Bool, true, false, Bool-cases, inl, inr, none, some, ◌++◌, if◌then◌else◌,
}
use ipcinfra.Prelude.Classes.{Eq, ◌==◌, ==_refl, nat_eq}
use ipcinfra.Prelude.Run.{Run, Fault, ok, Returns}
use ipcinfra.EventHandling.{Listener}
use ipcinfra.Client.{ConnectableDevice, connected, disconnecting, disconnected, is}
use ipcinfra.Endpoints.Associative.{get_endpoint_for, erase}
use ipcinfra.Endpoints.Agreement.{get-erase}
use ipcinfra.Dispatcher.Server.{process_client_disconnected}
use ipcinfra.Server.{ServedClient, ServerEndpoint, put, process_client_disconnection}
use ipcinfra.Server.Clients.{
  dereference, access, tell_disconnection, set_state, process_disconnection_event, on_disconnection,
  disconnect, on_error_event,
}
use ipcinfra.Server.Serving.{IsServed, get-store}
use ipcinfra.Server.Accepting.{IsAnswering, destroy_stored-IsLike}

module _ {A D K C L : Type 0} ⦃keys : Eq K⦄ where
  -- The client's endpoint is gone, and its user was told.
  pub record Forgets (key : K) (s s' : ServerEndpoint A D K C L) : Type 0 where
    pub kept_others :
        (j : K)
        → get_endpoint_for j s'.storage ≡ (if key == j then none else get_endpoint_for j s.storage)
    pub announced : s'.calls ≡ s.calls ++ process_client_disconnected key s.dispatcher

  pub accessed :
      (key : K) (e : ServedClient D K) (s : ServerEndpoint A D K C L)
      → get_endpoint_for key s.storage ≡ some (some e)
      → access key s ≡ ok e
  unfolding access dereference
  accessed key e s there = ap dereference there

  put-found :
      (key : K) (e : ServedClient D K) (s : ServerEndpoint A D K C L)
      → get_endpoint_for key (put key e s).storage ≡ some (some e)
  unfolding put
  put-found key e s =
      get-store key key e s.storage
      ∙ ap (λ (b : Bool). if b then some (some e) else get_endpoint_for key s.storage) (==_refl key)

  -- What was made of the endpoint before is gone with it.
  put-Forgets :
      (key : K) (e : ServedClient D K) (s s' : ServerEndpoint A D K C L)
      → Forgets key (put key e s) s'
      → Forgets key s s'
  unfolding put
  put-Forgets key e s s' forgets = record {
    kept_others = λ j. forgets.kept_others j ∙ elim (Bool-cases (key == j)) [
      | inl same ↦ rw same refl
      | inr other ↦ rw other (rw other at (get-store key j e s.storage))
    ];
    announced = forgets.announced;
  }

  not_accessed :
      (key : K) (s : ServerEndpoint A D K C L)
      → get_endpoint_for key s.storage ≡ none
      → access key s ≡ Run.fault Fault.undefined_behaviour
  unfolding access dereference
  not_accessed key s gone = ap dereference gone

module _ {A D K C L : Type 0} ⦃keys : Eq K⦄ {listeners : Listener L}
    (answering : IsAnswering listeners) where
  pub process_client_disconnection-Forgets :
      (key : K) (s : ServerEndpoint A D K C L)
      → Returns (Forgets key s) (process_client_disconnection listeners key s)
  unfolding process_client_disconnection
  process_client_disconnection-Forgets key s =
      let (s', returned, like) =
        destroy_stored-IsLike answering (get_endpoint_for key s.storage) (record s {
          calls = s.calls ++ process_client_disconnected key s.dispatcher;
          storage = erase key s.storage;
        }) in
      (
        s',
        returned,
        record {
          kept_others = λ j. rw like.same_storage (get-erase key j s.storage);
          announced = like.same_calls;
        },
      )

  -- The first thing that the endpoint does is to have itself destroyed.
  pub on_disconnection-UndefinedBehaviour :
      (key : K) (e : ServedClient D K) (s : ServerEndpoint A D K C L)
      → get_endpoint_for key s.storage ≡ some (some e)
      → IsServed key e
      → on_disconnection listeners key s ≡ Run.fault Fault.undefined_behaviour
  unfolding on_disconnection tell_disconnection process_disconnection_event
  on_disconnection-UndefinedBehaviour key e s there served =
      let (s', returned, forgets) = process_client_disconnection-Forgets key s in
      rw (accessed key e s there, served.told, returned)
        (rw
          (not_accessed key s' (
            forgets.kept_others key
            ∙ ap (λ (b : Bool). if b then none else get_endpoint_for key s.storage) (==_refl key)))
          refl)

  told :
      (key : K) (e : ServedClient D K) (s : ServerEndpoint A D K C L)
      → get_endpoint_for key s.storage ≡ some (some e)
      → e.client.dispatcher.disconnection ≡ some key
      → Returns (Forgets key s) (tell_disconnection listeners key s)
  unfolding tell_disconnection
  told key e s there registered =
      rw (accessed key e s there, registered) (process_client_disconnection-Forgets key s)

  -- The disconnection is told where the state was another before.
  set_state-Forgets :
      (key : K) (e : ServedClient D K) (s : ServerEndpoint A D K C L)
      → get_endpoint_for key s.storage ≡ some (some e)
      → e.client.dispatcher.disconnection ≡ some key
      → is disconnected e.client.connection_state ≡ false
      → Returns (Forgets key s) (set_state listeners key disconnected s)
  unfolding set_state
  set_state-Forgets key e s there registered open_yet =
      let e' : ServedClient D K = record e {
        client = record e.client { connection_state = disconnected };
      } in
      let (s', returned, forgets) = told key e' (put key e' s) (put-found key e' s) registered in
      rw (accessed key e s there, open_yet, returned) (s', refl, put-Forgets key e' s s' forgets)

  module _ (devices : ConnectableDevice D) where
    disconnect-Forgets :
        (key : K) (e : ServedClient D K) (s : ServerEndpoint A D K C L)
        → get_endpoint_for key s.storage ≡ some (some e)
        → e.client.dispatcher.disconnection ≡ some key
        → is disconnected e.client.connection_state ≡ false
        → (devices.disconnect e.client.device).0 ≡ true
        → Returns (λ answer. Forgets key s answer.1) (disconnect devices listeners key s)
    unfolding disconnect
    disconnect-Forgets key e s there registered open_yet done =
        let e' : ServedClient D K = record e {
          client = record e.client { device = (devices.disconnect e.client.device).1 };
        } in
        let (s', returned, forgets) =
          set_state-Forgets key e' (put key e' s) (put-found key e' s) registered open_yet in
        rw (accessed key e s there, done, returned) (_, refl, put-Forgets key e' s s' forgets)

    -- If the listener answers every call, a stored endpoint has the server's callbacks for its
    -- key and is connected, and disconnect of its device succeeds, then its onErrorEvent, which a
    -- failed read calls, returns; the endpoint is out of the storage, every other key finds what
    -- it found before, and the disconnection callback was called once with the key.
    pub on_error_event-Forgets :
        (key : K) (e : ServedClient D K) (s : ServerEndpoint A D K C L)
        → get_endpoint_for key s.storage ≡ some (some e)
        → IsServed key e
        → e.client.connection_state ≡ connected
        → (devices.disconnect e.client.device).0 ≡ true
        → Returns (λ answer. Forgets key s answer.1) (on_error_event devices listeners key s)
    unfolding on_error_event set_state
    on_error_event-Forgets key e s there served joined done =
        let e' : ServedClient D K = record e {
          client = record e.client { connection_state = disconnecting };
        } in
        let (answer, returned, forgets) =
          disconnect-Forgets key e' (put key e' s) (put-found key e' s) served.told refl done in
        rw (accessed key e s there, joined, returned)
          (answer, refl, put-Forgets key e' s answer.1 forgets)
