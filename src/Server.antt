-- ===== src/Server.antt =====
-- The server's endpoint over sockets: ServerCallbackPolicy
-- (TransportInfra/Policies/ServerCallbackPolicy.hpp, for a device that is no named pipe) with
-- TransportEndpoint, the associative storage of its clients' endpoints and the server's dispatcher.
-- The callbacks that it registers with a client's endpoint are those of ProcessClientInput and
-- ProcessClientDisconnection for a key, so that each is given as the key.
pub mod Clients
pub mod Serving
pub mod Sessions
pub mod Accepting
pub mod Disconnecting
pub mod Reachable
pub mod OverSocket
use ipcinfra.Prelude.{
  ℕ, Bool, true, false, not, Option, none, some, List, [], ◌∷◌, ◌++◌, if◌then◌else◌,
}
use ipcinfra.Prelude.Int.{ℤ, negsuc}
use ipcinfra.Prelude.Classes.{Eq, ◌==◌, int_eq}
use ipcinfra.Prelude.Run.{Run, Fault, ok, ◌>>=◌}
use ipcinfra.Events.{HandleEvent, in_event}
use ipcinfra.EventHandling.{
  Listener, EventHandlingPolicy, null_subscriber_id, subscribed_to_listener, set_handle,
  listener_subscribe, listener_unsubscribe,
}
use ipcinfra.Dispatcher.{Call}
use ipcinfra.Dispatcher.Client.{
  ClientDispatcher, register_input_callback, register_disconnection_callback,
}
use ipcinfra.Dispatcher.Server.{
  ServerDispatcher, process_client_connected, process_client_disconnected,
}
use ipcinfra.Dispatcher.Server
use ipcinfra.Endpoints.Associative.{store, erase, get_endpoint_for}
use ipcinfra.Client.{
  ConnectionState, ConnectableDevice, ClientEndpoint, created, connected, binded, listening,
  disconnect,
}

-- The endpoint of a client, with its event handling policy.
pub record ServedClient (D K : Type 0) : Type 0 where
  pub client : ClientEndpoint D K
  pub policy : EventHandlingPolicy

-- The devices: what the server listens on, and what its clients are connected by.
pub record AcceptingDevice (A D : Type 0) : Type 0 where
  pub bind : Bool → A → Bool × A
  pub listen : ℕ → A → Bool × A
  -- A failed call of the system throws.
  pub accept : Bool → A → Run (Option D × A)
  pub get_handle : D → ℤ
  pub send : List ℕ → D → ℤ × D

-- `calls` are those of the registered callbacks, the latest last, and `released` the devices of the
-- endpoints that were destroyed.
pub record ServerEndpoint (A D K C L : Type 0) : Type 0 where
  pub connection_state : ConnectionState
  pub device : A
  pub storage : List (K × Option (ServedClient D K))
  pub dispatcher : ServerDispatcher C
  pub calls : List (Call K C)
  pub released : List D
  pub listener : L

-- The default value of a handle.
abbrev pub default_handle : ℤ
default_handle = negsuc 0

module _ {D K : Type 0} where
  unfoldable pub registered : K → ServedClient D K → ServedClient D K
  unfolding register_input_callback register_disconnection_callback
  registered key e =
      let (_, dispatcher) = register_disconnection_callback (some key) e.client.dispatcher in
      let (_, dispatcher') = register_input_callback (some key) dispatcher in
      record e { client = record e.client { dispatcher = dispatcher' } }

module _ {A D K : Type 0} (acceptor : AcceptingDevice A D) where
  -- The endpoint of an accepted device.
  unfoldable pub client_endpoint : D → ServedClient D K
  unfolding created set_handle
  client_endpoint device = record {
    client =
        record (created device
          (record { input_available = none; disconnection = none; local_buffer = [] })) {
            connection_state = connected;
          };
    policy =
        set_handle (acceptor.get_handle device)
          (record { listener_sub_id = null_subscriber_id; optional_handle_ref = none });
  }

module _ {A D K C L : Type 0} ⦃keys : Eq K⦄ where
  -- The endpoint that a client's key refers to, changed in place.
  unfoldable pub put : K → ServedClient D K → ServerEndpoint A D K C L → ServerEndpoint A D K C L
  unfolding store
  put key e s = record s { storage = (store key (some e) s.storage).1 }

  unfoldable pub process_client_input :
      K → List ℕ → ServerEndpoint A D K C L → ServerEndpoint A D K C L
  unfolding Server.process_client_input
  process_client_input key data_view s = record s {
    calls = s.calls ++ Server.process_client_input key data_view s.dispatcher;
  }

module _ {A D K C L : Type 0} ⦃keys : Eq K⦄ (listeners : Listener L) where
  -- `~TransportEndpoint`, and that of its device
  unfoldable pub destroy :
      ServedClient D K → ServerEndpoint A D K C L → Run (ServerEndpoint A D K C L)
  unfolding subscribed_to_listener listener_unsubscribe
  destroy e s =
      let s' : ServerEndpoint A D K C L = record s {
        released = s.released ++ e.client.device ∷ [];
      } in
      if subscribed_to_listener e.policy
      then (listener_unsubscribe listeners e.policy s'.listener >>= λ answer.
          ok (record s' { listener = answer.2 }))
      else ok s'

  -- What a pointer in the storage owned.
  unfoldable pub destroy_stored :
      Option (Option (ServedClient D K)) → ServerEndpoint A D K C L → Run (ServerEndpoint A D K C L)
  unfolding destroy
  destroy_stored (some (some e)) s = destroy e s
  destroy_stored (some none) s = ok s
  destroy_stored none s = ok s

  -- The storage's store destroys what it held by the key.
  unfoldable pub on_client_connected :
      K → ServedClient D K → ServerEndpoint A D K C L → Run (ServerEndpoint A D K C L)
  unfolding put destroy_stored get_endpoint_for registered process_client_connected
  on_client_connected key e s =
      destroy_stored (get_endpoint_for key s.storage) (put key e s) >>= λ s'.
      elim (get_endpoint_for key s'.storage) [
        | some (some e') ↦
            let s'' = put key (registered key e') s' in
            ok (record s'' { calls = s''.calls ++ process_client_connected key s''.dispatcher })
        | _ ↦ ok s'
      ]

  unfoldable pub process_client_disconnection :
      K → ServerEndpoint A D K C L → Run (ServerEndpoint A D K C L)
  unfolding process_client_disconnected get_endpoint_for erase destroy_stored
  process_client_disconnection key s =
      let s' : ServerEndpoint A D K C L = record s {
        calls = s.calls ++ process_client_disconnected key s.dispatcher;
      } in
      destroy_stored (get_endpoint_for key s'.storage)
        (record s' { storage = erase key s'.storage })

  -- What the answer of its subscription makes of a client's endpoint.
  unfoldable pub keep_client :
      K
      → ServedClient D K
      → Bool × EventHandlingPolicy × L
      → ServerEndpoint A D K C L
      → Run (Bool × ServerEndpoint A D K C L)
  unfolding destroy on_client_connected
  keep_client key e (subscribed, policy, l) s =
      let e' : ServedClient D K = record e { policy = policy } in
      let s' : ServerEndpoint A D K C L = record s { listener = l } in
      if subscribed
      then (on_client_connected key e' s' >>= λ s''. ok (true, s''))
      else destroy e' s' >>= λ s''. ok (false, s'')

module _ {A D K C L : Type 0} ⦃keys : Eq K⦄ (acceptor : AcceptingDevice A D) where
  unfoldable pub bind : Bool → ServerEndpoint A D K C L → Bool × ServerEndpoint A D K C L
  bind reusable s =
      let (result, device) = acceptor.bind reusable s.device in
      let s' : ServerEndpoint A D K C L = record s { device = device } in
      if result then (true, record s' { connection_state = binded }) else (false, s')

  unfoldable pub listen : ℕ → ServerEndpoint A D K C L → Bool × ServerEndpoint A D K C L
  listen backlog s =
      let (result, device) = acceptor.listen backlog s.device in
      let s' : ServerEndpoint A D K C L = record s { device = device } in
      if result then (true, record s' { connection_state = listening }) else (false, s')

  unfoldable pub send_to :
      K
      → List ℕ
      → Option (Option (ServedClient D K))
      → ServerEndpoint A D K C L
      → Run (ℤ × ServerEndpoint A D K C L)
  unfolding put
  send_to key data_view (some (some e)) s =
      let (ret, device) = acceptor.send data_view e.client.device in
      ok (ret, put key (record e { client = record e.client { device = device } }) s)
  send_to key data_view (some none) s = Run.fault Fault.undefined_behaviour
  send_to key data_view none s = ok (ℤ.pos 0, s)

  unfoldable pub send : K → List ℕ → ServerEndpoint A D K C L → Run (ℤ × ServerEndpoint A D K C L)
  unfolding get_endpoint_for send_to
  send key data_view s = send_to key data_view (get_endpoint_for key s.storage) s

module _ {A D K C L : Type 0} ⦃keys : Eq K⦄ (acceptor : AcceptingDevice A D)
    (devices : ConnectableDevice D) (listeners : Listener L) (generate_key : ℤ → K) where
  unfoldable pub setup_client_endpoint :
      D → ServerEndpoint A D K C L → Run (Bool × ServerEndpoint A D K C L)
  unfolding client_endpoint disconnect destroy listener_subscribe keep_client
  setup_client_endpoint device s =
      let e = client_endpoint acceptor device in
      let client_handle = acceptor.get_handle e.client.device in
      let key = generate_key client_handle in
      if default_handle == client_handle
      then (destroy listeners (record e { client = (disconnect devices e.client).1 }) s >>= λ s'.
          ok (false, s'))
      else listener_subscribe listeners client_handle (in_event ∷ []) e.policy s.listener
        >>= λ answer. keep_client listeners key e answer s

  unfoldable pub take_accepted :
      Option D → ServerEndpoint A D K C L → Run (Bool × ServerEndpoint A D K C L)
  unfolding setup_client_endpoint
  take_accepted none s = ok (false, s)
  take_accepted (some device) s = setup_client_endpoint device s

  unfoldable pub accept : Bool → ServerEndpoint A D K C L → Run (Bool × ServerEndpoint A D K C L)
  unfolding take_accepted
  accept non_blocking s = acceptor.accept non_blocking s.device >>= λ (optional_res, device).
      take_accepted optional_res (record s { device = device })

  unfoldable pub process_input_event :
      ServerEndpoint A D K C L → Run (Bool × ServerEndpoint A D K C L)
  unfolding accept
  process_input_event s = accept true s
