-- ===== src/Connection/Acceptor.antt =====
-- Acceptor (TransportInfra/Acceptor.hpp): it lets a server's endpoint listen, and waits until a first
-- client can be accepted. The endpoint is a server's, with its event handling policy.
use ipcinfra.Prelude.{Bool, true, false, [], ◌∷◌, if◌then◌else◌}
use ipcinfra.Prelude.Int.{ℤ}
use ipcinfra.Prelude.Classes.{Eq, ◌==◌}
use ipcinfra.Prelude.Run.{Run, ok, ◌>>=◌}
use ipcinfra.Events.{HandleEvent, HandleEventResult, event_eq, in_event, err_event}
use ipcinfra.EventHandling.{
  Listener, EventHandlingPolicy, subscribed_to_listener, listener_subscribe, listener_unsubscribe,
}
use ipcinfra.Client.{ConnectableDevice}
use ipcinfra.Server.{ServerEndpoint, AcceptingDevice, bind, listen, accept}
use ipcinfra.Connection.{Initialiser, Connection, subscribe}

pub record ServingEndpoint (A D K C L : Type 0) : Type 0 where
  pub server : ServerEndpoint A D K C L
  pub policy : EventHandlingPolicy

unfoldable pub handle_event_impl : HandleEvent → HandleEventResult
handle_event_impl event =
    if event == in_event
    then HandleEventResult.success
    else if event == err_event
    then HandleEventResult.failure
    else HandleEventResult.default_result

module _ {A D K C L : Type 0} ⦃keys : Eq K⦄ (acceptor : AcceptingDevice A D)
    (devices : ConnectableDevice D) (listeners : Listener L) (generate_key : ℤ → K)
    (get_handle : A → ℤ) where
  -- The subscription of the endpoint that has been accepted.
  unfoldable pub subscribe_accepted :
      Bool
      → EventHandlingPolicy
      → ServerEndpoint A D K C L
      → Run (Bool × ServingEndpoint A D K C L × L)
  unfolding listener_subscribe
  subscribe_accepted false policy server =
      ok (false, record { server = server; policy = policy }, server.listener)
  subscribe_accepted true policy server =
      listener_subscribe listeners (get_handle server.device) (in_event ∷ []) policy server.listener
      >>= λ (_, policy', l). ok (true, record { server = server; policy = policy' }, l)

  -- The server's endpoint and the acceptor share the listener.
  unfoldable pub post_connection_action :
      ServingEndpoint A D K C L → L → Run (Bool × ServingEndpoint A D K C L × L)
  unfolding accept subscribe_accepted
  post_connection_action e l =
      accept acceptor devices listeners generate_key true (record e.server { listener = l })
      >>= λ (accepted, server). subscribe_accepted accepted e.policy server

  unfoldable pub destroy : ServingEndpoint A D K C L → L → Run L
  unfolding subscribed_to_listener listener_unsubscribe
  destroy e l =
      if subscribed_to_listener e.policy
      then (listener_unsubscribe listeners e.policy l >>= λ (_, _, l'). ok l')
      else ok l

  abbrev pub accepting : Initialiser (ServingEndpoint A D K C L) L
  accepting = record {
    handle_event_impl = handle_event_impl;
    post_connection_action = post_connection_action;
    destroy = destroy;
  }

  unfoldable pub listen_for_connections :
      {B : Type 0}
      → B
      → ServingEndpoint A D K C L
      → Connection (ServingEndpoint A D K C L) B L
      → Run (Bool × Connection (ServingEndpoint A D K C L) B L)
  unfolding bind listen subscribe destroy
  listen_for_connections cb e s =
      let (binded, server) = bind acceptor true e.server in
      let (listening, server') = if binded then listen acceptor 50 server else (false, server) in
      let e' : ServingEndpoint A D K C L = record e { server = server' } in
      if listening
      then subscribe listeners accepting (get_handle server'.device) cb e' (in_event ∷ []) s
      else destroy e' s.listener >>= λ l. ok (false, record s { listener = l })
