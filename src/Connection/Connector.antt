-- ===== src/Connection/Connector.antt =====
-- Connector2 (TransportInfra/Connector.hpp): it connects the endpoint of a client, and waits until its
-- device can be written. The endpoint is a client's, with its event handling policy.
use ipcinfra.Prelude.{Bool, true, false, not, none, some, [], ◌∷◌, ◌++◌, nat_beq, if◌then◌else◌}
use Prim.Native.Nat.{bit_and, bit_or}
use ipcinfra.Prelude.Int.{ℤ}
use ipcinfra.Prelude.Classes.{◌==◌}
use ipcinfra.Prelude.Run.{Run, ok, ◌>>=◌}
use ipcinfra.Events.{
  HandleEvent, HandleEventResult, underlying, event_eq, in_event, out_event, err_event, hup_event,
}
use ipcinfra.EventHandling.{
  Listener, subscribed_to_listener, listener_subscribe, listener_unsubscribe,
}
use ipcinfra.Client.{ConnectableDevice, connect, on_connected}
use ipcinfra.Server.{ServedClient}
use ipcinfra.Connection.{Initialiser, Connection, subscribe}

-- The event's value is tested against the bits of the values of two others.
unfoldable pub handle_event_impl : HandleEvent → HandleEventResult
handle_event_impl event =
    if event == out_event
    then HandleEventResult.success
    else if not (
        nat_beq 0
          (bit_and (underlying event) (bit_or (underlying err_event) (underlying hup_event))))
    then HandleEventResult.failure
    else HandleEventResult.default_result

module _ {D K L : Type 0} (listeners : Listener L) (get_handle : D → ℤ) where
  -- What the endpoint's subscription answers is not looked at.
  unfoldable pub post_connection_action : ServedClient D K → L → Run (Bool × ServedClient D K × L)
  unfolding on_connected listener_subscribe
  post_connection_action e l =
      let client = on_connected e.client in
      listener_subscribe listeners (get_handle client.device) (in_event ∷ []) e.policy l
      >>= λ (_, policy, l'). ok (true, record { client = client; policy = policy }, l')

  -- `~TransportEndpoint`
  unfoldable pub destroy : ServedClient D K → L → Run L
  unfolding subscribed_to_listener listener_unsubscribe
  destroy e l =
      if subscribed_to_listener e.policy
      then (listener_unsubscribe listeners e.policy l >>= λ (_, _, l'). ok l')
      else ok l

  abbrev pub connector : Initialiser (ServedClient D K) L
  connector = record {
    handle_event_impl = handle_event_impl;
    post_connection_action = post_connection_action;
    destroy = destroy;
  }

  module _ {C : Type 0} (devices : ConnectableDevice D) where
    -- For a device that is no named pipe.
    unfoldable pub connect_endpoint :
        C
        → ServedClient D K
        → Connection (ServedClient D K) C L
        → Run (Bool × Connection (ServedClient D K) C L)
    unfolding connect subscribe destroy
    connect_endpoint cb e s =
        let (result, client) = connect devices true e.client in
        let e' = record e { client = client } in
        if result
        then subscribe listeners connector (get_handle client.device) cb e' (out_event ∷ []) s
        else destroy e' s.listener >>= λ l. ok (false, record s { listener = l })

    -- For a named pipe, which is connected at once.
    unfoldable pub connect_fifo :
        C
        → ServedClient D K
        → Connection (ServedClient D K) C L
        → Run (Bool × Connection (ServedClient D K) C L)
    unfolding connect post_connection_action destroy
    connect_fifo cb e s =
        let (result, client) = connect devices true e.client in
        let e' = record e { client = client } in
        if result
        then (post_connection_action e' s.listener >>= λ (_, e'', l).
            ok (true, record s { completed = s.completed ++ (cb, some e'') ∷ []; listener = l }))
        else destroy e' s.listener >>= λ l.
            ok (false, record s { completed = s.completed ++ (cb, none) ∷ []; listener = l })
