-- ===== src/Server/Clients.antt =====
-- The events of a stored client's endpoint, whose callbacks are the server's
-- (TransportInfra/TransportEndpoint.hpp, TransportInfra/Policies/ClientCallbackPolicy.hpp,
-- TransportInfra/Policies/DispatcherPolicy.hpp). The callbacks can erase the endpoint from the
-- storage, which destroys it: each access of an endpoint looks whether it still stands there.
use ipcinfra.Prelude.{ℕ, Bool, true, false, not, ◌&&◌, Option, none, some, List, [], if◌then◌else◌}
use ipcinfra.Prelude.Classes.{Eq, ◌==◌, nat_eq}
use ipcinfra.Prelude.Run.{Run, Fault, ok, ◌>>=◌}
use ipcinfra.Events.{
  HandleEvent, HandleEventResult, in_event, out_event, err_event, hup_event, shutdown_event,
}
use ipcinfra.EventHandling.{Listener, result_of}
use ipcinfra.Client.{
  ConnectionState, ConnectableDevice, ClientEndpoint, connected, disconnecting, disconnected, is,
  on_write_available, on_hangup_event,
}
use ipcinfra.Endpoints.Associative.{get_endpoint_for}
use ipcinfra.Server.{
  ServedClient, ServerEndpoint, put, process_client_input, process_client_disconnection,
}

module _ {D K : Type 0} where
  unfoldable pub dereference : Option (Option (ServedClient D K)) → Run (ServedClient D K)
  dereference none = Run.fault Fault.undefined_behaviour
  dereference (some none) = Run.fault Fault.undefined_behaviour
  dereference (some (some e)) = ok e

module _ {A D K C L : Type 0} ⦃keys : Eq K⦄ where
  unfoldable pub access : K → ServerEndpoint A D K C L → Run (ServedClient D K)
  unfolding dereference
  access key s = dereference (get_endpoint_for key s.storage)

  -- The endpoint's part that the client's policies change.
  unfoldable pub change :
      K
      → (ClientEndpoint D K → ClientEndpoint D K)
      → ServerEndpoint A D K C L
      → Run (ServerEndpoint A D K C L)
  unfolding access put
  change key f s = access key s >>= λ e. ok (put key (record e { client = f e.client }) s)

  unfoldable pub tell_input :
      Option K → List ℕ → ServerEndpoint A D K C L → ServerEndpoint A D K C L
  unfolding process_client_input
  tell_input none data_view s = s
  tell_input (some client_key) data_view s = process_client_input client_key data_view s

module _ {A D K C L : Type 0} ⦃keys : Eq K⦄ (listeners : Listener L) where
  -- `ProcessDisconnection` of the dispatcher
  unfoldable pub tell_disconnection : K → ServerEndpoint A D K C L → Run (ServerEndpoint A D K C L)
  unfolding access process_client_disconnection
  tell_disconnection key s = access key s >>= λ e. elim e.client.dispatcher.disconnection [
    | some client_key ↦ process_client_disconnection listeners client_key s
    | none ↦ ok s
  ]

  unfoldable pub set_state :
      K → ConnectionState → ServerEndpoint A D K C L → Run (ServerEndpoint A D K C L)
  unfolding access change tell_disconnection
  set_state key state s = access key s >>= λ e.
      change key (λ c. record c { connection_state = state }) s >>= λ s'.
      if is disconnected state && not (is disconnected e.client.connection_state)
      then tell_disconnection key s'
      else ok s'

  unfoldable pub process_disconnection_event :
      K → ServerEndpoint A D K C L → Run (Bool × ServerEndpoint A D K C L)
  unfolding access set_state
  process_disconnection_event key s = access key s >>= λ e.
      if not (is disconnected e.client.connection_state)
      then (set_state key disconnected s >>= λ s'. ok (true, s'))
      else ok (true, s)

  unfoldable pub on_disconnection :
      K → ServerEndpoint A D K C L → Run (Bool × ServerEndpoint A D K C L)
  unfolding tell_disconnection process_disconnection_event
  on_disconnection key s = tell_disconnection key s >>= process_disconnection_event key

module _ {A D K C L : Type 0} ⦃keys : Eq K⦄ (devices : ConnectableDevice D)
    (listeners : Listener L) where
  unfoldable pub disconnect : K → ServerEndpoint A D K C L → Run (Bool × ServerEndpoint A D K C L)
  unfolding access change set_state
  disconnect key s = access key s >>= λ e.
      let (done, device) = devices.disconnect e.client.device in
      change key (λ c. record c { device = device }) s >>= λ s'.
      if done
      then (set_state listeners key disconnected s' >>= λ s''. ok (true, s''))
      else ok (false, s')

  unfoldable pub on_error_event :
      K → ServerEndpoint A D K C L → Run (Bool × ServerEndpoint A D K C L)
  unfolding access set_state disconnect
  on_error_event key s = access key s >>= λ e.
      if is connected e.client.connection_state
      then set_state listeners key disconnecting s >>= disconnect key
      else ok (true, s)

  -- Behind an error `ProcessInputEvent` of the client's policy reads nothing of the endpoint.
  unfoldable pub take_input :
      K
      → Option (List ℕ)
      → Option K
      → ServerEndpoint A D K C L
      → Run (Bool × ServerEndpoint A D K C L)
  unfolding change on_error_event tell_input
  take_input key none cb s = on_error_event key s >>= λ answer. ok (true, answer.1)
  take_input key (some data_view) cb s =
      change key (λ c. record c { dispatcher = record c.dispatcher { local_buffer = [] } })
        (tell_input cb data_view s)
      >>= λ s'. ok (true, s')

  unfoldable pub on_input_event :
      K → ServerEndpoint A D K C L → Run (Bool × ServerEndpoint A D K C L)
  unfolding access change take_input
  on_input_event key s = access key s >>= λ e.
      let (contents, device) = devices.read e.client.dispatcher.local_buffer e.client.device in
      change key (λ c. record c { device = device }) s
      >>= take_input key contents e.client.dispatcher.input_available

  unfoldable pub process_event :
      K
      → ClientEndpoint D K
      → HandleEvent
      → ServerEndpoint A D K C L
      → Run (HandleEventResult × ServerEndpoint A D K C L)
  unfolding change on_error_event on_input_event on_disconnection
  process_event key c err_event s = on_error_event key s >>= λ answer. ok (result_of answer)
  process_event key c hup_event s = ok (result_of ((on_hangup_event c).0, s))
  process_event key c in_event s = on_input_event key s >>= λ answer. ok (result_of answer)
  process_event key c out_event s = change key (λ c'. (on_write_available c').1) s >>= λ s'.
      ok (result_of ((on_write_available c).0, s'))
  process_event key c shutdown_event s =
      on_disconnection listeners key s >>= λ answer. ok (result_of answer)
  process_event key c _ s = ok (HandleEventResult.method_not_implemented, s)

  unfoldable pub handle_event :
      K
      → ℕ
      → HandleEvent
      → ServerEndpoint A D K C L
      → Run (HandleEventResult × ServerEndpoint A D K C L)
  unfolding access process_event
  handle_event key id event s = access key s >>= λ e.
      if not (e.policy.listener_sub_id == id)
      then ok (HandleEventResult.invalid_reference, s)
      else process_event key e.client event s
