-- ===== src/Tests/Clients.antt =====
-- The theorems on a client's endpoint, over a socket, at concrete inputs.
use ipcinfra.Prelude.{ℕ, refl, true, false, none, some, []}
use ipcinfra.Prelude.Int.{pos}
use ipcinfra.Events.{out_event}
use ipcinfra.Dispatcher.Client.{ClientDispatcher}
use ipcinfra.EventHandling.{EventHandlingPolicy}
use ipcinfra.Sockets.Device.{Driven}
use ipcinfra.Sockets.Device
use ipcinfra.Client.{ConnectionState, ConnectableDevice, ClientEndpoint, created}
use ipcinfra.Client.Consistency.{
  Operation, perform, Reachable, start, step, IsConsistent, Reachable-IsConsistent,
}
use ipcinfra.Client.OverSocket.{socket_device}

-- A kernel that is asked to wait for each connection.
abbrev sockets : ConnectableDevice Driven
sockets =
    socket_device (λ d. record { flags_set = true; accepted = false; in_progress = true })
      (λ d. true) (λ buffer d. none)

abbrev dispatcher : ClientDispatcher ℕ
dispatcher = record { input_available = some 1; disconnection = some 2; local_buffer = [] }

abbrev new_client : ClientEndpoint Driven ℕ
new_client = created (Device.created (pos 5), []) dispatcher

abbrev joining : ClientEndpoint Driven ℕ
joining = perform sockets (Operation.connecting_to true) new_client

abbrev policy : EventHandlingPolicy
policy = record { listener_sub_id = 3; optional_handle_ref = some (pos 5) }

abbrev joined : ClientEndpoint Driven ℕ
joined = perform sockets (Operation.event_came 3 out_event policy) joining

joined-Reachable : Reachable sockets (Device.created (pos 5), []) dispatcher joined
joined-Reachable =
    step (Operation.event_came 3 out_event policy) (step (Operation.connecting_to true) start refl)
      refl

Reachable-IsConsistent_example : IsConsistent sockets joined
Reachable-IsConsistent_example =
    Reachable-IsConsistent sockets (Device.created (pos 5), []) dispatcher joined joined-Reachable

abbrev connected_client : ClientEndpoint Driven ℕ
connected_client = record {
  connection_in_progress = false;
  connection_state = ConnectionState.connected;
  device = (Device.created (pos 5), []);
  dispatcher = dispatcher;
  reactions = [];
}
