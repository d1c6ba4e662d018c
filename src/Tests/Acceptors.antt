-- ===== src/Tests/Acceptors.antt =====
-- The theorems on accepting clients at concrete inputs: a listening socket, and a kernel that gives
-- each client the next descriptor.
use ipcinfra.Prelude.{ℕ, suc, ◌+◌, ◌≡◌, refl, true, false, none, some, [], ◌∷◌}
use ipcinfra.Prelude.Int.{ℤ, pos}
use ipcinfra.Prelude.Classes.{nat_eq, int_eq}
use ipcinfra.Prelude.Run.{ok, Returns}
use ipcinfra.Events.{HandleEventResult, in_event}
use ipcinfra.EventHandling.{Listener, null_subscriber_id}
use ipcinfra.LookupTable.Hash.{find}
use ipcinfra.Sockets.{close_call, listening, connected}
use ipcinfra.Sockets.Device
use ipcinfra.Sockets.Device.{Driven, SocketDevice, set_handle, created}
use ipcinfra.Sockets.ResourceHandler.{acquire, from_handle, close}
use ipcinfra.Client.{ConnectableDevice, ConnectionState}
use ipcinfra.Client.OverSocket.{socket_device}
use ipcinfra.Server.{ServerEndpoint, AcceptingDevice, accept}
use ipcinfra.Server.Accepting.{Outcome, accept-Accepts}
use ipcinfra.Server.OverSocket.{Kernel, socket_acceptor, accept_peer}
use ipcinfra.Connection.{Connection, handle_event}
use ipcinfra.Connection.Acceptor.{ServingEndpoint, accepting}
use ipcinfra.Connection.Stranding.{Refuses, Strands, handle_event-Strands}
use ipcinfra.Tests.Servers.{listeners, answering, generate_key}

abbrev kernel : Kernel ℕ
kernel = record {
  binds = λ d e. true;
  listens = λ d e. true;
  accept4 = λ e. (pos (e + 5), suc e);
  fresh = λ e. pos (e + 50);
  sends = λ data_view d. pos 0;
}

abbrev sockets : AcceptingDevice (Driven × ℕ) Driven
sockets = socket_acceptor kernel

abbrev client_sockets : ConnectableDevice Driven
client_sockets =
    socket_device (λ d. record { flags_set = true; accepted = true; in_progress = false })
      (λ d. true) (λ buffer d. none)

abbrev listening_socket : SocketDevice
listening_socket = record {
  resource_handler = record { handle = pos 4; is_open = true };
  state = listening;
  last_io_error = 0;
}

abbrev socket_server : ServerEndpoint (Driven × ℕ) Driven ℤ ℕ ℕ
socket_server = record {
  connection_state = ConnectionState.listening;
  device = ((listening_socket, []), 0);
  storage = [];
  dispatcher = record { input_available = some 1; connected = some 2; disconnected = some 3 };
  calls = [];
  released = [];
  listener = 0;
}

accept-Accepts_example :
    Outcome sockets client_sockets answering generate_key socket_server
      (sockets.accept true socket_server.device)
      (accept sockets client_sockets listeners generate_key true socket_server)
accept-Accepts_example =
    accept-Accepts sockets client_sockets answering generate_key true socket_server

-- A listener that refuses each subscription.
abbrev refusing : Listener ℕ
refusing = record {
  subscribe = λ events handle l. ok (null_subscriber_id, suc l);
  unsubscribe = λ id l. ok (true, l);
}

abbrev socket_endpoint : ServingEndpoint (Driven × ℕ) Driven ℤ ℕ ℕ
socket_endpoint = record {
  server = socket_server;
  policy = record { listener_sub_id = 0; optional_handle_ref = some (pos 4) };
}

abbrev waiting_server : Connection (ServingEndpoint (Driven × ℕ) Driven ℤ ℕ ℕ) ℕ ℕ
waiting_server = record {
  active_subscriptions =
      (1, record { p_wrapped_endpoint = some socket_endpoint; completion_callback = 7 }) ∷ [];
  completed = [];
  listener = 1;
}

socket_endpoint-found :
    find 1 waiting_server.active_subscriptions
    ≡ some (record { p_wrapped_endpoint = some socket_endpoint; completion_callback = 7 })
unfolding find
socket_endpoint-found = refl

abbrev accepted_client : Driven
accepted_client = (
  record {
    resource_handler = record { handle = pos 5; is_open = true };
    state = connected;
    last_io_error = 0;
  },
  close_call (pos 50) ∷ [],
)

client-Refuses : Refuses refusing sockets 1 socket_endpoint accepted_client 1 2
unfolding accept_peer Device.accept set_handle created acquire from_handle close
client-Refuses = record { given_up = (1, true, refl, refl); given = (_, refl); has_handle = refl }

handle_event-Strands_example :
    Returns {A = HandleEventResult × Connection (ServingEndpoint (Driven × ℕ) Driven ℤ ℕ ℕ) ℕ ℕ}
      (λ answer.
        (answer.0 ≡ HandleEventResult.success)
        × Strands 1 socket_endpoint 7 accepted_client 2 waiting_server answer.1)
      (handle_event refusing
        (accepting sockets client_sockets refusing generate_key
          (λ a. a.0.0.resource_handler.handle))
        1
        in_event
        waiting_server)
handle_event-Strands_example =
    handle_event-Strands sockets client_sockets refusing generate_key
      (λ a. a.0.0.resource_handler.handle) 1 socket_endpoint 7 accepted_client 2 waiting_server
      socket_endpoint-found client-Refuses
