-- ===== src/Tests/Servers.antt =====
-- The theorems on the server at concrete inputs: devices are descriptors, each accept gives the next
-- one, reads fail, and the listener counts its subscriptions.
use ipcinfra.Prelude.{ℕ, suc, ◌≡◌, refl, true, false, none, some, [], ◌∷◌}
use ipcinfra.Prelude.Int.{ℤ, pos}
use ipcinfra.Prelude.Classes.{int_eq}
use ipcinfra.Prelude.Run.{Fault, ok, fault, Returns}
use ipcinfra.Events.{shutdown_event}
use ipcinfra.EventHandling.{Listener, keep_id}
use ipcinfra.Client.{ConnectableDevice, available, connected}
use ipcinfra.Dispatcher.{Call}
use ipcinfra.LookupTable.Hash.{find, insert_or_assign}
use ipcinfra.Endpoints.Associative.{get_endpoint_for}
use ipcinfra.Server.{ServedClient, ServerEndpoint, AcceptingDevice}
use ipcinfra.Server.Clients.{handle_event, on_error_event}
use ipcinfra.Server.Serving.{IsServed}
use ipcinfra.Server.Sessions.{Serves}
use ipcinfra.Server.Accepting.{IsAnswering}
use ipcinfra.Server.Disconnecting.{Forgets, on_error_event-Forgets}
use ipcinfra.Server.Reachable.{
  Operation, perform, Reachable, start, step, reachable-Serves, shutdown_event-UndefinedBehaviour,
}

abbrev pub listeners : Listener ℕ
listeners = record {
  subscribe = λ events handle l. ok (suc l, suc l);
  unsubscribe = λ id l. ok (true, l);
}

pub answering : IsAnswering listeners
answering = record {
  subscribes = λ events handle l. ((suc l, suc l), refl);
  unsubscribes = λ id l. ((true, l), refl);
}

abbrev pub acceptor : AcceptingDevice ℕ ℤ
acceptor = record {
  bind = λ reusable a. (true, a);
  listen = λ backlog a. (true, a);
  accept = λ non_blocking a. ok (some (pos a), suc a);
  get_handle = λ d. d;
  send = λ data_view d. (pos 0, d);
}

abbrev pub devices : ConnectableDevice ℤ
devices = record {
  connect = λ non_blocking d. (false, d);
  disconnect = λ d. (true, d);
  read = λ buffer d. (none, d);
  joined = λ d. true;
  connect_joined = λ non_blocking d h. refl;
  connect_joins = λ non_blocking d h. refl;
  disconnect_keeps = λ d h j. refl;
  read_keeps = λ buffer d. refl;
}

abbrev pub generate_key : ℤ → ℤ
generate_key handle = handle

abbrev pub Server : Type 0
Server = ServerEndpoint ℕ ℤ ℤ ℕ ℕ

abbrev pub new_server : Server
new_server = record {
  connection_state = available;
  device = 5;
  storage = [];
  dispatcher = record { input_available = some 1; connected = some 2; disconnected = some 3 };
  calls = [];
  released = [];
  listener = 0;
}

abbrev pub first_client : ServedClient ℤ ℤ
first_client = record {
  client = record {
    connection_in_progress = false;
    connection_state = connected;
    device = pos 5;
    dispatcher = record {
      input_available = some (pos 5);
      disconnection = some (pos 5);
      local_buffer = [];
    };
    reactions = [];
  };
  policy = record { listener_sub_id = 1; optional_handle_ref = some (pos 5) };
}

abbrev one_client : Server
one_client = record new_server {
  device = 6;
  storage = (pos 5, some first_client) ∷ [];
  calls = Call.connection 2 (pos 5) ∷ [];
  listener = 1;
}

one_client-Reachable : Reachable acceptor devices listeners generate_key one_client
unfolding perform keep_id find insert_or_assign
one_client-Reachable = step (Operation.accepting true) (start {s = new_server} refl) refl

first_client-stored : get_endpoint_for (pos 5) one_client.storage ≡ some (some first_client)
unfolding get_endpoint_for find
first_client-stored = refl

reachable-Serves_example : Serves one_client
reachable-Serves_example =
    reachable-Serves acceptor devices answering generate_key one_client-Reachable

shutdown_event-UndefinedBehaviour_example :
    handle_event devices listeners
      (pos 5)
      first_client.policy.listener_sub_id
      shutdown_event
      one_client
    ≡ fault Fault.undefined_behaviour
shutdown_event-UndefinedBehaviour_example =
    shutdown_event-UndefinedBehaviour acceptor devices answering generate_key one_client (pos 5)
      first_client one_client-Reachable first_client-stored

first_client-IsServed : IsServed (pos 5) first_client
first_client-IsServed =
    reachable-Serves acceptor devices answering generate_key one_client-Reachable (pos 5)
      first_client first_client-stored

on_error_event-Forgets_example :
    Returns
      (λ answer. Forgets (pos 5) one_client answer.1)
      (on_error_event devices listeners (pos 5) one_client)
on_error_event-Forgets_example =
    on_error_event-Forgets answering devices (pos 5) first_client one_client first_client-stored
      first_client-IsServed refl refl
