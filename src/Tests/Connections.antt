-- ===== src/Tests/Connections.antt =====
-- The theorems on the connector and the acceptor at concrete inputs, with the devices and the
-- listener of the server's.
use ipcinfra.Prelude.{ℕ, ◌≡◌, refl, some, List, [], ◌∷◌}
use ipcinfra.Prelude.Int.{ℤ}
use ipcinfra.Prelude.Classes.{nat_eq, int_eq}
use ipcinfra.Prelude.Run.{Keeps, Returns}
use ipcinfra.Events.{HandleEvent, out_event, hup_event}
use ipcinfra.LookupTable.Hash.{find}
use ipcinfra.Server.{ServedClient}
use ipcinfra.Connection.{ClientEndpointSubscriber, Connection, handle_event}
use ipcinfra.Connection.Connector.{connector}
use ipcinfra.Connection.Tallies.{Conserves}
use ipcinfra.Connection.Completing.{handle_events, handle_events-Conserves}
use ipcinfra.Connection.Outcomes.{Connects, handle_event-Connects}
use ipcinfra.Tests.Servers.{listeners, answering, first_client}

abbrev handle_of : ℤ → ℤ
handle_of d = d

abbrev waiting_client : ClientEndpointSubscriber (ServedClient ℤ ℤ) ℕ
waiting_client = record { p_wrapped_endpoint = some first_client; completion_callback = 7 }

abbrev joining_clients : Connection (ServedClient ℤ ℤ) ℕ ℕ
joining_clients = record {
  active_subscriptions = (1, waiting_client) ∷ (2, waiting_client) ∷ [];
  completed = [];
  listener = 2;
}

abbrev events : List (ℕ × HandleEvent)
events = (1, out_event) ∷ (1, out_event) ∷ (2, hup_event) ∷ []

handle_events-Conserves_example :
    Keeps
      (Conserves 7 joining_clients)
      (handle_events listeners (connector listeners handle_of) events joining_clients)
unfolding find
handle_events-Conserves_example =
    handle_events-Conserves listeners (connector listeners handle_of) events 7 joining_clients
      (refl, (refl, tt))

waiting_client-found : find 1 joining_clients.active_subscriptions ≡ some waiting_client
unfolding find
waiting_client-found = refl

handle_event-Connects_example :
    Returns
      (Connects 1 first_client 7 joining_clients out_event)
      (handle_event listeners (connector listeners handle_of) 1 out_event joining_clients)
handle_event-Connects_example =
    handle_event-Connects answering handle_of out_event 1 first_client 7 joining_clients
      waiting_client-found
