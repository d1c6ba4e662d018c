-- ===== src/Dispatcher/Server.antt =====
-- BaseDispatcherPolicy of a server whose device is no named pipe
-- (TransportInfra/Policies/DispatcherPolicy.hpp): it has no local buffer, so that input without a
-- registered callback is lost.
use ipcinfra.Prelude.{ℕ, Option, none, some, List, [], ◌∷◌}
use ipcinfra.Dispatcher.{Call}

pub record ServerDispatcher (C : Type 0) : Type 0 where
  pub input_available : Option C
  pub connected : Option C
  pub disconnected : Option C

module _ {C : Type 0} where
  unfoldable pub register_client_input_callback : Option C → ServerDispatcher C → ServerDispatcher C
  register_client_input_callback cb d = record d { input_available = cb }

  unfoldable pub register_client_connection_callback :
      Option C → ServerDispatcher C → ServerDispatcher C
  register_client_connection_callback cb d = record d { connected = cb }

  unfoldable pub register_client_disconnection_callback :
      Option C → ServerDispatcher C → ServerDispatcher C
  register_client_disconnection_callback cb d = record d { disconnected = cb }

module _ {K C : Type 0} where
  unfoldable pub process_client_input : K → List ℕ → ServerDispatcher C → List (Call K C)
  process_client_input key data_view d = elim d.input_available [
    | some cb ↦ Call.input cb key data_view ∷ []
    | none ↦ []
  ]

  unfoldable pub process_client_connected : K → ServerDispatcher C → List (Call K C)
  process_client_connected key d = elim d.connected [
    | some cb ↦ Call.connection cb key ∷ []
    | none ↦ []
  ]

  unfoldable pub process_client_disconnected : K → ServerDispatcher C → List (Call K C)
  process_client_disconnected key d = elim d.disconnected [
    | some cb ↦ Call.disconnection cb key ∷ []
    | none ↦ []
  ]
