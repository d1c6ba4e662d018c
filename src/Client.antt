-- ===== src/Client.antt =====
-- The endpoint of a client: TransportEndpoint (TransportInfra/TransportEndpoint.hpp) with
-- ClientCallbackPolicy (TransportInfra/Policies/ClientCallbackPolicy.hpp) and the client's dispatcher,
-- over any device that connects. What the callbacks were told is kept in a list, the latest last.
pub mod Consistency
pub mod OverSocket
use ipcinfra.Prelude.{
  ℕ, ◌≡◌, Bool, true, false, not, ◌&&◌, Option, none, some, List, [], ◌∷◌, ◌++◌, nat_beq,
  if◌then◌else◌,
}
use ipcinfra.Dispatcher.Client.{ClientDispatcher, Reaction, process_disconnection}
use ipcinfra.EventHandling.{EventHandlers}

-- `EConnectionState`
pub data ConnectionState : Type 0 where
  available connecting connected disconnecting disconnected binded listening error : ConnectionState

abbrev pub underlying : ConnectionState → ℕ
underlying available = 0
underlying connecting = 1
underlying connected = 2
underlying disconnecting = 3
underlying disconnected = 4
underlying binded = 5
underlying listening = 6
underlying error = 7

abbrev pub is : ConnectionState → ConnectionState → Bool
is wanted state = nat_beq (underlying wanted) (underlying state)

-- A device that connects, and what its client relies on: `joined` is whether it is connected.
pub record ConnectableDevice (D : Type 0) : Type 0 where
  pub connect : Bool → D → Bool × D
  pub disconnect : D → Bool × D
  pub read : List ℕ → D → Option (List ℕ) × D
  pub joined : D → Bool
  pub connect_joined :
      (non_blocking : Bool) (d : D) → joined d ≡ true → connect non_blocking d ≡ (false, d)
  pub connect_joins :
      (non_blocking : Bool) (d : D)
      → (connect non_blocking d).0 ≡ true
      → joined (connect non_blocking d).1 ≡ true
  pub disconnect_keeps :
      (d : D) → (disconnect d).0 ≡ false → joined d ≡ true → joined (disconnect d).1 ≡ true
  pub read_keeps : (buffer : List ℕ) (d : D) → joined (read buffer d).1 ≡ joined d

pub record ClientEndpoint (D : Type 0) (C : Type 0) : Type 0 where
  pub connection_in_progress : Bool
  pub connection_state : ConnectionState
  pub device : D
  pub dispatcher : ClientDispatcher C
  pub reactions : List (Reaction C)

module _ {D : Type 0} {C : Type 0} where
  -- The constructor, with the device that setDevice gives.
  unfoldable pub created : D → ClientDispatcher C → ClientEndpoint D C
  created device dispatcher = record {
    connection_in_progress = false;
    connection_state = available;
    device = device;
    dispatcher = dispatcher;
    reactions = [];
  }

  -- `ProcessDisconnection` of the dispatcher
  unfoldable pub tell_disconnection : ClientEndpoint D C → ClientEndpoint D C
  unfolding process_disconnection
  tell_disconnection e = record e { reactions = e.reactions ++ process_disconnection e.dispatcher }

  unfoldable pub set_state : ConnectionState → ClientEndpoint D C → ClientEndpoint D C
  unfolding tell_disconnection
  set_state state e =
      if is disconnected state && not (is disconnected e.connection_state)
      then tell_disconnection (record e { connection_state = state })
      else record e { connection_state = state }

  unfoldable pub on_connected : ClientEndpoint D C → ClientEndpoint D C
  unfolding set_state
  on_connected e =
      if e.connection_in_progress
      then set_state connected (record e { connection_in_progress = false })
      else e

  unfoldable pub on_write_available : ClientEndpoint D C → Bool × ClientEndpoint D C
  unfolding on_connected
  on_write_available e =
      if is connecting e.connection_state then (true, on_connected e) else (true, e)

  unfoldable pub on_hangup_event : ClientEndpoint D C → Bool × ClientEndpoint D C
  on_hangup_event e = (true, e)

  unfoldable pub process_disconnection_event : ClientEndpoint D C → Bool × ClientEndpoint D C
  unfolding set_state
  process_disconnection_event e =
      if not (is disconnected e.connection_state)
      then (true, set_state disconnected e)
      else (true, e)

  unfoldable pub on_disconnection : ClientEndpoint D C → Bool × ClientEndpoint D C
  unfolding process_disconnection_event tell_disconnection
  on_disconnection e = process_disconnection_event (tell_disconnection e)

  module _ (devices : ConnectableDevice D) where
    unfoldable pub connect : Bool → ClientEndpoint D C → Bool × ClientEndpoint D C
    unfolding set_state
    connect non_blocking e =
        let (result, device) = devices.connect non_blocking e.device in
        let e' = record e { device = device } in
        if non_blocking && result
        then (result, set_state connecting (record e' { connection_in_progress = true }))
        else (result, e')

    unfoldable pub disconnect : ClientEndpoint D C → Bool × ClientEndpoint D C
    unfolding set_state
    disconnect e =
        let (done, device) = devices.disconnect e.device in
        let e' = record e { device = device } in
        if done then (true, set_state disconnected e') else (false, e')

    unfoldable pub on_error_event : ClientEndpoint D C → Bool × ClientEndpoint D C
    unfolding disconnect set_state
    on_error_event e =
        if is connected e.connection_state
        then disconnect (set_state disconnecting e)
        else (true, e)

    -- `ProcessInputEvent` of the dispatcher; that of the client's policy does nothing.
    unfoldable pub on_input_event : ClientEndpoint D C → Bool × ClientEndpoint D C
    unfolding on_error_event
    on_input_event e =
        let (contents, device) = devices.read e.dispatcher.local_buffer e.device in
        let e' = record e { device = device } in
        elim contents [
          | none ↦ (true, (on_error_event e').1)
          | some data_view ↦ (
            true,
            record e' {
              dispatcher = record e.dispatcher { local_buffer = [] };
              reactions = e.reactions ++ (elim e.dispatcher.input_available [
                | some cb ↦ Reaction.received cb data_view ∷ []
                | none ↦ []
              ]);
            },
          )
        ]

    -- What the event handling policy calls.
    abbrev pub client_handlers : EventHandlers (ClientEndpoint D C)
    client_handlers = record {
      on_error_event = on_error_event;
      on_hangup_event = on_hangup_event;
      on_input_event = on_input_event;
      on_write_available = on_write_available;
      on_disconnection = on_disconnection;
    }
