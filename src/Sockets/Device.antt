-- ===== src/Sockets/Device.antt =====
-- SocketDevice (TransportInfra/Devices/Sockets/SocketDevice.hpp) with its ConnectionPolicy and
-- AcceptorPolicy (TransportInfra/Policies/ConnectionPolicy.hpp, AcceptorPolicy.hpp).
use ipcinfra.Prelude.{
  ℕ, Bool, true, false, not, ◌&&◌, ◌||◌, Option, none, some, List, [], ◌∷◌, nat_beq, ltb,
  if◌then◌else◌,
}
use ipcinfra.Prelude.Int.{ℤ}
use ipcinfra.Prelude.Classes.{◌==◌, int_eq}
use ipcinfra.Prelude.Run.{Run, ok, fault, bad_optional_access}
use ipcinfra.Sockets.{
  SystemCall, bind_call, listen_call, connect_call, shutdown_call, default_value, SocketState,
  available, binded, listening, connecting, connected, disconnected, after_shutdown, error,
}
use ipcinfra.Sockets.ResourceHandler.{ResourceHandler, from_handle, close, acquire}

abbrev pub underlying : SocketState → ℕ
underlying available = 0
underlying binded = 1
underlying listening = 2
underlying connecting = 3
underlying connected = 4
underlying disconnected = 5
underlying after_shutdown = 6
underlying error = 7

abbrev pub is : SocketState → SocketState → Bool
is wanted state = nat_beq (underlying wanted) (underlying state)

pub record SocketDevice : Type 0 where
  pub resource_handler : ResourceHandler
  pub state : SocketState
  pub last_io_error : ℕ

-- A device with the calls made so far.
abbrev pub Driven : Type 0
Driven = SocketDevice × List SystemCall

-- The constructor, of the handle that ::socket answers: it goes to a handler that has none.
unfoldable pub created : ℤ → SocketDevice
unfolding from_handle
created handle = record {
  resource_handler = record { handle = handle; is_open = true };
  state = available;
  last_io_error = 0;
}

unfoldable pub set_latest_error : ℕ → SocketDevice → SocketDevice
set_latest_error error_val d =
    if ltb error_val 35 && ltb 0 error_val then record d { last_io_error = error_val } else d

unfoldable pub set_handle : Bool → ℤ → Driven → Driven
unfolding acquire
set_handle closed handle (d, calls) =
    let (h, calls') = acquire closed handle (d.resource_handler, calls) in
    (record d { resource_handler = h }, calls')

abbrev pub set_state : SocketState → SocketDevice → SocketDevice
set_state state d = record d { state = state }

-- What the calls of `connect` answer: whether fcntl and ::connect succeed, and whether errno is
-- EINPROGRESS afterwards.
pub record ConnectAnswers : Type 0 where
  pub flags_set : Bool
  pub accepted : Bool
  pub in_progress : Bool

unfoldable pub connect_available : ConnectAnswers → Bool → Driven → Bool × Driven
connect_available answers non_blocking (d, calls) =
    let calls' = connect_call d.resource_handler.handle ∷ calls in
    if non_blocking && not answers.flags_set
    then (false, (d, calls))
    else if answers.accepted || (non_blocking && answers.in_progress)
    then (true, (set_state connected d, calls'))
    else (false, (d, calls'))

unfoldable pub connect : ConnectAnswers → Bool → Driven → Bool × Driven
unfolding connect_available set_handle
connect answers non_blocking (d, calls) =
    let handle = d.resource_handler.handle in
    let (d1, calls1) = set_handle true handle (d, calls) in
    if is disconnected d.state
    then (if default_value == handle
        then (false, (d, calls))
        else connect_available answers non_blocking (set_state available d1, calls1))
    else if not (is available d.state)
    then (false, (d, calls))
    else connect_available answers non_blocking (d, calls)

unfoldable pub disconnect : Bool → Driven → Bool × Driven
unfolding close
disconnect answer (d, calls) =
    let (closed, (h, calls')) = close answer (d.resource_handler, calls) in
    if not (is connected d.state)
    then (false, (d, calls))
    else if closed
    then (true, (record d { resource_handler = h; state = disconnected }, calls'))
    else (false, (record d { resource_handler = h }, calls'))

unfoldable pub shutdown : Bool → Driven → Bool × Driven
shutdown answer (d, calls) =
    let calls' = shutdown_call d.resource_handler.handle ∷ calls in
    if answer then (true, (set_state after_shutdown d, calls')) else (false, (d, calls'))

unfoldable pub is_connected : SocketDevice → Bool
is_connected d = is connected d.state

-- The option that makes the address reusable is set before, and its answer is not looked at.
unfoldable pub bind : Bool → Driven → Bool × Driven
bind answer (d, calls) =
    let calls' = bind_call d.resource_handler.handle ∷ calls in
    if not (is available d.state)
    then (false, (d, calls))
    else if answer
    then (true, (set_state binded d, calls'))
    else (false, (d, calls'))

unfoldable pub listen : Bool → Driven → Bool × Driven
listen answer (d, calls) =
    let calls' = listen_call d.resource_handler.handle ∷ calls in
    if not (is binded d.state)
    then (false, (d, calls))
    else if answer
    then (true, (set_state listening d, calls'))
    else (false, (d, calls'))

unfoldable pub is_binded : SocketDevice → Bool
is_binded d = is binded d.state

unfoldable pub is_listening : SocketDevice → Bool
is_listening d = is listening d.state

-- `peer` is what ::accept4 answers, `fresh` the handle of the peer's constructor. Where the call
-- fails, the state of a peer that does not exist is set.
unfoldable pub accept : ℤ → ℤ → SocketDevice → Run (Option Driven)
unfolding set_handle created
accept peer fresh d =
    let (accepted, calls) = set_handle true peer (created fresh, []) in
    if not (is listening d.state)
    then ok none
    else if not (default_value == peer)
    then ok (some (set_state connected accepted, calls))
    else fault bad_optional_access

-- `isAddressReusable`: whether the call succeeds and the size that it gives is 1.
unfoldable pub is_address_reusable : Bool → ℕ → Bool
is_address_reusable answer val_size = if answer then nat_beq 1 val_size else false
