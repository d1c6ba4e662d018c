-- ===== src/Client/OverSocket.antt =====
-- A socket as the device of a client (TransportInfra/Devices/Sockets/SocketDevice.hpp). What the
-- kernel answers is a function of the socket and the calls made on it.

use ipcinfra.Prelude.{ℕ, ◌≡◌, refl, Bool, true, false, Option, List, arith}
use ipcinfra.Prelude.Classes.{int_eq}
use ipcinfra.Sockets.{connected}
use ipcinfra.Sockets.States.{connected_state}
use ipcinfra.Sockets.Device
use ipcinfra.Sockets.Device.{
  Driven, ConnectAnswers, is, is_connected, connect_available, set_handle,
}
use ipcinfra.Sockets.ResourceHandler.{close}
use ipcinfra.Client.{ConnectableDevice}

pub connect-connected :
    (answers : ConnectAnswers) (non_blocking : Bool) (d : Driven)
    → is_connected d.0 ≡ true
    → Device.connect answers non_blocking d ≡ (false, d)
unfolding Device.connect is_connected
connect-connected answers non_blocking (d, calls) h =
    let state : d.state ≡ connected = connected_state d.state h in rw state refl

connect_available-connects :
    (answers : ConnectAnswers) (non_blocking : Bool) (d : Driven)
    → (connect_available answers non_blocking d).0 ≡ true
    → is_connected (connect_available answers non_blocking d).1.0 ≡ true
unfolding connect_available is_connected
connect_available-connects answers non_blocking (d, calls) h = ground arith

pub connect-connects :
    (answers : ConnectAnswers) (non_blocking : Bool) (d : Driven)
    → (Device.connect answers non_blocking d).0 ≡ true
    → is_connected (Device.connect answers non_blocking d).1.0 ≡ true
unfolding Device.connect connect_available is_connected
connect-connects answers non_blocking (d, calls) h = ground arith

pub disconnect-refused :
    (answer : Bool) (d : Driven)
    → (Device.disconnect answer d).0 ≡ false
    → is_connected d.0 ≡ true
    → is_connected (Device.disconnect answer d).1.0 ≡ true
unfolding Device.disconnect is_connected close
disconnect-refused answer (d, calls) refused h = ground arith

module _ (answers : Driven → ConnectAnswers) (closes : Driven → Bool)
    (reads : List ℕ → Driven → Option (List ℕ)) where
  abbrev pub socket_device : ConnectableDevice Driven
  socket_device = record {
    connect = λ non_blocking d. Device.connect (answers d) non_blocking d;
    disconnect = λ d. Device.disconnect (closes d) d;
    read = λ buffer d. (reads buffer d, d);
    joined = λ d. is_connected d.0;
    connect_joined = λ non_blocking d. connect-connected (answers d) non_blocking d;
    connect_joins = λ non_blocking d. connect-connects (answers d) non_blocking d;
    disconnect_keeps = λ d. disconnect-refused (closes d) d;
    read_keeps = λ buffer d. refl;
  }
