-- ===== src/Sockets.antt =====
-- A socket's descriptor, its state, and the policies that drive it:
-- TransportInfra/Policies/UnixResourceHandler.cpp (Sockets/ResourceHandler),
-- TransportInfra/Devices/Sockets/SocketDevice.hpp, TransportInfra/Policies/ConnectionPolicy.hpp and
-- TransportInfra/Policies/AcceptorPolicy.hpp (Sockets/Device). What a system call answers is an
-- argument of the operation that makes it; the calls are kept in a list, the latest first.
pub mod ResourceHandler
pub mod Device
pub mod Ownership
pub mod States
use ipcinfra.Prelude.{Bool, true, false, ◌||◌, ◌&&◌, List, [], ◌∷◌}
use ipcinfra.Prelude.Int.{ℤ, negsuc}
use ipcinfra.Prelude.Classes.{◌==◌, int_eq}

-- Calls that change what a descriptor stands for.
pub data SystemCall : Type 0 where
  close_call bind_call listen_call connect_call shutdown_call : ℤ → SystemCall

-- The default value of a handle.
abbrev pub default_value : ℤ
default_value = negsuc 0

pub data SocketState : Type 0 where
  available binded listening connecting connected disconnected after_shutdown error : SocketState
