-- ===== src/Tests/Sockets.antt =====
-- The theorems on sockets and on the endpoint's side of the reactor at concrete inputs.
use ipcinfra.Prelude.{◌≢◌, refl, true, []}
use ipcinfra.Prelude.Int.{pos}
use ipcinfra.Sockets.{default_value, connected}
use ipcinfra.Sockets.Device.{SocketDevice, created}
use ipcinfra.Sockets.ResourceHandler.{ResourceHandler}
use ipcinfra.Sockets.States.{Operation, perform, Reachable, start, step, Backed, Reachable-Backed}

abbrev five : ResourceHandler
five = record { handle = pos 5; is_open = true }

abbrev six : ResourceHandler
six = record { handle = pos 6; is_open = true }

five-owned : five.handle ≢ default_value
five-owned e = cc

abbrev joined : SocketDevice
joined = record { resource_handler = five; state = connected; last_io_error = 0 }

bound : Reachable (pos 5) (perform (Operation.binding true) (created (pos 5), [])).1
bound = step (Operation.binding true) start refl

Reachable-Backed_example : Backed (pos 5) (perform (Operation.binding true) (created (pos 5), [])).1
Reachable-Backed_example = Reachable-Backed (pos 5) refl _ bound
