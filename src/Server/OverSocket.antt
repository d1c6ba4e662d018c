-- ===== src/Server/OverSocket.antt =====
-- A listening socket as what a server accepts with (TransportInfra/Policies/AcceptorPolicy.hpp). The
-- kernel's answers are functions of its state `E`, and of the socket where they concern one.
use ipcinfra.Prelude.{ℕ, Bool, Option, List}
use ipcinfra.Prelude.Int.{ℤ}
use ipcinfra.Prelude.Run.{Run, ok, ◌>>=◌}
use ipcinfra.Sockets.Device
use ipcinfra.Sockets.Device.{Driven}
use ipcinfra.Server.{AcceptingDevice}

-- What ::bind and ::listen answer, the handle that ::accept4 answers, and the one that ::socket
-- gives the peer's constructor.
pub record Kernel (E : Type 0) : Type 0 where
  pub binds : Driven → E → Bool
  pub listens : Driven → E → Bool
  pub accept4 : E → ℤ × E
  pub fresh : E → ℤ
  pub sends : List ℕ → Driven → ℤ

module _ {E : Type 0} (kernel : Kernel E) where
  unfoldable pub accept_peer : Driven × E → Run (Option Driven × (Driven × E))
  unfolding Device.accept
  accept_peer (d, e) =
      let (peer, e') = kernel.accept4 e in
      Device.accept peer (kernel.fresh e) d.0 >>= λ peer_sock. ok (peer_sock, (d, e'))

  abbrev pub socket_acceptor : AcceptingDevice (Driven × E) Driven
  socket_acceptor = record {
    bind =
        λ reusable (d, e). let (result, d') = Device.bind (kernel.binds d e) d in (result, (d', e));
    listen = λ backlog (d, e).
        let (result, d') = Device.listen (kernel.listens d e) d in (result, (d', e));
    accept = λ non_blocking a. accept_peer a;
    get_handle = λ d. d.0.resource_handler.handle;
    send = λ data_view d. (kernel.sends data_view d, d);
  }
