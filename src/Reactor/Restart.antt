-- ===== src/Reactor/Restart.antt =====
-- Starting a reactor again after it was stopped (TransportInfra/Reactor/Reactor.hpp, start and stop;
-- TransportInfra/Reactor/EpollDemultiplexer.h, stopMonitoring and monitorWaitThread).
use ipcinfra.Prelude.{◌≡◌, refl, ℕ, Bool, true, false, List, [], ◌∷◌, ◌++◌, Bool-cases, inl, inr}
use ipcinfra.Prelude.Run.{ok, Returns}
use ipcinfra.SharedQueue.{push}
use ipcinfra.Demux.{stop_monitoring, monitoring}
use ipcinfra.Demux.Monitor.{Wait, timed_out, EventQueue, monitor_wait_thread}
use ipcinfra.Reactor.{Reactor}
use ipcinfra.Reactor.Lifecycle.{start, stop_request, stop_joined, last_event_notification}

module _ {E H : Type 0} where
  -- If a running reactor is stopped, with its queue's mutex free, then stop queues the last
  -- notification behind the others; and if it is started again, it is running and its
  -- demultiplexer thread has been started, but that thread returns at the first wait that times
  -- out, and leaves the queue as it is.
  pub start-stop :
      (later : ℕ) (r : Reactor E H) (rounds : List (Bool × Wait)) (q : EventQueue)
      → r.reactor_running ≡ true
      → r.event_queue.held ≡ false
      → Returns
          (λ stopped.
            let again = start later (stop_joined stopped.1) in
            (again.reactor_running ≡ true)
            × (again.demux_wait_thread ≡ true)
            × (stopped.1.event_queue.contents
                ≡ r.event_queue.contents ++ last_event_notification ∷ [])
            × (monitor_wait_thread ((again.demux_impl.monitoring_ended, timed_out) ∷ rounds) q
                ≡ ok (true, q)))
          (stop_request r)
  unfolding start stop_request stop_joined stop_monitoring monitoring push monitor_wait_thread
  start-stop later r rounds q running free = elim (Bool-cases r.demux_impl.monitoring_ended) [
    | inl ended ↦ (
      (
        true,
        record r {
          event_queue = record r.event_queue {
            contents = r.event_queue.contents ++ last_event_notification ∷ [];
          };
        },
      ),
      rw ended (rw running (rw free)),
      (refl, refl, refl, rw ended),
    )
    | inr going ↦ (
      (
        true,
        record r {
          demux_impl = stop_monitoring r.demux_impl;
          event_queue = record r.event_queue {
            contents = r.event_queue.contents ++ last_event_notification ∷ [];
          };
        },
      ),
      rw going (rw running (rw free)),
      (refl, refl, refl, refl),
    )
  ]
