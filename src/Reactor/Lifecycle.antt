-- ===== src/Reactor/Lifecycle.antt =====
-- Reactor::start, stop, clear and the destructor (TransportInfra/Reactor/Reactor.hpp). Joining waits
-- for the two threads, so that `stop` is what it does before the joins and what it does after them.
use ipcinfra.Prelude.{ℕ, Bool, true, false, List, [], ◌∷◌, if◌then◌else◌}
use ipcinfra.Prelude.Int.{negsuc}
use ipcinfra.Prelude.Classes.{nat_eq}
use ipcinfra.Prelude.Run.{Run, ok, ◌>>=◌}
use ipcinfra.LookupTable.Hash
use ipcinfra.SharedQueue.{push}
use ipcinfra.Demux.{Epoll, stop_monitoring, monitoring}
use ipcinfra.Demux.Monitor.{EventNotification}
use ipcinfra.Reactor.{SubscriberContext, Reactor}
use ipcinfra.Reactor.Subscribing.{unregister_listener}

-- The notification that ends the event thread, over the default handle.
abbrev pub last_event_notification : EventNotification
last_event_notification = record { handle = negsuc 0; notified_events_mask = 0; last_event = true }

module _ {E H : Type 0} where
  unfoldable pub start : ℕ → Reactor E H → Reactor E H
  start now r = if r.reactor_running then r else record r {
    cleanup_ts = now;
    event_processing_thread = true;
    demux_wait_thread = true;
    reactor_running = true;
  }

  -- `stop` up to the joins: whether it goes on to them.
  unfoldable pub stop_request : Reactor E H → Run (Bool × Reactor E H)
  stop_request r =
      let d = if monitoring r.demux_impl then stop_monitoring r.demux_impl else r.demux_impl in
      let r' : Reactor E H = record r { demux_impl = d } in
      if r.reactor_running
      then (do
        (_, q) ← push last_event_notification r.event_queue
        ok (true, record r' { event_queue = q }))
      else ok (false, r')

  -- `stop` once both threads are joined
  unfoldable pub stop_joined : Reactor E H → Reactor E H
  stop_joined r = record r {
    event_processing_thread = false;
    demux_wait_thread = false;
    reactor_running = false;
  }

  unfoldable pub clear : Reactor E H → Bool × Reactor E H
  clear r =
      if r.reactor_running
      then (false, r)
      else (true, record r { subscribers_table = Hash.clear r.subscribers_table })

  -- The destructor's loop over the subscribers.
  unfoldable pub unregister_all :
      Epoll E → List (ℕ × SubscriberContext) → Reactor E H → Run (Reactor E H)
  unregister_all epoll [] r = ok r
  unregister_all epoll ((id, context) ∷ t) r = do
    r' ← if context.registered_to_monitor then unregister_listener epoll context r else ok r
    unregister_all epoll t r'
