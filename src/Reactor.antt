-- ===== src/Reactor.antt =====
-- The state of Reactor (TransportInfra/Reactor/Reactor.hpp), the records that it keeps
-- (TransportInfra/Reactor/SubscriberInfo.hpp, TransportInfra/Reactor/EventHandlerSubscriber.h), and
-- the operations on its tables. `E` is the kernel's state and `H` the type of the handler objects.
pub mod Cleanup
pub mod Subscribing
pub mod Soundness
pub mod Restart
pub mod Delivery
pub mod EarlyNotification
pub mod Resubscribe
pub mod Entry
pub mod Subscribe
pub mod Unsubscribe
pub mod Dispatch
pub mod Lifecycle
use ipcinfra.Prelude.{
  ℕ, Bool, true, false, not, ◌||◌, Option, none, some, List, [], ◌∷◌, if◌then◌else◌,
}
use ipcinfra.Prelude.Int.{ℤ, negsuc}
use ipcinfra.Prelude.Classes.{nat_eq}
use ipcinfra.Prelude.Run.{Run, ok, ◌>>=◌}
use ipcinfra.LookupTable.Hash
use ipcinfra.LookupTable.Operations.{remove_if, hash_remove}
use ipcinfra.SharedQueue
use ipcinfra.Demux.Monitor.{EventQueue}
use ipcinfra.Demux
use ipcinfra.Demux.{Demux}

pub record SubscriberContext : Type 0 where
  pub registered_to_monitor : Bool
  pub expired : Bool
  pub handle : ℤ
  pub subscribed_events_mask : ℕ
  pub id : ℕ

-- `SubscriberContext()`
abbrev pub default_context : SubscriberContext
default_context = record {
  registered_to_monitor = false;
  expired = false;
  handle = negsuc 0;
  subscribed_events_mask = 0;
  id = 0;
}

-- The bridge's pointer to the handler object is never null once `subscribe` has set it.
pub record EventHandlerWrapper (H : Type 0) : Type 0 where
  pub event_handler : Option H
  pub in_progress : Bool

abbrev pub default_wrapper : {H : Type 0} → EventHandlerWrapper H
default_wrapper = record { event_handler = none; in_progress = false }

-- The `std::thread` members are kept as whether they are joinable.
pub record Reactor (E H : Type 0) : Type 0 where
  pub demux_wait_thread : Bool
  pub event_processing_thread : Bool
  pub subscribers_table : List (ℕ × SubscriberContext)
  pub handlers_table : List (ℕ × EventHandlerWrapper H)
  pub event_queue : EventQueue
  pub demux_impl : Demux E
  pub reactor_running : Bool
  pub cleanup_ts : ℕ

abbrev pub null_subscriber_id : ℕ
null_subscriber_id = 0

-- The constructor, over a new epoll instance.
unfoldable pub new : {E H : Type 0} → E → Reactor E H
new kernel = record {
  demux_wait_thread = false;
  event_processing_thread = false;
  subscribers_table = [];
  handlers_table = [];
  event_queue = SharedQueue.new;
  demux_impl = Demux.new kernel;
  reactor_running = false;
  cleanup_ts = 0;
}

abbrev pub Handlers : Type 0 → Type 0
Handlers H = List (ℕ × EventHandlerWrapper H)

module _ {H : Type 0} where
  -- `m_handlers_table[id]`, which enters a default wrapper under a new id
  abbrev pub or_default : Option (EventHandlerWrapper H) → EventHandlerWrapper H
  or_default none = default_wrapper
  or_default (some w) = w

  unfoldable pub handler_at : ℕ → Handlers H → EventHandlerWrapper H
  handler_at id hs = or_default (Hash.find id hs)

  unfoldable pub put_handler : ℕ → EventHandlerWrapper H → Handlers H → Handlers H
  put_handler id w hs = (Hash.insert_or_assign id w hs).0

  -- `m_handlers_table[id] = EventHandlerWrapper(&ev_handler)`: the move assignment takes over the
  -- pointer and leaves `in_progress` as it was.
  unfoldable pub add_handler_in_table : ℕ → H → Handlers H → Handlers H
  unfolding handler_at put_handler
  add_handler_in_table id ev_handler hs =
      put_handler id (record (handler_at id hs) { event_handler = some ev_handler }) hs

  removed_unless_in_progress : ℕ → Option (EventHandlerWrapper H) → Handlers H → Bool × Handlers H
  removed_unless_in_progress id none hs = (false, hs)
  removed_unless_in_progress id (some w) hs =
      if w.in_progress then (false, hs) else (true, Hash.erase id hs)

  unfoldable pub remove_handler : ℕ → Handlers H → Bool × Handlers H
  unfolding removed_unless_in_progress
  remove_handler id hs = removed_unless_in_progress id (Hash.find id hs) hs

  stored_in_progress : ℕ → Bool → Option (EventHandlerWrapper H) → Handlers H → Bool × Handlers H
  unfolding put_handler
  stored_in_progress id flag none hs = (false, hs)
  stored_in_progress id flag (some w) hs =
      (true, put_handler id (record w { in_progress = flag }) hs)

  unfoldable pub set_handler_in_progress : ℕ → Bool → Handlers H → Bool × Handlers H
  unfolding stored_in_progress
  set_handler_in_progress id flag hs = stored_in_progress id flag (Hash.find id hs) hs

  -- The predicate of `cleanupExpired`, which removes the handler as it goes.
  unfoldable pub cleanup_test : ℕ × SubscriberContext → Handlers H → Bool × Handlers H
  unfolding remove_handler
  cleanup_test (id, context) hs =
      if context.expired || not context.registered_to_monitor
      then remove_handler id hs
      else (false, hs)

module _ {E H : Type 0} where
  unfoldable pub cleanup_expired : ℕ → Reactor E H → Run (Reactor E H)
  unfolding cleanup_test
  cleanup_expired now r = do
    (subscribers, handlers) ←
        remove_if hash_remove cleanup_test r.handlers_table r.subscribers_table
    ok (record r { subscribers_table = subscribers; handlers_table = handlers; cleanup_ts = now })

  -- `m_subscribers_table.add_or_update_mapping(id, context)`
  unfoldable pub put_context : ℕ → SubscriberContext → Reactor E H → Reactor E H
  put_context id context r = record r {
    subscribers_table = (Hash.add_or_update_mapping id context r.subscribers_table).0;
  }

  unfoldable pub drop_context : ℕ → Reactor E H → Reactor E H
  drop_context id r = record r { subscribers_table = Hash.remove_mapping id r.subscribers_table }
