-- ===== src/Reactor/EarlyNotification.antt =====
-- A notification that the event thread takes between `subscribeImpl` and `addHandlerInTable`
-- (TransportInfra/Reactor/Reactor.hpp, subscribe and eventProcessingThread).
use ipcinfra.Prelude.{ℕ, ◌≡◌, true, false, none, some}
use ipcinfra.Prelude.Classes.{nat_eq}
use ipcinfra.Prelude.Run.{ok, ◌>>=◌}
use ipcinfra.LookupTable.Hash
use ipcinfra.LookupTable.Hash.{find}
use ipcinfra.Demux.{get_key_for}
use ipcinfra.Demux.Monitor.{EventNotification}
use ipcinfra.Reactor.{SubscriberContext, Reactor, set_handler_in_progress, stored_in_progress}
use ipcinfra.Reactor.Subscribing.{subscriber_at}
use ipcinfra.Reactor.Dispatch.{
  HandlerCode, Sort, dispatch, expire, process_notification, cleanup_if_due,
}

module _ {E H : Type 0} (run : HandlerCode E H) (hash : ℕ → ℕ) (sort : Sort) where
  abbrev pub key_of_notification : EventNotification → Reactor E H → ℕ
  key_of_notification n r = get_key_for hash n.handle r.demux_impl

  -- An expired subscriber is passed over, whatever the handler code: only a cleanup may follow.
  pub process_notification-expired :
      (now : ℕ) (n : EventNotification) (r : Reactor E H) {context : SubscriberContext}
      → n.last_event ≡ false
      → find (key_of_notification n r) r.subscribers_table ≡ some context
      → context.expired ≡ true
      → process_notification run hash sort now n r ≡ (cleanup_if_due now r >>= λ r'. ok (false, r'))
  unfolding process_notification subscriber_at Hash.value_for
  process_notification-expired now n r going e old = rw going (rw e (rw old))

  -- Without a handler in the table the subscriber expires.
  pub process_notification-unhandled :
      (now : ℕ) (n : EventNotification) (r : Reactor E H) {context : SubscriberContext}
      → n.last_event ≡ false
      → find (key_of_notification n r) r.subscribers_table ≡ some context
      → context.expired ≡ false
      → find (key_of_notification n r) r.handlers_table ≡ none
      → process_notification run hash sort now n r
        ≡ ok (false, expire (key_of_notification n r) context r)
  unfolding process_notification subscriber_at Hash.value_for dispatch set_handler_in_progress
  process_notification-unhandled now n r going e current missing =
      rw going (rw e (rw current (rw (missing, stored_in_progress))))
