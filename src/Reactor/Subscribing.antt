-- ===== src/Reactor/Subscribing.antt =====
-- Reactor::subscribe, subscribeImpl and unsubscribe (TransportInfra/Reactor/Reactor.hpp). Each is one
-- step: no other thread changes the tables meanwhile.
use ipcinfra.Prelude.{ℕ, zero, suc, Bool, true, false, ◌&&◌, List, if◌then◌else◌}
use ipcinfra.Prelude.Int.{ℤ}
use ipcinfra.Prelude.Classes.{◌==◌, nat_eq, int_eq}
use ipcinfra.Prelude.Run.{Run, ok, fault, endless_loop, ◌>>=◌}
use ipcinfra.LookupTable.Hash
use ipcinfra.Events.{HandleEvent}
use ipcinfra.Events.Mask.{get_events_mask}
use ipcinfra.Demux.{Epoll, get_key_for, register_impl, update_impl, unregister_impl}
use ipcinfra.Reactor.{
  SubscriberContext, default_context, Reactor, null_subscriber_id, add_handler_in_table,
  remove_handler, cleanup_expired, put_context, drop_context, handler_at,
}

-- `SubscriberContext(subscription_mask, sub_id, handle)`
abbrev pub new_context : List HandleEvent → ℤ → ℕ → SubscriberContext
new_context events handle sub_id = record {
  registered_to_monitor = false;
  expired = false;
  handle = handle;
  subscribed_events_mask = get_events_mask events;
  id = sub_id;
}

module _ {E H : Type 0} where
  -- `value_for`, at the id's own entry
  unfoldable pub subscriber_at : ℕ → Reactor E H → SubscriberContext × Bool
  subscriber_at id r = Hash.value_for default_context id r.subscribers_table

  -- The do-while of `subscribeImpl`, over the rounds that it may take: nothing in its body changes
  -- what it reads, and where the rounds do not suffice the loop has no end.
  unfoldable pub find_key : (ℕ → ℕ) → ℤ → Reactor E H → ℕ → Run (ℕ × Bool)
  find_key hash handle r zero = fault endless_loop
  find_key hash handle r (suc rounds) =
      let again = find_key hash handle r rounds in
      let sub_id = get_key_for hash handle r.demux_impl in
      let (sub_info, found) = subscriber_at sub_id r in
      if found && handle == sub_info.handle
      then ok (sub_id, true)
      else (if found then again else ok (sub_id, false))

  module _ (epoll : Epoll E) where
    -- The rest of `subscribeImpl`, for a handle that has no entry: `fresh` is what
    -- `add_or_update_mapping` answered, and the entry stands in the table.
    unfoldable pub register_listener : SubscriberContext → Reactor E H → ℕ × Reactor E H
    register_listener context r =
        let (done, d) =
          register_impl epoll context.handle context.id context.subscribed_events_mask
            r.demux_impl in
        let r' : Reactor E H = record r { demux_impl = d } in
        if done
        then (
          context.id,
          put_context context.id (record context { registered_to_monitor = true }) r',
        )
        else (null_subscriber_id, drop_context context.id r')

    unfoldable pub update_listener : SubscriberContext → Reactor E H → ℕ × Reactor E H
    update_listener context r =
        let (done, d) =
          update_impl epoll context.handle context.id context.subscribed_events_mask r.demux_impl in
        (if done then context.id else null_subscriber_id, record r { demux_impl = d })

    -- From the new context on: an entry that is replaced counts as a failure, since the flag of
    -- `insert_or_assign` says whether the key is new.
    unfoldable pub enter : Bool → SubscriberContext → Reactor E H → ℕ × Reactor E H
    unfolding register_listener update_listener
    enter already_subscribed context r =
        let fresh = (Hash.add_or_update_mapping context.id context r.subscribers_table).1 in
        let r' = put_context context.id context r in
        if fresh
        then (if already_subscribed
            then update_listener context r'
            else register_listener context r')
        else (null_subscriber_id, r')

    -- The loop's outcome: a subscribed handle whose handler runs is refused at once.
    unfoldable pub attach : Bool → SubscriberContext → Reactor E H → ℕ × Reactor E H
    unfolding enter
    attach already_subscribed context r =
        if already_subscribed && (handler_at context.id r.handlers_table).in_progress
        then (null_subscriber_id, r)
        else enter already_subscribed context r

    unfoldable pub subscribe_impl :
        (ℕ → ℕ) → ℕ → ℕ → List HandleEvent → ℤ → Reactor E H → Run (ℕ × Reactor E H)
    unfolding attach
    subscribe_impl hash rounds now events handle r = do
      r' ← cleanup_expired now r
      (sub_id, already_subscribed) ← find_key hash handle r' rounds
      ok (attach already_subscribed (new_context events handle sub_id) r')

    -- What `subscribe` does with the id of `subscribeImpl`.
    unfoldable pub keep_handler : H → ℕ × Reactor E H → ℕ × Reactor E H
    keep_handler ev_handler (sub_id, r) = if sub_id == null_subscriber_id then (sub_id, r) else (
      sub_id,
      record r { handlers_table = add_handler_in_table sub_id ev_handler r.handlers_table },
    )

    unfoldable pub subscribe :
        (ℕ → ℕ) → ℕ → ℕ → List HandleEvent → ℤ → H → Reactor E H → Run (ℕ × Reactor E H)
    unfolding subscribe_impl keep_handler
    subscribe hash rounds now events handle ev_handler r = do
      entered ← subscribe_impl hash rounds now events handle r
      ok (keep_handler ev_handler entered)

    -- The demultiplexer's part of `unsubscribe`; its answer is not looked at.
    unfoldable pub unregister_listener : SubscriberContext → Reactor E H → Run (Reactor E H)
    unregister_listener context r = do
      (_, d) ← unregister_impl epoll context.handle r.demux_impl
      ok (record r { demux_impl = d })

    -- `unsubscribe`, once the id was found.
    unfoldable pub forget : ℕ → SubscriberContext → Reactor E H → Run (Reactor E H)
    unfolding unregister_listener
    forget id context r = do
      r' ← if context.registered_to_monitor then unregister_listener context r else ok r
      ok (record (drop_context id r') { handlers_table = (remove_handler id r'.handlers_table).1 })

    unfoldable pub unsubscribe : ℕ → ℕ → Reactor E H → Run (Bool × Reactor E H)
    unfolding forget
    unsubscribe now id r = do
      r' ← cleanup_expired now r
      let (context, found) = subscriber_at id r'
      if found then (do last ← forget id context r'; ok (true, last)) else ok (false, r')
