-- ===== src/Reactor/Resubscribe.antt =====
-- Subscribing a handle a second time (TransportInfra/Reactor/Reactor.hpp, subscribeImpl), and what
-- can be done about it afterwards.
use ipcinfra.Prelude.{ℕ, suc, ◌≡◌, refl, ◌∙◌, ap, true, false, none, some, List, arith}
use ipcinfra.Prelude.Int.{to_uint32}
use ipcinfra.Prelude.Classes.{nat_eq, int_eq, int_ord, ==_refl}
use ipcinfra.Prelude.Run.{◌>>=◌, Returns}
use ipcinfra.LookupTable.Hash
use ipcinfra.LookupTable.Hash.{find}
use ipcinfra.LookupTable.Hash.Laws.{add_or_update_mapping-Adds}
use ipcinfra.Events.{HandleEvent}
use ipcinfra.Demux.{Epoll}
use ipcinfra.Demux.Laws.{get_key_for_lem, or_hashed}
use ipcinfra.Reactor.{
  SubscriberContext, EventHandlerWrapper, Reactor, null_subscriber_id, put_context, handler_at,
}
use ipcinfra.Reactor.Cleanup.{gone}
use ipcinfra.Reactor.Soundness.{IsSound, cleanup_expired-IsSound, put_context-IsSound}
use ipcinfra.Reactor.Subscribing.{
  subscriber_at, new_context, attach, keep_handler, subscribe, unsubscribe,
}
use ipcinfra.Reactor.Entry.{enter_present}
use ipcinfra.Reactor.Subscribe.{key_for, find_key_returns}

module _ {E H : Type 0} where
  -- A subscriber that is registered under the id, with a handler that is not running.
  pub record IsActive (id : ℕ) (context : SubscriberContext) (w : EventHandlerWrapper H)
      (r : Reactor E H) : Type 0 where
    pub present : find id r.subscribers_table ≡ some context
    pub registered : context.registered_to_monitor ≡ true
    pub current : context.expired ≡ false
    pub handler : find id r.handlers_table ≡ some w
    pub idle : w.in_progress ≡ false

  -- The reactor after the second subscription: the entry is no longer registered, while the
  -- demultiplexer and the handler are as they were.
  pub record Detaches (id : ℕ) (w : EventHandlerWrapper H) (r r' : Reactor E H) : Type 0 where
    pub sound : IsSound r'
    pub unregistered :
        (context : SubscriberContext) × (find id r'.subscribers_table ≡ some context)
        × (context.registered_to_monitor ≡ false)
    pub same_demux : r'.demux_impl ≡ r.demux_impl
    pub same_handler : find id r'.handlers_table ≡ some w

module _ {E H : Type 0} (epoll : Epoll E) (hash : ℕ → ℕ) where
  -- On a sound reactor, if the id has an entry that is registered and not expired and a handler
  -- that is not in progress, then subscribing the entry's handle again, with any events and
  -- handler, answers with the null id; the entry is no longer registered, while the demultiplexer
  -- and the handler under the id are as they were.
  pub subscribe-Detaches :
      (rounds now id : ℕ) (events : List HandleEvent) (context : SubscriberContext)
      (w : EventHandlerWrapper H) (ev_handler : H) (r : Reactor E H)
      → IsSound r
      → IsActive id context w r
      → Returns
          (λ answer. (answer.0 ≡ null_subscriber_id) × Detaches id w r answer.1)
          (subscribe epoll hash (suc rounds) now events context.handle ev_handler r)
  unfolding subscribe attach keep_handler handler_at put_context
  subscribe-Detaches rounds now id events context w ev_handler r s a =
      let (r1, cleaned, (s1, c)) = cleanup_expired-IsSound now r s in
      let stays : gone r id ≡ false = rw a.present (rw (a.registered, a.current)) in
      let here : find id r1.subscribers_table ≡ some context =
        c.subscribers id ∙ rw stays a.present in
      let kept : find id r1.handlers_table ≡ some w = c.handlers id ∙ rw stays a.handler in
      let key : key_for hash context.handle r1 ≡ id =
        get_key_for_lem hash context.handle r1.demux_impl
        ∙ ap (λ found. or_hashed found (hash (to_uint32 context.handle)))
            (s1.linked id context here a.registered) in
      let ended = find_key_returns hash context.handle r1 rounds (λ other e.
        let both : context ≡ other = cc (here, rw key at e) in
        rw (← both) (==_refl context.handle)) in
      let context' = new_context events context.handle id in
      let refused =
        enter_present epoll true context' r1 {old = context} s1.unique_subscribers here in
      let added =
        add_or_update_mapping-Adds id context' r1.subscribers_table s1.unique_subscribers in
      (
        (null_subscriber_id, put_context id context' r1),
        rw (cleaned, ◌>>=◌)
            (rw (ended, ◌>>=◌) (rw key (rw here (rw kept (rw a.idle (rw refused)))))),
        (
          refl,
          record {
            sound = put_context-IsSound id context' r1 s1 (λ reg. cc);
            unregistered = unfold put_context in (context', added.2 id ∙ rw (==_refl id), refl);
            same_demux = unfold put_context in c.same_demux;
            same_handler = unfold put_context in kept;
          },
        ),
      )

  -- On a reactor that a second subscription of an id has left, with the id's handler not in
  -- progress, unsubscribe of the id answers false, removes its entry and its handler, and leaves
  -- the demultiplexer as it was before the second subscription.
  pub unsubscribe-Detaches :
      (now id : ℕ) (w : EventHandlerWrapper H) (r r' : Reactor E H)
      → Detaches id w r r'
      → w.in_progress ≡ false
      → Returns
          (λ answer.
            (answer.0 ≡ false)
            × (answer.1.demux_impl ≡ r.demux_impl)
            × (find id answer.1.subscribers_table ≡ none)
            × (find id answer.1.handlers_table ≡ none))
          (unsubscribe epoll now id r')
  unfolding unsubscribe subscriber_at Hash.value_for
  unsubscribe-Detaches now id w r r' d idle =
      let (r1, cleaned, (s1, c)) = cleanup_expired-IsSound now r' d.sound in
      let (context, e, bare) = d.unregistered in
      let dropped : gone r' id ≡ true = rw e (rw d.same_handler (ground arith)) in
      let absent : find id r1.subscribers_table ≡ none = c.subscribers id ∙ rw dropped in
      (
        (false, r1),
        rw (cleaned, ◌>>=◌) (rw absent),
        (refl, c.same_demux ∙ d.same_demux, absent, c.handlers id ∙ rw dropped),
      )
