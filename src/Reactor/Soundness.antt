-- ===== src/Reactor/Soundness.antt =====
-- The invariant that ties the reactor's tables to the demultiplexer's handle map, kept by subscribing
-- and unsubscribing whatever the kernel answers.
use ipcinfra.Prelude.{ℕ, ◌≡◌, true, some, arith}
use ipcinfra.Prelude.Classes.{nat_eq, int_eq, int_ord, ==_iff}
use ipcinfra.Prelude.Run.{Returns}
use ipcinfra.LookupTable.Hash
use ipcinfra.LookupTable.Hash.{find}
use ipcinfra.LookupTable.Hash.Laws.{
  IsUnique, find-erase, erase-IsUnique, add_or_update_mapping-Adds,
}
use ipcinfra.Demux.Laws.{key_of, HasSortedMap}
use ipcinfra.Reactor.{SubscriberContext, Reactor, cleanup_expired, put_context, drop_context}
use ipcinfra.Reactor.Cleanup.{Cleaned, cleanup_expired-Cleaned}

module _ {E H : Type 0} where
  -- Every subscriber that is registered holds the id under which its handle is mapped.
  abbrev pub Linked : Reactor E H → ℕ → SubscriberContext → Type 0
  Linked r k context =
      find k r.subscribers_table ≡ some context
      → context.registered_to_monitor ≡ true
      → key_of context.handle r.demux_impl ≡ some k

  pub record IsSound (r : Reactor E H) : Type 0 where
    pub unique_subscribers : IsUnique r.subscribers_table
    pub unique_handlers : IsUnique r.handlers_table
    pub sorted : HasSortedMap r.demux_impl
    pub linked : (k : ℕ) (context : SubscriberContext) → Linked r k context

  Cleaned-IsSound : (now : ℕ) (r r' : Reactor E H) → IsSound r → Cleaned now r r' → IsSound r'
  Cleaned-IsSound now r r' s c = record {
    unique_subscribers = c.unique_subscribers;
    unique_handlers = c.unique_handlers;
    sorted = rw c.same_demux s.sorted;
    linked = λ k context e reg.
        rw c.same_demux (s.linked k context (ground (arith, c.subscribers k)) reg);
  }

  pub cleanup_expired-IsSound :
      (now : ℕ) (r : Reactor E H)
      → IsSound r
      → Returns (λ r'. IsSound r' × Cleaned now r r') (cleanup_expired now r)
  cleanup_expired-IsSound now r s =
      let (r', e, c) = cleanup_expired-Cleaned now r s.unique_subscribers s.unique_handlers in
      (r', e, (Cleaned-IsSound now r r' s c, c))

  -- A context that is not registered asks for no link.
  pub put_context-IsSound :
      (id : ℕ) (context : SubscriberContext) (r : Reactor E H)
      → IsSound r
      → (context.registered_to_monitor ≡ true → key_of context.handle r.demux_impl ≡ some id)
      → IsSound (put_context id context r)
  unfolding put_context
  put_context-IsSound id context r s link =
      let added = add_or_update_mapping-Adds id context r.subscribers_table s.unique_subscribers in
      record {
        unique_subscribers = added.0;
        unique_handlers = s.unique_handlers;
        sorted = s.sorted;
        linked = λ k other e reg. ground (arith, added.2 k, s.linked k other, link, ==_iff id k);
      }

  pub drop_context-IsSound : (id : ℕ) (r : Reactor E H) → IsSound r → IsSound (drop_context id r)
  unfolding drop_context Hash.remove_mapping
  drop_context-IsSound id r s = record {
    unique_subscribers = erase-IsUnique id r.subscribers_table s.unique_subscribers;
    unique_handlers = s.unique_handlers;
    sorted = s.sorted;
    linked = λ k other e reg. ground (arith, find-erase id k r.subscribers_table, s.linked k other);
  }
