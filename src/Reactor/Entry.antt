-- ===== src/Reactor/Entry.antt =====
-- The part of Reactor::subscribeImpl that enters a context, on a sound reactor.
use ipcinfra.Prelude.{
  ℕ, ◌≡◌, ◌≢◌, ◌⊎◌, refl, sym, ◌∙◌, ap, Bool, true, false, ◌&&◌, none, some, if◌then◌else◌,
  Bool-cases, Option-cases, inl, inr,
}
use ipcinfra.Prelude.Int.{ℤ}
use ipcinfra.Prelude.Classes.{◌==◌, nat_eq, int_eq, int_ord, ==_iff, ==_refl}
use ipcinfra.LookupTable.Hash
use ipcinfra.LookupTable.Hash.{find}
use ipcinfra.LookupTable.Hash.Laws.{IsUnique, add_or_update_mapping-Adds, is_some}
use ipcinfra.Demux.{Epoll, register_impl}
use ipcinfra.Demux.Laws.{key_of, register_impl-Registers}
use ipcinfra.Reactor.{SubscriberContext, Reactor, null_subscriber_id, put_context, handler_at}
use ipcinfra.Reactor.Soundness.{IsSound, Linked, put_context-IsSound, drop_context-IsSound}
use ipcinfra.Reactor.Subscribing.{register_listener, enter, attach}

module _ {E H : Type 0} (epoll : Epoll E) where
  -- A context whose id has an entry already: it replaces the entry, and nothing is registered.
  pub enter_present :
      (already : Bool) (context : SubscriberContext) (r : Reactor E H) {old : SubscriberContext}
      → IsUnique r.subscribers_table
      → find context.id r.subscribers_table ≡ some old
      → enter epoll already context r ≡ (null_subscriber_id, put_context context.id context r)
  unfolding enter
  enter_present already context r u e =
      let added = add_or_update_mapping-Adds context.id context r.subscribers_table u in
      let stale : (Hash.add_or_update_mapping context.id context r.subscribers_table).1 ≡ false =
        added.1 ∙ rw e in
      rw stale

  enter_absent :
      (context : SubscriberContext) (r : Reactor E H)
      → IsUnique r.subscribers_table
      → find context.id r.subscribers_table ≡ none
      → enter epoll false context r
        ≡ register_listener epoll context (put_context context.id context r)
  unfolding enter
  enter_absent context r u e =
      let added = add_or_update_mapping-Adds context.id context r.subscribers_table u in
      let fresh : (Hash.add_or_update_mapping context.id context r.subscribers_table).1 ≡ true =
        added.1 ∙ rw e in
      rw fresh

  -- The reactor is sound, and an id other than the null one is registered for the context's handle.
  pub record Enters (context : SubscriberContext) (answer : ℕ × Reactor E H) : Type 0 where
    pub sound : IsSound answer.1
    pub answered : (answer.0 ≡ null_subscriber_id) ⊎ (answer.0 ≡ context.id)
    pub entered :
        answer.0 ≢ null_subscriber_id
        → find answer.0 answer.1.subscribers_table
          ≡ some (record context { registered_to_monitor = true })
    pub mapped :
        answer.0 ≢ null_subscriber_id → key_of context.handle answer.1.demux_impl ≡ some answer.0

  -- The new mapping takes over the handle of no other subscriber.
  registered-Linked :
      (handle : ℤ) (id : ℕ) (r r' : Reactor E H)
      → IsSound r
      → ((k : ℕ) → key_of handle r.demux_impl ≡ some k → k ≡ id)
      → r'.subscribers_table ≡ r.subscribers_table
      → ((j : ℤ)
          → key_of j r'.demux_impl ≡ (if j == handle then some id else key_of j r.demux_impl))
      → (k : ℕ) (other : SubscriberContext) → Linked r' k other
  registered-Linked handle id r r' s only same keys k other e reg =
      let old = s.linked k other (rw same at e) reg in
      elim (Bool-cases (other.handle == handle)) [
        | inl hit ↦
            let k_id : k ≡ id = only k (rw ((==_iff other.handle handle).0 hit) at old) in
            rw (keys other.handle) (rw hit (ap some (sym k_id)))
        | inr miss ↦ rw (keys other.handle) (rw miss old)
      ]

  register_listener-Enters :
      (context : SubscriberContext) (r : Reactor E H)
      → IsSound r
      → ((k : ℕ) → key_of context.handle r.demux_impl ≡ some k → k ≡ context.id)
      → Enters context (register_listener epoll context r)
  unfolding register_listener put_context
  register_listener-Enters context r s only =
      let answer =
        register_impl epoll context.handle context.id context.subscribed_events_mask r.demux_impl in
      let registers =
        register_impl-Registers epoll context.handle context.id context.subscribed_events_mask
          r.demux_impl s.sorted in
      let r1 : Reactor E H = record r { demux_impl = answer.1 } in
      elim (Bool-cases answer.0) [
        | inl done ↦
            let keys' = λ (j : ℤ). rw done at (registers.keys j) in
            let here : key_of context.handle answer.1 ≡ some context.id =
              keys' context.handle ∙ rw (==_refl context.handle) in
            let s1 : IsSound r1 = record {
              unique_subscribers = s.unique_subscribers;
              unique_handlers = s.unique_handlers;
              sorted = registers.sorted;
              linked = registered-Linked context.handle context.id r r1 s only refl keys';
            } in
            let full : SubscriberContext = record context { registered_to_monitor = true } in
            let added =
              add_or_update_mapping-Adds context.id full r.subscribers_table s.unique_subscribers in
            rw done (record {
              sound = put_context-IsSound context.id full r1 s1 (λ _. here);
              answered = inr refl;
              entered = λ _. added.2 context.id ∙ rw (==_refl context.id);
              mapped = λ _. here;
            })
        | inr failed ↦
            let keys' = λ (j : ℤ). rw failed at (registers.keys j) in
            let s1 : IsSound r1 = record {
              unique_subscribers = s.unique_subscribers;
              unique_handlers = s.unique_handlers;
              sorted = registers.sorted;
              linked = λ k other e reg. keys' other.handle ∙ s.linked k other e reg;
            } in
            rw failed (record {
              sound = drop_context-IsSound context.id r1 s1;
              answered = inl refl;
              entered = λ ne. absurd (ne refl);
              mapped = λ ne. absurd (ne refl);
            })
      ]

  pub enter-Enters :
      (context : SubscriberContext) (r : Reactor E H)
      → IsSound r
      → context.registered_to_monitor ≡ false
      → ((k : ℕ) → key_of context.handle r.demux_impl ≡ some k → k ≡ context.id)
      → Enters context (enter epoll (is_some (find context.id r.subscribers_table)) context r)
  enter-Enters context r s bare only =
      let s1 = put_context-IsSound context.id context r s (λ reg. cc) in
      elim (Option-cases (find context.id r.subscribers_table)) [
        | inl absent ↦ rw absent (
            rw (enter_absent context r s.unique_subscribers absent) (
              register_listener-Enters context (put_context context.id context r) s1
                (unfold put_context in only)))
        | inr (old, e) ↦ rw e (
            rw (enter_present true context r s.unique_subscribers e) (record {
              sound = s1;
              answered = inl refl;
              entered = λ ne. absurd (ne refl);
              mapped = λ ne. absurd (ne refl);
            }))
      ]

  pub attach-Enters :
      (context : SubscriberContext) (r : Reactor E H)
      → IsSound r
      → context.registered_to_monitor ≡ false
      → ((k : ℕ) → key_of context.handle r.demux_impl ≡ some k → k ≡ context.id)
      → Enters context (attach epoll (is_some (find context.id r.subscribers_table)) context r)
  unfolding attach
  attach-Enters context r s bare only =
      elim (Bool-cases (
        is_some (find context.id r.subscribers_table)
        && (handler_at context.id r.handlers_table).in_progress)) [
          | inl busy ↦ rw busy (record {
            sound = s;
            answered = inl refl;
            entered = λ ne. absurd (ne refl);
            mapped = λ ne. absurd (ne refl);
          })
          | inr idle ↦ rw idle (enter-Enters context r s bare only)
        ]
