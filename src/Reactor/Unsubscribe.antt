-- ===== src/Reactor/Unsubscribe.antt =====
-- Reactor::unsubscribe on a sound reactor: it never erases at the end of the handle map, and it
-- keeps the reactor sound.
use ipcinfra.Prelude.{
  ℕ, ◌≡◌, ◌≢◌, refl, ap, Bool, true, false, ◌||◌, Option, none, some, arith, if◌then◌else◌,
  Bool-cases, Option-cases, inl, inr,
}
use ipcinfra.Prelude.Int.{ℤ}
use ipcinfra.Prelude.Classes.{◌==◌, nat_eq, int_eq, int_ord, ==_iff}
use ipcinfra.Prelude.Run.{◌>>=◌, Returns}
use ipcinfra.LookupTable.Hash
use ipcinfra.LookupTable.Hash.{find}
use ipcinfra.LookupTable.Hash.Laws.{IsUnique, find-erase, erase-IsUnique, is_some}
use ipcinfra.Demux.{Epoll}
use ipcinfra.Demux.Laws.{key_of, HasSortedMap, unregister_impl-Unregisters}
use ipcinfra.Reactor.{SubscriberContext, Reactor, drop_context, remove_handler}
use ipcinfra.Reactor.Cleanup.{gone, remove_handler-IsUnique}
use ipcinfra.Reactor.Subscribing.{subscriber_at, forget, unregister_listener, unsubscribe}
use ipcinfra.Reactor.Soundness.{IsSound, Linked, cleanup_expired-IsSound}

abbrev pub unless : Bool → Option SubscriberContext → Option SubscriberContext
unless dropped found = if dropped then none else found

module _ {E H : Type 0} (epoll : Epoll E) where
  -- After the demultiplexer has dropped the context's handle, nothing else depends on it.
  unregistered-Linked :
      (id : ℕ) (context : SubscriberContext) (r r' : Reactor E H)
      → IsSound r
      → key_of context.handle r.demux_impl ≡ some id
      → r'.subscribers_table ≡ r.subscribers_table
      → ((j : ℤ)
          → key_of j r'.demux_impl ≡ (if j == context.handle then none else key_of j r.demux_impl))
      → (k : ℕ) (other : SubscriberContext) → find k r'.subscribers_table ≡ some other
      → k ≢ id
      → other.registered_to_monitor ≡ true
      → key_of other.handle r'.demux_impl ≡ some k
  unregistered-Linked id context r r' s mapped same keys k other e ne reg =
      let old = s.linked k other (rw same at e) reg in
      elim (Bool-cases (other.handle == context.handle)) [
        | inl hit ↦ absurd (
            ne (
              cc (
                old,
                mapped,
                ap (λ h. key_of h r.demux_impl) ((==_iff other.handle context.handle).0 hit),
              )))
        | inr miss ↦ rw (keys other.handle) (rw miss old)
      ]

  pub record Forgets (id : ℕ) (r r' : Reactor E H) : Type 0 where
    pub sound : IsSound r'
    pub subscribers :
        (j : ℕ)
        → find j r'.subscribers_table ≡ (if id == j then none else find j r.subscribers_table)

  dropped-Forgets :
      (id : ℕ) (r : Reactor E H)
      → IsUnique r.subscribers_table
      → IsUnique r.handlers_table
      → HasSortedMap r.demux_impl
      → ((k : ℕ) (other : SubscriberContext) → k ≢ id → Linked r k other)
      → Forgets id r
          (record (drop_context id r) { handlers_table = (remove_handler id r.handlers_table).1 })
  unfolding drop_context Hash.remove_mapping
  dropped-Forgets id r u v sorted linked = record {
    sound = record {
      unique_subscribers = erase-IsUnique id r.subscribers_table u;
      unique_handlers = remove_handler-IsUnique id r.handlers_table v;
      sorted = sorted;
      linked = λ k other e reg. elim (Bool-cases (id == k)) [
        | inl hit ↦ cc (
          rw (find-erase id k r.subscribers_table) at e,
          ap (λ b. if b then none else find k r.subscribers_table) hit,
        )
        | inr miss ↦
            linked k other (λ same. ground (arith, ==_iff id k))
              (ground (arith, find-erase id k r.subscribers_table)) reg
      ];
    };
    subscribers = λ j. find-erase id j r.subscribers_table;
  }

  pub forget-Forgets :
      (id : ℕ) (context : SubscriberContext) (r : Reactor E H)
      → IsSound r
      → find id r.subscribers_table ≡ some context
      → Returns (Forgets id r) (forget epoll id context r)
  unfolding forget
  forget-Forgets id context r s e = elim (Bool-cases context.registered_to_monitor) [
    | inr bare ↦ (
      _,
      rw (bare, ◌>>=◌),
      dropped-Forgets id r s.unique_subscribers s.unique_handlers s.sorted
          (λ k other ne. s.linked k other),
    )
    | inl reg ↦
        let mapped = s.linked id context e reg in
        let ((done, d), run, (sorted, keys)) =
          unregister_impl-Unregisters epoll context.handle r.demux_impl {id = id} s.sorted mapped in
        let r1 : Reactor E H = record r { demux_impl = d } in
        let f =
          dropped-Forgets id r1 s.unique_subscribers s.unique_handlers sorted (λ k other ne at_k.
            unregistered-Linked id context r r1 s mapped refl keys k other at_k ne) in
        (
          _,
          rw (reg, unregister_listener) (rw (run, ◌>>=◌)),
          record { sound = f.sound; subscribers = f.subscribers },
        )
  ]

  -- What `unsubscribe` answers and leaves, for a sound reactor.
  pub record Unsubscribes (id : ℕ) (r : Reactor E H) (answer : Bool × Reactor E H) : Type 0 where
    pub sound : IsSound answer.1
    pub found : answer.0 ≡ is_some (unless (gone r id) (find id r.subscribers_table))
    pub subscribers :
        (j : ℕ)
        → find j answer.1.subscribers_table
          ≡ unless (gone r j || id == j) (find j r.subscribers_table)

  -- On a sound reactor unsubscribe returns without undefined behaviour and keeps it sound,
  -- whatever the kernel answers; it answers true exactly if the id has an entry that the cleanup
  -- before it does not take, and what is left of the subscribers table is the entries that are
  -- neither taken by the cleanup nor stand under the id.
  pub unsubscribe-Unsubscribes :
      (now id : ℕ) (r : Reactor E H)
      → IsSound r
      → Returns (Unsubscribes id r) (unsubscribe epoll now id r)
  unfolding unsubscribe subscriber_at Hash.value_for
  unsubscribe-Unsubscribes now id r s =
      let (r1, cleaned, (s1, c)) = cleanup_expired-IsSound now r s in
      elim (Option-cases (find id r1.subscribers_table)) [
        | inl absent ↦ (
          (false, r1),
          rw (cleaned, ◌>>=◌) (rw absent),
          record {
            sound = s1;
            found = ground (arith, c.subscribers id);
            subscribers = λ j. ground (arith, c.subscribers j, c.subscribers id, ==_iff id j);
          },
        )
        | inr (context, e) ↦
            let (r2, run, f) = forget-Forgets id context r1 s1 e in
            (
              (true, r2),
              rw (cleaned, ◌>>=◌) (rw e (rw run)),
              record {
                sound = f.sound;
                found = ground (arith, c.subscribers id);
                subscribers = λ j. ground (arith, c.subscribers j, f.subscribers j);
              },
            )
      ]
