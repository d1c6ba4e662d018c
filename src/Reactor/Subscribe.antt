-- ===== src/Reactor/Subscribe.antt =====
-- Reactor::subscribe on a sound reactor: its loop, the id that it answers with, and soundness on
-- every branch.
use ipcinfra.Prelude.{
  ℕ, zero, suc, ◌≡◌, ◌≢◌, refl, sym, ◌∙◌, ap, Bool, true, false, Option, none, some, List, arith,
  if◌then◌else◌, Bool-cases, Option-cases, inl, inr,
}
use ipcinfra.Prelude.Int.{ℤ, to_uint32}
use ipcinfra.Prelude.Classes.{◌==◌, nat_eq, int_eq, int_ord, ==_iff, ==_refl}
use ipcinfra.Prelude.Run.{Run, ok, fault, endless_loop, ◌>>=◌, Returns}
use ipcinfra.LookupTable.Hash
use ipcinfra.LookupTable.Hash.{find}
use ipcinfra.LookupTable.Hash.Laws.{is_some}
use ipcinfra.Events.{HandleEvent}
use ipcinfra.Reactor.Entry.{Enters, attach-Enters}
use ipcinfra.LookupTable.Hash.Laws.{find-insert_or_assign, insert_or_assign-IsUnique}
use ipcinfra.Demux.{Epoll, get_key_for}
use ipcinfra.Demux.Laws.{key_of, get_key_for_lem, or_hashed}
use ipcinfra.Reactor.{
  SubscriberContext, Reactor, null_subscriber_id, handler_at, add_handler_in_table,
}
use ipcinfra.Reactor.Soundness.{IsSound, cleanup_expired-IsSound}
use ipcinfra.Reactor.Subscribing.{
  subscriber_at, find_key, new_context, attach, keep_handler, subscribe,
}

-- The loop's one round, or none that ends it.
abbrev pub round_of : ℤ → ℕ → Option SubscriberContext → Run (ℕ × Bool) → Run (ℕ × Bool)
round_of handle key none again = ok (key, false)
round_of handle key (some context) again =
    if handle == context.handle then ok (key, true) else again

module _ {E H : Type 0} (hash : ℕ → ℕ) where
  abbrev pub key_for : ℤ → Reactor E H → ℕ
  key_for handle r = get_key_for hash handle r.demux_impl

  -- The entry under the handle's key belongs to another handle.
  abbrev pub Collides : ℤ → Reactor E H → Type 0
  Collides handle r =
      (context : SubscriberContext) × (find (key_for handle r) r.subscribers_table ≡ some context)
      × ((handle == context.handle) ≡ false)

  find_key_step :
      (handle : ℤ) (r : Reactor E H) (rounds : ℕ)
      → find_key hash handle r (suc rounds)
        ≡ round_of handle
            (key_for handle r)
            (find (key_for handle r) r.subscribers_table)
            (find_key hash handle r rounds)
  unfolding find_key subscriber_at Hash.value_for
  find_key_step handle r rounds = ground arith

  -- If the entry under the handle's key belongs to another handle, the loop of subscribe has no
  -- end: no number of rounds suffices.
  pub find_key_spins :
      (handle : ℤ) (r : Reactor E H) (rounds : ℕ)
      → Collides handle r
      → find_key hash handle r rounds ≡ fault endless_loop
  find_key_spins handle r zero c = unfold find_key in refl
  find_key_spins handle r (suc rounds) (context, e, other) =
      rw (find_key_step handle r rounds)
        (rw e (rw other (find_key_spins handle r rounds (context, e, other))))

  -- Otherwise one round ends the loop, with the key and whether it is subscribed.
  pub find_key_returns :
      (handle : ℤ) (r : Reactor E H) (rounds : ℕ)
      → ((context : SubscriberContext)
          → find (key_for handle r) r.subscribers_table ≡ some context
          → (handle == context.handle) ≡ true)
      → find_key hash handle r (suc rounds)
        ≡ ok (key_for handle r, is_some (find (key_for handle r) r.subscribers_table))
  find_key_returns handle r rounds same =
      rw (find_key_step handle r rounds)
        (elim (Option-cases (find (key_for handle r) r.subscribers_table)) [
          | inl e ↦ rw e
          | inr (context, e) ↦ rw e (rw (same context e))
        ])

module _ {E H : Type 0} (epoll : Epoll E) (hash : ℕ → ℕ) where
  -- What `subscribe` leaves: an id other than the null one stands for the handle, its events and the
  -- handler object.
  pub record Subscribes (events : List HandleEvent) (handle : ℤ) (ev_handler : H)
      (answer : ℕ × Reactor E H) : Type 0 where
    pub sound : IsSound answer.1
    pub entered :
        answer.0 ≢ null_subscriber_id
        → find answer.0 answer.1.subscribers_table
          ≡ some (record (new_context events handle answer.0) { registered_to_monitor = true })
    pub mapped : answer.0 ≢ null_subscriber_id → key_of handle answer.1.demux_impl ≡ some answer.0
    pub handled :
        answer.0 ≢ null_subscriber_id
        → (handler_at answer.0 answer.1.handlers_table).event_handler ≡ some ev_handler

  with_handlers-IsSound :
      (r : Reactor E H) (id : ℕ) (ev_handler : H)
      → IsSound r
      → IsSound (record r { handlers_table = add_handler_in_table id ev_handler r.handlers_table })
  unfolding add_handler_in_table
  with_handlers-IsSound r id ev_handler s = record {
    unique_subscribers = s.unique_subscribers;
    unique_handlers = insert_or_assign-IsUnique id _ r.handlers_table s.unique_handlers;
    sorted = s.sorted;
    linked = s.linked;
  }

  handler_at-add :
      (r : Reactor E H) (id : ℕ) (ev_handler : H)
      → (handler_at id (add_handler_in_table id ev_handler r.handlers_table)).event_handler
        ≡ some ev_handler
  unfolding add_handler_in_table
  handler_at-add r id ev_handler =
      rw (find-insert_or_assign id id _ r.handlers_table) (rw (==_refl id))

  keep_handler-Subscribes :
      (events : List HandleEvent) (handle : ℤ) (key : ℕ) (ev_handler : H) (answer : ℕ × Reactor E H)
      → Enters epoll (new_context events handle key) answer
      → Subscribes events handle ev_handler (keep_handler epoll ev_handler answer)
  unfolding keep_handler
  keep_handler-Subscribes events handle key ev_handler (id, r) n =
      elim (Bool-cases (id == null_subscriber_id)) [
        | inl null ↦ rw null (record {
          sound = n.sound;
          entered = λ ne. absurd (ne ((==_iff id null_subscriber_id).0 null));
          mapped = n.mapped;
          handled = λ ne. absurd (ne ((==_iff id null_subscriber_id).0 null));
        })
        | inr some_id ↦ rw some_id (record {
          sound = with_handlers-IsSound r id ev_handler n.sound;
          entered = λ ne. elim n.answered [
            | inl zero_id ↦ absurd (ne zero_id)
            | inr same ↦
                n.entered ne
                ∙ ap
                    (λ k.
                      some (record (new_context events handle k) { registered_to_monitor = true }))
                    (sym same)
          ];
          mapped = n.mapped;
          handled = λ ne. handler_at-add r id ev_handler;
        })
      ]

  -- If the reactor is sound and the entry under the handle's key, if there is one, holds this
  -- handle, then subscribe returns within one round of its loop; the reactor stays sound, and an
  -- id other than the null one stands in the subscribers table as registered with the handle and
  -- the mask of the events, is what the handle is mapped to, and has the handler object given.
  pub subscribe-Subscribes :
      (rounds now : ℕ) (events : List HandleEvent) (handle : ℤ) (ev_handler : H) (r : Reactor E H)
      → IsSound r
      → ((context : SubscriberContext)
          → find (key_for hash handle r) r.subscribers_table ≡ some context
          → (handle == context.handle) ≡ true)
      → Returns
          (Subscribes events handle ev_handler)
          (subscribe epoll hash (suc rounds) now events handle ev_handler r)
  unfolding subscribe
  subscribe-Subscribes rounds now events handle ev_handler r s free =
      let (r1, cleaned, (s1, c)) = cleanup_expired-IsSound now r s in
      let key = key_for hash handle r1 in
      let same_key : key ≡ key_for hash handle r = rw c.same_demux in
      let ended =
        find_key_returns hash handle r1 rounds
          (λ context e. free context (rw (← same_key) (ground (arith, c.subscribers key)))) in
      let only = λ (k : ℕ) (e : key_of handle r1.demux_impl ≡ some k). sym (
        get_key_for_lem hash handle r1.demux_impl
        ∙ ap (λ found. or_hashed found (hash (to_uint32 handle))) e) in
      let context = new_context events handle key in
      let entered = attach-Enters epoll context r1 s1 refl only in
      (
        keep_handler epoll ev_handler
            (attach epoll (is_some (find key r1.subscribers_table)) context r1),
        rw (cleaned, ◌>>=◌) (rw (ended, ◌>>=◌)),
        keep_handler-Subscribes events handle key ev_handler _ entered,
      )
