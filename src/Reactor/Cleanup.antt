-- ===== src/Reactor/Cleanup.antt =====
-- What Reactor::cleanupExpired removes: exactly the expired or unregistered subscribers whose
-- handler stands in the table and is not in progress, and their handlers.
use ipcinfra.Prelude.{
  ℕ, ◌≡◌, refl, ◌∙◌, Bool, false, not, ◌&&◌, ◌||◌, Option, none, some, List, [], ◌∷◌, arith,
  if◌then◌else◌, Bool-cases, Option-cases, inl, inr,
}
use ipcinfra.Prelude.Classes.{◌==◌, nat_eq, ==_iff}
use ipcinfra.Prelude.Run.{ok, ◌>>=◌}
use ipcinfra.LookupTable.Hash.{find}
use ipcinfra.LookupTable.Hash.Laws.{IsUnique, contains, find-erase, erase-IsUnique}
use ipcinfra.LookupTable.Operations.{removed_keys, remove_if}
use ipcinfra.LookupTable.Operations.Laws.{
  without, remove_each-without, find-without, without-IsUnique,
}
use ipcinfra.Reactor.{
  SubscriberContext, EventHandlerWrapper, Handlers, Reactor, remove_handler, cleanup_test,
  cleanup_expired, removed_unless_in_progress,
}

abbrev pub is_stale : Option SubscriberContext → Bool
is_stale none = false
is_stale (some context) = context.expired || not context.registered_to_monitor

module _ {H : Type 0} where
  abbrev pub is_idle : Option (EventHandlerWrapper H) → Bool
  is_idle none = false
  is_idle (some w) = not w.in_progress

  abbrev pub removed : List (ℕ × SubscriberContext) → Handlers H → ℕ → Bool
  removed t hs j = is_stale (find j t) && is_idle (find j hs)

  find-remove_handler :
      (id j : ℕ) (hs : Handlers H)
      → find j (remove_handler id hs).1
        ≡ (if id == j && is_idle (find id hs) then none else find j hs)
  unfolding remove_handler
  find-remove_handler id j hs = elim (Option-cases (find id hs)) [
    | inl e ↦ rw (e, removed_unless_in_progress) (ground arith)
    | inr (w, e) ↦ rw (e, removed_unless_in_progress) (ground (arith, find-erase id j hs))
  ]

  remove_handler-idle : (id : ℕ) (hs : Handlers H) → (remove_handler id hs).0 ≡ is_idle (find id hs)
  unfolding remove_handler
  remove_handler-idle id hs = elim (Option-cases (find id hs)) [
    | inl e ↦ rw (e, removed_unless_in_progress)
    | inr (w, e) ↦ rw (e, removed_unless_in_progress) (ground arith)
  ]

  pub remove_handler-IsUnique :
      (id : ℕ) (hs : Handlers H) → IsUnique hs → IsUnique (remove_handler id hs).1
  unfolding remove_handler
  remove_handler-IsUnique id hs u = elim (Option-cases (find id hs)) [
    | inl e ↦ rw (e, removed_unless_in_progress) u
    | inr (w, e) ↦ rw (e, removed_unless_in_progress) (ground (arith, erase-IsUnique id hs u))
  ]

  abbrev Cleans : List (ℕ × SubscriberContext) → Handlers H → List ℕ × Handlers H → Type 0
  Cleans t hs (keys, hs') =
      IsUnique hs'
      × ((j : ℕ)
          → (contains keys j ≡ removed t hs j)
            × (find j hs' ≡ (if removed t hs j then none else find j hs)))

  removed_keys-Cleans :
      (t : List (ℕ × SubscriberContext)) (hs : Handlers H)
      → IsUnique t
      → IsUnique hs
      → Cleans t hs (removed_keys cleanup_test hs t)
  unfolding removed_keys cleanup_test find
  removed_keys-Cleans [] hs u v = (v, λ j. (refl, refl))
  removed_keys-Cleans ((k, context) ∷ t) hs u v =
      elim (Bool-cases (context.expired || not context.registered_to_monitor)) [
        | inl stale ↦
            let hs1 = (remove_handler k hs).1 in
            let (v1, ih) = removed_keys-Cleans t hs1 u.1 (remove_handler-IsUnique k hs v) in
            rw stale (
              v1,
              λ j.
                  let here = ih j in
                  ground (
                    arith,
                    here.0,
                    here.1,
                    find-remove_handler k j hs,
                    remove_handler-idle k hs,
                    ==_iff k j,
                  ),
            )
        | inr fresh ↦
            let (v1, ih) = removed_keys-Cleans t hs u.1 v in
            rw fresh (v1, λ j. let here = ih j in ground (arith, here.0, here.1, ==_iff k j))
      ]

module _ {E H : Type 0} where
  abbrev pub gone : Reactor E H → ℕ → Bool
  gone r j = removed r.subscribers_table r.handlers_table j

  -- What `cleanupExpired` changes, and what it leaves.
  pub record Cleaned (now : ℕ) (r r' : Reactor E H) : Type 0 where
    pub unique_subscribers : IsUnique r'.subscribers_table
    pub unique_handlers : IsUnique r'.handlers_table
    pub subscribers :
        (j : ℕ)
        → find j r'.subscribers_table ≡ (if gone r j then none else find j r.subscribers_table)
    pub handlers :
        (j : ℕ) → find j r'.handlers_table ≡ (if gone r j then none else find j r.handlers_table)
    pub same_demux : r'.demux_impl ≡ r.demux_impl
    pub same_queue : r'.event_queue ≡ r.event_queue
    pub same_running : r'.reactor_running ≡ r.reactor_running
    pub stamped : r'.cleanup_ts ≡ now

  -- If no id stands twice in the subscribers table or in the handlers table, cleanup_expired
  -- returns; it takes out of both tables exactly the ids whose entry is expired or not registered
  -- and whose handler is present and not in progress, keeps both free of repeated ids, sets the
  -- time of the cleanup, and leaves the demultiplexer, the queue and the running flag as they
  -- were.
  pub cleanup_expired-Cleaned :
      (now : ℕ) (r : Reactor E H)
      → IsUnique r.subscribers_table
      → IsUnique r.handlers_table
      → (r' : Reactor E H) × (cleanup_expired now r ≡ ok r') × Cleaned now r r'
  unfolding cleanup_expired remove_if
  cleanup_expired-Cleaned now r u v =
      let subs = r.subscribers_table in
      let keys = (removed_keys cleanup_test r.handlers_table subs).0 in
      let left = (removed_keys cleanup_test r.handlers_table subs).1 in
      let (v', cleans) = removed_keys-Cleans subs r.handlers_table u v in
      (
        record r { subscribers_table = without keys subs; handlers_table = left; cleanup_ts = now },
        rw (remove_each-without keys subs, ◌>>=◌),
        record {
          unique_subscribers = without-IsUnique keys subs u;
          unique_handlers = v';
          subscribers = λ j. find-without keys subs j ∙ rw (cleans j).0;
          handlers = λ j. (cleans j).1;
          same_demux = refl;
          same_queue = refl;
          same_running = refl;
          stamped = refl;
        },
      )
