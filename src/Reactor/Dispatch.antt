-- ===== src/Reactor/Dispatch.antt =====
-- Reactor::eventProcessingThread (TransportInfra/Reactor/Reactor.hpp). A handler object may call the
-- reactor back while it runs: `run` is the handlers' code, and acts on the reactor. `sort` is
-- std::stable_sort.
use ipcinfra.Prelude.{
  ℕ, ◌-◌, ◌/◌, ◌^◌, Bool, true, false, not, ◌&&◌, Option, none, some, List, [], ◌∷◌, leb,
  if◌then◌else◌,
}
use ipcinfra.Prelude.Classes.{◌==◌, nat_eq}
use ipcinfra.Prelude.Run.{Run, ok, ◌>>=◌}
use ipcinfra.Events.{HandleEvent, HandleEventResult, null_event, event_eq}
use ipcinfra.Events.Mask.{get_events_from_mask}
use ipcinfra.Events.Priority.{goes_before}
use ipcinfra.SharedQueue.{wait_and_pop, blocked, popped}
use ipcinfra.Demux.{get_key_for}
use ipcinfra.Demux.Monitor.{EventNotification}
use ipcinfra.Reactor.{
  SubscriberContext, EventHandlerWrapper, Reactor, put_context, handler_at, put_handler,
  set_handler_in_progress, cleanup_expired,
}
use ipcinfra.Reactor.Subscribing.{subscriber_at}

abbrev pub is_invalid : HandleEventResult → Bool
is_invalid HandleEventResult.invalid_reference = true
is_invalid HandleEventResult.method_not_implemented = false
is_invalid HandleEventResult.failure = false
is_invalid HandleEventResult.default_result = false
is_invalid HandleEventResult.success = false

abbrev pub ticks_per_second : ℕ
ticks_per_second = 10 ^ 9

-- `elapsedFrom`, in seconds: the signed difference of two times, converted to `size_t`.
unfoldable pub elapsed_from : ℕ → ℕ → ℕ
elapsed_from now ts =
    if leb ts now then (now - ts) / ticks_per_second else (2 ^ 64 - (ts - now) / ticks_per_second)

abbrev pub cleanup_interval_s : ℕ
cleanup_interval_s = 300

-- What the handler code does with an event, and to the reactor.
abbrev pub HandlerCode : Type 0 → Type 0 → Type 0
HandlerCode E H = H → ℕ → HandleEvent → Reactor E H → Run (HandleEventResult × Reactor E H)

abbrev pub Sort : Type 0
Sort = (HandleEvent → HandleEvent → Bool) → List HandleEvent → List HandleEvent

module _ {E H : Type 0} where
  -- `m_handlers_table[sub_id]` is entered if it is missing.
  unfoldable pub touch_handler : ℕ → Reactor E H → Reactor E H
  touch_handler sub_id r = record r {
    handlers_table = put_handler sub_id (handler_at sub_id r.handlers_table) r.handlers_table;
  }

  unfoldable pub clear_in_progress : ℕ → Reactor E H → Reactor E H
  clear_in_progress sub_id r = record r {
    handlers_table =
        put_handler sub_id (record (handler_at sub_id r.handlers_table) { in_progress = false })
          r.handlers_table;
  }

  -- The copy of the context that the thread holds is written back as expired.
  unfoldable pub expire : ℕ → SubscriberContext → Reactor E H → Reactor E H
  expire sub_id context r = put_context sub_id (record context { expired = true }) r

  unfoldable pub cleanup_if_due : ℕ → Reactor E H → Run (Reactor E H)
  unfolding elapsed_from
  cleanup_if_due now r =
      if leb cleanup_interval_s (elapsed_from now r.cleanup_ts) then cleanup_expired now r else ok r

module _ {E H : Type 0} (run : HandlerCode E H) where
  -- EventHandlerWrapper::handleEvent
  unfoldable pub handle_event :
      EventHandlerWrapper H → ℕ → HandleEvent → Reactor E H → Run (HandleEventResult × Reactor E H)
  handle_event w id event r = elim w.event_handler [
    | none ↦ ok (HandleEventResult.invalid_reference, r)
    | some h ↦ run h id event r
  ]

  -- The loop over the sorted events: whether a handler answered that its reference is invalid.
  unfoldable pub deliver : ℕ → List HandleEvent → Reactor E H → Run (Bool × Reactor E H)
  unfolding handle_event touch_handler
  deliver sub_id [] r = ok (false, r)
  deliver sub_id (event ∷ events) r =
      let rest = λ (r' : Reactor E H). deliver sub_id events r' in
      if event == null_event
      then rest r
      else (handle_event (handler_at sub_id r.handlers_table) sub_id event (touch_handler sub_id r)
          >>= λ answer. if is_invalid answer.0 then ok (true, answer.1) else rest answer.1)

  module _ (hash : ℕ → ℕ) (sort : Sort) where
    -- A found subscriber: whether the loop goes on to the cleanup, and the reactor.
    unfoldable pub dispatch : ℕ → ℕ → SubscriberContext → Reactor E H → Run (Bool × Reactor E H)
    unfolding deliver clear_in_progress expire
    dispatch sub_id mask context r =
        let (present, handlers) = set_handler_in_progress sub_id true r.handlers_table in
        let delivered =
          deliver sub_id (sort goes_before (get_events_from_mask mask))
            (record r { handlers_table = handlers }) in
        if present
        then (do
          (invalid, r') ← delivered
          ok (true, clear_in_progress sub_id (if invalid then expire sub_id context r' else r')))
        else ok (false, expire sub_id context r)

    -- One round of the loop, at a notification: whether the thread returns, and the reactor.
    unfoldable pub process_notification :
        ℕ → EventNotification → Reactor E H → Run (Bool × Reactor E H)
    unfolding dispatch cleanup_if_due
    process_notification now n r =
        let sub_id = get_key_for hash n.handle r.demux_impl in
        let (context, found) = subscriber_at sub_id r in
        let handled =
          if found && not context.expired
          then dispatch sub_id n.notified_events_mask context r
          else ok (true, r) in
        if n.last_event then ok (true, r) else (do
          (goes_on, r') ← handled
          r'' ← if goes_on then cleanup_if_due now r' else ok r'
          ok (false, r''))

    -- A round from the queue: `none` while the thread waits.
    unfoldable pub event_processing_round : ℕ → Reactor E H → Run (Option Bool × Reactor E H)
    unfolding process_notification
    event_processing_round now r = do
      (next, q) ← wait_and_pop r.event_queue
      elim next [
        | blocked ↦ ok (none, record r { event_queue = q })
        | popped n ↦ do
          (ended, r') ← process_notification now n (record r { event_queue = q })
          ok (some ended, r')
      ]
