-- ===== src/Reactor/Delivery.antt =====
-- Reactor::eventProcessingThread on a sound reactor, with handler code that keeps it sound and does
-- not unsubscribe the subscriber that it is called for.
use ipcinfra.Prelude.{
  ℕ, ◌≡◌, refl, Bool, true, false, some, List, [], ◌∷◌, if◌then◌else◌, leb, Option-cases,
  Bool-cases, inl, inr,
}
use ipcinfra.Prelude.Classes.{◌==◌, nat_eq}
use ipcinfra.Prelude.Run.{ok, ◌>>=◌, Returns}
use ipcinfra.LookupTable.Hash
use ipcinfra.LookupTable.Hash.{find}
use ipcinfra.LookupTable.Hash.Laws.{insert_or_assign-IsUnique}
use ipcinfra.Events.{HandleEvent, HandleEventResult, null_event, event_eq}
use ipcinfra.Events.Mask.{get_events_from_mask}
use ipcinfra.Events.Priority.{goes_before}
use ipcinfra.Demux.{get_key_for}
use ipcinfra.Demux.Monitor.{EventNotification}
use ipcinfra.Reactor.{
  SubscriberContext, EventHandlerWrapper, Reactor, put_handler, handler_at, set_handler_in_progress,
  stored_in_progress,
}
use ipcinfra.Reactor.Subscribing.{subscriber_at}
use ipcinfra.Reactor.Soundness.{IsSound, cleanup_expired-IsSound, put_context-IsSound}
use ipcinfra.Reactor.Dispatch.{
  HandlerCode, Sort, is_invalid, handle_event, touch_handler, deliver, clear_in_progress, expire,
  dispatch, cleanup_if_due, process_notification, elapsed_from,
}

module _ {E H : Type 0} where
  -- A sound reactor in which the subscriber has the context.
  abbrev pub Serves : ℕ → SubscriberContext → Reactor E H → Type 0
  Serves id context r = IsSound r × (find id r.subscribers_table ≡ some context)

  put_handler-IsSound :
      (r : Reactor E H) (id : ℕ) (w : EventHandlerWrapper H)
      → IsSound r
      → IsSound (record r { handlers_table = put_handler id w r.handlers_table })
  unfolding put_handler
  put_handler-IsSound r id w s = record {
    unique_subscribers = s.unique_subscribers;
    unique_handlers = insert_or_assign-IsUnique id w r.handlers_table s.unique_handlers;
    sorted = s.sorted;
    linked = s.linked;
  }

  expire-IsSound :
      (id : ℕ) (context : SubscriberContext) (r : Reactor E H)
      → Serves id context r
      → IsSound (expire id context r)
  unfolding expire
  expire-IsSound id context r (s, e) =
      put_context-IsSound id (record context { expired = true }) r s (s.linked id context e)

  cleanup_if_due-IsSound :
      (now : ℕ) (r : Reactor E H) → IsSound r → Returns IsSound (cleanup_if_due now r)
  unfolding cleanup_if_due
  cleanup_if_due-IsSound now r s = elim (Bool-cases (leb 300 (elapsed_from now r.cleanup_ts))) [
    | inl due ↦ let (r', e, (s', c)) = cleanup_expired-IsSound now r s in (r', rw due e, s')
    | inr early ↦ (r, rw early, s)
  ]

module _ {E H : Type 0} (run : HandlerCode E H) (id : ℕ) (context : SubscriberContext) where
  -- The handlers that the code stands for leave the subscriber in place.
  abbrev pub Keeps : Type 0
  Keeps =
      (h : H) (event : HandleEvent) (r : Reactor E H)
      → Serves id context r
      → Returns (λ answer. Serves id context answer.1) (run h id event r)

  handle_event-Serves :
      (w : EventHandlerWrapper H) (event : HandleEvent) (r : Reactor E H)
      → Keeps
      → Serves id context r
      → Returns (λ answer. Serves id context answer.1) (handle_event run w id event r)
  unfolding handle_event
  handle_event-Serves w event r keeps s = elim (Option-cases w.event_handler) [
    | inl e ↦ ((HandleEventResult.invalid_reference, r), rw e, s)
    | inr (h, e) ↦ let (a, ran, s') = keeps h event r s in (a, rw e ran, s')
  ]

  deliver-Serves :
      (events : List HandleEvent) (r : Reactor E H)
      → Keeps
      → Serves id context r
      → Returns (λ answer. Serves id context answer.1) (deliver run id events r)
  unfolding deliver touch_handler
  deliver-Serves [] r keeps s = ((false, r), refl, s)
  deliver-Serves (event ∷ events) r keeps s = elim (Bool-cases (event == null_event)) [
    | inl null ↦ let (a, ran, s') = deliver-Serves events r keeps s in (a, rw null ran, s')
    | inr real ↦
        let (answer, ran, s') =
          handle_event-Serves (handler_at id r.handlers_table) event (touch_handler id r) keeps
            (put_handler-IsSound r id (handler_at id r.handlers_table) s.0, s.1) in
        elim (Bool-cases (is_invalid answer.0)) [
          | inl bad ↦ ((true, answer.1), rw real (rw (ran, ◌>>=◌) (rw bad)), s')
          | inr good ↦
              let (a, rest, s'') = deliver-Serves events answer.1 keeps s' in
              (a, rw real (rw (ran, ◌>>=◌) (rw good rest)), s'')
        ]
  ]

  dispatch-IsSound :
      (hash : ℕ → ℕ) (sort : Sort) (mask : ℕ) (r : Reactor E H)
      → Keeps
      → Serves id context r
      → Returns (λ answer. IsSound answer.1) (dispatch run hash sort id mask context r)
  unfolding dispatch set_handler_in_progress clear_in_progress
  dispatch-IsSound hash sort mask r keeps s = elim (Option-cases (find id r.handlers_table)) [
    | inl missing ↦ (
      (false, expire id context r),
      rw (missing, stored_in_progress),
      expire-IsSound id context r s,
    )
    | inr (w, e) ↦
        let busy : Reactor E H = record r {
          handlers_table = put_handler id (record w { in_progress = true }) r.handlers_table;
        } in
        let ((invalid, r'), ran, s') =
          deliver-Serves (sort goes_before (get_events_from_mask mask)) busy keeps
            (put_handler-IsSound r id (record w { in_progress = true }) s.0, s.1) in
        let after = λ (r'' : Reactor E H) (s'' : IsSound r'').
          put_handler-IsSound r'' id
            (record (handler_at id r''.handlers_table) { in_progress = false }) s'' in
        elim (Bool-cases invalid) [
          | inl bad ↦ (
            (true, clear_in_progress id (expire id context r')),
            rw (e, stored_in_progress) (rw (ran, ◌>>=◌) (rw bad)),
            after (expire id context r') (expire-IsSound id context r' s'),
          )
          | inr good ↦ (
            (true, clear_in_progress id r'),
            rw (e, stored_in_progress) (rw (ran, ◌>>=◌) (rw good)),
            after r' s'.0,
          )
        ]
  ]

module _ {E H : Type 0} (run : HandlerCode E H) (hash : ℕ → ℕ) (sort : Sort) where
  finish_round :
      (now : ℕ) (goes_on : Bool) (r : Reactor E H)
      → IsSound r
      → Returns IsSound (if goes_on then cleanup_if_due now r else ok r)
  finish_round now true r s = cleanup_if_due-IsSound now r s
  finish_round now false r s = (r, refl, s)

  -- If the reactor is sound and the handler code, run for the subscriber under the notification's
  -- key, keeps the reactor sound and that subscriber's entry as it is, then a round of the event
  -- thread at the notification returns, answers that the thread ends exactly for the last
  -- notification, and keeps the reactor sound.
  pub process_notification-IsSound :
      (now : ℕ) (n : EventNotification) (r : Reactor E H)
      → IsSound r
      → ((context : SubscriberContext)
          → find (get_key_for hash n.handle r.demux_impl) r.subscribers_table ≡ some context
          → Keeps run (get_key_for hash n.handle r.demux_impl) context)
      → Returns
          (λ answer. (answer.0 ≡ n.last_event) × IsSound answer.1)
          (process_notification run hash sort now n r)
  unfolding process_notification subscriber_at Hash.value_for
  process_notification-IsSound now n r s keeps =
      let key = get_key_for hash n.handle r.demux_impl in
      elim (Bool-cases n.last_event) [
        | inl last ↦ ((true, r), rw last, (rw last, s))
        | inr going ↦ elim (Option-cases (find key r.subscribers_table)) [
          | inl absent ↦
              let (r', ran, s') = finish_round now true r s in
              ((false, r'), rw going (rw absent (rw ran)), (rw going, s'))
          | inr (context, e) ↦ elim (Bool-cases context.expired) [
            | inl old ↦
                let (r', ran, s') = finish_round now true r s in
                ((false, r'), rw going (rw e (rw old (rw ran))), (rw going, s'))
            | inr current ↦
                let ((goes_on, r1), ran, s1) =
                  dispatch-IsSound run key context hash sort n.notified_events_mask r
                    (keeps context e) (s, e) in
                let (r', rest, s') = finish_round now goes_on r1 s1 in
                ((false, r'), rw going (rw e (rw current (rw ran (rw rest)))), (rw going, s'))
          ]
        ]
      ]
