-- ===== src/Connection/Outcomes.antt =====
-- What an event makes of an endpoint that waits for its connection (TransportInfra/Connector.hpp,
-- TransportInfra/Acceptor.hpp), over a listener that answers every call.
use ipcinfra.Prelude.{
  ℕ, ◌≡◌, refl, sym, ◌∙◌, Bool, true, false, Bool-cases, inl, inr, Option, none, some, Option-cases,
  List, [], ◌∷◌, ◌++◌, if◌then◌else◌,
}
use mathlib.Core.Path.{subst}
use ipcinfra.Prelude.Int.{ℤ}
use ipcinfra.Prelude.Classes.{◌==◌, nat_eq}
use ipcinfra.Prelude.Run.{Run, ok, ◌>>=◌, Returns, bind-Returns}
use ipcinfra.Events.{
  HandleEvent, HandleEventResult, null_event, in_event, prio_in_event, out_event, err_event,
  hup_event, shutdown_event, last_event,
}
use ipcinfra.EventHandling.{
  Listener, EventHandlingPolicy, subscribed_to_listener, listener_subscribe,
}
use ipcinfra.LookupTable.Hash.{find}
use ipcinfra.LookupTable.Hash.Laws.{find-insert_or_assign, find-erase}
use ipcinfra.Client.{on_connected}
use ipcinfra.Server.{ServedClient}
use ipcinfra.Server.Accepting.{IsAnswering, listener_unsubscribe-Returns}
use ipcinfra.Connection.{
  ClientEndpointSubscriber, Connection, handle_event, handle_found, follow,
  handle_connection_success, handle_connection_failure, act, destroy_endpoint,
}
use ipcinfra.Connection.Connector
use ipcinfra.Connection.Connector.{connector}

-- The events that the connector takes for a failure: their values share a bit with 5.
abbrev pub is_refusing : HandleEvent → Bool
is_refusing in_event = true
is_refusing err_event = true
is_refusing hup_event = true
is_refusing shutdown_event = true
is_refusing last_event = true
is_refusing _ = false

abbrev pub is_idle : HandleEvent → Bool
is_idle null_event = true
is_idle prio_in_event = true
is_idle _ = false

module _ {E C L : Type 0} where
  -- The callback is called once, and the entry is gone.
  pub record Completes (id : ℕ) (cb : C) (o : Option E) (s s' : Connection E C L) : Type 0 where
    pub call : s'.completed ≡ s.completed ++ (cb, o) ∷ []
    pub entries :
        (j : ℕ)
        → find j s'.active_subscriptions ≡ (if id == j then none else find j s.active_subscriptions)

module _ {L : Type 0} {listeners : Listener L} (answering : IsAnswering listeners) where
  listener_subscribe-Returns :
      (handle : ℤ) (events : List HandleEvent) (p : EventHandlingPolicy) (l : L)
      → (answer : Bool × EventHandlingPolicy × L) × (listener_subscribe listeners handle events p l
          ≡ ok answer)
  unfolding listener_subscribe
  listener_subscribe-Returns handle events p l =
      let (answer, answered) = answering.subscribes events handle l in
      elim (Option-cases p.optional_handle_ref) [
        | inl nothing ↦ rw nothing (_, refl)
        | inr (known, something) ↦ rw (something, answered) (_, refl)
      ]

module _ {D K L : Type 0} {listeners : Listener L} (answering : IsAnswering listeners)
    (get_handle : D → ℤ) where
  destroy-Returns :
      (e : ServedClient D K) (l : L)
      → (l' : L) × (Connector.destroy listeners get_handle e l ≡ ok l')
  unfolding Connector.destroy
  destroy-Returns e l =
      let (answer, answered) = listener_unsubscribe-Returns answering e.policy l in
      elim (Bool-cases (subscribed_to_listener e.policy)) [
        | inl known ↦ rw (known, answered) (_, refl)
        | inr unknown ↦ rw unknown (l, refl)
      ]

  post-Joins :
      (e : ServedClient D K) (l : L)
      → Returns
          (λ answer. (answer.0 ≡ true) × (answer.1.client ≡ on_connected e.client))
          (Connector.post_connection_action listeners get_handle e l)
  unfolding Connector.post_connection_action
  post-Joins e l =
      let (answer, answered) =
        listener_subscribe-Returns answering (get_handle (on_connected e.client).device)
          (in_event ∷ []) e.policy l in
      rw answered (_, refl, (refl, refl))

module _ {D K C L : Type 0} where
  -- What the connector makes of an event for a client's endpoint that waits.
  pub data Connects (id : ℕ) (e : ServedClient D K) (cb : C) (s : Connection (ServedClient D K) C L)
      : HandleEvent → HandleEventResult × Connection (ServedClient D K) C L → Type 0 where
    joined :
        {s' : Connection (ServedClient D K) C L} (e' : ServedClient D K)
        → e'.client ≡ on_connected e.client
        → Completes id cb (some e') s s'
        → Connects id e cb s out_event (HandleEventResult.success, s')
    refused :
        {s' : Connection (ServedClient D K) C L} {event : HandleEvent}
        → is_refusing event ≡ true
        → Completes id cb none s s'
        → Connects id e cb s event (HandleEventResult.failure, s')
    waiting :
        {event : HandleEvent}
        → is_idle event ≡ true
        → Connects id e cb s event (HandleEventResult.default_result, s)

module _ {D K C L : Type 0} {listeners : Listener L} (answering : IsAnswering listeners)
    (get_handle : D → ℤ) where
  success-Connects :
      (id : ℕ) (e : ServedClient D K) (cb : C) (s : Connection (ServedClient D K) C L)
      → find id s.active_subscriptions
        ≡ some (record { p_wrapped_endpoint = some e; completion_callback = cb })
      → Returns
          (λ s'. Connects id e cb s out_event (HandleEventResult.success, s'))
          (handle_connection_success listeners
            (connector listeners get_handle)
            id
            (record { p_wrapped_endpoint = some e; completion_callback = cb })
            s)
  unfolding handle_connection_success act
  success-Connects id e cb s there =
      let ((b, l), answered) = answering.unsubscribes id s.listener in
      let ((done, e', l'), posted, (is_done, same)) = post-Joins answering get_handle e l in
      let client' : ClientEndpointSubscriber (ServedClient D K) C = record {
        p_wrapped_endpoint = some e';
        completion_callback = cb;
      } in
      rw (answered, posted, is_done)
        (
          _,
          refl,
          joined e' same (record {
            call = refl;
            entries = λ j. find-erase id j _ ∙ elim (Bool-cases (id == j)) [
              | inl here ↦ rw here refl
              | inr other ↦
                  rw other (rw other at (find-insert_or_assign id j client' s.active_subscriptions))
            ];
          }),
        )

  failure-Connects :
      (event : HandleEvent) (id : ℕ) (e : ServedClient D K) (cb : C)
      (s : Connection (ServedClient D K) C L)
      → is_refusing event ≡ true
      → Returns
          (λ s'. Connects id e cb s event (HandleEventResult.failure, s'))
          (handle_connection_failure listeners
            (connector listeners get_handle)
            id
            (record { p_wrapped_endpoint = some e; completion_callback = cb })
            s)
  unfolding handle_connection_failure destroy_endpoint
  failure-Connects event id e cb s refusing =
      let ((b, l), answered) = answering.unsubscribes id s.listener in
      let (l', destroyed) = destroy-Returns answering get_handle e l in
      rw (answered, destroyed)
        (
          _,
          refl,
          refused refusing
              (record { call = refl; entries = λ j. find-erase id j s.active_subscriptions }),
        )

  answer_with :
      {id : ℕ} {e : ServedClient D K} {cb : C} {s : Connection (ServedClient D K) C L}
      {event : HandleEvent} {r : Run (Connection (ServedClient D K) C L)}
      (result : HandleEventResult)
      → Returns (λ s'. Connects id e cb s event (result, s')) r
      → Returns (Connects id e cb s event) (r >>= λ s'. ok (result, s'))
  answer_with result returns =
      bind-Returns {f = λ s'. ok (result, s')} returns
        (λ s' connects. ((result, s'), refl, connects))

  found-Connects :
      (event : HandleEvent) (id : ℕ) (e : ServedClient D K) (cb : C)
      (s : Connection (ServedClient D K) C L)
      → find id s.active_subscriptions
        ≡ some (record { p_wrapped_endpoint = some e; completion_callback = cb })
      → Returns (Connects id e cb s event) (
          handle_found listeners
            (connector listeners get_handle)
            id
            event
            (some (record { p_wrapped_endpoint = some e; completion_callback = cb }))
            s)
  unfolding handle_found follow Connector.handle_event_impl
  found-Connects null_event id e cb s there = (_, refl, waiting refl)
  found-Connects in_event id e cb s there =
      answer_with HandleEventResult.failure (failure-Connects in_event id e cb s refl)
  found-Connects prio_in_event id e cb s there = (_, refl, waiting refl)
  found-Connects out_event id e cb s there =
      answer_with HandleEventResult.success (success-Connects id e cb s there)
  found-Connects err_event id e cb s there =
      answer_with HandleEventResult.failure (failure-Connects err_event id e cb s refl)
  found-Connects hup_event id e cb s there =
      answer_with HandleEventResult.failure (failure-Connects hup_event id e cb s refl)
  found-Connects shutdown_event id e cb s there =
      answer_with HandleEventResult.failure (failure-Connects shutdown_event id e cb s refl)
  found-Connects last_event id e cb s there =
      answer_with HandleEventResult.failure (failure-Connects last_event id e cb s refl)

  -- If the listener answers every call and an endpoint waits in the connector for its connection
  -- by an id, then handleEvent for that id returns for every event. At the writable event it
  -- answers success and the completion callback is called once with the endpoint, on which
  -- onConnected was called; at an input, error, hangup, shutdown or last event it answers failure
  -- and the callback is called once with a null pointer; in both the entry is gone and every
  -- other id finds what it found before. At the other events it answers the default and changes
  -- nothing.
  pub handle_event-Connects :
      (event : HandleEvent) (id : ℕ) (e : ServedClient D K) (cb : C)
      (s : Connection (ServedClient D K) C L)
      → find id s.active_subscriptions
        ≡ some (record { p_wrapped_endpoint = some e; completion_callback = cb })
      → Returns
          (Connects id e cb s event)
          (handle_event listeners (connector listeners get_handle) id event s)
  unfolding handle_event
  handle_event-Connects event id e cb s there =
      subst
        (λ (o : Option (ClientEndpointSubscriber (ServedClient D K) C)).
          Returns (Connects id e cb s event)
            (handle_found listeners (connector listeners get_handle) id event o s))
        (sym there) (found-Connects event id e cb s there)
