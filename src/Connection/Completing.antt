-- ===== src/Connection/Completing.antt =====
-- The completion callbacks of the endpoints that wait for their connection
-- (TransportInfra/EndpointConnectionInitialiserBase.hpp).
use ipcinfra.Prelude.{ℕ, ◌≡◌, refl, Bool-cases, inl, inr, Option, none, some, List, [], ◌∷◌}
use ipcinfra.Prelude.Classes.{Eq, nat_eq}
use ipcinfra.Prelude.Run.{Run, ok, ◌>>=◌, Keeps, bind-Keeps, then-Keeps, map-Keeps}
use ipcinfra.Events.{HandleEvent, HandleEventResult}
use ipcinfra.EventHandling.{Listener}
use ipcinfra.LookupTable.Hash.{find}
use ipcinfra.LookupTable.Hash.Laws.{IsUnique, find-assigned}
use ipcinfra.Connection.{
  Initialiser, ClientEndpointSubscriber, Connection, handle_connection_success, act,
  destroy_endpoint, handle_connection_failure, follow, handle_found, handle_event,
}
use ipcinfra.Connection.Tallies.{Conserves, complete-Conserves, assign-Conserves, Conserves-trans}

module _ {E C L : Type 0} ⦃callbacks : Eq C⦄ (listeners : Listener L)
    (derived : Initialiser E L) where
  success-Conserves :
      (cb : C) (id : ℕ) (client : ClientEndpointSubscriber E C) (s : Connection E C L)
      → find id s.active_subscriptions ≡ some client
      → IsUnique s.active_subscriptions
      → Keeps (Conserves cb s) (handle_connection_success listeners derived id client s)
  unfolding handle_connection_success
  success-Conserves cb id client s there unique =
      then-Keeps (listeners.unsubscribe id s.listener) (λ answer.
        then-Keeps (act derived client.p_wrapped_endpoint answer.1) (λ acted.
          let client' = record client { p_wrapped_endpoint = some acted.1 } in
          let assigned = assign-Conserves cb id client client' s acted.2 there unique refl in
          elim (Bool-cases acted.0) [
            | inl done ↦ rw done (
                Keeps.kept (
                  Conserves-trans assigned (
                    complete-Conserves cb id client' client' _
                      (find-assigned id client' s.active_subscriptions) assigned.stays_unique
                      refl)))
            | inr undone ↦ rw undone (Keeps.kept assigned)
          ]))

  failure-Conserves :
      (cb : C) (id : ℕ) (client : ClientEndpointSubscriber E C) (s : Connection E C L)
      → find id s.active_subscriptions ≡ some client
      → IsUnique s.active_subscriptions
      → Keeps (Conserves cb s) (handle_connection_failure listeners derived id client s)
  unfolding handle_connection_failure
  failure-Conserves cb id client s there unique =
      then-Keeps (listeners.unsubscribe id s.listener) (λ answer.
        then-Keeps (destroy_endpoint derived client.p_wrapped_endpoint answer.1) (λ l'.
          let completed =
            complete-Conserves cb id client (record client { p_wrapped_endpoint = none })
              (record s { listener = l' }) there unique refl in
          Keeps.kept
            (record { balanced = completed.balanced; stays_unique = completed.stays_unique })))

  unchanged : (cb : C) (s : Connection E C L) → IsUnique s.active_subscriptions → Conserves cb s s
  unchanged cb s unique = record { balanced = refl; stays_unique = unique }

  follow-Conserves :
      (result : HandleEventResult) (cb : C) (id : ℕ) (client : ClientEndpointSubscriber E C)
      (s : Connection E C L)
      → find id s.active_subscriptions ≡ some client
      → IsUnique s.active_subscriptions
      → Keeps (Conserves cb s) (follow listeners derived result id client s)
  unfolding follow
  follow-Conserves HandleEventResult.method_not_implemented cb id client s there unique =
      Keeps.kept (unchanged cb s unique)
  follow-Conserves HandleEventResult.invalid_reference cb id client s there unique =
      Keeps.kept (unchanged cb s unique)
  follow-Conserves HandleEventResult.failure cb id client s there unique =
      failure-Conserves cb id client s there unique
  follow-Conserves HandleEventResult.default_result cb id client s there unique =
      Keeps.kept (unchanged cb s unique)
  follow-Conserves HandleEventResult.success cb id client s there unique =
      success-Conserves cb id client s there unique

  handle_found-Conserves :
      (o : Option (ClientEndpointSubscriber E C)) (event : HandleEvent) (cb : C) (id : ℕ)
      (s : Connection E C L)
      → find id s.active_subscriptions ≡ o
      → IsUnique s.active_subscriptions
      → Keeps (λ answer. Conserves cb s answer.1) (handle_found listeners derived id event o s)
  unfolding handle_found
  handle_found-Conserves none event cb id s there unique = Keeps.kept (unchanged cb s unique)
  handle_found-Conserves (some client) event cb id s there unique =
      bind-Keeps (follow-Conserves (derived.handle_event_impl event) cb id client s there unique)
        (λ s' conserves. Keeps.kept conserves)

  -- The events of any endpoints, one after the other.
  unfoldable pub handle_events : List (ℕ × HandleEvent) → Connection E C L → Run (Connection E C L)
  unfolding handle_event
  handle_events [] s = ok s
  handle_events ((id, event) ∷ events) s =
      handle_event listeners derived id event s >>= λ answer. handle_events events answer.1

  -- Over any sequence of events for the endpoints that wait in a connector or acceptor, if no id
  -- stands twice among them and the calls return, then no id does afterwards, and for each
  -- completion callback the number of its calls and of the endpoints that wait with it is
  -- together what it was before.
  pub handle_events-Conserves :
      (events : List (ℕ × HandleEvent)) (cb : C) (s : Connection E C L)
      → IsUnique s.active_subscriptions
      → Keeps (Conserves cb s) (handle_events events s)
  unfolding handle_events handle_event
  handle_events-Conserves [] cb s unique = Keeps.kept (unchanged cb s unique)
  handle_events-Conserves ((id, event) ∷ events) cb s unique =
      bind-Keeps (handle_found-Conserves (find id s.active_subscriptions) event cb id s refl unique)
        (λ answer first.
          map-Keeps (λ s'' next. Conserves-trans first next)
            (handle_events-Conserves events cb answer.1 first.stays_unique))
