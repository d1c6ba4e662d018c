-- ===== src/Dispatcher/Client.antt =====
-- BaseDispatcherPolicy of a client (TransportInfra/Policies/DispatcherPolicy.hpp): an input event
-- reads from the device into a buffer and calls the registered callback.
use ipcinfra.Prelude.{ℕ, ◌≡◌, refl, Bool, true, false, Option, none, some, List, [], ◌∷◌, ◌++◌}

pub record ClientDispatcher (C : Type 0) : Type 0 where
  pub input_available : Option C
  pub disconnection : Option C
  pub local_buffer : List ℕ

-- What is called: a callback, or `onErrorEvent` of the endpoint.
pub data Reaction (C : Type 0) : Type 0 where
  received : C → List ℕ → Reaction C
  disconnected : C → Reaction C
  error_event : Reaction C

-- What `read` of the device does to the buffer, `none` where it answers -1.
abbrev pub Read : Type 0
Read = List ℕ → Option (List ℕ)

-- A device that puts what has come in behind what the buffer holds, or fails.
abbrev pub appending : Option (List ℕ) → Read
appending none buffer = none
appending (some data_view) buffer = some (buffer ++ data_view)

module _ {C : Type 0} where
  unfoldable pub register_input_callback : Option C → ClientDispatcher C → Bool × ClientDispatcher C
  register_input_callback cb d = (true, record d { input_available = cb })

  unfoldable pub register_disconnection_callback :
      Option C → ClientDispatcher C → Bool × ClientDispatcher C
  register_disconnection_callback cb d = (false, record d { disconnection = cb })

  unfoldable pub process_input_event :
      Read → ClientDispatcher C → Bool × List (Reaction C) × ClientDispatcher C
  process_input_event read d = elim (read d.local_buffer) [
    | none ↦ (false, Reaction.error_event ∷ [], d)
    | some contents ↦ (
      true,
      elim d.input_available [ some cb ↦ Reaction.received cb contents ∷ [] | none ↦ [] ],
      record d { local_buffer = [] },
    )
  ]

  unfoldable pub process_disconnection : ClientDispatcher C → List (Reaction C)
  process_disconnection d = elim d.disconnection [
    | some cb ↦ Reaction.disconnected cb ∷ []
    | none ↦ []
  ]

  unfoldable pub process_events :
      List (Option (List ℕ)) → ClientDispatcher C → List (Reaction C) × ClientDispatcher C
  process_events [] d = ([], d)
  process_events (arrived ∷ events) d =
      let (_, now, d') = process_input_event (appending arrived) d in
      let (later, d'') = process_events events d' in (now ++ later, d'')

  abbrev pub reactions : C → List (Option (List ℕ)) → List (Reaction C)
  reactions cb [] = []
  reactions cb (none ∷ events) = Reaction.error_event ∷ reactions cb events
  reactions cb (some data_view ∷ events) = Reaction.received cb data_view ∷ reactions cb events

  -- If a client's dispatcher has an input callback and an empty buffer, and read of its device
  -- puts what has come in at the end of the buffer or fails and leaves the buffer as it is, then
  -- over any sequence of input events the callback is called once for each read that does not
  -- fail, with what that read brought and nothing else, onErrorEvent once for each that fails, in
  -- their order, and the buffer ends empty.
  pub process_events-reactions :
      (cb : C) (disconnection : Option C) (events : List (Option (List ℕ)))
      → process_events events
          (record { input_available = some cb; disconnection = disconnection; local_buffer = [] })
        ≡ (
          reactions cb events,
          record { input_available = some cb; disconnection = disconnection; local_buffer = [] },
        )
  unfolding process_events process_input_event
  process_events-reactions cb disconnection [] = refl
  process_events-reactions cb disconnection (none ∷ events) =
      rw (process_events-reactions cb disconnection events) refl
  process_events-reactions cb disconnection (some data_view ∷ events) =
      rw (process_events-reactions cb disconnection events) refl
