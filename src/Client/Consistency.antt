-- ===== src/Client/Consistency.antt =====
-- The connection's state and the device behind it (TransportInfra/Policies/ClientCallbackPolicy.hpp).
use mathlib.Core.Bool.{true≢false}
use ipcinfra.Prelude.{
  ℕ, ◌≡◌, refl, sym, ap, ◌∙◌, Bool, true, false, not, ◌&&◌, ◌||◌, Bool-cases, inl, inr, some,
  Option-cases, List, [], ◌∷◌, ◌++◌, append_assoc, if◌then◌else◌,
}
use ipcinfra.Events.{
  HandleEvent, null_event, in_event, prio_in_event, out_event, err_event, hup_event, shutdown_event,
  last_event,
}
use ipcinfra.Prelude.Classes.{◌==◌, nat_eq}
use ipcinfra.Dispatcher.Client.{ClientDispatcher, Reaction, process_disconnection}
use ipcinfra.EventHandling.{EventHandlingPolicy, process_event, handle_event}
use ipcinfra.Client.{
  ConnectionState, available, connecting, connected, disconnecting, disconnected, binded, listening,
  error, is, ConnectableDevice, ClientEndpoint, created, tell_disconnection, set_state,
  on_connected, on_write_available, on_hangup_event, process_disconnection_event, on_disconnection,
  connect, disconnect, on_error_event, on_input_event, client_handlers,
}

-- The states that stand for a connection.
abbrev pub in_use : ConnectionState → Bool
in_use state = is connecting state || (is connected state || is disconnecting state)

-- What the user or the reactor does.
pub data Operation : Type 0 where
  connecting_to : Bool → Operation
  disconnecting_from : Operation
  event_came : ℕ → HandleEvent → EventHandlingPolicy → Operation

none_of : {P : Type 0} → false ≡ true → P
none_of h = absurd (true≢false (sym h))

accepted : (b c : Bool) → (b && c) ≡ true → c ≡ true
accepted true c h = h
accepted false c h = none_of h

connected_in_use : (state : ConnectionState) → is connected state ≡ true → in_use state ≡ true
connected_in_use available h = none_of h
connected_in_use connecting h = none_of h
connected_in_use connected h = refl
connected_in_use disconnecting h = none_of h
connected_in_use disconnected h = none_of h
connected_in_use binded h = none_of h
connected_in_use listening h = none_of h
connected_in_use error h = none_of h

connecting_in_use : (state : ConnectionState) → is connecting state ≡ true → in_use state ≡ true
connecting_in_use state h = rw h refl

module _ {D : Type 0} {C : Type 0} (devices : ConnectableDevice D) where
  open devices use {joined, connect_joined, connect_joins, disconnect_keeps, read_keeps}

  unfoldable pub perform : Operation → ClientEndpoint D C → ClientEndpoint D C
  perform (Operation.connecting_to non_blocking) e = (connect devices non_blocking e).1
  perform Operation.disconnecting_from e = (disconnect devices e).1
  perform (Operation.event_came id event p) e =
      (handle_event (client_handlers devices) id event p e).1

  pub data Reachable (device : D) (dispatcher : ClientDispatcher C)
      : ClientEndpoint D C → Type 0 where
    start : Reachable device dispatcher (created device dispatcher)
    step :
        {e e' : ClientEndpoint D C} (o : Operation)
        → Reachable device dispatcher e
        → perform o e ≡ e'
        → Reachable device dispatcher e'

  pub record IsConsistent (e : ClientEndpoint D C) : Type 0 where
    pub backed : in_use e.connection_state ≡ true → joined e.device ≡ true
    pub under_way : is connecting e.connection_state ≡ true → e.connection_in_progress ≡ true

  set_state-IsConsistent :
      (state : ConnectionState) (e : ClientEndpoint D C)
      → (in_use state ≡ true → joined e.device ≡ true)
      → (is connecting state ≡ true → e.connection_in_progress ≡ true)
      → IsConsistent (set_state state e)
  unfolding set_state tell_disconnection
  set_state-IsConsistent state e b u =
      elim (Bool-cases (is disconnected state && not (is disconnected e.connection_state))) [
        | inl told ↦ rw told (record { backed = b; under_way = u })
        | inr silent ↦ rw silent (record { backed = b; under_way = u })
      ]

  connect-IsConsistent :
      (non_blocking : Bool) (e : ClientEndpoint D C)
      → IsConsistent e
      → IsConsistent (connect devices non_blocking e).1
  unfolding connect
  connect-IsConsistent non_blocking e c =
      let answer = devices.connect non_blocking e.device in
      elim (Bool-cases (non_blocking && answer.0)) [
        | inl under_way ↦ rw under_way (
            set_state-IsConsistent connecting
              (record e { device = answer.1; connection_in_progress = true })
              (λ h. connect_joins non_blocking e.device (accepted non_blocking answer.0 under_way))
              (λ h. refl))
        | inr other ↦ rw other (record {
          backed = λ h.
              ap (λ (a : Bool × D). joined a.1) (connect_joined non_blocking e.device (c.backed h))
              ∙ c.backed h;
          under_way = c.under_way;
        })
      ]

  disconnect-IsConsistent :
      (e : ClientEndpoint D C) → IsConsistent e → IsConsistent (disconnect devices e).1
  unfolding disconnect
  disconnect-IsConsistent e c = elim (Bool-cases (devices.disconnect e.device).0) [
    | inl done ↦ rw done (
        set_state-IsConsistent disconnected (record e { device = (devices.disconnect e.device).1 })
          none_of none_of)
    | inr refused ↦ rw refused (record {
      backed = λ h. disconnect_keeps e.device refused (c.backed h);
      under_way = c.under_way;
    })
  ]

  on_error_event-IsConsistent :
      (e : ClientEndpoint D C) → IsConsistent e → IsConsistent (on_error_event devices e).1
  unfolding on_error_event
  on_error_event-IsConsistent e c = elim (Bool-cases (is connected e.connection_state)) [
    | inr other ↦ rw other c
    | inl in_connection ↦ rw in_connection (
        disconnect-IsConsistent (set_state disconnecting e) (
          set_state-IsConsistent disconnecting e
            (λ h. c.backed (connected_in_use e.connection_state in_connection)) none_of))
  ]

  on_input_event-IsConsistent :
      (e : ClientEndpoint D C) → IsConsistent e → IsConsistent (on_input_event devices e).1
  unfolding on_input_event
  on_input_event-IsConsistent e c =
      let answer = devices.read e.dispatcher.local_buffer e.device in
      let kept = read_keeps e.dispatcher.local_buffer e.device in
      elim (Option-cases answer.0) [
        | inl failed ↦
            rw (failed, on_input_event)
              (on_error_event-IsConsistent (record e { device = answer.1 })
                (record { backed = λ h. kept ∙ c.backed h; under_way = c.under_way }))
        | inr (data_view, arrived) ↦
            rw (arrived, on_input_event)
              (record { backed = λ h. kept ∙ c.backed h; under_way = c.under_way })
      ]

  on_write_available-IsConsistent :
      (e : ClientEndpoint D C) → IsConsistent e → IsConsistent (on_write_available e).1
  unfolding on_write_available on_connected
  on_write_available-IsConsistent e c = elim (Bool-cases (is connecting e.connection_state)) [
    | inr other ↦ rw other c
    | inl waiting ↦
        rw (waiting, c.under_way waiting)
          (set_state-IsConsistent connected (record e { connection_in_progress = false })
            (λ h. c.backed (connecting_in_use e.connection_state waiting)) none_of)
  ]

  on_disconnection-IsConsistent :
      (e : ClientEndpoint D C) → IsConsistent e → IsConsistent (on_disconnection e).1
  unfolding on_disconnection process_disconnection_event tell_disconnection
  on_disconnection-IsConsistent e c = elim (Bool-cases (is disconnected e.connection_state)) [
    | inl already ↦ rw already (record { backed = c.backed; under_way = c.under_way })
    | inr other ↦ rw other (record { backed = none_of; under_way = none_of })
  ]

  process_event-IsConsistent :
      (event : HandleEvent) (e : ClientEndpoint D C)
      → IsConsistent e
      → IsConsistent (process_event (client_handlers devices) event e).1
  unfolding process_event on_hangup_event
  process_event-IsConsistent null_event e c = c
  process_event-IsConsistent in_event e c = on_input_event-IsConsistent e c
  process_event-IsConsistent prio_in_event e c = c
  process_event-IsConsistent out_event e c = on_write_available-IsConsistent e c
  process_event-IsConsistent err_event e c = on_error_event-IsConsistent e c
  process_event-IsConsistent hup_event e c = c
  process_event-IsConsistent shutdown_event e c = on_disconnection-IsConsistent e c
  process_event-IsConsistent last_event e c = c

  perform-IsConsistent :
      (o : Operation) (e : ClientEndpoint D C) → IsConsistent e → IsConsistent (perform o e)
  unfolding perform handle_event
  perform-IsConsistent (Operation.connecting_to non_blocking) e c =
      connect-IsConsistent non_blocking e c
  perform-IsConsistent Operation.disconnecting_from e c = disconnect-IsConsistent e c
  perform-IsConsistent (Operation.event_came id event p) e c =
      elim (Bool-cases (p.listener_sub_id == id)) [
        | inl ours ↦ rw (ours, perform, handle_event) (process_event-IsConsistent event e c)
        | inr other ↦ rw (other, perform, handle_event) c
      ]

  -- After any sequence of connections, blocking or not, disconnections and events that the policy
  -- is told of, on a new client's endpoint, over any device that keeps what its interface
  -- promises: while the endpoint's state is connecting, connected or disconnecting its device is
  -- connected, and while it is connecting the connection is marked as in progress.
  pub Reachable-IsConsistent :
      (device : D) (dispatcher : ClientDispatcher C) (e : ClientEndpoint D C)
      → Reachable device dispatcher e
      → IsConsistent e
  unfolding created
  Reachable-IsConsistent device dispatcher e start = record {
    backed = none_of;
    under_way = none_of;
  }
  Reachable-IsConsistent device dispatcher e (step {e = before} o r done) =
      rw (← done)
        (perform-IsConsistent o before (Reachable-IsConsistent device dispatcher before r))

-- A disconnection tells the callback twice, unless the endpoint knew of it.
abbrev pub tells : {C : Type 0} → ConnectionState → C → List (Reaction C)
tells state cb =
    if is disconnected state
    then Reaction.disconnected cb ∷ []
    else Reaction.disconnected cb ∷ Reaction.disconnected cb ∷ []

module _ {D : Type 0} {C : Type 0} where
  -- If a client's endpoint has a disconnection callback, onDisconnection calls it twice, or once
  -- if the endpoint's state was disconnected before.
  pub on_disconnection-Twice :
      (e : ClientEndpoint D C) (cb : C)
      → e.dispatcher.disconnection ≡ some cb
      → (on_disconnection e).1.reactions ≡ e.reactions ++ tells e.connection_state cb
  unfolding on_disconnection process_disconnection_event set_state tell_disconnection
      process_disconnection
  on_disconnection-Twice e cb registered = elim (Bool-cases (is disconnected e.connection_state)) [
    | inl already ↦ rw (already, registered) refl
    | inr other ↦
        rw (other, registered)
          (append_assoc e.reactions (Reaction.disconnected cb ∷ []) (Reaction.disconnected cb ∷ []))
  ]
