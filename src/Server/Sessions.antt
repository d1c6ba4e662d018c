-- ===== src/Server/Sessions.antt =====
-- The server over time: what its user, its clients and the listener make of it
-- (TransportInfra/Policies/ServerCallbackPolicy.hpp, TransportInfra/TransportEndpoint.hpp).
use ipcinfra.Prelude.{
  ℕ, ◌≡◌, refl, ◌∙◌, Bool, not, ◌&&◌, Bool-cases, inl, inr, Option, none, some, List,
}
use ipcinfra.Prelude.Classes.{Eq, ◌==◌, nat_eq, int_eq}
use ipcinfra.Prelude.Run.{Run, ok, ◌>>=◌, Keeps, bind-Keeps, then-Keeps}
use ipcinfra.Events.{
  HandleEvent, null_event, in_event, prio_in_event, out_event, err_event, hup_event, shutdown_event,
  last_event,
}
use ipcinfra.EventHandling.{Listener, result_of}
use ipcinfra.Client
use ipcinfra.Client.{
  ConnectionState, ConnectableDevice, connecting, connected, disconnecting, ClientEndpoint,
  on_write_available, on_connected, disconnected, is,
}
use ipcinfra.Endpoints.Associative.{get_endpoint_for}
use ipcinfra.Server.{
  ServedClient, ServerEndpoint, put, process_client_disconnection, process_client_input,
}
use ipcinfra.Server.Clients.{
  dereference, access, change, tell_disconnection, set_state, process_disconnection_event,
  on_disconnection, disconnect, on_error_event, on_input_event, take_input, tell_input,
  process_event, handle_event,
}
use ipcinfra.Server.Serving.{IsServing, store-IsServing, process_client_disconnection-IsServing}

-- The callbacks that are registered with a client's endpoint.
abbrev SameCallbacks : {D K : Type 0} → ClientEndpoint D K → ClientEndpoint D K → Type 0
SameCallbacks c c' =
    c'.dispatcher.disconnection ≡ c.dispatcher.disconnection
    × c'.dispatcher.input_available ≡ c.dispatcher.input_available

on_write_available-SameCallbacks :
    {D K : Type 0} (c : ClientEndpoint D K) → SameCallbacks c (on_write_available c).1
unfolding on_write_available on_connected Client.set_state
on_write_available-SameCallbacks c = elim (Bool-cases (is connecting c.connection_state)) [
  | inl waiting ↦ elim (Bool-cases c.connection_in_progress) [
    | inl under_way ↦ rw (waiting, under_way) (refl, refl)
    | inr settled ↦ rw (waiting, settled) (refl, refl)
  ]
  | inr otherwise ↦ rw otherwise (refl, refl)
]

module _ {D K : Type 0} where
  stored_or_fault :
      (o : Option (Option (ServedClient D K))) → Keeps (λ e. o ≡ some (some e)) (dereference o)
  unfolding dereference
  stored_or_fault none = Keeps.stopped
  stored_or_fault (some none) = Keeps.stopped
  stored_or_fault (some (some e)) = Keeps.kept refl

module _ {A D K C L : Type 0} ⦃keys : Eq K⦄ where
  abbrev pub Serves : ServerEndpoint A D K C L → Type 0
  Serves s = IsServing s.storage

  pub access-stored :
      (key : K) (s : ServerEndpoint A D K C L)
      → Keeps (λ e. get_endpoint_for key s.storage ≡ some (some e)) (access key s)
  unfolding access
  access-stored key s = stored_or_fault (get_endpoint_for key s.storage)

  change-Serves :
      (key : K) (f : ClientEndpoint D K → ClientEndpoint D K) (s : ServerEndpoint A D K C L)
      → ((c : ClientEndpoint D K) → SameCallbacks c (f c))
      → Serves s
      → Keeps Serves (change key f s)
  unfolding change put
  change-Serves key f s same serving = bind-Keeps (access-stored key s) (λ e there.
      let served = serving key e there in
      Keeps.kept (
        store-IsServing key _ s.storage serving (record {
          told = (same e.client).0 ∙ served.told;
          heard = (same e.client).1 ∙ served.heard;
          subscribed = served.subscribed;
        })))

module _ {A D K C L : Type 0} ⦃keys : Eq K⦄ (listeners : Listener L) where
  told_or_not :
      (o : Option K) (s : ServerEndpoint A D K C L)
      → Serves s
      → Keeps Serves (elim o [
        | some client_key ↦ process_client_disconnection listeners client_key s
        | none ↦ ok s
      ])
  told_or_not none s serving = Keeps.kept serving
  told_or_not (some key) s serving = process_client_disconnection-IsServing listeners key s serving

  tell_disconnection-Serves :
      (key : K) (s : ServerEndpoint A D K C L)
      → Serves s
      → Keeps Serves (tell_disconnection listeners key s)
  unfolding tell_disconnection
  tell_disconnection-Serves key s serving =
      then-Keeps (access key s) (λ e. told_or_not e.client.dispatcher.disconnection s serving)

  set_state-Serves :
      (key : K) (state : ConnectionState) (s : ServerEndpoint A D K C L)
      → Serves s
      → Keeps Serves (set_state listeners key state s)
  unfolding set_state
  set_state-Serves key state s serving = then-Keeps (access key s) (λ e.
      bind-Keeps (change-Serves key _ s (λ c. (refl, refl)) serving) (λ s' serving'.
        elim (Bool-cases
          (is disconnected state && not (is disconnected e.client.connection_state))) [
            | inl tells ↦ rw tells (tell_disconnection-Serves key s' serving')
            | inr silent ↦ rw silent (Keeps.kept serving')
          ]))

  process_disconnection_event-Serves :
      (key : K) (s : ServerEndpoint A D K C L)
      → Serves s
      → Keeps (λ answer. Serves answer.1) (process_disconnection_event listeners key s)
  unfolding process_disconnection_event
  process_disconnection_event-Serves key s serving = then-Keeps (access key s) (λ e.
      elim (Bool-cases (is disconnected e.client.connection_state)) [
        | inl done ↦ rw done (Keeps.kept serving)
        | inr open_yet ↦ rw open_yet (
            bind-Keeps (set_state-Serves key disconnected s serving)
              (λ s' serving'. Keeps.kept serving'))
      ])

  on_disconnection-Serves :
      (key : K) (s : ServerEndpoint A D K C L)
      → Serves s
      → Keeps (λ answer. Serves answer.1) (on_disconnection listeners key s)
  unfolding on_disconnection
  on_disconnection-Serves key s serving =
      bind-Keeps (tell_disconnection-Serves key s serving) (process_disconnection_event-Serves key)

  module _ (devices : ConnectableDevice D) where
    disconnect-Serves :
        (key : K) (s : ServerEndpoint A D K C L)
        → Serves s
        → Keeps (λ answer. Serves answer.1) (disconnect devices listeners key s)
    unfolding disconnect
    disconnect-Serves key s serving = then-Keeps (access key s) (λ e.
        bind-Keeps (change-Serves key _ s (λ c. (refl, refl)) serving) (λ s' serving'.
          elim (Bool-cases (devices.disconnect e.client.device).0) [
            | inl done ↦ rw done (
                bind-Keeps (set_state-Serves key disconnected s' serving')
                  (λ s'' serving''. Keeps.kept serving''))
            | inr not_yet ↦ rw not_yet (Keeps.kept serving')
          ]))

    on_error_event-Serves :
        (key : K) (s : ServerEndpoint A D K C L)
        → Serves s
        → Keeps (λ answer. Serves answer.1) (on_error_event devices listeners key s)
    unfolding on_error_event
    on_error_event-Serves key s serving = then-Keeps (access key s) (λ e.
        elim (Bool-cases (is connected e.client.connection_state)) [
          | inl joined ↦
              rw joined
                (bind-Keeps (set_state-Serves key disconnecting s serving) (disconnect-Serves key))
          | inr apart ↦ rw apart (Keeps.kept serving)
        ])

    take_input-Serves :
        (key : K) (contents : Option (List ℕ)) (cb : Option K) (s : ServerEndpoint A D K C L)
        → Serves s
        → Keeps (λ answer. Serves answer.1) (take_input devices listeners key contents cb s)
    unfolding take_input tell_input process_client_input
    take_input-Serves key none cb s serving =
        bind-Keeps (on_error_event-Serves key s serving) (λ answer serving'. Keeps.kept serving')
    take_input-Serves key (some data_view) none s serving =
        bind-Keeps (change-Serves key _ s (λ c. (refl, refl)) serving)
          (λ s' serving'. Keeps.kept serving')
    take_input-Serves key (some data_view) (some cb) s serving =
        bind-Keeps (change-Serves key _ _ (λ c. (refl, refl)) serving)
          (λ s' serving'. Keeps.kept serving')

    on_input_event-Serves :
        (key : K) (s : ServerEndpoint A D K C L)
        → Serves s
        → Keeps (λ answer. Serves answer.1) (on_input_event devices listeners key s)
    unfolding on_input_event
    on_input_event-Serves key s serving = then-Keeps (access key s) (λ e.
        bind-Keeps (change-Serves key _ s (λ c. (refl, refl)) serving)
          (take_input-Serves key _ e.client.dispatcher.input_available))

    answered :
        {r : Run (Bool × ServerEndpoint A D K C L)}
        → Keeps (λ answer. Serves answer.1) r
        → Keeps (λ answer. Serves answer.1) (r >>= λ answer. ok (result_of answer))
    answered kept_by = bind-Keeps kept_by (λ answer serving. Keeps.kept serving)

    process_event-Serves :
        (key : K) (c : ClientEndpoint D K) (event : HandleEvent) (s : ServerEndpoint A D K C L)
        → Serves s
        → Keeps (λ answer. Serves answer.1) (process_event devices listeners key c event s)
    unfolding process_event
    process_event-Serves key c null_event s serving = Keeps.kept serving
    process_event-Serves key c in_event s serving = answered (on_input_event-Serves key s serving)
    process_event-Serves key c prio_in_event s serving = Keeps.kept serving
    process_event-Serves key c out_event s serving =
        bind-Keeps (change-Serves key _ s on_write_available-SameCallbacks serving)
          (λ s' serving'. Keeps.kept serving')
    process_event-Serves key c err_event s serving = answered (on_error_event-Serves key s serving)
    process_event-Serves key c hup_event s serving = Keeps.kept serving
    process_event-Serves key c shutdown_event s serving =
        answered (on_disconnection-Serves key s serving)
    process_event-Serves key c last_event s serving = Keeps.kept serving

    pub handle_event-Serves :
        (key : K) (id : ℕ) (event : HandleEvent) (s : ServerEndpoint A D K C L)
        → Serves s
        → Keeps (λ answer. Serves answer.1) (handle_event devices listeners key id event s)
    unfolding handle_event
    handle_event-Serves key id event s serving = then-Keeps (access key s) (λ e.
        elim (Bool-cases (e.policy.listener_sub_id == id)) [
          | inl same ↦ rw same (process_event-Serves key e.client event s serving)
          | inr other ↦ rw other (Keeps.kept serving)
        ])
