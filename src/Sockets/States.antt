-- ===== src/Sockets/States.antt =====
-- What the states of a socket say of the calls that were made on its descriptor
-- (TransportInfra/Policies/ConnectionPolicy.hpp, TransportInfra/Policies/AcceptorPolicy.hpp).
use mathlib.Core.Bool.{true≢false}
use ipcinfra.Prelude.{
  ◌≡◌, refl, sym, Bool, true, false, not, ◌&&◌, ◌||◌, Bool-cases, inl, inr, List, [], ◌∷◌, arith,
}
use ipcinfra.Prelude.Int.{ℤ}
use ipcinfra.Prelude.Classes.{◌==◌, int_eq, ==_refl}
use ipcinfra.Sockets.{
  SystemCall, close_call, bind_call, listen_call, connect_call, shutdown_call, default_value,
  SocketState, available, binded, listening, connecting, connected, disconnected, after_shutdown,
  error,
}
use ipcinfra.Sockets.ResourceHandler.{close, acquire, default_handle}
use ipcinfra.Sockets.Device.{
  is, SocketDevice, Driven, created, set_handle, ConnectAnswers, connect_available, connect,
  disconnect, shutdown, bind, listen,
}

-- An operation with what the kernel answers to it.
pub data Operation : Type 0 where
  connecting_to : ConnectAnswers → Bool → Operation
  disconnecting shutting_down binding starting_to_listen : Bool → Operation

unfoldable pub perform : Operation → Driven → Bool × Driven
perform (Operation.connecting_to answers non_blocking) d = connect answers non_blocking d
perform (Operation.disconnecting answer) d = disconnect answer d
perform (Operation.shutting_down answer) d = shutdown answer d
perform (Operation.binding answer) d = bind answer d
perform (Operation.starting_to_listen answer) d = listen answer d

-- The devices that operations lead to from a new one.
pub data Reachable (handle : ℤ) : Driven → Type 0 where
  start : Reachable handle (created handle, [])
  step :
      {d d' : Driven} (o : Operation)
      → Reachable handle d
      → (perform o d).1 ≡ d'
      → Reachable handle d'

-- The same call, on the same descriptor.
abbrev same_call : SystemCall → SystemCall → Bool
same_call (close_call a) (close_call b) = a == b
same_call (bind_call a) (bind_call b) = a == b
same_call (listen_call a) (listen_call b) = a == b
same_call (connect_call a) (connect_call b) = a == b
same_call (shutdown_call a) (shutdown_call b) = a == b
same_call _ _ = false

abbrev pub made : SystemCall → List SystemCall → Bool
made call [] = false
made call (other ∷ calls) = same_call call other || made call calls

-- What was done to the descriptor, for each state.
abbrev pub backed_by : ℤ → SocketState → List SystemCall → Bool
backed_by h available calls = true
backed_by h binded calls = made (bind_call h) calls
backed_by h listening calls = made (bind_call h) calls && made (listen_call h) calls
backed_by h connecting calls = false
backed_by h connected calls = made (connect_call h) calls
backed_by h disconnected calls = made (connect_call h) calls && made (close_call h) calls
backed_by h after_shutdown calls = made (shutdown_call h) calls
backed_by h error calls = false

pub record Backed (handle : ℤ) (d : Driven) : Type 0 where
  pub kept : d.0.resource_handler.handle ≡ handle
  pub backed : backed_by handle d.0.state d.1 ≡ true

backed_by-grows :
    (h : ℤ) (state : SocketState) (call : SystemCall) (calls : List SystemCall)
    → backed_by h state calls ≡ true
    → backed_by h state (call ∷ calls) ≡ true
backed_by-grows h available call calls b = refl
backed_by-grows h binded call calls b = ground arith
backed_by-grows h listening call calls b = ground arith
backed_by-grows h connecting call calls b = absurd (true≢false (sym b))
backed_by-grows h connected call calls b = ground arith
backed_by-grows h disconnected call calls b = ground arith
backed_by-grows h after_shutdown call calls b = ground arith
backed_by-grows h error call calls b = absurd (true≢false (sym b))

binded_state : (s : SocketState) → is binded s ≡ true → s ≡ binded
binded_state available h = absurd (true≢false (sym h))
binded_state binded h = refl
binded_state listening h = absurd (true≢false (sym h))
binded_state connecting h = absurd (true≢false (sym h))
binded_state connected h = absurd (true≢false (sym h))
binded_state disconnected h = absurd (true≢false (sym h))
binded_state after_shutdown h = absurd (true≢false (sym h))
binded_state error h = absurd (true≢false (sym h))

pub connected_state : (s : SocketState) → is connected s ≡ true → s ≡ connected
connected_state available h = absurd (true≢false (sym h))
connected_state binded h = absurd (true≢false (sym h))
connected_state listening h = absurd (true≢false (sym h))
connected_state connecting h = absurd (true≢false (sym h))
connected_state connected h = refl
connected_state disconnected h = absurd (true≢false (sym h))
connected_state after_shutdown h = absurd (true≢false (sym h))
connected_state error h = absurd (true≢false (sym h))

module _ (handle : ℤ) where
  with_call :
      (d : SocketDevice) (call : SystemCall) (calls : List SystemCall)
      → Backed handle (d, calls)
      → Backed handle (d, call ∷ calls)
  with_call d call calls b = record {
    kept = b.kept;
    backed = backed_by-grows handle d.state call calls b.backed;
  }

  -- A state that the latest call is enough for.
  arrives :
      (d : SocketDevice) (state : SocketState) (calls : List SystemCall)
      → d.resource_handler.handle ≡ handle
      → backed_by handle state calls ≡ true
      → Backed handle (record d { state = state }, calls)
  arrives d state calls kept b = record { kept = kept; backed = b }

  bind-Backed : (answer : Bool) (d : Driven) → Backed handle d → Backed handle (bind answer d).1
  unfolding bind
  bind-Backed answer (d, calls) b = elim (Bool-cases (is available d.state)) [
    | inr other ↦ rw other b
    | inl yes_available ↦
        let call = bind_call d.resource_handler.handle in
        elim (Bool-cases answer) [
          | inr refused ↦ rw (yes_available, refused) (with_call d call calls b)
          | inl accepted ↦
              rw (yes_available, accepted)
                (arrives d binded (call ∷ calls) b.kept (rw b.kept (rw (==_refl handle) refl)))
        ]
  ]

  listen-Backed : (answer : Bool) (d : Driven) → Backed handle d → Backed handle (listen answer d).1
  unfolding listen
  listen-Backed answer (d, calls) b = elim (Bool-cases (is binded d.state)) [
    | inr other ↦ rw other b
    | inl bound ↦
        let call = listen_call d.resource_handler.handle in
        let before : made (bind_call handle) calls ≡ true =
          rw (binded_state d.state bound) at b.backed in
        elim (Bool-cases answer) [
          | inr refused ↦ rw (bound, refused) (with_call d call calls b)
          | inl accepted ↦
              rw (bound, accepted)
                (arrives d listening (call ∷ calls) b.kept
                  (rw b.kept (rw (==_refl handle, before) refl)))
        ]
  ]

  shutdown-Backed :
      (answer : Bool) (d : Driven) → Backed handle d → Backed handle (shutdown answer d).1
  unfolding shutdown
  shutdown-Backed answer (d, calls) b =
      let call = shutdown_call d.resource_handler.handle in
      elim (Bool-cases answer) [
        | inr refused ↦ rw refused (with_call d call calls b)
        | inl accepted ↦
            rw accepted (
              arrives d after_shutdown (call ∷ calls) b.kept (rw b.kept (rw (==_refl handle) refl)))
      ]

  connect_available-Backed :
      (answers : ConnectAnswers) (non_blocking : Bool) (d : Driven)
      → Backed handle d
      → Backed handle (connect_available answers non_blocking d).1
  unfolding connect_available
  connect_available-Backed answers non_blocking (d, calls) b =
      let call = connect_call d.resource_handler.handle in
      elim (Bool-cases (non_blocking && not answers.flags_set)) [
        | inl stopped ↦ rw stopped b
        | inr goes_on ↦
            elim (Bool-cases (answers.accepted || (non_blocking && answers.in_progress))) [
              | inr refused ↦ rw (goes_on, refused) (with_call d call calls b)
              | inl accepted ↦
                  rw (goes_on, accepted)
                    (arrives d connected (call ∷ calls) b.kept
                      (rw b.kept (rw (==_refl handle) refl)))
            ]
      ]

  connect-Backed :
      (answers : ConnectAnswers) (non_blocking : Bool) (d : Driven)
      → Backed handle d
      → Backed handle (connect answers non_blocking d).1
  unfolding connect set_handle acquire default_handle
  connect-Backed answers non_blocking (d, calls) b = elim (Bool-cases (is disconnected d.state)) [
    | inl away ↦ elim (Bool-cases (default_value == d.resource_handler.handle)) [
      | inl none_held ↦ rw (away, none_held) b
      | inr held ↦
          rw (away, held, ==_refl d.resource_handler.handle)
            (connect_available-Backed answers non_blocking
              (
                record d {
                  resource_handler = record { handle = d.resource_handler.handle; is_open = true };
                  state = available;
                },
                calls,
              )
              (record { kept = b.kept; backed = refl }))
    ]
    | inr here ↦ elim (Bool-cases (is available d.state)) [
      | inl ready ↦ rw (here, ready) (connect_available-Backed answers non_blocking (d, calls) b)
      | inr busy ↦ rw (here, busy) b
    ]
  ]

  module _ (owned : (default_value == handle) ≡ false) where
    disconnect-Backed :
        (answer : Bool) (d : Driven) → Backed handle d → Backed handle (disconnect answer d).1
    unfolding disconnect close default_handle
    disconnect-Backed answer (d, calls) b = elim (Bool-cases (is connected d.state)) [
      | inr other ↦ rw other b
      | inl joined ↦
          let h = d.resource_handler in
          let call = close_call h.handle in
          let held : (default_value == h.handle) ≡ false = rw b.kept owned in
          let before : made (connect_call handle) calls ≡ true =
            rw (connected_state d.state joined) at b.backed in
          elim (Bool-cases answer) [
            | inr refused ↦ rw (joined, held, refused) (with_call d call calls b)
            | inl closed ↦
                rw (joined, held, closed)
                  (arrives (record d { resource_handler = record h { is_open = false } })
                    disconnected (call ∷ calls) b.kept
                    (rw b.kept (rw (before, ==_refl handle) refl)))
          ]
    ]

    perform-Backed : (o : Operation) (d : Driven) → Backed handle d → Backed handle (perform o d).1
    unfolding perform
    perform-Backed (Operation.connecting_to answers non_blocking) d b =
        connect-Backed answers non_blocking d b
    perform-Backed (Operation.disconnecting answer) d b = disconnect-Backed answer d b
    perform-Backed (Operation.shutting_down answer) d b = shutdown-Backed answer d b
    perform-Backed (Operation.binding answer) d b = bind-Backed answer d b
    perform-Backed (Operation.starting_to_listen answer) d b = listen-Backed answer d b

    -- After any sequence of connect, disconnect, shutdown, bind and listen on a new device with a
    -- descriptor other than the default one, whatever the kernel answers, the device holds that
    -- descriptor still, and its state is backed by the calls made on it: bound by a bind,
    -- listening by a bind and a listen, connected by a connect, disconnected by a connect and a
    -- close, shut down by a shutdown.
    pub Reachable-Backed : (d : Driven) → Reachable handle d → Backed handle d
    unfolding created
    Reachable-Backed d start = record { kept = refl; backed = refl }
    Reachable-Backed d (step {d = before} o r e) =
        rw (← e) (perform-Backed o before (Reachable-Backed before r))

-- If a connected device with a handle other than the default one is disconnected, with success,
-- then the next blocking connect is made on the handle that was just closed.
pub connect-disconnect :
    (answers : ConnectAnswers) (d : SocketDevice) (calls : List SystemCall)
    → is connected d.state ≡ true
    → (default_value == d.resource_handler.handle) ≡ false
    → (connect answers false (disconnect true (d, calls)).1).1.1
      ≡ connect_call d.resource_handler.handle ∷ close_call d.resource_handler.handle ∷ calls
unfolding connect connect_available disconnect close set_handle acquire default_handle
connect-disconnect answers d calls joined held =
    rw (joined, held, ==_refl d.resource_handler.handle) (ground arith)
