-- ===== src/Server/Reachable.antt =====
-- The server over any sequence of operations (TransportInfra/Policies/ServerCallbackPolicy.hpp), over
-- a listener that answers every call.
use ipcinfra.Prelude.{
  ℕ, ◌≡◌, refl, sym, ap, ◌∙◌, Bool, true, false, Bool-cases, inl, inr, Option, none, some, List, [],
}
use mathlib.Core.Option
use ipcinfra.Prelude.Int.{ℤ}
use ipcinfra.Prelude.Classes.{Eq, ◌==◌, ==_iff, ==_refl, nat_eq}
use ipcinfra.Prelude.Run.{Run, Fault, ok, ◌>>=◌, Keeps, bind-Keeps}
use ipcinfra.Events.{HandleEvent, shutdown_event}
use ipcinfra.EventHandling.{Listener, result_of, null_subscriber_id, subscribed_to_listener}
use ipcinfra.Client.{ConnectableDevice, ClientEndpoint}
use ipcinfra.LookupTable.Hash.{find}
use ipcinfra.Endpoints.Associative.{value_for, get_endpoint_for}
use ipcinfra.Dispatcher.Server.{ServerDispatcher}
use ipcinfra.Server.{
  ServedClient, ServerEndpoint, AcceptingDevice, put, accept, bind, listen, send_to, send,
}
use ipcinfra.Server.Clients.{on_disconnection, process_event, handle_event}
use ipcinfra.Server.Serving.{IsServed, store-IsServing, same_endpoint}
use ipcinfra.Server.Sessions.{Serves, handle_event-Serves}
use ipcinfra.Server.Accepting.{
  IsAnswering, Connects, Accepts, served_by, nobody, without_handle, not_subscribed, served,
  accept-Accepts, Outcome, throws, answers,
}
use ipcinfra.Server.Disconnecting.{accessed, on_disconnection-UndefinedBehaviour}

-- What the server's user, its own listening socket and its clients' sockets bring about.
pub data Operation (K C : Type 0) : Type 0 where
  binding : Bool → Operation K C
  listening : ℕ → Operation K C
  accepting : Bool → Operation K C
  sending : K → List ℕ → Operation K C
  client_event : K → ℕ → HandleEvent → Operation K C
  registering : (ServerDispatcher C → ServerDispatcher C) → Operation K C

served_by-IsServed :
    {D K : Type 0} (key : K) (e : ServedClient D K)
    → subscribed_to_listener e.policy ≡ true
    → IsServed key (served_by key e)
served_by-IsServed key e subscribed = record { told = refl; heard = refl; subscribed = subscribed }

known-subscribed :
    {D K : Type 0} (e : ServedClient D K) (id : ℕ)
    → e.policy.listener_sub_id ≡ id
    → (null_subscriber_id == id) ≡ false
    → subscribed_to_listener e.policy ≡ true
unfolding subscribed_to_listener
known-subscribed e id same known = rw (same, known) refl

module _ {A D K C L : Type 0} ⦃keys : Eq K⦄ where
  Connects-Serves :
      {key : K} {e : ServedClient D K} {s s' : ServerEndpoint A D K C L}
      → Connects key e s s'
      → subscribed_to_listener e.policy ≡ true
      → Serves s
      → Serves s'
  Connects-Serves {key} {e} connects subscribed serving j e' there =
      let found = sym (connects.stored j) ∙ there in
      elim (Bool-cases (key == j)) [
        | inl same ↦
            rw (sym ((==_iff key j).0 same), sym (same_endpoint (rw same at found)))
              (served_by-IsServed key e subscribed)
        | inr other ↦ serving j e' (rw other at found)
      ]

  Accepts-Serves :
      {acceptor : AcceptingDevice A D} {listeners : Listener L} {generate_key : ℤ → K}
      {s s' : ServerEndpoint A D K C L} {o : Option D} {b : Bool}
      → Accepts acceptor listeners generate_key s o (b, s')
      → Serves s
      → Serves s'
  Accepts-Serves (nobody like) serving = rw like.same_storage serving
  Accepts-Serves (without_handle d null like) serving = rw like.same_storage serving
  Accepts-Serves (not_subscribed d id l handle answered refused like) serving =
      rw like.same_storage serving
  Accepts-Serves (served d id l e handle answered known client same connects) serving =
      Connects-Serves connects (known-subscribed e id same known) serving

module _ {A D K C L : Type 0} ⦃keys : Eq K⦄ (acceptor : AcceptingDevice A D)
    (devices : ConnectableDevice D) (listeners : Listener L) (generate_key : ℤ → K) where
  unfoldable pub perform : Operation K C → ServerEndpoint A D K C L → Run (ServerEndpoint A D K C L)
  unfolding bind listen accept send handle_event
  perform (Operation.binding reusable) s = ok (bind acceptor reusable s).1
  perform (Operation.listening backlog) s = ok (listen acceptor backlog s).1
  perform (Operation.accepting non_blocking) s =
      accept acceptor devices listeners generate_key non_blocking s >>= λ answer. ok answer.1
  perform (Operation.sending key data_view) s =
      send acceptor key data_view s >>= λ answer. ok answer.1
  perform (Operation.client_event key id event) s =
      handle_event devices listeners key id event s >>= λ answer. ok answer.1
  perform (Operation.registering register) s = ok (record s { dispatcher = register s.dispatcher })

  pub data Reachable : ServerEndpoint A D K C L → Type 0 where
    start : {s : ServerEndpoint A D K C L} → s.storage ≡ [] → Reachable s
    step :
        {s s' : ServerEndpoint A D K C L} (o : Operation K C)
        → Reachable s
        → perform o s ≡ ok s'
        → Reachable s'

module _ {A D K C L : Type 0} ⦃keys : Eq K⦄ (acceptor : AcceptingDevice A D)
    (devices : ConnectableDevice D) {listeners : Listener L} (answering : IsAnswering listeners)
    (generate_key : ℤ → K) where
  state_kept :
      {X : Type 0} {r : Run (X × ServerEndpoint A D K C L)}
      → Keeps (λ answer. Serves answer.1) r
      → Keeps Serves (r >>= λ answer. ok answer.1)
  state_kept kept_by = bind-Keeps kept_by (λ answer serving. Keeps.kept serving)

  Outcome-Serves :
      {s : ServerEndpoint A D K C L} {r : Run (Option D × A)}
      {r' : Run (Bool × ServerEndpoint A D K C L)}
      → Serves s
      → Outcome acceptor devices answering generate_key s r r'
      → Keeps (λ answer. Serves answer.1) r'
  Outcome-Serves serving (throws why) = Keeps.stopped
  Outcome-Serves serving (answers o a answer accepts) = Keeps.kept (Accepts-Serves accepts serving)

  send_to-Serves :
      (key : K) (data_view : List ℕ) (o : Option (Option (ServedClient D K)))
      (s : ServerEndpoint A D K C L)
      → get_endpoint_for key s.storage ≡ o
      → Serves s
      → Keeps (λ answer. Serves answer.1) (send_to acceptor key data_view o s)
  unfolding send_to put
  send_to-Serves key data_view none s there serving = Keeps.kept serving
  send_to-Serves key data_view (some none) s there serving = Keeps.stopped
  send_to-Serves key data_view (some (some e)) s there serving =
      let served_here = serving key e there in
      Keeps.kept (
        store-IsServing key _ s.storage serving (record {
          told = served_here.told;
          heard = served_here.heard;
          subscribed = served_here.subscribed;
        }))

  perform-Serves :
      (o : Operation K C) (s : ServerEndpoint A D K C L)
      → Serves s
      → Keeps Serves (perform acceptor devices listeners generate_key o s)
  unfolding perform bind listen send
  perform-Serves (Operation.binding reusable) s serving =
      elim (Bool-cases (acceptor.bind reusable s.device).0) [
        | inl done ↦ rw done (Keeps.kept serving)
        | inr failed ↦ rw failed (Keeps.kept serving)
      ]
  perform-Serves (Operation.listening backlog) s serving =
      elim (Bool-cases (acceptor.listen backlog s.device).0) [
        | inl done ↦ rw done (Keeps.kept serving)
        | inr failed ↦ rw failed (Keeps.kept serving)
      ]
  perform-Serves (Operation.accepting non_blocking) s serving = state_kept (
      Outcome-Serves serving
        (accept-Accepts acceptor devices answering generate_key non_blocking s))
  perform-Serves (Operation.sending key data_view) s serving =
      state_kept (send_to-Serves key data_view (get_endpoint_for key s.storage) s refl serving)
  perform-Serves (Operation.client_event key id event) s serving =
      state_kept (handle_event-Serves listeners devices key id event s serving)
  perform-Serves (Operation.registering register) s serving = Keeps.kept serving

  value_kept : {s' : ServerEndpoint A D K C L} → Keeps Serves (ok s') → Serves s'
  value_kept (Keeps.kept serving) = serving

  -- If the listener answers every call, then in every state that bind, listen, accept, send, the
  -- registration of callbacks and the events of clients lead to from an empty storage, each
  -- stored endpoint has the server's input and disconnection callbacks for the key that it is
  -- stored by, and an id of the listener.
  pub reachable-Serves :
      {s : ServerEndpoint A D K C L}
      → Reachable acceptor devices listeners generate_key s
      → Serves s
  unfolding get_endpoint_for value_for find
  reachable-Serves (start empty) =
      λ key e there. absurd (Option.none-ne-some (some e) (rw empty at there))
  reachable-Serves (step {s = s} o before returned) =
      value_kept (rw returned at (perform-Serves o s (reachable-Serves before)))

  handled :
      (key : K) (e : ServedClient D K) (event : HandleEvent) (s : ServerEndpoint A D K C L)
      → get_endpoint_for key s.storage ≡ some (some e)
      → handle_event devices listeners key e.policy.listener_sub_id event s
        ≡ process_event devices listeners key e.client event s
  unfolding handle_event
  handled key e event s there = rw (accessed key e s there, ==_refl e.policy.listener_sub_id) refl

  shutdown :
      (key : K) (c : ClientEndpoint D K) (s : ServerEndpoint A D K C L)
      → process_event devices listeners key c shutdown_event s
        ≡ (on_disconnection listeners key s >>= λ answer. ok (result_of answer))
  unfolding process_event
  shutdown key c s = refl

  -- If the listener answers every call, then in every state that the server's operations lead to
  -- from an empty storage, a shutdown event for a stored endpoint, with the id of its
  -- subscription, has undefined behaviour: the disconnection callback erases the endpoint, and
  -- onDisconnection goes on with it.
  pub shutdown_event-UndefinedBehaviour :
      (s : ServerEndpoint A D K C L) (key : K) (e : ServedClient D K)
      → Reachable acceptor devices listeners generate_key s
      → get_endpoint_for key s.storage ≡ some (some e)
      → handle_event devices listeners key e.policy.listener_sub_id shutdown_event s
        ≡ Run.fault Fault.undefined_behaviour
  shutdown_event-UndefinedBehaviour s key e reachable there =
      handled key e shutdown_event s there
      ∙ shutdown key e.client s
      ∙ ap (λ (r : Run (Bool × ServerEndpoint A D K C L)). r >>= λ answer. ok (result_of answer))
          (on_disconnection-UndefinedBehaviour answering key e s there
            (reachable-Serves reachable key e there))
