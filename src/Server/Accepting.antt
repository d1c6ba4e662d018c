-- ===== src/Server/Accepting.antt =====
-- What the server's accept comes to (TransportInfra/Policies/ServerCallbackPolicy.hpp), over a listener
-- that answers every call.
use ipcinfra.Prelude.{
  ℕ, ◌≡◌, refl, ap, ◌∙◌, Bool, true, false, Bool-cases, inl, inr, Option, none, some, List, [], ◌∷◌,
  ◌++◌, if◌then◌else◌,
}
use ipcinfra.Prelude.Int.{ℤ}
use ipcinfra.Prelude.Classes.{Eq, ◌==◌, ==_refl, nat_eq, int_eq}
use ipcinfra.Prelude.Run.{Run, Fault, ok, fault, ◌>>=◌, Returns, bind-Returns}
use ipcinfra.Events.{HandleEvent, in_event}
use ipcinfra.EventHandling.{
  Listener, EventHandlingPolicy, null_subscriber_id, subscribed_to_listener, listener_subscribe,
  listener_unsubscribe, keep_id, set_handle,
}
use ipcinfra.Client.{ConnectableDevice}
use ipcinfra.Dispatcher.Client.{register_input_callback, register_disconnection_callback}
use ipcinfra.Endpoints.Associative.{get_endpoint_for}
use ipcinfra.Dispatcher.Server.{process_client_connected}
use ipcinfra.Server.{
  ServedClient, ServerEndpoint, AcceptingDevice, default_handle, put, destroy, destroy_stored,
  registered, on_client_connected, client_endpoint, setup_client_endpoint, keep_client,
  take_accepted, accept,
}
use ipcinfra.Server.Serving.{get-store, get-store-store}

module _ {L : Type 0} (listeners : Listener L) where
  -- A listener that answers every call.
  pub record IsAnswering : Type 0 where
    pub subscribes :
        (events : List HandleEvent) (handle : ℤ) (l : L)
        → (answer : ℕ × L) × (listeners.subscribe events handle l ≡ ok answer)
    pub unsubscribes :
        (id : ℕ) (l : L) → (answer : Bool × L) × (listeners.unsubscribe id l ≡ ok answer)

module _ {L : Type 0} {listeners : Listener L} (answering : IsAnswering listeners) where
  pub listener_unsubscribe-Returns :
      (p : EventHandlingPolicy) (l : L)
      → (answer : Bool × EventHandlingPolicy × L) × (listener_unsubscribe listeners p l ≡ ok answer)
  unfolding listener_unsubscribe
  listener_unsubscribe-Returns p l =
      let (answer, answered) = answering.unsubscribes p.listener_sub_id l in rw answered (_, refl)

-- What is left as it was where an endpoint is destroyed.
pub record IsLike {A D K C L : Type 0} (s s' : ServerEndpoint A D K C L) : Type 0 where
  pub same_storage : s'.storage ≡ s.storage
  pub same_calls : s'.calls ≡ s.calls
  pub same_dispatcher : s'.dispatcher ≡ s.dispatcher

-- An endpoint with the server's callbacks for a key.
abbrev pub served_by : {D K : Type 0} → K → ServedClient D K → ServedClient D K
served_by key e = record e {
  client = record e.client {
    dispatcher = record e.client.dispatcher {
      input_available = some key;
      disconnection = some key;
    };
  };
}

module _ {A D K C L : Type 0} ⦃keys : Eq K⦄ where
  -- The endpoint is found by its key, and its client's connection is told.
  pub record Connects (key : K) (e : ServedClient D K) (s s' : ServerEndpoint A D K C L)
      : Type 0 where
    pub stored :
        (j : K)
        → get_endpoint_for j s'.storage
          ≡ (if key == j then some (some (served_by key e)) else get_endpoint_for j s.storage)
    pub announced : s'.calls ≡ s.calls ++ process_client_connected key s.dispatcher

module _ {A D K C L : Type 0} ⦃keys : Eq K⦄ {listeners : Listener L}
    (answering : IsAnswering listeners) where
  pub destroy-IsLike :
      (e : ServedClient D K) (s : ServerEndpoint A D K C L)
      → Returns (IsLike s) (destroy listeners e s)
  unfolding destroy
  destroy-IsLike e s = elim (Bool-cases (subscribed_to_listener e.policy)) [
    | inl subscribed ↦
        let (answer, answered) = listener_unsubscribe-Returns answering e.policy s.listener in
        rw (subscribed, answered)
          (_, refl, record { same_storage = refl; same_calls = refl; same_dispatcher = refl })
    | inr unknown ↦
        rw unknown
          (_, refl, record { same_storage = refl; same_calls = refl; same_dispatcher = refl })
  ]

  pub destroy_stored-IsLike :
      (o : Option (Option (ServedClient D K))) (s : ServerEndpoint A D K C L)
      → Returns (IsLike s) (destroy_stored listeners o s)
  unfolding destroy_stored
  destroy_stored-IsLike none s =
      (s, refl, record { same_storage = refl; same_calls = refl; same_dispatcher = refl })
  destroy_stored-IsLike (some none) s =
      (s, refl, record { same_storage = refl; same_calls = refl; same_dispatcher = refl })
  destroy_stored-IsLike (some (some e)) s = destroy-IsLike e s

  pub on_client_connected-Connects :
      (key : K) (e : ServedClient D K) (s : ServerEndpoint A D K C L)
      → Returns (Connects key e s) (on_client_connected listeners key e s)
  unfolding on_client_connected put registered register_input_callback
      register_disconnection_callback
  on_client_connected-Connects key e s =
      bind-Returns (destroy_stored-IsLike (get_endpoint_for key s.storage) (put key e s))
        (λ s' like.
          let found : get_endpoint_for key s'.storage ≡ some (some e) =
            ap (get_endpoint_for key) like.same_storage
            ∙ get-store key key e s.storage
            ∙ ap (λ (b : Bool). if b then some (some e) else get_endpoint_for key s.storage)
                (==_refl key) in
          rw found (
            _,
            refl,
            record {
              stored = λ j. rw like.same_storage (get-store-store key j e _ s.storage);
              announced = rw (like.same_calls, like.same_dispatcher) refl;
            },
          ))

module _ {A D K C L : Type 0} ⦃keys : Eq K⦄ (acceptor : AcceptingDevice A D)
    (listeners : Listener L) (generate_key : ℤ → K) where
  -- What an accept comes to, from what the accepting device and the listener answer: only a client
  -- with a handle that the listener takes is served.
  pub data Accepts (s : ServerEndpoint A D K C L)
      : Option D → Bool × ServerEndpoint A D K C L → Type 0 where
    nobody : {s' : ServerEndpoint A D K C L} → IsLike s s' → Accepts s none (false, s')
    without_handle :
        {s' : ServerEndpoint A D K C L} (d : D)
        → (default_handle == acceptor.get_handle d) ≡ true
        → IsLike s s'
        → Accepts s (some d) (false, s')
    not_subscribed :
        {s' : ServerEndpoint A D K C L} (d : D) (id : ℕ) (l : L)
        → (default_handle == acceptor.get_handle d) ≡ false
        → listeners.subscribe (in_event ∷ []) (acceptor.get_handle d) s.listener ≡ ok (id, l)
        → (null_subscriber_id == id) ≡ true
        → IsLike s s'
        → Accepts s (some d) (false, s')
    served :
        {s' : ServerEndpoint A D K C L} (d : D) (id : ℕ) (l : L) (e : ServedClient D K)
        → (default_handle == acceptor.get_handle d) ≡ false
        → listeners.subscribe (in_event ∷ []) (acceptor.get_handle d) s.listener ≡ ok (id, l)
        → (null_subscriber_id == id) ≡ false
        → e.client ≡ (client_endpoint acceptor d).client
        → e.policy.listener_sub_id ≡ id
        → Connects (generate_key (acceptor.get_handle d)) e s s'
        → Accepts s (some d) (true, s')

module _ {A D K : Type 0} (acceptor : AcceptingDevice A D) where
  -- The endpoint of a device, as the listener knows it.
  abbrev subscribed_endpoint : D → ℕ → ServedClient D K
  subscribed_endpoint d id = record (client_endpoint acceptor d) {
    policy = record { listener_sub_id = id; optional_handle_ref = some (acceptor.get_handle d) };
  }

module _ {A D K C L : Type 0} ⦃keys : Eq K⦄ (acceptor : AcceptingDevice A D)
    (devices : ConnectableDevice D) {listeners : Listener L} (answering : IsAnswering listeners)
    (generate_key : ℤ → K) where
  pub setup_client_endpoint-Accepts :
      (d : D) (s : ServerEndpoint A D K C L)
      → Returns
          (Accepts acceptor listeners generate_key s (some d))
          (setup_client_endpoint acceptor devices listeners generate_key d s)
  unfolding setup_client_endpoint client_endpoint listener_subscribe set_handle keep_id keep_client
  setup_client_endpoint-Accepts d s =
      let ((id, l), answered) =
        answering.subscribes (in_event ∷ []) (acceptor.get_handle d) s.listener in
      elim (Bool-cases (default_handle == acceptor.get_handle d)) [
        | inl null ↦ rw null (
          _,
          refl,
          without_handle d null
              (record { same_storage = refl; same_calls = refl; same_dispatcher = refl }),
        )
        | inr handle ↦ elim (Bool-cases (null_subscriber_id == id)) [
          | inl refused ↦
              rw (handle, answered, refused)
                (
                  _,
                  refl,
                  not_subscribed d id l handle answered refused
                      (record { same_storage = refl; same_calls = refl; same_dispatcher = refl }),
                )
          | inr known ↦
              rw (handle, answered, known)
                (bind-Returns {f = λ s'. ok (true, s')}
                  (on_client_connected-Connects answering (generate_key (acceptor.get_handle d))
                    (subscribed_endpoint acceptor d id) (record s { listener = l }))
                  (λ s' connects. (
                    (true, s'),
                    refl,
                    served d id l (subscribed_endpoint acceptor d id) handle answered known refl
                        refl (record { stored = connects.stored; announced = connects.announced }),
                  )))
        ]
      ]

  take_accepted-Accepts :
      (o : Option D) (s : ServerEndpoint A D K C L)
      → Returns
          (Accepts acceptor listeners generate_key s o)
          (take_accepted acceptor devices listeners generate_key o s)
  unfolding take_accepted
  take_accepted-Accepts none s =
      (_, refl, nobody (record { same_storage = refl; same_calls = refl; same_dispatcher = refl }))
  take_accepted-Accepts (some d) s = setup_client_endpoint-Accepts d s

  -- From what the device's accept comes to, what the server's comes to: an exception goes on.
  pub data Outcome (s : ServerEndpoint A D K C L)
      : Run (Option D × A) → Run (Bool × ServerEndpoint A D K C L) → Type 0 where
    throws : (why : Fault) → Outcome s (fault why) (fault why)
    answers :
        (o : Option D) (a : A) (answer : Bool × ServerEndpoint A D K C L)
        → Accepts acceptor listeners generate_key (record s { device = a }) o answer
        → Outcome s (ok (o, a)) (ok answer)

  accepted-Outcome :
      (s : ServerEndpoint A D K C L) (r : Run (Option D × A))
      → Outcome s r (
          r >>= λ (optional_res, device).
          take_accepted acceptor devices listeners generate_key optional_res
            (record s { device = device }))
  accepted-Outcome s (fault why) = throws why
  accepted-Outcome s (ok (o, a)) =
      let (answer, returned, accepts) = take_accepted-Accepts o (record s { device = a }) in
      rw returned (answers o a answer accepts)

  -- If the listener answers every call, then accept of the server throws exactly what the accept
  -- of its device throws, and returns if that returns. Only a device that the accepting device
  -- gave, with a handle, and with a subscription of its input that the listener has taken, is
  -- served, and then accept answers true: getEndpointFor finds by the device's key its endpoint,
  -- connected, with the listener's id and with the server's callbacks for that key, by every
  -- other key what it found before, and the connection callback is called once. Where the device
  -- gave none, or it has no handle or is not subscribed, accept answers false, and the storage
  -- and the calls are as before.
  pub accept-Accepts :
      (non_blocking : Bool) (s : ServerEndpoint A D K C L)
      → Outcome s
          (acceptor.accept non_blocking s.device)
          (accept acceptor devices listeners generate_key non_blocking s)
  unfolding accept
  accept-Accepts non_blocking s = accepted-Outcome s (acceptor.accept non_blocking s.device)
