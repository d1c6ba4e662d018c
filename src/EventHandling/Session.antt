-- ===== src/EventHandling/Session.antt =====
-- What a policy may rely on between subscribing and unsubscribing, over any listener that keeps a
-- registry (TransportInfra/Policies/EventHandlingPolicy.hpp).
use mathlib.Core.Bool.{true≢false}
use ipcinfra.Prelude.{
  Option-cases, ℕ, ◌≡◌, ◌≢◌, refl, sym, ◌∙◌, Bool, true, false, Bool-cases, inl, inr, none, some,
  List, arith,
}
use ipcinfra.Prelude.Int.{ℤ}
use ipcinfra.Prelude.Classes.{◌==◌, nat_eq, ==_iff}
use ipcinfra.Prelude.Run.{ok, ◌>>=◌, Returns}
use ipcinfra.Events.{HandleEvent, HandleEventResult}
use ipcinfra.EventHandling.{
  Listener, null_subscriber_id, EventHandlingPolicy, EventHandlers, handle_event,
  subscribed_to_listener, keep_id, drop_id, listener_subscribe, listener_unsubscribe,
}

-- A listener's promise: which ids stand for a subscription, in its good states, for handles that
-- no other subscriber's id is taken for.
pub record Registry {L : Type 0} (listener : Listener L) : Type 1 where
  pub Good : L → Type 0
  pub Free : ℤ → L → Type 0
  pub registered : ℕ → L → Bool
  pub subscribes :
      (events : List HandleEvent) (handle : ℤ) (l : L)
      → Good l
      → Free handle l
      → Returns
          (λ answer.
            Good answer.1 × (answer.0 ≢ null_subscriber_id → registered answer.0 answer.1 ≡ true))
          (listener.subscribe events handle l)
  pub unsubscribes :
      (id : ℕ) (l : L)
      → Good l
      → Returns
          (λ answer.
            Good answer.1 × (answer.0 ≡ registered id l) × (registered id answer.1 ≡ false))
          (listener.unsubscribe id l)

module _ {L : Type 0} (listener : Listener L) (registry : Registry listener) where
  open registry use {Good, Free, registered, subscribes, unsubscribes}

  -- The policy's answer to a late event is to call nothing.
  pub record Ended (id : ℕ) (r : Bool × EventHandlingPolicy × L) : Type 1 where
    pub answered : r.0 ≡ true
    pub good : Good r.2
    pub away : subscribed_to_listener r.1 ≡ false
    pub forgotten : registered id r.2 ≡ false
    pub refused :
        (D : Type 0) (handlers : EventHandlers D) (event : HandleEvent) (d : D)
        → handle_event handlers id event r.1 d ≡ (HandleEventResult.invalid_reference, d)

  pub record Session (p : EventHandlingPolicy) (r : Bool × EventHandlingPolicy × L) : Type 1 where
    pub good : Good r.2
    pub unchanged : r.0 ≡ false → r.1 ≡ p
    pub present : r.0 ≡ true → subscribed_to_listener r.1 ≡ true
    pub ended :
        r.0 ≡ true → Returns (Ended r.1.listener_sub_id) (listener_unsubscribe listener r.1 r.2)

  other_id : (id : ℕ) → id ≢ null_subscriber_id → (null_subscriber_id == id) ≡ false
  other_id id ne = ground (arith, ==_iff null_subscriber_id id)

  listener_unsubscribe-Ended :
      (p : EventHandlingPolicy) (l : L)
      → Good l
      → registered p.listener_sub_id l ≡ true
      → p.listener_sub_id ≢ null_subscriber_id
      → Returns (Ended p.listener_sub_id) (listener_unsubscribe listener p l)
  unfolding listener_unsubscribe drop_id handle_event subscribed_to_listener
  listener_unsubscribe-Ended p l g reg ne =
      let ((done, l'), run, (g', found, gone)) = unsubscribes p.listener_sub_id l g in
      let away : (null_subscriber_id == p.listener_sub_id) ≡ false =
        other_id p.listener_sub_id ne in
      let yes_done : done ≡ true = found ∙ reg in
      (
        (true, record p { listener_sub_id = null_subscriber_id }, l'),
        rw (run, ◌>>=◌) (rw yes_done refl),
        record {
          answered = refl;
          good = g';
          away = refl;
          forgotten = gone;
          refused = λ D handlers event d. rw away refl;
        },
      )

  without_handle :
      (handle : ℤ) (events : List HandleEvent) (p : EventHandlingPolicy) (l : L)
      → p.optional_handle_ref ≡ none
      → listener_subscribe listener handle events p l ≡ ok (false, p, l)
  unfolding listener_subscribe
  without_handle handle events p l e = simp (e, listener_subscribe) refl

  with_handle :
      (handle ref : ℤ) (events : List HandleEvent) (p : EventHandlingPolicy) (l : L)
      → p.optional_handle_ref ≡ some ref
      → listener_subscribe listener handle events p l
        ≡ (listener.subscribe events handle l >>= λ answer. ok (keep_id listener p answer))
  unfolding listener_subscribe
  with_handle handle ref events p l e = simp (e, listener_subscribe) refl

  keep_id-Session :
      (p : EventHandlingPolicy) (id : ℕ) (l : L)
      → Good l
      → (id ≢ null_subscriber_id → registered id l ≡ true)
      → Session p (keep_id listener p (id, l))
  unfolding keep_id subscribed_to_listener
  keep_id-Session p id l g reg = elim (Bool-cases (null_subscriber_id == id)) [
    | inl null ↦ rw null (record {
      good = g;
      unchanged = λ h. refl;
      present = λ h. absurd (true≢false (sym h));
      ended = λ h. absurd (true≢false (sym h));
    })
    | inr some_id ↦
        let ne : id ≢ null_subscriber_id = λ e. ground (arith, e, some_id) in
        rw some_id (record {
          good = g;
          unchanged = λ h. absurd (true≢false h);
          present = λ h. rw some_id refl;
          ended =
              λ h. listener_unsubscribe-Ended (record p { listener_sub_id = id }) l g (reg ne) ne;
        })
  ]

  pub listener_subscribe-Session :
      (handle : ℤ) (events : List HandleEvent) (p : EventHandlingPolicy) (l : L)
      → Good l
      → Free handle l
      → Returns (Session p) (listener_subscribe listener handle events p l)
  unfolding subscribed_to_listener
  listener_subscribe-Session handle events p l g free = elim (Option-cases p.optional_handle_ref) [
    | inl none_set ↦ (
      (false, p, l),
      without_handle handle events p l none_set,
      record {
        good = g;
        unchanged = λ h. refl;
        present = λ h. absurd (true≢false (sym h));
        ended = λ h. absurd (true≢false (sym h));
      },
    )
    | inr (ref, e) ↦
        let ((id, l'), run, (g', reg)) = subscribes events handle l g free in
        (
          keep_id listener p (id, l'),
          with_handle handle ref events p l e ∙ rw (run, ◌>>=◌) refl,
          keep_id-Session p id l' g' reg,
        )
  ]
