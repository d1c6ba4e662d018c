-- ===== src/EventHandling.antt =====
-- BaseEventHandlingPolicy and GenericEventHandlingPolicy
-- (TransportInfra/Policies/EventHandlingPolicy.hpp): the endpoint's side of a subscription, over any
-- listener. What the deriving class does on an event is an argument.
pub mod Session
pub mod OverReactor
use ipcinfra.Prelude.{ℕ, Bool, true, false, not, Option, none, some, List, if◌then◌else◌}
use ipcinfra.Prelude.Int.{ℤ}
use ipcinfra.Prelude.Classes.{◌==◌, nat_eq}
use ipcinfra.Prelude.Run.{Run, ok, ◌>>=◌}
use ipcinfra.Events.{
  HandleEvent, HandleEventResult, null_event, in_event, prio_in_event, out_event, err_event,
  hup_event, shutdown_event, last_event,
}

-- What the policies call of a listener; the handler object is the policy itself.
pub record Listener (L : Type 0) : Type 0 where
  pub subscribe : List HandleEvent → ℤ → L → Run (ℕ × L)
  pub unsubscribe : ℕ → L → Run (Bool × L)

-- `Listener::NULL_SUBSCRIBER_ID`
abbrev pub null_subscriber_id : ℕ
null_subscriber_id = 0

pub record EventHandlingPolicy : Type 0 where
  pub listener_sub_id : ℕ
  pub optional_handle_ref : Option ℤ

-- The handlers of the deriving class, over its state.
pub record EventHandlers (D : Type 0) : Type 0 where
  pub on_error_event : D → Bool × D
  pub on_hangup_event : D → Bool × D
  pub on_input_event : D → Bool × D
  pub on_write_available : D → Bool × D
  pub on_disconnection : D → Bool × D

abbrev pub result_of : {D : Type 0} → Bool × D → HandleEventResult × D
result_of (processed, d) =
    (if processed then HandleEventResult.success else HandleEventResult.failure, d)

module _ {D : Type 0} (handlers : EventHandlers D) where
  unfoldable pub process_event : HandleEvent → D → HandleEventResult × D
  process_event err_event d = result_of (handlers.on_error_event d)
  process_event hup_event d = result_of (handlers.on_hangup_event d)
  process_event in_event d = result_of (handlers.on_input_event d)
  process_event out_event d = result_of (handlers.on_write_available d)
  process_event shutdown_event d = result_of (handlers.on_disconnection d)
  process_event _ d = (HandleEventResult.method_not_implemented, d)

  unfoldable pub handle_event : ℕ → HandleEvent → EventHandlingPolicy → D → HandleEventResult × D
  unfolding process_event
  handle_event id event p d =
      if not (p.listener_sub_id == id)
      then (HandleEventResult.invalid_reference, d)
      else process_event event d

unfoldable pub subscribed_to_listener : EventHandlingPolicy → Bool
subscribed_to_listener p = not (null_subscriber_id == p.listener_sub_id)

unfoldable pub set_handle : ℤ → EventHandlingPolicy → EventHandlingPolicy
set_handle handle p = record p { optional_handle_ref = some handle }

unfoldable pub reset_handle : EventHandlingPolicy → EventHandlingPolicy
reset_handle p = record p { optional_handle_ref = none }

module _ {L : Type 0} (listener : Listener L) where
  -- What a subscription's id comes to.
  unfoldable pub keep_id : EventHandlingPolicy → ℕ × L → Bool × EventHandlingPolicy × L
  keep_id p (id, l) =
      if not (null_subscriber_id == id)
      then (true, record p { listener_sub_id = id }, l)
      else (false, p, l)

  -- `handle` is `getHandle()` of the deriving class.
  unfoldable pub listener_subscribe :
      ℤ → List HandleEvent → EventHandlingPolicy → L → Run (Bool × EventHandlingPolicy × L)
  listener_subscribe handle events p l = elim p.optional_handle_ref [
    | none ↦ ok (false, p, l)
    | some _ ↦ listener.subscribe events handle l >>= λ answer. ok (keep_id p answer)
  ]

  unfoldable pub drop_id : EventHandlingPolicy → Bool × L → Bool × EventHandlingPolicy × L
  drop_id p (done, l) =
      if done then (true, record p { listener_sub_id = null_subscriber_id }, l) else (false, p, l)

  unfoldable pub listener_unsubscribe :
      EventHandlingPolicy → L → Run (Bool × EventHandlingPolicy × L)
  listener_unsubscribe p l =
      listener.unsubscribe p.listener_sub_id l >>= λ answer. ok (drop_id p answer)

pub record GenericEventHandlingPolicy : Type 0 where
  pub base : EventHandlingPolicy
  pub init_done : Bool

unfoldable pub init : GenericEventHandlingPolicy → Bool × GenericEventHandlingPolicy
init g = if g.init_done then (true, g) else (true, record g { init_done = true })

unfoldable pub generic_handle_event : ℕ → GenericEventHandlingPolicy → HandleEventResult
generic_handle_event id g =
    if not (g.base.listener_sub_id == id)
    then HandleEventResult.invalid_reference
    else HandleEventResult.default_result

module _ {L : Type 0} (listener : Listener L) where
  with_base :
      GenericEventHandlingPolicy
      → Run (Bool × EventHandlingPolicy × L)
      → Run (Bool × GenericEventHandlingPolicy × L)
  with_base g run = run >>= λ answer. ok (answer.0, record g { base = answer.1 }, answer.2)

  unfoldable pub generic_listener_subscribe :
      List HandleEvent
      → GenericEventHandlingPolicy
      → L
      → Run (Bool × GenericEventHandlingPolicy × L)
  unfolding with_base
  generic_listener_subscribe events g l =
      if not g.init_done then ok (false, g, l) else elim g.base.optional_handle_ref [
        | none ↦ ok (false, g, l)
        | some handle ↦ with_base g (listener_subscribe listener handle events g.base l)
      ]

  unfoldable pub generic_listener_unsubscribe :
      GenericEventHandlingPolicy → L → Run (Bool × GenericEventHandlingPolicy × L)
  unfolding with_base
  generic_listener_unsubscribe g l =
      if not g.init_done
      then ok (false, g, l)
      else with_base g (listener_unsubscribe listener g.base l)

  -- Also the destructor.
  unfoldable pub deinit : GenericEventHandlingPolicy → L → Run (GenericEventHandlingPolicy × L)
  unfolding generic_listener_unsubscribe
  deinit g l =
      if subscribed_to_listener g.base
      then (generic_listener_unsubscribe g l >>= λ answer. ok (answer.1, answer.2))
      else ok (g, l)
