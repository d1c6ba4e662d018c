-- ===== src/Events.antt =====
-- TransportInfra/Reactor/EventTypes.h: the events that a handler is told of, arrays of them, and
-- what a handler answers.
pub mod Mask
pub mod Priority
use ipcinfra.Prelude.{
  sym, ℕ, zero, suc, ◌+◌, ◌≡◌, ◌↔◌, refl, Bool, List, [], ◌∷◌, arith, length, nat_beq, nat_beq_iff,
  ap, ◌∙◌,
}
use ipcinfra.Prelude.Classes.{Eq}

pub data HandleEventResult : Type 0 where
  method_not_implemented invalid_reference failure default_result success : HandleEventResult

pub data HandleEvent : Type 0 where
  null_event in_event prio_in_event out_event err_event hup_event shutdown_event last_event :
      HandleEvent

-- The enumerators' values.
abbrev pub underlying : HandleEvent → ℕ
underlying null_event = 0
underlying in_event = 1
underlying prio_in_event = 2
underlying out_event = 3
underlying err_event = 4
underlying hup_event = 5
underlying shutdown_event = 6
underlying last_event = 7

abbrev pub event_of : ℕ → HandleEvent
event_of zero = null_event
event_of (suc zero) = in_event
event_of (suc (suc zero)) = prio_in_event
event_of (suc (suc (suc zero))) = out_event
event_of (suc (suc (suc (suc zero)))) = err_event
event_of (suc (suc (suc (suc (suc zero))))) = hup_event
event_of (suc (suc (suc (suc (suc (suc zero)))))) = shutdown_event
event_of (suc (suc (suc (suc (suc (suc (suc n))))))) = last_event

event_of-underlying : (e : HandleEvent) → event_of (underlying e) ≡ e
event_of-underlying null_event = refl
event_of-underlying _ = refl

abbrev pub event_beq : HandleEvent → HandleEvent → Bool
event_beq a b = nat_beq (underlying a) (underlying b)

pub event_beq_iff : (a b : HandleEvent) → (event_beq a b ≡ Bool.true) ↔ (a ≡ b)
event_beq_iff a b = (
  λ h.
      sym (event_of-underlying a)
      ∙ ap event_of ((nat_beq_iff (underlying a) (underlying b)).0 h)
      ∙ event_of-underlying b,
  λ h. (nat_beq_iff (underlying a) (underlying b)).1 (ap underlying h),
)

instance abbrev pub event_eq : Eq HandleEvent
event_eq = record { equal = event_beq; equal_iff = event_beq_iff }

abbrev pub max_events_no : ℕ
max_events_no = 6

-- `fillArray<index, events...>(arr)`: the events over the array's slots from the index on.
unfoldable pub fill_array : List HandleEvent → List HandleEvent → List HandleEvent
fill_array [] events = []
fill_array (slot ∷ arr) [] = slot ∷ arr
fill_array (slot ∷ arr) (event ∷ events) = event ∷ fill_array arr events

-- `getArray<events...>()`
unfoldable pub get_array : List HandleEvent → List HandleEvent
unfolding fill_array
get_array events =
    fill_array (null_event ∷ null_event ∷ null_event ∷ null_event ∷ null_event ∷ null_event ∷ [])
      events

length-fill_array : (arr events : List HandleEvent) → length (fill_array arr events) ≡ length arr
unfolding fill_array
length-fill_array [] events = refl
length-fill_array (slot ∷ arr) [] = refl
length-fill_array (slot ∷ arr) (event ∷ events) = ap suc (length-fill_array arr events)

pub length-get_array : (events : List HandleEvent) → length (get_array events) ≡ max_events_no
unfolding get_array
length-get_array events =
    length-fill_array
      (null_event ∷ null_event ∷ null_event ∷ null_event ∷ null_event ∷ null_event ∷ []) events
