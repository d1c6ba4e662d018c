-- ===== src/Events/Mask.antt =====
-- TransportInfra/Reactor/EpollDemultiplexer.cpp: events to an epoll mask and back. The constants are
-- those of <sys/epoll.h> on Linux.
use Prim.Native.Nat.{bit_or, bit_and}
use ipcinfra.Prelude.{
  ℕ, ◌+◌, ◌^◌, ◌≡◌, refl, Bool, true, false, ◌||◌, ◌&&◌, nat_beq_iff, List, [], ◌∷◌, map, arith,
  nat_beq, if◌then◌else◌,
}
use ipcinfra.Prelude.Classes.{◌==◌}
use ipcinfra.LookupTable.Hash.Laws.{contains}
use ipcinfra.Events.{
  HandleEvent, null_event, in_event, prio_in_event, out_event, err_event, hup_event, shutdown_event,
  last_event, event_eq, event_beq, event_beq_iff,
}

abbrev pub epollin : ℕ
epollin = 0x001

abbrev pub epollpri : ℕ
epollpri = 0x002

abbrev pub epollout : ℕ
epollout = 0x004

abbrev pub epollerr : ℕ
epollerr = 0x008

abbrev pub epollhup : ℕ
epollhup = 0x010

abbrev pub epollrdhup : ℕ
epollrdhup = 0x2000

abbrev pub epollet : ℕ
epollet = 2 ^ 31

-- The array `handleEventToEpollFlag`, at an event's value.
abbrev pub handle_event_to_epoll_flag : HandleEvent → ℕ
handle_event_to_epoll_flag null_event = 0
handle_event_to_epoll_flag in_event = epollin
handle_event_to_epoll_flag prio_in_event = epollpri
handle_event_to_epoll_flag out_event = epollout
handle_event_to_epoll_flag err_event = epollerr
handle_event_to_epoll_flag hup_event = epollhup
handle_event_to_epoll_flag shutdown_event = epollrdhup
handle_event_to_epoll_flag last_event = 0

-- The `for_each` of `getEventsMask`, from the mask so far.
mask_from : ℕ → List HandleEvent → ℕ
mask_from ret [] = ret
mask_from ret (event ∷ events) =
    mask_from (if event == null_event then ret else bit_or ret (handle_event_to_epoll_flag event))
      events

unfoldable pub get_events_mask : List HandleEvent → ℕ
unfolding mask_from
get_events_mask events = mask_from 0 events

-- The slot of `getEventsFromMask` at an event's index, which is filled or left null.
unfoldable pub slot_of : ℕ → HandleEvent → HandleEvent
slot_of mask event =
    if nat_beq (bit_and mask (handle_event_to_epoll_flag event)) 0 then null_event else event

-- The events from E_HANDLE_EVENT_IN to before E_HANDLE_EVENT_LAST, each in the slot before its value.
abbrev pub monitored : List HandleEvent
monitored = in_event ∷ prio_in_event ∷ out_event ∷ err_event ∷ hup_event ∷ shutdown_event ∷ []

unfoldable pub get_events_from_mask : ℕ → List HandleEvent
get_events_from_mask mask = map (slot_of mask) monitored

-- A set of events, and the mask that stands for it.
record EventSet : Type 0 where
  ins : Bool
  pri : Bool
  out : Bool
  err : Bool
  hup : Bool
  rdh : Bool

abbrev weight : Bool → ℕ → ℕ
weight b n = if b then n else 0

abbrev mask_of : Bool → Bool → Bool → Bool → Bool → Bool → ℕ
mask_of a b c d e f =
    weight a epollin
    + (weight b epollpri
        + (weight c epollout + (weight d epollerr + (weight e epollhup + weight f epollrdhup))))

abbrev set_mask : EventSet → ℕ
set_mask s = mask_of s.ins s.pri s.out s.err s.hup s.rdh

abbrev member : HandleEvent → EventSet → Bool
member null_event s = false
member in_event s = s.ins
member prio_in_event s = s.pri
member out_event s = s.out
member err_event s = s.err
member hup_event s = s.hup
member shutdown_event s = s.rdh
member last_event s = false

abbrev add_event : HandleEvent → EventSet → EventSet
add_event null_event s = s
add_event in_event s = record s { ins = true }
add_event prio_in_event s = record s { pri = true }
add_event out_event s = record s { out = true }
add_event err_event s = record s { err = true }
add_event hup_event s = record s { hup = true }
add_event shutdown_event s = record s { rdh = true }
add_event last_event s = s

abbrev make : Bool → Bool → Bool → Bool → Bool → Bool → EventSet
make a b c d e f = record { ins = a; pri = b; out = c; err = d; hup = e; rdh = f }

-- Both values of a Boolean, tried.
every : (Bool → Bool) → Bool
every p = p true && p false

every_sound : (p : Bool → Bool) → every p ≡ true → (b : Bool) → p b ≡ true
unfolding every
every_sound p h true = ground arith
every_sound p h false = ground arith

abbrev every_set : (Bool → Bool → Bool → Bool → Bool → Bool → Bool) → Bool
every_set p = every λ a. every λ b. every λ c. every λ d. every λ e. every λ f. p a b c d e f

every_set_sound :
    (p : Bool → Bool → Bool → Bool → Bool → Bool → Bool)
    → every_set p ≡ true
    → (a b c d e f : Bool) → p a b c d e f ≡ true
every_set_sound p h a b c d e f =
    every_sound _
      (every_sound _ (every_sound _ (every_sound _ (every_sound _ (every_sound _ h a) b) c) d) e) f

or_table :
    (event : HandleEvent)
    → every_set (λ a b c d e f.
      nat_beq
        (bit_or (mask_of a b c d e f) (handle_event_to_epoll_flag event))
        (set_mask (add_event event (make a b c d e f))))
      ≡ true
unfolding every
or_table null_event = refl
or_table _ = refl

bit_or-mask :
    (event : HandleEvent) (s : EventSet)
    → bit_or (set_mask s) (handle_event_to_epoll_flag event) ≡ set_mask (add_event event s)
bit_or-mask event s =
    (nat_beq_iff _ _).0 (every_set_sound _ (or_table event) s.ins s.pri s.out s.err s.hup s.rdh)

slot_table :
    (event : HandleEvent)
    → every_set (λ a b c d e f.
      event_beq
        (slot_of (mask_of a b c d e f) event)
        (if member event (make a b c d e f) then event else null_event))
      ≡ true
unfolding every slot_of
slot_table null_event = refl
slot_table _ = refl

slot_of-mask :
    (event : HandleEvent) (s : EventSet)
    → slot_of (set_mask s) event ≡ (if member event s then event else null_event)
slot_of-mask event s =
    (event_beq_iff _ _).0 (every_set_sound _ (slot_table event) s.ins s.pri s.out s.err s.hup s.rdh)

-- All the events of a list, added to the set.
collect : EventSet → List HandleEvent → EventSet
collect s [] = s
collect s (event ∷ events) = collect (add_event event s) events

mask_from-collect :
    (s : EventSet) (events : List HandleEvent)
    → mask_from (set_mask s) events ≡ set_mask (collect s events)
unfolding mask_from collect
mask_from-collect s [] = refl
mask_from-collect s (null_event ∷ events) = mask_from-collect s events
mask_from-collect s (event ∷ events) =
    rw (bit_or-mask event s) (mask_from-collect (add_event event s) events)

pub is_monitored : HandleEvent → Bool
is_monitored event = contains monitored event

member-add_event :
    (e event : HandleEvent) (s : EventSet)
    → member e (add_event event s) ≡ (is_monitored e && event == e || member e s)
unfolding is_monitored
member-add_event null_event null_event s = refl
member-add_event null_event _ s = refl
member-add_event in_event null_event s = refl
member-add_event in_event _ s = refl
member-add_event prio_in_event null_event s = refl
member-add_event prio_in_event _ s = refl
member-add_event out_event null_event s = refl
member-add_event out_event _ s = refl
member-add_event err_event null_event s = refl
member-add_event err_event _ s = refl
member-add_event hup_event null_event s = refl
member-add_event hup_event _ s = refl
member-add_event shutdown_event null_event s = refl
member-add_event shutdown_event _ s = refl
member-add_event last_event null_event s = refl
member-add_event last_event _ s = refl

member-collect :
    (e : HandleEvent) (s : EventSet) (events : List HandleEvent)
    → member e (collect s events) ≡ (is_monitored e && contains events e || member e s)
unfolding collect
member-collect e s [] = ground arith
member-collect e s (event ∷ events) =
    ground (arith, member-collect e (add_event event s) events, member-add_event e event s)

member-none :
    (event : HandleEvent) → member event (make false false false false false false) ≡ false
member-none null_event = refl
member-none _ = refl

slot_of-get_events_mask :
    (event : HandleEvent) (events : List HandleEvent)
    → is_monitored event ≡ true
    → slot_of (get_events_mask events) event ≡ (if contains events event then event else null_event)
unfolding get_events_mask
slot_of-get_events_mask event events h =
    let none_set = make false false false false false false in
    rw (mask_from-collect none_set events) (
      rw (slot_of-mask event (collect none_set events))
        (rw (member-collect event none_set events) (rw h (ground (arith, member-none event)))))

-- The events read back from the mask of any list of events are, in the order of their values,
-- those of the six monitored events that stand in the list, with the null event in the place of
-- each other one.
pub get_events_from_mask-get_events_mask :
    (events : List HandleEvent)
    → get_events_from_mask (get_events_mask events)
      ≡ map (λ event. if contains events event then event else null_event) monitored
unfolding get_events_from_mask is_monitored
get_events_from_mask-get_events_mask events =
    let slot = λ (event : HandleEvent) (h : is_monitored event ≡ true).
      slot_of-get_events_mask event events h in
    cc (
      slot in_event refl,
      slot prio_in_event refl,
      slot out_event refl,
      slot err_event refl,
      slot hup_event refl,
      slot shutdown_event refl,
    )
