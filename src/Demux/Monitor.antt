-- ===== src/Demux/Monitor.antt =====
-- EpollDemultiplexer::monitorWaitThread (TransportInfra/Reactor/EpollDemultiplexer.h) and the
-- notifications that it queues (TransportInfra/Reactor/SubscriberInfo.hpp). What epoll_wait answers
-- is an input of each round.
use Prim.Native.Nat.{bit_and}
use ipcinfra.Prelude.{
  ℕ, zero, suc, ◌-◌, ◌<◌, ◌^◌, ◌≡◌, ◌≢◌, refl, Bool, true, false, not, ◌&&◌, ◌||◌, List, [], ◌∷◌,
  arith, nat_beq, if◌then◌else◌, Bool-cases, inl, inr,
}
use ipcinfra.Prelude.Int.{ℤ}
use ipcinfra.Prelude.Bits.{bit, bit-le-one, bit-bit_and, bit_and-pow}
use ipcinfra.Prelude.Run.{Run, ok, ◌>>=◌}
use ipcinfra.SharedQueue.{SharedQueue, push}
use ipcinfra.Events.Mask.{epollhup, epollin}

pub record EventNotification : Type 0 where
  pub handle : ℤ
  pub notified_events_mask : ℕ
  pub last_event : Bool

-- A ready item: its descriptor and its events.
abbrev pub Ready : Type 0
Ready = ℤ × ℕ

-- epoll_wait: no item before the timeout, -1 with EINTR, -1 with another error, or some items.
pub data Wait : Type 0 where
  timed_out interrupted failed : Wait
  ready : List Ready → Wait

-- `m & flag` as a condition
abbrev pub is_set : ℕ → ℕ → Bool
is_set mask flag = not (nat_beq (bit_and mask flag) 0)

abbrev pub not_epollhup : ℕ
not_epollhup = 2 ^ 32 - 1 - epollhup

-- A hang-up is held back while there is input to read.
unfoldable pub passed_mask : ℕ → ℕ
passed_mask events =
    if is_set events epollhup && is_set events epollin then bit_and events not_epollhup else events

unfoldable pub notification_of : Ready → EventNotification
unfolding passed_mask
notification_of (descriptor, events) = record {
  handle = descriptor;
  notified_events_mask = passed_mask events;
  last_event = false;
}

abbrev pub EventQueue : Type 0
EventQueue = SharedQueue EventNotification

-- The loop over the ready items.
unfoldable pub push_all : List Ready → EventQueue → Run EventQueue
push_all [] q = ok q
push_all (item ∷ items) q = do (_, q') ← push (notification_of item) q; push_all items q'

-- One round of the thread's loop: whether the thread returns, and the queue.
unfoldable pub monitor_round : Bool → Wait → EventQueue → Run (Bool × EventQueue)
unfolding push_all
monitor_round monitoring_ended timed_out q = ok (monitoring_ended, q)
monitor_round monitoring_ended interrupted q = ok (false, q)
monitor_round monitoring_ended failed q = ok (false, q)
monitor_round monitoring_ended (ready items) q = do q' ← push_all items q; ok (false, q')

-- The rounds, each with the value of `m_monitoring_ended` at the time. The flag says that the
-- thread has returned.
unfoldable pub monitor_wait_thread : List (Bool × Wait) → EventQueue → Run (Bool × EventQueue)
unfolding monitor_round
monitor_wait_thread [] q = ok (false, q)
monitor_wait_thread ((ended, wait) ∷ rounds) q =
    let goes_on = λ (q' : EventQueue). monitor_wait_thread rounds q' in
    monitor_round ended wait q >>= λ r. if r.0 then ok r else goes_on r.1

is_kept : ℕ → Bool
is_kept k = nat_beq k 4 || nat_beq (bit k not_epollhup) 1

each_is_kept : ℕ → Bool
each_is_kept zero = true
each_is_kept (suc positions) = each_is_kept positions && is_kept positions

each_is_kept-is_kept :
    (k positions : ℕ) → k < positions → each_is_kept positions ≡ true → is_kept k ≡ true
unfolding each_is_kept
each_is_kept-is_kept k (suc positions) below kept = ground (arith, each_is_kept-is_kept k positions)
each_is_kept-is_kept k zero below kept = absurd (omega arith)

other_bits : each_is_kept 32 ≡ true
unfolding each_is_kept is_kept
other_bits = refl

bit-not_epollhup : (k : ℕ) → k < 32 → k ≢ 4 → bit k not_epollhup ≡ 1
unfolding is_kept
bit-not_epollhup k l ne = ground (arith, each_is_kept-is_kept k 32 l other_bits)

hangup_set : (m : ℕ) → is_set m epollhup ≡ not (nat_beq (bit 4 m) 0)
hangup_set m = ground (arith, bit_and-pow 4 m, bit-le-one 4 m)

input_set : (m : ℕ) → is_set m epollin ≡ not (nat_beq (bit 0 m) 0)
input_set m = ground (arith, bit_and-pow 0 m, bit-le-one 0 m)

abbrev pub PassedBits : ℕ → ℕ → Type 0
PassedBits events mask =
    (bit 0 mask ≡ 1 → bit 4 mask ≡ 0)
    × (bit 0 events ≡ 0 → mask ≡ events)
    × ((k : ℕ) → k < 32 → k ≢ 4 → bit k mask ≡ bit k events)

-- The mask that is passed on never has both input and hang-up set, is the one received if input
-- is not set there, and agrees with it in each of the 32 bits but that of hang-up.
pub passed_mask-PassedBits : (events : ℕ) → PassedBits events (passed_mask events)
unfolding passed_mask
passed_mask-PassedBits events =
    elim (Bool-cases (is_set events epollhup && is_set events epollin)) [
      | inl both ↦ rw both (
        λ _. omega (arith, bit-bit_and 4 events not_epollhup),
        λ h. absurd (ground (arith, input_set events)),
        λ k l ne. omega (
          arith,
          bit-bit_and k events not_epollhup,
          bit-not_epollhup k l ne,
          bit-le-one k events,
        ),
      )
      | inr apart ↦ rw apart (
        λ h. ground (arith, hangup_set events, input_set events, bit-le-one 4 events),
        λ _. refl,
        λ k l ne. refl,
      )
    ]
