-- ===== src/Demux/Rounds.antt =====
-- What the demultiplexer's thread puts into the queue, and when it ends
-- (TransportInfra/Reactor/EpollDemultiplexer.h).
use ipcinfra.Prelude.{
  ◌≡◌, refl, sym, ap, ◌∙◌, Bool, true, false, List, [], ◌∷◌, ◌++◌, All, append-nil, append_assoc,
}
use ipcinfra.Prelude.Run.{◌>>=◌, Returns}
use ipcinfra.SharedQueue.{push}
use ipcinfra.Demux.Monitor.{
  EventNotification, EventQueue, Ready, Wait, timed_out, interrupted, failed, ready, PassedBits,
  passed_mask-PassedBits, notification_of, push_all, monitor_round, monitor_wait_thread,
}

-- A notification of a ready item, which does not end the thread that takes it out.
pub record Notifies (item : Ready) (n : EventNotification) : Type 0 where
  pub same_handle : n.handle ≡ item.0
  pub passed : PassedBits item.1 n.notified_events_mask
  pub goes_on : n.last_event ≡ false

pub data AllNotify : List Ready → List EventNotification → Type 0 where
  no_items : AllNotify [] []
  one_more :
      {item : Ready} {n : EventNotification} {items : List Ready} {ns : List EventNotification}
      → Notifies item n
      → AllNotify items ns
      → AllNotify (item ∷ items) (n ∷ ns)

AllNotify-append :
    {items more : List Ready} {ns ms : List EventNotification}
    → AllNotify items ns
    → AllNotify more ms
    → AllNotify (items ++ more) (ns ++ ms)
AllNotify-append no_items after = after
AllNotify-append (one_more n before) after = one_more n (AllNotify-append before after)

abbrev pub items_of : Wait → List Ready
items_of (ready items) = items
items_of timed_out = []
items_of interrupted = []
items_of failed = []

abbrev pub all_items : List (Bool × Wait) → List Ready
all_items [] = []
all_items ((ended, wait) ∷ rounds) = items_of wait ++ all_items rounds

-- A round after which the thread goes on: monitoring has not ended, or the wait has not timed out.
pub data GoesOn : Bool × Wait → Type 0 where
  not_ended : {wait : Wait} → GoesOn (false, wait)
  on_signal : {ended : Bool} → GoesOn (ended, interrupted)
  on_error : {ended : Bool} → GoesOn (ended, failed)
  with_items : {ended : Bool} {items : List Ready} → GoesOn (ended, ready items)

-- Whether the thread has returned, by the rounds that it has not gone past.
pub data Stops : Bool → List (Bool × Wait) → Type 0 where
  not_yet : Stops false []
  told : {rounds : List (Bool × Wait)} → Stops true ((true, timed_out) ∷ rounds)

-- The queue has gained the notifications of the items.
pub record Gains (items : List Ready) (q q' : EventQueue) : Type 0 where
  pub news : List EventNotification
  pub all_notified : AllNotify items news
  pub contents : q'.contents ≡ q.contents ++ news
  pub free : q'.held ≡ false

pub record Monitors (rounds : List (Bool × Wait)) (q : EventQueue) (out : Bool × EventQueue)
    : Type 0 where
  pub passed_rounds : List (Bool × Wait)
  pub left_rounds : List (Bool × Wait)
  pub split : rounds ≡ passed_rounds ++ left_rounds
  pub all_go_on : All GoesOn passed_rounds
  pub stops : Stops out.0 left_rounds
  pub gains : Gains (all_items passed_rounds) q out.1

Gains-append :
    {items more : List Ready} {q q' q'' : EventQueue}
    → Gains items q q'
    → Gains more q' q''
    → Gains (items ++ more) q q''
Gains-append {q = q} first second = record {
  news = first.news ++ second.news;
  all_notified = AllNotify-append first.all_notified second.all_notified;
  contents =
      second.contents
      ∙ ap (λ (l : List EventNotification). l ++ second.news) first.contents
      ∙ append_assoc q.contents first.news second.news;
  free = second.free;
}

Gains-nothing : (q : EventQueue) → q.held ≡ false → Gains [] q q
Gains-nothing q h = record {
  news = [];
  all_notified = no_items;
  contents = sym (append-nil q.contents);
  free = h;
}

notification_of-Notifies : (item : Ready) → Notifies item (notification_of item)
unfolding notification_of
notification_of-Notifies (descriptor, events) = record {
  same_handle = refl;
  passed = passed_mask-PassedBits events;
  goes_on = refl;
}

push-Gains :
    (item : Ready) (q : EventQueue)
    → q.held ≡ false
    → Returns (λ r. Gains (item ∷ []) q r.1) (push (notification_of item) q)
unfolding push
push-Gains item q h = rw h (
  _,
  refl,
  record {
    news = notification_of item ∷ [];
    all_notified = one_more (notification_of-Notifies item) no_items;
    contents = refl;
    free = refl;
  },
)

push_all-Gains :
    (items : List Ready) (q : EventQueue)
    → q.held ≡ false
    → Returns (λ q'. Gains items q q') (push_all items q)
unfolding push_all
push_all-Gains [] q h = (q, refl, Gains-nothing q h)
push_all-Gains (item ∷ items) q h =
    let (pushed, returned, gains) = push-Gains item q h in
    let (q', returned', gains') = push_all-Gains items pushed.1 gains.free in
    (q', rw (returned, ◌>>=◌) returned', Gains-append gains gains')

-- A round of the thread, after which it goes on.
round-Gains :
    (ended : Bool) (wait : Wait) (q : EventQueue)
    → GoesOn (ended, wait)
    → q.held ≡ false
    → Returns (λ r. (r.0 ≡ false) × Gains (items_of wait) q r.1) (monitor_round ended wait q)
unfolding monitor_round
round-Gains false timed_out q not_ended h = (_, refl, (refl, Gains-nothing q h))
round-Gains true timed_out q goes_on h = elim goes_on [ ]
round-Gains ended interrupted q goes_on h = (_, refl, (refl, Gains-nothing q h))
round-Gains ended failed q goes_on h = (_, refl, (refl, Gains-nothing q h))
round-Gains ended (ready items) q goes_on h =
    let (q', returned, gains) = push_all-Gains items q h in
    ((false, q'), rw (returned, ◌>>=◌), (refl, gains))

first-Monitors :
    (ended : Bool) (wait : Wait) (rounds : List (Bool × Wait)) (q : EventQueue)
    → GoesOn (ended, wait)
    → q.held ≡ false
    → ((q' : EventQueue)
        → q'.held ≡ false
        → Returns (Monitors rounds q') (monitor_wait_thread rounds q'))
    → Returns (Monitors ((ended, wait) ∷ rounds) q) (monitor_wait_thread ((ended, wait) ∷ rounds) q)
unfolding monitor_wait_thread
first-Monitors ended wait rounds q goes_on h later =
    let (r, returned, (on, gains)) = round-Gains ended wait q goes_on h in
    let (out, returned', monitors) = later r.1 gains.free in
    (
      out,
      rw (returned, ◌>>=◌) (rw on returned'),
      record {
        passed_rounds = (ended, wait) ∷ monitors.passed_rounds;
        left_rounds = monitors.left_rounds;
        split = ap (λ (l : List (Bool × Wait)). (ended, wait) ∷ l) monitors.split;
        all_go_on = (goes_on, monitors.all_go_on);
        stops = monitors.stops;
        gains = Gains-append gains monitors.gains;
      },
    )

-- If the queue's mutex is free, the demultiplexer's thread runs through its rounds without a
-- fault and leaves the mutex free: it returns at the first round in which the wait times out and
-- monitoring has ended, and goes past every other, also where a wait is interrupted or fails. The
-- queue gains at its end, in their order, one notification for each item that was ready in the
-- rounds gone past, and nothing else: with the item's handle, no mark of a last event, and a mask
-- that never has both input and hang-up set, is the one received if input is not set there, and
-- agrees with it in each of the 32 bits but that of hang-up.
pub monitor_wait_thread-Monitors :
    (rounds : List (Bool × Wait)) (q : EventQueue)
    → q.held ≡ false
    → Returns (Monitors rounds q) (monitor_wait_thread rounds q)
unfolding monitor_wait_thread monitor_round
monitor_wait_thread-Monitors [] q h = (
  _,
  refl,
  record {
    passed_rounds = [];
    left_rounds = [];
    split = refl;
    all_go_on = tt;
    stops = not_yet;
    gains = Gains-nothing q h;
  },
)
monitor_wait_thread-Monitors ((true, timed_out) ∷ rounds) q h = (
  _,
  refl,
  record {
    passed_rounds = [];
    left_rounds = (true, timed_out) ∷ rounds;
    split = refl;
    all_go_on = tt;
    stops = told;
    gains = Gains-nothing q h;
  },
)
monitor_wait_thread-Monitors ((false, timed_out) ∷ rounds) q h =
    first-Monitors false timed_out rounds q not_ended h (monitor_wait_thread-Monitors rounds)
monitor_wait_thread-Monitors ((ended, interrupted) ∷ rounds) q h =
    first-Monitors ended interrupted rounds q on_signal h (monitor_wait_thread-Monitors rounds)
monitor_wait_thread-Monitors ((ended, failed) ∷ rounds) q h =
    first-Monitors ended failed rounds q on_error h (monitor_wait_thread-Monitors rounds)
monitor_wait_thread-Monitors ((ended, ready items) ∷ rounds) q h =
    first-Monitors ended (ready items) rounds q with_items h (monitor_wait_thread-Monitors rounds)
