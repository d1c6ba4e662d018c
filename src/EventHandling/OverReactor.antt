-- ===== src/EventHandling/OverReactor.antt =====
-- The reactor as the listener of the policies, and the Registry it fills
-- (TransportInfra/Reactor/Reactor.hpp, TransportInfra/Policies/EventHandlingPolicy.hpp).
use ipcinfra.Prelude.{ℕ, suc, ◌≡◌, ◌≢◌, refl, Bool, true, false, some, List, arith}
use ipcinfra.Prelude.Int.{ℤ}
use ipcinfra.Prelude.Classes.{◌==◌, nat_eq, int_eq, ==_iff}
use ipcinfra.Prelude.Run.{Returns}
use ipcinfra.LookupTable.Hash.{find}
use ipcinfra.LookupTable.Hash.Laws.{is_some}
use ipcinfra.Demux.{Epoll}
use ipcinfra.Events.{HandleEvent}
use ipcinfra.Reactor.{SubscriberContext, Reactor}
use ipcinfra.Reactor.Cleanup.{gone}
use ipcinfra.Reactor.Soundness.{IsSound}
use ipcinfra.Reactor.Subscribe.{Subscribes, key_for, subscribe-Subscribes}
use ipcinfra.Reactor.Subscribing
use ipcinfra.Reactor.Unsubscribe.{Unsubscribes, unless, unsubscribe-Unsubscribes}
use ipcinfra.EventHandling.{Listener, EventHandlingPolicy, listener_subscribe}
use ipcinfra.EventHandling.Session.{Registry, Session, listener_subscribe-Session}

module _ {E H : Type 0} (epoll : Epoll E) (hash : ℕ → ℕ) (rounds now : ℕ) (self : H) where
  abbrev pub reactor_listener : Listener (Reactor E H)
  reactor_listener = record {
    subscribe =
        λ events handle r. Subscribing.subscribe epoll hash (suc rounds) now events handle self r;
    unsubscribe = λ id r. Subscribing.unsubscribe epoll now id r;
  }

  -- An entry that the next cleanup leaves where it is.
  abbrev pub stands : ℕ → Reactor E H → Bool
  stands id r = is_some (unless (gone r id) (find id r.subscribers_table))

  abbrev pub IsFree : ℤ → Reactor E H → Type 0
  IsFree handle r =
      (context : SubscriberContext)
      → find (key_for hash handle r) r.subscribers_table ≡ some context
      → (handle == context.handle) ≡ true

  pub entry-stands :
      (events : List HandleEvent) (handle : ℤ) (answer : ℕ × Reactor E H)
      → Subscribes epoll hash events handle self answer
      → answer.0 ≢ 0
      → stands answer.0 answer.1 ≡ true
  entry-stands events handle answer s ne = rw (s.entered ne) refl

  pub unsubscribed :
      (id : ℕ) (r : Reactor E H) (answer : Bool × Reactor E H)
      → Unsubscribes epoll id r answer
      → stands id answer.1 ≡ false
  unsubscribed id r answer u = rw (u.subscribers id) (ground (arith, ==_iff id id))

  abbrev pub reactor_registry : Registry reactor_listener
  reactor_registry = record {
    Good = IsSound;
    Free = IsFree;
    registered = stands;
    subscribes = λ events handle r s free.
        let (answer, run, made) =
          subscribe-Subscribes epoll hash rounds now events handle self r s free in
        (answer, run, (made.sound, λ ne. entry-stands events handle answer made ne));
    unsubscribes = λ id r s.
        let (answer, run, left) = unsubscribe-Unsubscribes epoll now id r s in
        (answer, run, (left.sound, left.found, unsubscribed id r answer left));
  }

  -- On a sound reactor, with the handle's key free or taken by the handle itself,
  -- listenerSubscribe of a policy over the reactor returns and keeps the reactor sound; if it
  -- answers false the policy is as it was; if it answers true the policy is subscribed, and
  -- listenerUnsubscribe then answers true, keeps the reactor sound, leaves under the id no entry
  -- that outlasts the next cleanup, and the policy answers any later event of that id with an
  -- invalid reference and calls no handler.
  pub reactor-Session :
      (handle : ℤ) (events : List HandleEvent) (p : EventHandlingPolicy) (r : Reactor E H)
      → IsSound r
      → IsFree handle r
      → Returns
          (Session reactor_listener reactor_registry p)
          (listener_subscribe reactor_listener handle events p r)
  reactor-Session handle events p r s free =
      listener_subscribe-Session reactor_listener reactor_registry handle events p r s free
