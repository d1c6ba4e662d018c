-- ===== src/SharedQueue/Fifo.antt =====
-- Producers and consumers, in any order of their critical sections.
use ipcinfra.Prelude.{
  ℕ, zero, suc, ◌+◌, ◌≡◌, refl, sym, ◌∙◌, false, Option, none, some, List, [], ◌∷◌, ◌++◌,
  append-nil, append_assoc, arith,
}
use ipcinfra.Prelude.Run.{Run, ok, ◌>>=◌, Returns}
use ipcinfra.SharedQueue.{
  SharedQueue, Waited, blocked, popped, push, try_pop, wait_and_pop, pop_front, take_front,
  is_empty,
}

-- What some thread does: a call, or, in a wait that blocks, the next test of the queue after a
-- notification or without one.
pub data Action {ℓ} (T : Type ℓ) : Type ℓ where
  pushes : T → Action T
  tries waits wakes : Action T

-- The queue, how many calls of wait_and_pop are blocked, and how many have returned.
pub record Shared {ℓ} (T : Type ℓ) : Type ℓ where
  pub queue : SharedQueue T
  pub waiting : ℕ
  pub returned : ℕ

module _ {ℓ} {T : Type ℓ} where
  abbrev pub pushed_by : Action T → List T
  pushed_by (pushes x) = x ∷ []
  pushed_by tries = []
  pushed_by waits = []
  pushed_by wakes = []

  abbrev pub all_pushed : List (Action T) → List T
  all_pushed [] = []
  all_pushed (c ∷ cs) = pushed_by c ++ all_pushed cs

  abbrev pub waits_of : Action T → ℕ
  waits_of (pushes x) = 0
  waits_of tries = 0
  waits_of waits = 1
  waits_of wakes = 0

  abbrev pub all_waits : List (Action T) → ℕ
  all_waits [] = 0
  all_waits (c ∷ cs) = waits_of c + all_waits cs

  abbrev pub received : Option T → List T
  received none = []
  received (some x) = x ∷ []

  -- A call that waits, with `others` blocked already.
  abbrev pub settle : ℕ → Shared T → Waited T × SharedQueue T → List T × Shared T
  settle others s (blocked, q) = ([], record s { queue = q; waiting = suc others })
  settle others s (popped x, q) =
      (x ∷ [], record s { queue = q; waiting = others; returned = suc s.returned })

  -- The values that the action hands out, and what is shared after it.
  unfoldable pub act : Shared T → Action T → Run (List T × Shared T)
  act s (pushes x) = do (_, q) ← push x s.queue; ok ([], record s { queue = q })
  act s tries = do (value, q) ← try_pop s.queue; ok (received value, record s { queue = q })
  act s waits = wait_and_pop s.queue >>= λ w. ok (settle s.waiting s w)
  act s wakes = elim s.waiting [
    | zero ↦ ok ([], s)
    | suc others ↦ wait_and_pop s.queue >>= λ w. ok (settle others s w)
  ]

  unfoldable pub acts : Shared T → List (Action T) → Run (List T × Shared T)
  unfolding act
  acts s [] = ok ([], s)
  acts s (c ∷ cs) = do (values, s') ← act s c; (more, last) ← acts s' cs; ok (values ++ more, last)

  pub record Conserves (s : Shared T) (pushed : List T) (started : ℕ) (out : List T × Shared T)
      : Type ℓ where
    pub in_order : out.0 ++ out.1.queue.contents ≡ s.queue.contents ++ pushed
    pub each_waits : out.1.waiting + out.1.returned ≡ s.waiting + s.returned + started
    pub free : out.1.queue.held ≡ false

  pop_front-received :
      (items : List T) → received (pop_front items).0 ++ (pop_front items).1 ≡ items
  unfolding pop_front
  pop_front-received [] = refl
  pop_front-received (x ∷ items) = refl

  -- A call that waits is blocked, or returns with the oldest value.
  wait_on-Conserves :
      (others : ℕ) (s : Shared T) (items : List T)
      → s.queue.contents ≡ items
      → s.queue.held ≡ false
      → Returns
          (Conserves (record s { waiting = others }) [] 1)
          (wait_and_pop s.queue >>= λ w. ok (settle others s w))
  unfolding wait_and_pop is_empty take_front
  wait_on-Conserves others s [] e free =
      rw (free, e) (_, refl, record { in_order = refl; each_waits = omega arith; free = refl })
  wait_on-Conserves others s (x ∷ items) e free =
      rw (free, e)
        (
          _,
          refl,
          record { in_order = sym (append-nil (x ∷ items)); each_waits = omega arith; free = refl },
        )

  wait-Conserves :
      (others : ℕ) (s : Shared T)
      → s.queue.held ≡ false
      → Returns
          (Conserves (record s { waiting = others }) [] 1)
          (wait_and_pop s.queue >>= λ w. ok (settle others s w))
  wait-Conserves others s free = wait_on-Conserves others s s.queue.contents refl free

  wake-Conserves :
      (s : Shared T) (n : ℕ)
      → s.waiting ≡ n
      → s.queue.held ≡ false
      → Returns (Conserves s [] 0) (act s wakes)
  unfolding act
  wake-Conserves s zero e free = rw e (
    _,
    refl,
    record { in_order = sym (append-nil s.queue.contents); each_waits = omega arith; free = free },
  )
  wake-Conserves s (suc others) e free =
      let (out, returned, kept) = wait-Conserves others s free in
      rw e (
        out,
        returned,
        record {
          in_order = kept.in_order;
          each_waits = omega (arith, kept.each_waits);
          free = kept.free;
        },
      )

  act-Conserves :
      (s : Shared T) (c : Action T)
      → s.queue.held ≡ false
      → Returns (Conserves s (pushed_by c) (waits_of c)) (act s c)
  unfolding act push try_pop
  act-Conserves s (pushes x) free = (
    ([], record s { queue = record s.queue { contents = s.queue.contents ++ x ∷ [] } }),
    rw free,
    record { in_order = refl; each_waits = omega arith; free = free },
  )
  act-Conserves s tries free = (
    (
      received (pop_front s.queue.contents).0,
      record s { queue = record s.queue { contents = (pop_front s.queue.contents).1 } },
    ),
    rw free,
    record {
      in_order = pop_front-received s.queue.contents ∙ sym (append-nil s.queue.contents);
      each_waits = omega arith;
      free = free;
    },
  )
  act-Conserves s waits free = wait-Conserves s.waiting s free
  act-Conserves s wakes free = wake-Conserves s s.waiting refl free

  acts-Conserves :
      (s : Shared T) (cs : List (Action T))
      → s.queue.held ≡ false
      → Returns (Conserves s (all_pushed cs) (all_waits cs)) (acts s cs)
  unfolding acts
  acts-Conserves s [] h = (
    ([], s),
    refl,
    record { in_order = sym (append-nil s.queue.contents); each_waits = omega arith; free = h },
  )
  acts-Conserves s (c ∷ cs) h =
      let ((values, s'), step, kept) = act-Conserves s c h in
      let ((more, last), rest, kept') = acts-Conserves s' cs kept.free in
      (
        (values ++ more, last),
        rw (step, ◌>>=◌) (rw (rest, ◌>>=◌)),
        record {
          in_order = simp append_assoc (
              rw kept'.in_order (
                rw (← append_assoc) (
                  rw kept.in_order (append_assoc s.queue.contents (pushed_by c) (all_pushed cs)))));
          each_waits = omega (arith, kept.each_waits, kept'.each_waits);
          free = kept'.free;
        },
      )

  -- The next test by a blocked call, from a state: there is no such call, or nothing to take, or it
  -- takes the oldest value and returns.
  pub data NextTest (s : Shared T) : Run (List T × Shared T) → Type ℓ where
    nobody : {r : Run (List T × Shared T)} → s.waiting ≡ 0 → NextTest s r
    nothing : {r : Run (List T × Shared T)} → s.queue.contents ≡ [] → NextTest s r
    served :
        {s' : Shared T} (others : ℕ) (x : T)
        → s.waiting ≡ suc others
        → s.queue.contents ≡ x ∷ s'.queue.contents
        → s'.waiting ≡ others
        → s'.returned ≡ suc s.returned
        → NextTest s (ok (x ∷ [], s'))

  act-NextTest :
      (s : Shared T) (n : ℕ) (items : List T)
      → s.waiting ≡ n
      → s.queue.contents ≡ items
      → s.queue.held ≡ false
      → NextTest s (act s wakes)
  unfolding act wait_and_pop is_empty take_front
  act-NextTest s zero items e c free = nobody e
  act-NextTest s (suc others) [] e c free = nothing c
  act-NextTest s (suc others) (x ∷ items) e c free =
      rw (e, free, c) (served others x refl refl refl refl)

  -- From a queue whose mutex is free, any sequence of pushes, polls, new calls of wait_and_pop
  -- and tests of the queue by calls that are blocked in it runs without a fault and leaves the
  -- mutex free; the values handed out, followed by those still queued, are the values queued at
  -- first followed by those pushed, in that order; and of the calls of wait_and_pop, those
  -- blocked and those that have returned, each with a value, are together those there were at
  -- first and the new ones. If a call is then blocked and a value is queued, its next test of the
  -- queue hands out the oldest one and returns.
  pub calls-Conserves :
      (s : Shared T) (cs : List (Action T))
      → s.queue.held ≡ false
      → Returns
          (λ out. Conserves s (all_pushed cs) (all_waits cs) out × NextTest out.1 (act out.1 wakes))
          (acts s cs)
  calls-Conserves s cs h =
      let (out, returned, kept) = acts-Conserves s cs h in
      (
        out,
        returned,
        (kept, act-NextTest out.1 out.1.waiting out.1.queue.contents refl refl kept.free),
      )
