-- ===== src/Observers/Hearing.antt =====
-- What each observer is told of (UtilitiesInfra/ObservableStatePublisher.hpp).
use ipcinfra.Prelude.{
  ℕ, suc, ◌+◌, ◌-◌, ◌^◌, ◌%◌, ◌≤◌, ◌<◌, ◌≡◌, refl, sym, ap, ◌∙◌, Bool, true, false, not, ◌&&◌, ◌||◌,
  Bool-cases, inl, inr, List, [], ◌∷◌, ◌++◌, map, length, keep, append-nil, append_assoc, arith,
  nat_beq, if◌then◌else◌,
}
use ipcinfra.Observers.{Published, created, add_observer, remove_observer, notify, assign}
use ipcinfra.Observers.Counting.{
  count, told_to, count-append, count-keep, kept_only, told_to-append, told_to-notified, repeated,
  repeated-once,
}

pub data Operation (S : Type 0) (C : Type 0) : Type 0 where
  adding : C → Operation S C
  removing : ℕ → Operation S C
  assigning : S → Operation S C

-- What the observer with the id is to hear: each value that is assigned between its subscription
-- and its removal. `n` is the last id given, `on` whether it is subscribed.
abbrev pub heard : {S : Type 0} {C : Type 0} → ℕ → ℕ → Bool → List (Operation S C) → List S
heard id n on [] = []
heard id n on (adding cb ∷ ops) = heard id (n + 1) (on || nat_beq (n + 1) id) ops
heard id n on (removing j ∷ ops) = heard id n (on && not (nat_beq id j)) ops
heard id n on (assigning value ∷ ops) = if on then value ∷ heard id n on ops else heard id n on ops

abbrev pub additions : {S : Type 0} {C : Type 0} → List (Operation S C) → ℕ
additions [] = 0
additions (adding cb ∷ ops) = suc (additions ops)
additions (_ ∷ ops) = additions ops

module _ {S : Type 0} {C : Type 0} where
  module _ (behind : ℕ → List (ℕ × C)) where
    unfoldable pub perform : Operation S C → Published S C → Published S C
    unfolding add_observer remove_observer assign
    perform (Operation.adding cb) p = (add_observer cb p).1
    perform (Operation.removing id) p = (remove_observer behind id p).1
    perform (Operation.assigning value) p = assign value p

    abbrev pub run : List (Operation S C) → Published S C → Published S C
    run [] p = p
    run (o ∷ ops) p = run ops (perform o p)

    -- Ids are given once, up to the current one.
    record IsSound (p : Published S C) : Type 0 where
      hooked : p.hooked ≡ true
      once : (id : ℕ) → count id p.delegates ≤ 1
      given : (id : ℕ) → p.current_id < id → count id p.delegates ≡ 0

    module _ (as_many : (k : ℕ) → length (behind k) ≡ k) where
      -- The removal keeps the others' delegates, in their order.
      remove_observer-keeps :
          (j : ℕ) (p : Published S C)
          → IsSound p
          → (remove_observer behind j p).1
            ≡ record p { delegates = keep (λ d. not (nat_beq d.0 j)) p.delegates }
      unfolding remove_observer
      remove_observer-keeps j p s =
          elim (Bool-cases (
            nat_beq 0
              (length p.delegates - length (keep (λ d. not (nat_beq d.0 j)) p.delegates)))) [
                | inl absent ↦ rw absent refl
                | inr found ↦ rw found (
                    ap (λ (ds : List (ℕ × C)). record p { delegates = ds })
                      (kept_only behind as_many j p.delegates (s.once j) found))
              ]

      perform-IsSound :
          (o : Operation S C) (p : Published S C)
          → IsSound p
          → p.current_id + 1 < 2 ^ 64
          → IsSound (perform o p)
      unfolding perform add_observer assign notify
      perform-IsSound (Operation.adding cb) p s small =
          let next : (p.current_id + 1) % 2 ^ 64 ≡ p.current_id + 1 = omega arith in
          rw next (record {
            hooked = s.hooked;
            once = λ id. ground (
              arith,
              count-append id p.delegates ((p.current_id + 1, cb) ∷ []),
              s.once id,
              s.given id,
            );
            given = λ id late.
                ground
                  (arith, count-append id p.delegates ((p.current_id + 1, cb) ∷ []), s.given id);
          })
      perform-IsSound (Operation.removing j) p s small = rw (remove_observer-keeps j p s) (record {
        hooked = s.hooked;
        once = λ id. ground (arith, count-keep id j p.delegates, s.once id);
        given = λ id late. ground (arith, count-keep id j p.delegates, s.given id);
      })
      perform-IsSound (Operation.assigning value) p s small =
          rw s.hooked (record { hooked = refl; once = s.once; given = s.given })

      abbrev added : C → Published S C → Published S C
      added cb p = record p {
        delegates = p.delegates ++ (p.current_id + 1, cb) ∷ [];
        current_id = p.current_id + 1;
      }

      perform-added :
          (cb : C) (p : Published S C)
          → p.current_id + 1 < 2 ^ 64
          → perform (Operation.adding cb) p ≡ added cb p
      unfolding perform add_observer
      perform-added cb p small =
          let next : (p.current_id + 1) % 2 ^ 64 ≡ p.current_id + 1 = omega arith in rw next refl

      abbrev removed : ℕ → Published S C → Published S C
      removed j p = record p { delegates = keep (λ d. not (nat_beq d.0 j)) p.delegates }

      perform-removed :
          (j : ℕ) (p : Published S C) → IsSound p → perform (Operation.removing j) p ≡ removed j p
      unfolding perform
      perform-removed j p s = remove_observer-keeps j p s

      abbrev assigned : S → Published S C → Published S C
      assigned value p = record p {
        state = value;
        dispatched = p.dispatched ++ map (λ d. record { delegate = d; told = value }) p.delegates;
      }

      perform-assigned :
          (value : S) (p : Published S C)
          → p.hooked ≡ true
          → perform (Operation.assigning value) p ≡ assigned value p
      unfolding perform assign notify
      perform-assigned value p h = rw h refl

      module _ (id : ℕ) where
        assigned-told :
            (value : S) (p : Published S C) (on : Bool) (later : List S)
            → count id p.delegates ≡ (if on then 1 else 0)
            → told_to id (assigned value p).dispatched ++ later
              ≡ told_to id p.dispatched ++ (if on then value ∷ later else later)
        assigned-told value p on later c =
            ap (λ (l : List S). l ++ later)
              (told_to-append id p.dispatched _
                ∙ ap (λ (l : List S). told_to id p.dispatched ++ l)
                    (told_to-notified id value p.delegates ∙ ap (λ (n : ℕ). repeated n value) c))
            ∙ append_assoc (told_to id p.dispatched) (repeated (if on then 1 else 0) value) later
            ∙ ap (λ (l : List S). told_to id p.dispatched ++ l) (repeated-once value on later)

        run-heard :
            (ops : List (Operation S C)) (p : Published S C) (on : Bool)
            → IsSound p
            → p.current_id + additions ops < 2 ^ 64
            → count id p.delegates ≡ (if on then 1 else 0)
            → told_to id (run ops p).dispatched
              ≡ told_to id p.dispatched ++ heard id p.current_id on ops
        unfolding perform
        run-heard [] p on s small c = sym (append-nil (told_to id p.dispatched))
        run-heard (Operation.adding cb ∷ ops) p on s small c =
            let e : perform (Operation.adding cb) p ≡ added cb p =
              perform-added cb p (omega (arith, small)) in
            let s' : IsSound (added cb p) =
              rw e at (perform-IsSound (Operation.adding cb) p s (omega (arith, small))) in
            let counted : count id (added cb p).delegates
                ≡ (if on || nat_beq (p.current_id + 1) id then 1 else 0) =
              ground
                (arith, count-append id p.delegates ((p.current_id + 1, cb) ∷ []), s.given id, c) in
            ap (λ (q : Published S C). told_to id (run ops q).dispatched) e
            ∙ run-heard ops (added cb p) (on || nat_beq (p.current_id + 1) id) s'
                (omega (arith, small)) counted
        run-heard (Operation.removing j ∷ ops) p on s small c =
            let e : perform (Operation.removing j) p ≡ removed j p = perform-removed j p s in
            let s' : IsSound (removed j p) = record {
              hooked = s.hooked;
              once = λ i. ground (arith, count-keep i j p.delegates, s.once i);
              given = λ i late. ground (arith, count-keep i j p.delegates, s.given i);
            } in
            let counted : count id (removed j p).delegates
                ≡ (if on && not (nat_beq id j) then 1 else 0) =
              ground (arith, count-keep id j p.delegates, c) in
            ap (λ (q : Published S C). told_to id (run ops q).dispatched) e
            ∙ run-heard ops (removed j p) (on && not (nat_beq id j)) s' (omega (arith, small))
                counted
        run-heard (Operation.assigning value ∷ ops) p on s small c =
            ap (λ (q : Published S C). told_to id (run ops q).dispatched)
              (perform-assigned value p s.hooked)
            ∙ run-heard ops (assigned value p) on
                (record { hooked = s.hooked; once = s.once; given = s.given }) small c
            ∙ assigned-told value p on (heard id p.current_id on ops) c

        -- For a new publisher and any sequence of additions and removals of observers and
        -- assignments to its observable, as long as the ids stay below 2^64, and whatever
        -- std::remove_if leaves behind what it keeps, in the right number: the tasks dispatched
        -- for an id have, in their order, exactly the values assigned between the addition that
        -- gave the id and its removal.
        pub run-Hears :
            (state : S) (current_id : ℕ) (ops : List (Operation S C))
            → current_id + additions ops < 2 ^ 64
            → told_to id (run ops (created state current_id)).dispatched
              ≡ heard id current_id false ops
        unfolding created
        run-Hears state current_id ops small =
            run-heard ops (created state current_id) false
              (record { hooked = refl; once = λ i. omega arith; given = λ i late. refl }) small refl
