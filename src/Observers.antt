-- ===== src/Observers.antt =====
-- An Observable of a fundamental type with the ObservableStatePublisher that hooks into it
-- (UtilitiesInfra/Observable.hpp, UtilitiesInfra/ObservableStatePublisher.hpp). What the dispatcher is
-- given is kept in a list, the latest last.
pub mod Counting
pub mod Hearing
use ipcinfra.Prelude.{
  ℕ, ◌+◌, ◌-◌, ◌^◌, ◌%◌, Bool, true, false, not, List, [], ◌∷◌, ◌++◌, map, length, drop, keep,
  nat_beq, if◌then◌else◌,
}

-- A callback with the state that it is told.
pub record Task (S : Type 0) (C : Type 0) : Type 0 where
  pub delegate : ℕ × C
  pub told : S

pub record Published (S : Type 0) (C : Type 0) : Type 0 where
  pub state : S
  pub hooked : Bool
  pub delegates : List (ℕ × C)
  pub current_id : ℕ
  pub dispatched : List (Task S C)

module _ {S : Type 0} {C : Type 0} where
  -- The constructor of the publisher; `current_id` is shared by all publishers of a type.
  unfoldable pub created : S → ℕ → Published S C
  created state current_id = record {
    state = state;
    hooked = true;
    delegates = [];
    current_id = current_id;
    dispatched = [];
  }

  unfoldable pub add_observer : C → Published S C → ℕ × Published S C
  add_observer cb p =
      let client_id = (p.current_id + 1) % 2 ^ 64 in
      (
        client_id,
        record p { delegates = p.delegates ++ (client_id, cb) ∷ []; current_id = client_id },
      )

  -- `behind` is what std::remove_if leaves behind the elements that it keeps, as many as it has
  -- removed. The first of them is erased.
  unfoldable pub remove_observer : (ℕ → List (ℕ × C)) → ℕ → Published S C → Bool × Published S C
  remove_observer behind id p =
      let kept = keep (λ d. not (nat_beq d.0 id)) p.delegates in
      let removed = length p.delegates - length kept in
      if nat_beq 0 removed
      then (false, record p { delegates = kept })
      else (true, record p { delegates = kept ++ drop 1 (behind removed) })

  unfoldable pub notify : S → Published S C → Published S C
  notify state p = record p {
    dispatched = p.dispatched ++ map (λ d. record { delegate = d; told = state }) p.delegates;
  }

  -- The assignment of a new value.
  unfoldable pub assign : S → Published S C → Published S C
  unfolding notify
  assign value p = let p' = record p { state = value } in if p.hooked then notify value p' else p'
