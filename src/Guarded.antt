-- ===== src/Guarded.antt =====
-- A container behind its mutex, as shared_lookup_table and shared_queue have it: critical sections,
-- and the constructors and assignments that copy or move another object
-- (UtilitiesInfra/shared_lookup_table.hpp, UtilitiesInfra/shared_queue.hpp). Each critical section
-- is one step; between two steps `held` is false, unless an assignment left the mutex locked.
pub mod Laws
use ipcinfra.Prelude.{Bool, true, false, ◌||◌, if◌then◌else◌}
use ipcinfra.Prelude.Run.{Run, ok, fault, deadlock}

pub record Guarded {ℓ} (C : Type ℓ) : Type ℓ where
  pub contents : C
  pub held : Bool

module _ {ℓ} {C : Type ℓ} where
  -- A lock_guard or unique_lock around `body`. A mutex that is never unlocked blocks it for ever.
  unfoldable pub critical {κ} : {A : Type κ} → (C → A × C) → Guarded C → Run (A × Guarded C)
  critical body g =
      let (a, c) = body g.contents in
      if g.held then fault deadlock else ok (a, record g { contents = c })

  -- The constructors: a fresh mutex, and the contents read under the other's. `left` is what a move
  -- leaves behind.
  unfoldable pub copy_constructor : Guarded C → Run (Guarded C × Guarded C)
  copy_constructor other =
      if other.held
      then fault deadlock
      else ok (record { contents = other.contents; held = false }, other)

  unfoldable pub move_constructor : (C → C) → Guarded C → Run (Guarded C × Guarded C)
  move_constructor left other =
      if other.held
      then fault deadlock
      else ok (
        record { contents = other.contents; held = false },
        record other { contents = left other.contents },
      )

  -- `*this = other`, for another object: `std::lock` takes both mutexes, and no guard adopts them.
  unfoldable pub copy_assign : Guarded C → Guarded C → Run (Guarded C × Guarded C)
  copy_assign this other =
      if this.held || other.held
      then fault deadlock
      else ok (record { contents = other.contents; held = true }, record other { held = true })

  unfoldable pub move_assign : (C → C) → Guarded C → Guarded C → Run (Guarded C × Guarded C)
  move_assign left this other =
      if this.held || other.held
      then fault deadlock
      else ok (
        record { contents = other.contents; held = true },
        record { contents = left other.contents; held = true },
      )

  -- `*this = *this`
  unfoldable pub self_assign : Guarded C → Run (Guarded C)
  self_assign this = ok this
