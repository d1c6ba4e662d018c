-- ===== src/SharedQueue.antt =====
-- UtilitiesInfra/shared_queue.hpp. The std::queue is the list of its values, the oldest first. A wait
-- runs up to the point where it blocks or returns.
pub mod Fifo
use ipcinfra.Prelude.{Bool, true, false, Option, if◌then◌else◌, none, some, List, [], ◌∷◌, ◌++◌}
use ipcinfra.Prelude.Run.{Run, ok, fault, deadlock, undefined_behaviour, ◌>>=◌}
use ipcinfra.Guarded.{Guarded, critical}

abbrev pub SharedQueue {ℓ} : Type ℓ → Type ℓ
SharedQueue T = Guarded (List T)

-- Where a call of wait_and_pop stands: blocked in m_data_cond.wait, or returned with a value.
pub data Waited {ℓ} (T : Type ℓ) : Type ℓ where
  blocked : Waited T
  popped : T → Waited T

module _ {ℓ} {T : Type ℓ} where
  unfoldable pub new : SharedQueue T
  new = record { contents = []; held = false }

  unfoldable pub push : T → SharedQueue T → Run (Unit {0} × SharedQueue T)
  unfolding critical
  push new_value q = critical (λ items. (tt, items ++ new_value ∷ [])) q

  -- `front` and `pop`
  unfoldable pub pop_front : List T → Option T × List T
  pop_front [] = (none, [])
  pop_front (x ∷ items) = (some x, items)

  -- Both overloads: the value is `none` where the code answers `false` or a null pointer.
  unfoldable pub try_pop : SharedQueue T → Run (Option T × SharedQueue T)
  unfolding critical pop_front
  try_pop q = critical pop_front q

  unfoldable pub is_empty : List T → Bool
  is_empty [] = true
  is_empty (x ∷ items) = false

  -- `front` and `pop` where nothing tests that there is a value.
  unfoldable pub take_front : List T → Run (T × List T)
  take_front [] = fault undefined_behaviour
  take_front (x ∷ items) = ok (x, items)

  -- Both overloads. The wait gives the mutex back and blocks as long as the queue is empty; a blocked
  -- caller that is woken takes the same steps again.
  unfoldable pub wait_and_pop : SharedQueue T → Run (Waited T × SharedQueue T)
  unfolding is_empty take_front
  wait_and_pop q =
      if q.held
      then fault deadlock
      else if is_empty q.contents
      then ok (blocked, q)
      else take_front q.contents >>= λ (value, items).
          ok (popped value, record q { contents = items })

  unfoldable pub empty : SharedQueue T → Run (Bool × SharedQueue T)
  unfolding critical is_empty
  empty q = critical (λ items. (is_empty items, items)) q
