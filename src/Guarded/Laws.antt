-- ===== src/Guarded/Laws.antt =====
-- What stays usable after a copy, and what does not.
use ipcinfra.Prelude.{◌≡◌, true, false, arith}
use ipcinfra.Prelude.Run.{ok, fault, deadlock}
use ipcinfra.Guarded.{Guarded, critical, copy_constructor, copy_assign, move_assign}

-- No critical section of the object is ever entered again.
abbrev pub IsStuck {ℓ} : {C : Type ℓ} → Guarded C → Type (ℓ ⊔ 1)
IsStuck {C = C} g = (A : Type 0) (body : C → A × C) → critical body g ≡ fault deadlock

module _ {ℓ} {C : Type ℓ} where
  held-IsStuck : (g : Guarded C) → g.held ≡ true → IsStuck g
  unfolding critical
  held-IsStuck g h A body = ground arith

  -- After a copy assignment from another object has returned, the assigned object has the other's
  -- contents, and no critical section of either object can be entered again.
  pub copy_assign-IsStuck :
      (this other : Guarded C) {r : Guarded C × Guarded C}
      → copy_assign this other ≡ ok r
      → (r.0.contents ≡ other.contents) × IsStuck r.0 × IsStuck r.1
  unfolding copy_assign
  copy_assign-IsStuck this other {r = r} h =
      (ground arith, held-IsStuck r.0 (ground arith), held-IsStuck r.1 (ground arith))

  -- After a move assignment from another object has returned, the assigned object has the
  -- contents that the other had, and no critical section of either object can be entered again.
  pub move_assign-IsStuck :
      (left : C → C) (this other : Guarded C) {r : Guarded C × Guarded C}
      → move_assign left this other ≡ ok r
      → (r.0.contents ≡ other.contents) × IsStuck r.0 × IsStuck r.1
  unfolding move_assign
  move_assign-IsStuck left this other {r = r} h =
      (ground arith, held-IsStuck r.0 (ground arith), held-IsStuck r.1 (ground arith))

  pub copy_constructor-free :
      (other : Guarded C) {r : Guarded C × Guarded C}
      → copy_constructor other ≡ ok r
      → (r.0.contents ≡ other.contents) × (r.0.held ≡ false) × (r.1 ≡ other)
  unfolding copy_constructor
  copy_constructor-free other h = ground arith
