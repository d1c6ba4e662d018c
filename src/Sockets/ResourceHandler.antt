-- ===== src/Sockets/ResourceHandler.antt =====
-- UnixResourceHandler (TransportInfra/Policies/UnixResourceHandler.cpp), the owner of a descriptor.
use ipcinfra.Prelude.{Bool, true, false, not, ◌&&◌, List, ◌∷◌, if◌then◌else◌}
use ipcinfra.Prelude.Int.{ℤ}
use ipcinfra.Prelude.Classes.{◌==◌, int_eq}
use ipcinfra.Sockets.{SystemCall, close_call, default_value}

pub record ResourceHandler : Type 0 where
  pub handle : ℤ
  pub is_open : Bool

-- A handler with the calls made so far.
abbrev pub Owned : Type 0
Owned = ResourceHandler × List SystemCall

unfoldable pub default_handle : ResourceHandler → Bool
default_handle h = default_value == h.handle

-- The constructor from a handle.
unfoldable pub from_handle : ℤ → ResourceHandler
from_handle handle = record { handle = handle; is_open = not (default_value == handle) }

-- `answer` is whether ::close succeeds. The handle is kept either way.
unfoldable pub close : Bool → Owned → Bool × Owned
unfolding default_handle
close answer (h, calls) =
    if default_handle h
    then (true, (h, calls))
    else if answer
    then (true, (record h { is_open = false }, close_call h.handle ∷ calls))
    else (false, (h, close_call h.handle ∷ calls))

unfoldable pub acquire : Bool → ℤ → Owned → Owned
unfolding close default_handle
acquire answer handle (h, calls) =
    let calls' =
      if not (default_handle h) && not (handle == h.handle)
      then (close answer (h, calls)).1.1
      else calls in
    (record { handle = handle; is_open = true }, calls')

unfoldable pub release : ResourceHandler → ℤ × ResourceHandler
release h = (h.handle, record { handle = default_value; is_open = false })

-- `duplicate` is what ::dup answers.
unfoldable pub copy_constructor : ℤ → ResourceHandler → ResourceHandler
copy_constructor duplicate other =
    if not (default_value == other.handle)
    then record { handle = duplicate; is_open = true }
    else record { handle = default_value; is_open = other.is_open }

-- The new handler, and what is left of the other.
unfoldable pub move_constructor : ResourceHandler → ResourceHandler × ResourceHandler
move_constructor other = (other, record { handle = default_value; is_open = false })

unfoldable pub copy_assign : Bool → ℤ → Owned → Owned
unfolding close acquire
copy_assign answer duplicate this = acquire answer duplicate (close answer this).1

-- `*this = *this`
unfoldable pub self_copy_assign : Bool → Owned → Owned
unfolding close
self_copy_assign answer this = (close answer this).1

unfoldable pub move_assign : Bool → ResourceHandler → Owned → Owned × ResourceHandler
unfolding close acquire release
move_assign answer other this =
    let (handle, other') = release other in (acquire answer handle (close answer this).1, other')

unfoldable pub destroy : Bool → Owned → List SystemCall
unfolding close
destroy answer this = (close answer this).1.1
