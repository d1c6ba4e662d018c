-- ===== src/Sockets/Ownership.antt =====
-- How often a handler closes its descriptor (TransportInfra/Policies/UnixResourceHandler.cpp).
use ipcinfra.Prelude.{
  ◌≡◌, ◌≢◌, refl, Bool, true, false, Bool-cases, inl, inr, List, ◌∷◌, arith, if◌then◌else◌,
}
use ipcinfra.Prelude.Classes.{◌==◌, int_eq, ==_iff}
use ipcinfra.Sockets.{SystemCall, close_call, default_value}
use ipcinfra.Sockets.ResourceHandler.{
  ResourceHandler, default_handle, close, acquire, release, move_constructor, move_assign, destroy,
}

owned_handle :
    (h : ResourceHandler) → h.handle ≢ default_value → (default_value == h.handle) ≡ false
owned_handle h owned = ground (arith, ==_iff default_value h.handle)

close_owned :
    (answer : Bool) (h : ResourceHandler) (calls : List SystemCall)
    → (default_value == h.handle) ≡ false
    → close answer (h, calls) ≡ (
      answer,
      (record h { is_open = if answer then false else h.is_open }, close_call h.handle ∷ calls),
    )
unfolding close default_handle
close_owned true h calls some_handle = rw some_handle refl
close_owned false h calls some_handle = rw some_handle refl

-- A handler that owns a descriptor closes it again when it is destroyed or assigned to.
abbrev pub Repeats : Bool → Bool → ResourceHandler → ResourceHandler → List SystemCall → Type 0
Repeats first second h other calls =
    (destroy second (close first (h, calls)).1 ≡ close_call h.handle ∷ close_call h.handle ∷ calls)
    × ((move_assign first other (h, calls)).0.1 ≡ (
        if other.handle == h.handle
        then close_call h.handle ∷ calls
        else close_call h.handle ∷ close_call h.handle ∷ calls))

-- If a handler holds a handle other than the default one, then after close, whether it succeeded
-- or not, the destructor closes the handle again; and a move assignment closes the handle once if
-- the other handler holds the same one, and twice if not.
pub close-Repeats :
    (first second : Bool) (h other : ResourceHandler) (calls : List SystemCall)
    → h.handle ≢ default_value
    → Repeats first second h other calls
unfolding destroy move_assign acquire release default_handle
close-Repeats first second h other calls owned =
    let some_handle = owned_handle h owned in
    let after : ResourceHandler = record h { is_open = if first then false else h.is_open } in
    let once = close_owned first h calls some_handle in
    let twice =
      λ (again : Bool). close_owned again after (close_call h.handle ∷ calls) some_handle in
    (
      rw once (rw (twice second) refl),
      rw once (elim (Bool-cases (other.handle == h.handle)) [
        | inl same ↦ rw (some_handle, same) refl
        | inr new ↦ rw (some_handle, new) (ground arith)
      ]),
    )

-- A moved handler is closed by its new owner only.
pub move_constructor-ClosesOnce :
    (first second : Bool) (h : ResourceHandler) (calls : List SystemCall)
    → h.handle ≢ default_value
    → destroy second ((move_constructor h).1, destroy first ((move_constructor h).0, calls))
      ≡ close_call h.handle ∷ calls
unfolding destroy move_constructor
move_constructor-ClosesOnce first second h calls owned =
    rw (close_owned first h calls (owned_handle h owned)) refl
