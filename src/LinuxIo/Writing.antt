-- ===== src/LinuxIo/Writing.antt =====
-- LinuxIOUtilities::write (UtilitiesInfra/LinuxUtils/LinuxIOUtilities.cpp).
use Prim.Native.Nat.{min}
use mathlib.Core.Bool.{true≢false}
use ipcinfra.Prelude.{
  ℕ, suc, zero, ◌+◌, ◌≡◌, refl, ap, ◌∙◌, Bool, true, false, Option, none, some, List, [], ◌∷◌, ◌++◌,
  length, take, drop, take-drop, ◌<◌, length-take, length-drop, append_assoc, arith, length-append,
}
use ipcinfra.LinuxIo.{Offer}

-- What the call came to: the answer, and what the descriptor took.
pub record Written : Type 0 where
  pub size : ℕ
  pub taken : List ℕ

-- The loop, over the bytes that are left.
unfoldable pub write_loop : List ℕ → Written → List Offer → Option Written
write_loop [] w offers = some w
write_loop (byte ∷ rest) w [] = none
write_loop (byte ∷ rest) w (Offer.interrupted ∷ offers) = write_loop (byte ∷ rest) w offers
write_loop (byte ∷ rest) w (Offer.failed ∷ offers) = some w
write_loop (byte ∷ rest) w (Offer.up_to offer ∷ offers) =
    let count = min (length (byte ∷ rest)) offer in
    write_loop (drop count (byte ∷ rest))
      (record { size = w.size + count; taken = w.taken ++ take count (byte ∷ rest) }) offers

unfoldable pub write : List ℕ → List Offer → Option Written
unfolding write_loop
write data_view offers = write_loop data_view (record { size = 0; taken = [] }) offers

-- Whether the kernel fails once.
abbrev pub has_failure : List Offer → Bool
has_failure [] = false
has_failure (Offer.failed ∷ offers) = true
has_failure (Offer.interrupted ∷ offers) = has_failure offers
has_failure (Offer.up_to offer ∷ offers) = has_failure offers

-- The offers that take at least one byte.
abbrev pub ready : List Offer → ℕ
ready [] = 0
ready (Offer.failed ∷ offers) = ready offers
ready (Offer.interrupted ∷ offers) = ready offers
ready (Offer.up_to zero ∷ offers) = ready offers
ready (Offer.up_to (suc offer) ∷ offers) = suc (ready offers)

-- What a return promises of `rest`, the bytes that were left: the first of them were taken, as many
-- as were counted, and all of them unless the kernel failed.
pub record Writes (w : Written) (rest : List ℕ) (offers : List Offer) (r : Written) : Type 0 where
  pub unsent : List ℕ
  pub whole : r.taken ++ unsent ≡ w.taken ++ rest
  pub counted : r.size + length w.taken ≡ w.size + length r.taken
  pub complete : has_failure offers ≡ false → unsent ≡ []

pub data Sends (w : Written) (rest : List ℕ) (offers : List Offer) : Option Written → Type 0 where
  waits : ready offers < length rest → Sends w rest offers none
  ends : {r : Written} → Writes w rest offers r → Sends w rest offers (some r)

-- One write of `count` bytes, put before the rest of the loop.
module _ (w : Written) (rest : List ℕ) (offer : ℕ) (offers : List Offer) where
  abbrev count : ℕ
  count = min (length rest) offer

  abbrev after : Written
  after = record { size = w.size + count; taken = w.taken ++ take count rest }

  put_before :
      {r : Option Written}
      → Sends after (drop count rest) offers r
      → 0 < length rest
      → Sends w rest (Offer.up_to offer ∷ offers) r
  put_before (waits few) some_left = waits (fewer offer few)
    where
      fewer :
          (k : ℕ)
          → ready offers < length (drop (min (length rest) k) rest)
          → ready (Offer.up_to k ∷ offers) < length rest
      fewer zero few = omega (arith, few, length-drop (min (length rest) zero) rest)
      fewer (suc k) few = omega (arith, few, length-drop (min (length rest) (suc k)) rest)
  put_before (ends s) some_left = ends (record {
    unsent = s.unsent;
    whole =
        s.whole
        ∙ append_assoc w.taken (take count rest) (drop count rest)
        ∙ ap (λ (l : List ℕ). w.taken ++ l) (take-drop count rest);
    counted =
        omega (
          arith,
          s.counted,
          length-append {0} w.taken (take count rest),
          length-take {0} count rest,
        );
    complete = s.complete;
  })

skip_interrupted :
    {w : Written} {rest : List ℕ} {offers : List Offer} {r : Option Written}
    → Sends w rest offers r
    → Sends w rest (Offer.interrupted ∷ offers) r
skip_interrupted (waits few) = waits few
skip_interrupted (ends s) =
    ends (record { unsent = s.unsent; whole = s.whole; counted = s.counted; complete = s.complete })

write_loop-Sends :
    (rest : List ℕ) (w : Written) (offers : List Offer)
    → Sends w rest offers (write_loop rest w offers)
unfolding write_loop
write_loop-Sends [] w offers =
    ends (record { unsent = []; whole = refl; counted = omega arith; complete = λ h. refl })
write_loop-Sends (byte ∷ rest) w [] = waits (omega arith)
write_loop-Sends (byte ∷ rest) w (Offer.interrupted ∷ offers) =
    skip_interrupted (write_loop-Sends (byte ∷ rest) w offers)
write_loop-Sends (byte ∷ rest) w (Offer.failed ∷ offers) = ends (record {
  unsent = byte ∷ rest;
  whole = refl;
  counted = omega arith;
  complete = λ h. absurd (true≢false h);
})
write_loop-Sends (byte ∷ rest) w (Offer.up_to offer ∷ offers) =
    put_before w (byte ∷ rest) offer offers
      (write_loop-Sends (drop (count w (byte ∷ rest) offer offers) (byte ∷ rest)) _ offers)
      (omega arith)

-- Whatever the kernel answers to each call, write waits only while fewer of the answers take a
-- byte than there are bytes to write; where it returns, the descriptor has taken a first part of
-- the bytes in their order, the size answered is that part's, and it is all of them if no answer
-- was an error.
pub write-Sends :
    (data_view : List ℕ) (offers : List Offer)
    → Sends (record { size = 0; taken = [] }) data_view offers (write data_view offers)
unfolding write
write-Sends data_view offers = write_loop-Sends data_view _ offers
