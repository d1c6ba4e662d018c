-- ===== src/LinuxIo/Reading/Whole.antt =====
-- What LinuxIOUtilities::read gathers from a descriptor that cannot seek, and from a file
-- (UtilitiesInfra/LinuxUtils/LinuxIOUtilities.cpp).

use Prim.Native.Nat.{min}
use ipcinfra.Prelude.{
  ℕ, zero, suc, ◌+◌, ◌-◌, ◌≤◌, ◌<◌, ◌≡◌, ◌⊎◌, inl, inr, refl, sym, ap, ◌∙◌, true, false, Bool-cases,
  Option, none, some, List, [], ◌∷◌, ◌++◌, length, take, drop, take-drop, take-all, drop-all,
  take-append, drop-append, append-nil, append_assoc, arith, length-append, length-take, nat_beq,
  nat_beq_iff,
}
use ipcinfra.Prelude.Int.{pos, negsuc}
use ipcinfra.Prelude.Run.{ok, Returns}
use ipcinfra.LinuxIo.{Offer, Received, chunk, left, failed_size}
use ipcinfra.LinuxIo.Reading.{zeros, read_loop, read_in_buffer_loop, read_in_buffer, read}

-- Offers that never end the loop: none fails, and each fills the buffer.
abbrev pub Filling : ℕ → List Offer → Type 0
Filling size [] = Unit
Filling size (Offer.interrupted ∷ offers) = Filling size offers
Filling size (Offer.failed ∷ offers) = ⊥
Filling size (Offer.up_to offer ∷ offers) = (size ≤ offer) × Filling size offers

-- Nothing is lost, added or put out of order.
pub record Gathered (total : ℕ) (result stream : List ℕ) (r : Received) : Type 0 where
  pub consumed : List ℕ
  pub gathered : r.result ≡ result ++ consumed
  pub remaining : consumed ++ r.stream ≡ stream
  pub counted : (r.size ≡ total + length consumed) ⊎ (r.size ≡ failed_size)

pub data Gathers (size total : ℕ) (result stream : List ℕ) (offers : List Offer)
    : Option Received → Type 0 where
  waits : Filling size offers → Gathers size total result stream offers none
  ends :
      {r : Received}
      → Gathered total result stream r
      → Gathers size total result stream offers (some r)

module _ (size total : ℕ) (result stream : List ℕ) (offers : List Offer) where
  skip_interrupted :
      {r : Option Received}
      → Gathers size total result stream offers r
      → Gathers size total result stream (Offer.interrupted ∷ offers) r
  skip_interrupted (waits filling) = waits filling
  skip_interrupted (ends g) = ends g

  module _ (offer : ℕ) where
    abbrev bytes : List ℕ
    bytes = chunk size offer stream

    put_before :
        {r : Option Received}
        → Gathers size (total + length bytes) (result ++ bytes) (left size offer stream) offers r
        → size ≡ length bytes
        → Gathers size total result stream (Offer.up_to offer ∷ offers) r
    put_before (waits filling) full =
        waits (omega (arith, full, length-take {0} (min size offer) stream), filling)
    put_before (ends g) full = ends (record {
      consumed = bytes ++ g.consumed;
      gathered = g.gathered ∙ append_assoc result bytes g.consumed;
      remaining =
          append_assoc bytes g.consumed _
          ∙ ap (λ (l : List ℕ). bytes ++ l) g.remaining
          ∙ take-drop (min size offer) stream;
      counted = elim g.counted [
        | inl n ↦ inl (omega (arith, n, length-append {0} bytes g.consumed))
        | inr lost ↦ inr lost
      ];
    })

read_loop-Gathers :
    (size total : ℕ) (result stream : List ℕ) (offers : List Offer)
    → Gathers size total result stream offers (read_loop size total result stream offers)
unfolding read_loop
read_loop-Gathers size total result stream [] = waits tt
read_loop-Gathers size total result stream (Offer.interrupted ∷ offers) =
    skip_interrupted size total result stream offers
      (read_loop-Gathers size total result stream offers)
read_loop-Gathers size total result stream (Offer.failed ∷ offers) = ends (record {
  consumed = [];
  gathered = sym (append-nil result);
  remaining = refl;
  counted = inr refl;
})
read_loop-Gathers size total result stream (Offer.up_to offer ∷ offers) =
    let bytes = chunk size offer stream in
    elim (Bool-cases (nat_beq size (length bytes))) [
      | inl full ↦ rw full (
          put_before size total result stream offers offer
            (read_loop-Gathers size (total + length bytes) (result ++ bytes)
              (left size offer stream) offers)
            ((nat_beq_iff size (length bytes)).0 full))
      | inr short ↦ rw short (
          ends (record {
            consumed = bytes;
            gathered = refl;
            remaining = take-drop (min size offer) stream;
            counted = inl refl;
          }))
    ]

-- On a descriptor that cannot seek, whatever the kernel answers to each call, read has no
-- undefined behaviour and waits only while no answer is an error and each fills the buffer; where
-- it returns, the result has gained exactly the bytes consumed from the stream, in their order,
-- and the size answered is theirs or that of a failure.
pub read-Gathers :
    (size : ℕ) (result stream : List ℕ) (offers : List Offer)
    → Returns (Gathers size 0 result stream offers) (read size (negsuc 0) result stream offers)
unfolding read
read-Gathers size result stream offers = (_, refl, read_loop-Gathers size 0 result stream offers)

length-zeros : (n : ℕ) → length (zeros n) ≡ n
length-zeros zero = refl
length-zeros (suc n) = ap suc (length-zeros n)

drop-zeros : (n : ℕ) → drop n (zeros (suc n)) ≡ 0 ∷ []
drop-zeros zero = refl
drop-zeros (suc n) = drop-zeros n

zeros-last : (n : ℕ) → zeros n ++ 0 ∷ [] ≡ zeros (suc n)
zeros-last zero = refl
zeros-last (suc n) = ap (λ (l : List ℕ). 0 ∷ l) (zeros-last n)

read_resized :
    (size n : ℕ) (stream : List ℕ) (offers : List Offer)
    → read size (pos (n + 1)) [] stream offers ≡ ok (read_in_buffer n (zeros (suc n)) stream offers)
unfolding read
read_resized size n stream offers =
    let grown : n + 1 - 0 ≡ suc n = omega arith in
    let shorter : suc (length (zeros n)) - 1 ≡ n = omega (arith, length-zeros n) in
    let some_bytes : nat_beq 0 (suc (length (zeros n))) ≡ false = ground arith in
    rw (grown, some_bytes, shorter) refl

read_in_buffer-zeros :
    (n : ℕ) (stream : List ℕ) (offers : List Offer)
    → 0 < n
    → read_in_buffer n (zeros (suc n)) stream offers
      ≡ read_in_buffer_loop n 0 (zeros (suc n)) stream offers
unfolding read_in_buffer
read_in_buffer-zeros n stream offers positive =
    let some_bytes : nat_beq 0 n ≡ false = ground arith in
    rw some_bytes (
      ap (λ (l : List ℕ). read_in_buffer_loop n 0 l stream offers)
        (ap (λ (l : List ℕ). zeros n ++ l) (drop-zeros n) ∙ zeros-last n))

module _ (len k total : ℕ) (buffer stream bytes rest : List ℕ) (offers : List Offer) where
  round_full :
      chunk len k stream ≡ bytes
      → left len k stream ≡ rest
      → nat_beq len (length bytes) ≡ true
      → read_in_buffer_loop len total buffer stream (Offer.up_to k ∷ offers)
        ≡ read_in_buffer_loop len
            (total + length bytes)
            (bytes ++ drop (length bytes) buffer)
            rest
            offers
  unfolding read_in_buffer_loop
  round_full e e' full = rw (e, e', full) refl

  round_short :
      chunk len k stream ≡ bytes
      → left len k stream ≡ rest
      → nat_beq len (length bytes) ≡ false
      → read_in_buffer_loop len total buffer stream (Offer.up_to k ∷ offers)
        ≡ some (record {
          size = total + length bytes;
          result = bytes ++ drop (length bytes) buffer;
          stream = rest;
          offers = offers;
        })
  unfolding read_in_buffer_loop
  round_short e e' short = rw (e, e', short) refl

-- A file of the bytes `s` and then `last`, from its start.
module _ (s : List ℕ) (last a b : ℕ) (offers : List Offer) where
  abbrev pub corrupted : Received
  corrupted = record {
    size = length s + 1;
    result = last ∷ drop 1 (s ++ 0 ∷ []);
    stream = [];
    offers = offers;
  }

  read_in_buffer_loop-corrupted :
      2 ≤ length s
      → length s ≤ a
      → 0 < b
      → read_in_buffer_loop
          (length s)
          0
          (zeros (suc (length s)))
          (s ++ last ∷ [])
          (Offer.up_to a ∷ Offer.up_to b ∷ offers)
        ≡ some corrupted
  read_in_buffer_loop-corrupted long enough enough' =
      let all_of : min (length s) a ≡ length s = omega arith in
      round_full (length s) a 0 (zeros (suc (length s))) (s ++ last ∷ []) s (last ∷ [])
        (Offer.up_to b ∷ offers)
        (ap (λ (n : ℕ). take n (s ++ last ∷ [])) all_of ∙ take-append s (last ∷ []))
        (ap (λ (n : ℕ). drop n (s ++ last ∷ [])) all_of ∙ drop-append s (last ∷ []))
        ((nat_beq_iff (length s) (length s)).1 refl)
      ∙ ap
          (λ (n : ℕ).
            read_in_buffer_loop (length s) n (s ++ drop (length s) (zeros (suc (length s))))
              (last ∷ []) (Offer.up_to b ∷ offers))
          (omega arith)
      ∙ ap
          (λ (l : List ℕ).
            read_in_buffer_loop (length s) (length s) (s ++ l) (last ∷ []) (Offer.up_to b ∷ offers))
          (drop-zeros (length s))
      ∙ round_short (length s) b (length s) (s ++ 0 ∷ []) (last ∷ []) (last ∷ []) [] offers
          (take-all (min (length s) b) (last ∷ []) (omega arith))
          (drop-all (min (length s) b) (last ∷ []) (omega arith)) (ground arith)

  -- On a file of at least three bytes whose size availableSize answers, where the kernel gives
  -- all but the last byte and then the last one, read into an empty string answers the file's
  -- size, but the string has the last byte in the place of the first and a null byte in the place
  -- of the last.
  pub read-Corrupts :
      (size : ℕ)
      → 2 ≤ length s
      → length s ≤ a
      → 0 < b
      → read size (pos (length s + 1)) [] (s ++ last ∷ []) (Offer.up_to a ∷ Offer.up_to b ∷ offers)
        ≡ ok (some corrupted)
  read-Corrupts size long enough enough' =
      read_resized size (length s) (s ++ last ∷ []) _
      ∙ ap (λ (r : Option Received). ok r)
          (read_in_buffer-zeros (length s) (s ++ last ∷ []) _ (omega (arith, long))
            ∙ read_in_buffer_loop-corrupted long enough enough')
