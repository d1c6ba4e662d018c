-- ===== src/LinuxIo/Reading/Line.antt =====
-- What LinuxIOUtilities::readLine keeps and what it drops
-- (UtilitiesInfra/LinuxUtils/LinuxIOUtilities.cpp).
use Prim.Native.Nat.{min}
use ipcinfra.Prelude.{
  ℕ, zero, suc, ◌+◌, ◌<◌, ◌≡◌, refl, sym, ap, ◌∙◌, false, Bool-cases, inl, inr, Option, none, some,
  List, [], ◌∷◌, ◌++◌, length, take-drop, no_length, length-take-le, append-nil, append_assoc,
  arith, length-append, nat_beq, nat_beq_iff,
}
use ipcinfra.LinuxIo.{Offer, Received, chunk, left, end_line_char}
use ipcinfra.LinuxIo.Reading.{before_end_line, read_line_loop, read_line}

before_end_line-append :
    (xs ys : List ℕ)
    → length (before_end_line xs) ≡ length xs
    → before_end_line (xs ++ ys) ≡ before_end_line xs ++ before_end_line ys
before_end_line-append [] ys same = refl
before_end_line-append (x ∷ xs) ys same = elim (Bool-cases (nat_beq x end_line_char)) [
  | inl ended ↦ absurd (omega (arith, rw ended at same))
  | inr goes_on ↦ rw goes_on (
      ap (λ (l : List ℕ). x ∷ l) (before_end_line-append xs ys (omega (arith, rw goes_on at same))))
]

-- Offers that never end the loop: none fails and none is of no byte.
abbrev pub Unending : List Offer → Type 0
Unending [] = Unit
Unending (Offer.interrupted ∷ offers) = Unending offers
Unending (Offer.failed ∷ offers) = ⊥
Unending (Offer.up_to offer ∷ offers) = (0 < offer) × Unending offers

-- The line is the text before the first end of line of the bytes that were consumed.
pub record Line (total : ℕ) (result stream : List ℕ) (r : Received) : Type 0 where
  pub consumed : List ℕ
  pub kept : r.result ≡ result ++ before_end_line consumed
  pub remaining : consumed ++ r.stream ≡ stream
  pub counted : r.size ≡ total + length (before_end_line consumed)

pub data Lines (total : ℕ) (result stream : List ℕ) (offers : List Offer)
    : Option Received → Type 0 where
  waits : Unending offers → Lines total result stream offers none
  ends : {r : Received} → Line total result stream r → Lines total result stream offers (some r)

module _ (size total : ℕ) (result stream : List ℕ) (offers : List Offer) where
  skip_interrupted :
      {r : Option Received}
      → Lines total result stream offers r
      → Lines total result stream (Offer.interrupted ∷ offers) r
  skip_interrupted (waits on) = waits on
  skip_interrupted (ends l) = ends l

  module _ (offer : ℕ) where
    abbrev bytes : List ℕ
    bytes = chunk size offer stream

    abbrev copiable : List ℕ
    copiable = before_end_line bytes

    offer-pos : (k : ℕ) → nat_beq 0 (length (chunk size k stream)) ≡ false → 0 < k
    offer-pos zero h = ground (arith, h, length-take-le {0} (min size zero) stream)
    offer-pos (suc k) h = omega arith

    put_before :
        {r : Option Received}
        → Lines (total + length copiable) (result ++ copiable) (left size offer stream) offers r
        → nat_beq 0 (length bytes) ≡ false
        → length copiable ≡ length bytes
        → Lines total result stream (Offer.up_to offer ∷ offers) r
    put_before (waits on) some_bytes same = waits (offer-pos offer some_bytes, on)
    put_before (ends l) some_bytes same =
        let joined = before_end_line-append bytes l.consumed same in
        ends (record {
          consumed = bytes ++ l.consumed;
          kept =
              l.kept
              ∙ append_assoc result copiable (before_end_line l.consumed)
              ∙ ap (λ (t : List ℕ). result ++ t) (sym joined);
          remaining =
              append_assoc bytes l.consumed _
              ∙ ap (λ (t : List ℕ). bytes ++ t) l.remaining
              ∙ take-drop (min size offer) stream;
          counted = omega (
            arith,
            l.counted,
            ap (length {A = ℕ}) joined,
            length-append {0} copiable (before_end_line l.consumed),
          );
        })

read_line_loop-Lines :
    (size total : ℕ) (result stream : List ℕ) (offers : List Offer)
    → Lines total result stream offers (read_line_loop size total result stream offers)
unfolding read_line_loop
read_line_loop-Lines size total result stream [] = waits tt
read_line_loop-Lines size total result stream (Offer.interrupted ∷ offers) =
    skip_interrupted size total result stream offers
      (read_line_loop-Lines size total result stream offers)
read_line_loop-Lines size total result stream (Offer.failed ∷ offers) = ends (record {
  consumed = [];
  kept = sym (append-nil result);
  remaining = refl;
  counted = omega arith;
})
read_line_loop-Lines size total result stream (Offer.up_to offer ∷ offers) =
    let bytes = chunk size offer stream in
    let copiable = before_end_line bytes in
    let again =
      read_line_loop-Lines size (total + length copiable) (result ++ copiable)
        (left size offer stream) offers in
    elim (Bool-cases (nat_beq 0 (length bytes))) [
      | inl at_end ↦ rw at_end (
          let none_left = no_length bytes (sym ((nat_beq_iff 0 (length bytes)).0 at_end)) in
          ends (record {
            consumed = bytes;
            kept =
                sym (append-nil result)
                ∙ ap (λ (l : List ℕ). result ++ before_end_line l) (sym none_left);
            remaining = take-drop (min size offer) stream;
            counted = omega (arith, ap (λ (l : List ℕ). length (before_end_line l)) none_left);
          }))
      | inr some_bytes ↦ elim (Bool-cases (nat_beq (length copiable) (length bytes))) [
        | inl same ↦
            rw (some_bytes, same)
              (put_before size total result stream offers offer again some_bytes
                ((nat_beq_iff (length copiable) (length bytes)).0 same))
        | inr cut ↦
            rw (some_bytes, cut)
              (ends (record {
                consumed = bytes;
                kept = refl;
                remaining = take-drop (min size offer) stream;
                counted = refl;
              }))
      ]
    ]

-- Whatever the kernel answers to each call, readLine waits only while no answer is an error or
-- empty; where it returns, the bytes consumed are a first part of the stream, what is put at the
-- end of the result is their text before the first end of line and nothing else, and the size
-- answered is that text's.
pub read_line-Lines :
    (size : ℕ) (result stream : List ℕ) (offers : List Offer)
    → Lines 0 result stream offers (read_line size result stream offers)
unfolding read_line
read_line-Lines size result stream offers = read_line_loop-Lines size 0 result stream offers
