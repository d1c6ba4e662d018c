-- ===== src/LinuxIo/Receiving.antt =====
-- LinuxIOUtilities::recv and recvInBuffer (UtilitiesInfra/LinuxUtils/LinuxIOUtilities.hpp), and the
-- recv of StreamIOPolicy that calls the first (TransportInfra/Policies/StreamIOPolicy.hpp).
use Prim.Native.Nat.{min}
use ipcinfra.Prelude.{
  ℕ, ◌+◌, ◌-◌, ◌≤◌, ◌<◌, ◌≡◌, refl, sym, ap, ◌∙◌, Bool, true, false, not, Bool-cases, inl, inr,
  Option, none, some, List, [], ◌∷◌, ◌++◌, length, take, drop, take-drop, length-take, no_length,
  take-append, drop-append, append-nil, arith, nat_beq, nat_beq_iff, ltb, leb, if◌then◌else◌,
}
use ipcinfra.Prelude.Int.{ℤ, pos, negsuc, int_ltb}
use ipcinfra.Prelude.Run.{Run, ok, fault, undefined_behaviour}
use ipcinfra.LinuxIo.{Offer, chunk, left}

-- A signed answer, with the bytes gathered and those that remain.
pub record Got : Type 0 where
  pub size : ℤ
  pub result : List ℕ
  pub stream : List ℕ

abbrev pub add_count : ℤ → ℕ → ℤ
add_count (pos n) count = pos (n + count)
add_count (negsuc n) count = if leb count n then negsuc (n - count) else pos (count - n - 1)

-- `max_length - static_cast<size_t>(total)`, which wraps for a total below 0
abbrev pub room : ℕ → ℤ → ℕ
room max_length (pos total) = max_length - total
room max_length (negsuc total) = max_length + total + 1

-- The loop of `recv`: the kernel writes up to `max_length` bytes into a buffer of `size`.
unfoldable pub recv_loop : ℕ → ℕ → ℤ → List ℕ → List ℕ → List Offer → Run (Option Got)
recv_loop size max_length total result stream [] = ok none
recv_loop size max_length total result stream (Offer.interrupted ∷ offers) =
    recv_loop size max_length total result stream offers
recv_loop size max_length total result stream (Offer.failed ∷ offers) =
    ok (some (record { size = total; result = result; stream = stream }))
recv_loop size max_length total result stream (Offer.up_to offer ∷ offers) =
    let bytes = chunk max_length offer stream in
    let stream' = left max_length offer stream in
    let total' = add_count total (length bytes) in
    let again = recv_loop size max_length total' (result ++ bytes) stream' offers in
    if ltb size (length bytes)
    then fault undefined_behaviour
    else if nat_beq 0 (length bytes)
    then ok (some (record { size = total; result = result; stream = stream' }))
    else if int_ltb (pos max_length) total'
    then ok (
        some (record {
          size = pos max_length;
          result = result ++ take (room max_length total) bytes;
          stream = stream';
        }))
    else if not (nat_beq size (length bytes))
    then ok (some (record { size = total'; result = result ++ bytes; stream = stream' }))
    else again

-- `recv`; `wait_all` is the flag MSG_WAITALL, whose call is made once whatever it answers.
unfoldable pub recv : ℕ → ℕ → Bool → List ℕ → List Offer → Run (Option Got)
unfolding recv_loop
recv size max_length false stream offers = recv_loop size max_length (pos 0) [] stream offers
recv size max_length true stream [] = ok none
recv size max_length true stream (Offer.interrupted ∷ offers) =
    recv_loop size max_length (negsuc 0) [] stream offers
recv size max_length true stream (Offer.failed ∷ offers) =
    recv_loop size max_length (negsuc 0) [] stream offers
recv size max_length true stream (Offer.up_to offer ∷ offers) =
    let bytes = chunk max_length offer stream in
    let rest =
      recv_loop size max_length (pos (length bytes)) bytes (left max_length offer stream) offers in
    if ltb size (length bytes) then fault undefined_behaviour else rest

-- `recvInBuffer`: a call gives at most `max_size` bytes, so that the loop makes one that answers.
unfoldable pub recv_in_buffer_loop : ℕ → List ℕ → List Offer → Option Got
recv_in_buffer_loop max_size stream [] = none
recv_in_buffer_loop max_size stream (Offer.interrupted ∷ offers) =
    recv_in_buffer_loop max_size stream offers
recv_in_buffer_loop max_size stream (Offer.failed ∷ offers) =
    some (record { size = pos 0; result = []; stream = stream })
recv_in_buffer_loop max_size stream (Offer.up_to offer ∷ offers) =
    let bytes = chunk max_size offer stream in
    some (record { size = pos (length bytes); result = bytes; stream = left max_size offer stream })

unfoldable pub recv_in_buffer : ℕ → Bool → List ℕ → List Offer → Option Got
unfolding recv_in_buffer_loop
recv_in_buffer max_size false stream offers = recv_in_buffer_loop max_size stream offers
recv_in_buffer max_size true stream [] = none
recv_in_buffer max_size true stream (Offer.up_to offer ∷ offers) =
    let bytes = chunk max_size offer stream in
    some (record { size = pos (length bytes); result = bytes; stream = left max_size offer stream })
recv_in_buffer max_size true stream (_ ∷ offers) =
    some (record { size = negsuc 0; result = []; stream = stream })

-- What a return promises: nothing that was taken from the stream is lost.
pub record Complete (max_length : ℕ) (stream : List ℕ) (g : Got) : Type 0 where
  pub whole : g.result ++ g.stream ≡ stream
  pub counted : g.size ≡ pos (length g.result)
  pub bounded : length g.result ≤ max_length

abbrev pub AllInterrupted : List Offer → Type 0
AllInterrupted [] = Unit
AllInterrupted (Offer.interrupted ∷ offers) = AllInterrupted offers
AllInterrupted (_ ∷ offers) = ⊥

pub data Receives (max_length : ℕ) (stream : List ℕ) (offers : List Offer)
    : Run (Option Got) → Type 0 where
  waits : AllInterrupted offers → Receives max_length stream offers (ok none)
  ends : {g : Got} → Complete max_length stream g → Receives max_length stream offers (ok (some g))

skip_interrupted :
    {max_length : ℕ} {stream : List ℕ} {offers : List Offer} {r : Run (Option Got)}
    → Receives max_length stream offers r
    → Receives max_length stream (Offer.interrupted ∷ offers) r
skip_interrupted (waits all) = waits all
skip_interrupted (ends c) = ends c

nothing_got :
    (max_length : ℕ) (stream : List ℕ)
    → Complete max_length stream (record { size = pos 0; result = []; stream = stream })
nothing_got max_length stream = record { whole = refl; counted = refl; bounded = omega arith }

recv_loop-Receives :
    (size max_length : ℕ) (stream : List ℕ) (offers : List Offer)
    → max_length < size
    → Receives max_length stream offers (recv_loop size max_length (pos 0) [] stream offers)
unfolding recv_loop
recv_loop-Receives size max_length stream [] small = waits tt
recv_loop-Receives size max_length stream (Offer.interrupted ∷ offers) small =
    skip_interrupted (recv_loop-Receives size max_length stream offers small)
recv_loop-Receives size max_length stream (Offer.failed ∷ offers) small =
    ends (nothing_got max_length stream)
recv_loop-Receives size max_length stream (Offer.up_to offer ∷ offers) small =
    let bytes = chunk max_length offer stream in
    let short : length bytes ≤ max_length =
      omega (arith, length-take {0} (min max_length offer) stream) in
    let fits : ltb size (length bytes) ≡ false = ground arith in
    let within : int_ltb (pos max_length) (pos (0 + length bytes)) ≡ false = ground arith in
    let part : nat_beq size (length bytes) ≡ false = ground arith in
    elim (Bool-cases (nat_beq 0 (length bytes))) [
      | inl at_end ↦
          let none_got = no_length bytes (sym ((nat_beq_iff 0 (length bytes)).0 at_end)) in
          let rest : left max_length offer stream ≡ stream =
            ap (λ (l : List ℕ). l ++ left max_length offer stream) (sym none_got)
            ∙ take-drop (min max_length offer) stream in
          rw (fits, at_end, rest) (ends (nothing_got max_length stream))
      | inr some_bytes ↦
          rw (fits, some_bytes, within, part)
            (ends (record {
              whole = take-drop (min max_length offer) stream;
              counted = ap pos (omega arith);
              bounded = short;
            }))
    ]

-- For a length below the size of the buffer and without MSG_WAITALL, whatever the kernel answers,
-- recv never writes beyond the buffer and waits only while each answer is an interruption; where
-- it returns, the result followed by what is left of the stream is the stream, the size answered
-- is the result's, and it is at most the length.
pub recv-Receives :
    (size max_length : ℕ) (stream : List ℕ) (offers : List Offer)
    → max_length < size
    → Receives max_length stream offers (recv size max_length false stream offers)
unfolding recv
recv-Receives size max_length stream offers small =
    recv_loop-Receives size max_length stream offers small

-- With MSG_WAITALL, for a length above 0 and within the buffer, if the kernel gives all of that
-- length at once and further bytes follow, then recv takes more from the stream, as many as the
-- kernel gives, and drops them: the result is the length asked for, and the stream left starts
-- behind what was dropped.
pub recv-Loses :
    (size : ℕ) (s t : List ℕ) (a b : ℕ) (offers : List Offer)
    → 0 < length s
    → length s ≤ size
    → length s ≤ a
    → 0 < b
    → 0 < length t
    → recv size (length s) true (s ++ t) (Offer.up_to a ∷ Offer.up_to b ∷ offers)
      ≡ ok (some (record { size = pos (length s); result = s; stream = drop (min (length s) b) t }))
unfolding recv recv_loop
recv-Loses size s t a b offers positive fits enough ready more =
    let all_of : min (length s) a ≡ length s = omega arith in
    let bytes : chunk (length s) a (s ++ t) ≡ s =
      ap (λ (n : ℕ). take n (s ++ t)) all_of ∙ take-append s t in
    let rest : left (length s) a (s ++ t) ≡ t =
      ap (λ (n : ℕ). drop n (s ++ t)) all_of ∙ drop-append s t in
    let got = take (min (length s) b) t in
    let count : length got ≡ min (min (length s) b) (length t) = length-take (min (length s) b) t in
    let first_fits : ltb size (length s) ≡ false = ground arith in
    let fits' : ltb size (length got) ≡ false = ground arith in
    let some_bytes : nat_beq 0 (length got) ≡ false = ground arith in
    let over : int_ltb (pos (length s)) (pos (length s + length got)) ≡ true = ground arith in
    let full : length s - length s ≡ 0 = omega arith in
    rw (bytes, rest, first_fits, fits', some_bytes, over, full, append-nil s) refl
