-- ===== src/LinuxIo/Reading.antt =====
-- LinuxIOUtilities::read, readLine and readInBuffer
-- (UtilitiesInfra/LinuxUtils/LinuxIOUtilities.cpp). `none` is a loop that still waits.
pub mod Whole
pub mod Line
use Prim.Native.Nat.{min}
use ipcinfra.Prelude.{
  ℕ, zero, suc, ◌+◌, ◌-◌, ◌^◌, ◌%◌, Bool, true, false, not, Option, none, some, List, [], ◌∷◌, ◌++◌,
  length, take, drop, nat_beq, ltb, if◌then◌else◌,
}
use ipcinfra.Prelude.Int.{ℤ, pos, negsuc, pos_part}
use ipcinfra.Prelude.Classes.{◌==◌, int_eq}
use ipcinfra.Prelude.Run.{Run, ok, fault, undefined_behaviour}
use ipcinfra.LinuxIo.{Offer, Received, chunk, left, failed_size, end_line_char}

abbrev pub zeros : ℕ → List ℕ
zeros zero = []
zeros (suc n) = 0 ∷ zeros n

-- The bytes before the first end of line, and whether there is one.
abbrev pub before_end_line : List ℕ → List ℕ
before_end_line [] = []
before_end_line (byte ∷ bytes) =
    if nat_beq byte end_line_char then [] else byte ∷ before_end_line bytes

-- `size` is READ_BUFFER_SIZE.
module _ (size : ℕ) where
  -- The loop of `read`, for a descriptor that cannot seek.
  unfoldable pub read_loop : ℕ → List ℕ → List ℕ → List Offer → Option Received
  read_loop total result stream [] = none
  read_loop total result stream (Offer.interrupted ∷ offers) = read_loop total result stream offers
  read_loop total result stream (Offer.failed ∷ offers) =
      some (record { size = failed_size; result = result; stream = stream; offers = offers })
  read_loop total result stream (Offer.up_to offer ∷ offers) =
      let bytes = chunk size offer stream in
      let total' = total + length bytes in
      let result' = result ++ bytes in
      let stream' = left size offer stream in
      let again = read_loop total' result' stream' offers in
      if not (nat_beq size (length bytes))
      then some (record { size = total'; result = result'; stream = stream'; offers = offers })
      else again

  -- The loop of `readLine`. What was read behind the end of line is not kept.
  unfoldable pub read_line_loop : ℕ → List ℕ → List ℕ → List Offer → Option Received
  read_line_loop total result stream [] = none
  read_line_loop total result stream (Offer.interrupted ∷ offers) =
      read_line_loop total result stream offers
  read_line_loop total result stream (Offer.failed ∷ offers) =
      some (record { size = total; result = result; stream = stream; offers = offers })
  read_line_loop total result stream (Offer.up_to offer ∷ offers) =
      let bytes = chunk size offer stream in
      let copiable = before_end_line bytes in
      let total' = total + length copiable in
      let result' = result ++ copiable in
      let stream' = left size offer stream in
      let again = read_line_loop total' result' stream' offers in
      if nat_beq 0 (length bytes)
      then some (record { size = total; result = result; stream = stream'; offers = offers })
      else if not (nat_beq (length copiable) (length bytes))
      then some (record { size = total'; result = result'; stream = stream'; offers = offers })
      else again

  unfoldable pub read_line : List ℕ → List ℕ → List Offer → Option Received
  unfolding read_line_loop
  read_line result stream offers = read_line_loop 0 result stream offers

-- The loop of `readInBuffer`: each call writes at the buffer's start.
unfoldable pub read_in_buffer_loop : ℕ → ℕ → List ℕ → List ℕ → List Offer → Option Received
read_in_buffer_loop buffer_len total buffer stream [] = none
read_in_buffer_loop buffer_len total buffer stream (Offer.interrupted ∷ offers) =
    read_in_buffer_loop buffer_len total buffer stream offers
read_in_buffer_loop buffer_len total buffer stream (Offer.failed ∷ offers) =
    some (record { size = failed_size; result = buffer; stream = stream; offers = offers })
read_in_buffer_loop buffer_len total buffer stream (Offer.up_to offer ∷ offers) =
    let bytes = chunk buffer_len offer stream in
    let total' = total + length bytes in
    let buffer' = bytes ++ drop (length bytes) buffer in
    let stream' = left buffer_len offer stream in
    let again = read_in_buffer_loop buffer_len total' buffer' stream' offers in
    if not (nat_beq buffer_len (length bytes))
    then some (record { size = total'; result = buffer'; stream = stream'; offers = offers })
    else again

-- `out_buffer` has at least `buffer_len` bytes; the others are left as they are.
unfoldable pub read_in_buffer : ℕ → List ℕ → List ℕ → List Offer → Option Received
unfolding read_in_buffer_loop
read_in_buffer buffer_len out_buffer stream offers =
    let cleared = zeros buffer_len ++ drop buffer_len out_buffer in
    if nat_beq 0 buffer_len
    then some (record { size = 0; result = cleared; stream = stream; offers = offers })
    else read_in_buffer_loop buffer_len 0 cleared stream offers

-- `read`: `in_size` is what `availableSize` answers. An empty string has no byte to leave out, and
-- the length that is passed on wraps.
unfoldable pub read : ℕ → ℤ → List ℕ → List ℕ → List Offer → Run (Option Received)
unfolding read_in_buffer read_loop
read size in_size result stream offers =
    let resized = result ++ zeros (pos_part in_size - length result) in
    if in_size == negsuc 0
    then ok (read_loop size 0 result stream offers)
    else if nat_beq 0 (length resized)
    then fault undefined_behaviour
    else ok (read_in_buffer (length resized - 1) resized stream offers)

-- `availableSize`, from the answers of `lseek` for the current position and the end.
unfoldable pub available_size : Option ℕ → Option ℕ → ℤ
available_size current_pos end_pos = elim current_pos [
  | none ↦ negsuc 0
  | some current ↦ elim end_pos [
    | some end ↦ if ltb end current then negsuc (current - end - 1) else pos (end - current)
    | none ↦ negsuc current
  ]
]
