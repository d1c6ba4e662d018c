-- ===== src/LinuxIo.antt =====
-- LinuxIOUtilities (UtilitiesInfra/LinuxUtils/LinuxIOUtilities.cpp). The kernel answers each call of
-- read, write or recv by the next of a list of offers, whatever they are; bytes are numbers. Where
-- the offers end, the call waits for ever.
pub mod Paths
pub mod Copying
pub mod Receiving
pub mod Opening
pub mod Writing
pub mod Reading
use Prim.Native.Nat.{min}
use ipcinfra.Prelude.{
  ℕ, suc, ◌+◌, ◌-◌, ◌^◌, ◌≡◌, Bool, true, false, List, [], ◌∷◌, ◌++◌, length, take, drop, nat_beq,
}
use ipcinfra.Prelude.Run.{Run}

-- EINTR, another error, or at most so many bytes. A reader of a stream at its end gets none.
pub data Offer : Type 0 where
  interrupted failed : Offer
  up_to : ℕ → Offer

-- -1, as a `size_t`
abbrev pub failed_size : ℕ
failed_size = 2 ^ 64 - 1

-- READ_BUFFER_SIZE
abbrev pub read_buffer_size : ℕ
read_buffer_size = 4096

abbrev pub end_line_char : ℕ
end_line_char = 10

-- What one `read` of at most `count` bytes gives under `up_to offer`, and what it leaves.
abbrev pub chunk : ℕ → ℕ → List ℕ → List ℕ
chunk count offer stream = take (min count offer) stream

abbrev pub left : ℕ → ℕ → List ℕ → List ℕ
left count offer stream = drop (min count offer) stream

-- A loop's end: the answer, the bytes it has gathered, and the bytes and offers that remain.
pub record Received : Type 0 where
  pub size : ℕ
  pub result : List ℕ
  pub stream : List ℕ
  pub offers : List Offer
