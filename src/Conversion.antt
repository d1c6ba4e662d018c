-- ===== src/Conversion.antt =====
-- The conversion between numbers and texts: UtilitiesInfra/ConversionUtils.h. std::to_chars and
-- std::from_chars are parameters: the first gives where the text ends in the buffer, if it fits, and
-- the buffer afterwards, the second the number that a text starts with, if there is one.
pub mod RoundTrip
use ipcinfra.Prelude.{
  ℕ, zero, suc, Bool, true, false, Option, none, some, List, [], ◌∷◌, ◌++◌, length, take, drop,
  nat_beq, ltb, if◌then◌else◌,
}
use ipcinfra.Prelude.Run.{Run, ok, fault, undefined_behaviour, ◌>>=◌}
use ipcinfra.Configuration.{Text}

abbrev pub arithmetic_buffer_len : ℕ
arithmetic_buffer_len = 15

-- `std::fill` with 0
abbrev pub filled : ℕ → Text
filled zero = []
filled (suc n) = 0 ∷ filled n

-- The string of a pointer to an array's first byte: the bytes before the first zero, which is read
-- for beyond the array where it holds none.
abbrev pub c_string : Text → Run Text
c_string [] = fault undefined_behaviour
c_string (b ∷ bytes) = if nat_beq b 0 then ok [] else (c_string bytes >>= λ text. ok (b ∷ text))

abbrev pub past_end : Option ℕ × Text → Text → ℕ → Bool × Text × ℕ
past_end (none, bytes) behind len = (false, bytes ++ behind, len)
past_end (some count, bytes) behind len = (true, bytes ++ behind, count)

abbrev pub string_of : Option ℕ × Text → Run Text
string_of (none, buf) = ok []
string_of (some count, buf) = c_string buf

module _ {T : Type 0} (to_chars : T → Text → Option ℕ × Text) where
  -- The answer, the buffer and `len` afterwards.
  unfoldable pub to_string_in_buffer : T → Text → ℕ → Run (Bool × Text × ℕ)
  to_string_in_buffer to_convert buf len =
      if ltb (length buf) len
      then fault undefined_behaviour
      else ok (past_end (to_chars to_convert (take len buf)) (drop len buf) len)

  unfoldable pub to_string : T → Run Text
  to_string to_convert = string_of (to_chars to_convert (filled arithmetic_buffer_len))

module _ {T : Type 0} (null : T) (from_chars : Text → Option T) where
  -- `toArithmetic` of a view: 0 where there is no number.
  unfoldable pub to_arithmetic : Text → T
  to_arithmetic buf_view = elim (from_chars buf_view) [
    | none ↦ null
    | some converted_val ↦ converted_val
  ]

-- `Helper::convert` of a type that a view can be assigned to: the text itself.
abbrev pub convert_text : Text → Option Text
convert_text value = some value
