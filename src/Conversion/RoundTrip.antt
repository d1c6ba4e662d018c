-- ===== src/Conversion/RoundTrip.antt =====
-- Numbers converted to texts and back (UtilitiesInfra/ConversionUtils.h).
use ipcinfra.Prelude.{
  ℕ, zero, suc, ◌≡◌, refl, ap, ◌+◌, ◌-◌, ◌≤◌, ◌<◌, false, Bool-cases, inl, inr, Option, none, some,
  [], ◌∷◌, ◌++◌, length, drop, drop-all, nat_beq, ltb, arith, All,
}
use ipcinfra.Prelude.Run.{Run, ok, fault, undefined_behaviour, ◌>>=◌}
use ipcinfra.Configuration.{Text}
use ipcinfra.Conversion.{
  arithmetic_buffer_len, filled, c_string, string_of, to_string, to_arithmetic,
}

abbrev pub NotZero : ℕ → Type 0
NotZero b = nat_beq b 0 ≡ false

c_string-zero : (text behind : Text) → All NotZero text → c_string (text ++ 0 ∷ behind) ≡ ok text
c_string-zero [] behind n = refl
c_string-zero (b ∷ text) behind n = rw (n.0, c_string-zero text behind n.1) refl

c_string-unended :
    (text : Text) → All NotZero text → c_string (text ++ []) ≡ fault undefined_behaviour
c_string-unended [] n = refl
c_string-unended (b ∷ text) n = rw (n.0, c_string-unended text n.1) refl

length-filled : (n : ℕ) → length (filled n) ≡ n
length-filled zero = refl
length-filled (suc n) = ap suc (length-filled n)

drop-filled : (m n k : ℕ) → k ≡ m + n → drop m (filled k) ≡ filled n
drop-filled zero n k e = ap filled {x = k} {y = n} (omega arith)
drop-filled (suc m) n zero e = absurd (omega arith)
drop-filled (suc m) n (suc k) e = drop-filled m n k (omega arith)

string_of-none : (written : Option ℕ × Text) → written.0 ≡ none → string_of written ≡ ok []
string_of-none (none, buf) e = refl
string_of-none (some count, buf) e = cc

-- What std::to_chars promises of a number with a text, and std::from_chars of that text.
pub record Converts {T : Type 0} (to_chars : T → Text → Option ℕ × Text)
    (from_chars : Text → Option T) (n : T) (text : Text) : Type 0 where
  pub fits :
      (buf : Text)
      → length text ≤ length buf
      → to_chars n buf ≡ (some (length text), text ++ drop (length text) buf)
  pub too_large : (buf : Text) → length buf < length text → (to_chars n buf).0 ≡ none
  pub no_zero : All NotZero text
  pub read : from_chars text ≡ some n
  pub read_empty : from_chars [] ≡ none

-- What comes back of a number by the length of its text.
pub data ComesBack {T : Type 0} (null n : T) : ℕ → Run T → Type 0 where
  whole : {size : ℕ} → size < arithmetic_buffer_len → ComesBack null n size (ok n)
  unended : ComesBack null n arithmetic_buffer_len (fault undefined_behaviour)
  lost : {size : ℕ} → arithmetic_buffer_len < size → ComesBack null n size (ok null)

module _ {T : Type 0} (to_chars : T → Text → Option ℕ × Text) (from_chars : Text → Option T)
    (null n : T) (text : Text) (c : Converts to_chars from_chars n text) where
  to_string-short : length text < arithmetic_buffer_len → to_string to_chars n ≡ ok text
  unfolding to_string
  to_string-short short =
      let rest =
        drop-filled (length text) (suc (14 - length text)) arithmetic_buffer_len (omega arith) in
      rw (c.fits (filled 15) (omega arith), rest) (c_string-zero text _ c.no_zero)

  to_string-full :
      length text ≡ arithmetic_buffer_len → to_string to_chars n ≡ fault undefined_behaviour
  unfolding to_string
  to_string-full full =
      rw (c.fits (filled 15) (omega arith), drop-all (length text) (filled 15) (omega arith))
        (c_string-unended text c.no_zero)

  to_string-long : arithmetic_buffer_len < length text → to_string to_chars n ≡ ok []
  unfolding to_string
  to_string-long long = string_of-none _ (c.too_large (filled 15) long)

  -- If std::to_chars writes a number's text, which has no zero byte, into every buffer that it
  -- fits, and refuses a smaller one, and std::from_chars reads the number from the text and none
  -- from the empty text, then toArithmetic of what toString gives is the number where its text is
  -- shorter than 15 bytes; toString has undefined behaviour where it is 15 bytes long; and 0
  -- comes back where it is longer.
  pub to_arithmetic-to_string :
      ComesBack null n
        (length text)
        (to_string to_chars n >>= λ s. ok (to_arithmetic null from_chars s))
  unfolding to_arithmetic
  to_arithmetic-to_string = elim (Bool-cases (ltb (length text) 15)) [
    | inl below ↦
        let short : length text < 15 = ground arith in
        rw (to_string-short short, to_arithmetic, c.read) (whole short)
    | inr other ↦ elim (Bool-cases (ltb 15 (length text))) [
      | inl beyond ↦
          let long : 15 < length text = ground arith in
          rw (to_string-long long, to_arithmetic, c.read_empty) (lost long)
      | inr not_beyond ↦
          let full : length text ≡ 15 = ground arith in rw (to_string-full full, full) unended
    ]
  ]
