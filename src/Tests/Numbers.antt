-- ===== src/Tests/Numbers.antt =====
-- The theorem on converted numbers at a concrete input: a printer and a reader of decimals.
use ipcinfra.Prelude.{
  ℕ, zero, suc, ◌≡◌, refl, ◌+◌, ◌-◌, ◌*◌, ◌/◌, ◌%◌, ◌≤◌, ◌<◌, ◌&&◌, true, false, Option, none, some,
  [], ◌∷◌, ◌++◌, length, drop, arith, ltb, leb, if◌then◌else◌,
}
use ipcinfra.Prelude.Run.{◌>>=◌, ok}
use ipcinfra.Configuration.{Text}
use ipcinfra.Conversion.{to_string, to_arithmetic}
use ipcinfra.Conversion.RoundTrip.{Converts, ComesBack, to_arithmetic-to_string}

-- The digits of a number of at most 20, before the text.
abbrev decimal : ℕ → ℕ → Text → Text
decimal zero n text = text
decimal (suc digits) n text =
    let rest = decimal digits (n / 10) ((48 + n % 10) ∷ text) in
    if ltb n 10 then (48 + n) ∷ text else rest

abbrev put : Text → Text → Option ℕ × Text
put text buf =
    if leb (length text) (length buf)
    then (some (length text), text ++ drop (length text) buf)
    else (none, buf)

abbrev print_decimal : ℕ → Text → Option ℕ × Text
print_decimal n = put (decimal 20 n [])

abbrev digits_from : ℕ → Text → ℕ
digits_from n [] = n
digits_from n (b ∷ bytes) =
    let rest = digits_from (10 * n + (b - 48)) bytes in if leb 48 b && leb b 57 then rest else n

abbrev read_decimal : Text → Option ℕ
read_decimal [] = none
read_decimal (b ∷ bytes) = if leb 48 b && leb b 57 then some (digits_from 0 (b ∷ bytes)) else none

put-fits :
    (text buf : Text)
    → length text ≤ length buf
    → put text buf ≡ (some (length text), text ++ drop (length text) buf)
put-fits text buf h =
    let room : leb (length text) (length buf) ≡ true = ground arith in rw room refl

put-too_large : (text buf : Text) → length buf < length text → (put text buf).0 ≡ none
put-too_large text buf h =
    let none_left : leb (length text) (length buf) ≡ false = ground arith in rw none_left refl

abbrev number : ℕ
number = 123456789012345

-- A number of fifteen digits.
number-Converts : Converts print_decimal read_decimal number (decimal 20 number [])
number-Converts = record {
  fits = λ buf h. put-fits (decimal 20 number []) buf h;
  too_large = λ buf h. put-too_large (decimal 20 number []) buf h;
  no_zero = (
    refl,
    (
      refl,
      (
        refl,
        (
          refl,
          (
            refl,
            (refl, (refl, (refl, (refl, (refl, (refl, (refl, (refl, (refl, (refl, tt)))))))))),
          ),
        ),
      ),
    ),
  );
  read = refl;
  read_empty = refl;
}

to_arithmetic-to_string_example :
    ComesBack 0 number
      (length (decimal 20 number []))
      (to_string print_decimal number >>= λ s. ok (to_arithmetic 0 read_decimal s))
to_arithmetic-to_string_example =
    to_arithmetic-to_string print_decimal read_decimal 0 number (decimal 20 number [])
      number-Converts
