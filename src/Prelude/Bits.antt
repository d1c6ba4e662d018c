-- ===== src/Prelude/Bits.antt =====
-- Single bits of the flag words: what `&` and `|` do to each, at every position.
use Prim.Native.Nat.{
  ℕ, zero, suc, ◌+◌, ◌*◌, ◌/◌, ◌%◌, ◌^◌, ◌≤◌, ◌<◌, ◌-◌, min, max, bit_and, bit_or, digits,
  bit_and-bitwise, bit_or-bitwise,
}
use mathlib.Core.Logic.{◌≢◌}
use mathlib.Core.Path.{◌≡◌, refl, ap, sym, ◌∙◌}
use native.Mathlib.Nat.{pow-suc}
use native.Mathlib.Omega.{arith}

-- The bit of `m` at position `k`.
abbrev pub bit : ℕ → ℕ → ℕ
bit zero m = m % 2
bit (suc k) m = bit k (m / 2)

pub bit-le-one : (k m : ℕ) → bit k m ≤ 1
bit-le-one zero m = omega arith
bit-le-one (suc k) m = bit-le-one k (m / 2)

-- A count of digits that suffices gives the same result.
module _ (z : ℕ → ℕ) (f : ℕ → ℕ → ℕ) where
  digits_zero : (n b : ℕ) → digits z f n 0 b ≡ digits z f 0 0 b
  digits_zero zero b = refl
  digits_zero (suc n) b = refl

  digits_enough : (n k a b : ℕ) → a ≤ n → a ≤ k → digits z f n a b ≡ digits z f k a b
  digits_enough n k zero b p q = digits_zero n b ∙ sym (digits_zero k b)
  digits_enough zero k (suc a) b p q = absurd (omega arith)
  digits_enough (suc n) zero (suc a) b p q = absurd (omega arith)
  digits_enough (suc n) (suc k) (suc a) b p q =
      ap (λ (t : ℕ). t * 2 + f (suc a % 2) (b % 2))
        (digits_enough n k (suc a / 2) (b / 2) (omega arith) (omega arith))

  -- One step of the digit-wise operation, given that it is what `digits` computes.
  module _ (op : ℕ → ℕ → ℕ) (bitwise : (a b : ℕ) → op a b ≡ digits z f a a b) where
    op_step : (a b : ℕ) → op (suc a) b ≡ op (suc a / 2) (b / 2) * 2 + f (suc a % 2) (b % 2)
    op_step a b =
        bitwise (suc a) b
        ∙ ap (λ (t : ℕ). t * 2 + f (suc a % 2) (b % 2))
            (digits_enough a (suc a / 2) (suc a / 2) (b / 2) (omega arith) (omega arith)
              ∙ sym (bitwise (suc a / 2) (b / 2)))

and_step : (m k : ℕ) → bit_and m k ≡ bit_and (m / 2) (k / 2) * 2 + min (m % 2) (k % 2)
and_step (suc m) k = op_step (λ _. 0) min bit_and bit_and-bitwise m k
and_step zero k = omega (arith, bit_and-bitwise 0 k, bit_and-bitwise 0 (k / 2))

or_step : (m k : ℕ) → bit_or m k ≡ bit_or (m / 2) (k / 2) * 2 + max (m % 2) (k % 2)
or_step (suc m) k = op_step (λ b. b) max bit_or bit_or-bitwise m k
or_step zero k = omega (arith, bit_or-bitwise 0 k, bit_or-bitwise 0 (k / 2))

and_half : (a b : ℕ) → bit_and a b / 2 ≡ bit_and (a / 2) (b / 2)
and_half a b = omega (arith, and_step a b)

or_half : (a b : ℕ) → bit_or a b / 2 ≡ bit_or (a / 2) (b / 2)
or_half a b = omega (arith, or_step a b)

pub bit-bit_and : (k a b : ℕ) → bit k (bit_and a b) ≡ min (bit k a) (bit k b)
bit-bit_and zero a b = omega (arith, and_step a b)
bit-bit_and (suc k) a b = rw (and_half a b) (bit-bit_and k (a / 2) (b / 2))

pub bit-bit_or : (k a b : ℕ) → bit k (bit_or a b) ≡ max (bit k a) (bit k b)
bit-bit_or zero a b = omega (arith, or_step a b)
bit-bit_or (suc k) a b = rw (or_half a b) (bit-bit_or k (a / 2) (b / 2))

-- No bits remain of a mask without any.
digits-none : (steps mask : ℕ) → digits (λ _. 0) min steps mask 0 ≡ 0
digits-none zero zero = refl
digits-none zero (suc mask) = refl
digits-none (suc steps) zero = refl
digits-none (suc steps) (suc mask) =
    ap (λ (t : ℕ). t * 2 + min (suc mask % 2) 0) (digits-none steps (suc mask / 2)) ∙ omega arith

and_zero : (mask : ℕ) → bit_and mask 0 ≡ 0
and_zero mask = bit_and-bitwise mask 0 ∙ digits-none mask mask

halve_pow : (k : ℕ) → 2 ^ suc k / 2 ≡ 2 ^ k
halve_pow k = omega (arith, pow-suc 2 k)

-- A test against a single flag reads the flag's bit.
pub bit_and-pow : (k m : ℕ) → bit_and m (2 ^ k) ≡ bit k m * 2 ^ k
bit_and-pow zero m = omega (arith, and_step m 1, and_zero (m / 2))
bit_and-pow (suc k) m = omega (
  arith,
  and_step m (2 ^ suc k),
  bit_and-pow k (m / 2),
  pow-suc 2 k,
  ap (bit_and (m / 2)) (halve_pow k),
  ap (λ (t : ℕ). bit k (m / 2) * t) (pow-suc 2 k),
)

pub bit-none : (k : ℕ) → bit k 0 ≡ 0
bit-none zero = refl
bit-none (suc k) = bit-none k

-- A single flag has one bit, at its own position.
pub bit-pow_same : (k : ℕ) → bit k (2 ^ k) ≡ 1
bit-pow_same zero = refl
bit-pow_same (suc k) = ap (bit k) (halve_pow k) ∙ bit-pow_same k

pub bit-pow_other : (i k : ℕ) → i ≢ k → bit i (2 ^ k) ≡ 0
bit-pow_other zero zero ne = absurd (ne refl)
bit-pow_other zero (suc k) ne = omega (arith, pow-suc 2 k)
bit-pow_other (suc i) zero ne = bit-none i
bit-pow_other (suc i) (suc k) ne =
    ap (bit i) (halve_pow k) ∙ bit-pow_other i k (λ same. ne (ap suc same))

-- `~`, on words of `w` bits.
pub bit-complement : (w i m : ℕ) → m < 2 ^ w → i < w → bit i (2 ^ w - suc m) ≡ 1 - bit i m
bit-complement zero i m below inside = absurd (omega arith)
bit-complement (suc w) zero m below inside = omega (arith, pow-suc 2 w)
bit-complement (suc w) (suc i) m below inside =
    ap (bit i) (omega (arith, pow-suc 2 w))
    ∙ bit-complement w i (m / 2) (omega (arith, pow-suc 2 w)) (omega arith)

pub pow-pos : (k : ℕ) → 0 < 2 ^ k
pow-pos zero = omega arith
pow-pos (suc k) = omega (arith, pow-suc 2 k, pow-pos k)

pub pow-lt : (k w : ℕ) → k < w → 2 ^ k < 2 ^ w
pow-lt k zero below = absurd (omega arith)
pow-lt zero (suc w) below = omega (arith, pow-suc 2 w, pow-pos w)
pow-lt (suc k) (suc w) below = omega (arith, pow-suc 2 k, pow-suc 2 w, pow-lt k w (omega arith))
