-- ===== src/Files.antt =====
-- The access bits and status flags of files: IOInfra/FileIODefinitions.h, and what FilePermissions
-- and FileStatusFlags share. A word of flags is a number; `int` and `unsigned` have 32 bits, so that
-- -1 is the word of 32 ones.
pub mod Permissions
pub mod StatusFlags
use Prim.Native.Nat.{bit_and, bit_or}
use mathlib.Core.Bool.{true≢false}
use ipcinfra.Prelude.{
  ℕ, zero, suc, ◌+◌, ◌-◌, ◌*◌, ◌^◌, ◌≤◌, ◌<◌, ◌≡◌, ◌≢◌, refl, sym, ap, ◌∙◌, Bool, true, false, not,
  arith, nat_beq, if◌then◌else◌,
}
use ipcinfra.Prelude.Bits.{
  bit, bit-bit_and, bit-bit_or, bit_and-pow, bit-le-one, bit-pow_same, bit-pow_other,
  bit-complement, pow-pos, pow-lt,
}

pub data AccessMode : Type 0 where
  undefined read_only write_only read_write append : AccessMode

pub data FilePermission : Type 0 where
  user_read user_write user_execute group_read group_write group_execute other_read other_write
        other_execute last :
      FilePermission

abbrev pub underlying : FilePermission → ℕ
underlying FilePermission.user_read = 0
underlying FilePermission.user_write = 1
underlying FilePermission.user_execute = 2
underlying FilePermission.group_read = 3
underlying FilePermission.group_write = 4
underlying FilePermission.group_execute = 5
underlying FilePermission.other_read = 6
underlying FilePermission.other_write = 7
underlying FilePermission.other_execute = 8
underlying FilePermission.last = 9

-- `!=` of two bools
abbrev pub differs : Bool → Bool → Bool
differs true b = not b
differs false b = b

pub differs-false : (a b : Bool) → differs a b ≡ false → b ≡ a
differs-false true true h = refl
differs-false true false h = absurd (true≢false h)
differs-false false true h = absurd (true≢false h)
differs-false false false h = refl

pub differs-true : (a b : Bool) → differs a b ≡ true → b ≢ a
differs-true true true h e = true≢false (sym h)
differs-true true false h e = true≢false (sym e)
differs-true false true h e = true≢false e
differs-true false false h e = true≢false (sym h)

-- `flags & flag`, as a bool
abbrev pub has_flag : ℕ → ℕ → Bool
has_flag flags flag = not (nat_beq (bit_and flags flag) 0)

-- `requested ? flags | flag : flags & ~flag`
abbrev pub change_flag : Bool → ℕ → ℕ → ℕ
change_flag requested flag flags =
    if requested then bit_or flags flag else bit_and flags (2 ^ 32 - suc flag)

scaled : (b p : ℕ) → b ≤ 1 → 0 < p → not (nat_beq (b * p) 0) ≡ nat_beq b 1
scaled zero p small positive = ground arith
scaled (suc zero) p small positive = ground arith
scaled (suc (suc b)) p small positive = absurd (omega arith)

pub has_flag-bit : (flags k : ℕ) → has_flag flags (2 ^ k) ≡ nat_beq (bit k flags) 1
has_flag-bit flags k =
    ap (λ (m : ℕ). not (nat_beq m 0)) (bit_and-pow k flags)
    ∙ scaled (bit k flags) (2 ^ k) (bit-le-one k flags) (pow-pos k)

pub bit-change_same :
    (requested : Bool) (k flags : ℕ)
    → k < 32
    → bit k (change_flag requested (2 ^ k) flags) ≡ (if requested then 1 else 0)
bit-change_same true k flags below =
    omega (arith, bit-bit_or k flags (2 ^ k), bit-pow_same k, bit-le-one k flags)
bit-change_same false k flags below = omega (
  arith,
  bit-bit_and k flags (2 ^ 32 - suc (2 ^ k)),
  bit-complement 32 k (2 ^ k) (pow-lt k 32 below) below,
  bit-pow_same k,
)

-- Setting or clearing a flag leaves every other bit.
pub bit-change_other :
    (requested : Bool) (k j flags : ℕ)
    → k < 32
    → j < 32
    → j ≢ k
    → bit j (change_flag requested (2 ^ k) flags) ≡ bit j flags
bit-change_other true k j flags below below' ne =
    omega (arith, bit-bit_or j flags (2 ^ k), bit-pow_other j k ne)
bit-change_other false k j flags below below' ne = omega (
  arith,
  bit-bit_and j flags (2 ^ 32 - suc (2 ^ k)),
  bit-complement 32 j (2 ^ k) (pow-lt k 32 below) below',
  bit-pow_other j k ne,
  bit-le-one j flags,
)

pub has_flag-change :
    (requested : Bool) (k flags : ℕ)
    → k < 32
    → has_flag (change_flag requested (2 ^ k) flags) (2 ^ k) ≡ requested
has_flag-change true k flags below =
    has_flag-bit _ k ∙ ap (λ (b : ℕ). nat_beq b 1) (bit-change_same true k flags below)
has_flag-change false k flags below =
    has_flag-bit _ k ∙ ap (λ (b : ℕ). nat_beq b 1) (bit-change_same false k flags below)
