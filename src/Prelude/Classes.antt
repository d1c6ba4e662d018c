-- ===== src/Prelude/Classes.antt =====
-- The operations that the containers ask of their keys: `==`, and `<` for the sorted one.
use Prim.Native.Nat.{ℕ}
use mathlib.Core.Path.{◌≡◌, refl}
use mathlib.Core.Logic.{◌↔◌}
use mathlib.Core.Bool.{Bool, true, false}
use ipcinfra.Prelude.Tests.{nat_beq, nat_beq_iff}
use ipcinfra.Prelude.Int.{
  ℤ, int_beq, int_beq_iff, int_ltb, int_ltb_irrefl, int_ltb_trans, int_ltb_total,
}

-- `operator==`, which decides whether two keys are the same.
pub record Eq {κ} (Key : Type κ) : Type κ where
  pub equal : Key → Key → Bool
  pub equal_iff : (k j : Key) → (equal k j ≡ true) ↔ (k ≡ j)

module _ {κ} {Key : Type κ} ⦃keys : Eq Key⦄ where
  infix 50 ◌==◌
  abbrev pub ◌==◌ : Key → Key → Bool
  k == j = keys.equal k j

  pub ==_iff : (k j : Key) → ((k == j) ≡ true) ↔ (k ≡ j)
  ==_iff k j = keys.equal_iff k j

  pub ==_refl : (k : Key) → (k == k) ≡ true
  ==_refl k = (==_iff k k).1 refl

pub record Ord {ℓ} (A : Type ℓ) : Type ℓ where
  pub less : A → A → Bool
  pub less_irrefl : (a : A) → less a a ≡ false
  pub less_trans : (a b c : A) → less a b ≡ true → less b c ≡ true → less a c ≡ true
  pub less_total : (a b : A) → less a b ≡ false → less b a ≡ false → a ≡ b

instance abbrev pub nat_eq : Eq ℕ
nat_eq = record { equal = nat_beq; equal_iff = nat_beq_iff }

instance abbrev pub int_eq : Eq ℤ
int_eq = record { equal = int_beq; equal_iff = int_beq_iff }

instance abbrev pub int_ord : Ord ℤ
int_ord = record {
  less = int_ltb;
  less_irrefl = int_ltb_irrefl;
  less_trans = int_ltb_trans;
  less_total = int_ltb_total;
}
