-- ===== src/Prelude/Run.antt =====
-- What a call comes to: a value, or one of the ways in which C++ gives none.
use mathlib.Core.Path.{◌≡◌}

pub data Fault : Type 0 where
  undefined_behaviour deadlock endless_loop bad_optional_access : Fault

pub data Run {ℓ} (Value : Type ℓ) : Type ℓ where
  fault : Fault → Run Value
  ok : Value → Run Value

infixl 5 ◌>>◌
module _ {ℓ κ} {A : Type ℓ} {B : Type κ} where
  infixl 5 ◌>>=◌
  -- The next call, where this one gives a value.
  abbrev pub ◌>>=◌ : Run A → (A → Run B) → Run B
  fault why >>= next = fault why
  ok value >>= next = next value

abbrev pub ◌>>◌ {ℓ κ} : {A : Type ℓ} {B : Type κ} → Run A → Run B → Run B
m >> k = m >>= λ _. k

-- The call gives a value, which satisfies `P`.
abbrev pub Returns {ℓ κ} : {A : Type ℓ} → (A → Type κ) → Run A → Type (ℓ ⊔ κ)
Returns {A = A} P r = (a : A) × (r ≡ ok a) × P a

-- What holds of the value, where the call gives one.
pub data Keeps {ℓ κ} {A : Type ℓ} (P : A → Type κ) : Run A → Type (ℓ ⊔ κ) where
  stopped : {why : Fault} → Keeps P (fault why)
  kept : {a : A} → P a → Keeps P (ok a)

pub bind-Keeps {ℓ κ μ ν} :
    {A : Type ℓ} {B : Type κ} {P : A → Type μ} {Q : B → Type ν} {r : Run A} {f : A → Run B}
    → Keeps P r
    → ((a : A) → P a → Keeps Q (f a))
    → Keeps Q (r >>= f)
bind-Keeps stopped next = stopped
bind-Keeps (kept {a = a} p) next = next a p

pub then-Keeps {ℓ κ ν} :
    {A : Type ℓ} {B : Type κ} {Q : B → Type ν} (r : Run A) {f : A → Run B}
    → ((a : A) → Keeps Q (f a))
    → Keeps Q (r >>= f)
then-Keeps (fault why) next = stopped
then-Keeps (ok a) next = next a

pub map-Keeps {ℓ κ ν} :
    {A : Type ℓ} {P : A → Type κ} {Q : A → Type ν} {r : Run A}
    → ((a : A) → P a → Q a)
    → Keeps P r
    → Keeps Q r
map-Keeps weaken stopped = stopped
map-Keeps weaken (kept {a = a} p) = kept (weaken a p)

pub bind-Returns {ℓ κ μ ν} :
    {A : Type ℓ} {B : Type κ} {P : A → Type μ} {Q : B → Type ν} {r : Run A} {f : A → Run B}
    → Returns P r
    → ((a : A) → P a → Returns Q (f a))
    → Returns Q (r >>= f)
bind-Returns (a, returned, p) next = rw returned (next a p)

pub Keeps-Returns {ℓ κ} : {A : Type ℓ} {P : A → Type κ} {r : Run A} → Returns P r → Keeps P r
Keeps-Returns (a, returned, p) = rw returned (kept p)
