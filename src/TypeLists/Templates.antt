-- ===== src/TypeLists/Templates.antt =====
-- Searches and intersections of the lists of templates (UtilitiesInfra/template_typelist.hpp), whose
-- other operations are those of TypeLists.
use ipcinfra.Prelude.{
  ℕ, zero, suc, ◌+◌, ◌<◌, ◌≡◌, refl, sym, ap, ◌∙◌, Bool, true, false, not, ◌||◌, ◌&&◌, Bool-cases,
  inl, inr, List, [], ◌∷◌, length, arith, if◌then◌else◌,
}
use ipcinfra.Prelude.Int.{ℤ, pos, negsuc}
use ipcinfra.Prelude.Classes.{Eq, ◌==◌, ==_iff, int_eq}
use ipcinfra.TypeLists.Erasing.{contains-filter}
use ipcinfra.TypeLists.{nth_element, front, filter, contains}

abbrev pub default_index_value : ℤ
default_index_value = negsuc 0

abbrev pub one_more : ℤ → ℤ
one_more (pos n) = pos (suc n)
one_more (negsuc zero) = pos 0
one_more (negsuc (suc n)) = negsuc n

module _ {T : Type 0} where
  unfoldable pub any_of : List T → (T → Bool) → Bool
  any_of [] pred = false
  any_of (t ∷ ts) pred = pred t || any_of ts pred

  unfoldable pub find_first_by_index_helper : (T → Bool) → List T → ℕ → ℤ
  find_first_by_index_helper pred [] n = negsuc 0
  find_first_by_index_helper pred (head ∷ tails) n =
      let later = find_first_by_index_helper pred tails (n + 1) in
      if pred head then pos n else later

  unfoldable pub find_first_by_index : (T → Bool) → List T → ℤ
  unfolding find_first_by_index_helper
  find_first_by_index pred ts = find_first_by_index_helper pred ts 0

  -- A constant of type bool, to which the index is converted.
  unfoldable pub find_first_by_index_v : (T → Bool) → List T → Bool
  unfolding find_first_by_index
  find_first_by_index_v pred ts = not (find_first_by_index pred ts == pos 0)

  unfoldable pub get_type_by_index : T → List T → ℕ → T
  unfolding nth_element
  get_type_by_index empty_type ts index = nth_element empty_type ts index

module _ {T : Type 0} ⦃types : Eq T⦄ where
  unfoldable pub get_index_by_type : List T → T → ℤ
  get_index_by_type [] element = default_index_value
  get_index_by_type (head ∷ tails) element =
      let temp = get_index_by_type tails element in
      if head == element
      then pos 0
      else if temp == default_index_value
      then default_index_value
      else one_more temp

  unfoldable pub intersect : List T → List T → List T
  unfolding filter get_index_by_type
  intersect ts us = filter (λ e. not (default_index_value == get_index_by_type us e)) ts true

  -- The first position of a type, if it stands in the list.
  pub data Indexes (empty_type : T) (ts : List T) (element : T) : ℤ → Type 0 where
    absent : contains ts element ≡ false → Indexes empty_type ts element default_index_value
    first :
        (k : ℕ)
        → k < length ts
        → get_type_by_index empty_type ts k ≡ element
        → ((j : ℕ) → j < k → (get_type_by_index empty_type ts j == element) ≡ false)
        → contains ts element ≡ true
        → Indexes empty_type ts element (pos k)

  before_here :
      (empty_type head element : T) (tails : List T) (k : ℕ)
      → (head == element) ≡ false
      → ((j : ℕ) → j < k → (get_type_by_index empty_type tails j == element) ≡ false)
      → (j : ℕ) → j < suc k
      → (get_type_by_index empty_type (head ∷ tails) j == element) ≡ false
  unfolding get_type_by_index nth_element front
  before_here empty_type head element tails k other before zero h = other
  before_here empty_type head element tails k other before (suc j) h = before j (omega arith)

  step_index :
      (empty_type head element : T) (tails : List T) (temp : ℤ)
      → (head == element) ≡ false
      → Indexes empty_type tails element temp
      → Indexes empty_type
          (head ∷ tails)
          element
          (if temp == default_index_value then default_index_value else one_more temp)
  unfolding contains get_type_by_index nth_element
  step_index empty_type head element tails _ other (absent c) = absent (rw other c)
  step_index empty_type head element tails _ other (first k inside found before c) =
      first (suc k) (omega (arith, inside)) found
        (before_here empty_type head element tails k other before) (rw (other, c) refl)

  pub get_index_by_type-Indexes :
      (empty_type : T) (ts : List T) (element : T)
      → Indexes empty_type ts element (get_index_by_type ts element)
  unfolding get_index_by_type contains get_type_by_index nth_element front
  get_index_by_type-Indexes empty_type [] element = absent refl
  get_index_by_type-Indexes empty_type (head ∷ tails) element =
      elim (Bool-cases (head == element)) [
        | inl same ↦ rw same (
            first 0 (omega arith) ((==_iff head element).0 same) (λ j h. absurd (omega (arith, h)))
              (rw same refl))
        | inr other ↦ rw other (
            step_index empty_type head element tails (get_index_by_type tails element) other
              (get_index_by_type-Indexes empty_type tails element))
      ]

  -- A type has an index if the list contains it.
  default-Indexes :
      {empty_type element : T} {ts : List T} {i : ℤ}
      → Indexes empty_type ts element i
      → not (default_index_value == i) ≡ contains ts element
  default-Indexes (absent c) = sym c
  default-Indexes (first k inside found before c) = sym c

  pub intersect-contains :
      (ts us : List T) (t : T) → contains (intersect ts us) t ≡ (contains ts t && contains us t)
  unfolding intersect
  intersect-contains ts us t =
      contains-filter (λ e. not (default_index_value == get_index_by_type us e)) ts t
      ∙ ap (λ (b : Bool). contains ts t && b) (default-Indexes (get_index_by_type-Indexes t us t))
