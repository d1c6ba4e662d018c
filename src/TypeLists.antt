-- ===== src/TypeLists.antt =====
-- The compile-time lists of types (UtilitiesInfra/typelist.hpp), of templates
-- (UtilitiesInfra/template_typelist.hpp: TypeLists/Templates) and of values
-- (UtilitiesInfra/non_typelist.hpp: TypeLists/Values), and the dispatch over them
-- (UtilitiesInfra/runtime_dispatcher.hpp: TypeLists/Dispatch). Types are elements of any type with an
-- equality, which is `std::is_same`; a metafunction that is not defined for a list gives `none`.
pub mod Erasing
pub mod Templates
pub mod Values
pub mod Dispatch
pub mod Policies
pub mod Reaching
pub mod Lifecycle
pub mod Results
use ipcinfra.Prelude.{
  ℕ, zero, suc, Bool, true, false, not, ◌||◌, Option, none, some, List, [], ◌∷◌, ◌++◌, map, length,
  if◌then◌else◌,
}
use ipcinfra.Prelude.Classes.{Eq, ◌==◌}

module _ {T : Type 0} where
  unfoldable pub is_empty : List T → Bool
  is_empty [] = true
  is_empty (_ ∷ _) = false

  unfoldable pub size : List T → ℕ
  size ts = length ts

  unfoldable pub front : T → List T → T
  front empty_type [] = empty_type
  front empty_type (head ∷ tails) = head

  unfoldable pub pop_front : List T → Option (List T)
  pop_front [] = none
  pop_front (head ∷ tails) = some tails

  unfoldable pub push_front : List T → T → List T
  push_front tails new_element = new_element ∷ tails

  unfoldable pub push_back : List T → T → List T
  push_back tails new_element = tails ++ new_element ∷ []

  unfoldable pub nth_element : T → List T → ℕ → T
  unfolding front
  nth_element empty_type ts zero = front empty_type ts
  nth_element empty_type [] (suc n) = empty_type
  nth_element empty_type (head ∷ tails) (suc n) = nth_element empty_type tails n

  -- `std::tuple_cat` of the lists' tuples
  unfoldable pub concat : List (List T) → List T
  concat [] = []
  concat (ts ∷ tlists) = ts ++ concat tlists

  unfoldable pub zero_or_one : Bool → T → List T
  zero_or_one false element = []
  zero_or_one true element = element ∷ []

  unfoldable pub filter : (T → Bool) → List T → Bool → List T
  unfolding concat zero_or_one
  filter pred ts filter_in =
      concat (map (λ t. zero_or_one (if filter_in then pred t else not (pred t)) t) ts)

module _ {T : Type 0} ⦃types : Eq T⦄ where
  unfoldable pub erase_rec : List T → T → List T
  unfolding push_front
  erase_rec [] element = []
  erase_rec (head ∷ tails) element =
      let tails' = erase_rec tails element in
      if head == element then tails' else push_front tails' head

  -- The disjunction over all types of the list.
  unfoldable pub contains : List T → T → Bool
  contains [] t = false
  contains (head ∷ tails) t = head == t || contains tails t

  unfoldable pub erase : List T → T → List T
  unfolding filter
  erase ts element = filter (λ e. e == element) ts false

  -- The recursion is on what `erase` leaves of the tails, which is no longer than they are.
  unfoldable pub remove_duplicates_in : ℕ → List T → List T
  unfolding erase push_front
  remove_duplicates_in zero ts = []
  remove_duplicates_in (suc n) [] = []
  remove_duplicates_in (suc n) (head ∷ tails) =
      push_front (remove_duplicates_in n (erase tails head)) head

  unfoldable pub remove_duplicates : List T → List T
  unfolding remove_duplicates_in
  remove_duplicates ts = remove_duplicates_in (length ts) ts

-- `generate_typelist`, from a set of values.
unfoldable pub generate_typelist : {V : Type 0} {T : Type 0} → (V → T) → List V → List T
unfolding push_front
generate_typelist generator [] = []
generate_typelist generator (head ∷ tails) =
    push_front (generate_typelist generator tails) (generator head)
