-- ===== src/TypeLists/Values.antt =====
-- The compile-time lists of values (UtilitiesInfra/non_typelist.hpp), here of integers, and the
-- default values of their types (UtilitiesInfra/default_traits.hpp).
use ipcinfra.Prelude.{
  ℕ, zero, suc, ◌≡◌, refl, ◌∙◌, Bool, true, false, Option, none, some, List, [], ◌∷◌, ◌++◌, length,
  arith, nat_beq, ltb, if◌then◌else◌,
}
use ipcinfra.Prelude.Int.{ℤ, pos, negsuc}

-- The types whose default is declared; all others have their own.
pub data MemberType : Type 0 where
  bool : MemberType
  int : MemberType
  size_t : MemberType

unfoldable pub default_value : MemberType → ℤ
default_value bool = pos 0
default_value int = negsuc 0
default_value size_t = pos 0

unfoldable pub is_empty : List ℤ → Bool
is_empty [] = true
is_empty (_ ∷ _) = false

unfoldable pub size : List ℤ → ℕ
size values = length values

unfoldable pub front : List ℤ → ℤ
unfolding default_value
front [] = default_value int
front (head ∷ tails) = head

unfoldable pub back : List ℤ → Option ℤ
back [] = none
back (tail ∷ []) = some tail
back (head ∷ next ∷ tails) = back (next ∷ tails)

unfoldable pub pop_front : List ℤ → Option (List ℤ)
pop_front [] = none
pop_front (head ∷ tails) = some tails

unfoldable pub push_front : List ℤ → ℤ → List ℤ
push_front tails new_element = new_element ∷ tails

unfoldable pub push_back : List ℤ → ℤ → List ℤ
push_back tails new_element = tails ++ new_element ∷ []

-- The type is that of the members of the whole list.
unfoldable pub nth_element : MemberType → List ℤ → ℕ → ℤ
unfolding front default_value
nth_element t values zero = front values
nth_element t [] (suc n) = default_value t
nth_element t (head ∷ tails) (suc n) = nth_element t tails n

-- At the end of the list the default is that of `int`, whatever the members are.
nth_element-push_back :
    (t : MemberType) (values : List ℤ) (v : ℤ) (n : ℕ)
    → nth_element t (push_back values v) n ≡ (
        if ltb n (size values)
        then nth_element t values n
        else if nat_beq n (size values)
        then v
        else if nat_beq n (suc (size values))
        then default_value int
        else default_value t)
unfolding nth_element push_back size front default_value
nth_element-push_back t [] v zero = refl
nth_element-push_back t [] v (suc zero) = refl
nth_element-push_back t [] v (suc (suc n)) = ground arith
nth_element-push_back t (head ∷ tails) v zero = ground arith
nth_element-push_back t (head ∷ tails) v (suc n) = nth_element-push_back t tails v n ∙ ground arith
