-- ===== src/LookupTable/Sorted.antt =====
-- shared_lookup_table over std::vector, between taking and releasing its mutex: a vector of pairs
-- that is sorted by key after each insertion.
pub mod Laws
pub mod Removal
use ipcinfra.Prelude.{
  ℕ, Bool, true, false, not, Option, none, some, List, [], ◌∷◌, ◌++◌, map, if◌then◌else◌, length,
  keep, drop,
}
use ipcinfra.Prelude.Classes.{Eq, Ord, ◌==◌}
use ipcinfra.Prelude.Run.{Run, ok, fault, undefined_behaviour}
use ipcinfra.LookupTable.Hash.{found_or}

module _ {ℓ κ} {K : Type ℓ} {V : Type κ} ⦃e : Eq K⦄ ⦃o : Ord K⦄ where
  -- `get_value_position_for`, read through the iterator
  unfoldable pub get_value_position_for : K → List (K × V) → Option V
  get_value_position_for key [] = none
  get_value_position_for key ((j, v) ∷ t) =
      if key == j then some v else get_value_position_for key t

  -- `it->second = v` at the position of the key
  unfoldable pub assign : K → V → List (K × V) → List (K × V)
  assign key v [] = []
  assign key v ((j, w) ∷ t) = if key == j then (j, v) ∷ t else (j, w) ∷ assign key v t

  -- `std::sort` by `pair1.first < pair2.first`
  insert_sorted : K × V → List (K × V) → List (K × V)
  insert_sorted x [] = x ∷ []
  insert_sorted x (y ∷ t) = if o.less y.0 x.0 then y ∷ insert_sorted x t else x ∷ y ∷ t

  unfoldable pub internal_sort : List (K × V) → List (K × V)
  unfolding insert_sorted
  internal_sort [] = []
  internal_sort (x ∷ t) = insert_sorted x (internal_sort t)

  unfoldable pub add_or_update_mapping : K → V → List (K × V) → List (K × V) × Bool
  add_or_update_mapping key mapped_value t = elim (get_value_position_for key t) [
    | some _ ↦ (assign key mapped_value t, true)
    | none ↦ (internal_sort (t ++ (key, mapped_value) ∷ []), true)
  ]

  unfoldable pub value_for : V → K → List (K × V) → V × Bool
  value_for initial key t = found_or initial (get_value_position_for key t)

  -- `std::remove_if`: the pairs kept, moved to the front, and what is left behind them
  abbrev other_than : K → K × V → Bool
  other_than key entry = not (key == entry.0)

  -- `erase` of one iterator, the end of the kept pairs; at the end of the vector it is undefined.
  erase_at_end : List (K × V) → List (K × V) → Run (List (K × V))
  erase_at_end kept [] = fault undefined_behaviour
  erase_at_end kept (left ∷ rest) = ok (kept ++ rest)

  unfoldable pub remove_mapping : K → List (K × V) → Run (List (K × V))
  unfolding erase_at_end
  remove_mapping key [] = ok []
  remove_mapping key (x ∷ t) =
      let kept = keep (other_than key) (x ∷ t) in erase_at_end kept (drop (length kept) (x ∷ t))

  unfoldable pub empty : List (K × V) → Bool
  empty [] = true
  empty (x ∷ t) = false

  unfoldable pub size : List (K × V) → ℕ
  size t = length t

  unfoldable pub get_keys_snapshot : List (K × V) → List K
  get_keys_snapshot t = map (λ entry. entry.0) t

  copy_entry : K → Option V → List (K × V) → List (K × V)
  unfolding add_or_update_mapping
  copy_entry key none subsection = subsection
  copy_entry key (some v) subsection = (add_or_update_mapping key v subsection).0

  subsection_from : List (K × V) → List K → List (K × V) → List (K × V)
  unfolding copy_entry
  subsection_from t [] subsection = subsection
  subsection_from t (key ∷ keys) subsection =
      subsection_from t keys (copy_entry key (get_value_position_for key t) subsection)

  unfoldable pub get_subsection_for : List K → List (K × V) → List (K × V)
  unfolding subsection_from
  get_subsection_for keys t = subsection_from t keys []

  unfoldable pub clear : List (K × V) → List (K × V)
  clear t = []
