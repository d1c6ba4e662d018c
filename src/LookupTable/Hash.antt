-- ===== src/LookupTable/Hash.antt =====
-- shared_lookup_table over std::unordered_map, between taking and releasing its mutex. The entries
-- stand in iteration order, which the container leaves open: a new one goes to the end.
pub mod Laws
use ipcinfra.Prelude.{
  ℕ, Bool, true, false, Option, none, some, List, [], ◌∷◌, map, if◌then◌else◌, length,
}
use ipcinfra.Prelude.Classes.{Eq, ◌==◌}

-- A value and whether it was found; `initial` is `mapped_type()`.
abbrev pub found_or {κ} : {V : Type κ} → V → Option V → V × Bool
found_or initial none = (initial, false)
found_or initial (some v) = (v, true)

module _ {ℓ κ} {K : Type ℓ} {V : Type κ} ⦃e : Eq K⦄ where
  -- `internal_container.find(key)`, read through the iterator
  unfoldable pub find : K → List (K × V) → Option V
  find k [] = none
  find k ((j, v) ∷ t) = if j == k then some v else find k t

  -- `insert_or_assign`: the flag says that the key is new
  unfoldable pub insert_or_assign : K → V → List (K × V) → List (K × V) × Bool
  insert_or_assign k v [] = ((k, v) ∷ [], true)
  insert_or_assign k v ((j, w) ∷ t) =
      let (t', fresh) = insert_or_assign k v t in
      if j == k then ((j, v) ∷ t, false) else ((j, w) ∷ t', fresh)

  unfoldable pub erase : K → List (K × V) → List (K × V)
  erase k [] = []
  erase k ((j, v) ∷ t) = if j == k then erase k t else (j, v) ∷ erase k t

  unfoldable pub add_or_update_mapping : K → V → List (K × V) → List (K × V) × Bool
  add_or_update_mapping key mapped_value t = insert_or_assign key mapped_value t

  unfoldable pub value_for : V → K → List (K × V) → V × Bool
  value_for initial key t = found_or initial (find key t)

  unfoldable pub remove_mapping : K → List (K × V) → List (K × V)
  remove_mapping key t = erase key t

  unfoldable pub empty : List (K × V) → Bool
  empty [] = true
  empty (x ∷ t) = false

  unfoldable pub size : List (K × V) → ℕ
  size t = length t

  unfoldable pub get_keys_snapshot : List (K × V) → List K
  get_keys_snapshot t = map (λ entry. entry.0) t

  copy_entry : K → Option V → List (K × V) → List (K × V)
  copy_entry key none subsection = subsection
  copy_entry key (some v) subsection = (insert_or_assign key v subsection).0

  subsection_from : List (K × V) → List K → List (K × V) → List (K × V)
  unfolding copy_entry
  subsection_from t [] subsection = subsection
  subsection_from t (key ∷ keys) subsection =
      subsection_from t keys (copy_entry key (find key t) subsection)

  unfoldable pub get_subsection_for : List K → List (K × V) → List (K × V)
  unfolding subsection_from
  get_subsection_for keys t = subsection_from t keys []

  unfoldable pub clear : List (K × V) → List (K × V)
  clear t = []
