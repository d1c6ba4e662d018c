-- ===== src/LookupTable/Hash/Laws.antt =====
-- The unordered table as a map from keys to values: its operations, read through `find`.
use ipcinfra.Prelude.{
  ◌≡◌, refl, ap, ◌∙◌, Bool, true, false, not, ◌||◌, ◌&&◌, Option, none, some, List, [], ◌∷◌, arith,
  if◌then◌else◌, Option-cases, inl, inr,
}
use ipcinfra.Prelude.Classes.{Eq, ◌==◌, ==_iff, ==_refl}
use ipcinfra.LookupTable.Hash.{
  find, insert_or_assign, erase, add_or_update_mapping, subsection_from, copy_entry,
  get_subsection_for,
}

abbrev pub is_some {ℓ} : {A : Type ℓ} → Option A → Bool
is_some none = false
is_some (some a) = true

abbrev pub contains {ℓ} : {K : Type ℓ} ⦃e : Eq K⦄ → List K → K → Bool
contains [] j = false
contains (k ∷ keys) j = k == j || contains keys j

module _ {ℓ κ} {K : Type ℓ} {V : Type κ} ⦃e : Eq K⦄ where
  -- No key stands twice, as std::unordered_map guarantees.
  abbrev pub IsUnique : List (K × V) → Type κ
  IsUnique [] = Unit
  IsUnique ((k, v) ∷ t) = (find k t ≡ none) × IsUnique t

  pub find-insert_or_assign :
      (k j : K) (v : V) (t : List (K × V))
      → find j (insert_or_assign k v t).0 ≡ (if k == j then some v else find j t)
  unfolding find insert_or_assign
  find-insert_or_assign k j v [] = refl
  find-insert_or_assign k j v ((i, w) ∷ t) =
      ground (arith, find-insert_or_assign k j v t, ==_iff k j, ==_iff i k, ==_iff i j)

  pub find-assigned :
      (k : K) (v : V) (t : List (K × V)) → find k (insert_or_assign k v t).0 ≡ some v
  find-assigned k v t =
      find-insert_or_assign k k v t ∙ ap (λ (b : Bool). if b then some v else find k t) (==_refl k)

  pub insert_or_assign-fresh :
      (k : K) (v : V) (t : List (K × V)) → (insert_or_assign k v t).1 ≡ not (is_some (find k t))
  unfolding find insert_or_assign
  insert_or_assign-fresh k v [] = refl
  insert_or_assign-fresh k v ((i, w) ∷ t) = ground (arith, insert_or_assign-fresh k v t)

  pub find-erase :
      (k j : K) (t : List (K × V)) → find j (erase k t) ≡ (if k == j then none else find j t)
  unfolding find erase
  find-erase k j [] = ground arith
  find-erase k j ((i, w) ∷ t) = ground (arith, find-erase k j t, ==_iff k j, ==_iff i k, ==_iff i j)

  pub insert_or_assign-IsUnique :
      (k : K) (v : V) (t : List (K × V)) → IsUnique t → IsUnique (insert_or_assign k v t).0
  unfolding find insert_or_assign
  insert_or_assign-IsUnique k v [] u = (refl, tt)
  insert_or_assign-IsUnique k v ((i, w) ∷ t) u = ground (
    arith,
    insert_or_assign-IsUnique k v t u.1,
    find-insert_or_assign k i v t,
    ==_iff k i,
    ==_iff i k,
  )

  pub erase-IsUnique : (k : K) (t : List (K × V)) → IsUnique t → IsUnique (erase k t)
  unfolding erase
  erase-IsUnique k [] u = tt
  erase-IsUnique k ((i, w) ∷ t) u = ground (arith, erase-IsUnique k t u.1, find-erase k i t)

  abbrev pub Adds : K → V → List (K × V) → List (K × V) × Bool → Type (ℓ ⊔ κ)
  Adds k v t r =
      IsUnique r.0
      × (r.1 ≡ not (is_some (find k t)))
      × ((j : K) → find j r.0 ≡ (if k == j then some v else find j t))

  -- On an unordered table without repeated keys, add_or_update_mapping leaves none, answers true
  -- exactly if the key was absent, and maps the key to the value and every other key to what it
  -- had.
  pub add_or_update_mapping-Adds :
      (k : K) (v : V) (t : List (K × V)) → IsUnique t → Adds k v t (add_or_update_mapping k v t)
  unfolding add_or_update_mapping
  add_or_update_mapping-Adds k v t u = (
    insert_or_assign-IsUnique k v t u,
    insert_or_assign-fresh k v t,
    λ j. find-insert_or_assign k j v t,
  )

  find-subsection_from :
      (t : List (K × V)) (keys : List K) (s : List (K × V)) (j : K)
      → find j (subsection_from t keys s)
        ≡ (if contains keys j && is_some (find j t) then find j t else find j s)
  unfolding subsection_from
  find-subsection_from t [] s j = refl
  find-subsection_from t (k ∷ keys) s j = elim (Option-cases (find k t)) [
    | inl absent ↦
        rw (absent, copy_entry) (ground (arith, find-subsection_from t keys s j, ==_iff k j))
    | inr (v, e) ↦
        rw (e, copy_entry)
          (ground (
            arith,
            find-subsection_from t keys (insert_or_assign k v s).0 j,
            find-insert_or_assign k j v s,
            ==_iff k j,
          ))
  ]

  -- In the subsection of an unordered table for some keys, a key among them has the value that it
  -- has in the table, and any other key has none.
  pub find-get_subsection_for :
      (keys : List K) (t : List (K × V)) (j : K)
      → find j (get_subsection_for keys t) ≡ (if contains keys j then find j t else none)
  unfolding get_subsection_for find
  find-get_subsection_for keys t j = ground (arith, find-subsection_from t keys [] j)
