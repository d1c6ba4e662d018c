-- ===== src/LookupTable/Operations/Laws.antt =====
-- remove_if, update_if and find_if over the unordered table, read through `find`.
use ipcinfra.Prelude.{
  ◌≡◌, refl, Bool, false, Option, none, some, List, [], ◌∷◌, arith, if◌then◌else◌, Bool-cases, inl,
  inr, ◌∙◌,
}
use ipcinfra.Prelude.Classes.{Eq, ◌==◌, ==_iff, ==_refl}
use ipcinfra.Prelude.Run.{ok, ◌>>=◌}
use ipcinfra.LookupTable.Hash.{find, remove_mapping, erase}
use ipcinfra.LookupTable.Hash.Laws.{find-erase, IsUnique, erase-IsUnique, contains}
use ipcinfra.LookupTable.Operations.{removed_keys, hash_remove, remove_each, remove_if}

module _ {ℓ κ} {K : Type ℓ} {V : Type κ} ⦃e : Eq K⦄ where
  -- All the keys, taken out one after the other.
  pub without : List K → List (K × V) → List (K × V)
  without [] t = t
  without (k ∷ keys) t = without keys (erase k t)

  pub remove_each-without :
      (keys : List K) (t : List (K × V)) → remove_each hash_remove keys t ≡ ok (without keys t)
  unfolding remove_each without hash_remove remove_mapping
  remove_each-without [] t = refl
  remove_each-without (k ∷ keys) t = remove_each-without keys (erase k t)

  pub find-without :
      (keys : List K) (t : List (K × V)) (j : K)
      → find j (without keys t) ≡ (if contains keys j then none else find j t)
  unfolding without
  find-without [] t j = refl
  find-without (k ∷ keys) t j = ground (arith, find-without keys (erase k t) j, find-erase k j t)

  pub without-IsUnique : (keys : List K) (t : List (K × V)) → IsUnique t → IsUnique (without keys t)
  unfolding without
  without-IsUnique [] t u = u
  without-IsUnique (k ∷ keys) t u = without-IsUnique keys (erase k t) (erase-IsUnique k t u)

  -- A value that passes the test under its key.
  abbrev pub meets : (K × V → Bool) → K → Option V → Bool
  meets pred j none = false
  meets pred j (some v) = pred (j, v)

  abbrev pub pure_test : (K × V → Bool) → K × V → Unit {0} → Bool × Unit {0}
  pure_test pred entry s = (pred entry, s)

  contains-removed_keys :
      (pred : K × V → Bool) (t : List (K × V)) (j : K)
      → IsUnique t
      → contains (removed_keys (pure_test pred) tt t).0 j ≡ meets pred j (find j t)
  unfolding removed_keys find
  contains-removed_keys pred [] j u = refl
  contains-removed_keys pred ((k, v) ∷ t) j u = elim (Bool-cases (k == j)) [
    | inl hit ↦
        rw (← (==_iff k j).0 hit)
          (rw (==_refl k) (ground (arith, contains-removed_keys pred t k u.1, ==_refl k)))
    | inr miss ↦ ground (arith, contains-removed_keys pred t j u.1)
  ]

  -- On an unordered table without repeated keys, remove_if with a test that changes no state
  -- returns, leaves no repeated key, and takes out exactly the keys whose entry passes the test.
  pub remove_if_lem :
      (pred : K × V → Bool) (t : List (K × V))
      → IsUnique t
      → (t' : List (K × V)) × (remove_if hash_remove (pure_test pred) tt t ≡ ok (t', tt))
        × IsUnique t'
        × ((j : K) → find j t' ≡ (if meets pred j (find j t) then none else find j t))
  unfolding remove_if
  remove_if_lem pred t u =
      let keys = (removed_keys (pure_test pred) tt t).0 in
      (
        without keys t,
        rw (remove_each-without keys t, ◌>>=◌),
        without-IsUnique keys t u,
        λ j. find-without keys t j ∙ rw (contains-removed_keys pred t j u),
      )
