-- ===== src/LookupTable/Sorted/Removal.antt =====
-- remove_mapping of the sorted table: where it is defined, and what it leaves.
use ipcinfra.Prelude.{
  ℕ, zero, suc, ◌+◌, ◌≡◌, ◌≢◌, refl, none, some, List, [], ◌∷◌, arith, length, if◌then◌else◌,
  Bool-cases, inl, inr, ap, drop, append-nil,
}
use ipcinfra.Prelude.Classes.{Eq, Ord, ◌==◌, ==_iff}
use ipcinfra.Prelude.Run.{Run, ok, fault, undefined_behaviour}
use ipcinfra.LookupTable.Sorted.{get_value_position_for, erase_at_end, remove_mapping}
use ipcinfra.LookupTable.Sorted.Laws.{AllAbove, IsSorted, AllAbove-absent, erased, keep_above}

drop_last {ℓ} : {A : Type ℓ} (n : ℕ) (t : List A) → n + 1 ≡ length t → (x : A) × (drop n t ≡ x ∷ [])
drop_last n [] h = absurd (omega arith)
drop_last zero (x ∷ []) h = (x, refl)
drop_last zero (x ∷ y ∷ t) h = absurd (omega arith)
drop_last (suc n) (x ∷ t) h = drop_last n t (omega arith)

drop_all {ℓ} : {A : Type ℓ} (t : List A) → drop (length t) t ≡ []
drop_all [] = refl
drop_all (x ∷ t) = drop_all t

module _ {ℓ κ} {K : Type ℓ} {V : Type κ} ⦃e : Eq K⦄ ⦃o : Ord K⦄ where
  length-erased :
      (k : K) (t : List (K × V)) {v : V}
      → IsSorted t
      → get_value_position_for k t ≡ some v
      → length (erased k t) + 1 ≡ length t
  unfolding get_value_position_for
  length-erased k [] s h = cc
  length-erased k ((j, w) ∷ t) {v = v} s h = elim (Bool-cases (k == j)) [
    | inl hit ↦
        let absent : get_value_position_for k t ≡ none =
          rw ((==_iff k j).0 hit) (AllAbove-absent j t s.0) in
        ground (arith, ap length (keep_above k t absent))
    | inr miss ↦ ground (arith, length-erased k t {v = v} s.1)
  ]

  find-erased :
      (k j : K) (t : List (K × V))
      → get_value_position_for j (erased k t)
        ≡ (if j == k then none else get_value_position_for j t)
  unfolding get_value_position_for
  find-erased k j [] = ground arith
  find-erased k j ((i, w) ∷ t) =
      ground (arith, find-erased k j t, ==_iff j k, ==_iff k i, ==_iff j i)

  erased-AllAbove : (i k : K) (t : List (K × V)) → AllAbove i t → AllAbove i (erased k t)
  erased-AllAbove i k [] a = tt
  erased-AllAbove i k ((j, w) ∷ t) a = ground (arith, erased-AllAbove i k t a.1)

  erased-IsSorted : (k : K) (t : List (K × V)) → IsSorted t → IsSorted (erased k t)
  erased-IsSorted k [] s = tt
  erased-IsSorted k ((j, w) ∷ t) s =
      ground (arith, erased-IsSorted k t s.1, erased-AllAbove j k t s.0)

  abbrev pub Removes : K → List (K × V) → Run (List (K × V)) → Type (ℓ ⊔ κ)
  Removes k t r =
      (t' : List (K × V)) × (r ≡ ok t')
      × IsSorted t'
      × ((j : K)
          → get_value_position_for j t' ≡ (if j == k then none else get_value_position_for j t))

  remove_mapping_kept :
      (k : K) (t : List (K × V)) {v : V}
      → IsSorted t
      → get_value_position_for k t ≡ some v
      → remove_mapping k t ≡ ok (erased k t)
  unfolding remove_mapping get_value_position_for
  remove_mapping_kept k [] s h = cc
  remove_mapping_kept k (x ∷ t) {v = v} s h =
      let (left, tail) =
        drop_last (length (erased k (x ∷ t))) (x ∷ t) (length-erased k (x ∷ t) {v = v} s h) in
      rw (tail, erase_at_end) (rw append-nil)

  -- On a sorted table that holds the key, remove_mapping returns a sorted table in which the key
  -- has no value and every other key has what it had.
  pub remove_mapping-Removes :
      (k : K) (t : List (K × V)) {v : V}
      → IsSorted t
      → get_value_position_for k t ≡ some v
      → Removes k t (remove_mapping k t)
  remove_mapping-Removes k t {v = v} s h = (
    erased k t,
    remove_mapping_kept k t {v = v} s h,
    erased-IsSorted k t s,
    λ j. find-erased k j t,
  )

  -- On a table over a vector that is not empty and does not hold the key, remove_mapping has
  -- undefined behaviour.
  pub remove_mapping_absent :
      (k : K) (t : List (K × V))
      → get_value_position_for k t ≡ none
      → t ≢ []
      → remove_mapping k t ≡ fault undefined_behaviour
  unfolding remove_mapping erase_at_end
  remove_mapping_absent k [] h nonempty = absurd (nonempty refl)
  remove_mapping_absent k (x ∷ t) h nonempty =
      let same = keep_above k (x ∷ t) h in rw (same, erase_at_end) (rw (drop_all t, erase_at_end))
