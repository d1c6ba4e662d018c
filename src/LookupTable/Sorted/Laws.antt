-- ===== src/LookupTable/Sorted/Laws.antt =====
-- The sorted table as a map from keys to values, and the order that it keeps.
use ipcinfra.Prelude.{
  ◌≡◌, refl, Bool, true, none, some, List, [], ◌∷◌, ◌++◌, arith, if◌then◌else◌, Bool-cases,
  Option-cases, inl, inr, ap, ◌∙◌, keep,
}
use ipcinfra.Prelude.Classes.{Eq, Ord, ◌==◌, ==_iff}
use ipcinfra.LookupTable.Sorted.{
  get_value_position_for, assign, insert_sorted, internal_sort, add_or_update_mapping, other_than,
}

module _ {ℓ κ} {K : Type ℓ} {V : Type κ} ⦃e : Eq K⦄ ⦃o : Ord K⦄ where
  abbrev pub AllAbove : K → List (K × V) → Type 0
  AllAbove k [] = Unit
  AllAbove k ((j, v) ∷ t) = (o.less k j ≡ true) × AllAbove k t

  -- Strictly ascending keys.
  abbrev pub IsSorted : List (K × V) → Type 0
  IsSorted [] = Unit
  IsSorted ((k, v) ∷ t) = AllAbove k t × IsSorted t

  AllAbove-trans : (i k : K) (t : List (K × V)) → o.less i k ≡ true → AllAbove k t → AllAbove i t
  AllAbove-trans i k [] h a = tt
  AllAbove-trans i k ((j, v) ∷ t) h a = (o.less_trans i k j h a.0, AllAbove-trans i k t h a.1)

  -- A key below all others does not stand among them.
  pub AllAbove-absent :
      (k : K) (t : List (K × V)) → AllAbove k t → get_value_position_for k t ≡ none
  unfolding get_value_position_for
  AllAbove-absent k [] a = refl
  AllAbove-absent k ((j, v) ∷ t) a =
      ground (arith, AllAbove-absent k t a.1, ==_iff k j, o.less_irrefl k)

  assign-AllAbove : (i k : K) (v : V) (t : List (K × V)) → AllAbove i t → AllAbove i (assign k v t)
  unfolding assign
  assign-AllAbove i k v [] a = tt
  assign-AllAbove i k v ((j, w) ∷ t) a = ground (arith, assign-AllAbove i k v t a.1)

  assign-IsSorted : (k : K) (v : V) (t : List (K × V)) → IsSorted t → IsSorted (assign k v t)
  unfolding assign
  assign-IsSorted k v [] s = tt
  assign-IsSorted k v ((j, w) ∷ t) s =
      ground (arith, assign-IsSorted k v t s.1, assign-AllAbove j k v t s.0)

  find-assign :
      (k j : K) (v : V) (t : List (K × V)) {old : V}
      → get_value_position_for k t ≡ some old
      → get_value_position_for j (assign k v t)
        ≡ (if j == k then some v else get_value_position_for j t)
  unfolding get_value_position_for assign
  find-assign k j v [] h = cc
  find-assign k j v ((i, w) ∷ t) {old = old} h =
      ground (arith, find-assign k j v t {old = old}, ==_iff j k, ==_iff k i, ==_iff j i)

  insert_sorted-AllAbove :
      (i k : K) (v : V) (t : List (K × V))
      → o.less i k ≡ true
      → AllAbove i t
      → AllAbove i (insert_sorted (k, v) t)
  unfolding insert_sorted
  insert_sorted-AllAbove i k v [] h a = (h, tt)
  insert_sorted-AllAbove i k v ((j, w) ∷ t) h a =
      ground (arith, insert_sorted-AllAbove i k v t h a.1)

  insert_sorted-IsSorted :
      (k : K) (v : V) (t : List (K × V))
      → get_value_position_for k t ≡ none
      → IsSorted t
      → IsSorted (insert_sorted (k, v) t)
  unfolding get_value_position_for insert_sorted
  insert_sorted-IsSorted k v [] h s = (tt, tt)
  insert_sorted-IsSorted k v ((j, w) ∷ t) h s = ground (
    arith,
    insert_sorted-IsSorted k v t,
    insert_sorted-AllAbove j k v t,
    AllAbove-trans k j t,
    o.less_total j k,
    ==_iff k j,
  )

  find-insert_sorted :
      (k j : K) (v : V) (t : List (K × V))
      → get_value_position_for k t ≡ none
      → get_value_position_for j (insert_sorted (k, v) t)
        ≡ (if j == k then some v else get_value_position_for j t)
  unfolding get_value_position_for insert_sorted
  find-insert_sorted k j v [] h = refl
  find-insert_sorted k j v ((i, w) ∷ t) h =
      ground (arith, find-insert_sorted k j v t, ==_iff j k, ==_iff k i, ==_iff j i)

  insert_sorted_above :
      (k : K) (v : V) (t : List (K × V)) → AllAbove k t → insert_sorted (k, v) t ≡ (k, v) ∷ t
  unfolding insert_sorted
  insert_sorted_above k v [] a = refl
  insert_sorted_above k v ((j, w) ∷ t) a = ground (arith, o.less_trans k j k, o.less_irrefl k)

  -- Sorting a sorted vector with one new pair behind it puts the pair in its place.
  internal_sort-append :
      (k : K) (v : V) (t : List (K × V))
      → get_value_position_for k t ≡ none
      → IsSorted t
      → internal_sort (t ++ (k, v) ∷ []) ≡ insert_sorted (k, v) t
  unfolding internal_sort get_value_position_for
  internal_sort-append k v [] h s = insert_sorted_above k v [] tt
  internal_sort-append k v ((j, w) ∷ t) h s =
      let absent : get_value_position_for k t ≡ none = ground arith in
      rw (internal_sort-append k v t absent s.1) (elim (Bool-cases (o.less j k)) [
        | inl below ↦
            insert_sorted_above j w _ (insert_sorted-AllAbove j k v t below s.0)
            ∙ unfold insert_sorted in rw below
        | inr above ↦
            let up : o.less k j ≡ true = ground (arith, o.less_total j k, ==_iff k j) in
            rw (insert_sorted_above k v t (AllAbove-trans k j t up s.0)) (
              unfold insert_sorted in
              rw (up, above) (ap (◌∷◌ (k, v)) (insert_sorted_above j w t s.0)))
      ])

  abbrev pub Adds : K → V → List (K × V) → List (K × V) × Bool → Type (ℓ ⊔ κ)
  Adds k v t r =
      IsSorted r.0
      × (r.1 ≡ true)
      × ((j : K)
          → get_value_position_for j r.0 ≡ (if j == k then some v else get_value_position_for j t))

  -- On a sorted table, add_or_update_mapping keeps the keys strictly ascending, answers true, and
  -- maps the key to the value and every other key to what it had.
  pub add_or_update_mapping-IsSorted :
      (k : K) (v : V) (t : List (K × V)) → IsSorted t → Adds k v t (add_or_update_mapping k v t)
  unfolding add_or_update_mapping
  add_or_update_mapping-IsSorted k v t s = elim (Option-cases (get_value_position_for k t)) [
    | inl absent ↦
        rw (absent, add_or_update_mapping)
          (
            rw (internal_sort-append k v t absent s) (insert_sorted-IsSorted k v t absent s),
            refl,
            λ j. rw (internal_sort-append k v t absent s) (find-insert_sorted k j v t absent),
          )
    | inr (old, e) ↦
        rw (e, add_or_update_mapping)
          (assign-IsSorted k v t s, refl, λ j. find-assign k j v t {old = old} e)
  ]

  -- The key's own pair, taken out.
  abbrev pub erased : K → List (K × V) → List (K × V)
  erased k t = keep (other_than k) t

  pub keep_above : (k : K) (t : List (K × V)) → get_value_position_for k t ≡ none → erased k t ≡ t
  unfolding get_value_position_for
  keep_above k [] h = refl
  keep_above k ((j, w) ∷ t) h = ground (arith, keep_above k t)
