-- ===== src/LookupTable/Operations.antt =====
-- container_operations: the loops over a table that both containers have. What the caller's
-- function changes besides the table is the state `s`, passed from one entry to the next.
pub mod Laws
use ipcinfra.Prelude.{Bool, true, false, List, [], ◌∷◌, map, if◌then◌else◌}
use ipcinfra.Prelude.Classes.{Eq}
use ipcinfra.LookupTable.Hash
use ipcinfra.Prelude.Run.{Run, ok, ◌>>=◌}

module _ {ℓ κ μ} {K : Type ℓ} {V : Type κ} {S : Type μ} where
  unfoldable pub for_each : (K × V → S → S) → S → List (K × V) → S
  for_each f s [] = s
  for_each f s (entry ∷ t) = for_each f (f entry s) t

  -- The first loop of `remove_if`, which fills `removed_keys`.
  unfoldable pub removed_keys : (K × V → S → Bool × S) → S → List (K × V) → List K × S
  removed_keys pred s [] = ([], s)
  removed_keys pred s (entry ∷ t) =
      let (hit, s') = pred entry s in
      let (keys, last) = removed_keys pred s' t in (if hit then entry.0 ∷ keys else keys, last)

-- `removeMapping` of the unordered table, which always succeeds
unfoldable pub hash_remove {ℓ κ} :
    {K : Type ℓ} {V : Type κ} ⦃e : Eq K⦄ → K → List (K × V) → Run (List (K × V))
hash_remove key t = ok (Hash.remove_mapping key t)

-- The second loop, over `removed_keys`; `remove` is the table's `remove_mapping`.
unfoldable pub remove_each {ℓ κ} : {K : Type ℓ} {C : Type κ} → (K → C → Run C) → List K → C → Run C
remove_each remove [] c = ok c
remove_each remove (key ∷ keys) c = remove key c >>= remove_each remove keys

unfoldable pub remove_if {ℓ κ μ} :
    {K : Type ℓ} {V : Type κ} {S : Type μ}
    → (K → List (K × V) → Run (List (K × V)))
    → (K × V → S → Bool × S)
    → S
    → List (K × V)
    → Run (List (K × V) × S)
unfolding removed_keys remove_each
remove_if remove pred s t =
    let (keys, s') = removed_keys pred s t in do t' ← remove_each remove keys t; ok (t', s')

module _ {ℓ κ} {K : Type ℓ} {V : Type κ} where
  -- `initial` is `mapped_t()`.
  unfoldable pub find_if : V → (K × V → Bool) → List (K × V) → V × Bool
  find_if initial pred [] = (initial, false)
  find_if initial pred (entry ∷ t) = if pred entry then (entry.1, true) else find_if initial pred t

  -- `update` is given the entry to change; the keys are const.
  unfoldable pub update_if : (K × V → Bool) → (K × V → V) → List (K × V) → List (K × V)
  update_if pred update [] = []
  update_if pred update (entry ∷ t) =
      (if pred entry then (entry.0, update entry) else entry) ∷ update_if pred update t
