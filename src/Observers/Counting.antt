-- ===== src/Observers/Counting.antt =====
-- Delegates and tasks, counted by their ids (UtilitiesInfra/ObservableStatePublisher.hpp).
use ipcinfra.Prelude.{
  ℕ, zero, suc, ◌+◌, ◌-◌, ◌≤◌, ◌≡◌, refl, ap, Bool, true, false, not, Bool-cases, inl, inr, List,
  [], ◌∷◌, ◌++◌, map, length, drop, drop-all, keep, append-nil, arith, nat_beq, nat_beq_iff,
  if◌then◌else◌,
}
use ipcinfra.Observers.{Task}

-- How often an id stands among the delegates.
abbrev pub count {κ} : {C : Type κ} → ℕ → List (ℕ × C) → ℕ
count id [] = 0
count id (d ∷ ds) = if nat_beq d.0 id then suc (count id ds) else count id ds

abbrev pub told_to : {S : Type 0} {C : Type 0} → ℕ → List (Task S C) → List S
told_to id [] = []
told_to id (task ∷ tasks) =
    if nat_beq task.delegate.0 id then task.told ∷ told_to id tasks else told_to id tasks

module _ {C : Type 0} where
  pub count-append :
      (id : ℕ) (ds es : List (ℕ × C)) → count id (ds ++ es) ≡ count id ds + count id es
  count-append id [] es = omega arith
  count-append id (d ∷ ds) es = ground (arith, count-append id ds es)

  pub count-keep :
      (id j : ℕ) (ds : List (ℕ × C))
      → count id (keep (λ d. not (nat_beq d.0 j)) ds) ≡ (if nat_beq id j then 0 else count id ds)
  count-keep id j [] = ground arith
  count-keep id j (d ∷ ds) =
      ground (arith, count-keep id j ds, nat_beq_iff d.0 j, nat_beq_iff d.0 id, nat_beq_iff id j)

  pub length-keep :
      (j : ℕ) (ds : List (ℕ × C))
      → length (keep (λ d. not (nat_beq d.0 j)) ds) + count j ds ≡ length ds
  length-keep j [] = omega arith
  length-keep j (d ∷ ds) = ground (arith, length-keep j ds)

  pub kept_only :
      (behind : ℕ → List (ℕ × C))
      → ((k : ℕ) → length (behind k) ≡ k)
      → (j : ℕ) (ds : List (ℕ × C)) → count j ds ≤ 1
      → nat_beq 0 (length ds - length (keep (λ d. not (nat_beq d.0 j)) ds)) ≡ false
      → keep (λ d. not (nat_beq d.0 j)) ds
          ++ drop 1 (behind (length ds - length (keep (λ d. not (nat_beq d.0 j)) ds)))
        ≡ keep (λ d. not (nat_beq d.0 j)) ds
  kept_only behind as_many j ds once some_gone =
      let kept = keep (λ d. not (nat_beq d.0 j)) ds in
      let one : length ds - length kept ≡ 1 = ground (arith, length-keep j ds) in
      let none_left : drop 1 (behind (length ds - length kept)) ≡ [] =
        drop-all 1 (behind (length ds - length kept))
          (omega (arith, as_many (length ds - length kept))) in
      rw none_left (append-nil kept)

abbrev pub repeated : {S : Type 0} → ℕ → S → List S
repeated zero value = []
repeated (suc n) value = value ∷ repeated n value

pub repeated-once :
    {S : Type 0} (value : S) (on : Bool) (later : List S)
    → repeated (if on then 1 else 0) value ++ later ≡ (if on then value ∷ later else later)
repeated-once value true later = refl
repeated-once value false later = refl

module _ {S : Type 0} {C : Type 0} where
  pub told_to-append :
      (id : ℕ) (ts us : List (Task S C)) → told_to id (ts ++ us) ≡ told_to id ts ++ told_to id us
  told_to-append id [] us = refl
  told_to-append id (t ∷ ts) us = elim (Bool-cases (nat_beq t.delegate.0 id)) [
    | inl yes_id ↦ rw yes_id (ap (λ (l : List S). t.told ∷ l) (told_to-append id ts us))
    | inr other ↦ rw other (told_to-append id ts us)
  ]

  pub told_to-notified :
      (id : ℕ) (value : S) (ds : List (ℕ × C))
      → told_to id (map (λ d. record { delegate = d; told = value }) ds)
        ≡ repeated (count id ds) value
  told_to-notified id value [] = refl
  told_to-notified id value (d ∷ ds) = elim (Bool-cases (nat_beq d.0 id)) [
    | inl yes_id ↦ rw yes_id (ap (λ (l : List S). value ∷ l) (told_to-notified id value ds))
    | inr other ↦ rw other (told_to-notified id value ds)
  ]
