-- ===== src/TypeLists/Erasing.antt =====
-- The two erasures of types, and the removal of duplicates, against references
-- (UtilitiesInfra/typelist.hpp).
use ipcinfra.Prelude.{
  ℕ, zero, suc, ◌≤◌, ◌≡◌, refl, sym, ap, ◌∙◌, Bool, true, not, ◌&&◌, Bool-cases, inl, inr, List, [],
  ◌∷◌, length, arith, if◌then◌else◌,
}
use ipcinfra.Prelude.Classes.{Eq, ◌==◌, ==_iff}
use ipcinfra.TypeLists.{
  push_front, concat, zero_or_one, filter, erase_rec, contains, erase, remove_duplicates_in,
  remove_duplicates,
}

module _ {T : Type 0} ⦃types : Eq T⦄ where
  pub erase-erase_rec : (ts : List T) (element : T) → erase ts element ≡ erase_rec ts element
  unfolding erase erase_rec filter concat zero_or_one push_front
  erase-erase_rec [] element = refl
  erase-erase_rec (head ∷ tails) element = elim (Bool-cases (head == element)) [
    | inl same ↦ rw same (erase-erase_rec tails element)
    | inr other ↦ rw other (ap (λ (l : List T). head ∷ l) (erase-erase_rec tails element))
  ]

  -- The first of each type, in their order; `seen` are those passed already.
  abbrev pub firsts : List T → List T → List T
  firsts seen [] = []
  firsts seen (t ∷ ts) = if contains seen t then firsts seen ts else t ∷ firsts (t ∷ seen) ts

  -- What is left where the types seen are erased.
  abbrev without : List T → List T → List T
  without seen [] = []
  without seen (t ∷ ts) = if contains seen t then without seen ts else t ∷ without seen ts

  ==_swap : (t u : T) → (t == u) ≡ (u == t)
  ==_swap t u = ground (arith, ==_iff t u, ==_iff u t)

  erase_rec-without :
      (t : T) (seen ts : List T) → erase_rec (without seen ts) t ≡ without (t ∷ seen) ts
  unfolding erase_rec contains push_front
  erase_rec-without t seen [] = refl
  erase_rec-without t seen (u ∷ ts) =
      let rest = erase_rec-without t seen ts in
      elim (Bool-cases (contains seen u)) [
        | inl passed ↦ elim (Bool-cases (t == u)) [
          | inl same ↦ rw (passed, same) rest
          | inr other ↦ rw (passed, other) rest
        ]
        | inr new ↦ elim (Bool-cases (u == t)) [
          | inl same ↦ rw (new, ==_swap t u, same) rest
          | inr other ↦ rw (new, ==_swap t u, other) (ap (λ (l : List T). u ∷ l) rest)
        ]
      ]

  none_left : (n : ℕ) → remove_duplicates_in {T = T} n [] ≡ []
  unfolding remove_duplicates_in
  none_left zero = refl
  none_left (suc n) = refl

  firsts-without :
      (ts seen : List T) (n : ℕ)
      → length ts ≤ n
      → remove_duplicates_in n (without seen ts) ≡ firsts seen ts
  unfolding remove_duplicates_in push_front
  firsts-without [] seen n h = none_left n
  firsts-without (t ∷ ts) seen zero h = absurd (omega arith)
  firsts-without (t ∷ ts) seen (suc n) h = elim (Bool-cases (contains seen t)) [
    | inl passed ↦ rw passed (firsts-without ts seen (suc n) (omega arith))
    | inr new ↦ rw new (
        ap (λ (l : List T). t ∷ l)
          (ap (remove_duplicates_in n)
              (erase-erase_rec (without seen ts) t ∙ erase_rec-without t seen ts)
            ∙ firsts-without ts (t ∷ seen) n (omega arith)))
  ]

  without-none : (ts : List T) → without [] ts ≡ ts
  unfolding contains
  without-none [] = refl
  without-none (t ∷ ts) = ap (λ (l : List T). t ∷ l) (without-none ts)

  -- remove_duplicates of a list of types is the list of the first occurrences of its types, in
  -- their order.
  pub remove_duplicates-firsts : (ts : List T) → remove_duplicates ts ≡ firsts [] ts
  unfolding remove_duplicates
  remove_duplicates-firsts ts =
      ap (remove_duplicates_in (length ts)) (sym (without-none ts))
      ∙ firsts-without ts [] (length ts) (omega arith)

  pub contains-filter :
      (pred : T → Bool) (ts : List T) (t : T)
      → contains (filter pred ts true) t ≡ (contains ts t && pred t)
  unfolding filter concat zero_or_one contains
  contains-filter pred [] t = refl
  contains-filter pred (head ∷ tails) t =
      let rest = contains-filter pred tails t in
      elim (Bool-cases (pred head)) [
        | inl kept ↦ rw kept (grind (arith, rest, kept, ==_iff head t))
        | inr left ↦ rw left (grind (arith, rest, left, ==_iff head t))
      ]

  -- An erased type is gone, and no other.
  pub contains-erase_rec :
      (ts : List T) (element t : T)
      → contains (erase_rec ts element) t ≡ (not (element == t) && contains ts t)
  unfolding erase_rec contains push_front
  contains-erase_rec [] element t = ground arith
  contains-erase_rec (head ∷ tails) element t = ground (
    arith,
    contains-erase_rec tails element t,
    ==_iff head element,
    ==_iff head t,
    ==_iff element t,
  )

  pub contains-firsts :
      (ts seen : List T) (t : T)
      → contains (firsts seen ts) t ≡ (not (contains seen t) && contains ts t)
  unfolding contains
  contains-firsts [] seen t = ground arith
  contains-firsts (head ∷ tails) seen t =
      grind
        (arith, contains-firsts tails seen t, contains-firsts tails (head ∷ seen) t, ==_iff head t)
