-- ===== src/TypeLists/Reaching.antt =====
-- What the dispatch over a type list calls (UtilitiesInfra/runtime_dispatcher.hpp).
use ipcinfra.Prelude.{
  ℕ, zero, suc, ◌+◌, ◌-◌, ◌^◌, ◌<◌, ◌≤◌, ◌≡◌, refl, ap, ◌∙◌, Bool-cases, inl, inr, none, some, List,
  [], ◌∷◌, length, arith, nat_beq, ltb, if◌then◌else◌,
}
use mathlib.Core.Option
use ipcinfra.Prelude.Classes.{Eq, ==_iff}
use ipcinfra.TypeLists.{size, front, nth_element}
use ipcinfra.TypeLists.Dispatch.{
  last_index, call_unless_empty, dispatch_helper, dispatch, dispatch_helper_mapped, dispatch_mapped,
}

module _ {T : Type 0} where
  pub last_index-length :
      (ts : List T) → 0 < length ts → length ts < 2 ^ 64 → last_index ts ≡ length ts - 1
  unfolding last_index size
  last_index-length ts some_type bound = omega arith

  pub nth_element-beyond :
      (empty_type : T) (ts : List T) (n : ℕ)
      → length ts ≤ n
      → nth_element empty_type ts n ≡ empty_type
  unfolding nth_element front
  nth_element-beyond empty_type [] zero h = refl
  nth_element-beyond empty_type [] (suc n) h = refl
  nth_element-beyond empty_type (t ∷ ts) zero h = absurd (omega arith)
  nth_element-beyond empty_type (t ∷ ts) (suc n) h =
      nth_element-beyond empty_type ts n (omega arith)

module _ {T : Type 0} ⦃types : Eq T⦄ where
  -- What is called where the search has come to the n-th type.
  abbrev reached : T → List T → ℕ → ℕ → List T
  reached empty_type ts n tag =
      if ltb tag n then [] else call_unless_empty empty_type (nth_element empty_type ts tag)

  not_called : (empty_type : T) → call_unless_empty empty_type empty_type ≡ []
  unfolding call_unless_empty
  not_called empty_type = rw ((==_iff empty_type empty_type).1 refl) refl

  beyond :
      (empty_type : T) (ts : List T) (tag : ℕ)
      → length ts ≤ tag
      → call_unless_empty empty_type (nth_element empty_type ts tag) ≡ []
  beyond empty_type ts tag h =
      ap (call_unless_empty empty_type) (nth_element-beyond empty_type ts tag h)
      ∙ not_called empty_type

  here_or_later :
      (empty_type : T) (ts : List T) (n tag : ℕ)
      → (if nat_beq n tag
          then call_unless_empty empty_type (nth_element empty_type ts n)
          else reached empty_type ts (n + 1) tag)
        ≡ reached empty_type ts n tag
  here_or_later empty_type ts n tag = ground arith

  here_or_none :
      (empty_type : T) (ts : List T) (n tag : ℕ)
      → length ts ≤ n + 1
      → (if nat_beq n tag then call_unless_empty empty_type (nth_element empty_type ts n) else [])
        ≡ reached empty_type ts n tag
  here_or_none empty_type ts n tag h = ground (arith, beyond empty_type ts tag)

  dispatch_helper-reached :
      (depth : ℕ) (empty_type : T) (ts : List T) (n tag : ℕ)
      → n < length ts
      → length ts ≤ n + depth
      → length ts < 2 ^ 64
      → dispatch_helper depth empty_type ts n tag ≡ some (reached empty_type ts n tag)
  unfolding dispatch_helper
  dispatch_helper-reached zero empty_type ts n tag inside enough bound = absurd (omega arith)
  dispatch_helper-reached (suc depth) empty_type ts n tag inside enough bound =
      elim (Bool-cases (ltb n (last_index ts))) [
        | inl more ↦ rw more (
            ap
              (Option.map (λ calls.
                if nat_beq n tag
                then call_unless_empty empty_type (nth_element empty_type ts n)
                else calls))
              (dispatch_helper-reached depth empty_type ts (n + 1) tag
                (ground (arith, more, last_index-length ts)) (omega arith) bound)
            ∙ ap some (here_or_later empty_type ts n tag))
        | inr last ↦ rw last (
            ap some (here_or_none empty_type ts n tag (ground (arith, last, last_index-length ts))))
      ]

  pub dispatch-nth_element :
      (depth : ℕ) (empty_type : T) (ts : List T) (tag : ℕ)
      → 0 < length ts
      → length ts ≤ depth
      → length ts < 2 ^ 64
      → dispatch depth empty_type ts tag
        ≡ some (call_unless_empty empty_type (nth_element empty_type ts tag))
  unfolding dispatch
  dispatch-nth_element depth empty_type ts tag some_type enough bound =
      dispatch_helper-reached depth empty_type ts 0 tag some_type (omega arith) bound ∙ ground arith

  -- For a list of at least one type, with fewer than 2^64 types and no more than the compiler's
  -- depth of templates, dispatch_mapped calls the first type if the mapping gives it the tag;
  -- else it calls the type at the position that the tag is, if that is not the first and not
  -- empty_type, whatever the mapping gives that type.
  pub dispatch_mapped-Forgets :
      (depth : ℕ) (empty_type : T) (type_to_tag : T → ℕ) (t : T) (ts : List T) (tag : ℕ)
      → length (t ∷ ts) ≤ depth
      → length (t ∷ ts) < 2 ^ 64
      → dispatch_mapped depth empty_type type_to_tag (t ∷ ts) tag
        ≡ some (
            if nat_beq (type_to_tag t) tag
            then call_unless_empty empty_type t
            else if nat_beq tag 0
            then []
            else call_unless_empty empty_type (nth_element empty_type (t ∷ ts) tag))
  unfolding dispatch_mapped dispatch_helper_mapped nth_element front
  dispatch_mapped-Forgets zero empty_type type_to_tag t ts tag enough bound = absurd (omega arith)
  dispatch_mapped-Forgets (suc depth) empty_type type_to_tag t ts tag enough bound =
      elim (Bool-cases (ltb 0 (last_index (t ∷ ts)))) [
        | inl more ↦ rw more (
            ap
              (Option.map (λ calls.
                if nat_beq (type_to_tag t) tag then call_unless_empty empty_type t else calls))
              (dispatch_helper-reached depth empty_type (t ∷ ts) 1 tag
                (ground (arith, more, last_index-length (t ∷ ts))) (omega arith) bound)
            ∙ ground arith)
        | inr last ↦
            rw last
              (ground (arith, last, last_index-length (t ∷ ts), beyond empty_type (t ∷ ts) tag))
      ]

  none-dispatched_from :
      (depth : ℕ) (empty_type : T) (n tag : ℕ)
      → n + depth < 2 ^ 64
      → dispatch_helper depth empty_type [] n tag ≡ none
  unfolding dispatch_helper last_index size
  none-dispatched_from zero empty_type n tag bound = refl
  none-dispatched_from (suc depth) empty_type n tag bound =
      rw (none-dispatched_from depth empty_type (n + 1) tag (omega arith)) (ground arith)

  -- Without types the search passes over all positions of `std::size_t`.
  pub dispatch-empty :
      (depth : ℕ) (empty_type : T) (tag : ℕ)
      → depth < 2 ^ 64
      → dispatch depth empty_type [] tag ≡ none
  unfolding dispatch
  dispatch-empty depth empty_type tag bound =
      none-dispatched_from depth empty_type 0 tag (omega arith)
