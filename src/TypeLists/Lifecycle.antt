-- ===== src/TypeLists/Lifecycle.antt =====
-- The policies that are initialised, and what is left of undoing them
-- (UtilitiesInfra/policies_initializer.hpp).
use ipcinfra.Prelude.{
  ℕ, zero, suc, ◌+◌, ◌-◌, ◌^◌, ◌<◌, ◌≤◌, ◌≡◌, refl, ap, ◌∙◌, Bool, true, false, Bool-cases,
  Option-cases, none, inl, inr, some, List, [], ◌∷◌, length, take, drop, drop-all, arith, ltb,
  if◌then◌else◌,
}
use mathlib.Core.Option
use ipcinfra.Prelude.Classes.{Eq, ◌==◌, ==_iff}
use ipcinfra.TypeLists.{size, front, nth_element, contains}
use ipcinfra.TypeLists.Dispatch.{last_index}
use ipcinfra.TypeLists.Reaching.{last_index-length}
use ipcinfra.TypeLists.Policies.{
  Policy, invoke_init, invoke_deinit, init_helper, init_dispatch, deinit_helper, deinit_dispatcher,
}

module _ {S T : Type 0} ⦃types : Eq T⦄ (policies : T → Policy S) where
  -- One policy after the other, to the first that fails.
  abbrev pub init_all : List T → S → Bool × S
  init_all [] s = (true, s)
  init_all (t ∷ ts) s =
      let first = invoke_init (policies t) s in
      let later = init_all ts first.1 in if first.0 then later else (false, first.1)

  -- Whether one of the policies has a `deinit`.
  abbrev pub has_deinit : List T → Bool
  has_deinit [] = false
  has_deinit (t ∷ ts) = elim (policies t).deinit [ some f ↦ true | none ↦ has_deinit ts ]

  nth_element-drop :
      (empty_type : T) (ts : List T) (n : ℕ)
      → n < length ts
      → drop n ts ≡ nth_element empty_type ts n ∷ drop (n + 1) ts
  unfolding nth_element front
  nth_element-drop empty_type [] n h = absurd (omega arith)
  nth_element-drop empty_type (t ∷ ts) zero h = refl
  nth_element-drop empty_type (t ∷ ts) (suc n) h =
      nth_element-drop empty_type ts n (omega arith)
      ∙ ap (λ (k : ℕ). nth_element empty_type ts n ∷ drop k (t ∷ ts)) {x = suc (n + 1)}
          (omega arith)

  nth_element-inside :
      (empty_type : T) (ts : List T) (n : ℕ)
      → contains ts empty_type ≡ false
      → n < length ts
      → (nth_element empty_type ts n == empty_type) ≡ false
  unfolding nth_element front contains
  nth_element-inside empty_type [] n absent h = absurd (omega arith)
  nth_element-inside empty_type (t ∷ ts) zero absent h = ground (arith, absent)
  nth_element-inside empty_type (t ∷ ts) (suc n) absent h =
      nth_element-inside empty_type ts n (ground (arith, absent)) (omega arith)

  init_helper-all :
      (depth : ℕ) (empty_type : T) (ts : List T) (n : ℕ) (s : S)
      → contains ts empty_type ≡ false
      → n ≤ length ts
      → length ts < n + depth
      → init_helper policies depth empty_type ts n s ≡ some (init_all (drop n ts) s)
  unfolding init_helper size
  init_helper-all zero empty_type ts n s absent inside enough = absurd (omega arith)
  init_helper-all (suc depth) empty_type ts n s absent inside enough =
      elim (Bool-cases (ltb n (length ts))) [
        | inl more ↦
            rw
              (
                more,
                nth_element-inside empty_type ts n absent (ground (arith, more)),
                nth_element-drop empty_type ts n (ground (arith, more)),
              )
              (ap
                (Option.map (λ rest.
                  if (invoke_init (policies (nth_element empty_type ts n)) s).0
                  then rest
                  else (false, (invoke_init (policies (nth_element empty_type ts n)) s).1)))
                (init_helper-all depth empty_type ts (n + 1) _ absent (ground (arith, more))
                  (omega arith)))
        | inr last ↦ rw (last, drop-all n ts (ground (arith, last))) refl
      ]

  take-drop :
      (empty_type : T) (ts : List T) (n : ℕ)
      → n + 1 < length ts
      → take (length ts - 1 - n) (drop n ts)
        ≡ nth_element empty_type ts n ∷ take (length ts - 1 - (n + 1)) (drop (n + 1) ts)
  take-drop empty_type ts n inside =
      ap (λ (k : ℕ). take k (drop n ts)) {y = suc (length ts - 1 - (n + 1))} (omega arith)
      ∙ ap (take (suc (length ts - 1 - (n + 1)))) (nth_element-drop empty_type ts n (omega arith))

  deinit_helper-compiles :
      (depth : ℕ) (empty_type : T) (ts : List T) (n : ℕ) (s : S)
      → contains ts empty_type ≡ false
      → length ts < 2 ^ 64
      → n < length ts
      → length ts ≤ n + depth
      → deinit_helper policies depth empty_type ts n s
        ≡ (if has_deinit (take (length ts - 1 - n) (drop n ts)) then none else some s)
  unfolding deinit_helper invoke_deinit
  deinit_helper-compiles zero empty_type ts n s absent bound inside enough = absurd (omega arith)
  deinit_helper-compiles (suc depth) empty_type ts n s absent bound inside enough =
      elim (Bool-cases (ltb n (last_index ts))) [
        | inl more ↦
            let further : n + 1 < length ts = ground (arith, more, last_index-length ts) in
            rw
              (
                more,
                nth_element-inside empty_type ts n absent inside,
                take-drop empty_type ts n further,
              )
              (elim (Option-cases (policies (nth_element empty_type ts n)).deinit) [
                | inl without ↦
                    rw (without, has_deinit)
                      (deinit_helper-compiles depth empty_type ts (n + 1) s absent bound further
                        (omega arith))
                | inr (f, has) ↦ rw (has, has_deinit) refl
              ])
        | inr last ↦ rw last (
            ap (λ (k : ℕ). if has_deinit (take k (drop n ts)) then none else some s) {x = 0}
              (ground (arith, last, last_index-length ts)))
      ]

  pub init_dispatch-All :
      (depth : ℕ) (empty_type : T) (ts : List T) (s : S)
      → contains ts empty_type ≡ false
      → length ts < depth
      → init_dispatch policies depth empty_type ts s ≡ some (init_all ts s)
  unfolding init_dispatch
  init_dispatch-All depth empty_type ts s absent enough =
      init_helper-all depth empty_type ts 0 s absent (omega arith) (omega arith)

  -- For a list of fewer than 2^64 policies, none of them empty_type and fewer than the compiler's
  -- depth of templates, deinitDispatcher compiles exactly if none of the policies but the last
  -- has a deinit, and then it changes nothing, so that no deinit is ever called, that of the last
  -- policy included.
  pub deinit_dispatcher-Compiles :
      (depth : ℕ) (empty_type : T) (ts : List T) (s : S)
      → contains ts empty_type ≡ false
      → length ts < depth
      → length ts < 2 ^ 64
      → deinit_dispatcher policies depth empty_type ts s
        ≡ (if has_deinit (take (length ts - 1) ts) then none else some s)
  unfolding deinit_dispatcher deinit_helper nth_element front last_index size
  deinit_dispatcher-Compiles zero empty_type ts s absent enough bound = absurd (omega arith)
  deinit_dispatcher-Compiles (suc depth) empty_type [] s absent enough bound =
      rw ((==_iff empty_type empty_type).1 refl) refl
  deinit_dispatcher-Compiles (suc depth) empty_type (t ∷ ts) s absent enough bound =
      deinit_helper-compiles (suc depth) empty_type (t ∷ ts) 0 s absent bound (omega arith)
        (omega arith)
      ∙ ap (λ (k : ℕ). if has_deinit (take k (t ∷ ts)) then none else some s)
          {x = length (t ∷ ts) - 1 - 0} (omega arith)
