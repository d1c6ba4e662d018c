-- ===== src/TypeLists/Policies.antt =====
-- The initialisation of a host's policies and its reverse (UtilitiesInfra/policies_initializer.hpp).
-- A policy acts on the state of its host: `none` stands for one that has no member `init` that the
-- arguments fit, or no member `deinit`. In a result `none` stands for a
-- compile-time error.
use ipcinfra.Prelude.{
  ℕ, zero, suc, ◌+◌, Bool, true, false, Option, none, some, List, ltb, if◌then◌else◌,
}
use mathlib.Core.Option
use ipcinfra.Prelude.Classes.{Eq, ◌==◌}
use ipcinfra.TypeLists.{size, nth_element}
use ipcinfra.TypeLists.Dispatch.{last_index}

pub record Policy (S : Type 0) : Type 0 where
  -- `init` with the host's arguments
  pub init_with : Option (S → Bool × S)
  -- `init` without arguments
  pub init : Option (S → Bool × S)
  pub deinit : Option (S → S)

module _ {S : Type 0} where
  unfoldable pub invoke_init : Policy S → S → Bool × S
  invoke_init policy s = elim policy.init_with [
    | some f ↦ f s
    | none ↦ elim policy.init [ some f ↦ f s | none ↦ (true, s) ]
  ]

  -- Both overloads take a policy that has a `deinit`, and neither is the more specialised: the call
  -- is ambiguous, a compile-time error.
  unfoldable pub invoke_deinit : Policy S → S → Option S
  invoke_deinit policy s = elim policy.deinit [ some f ↦ none | none ↦ some s ]

module _ {S T : Type 0} ⦃types : Eq T⦄ (policies : T → Policy S) where
  -- `&&` calls the next policies where the first has answered true.
  unfoldable pub init_helper : ℕ → T → List T → ℕ → S → Option (Bool × S)
  unfolding size nth_element invoke_init
  init_helper zero empty_type ts n s = none
  init_helper (suc depth) empty_type ts n s =
      let object = nth_element empty_type ts n in
      let first = invoke_init (policies object) s in
      let later = init_helper depth empty_type ts (n + 1) first.1 in
      if ltb n (size ts)
      then (if object == empty_type
          then some (true, s)
          else Option.map (λ rest. if first.0 then rest else (false, first.1)) later)
      else some (true, s)

  unfoldable pub init_dispatch : ℕ → T → List T → S → Option (Bool × S)
  unfolding init_helper
  init_dispatch depth empty_type ts s = init_helper depth empty_type ts 0 s

  unfoldable pub deinit_helper : ℕ → T → List T → ℕ → S → Option S
  unfolding last_index nth_element invoke_deinit
  deinit_helper zero empty_type ts n s = none
  deinit_helper (suc depth) empty_type ts n s =
      let object = nth_element empty_type ts n in
      let later : Option S = elim (invoke_deinit (policies object) s) [
        | none ↦ none
        | some s' ↦ deinit_helper depth empty_type ts (n + 1) s'
      ] in
      if ltb n (last_index ts) then (if object == empty_type then some s else later) else some s

  unfoldable pub deinit_dispatcher : ℕ → T → List T → S → Option S
  unfolding deinit_helper
  deinit_dispatcher depth empty_type ts s = deinit_helper depth empty_type ts 0 s
