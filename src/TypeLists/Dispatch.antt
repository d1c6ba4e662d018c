-- ===== src/TypeLists/Dispatch.antt =====
-- The choice of a type by a tag at run time, and the dispatch to a member of the chosen type
-- (UtilitiesInfra/runtime_dispatcher.hpp). The result of `dispatch` is the list of the types with
-- whose object the function is called, in order; `none` stands for a template that is nested more
-- deeply than the compiler's `depth`, which is a compile-time error.
use ipcinfra.Prelude.{
  ℕ, zero, suc, ◌+◌, ◌-◌, ◌%◌, ◌^◌, Bool, true, ◌&&◌, Option, none, some, List, [], ◌∷◌, map,
  nat_beq, ltb, if◌then◌else◌,
}
use mathlib.Core.Option
use ipcinfra.Prelude.Classes.{Eq, ◌==◌}
use ipcinfra.TypeLists.{size, push_front, nth_element, filter, contains, erase, remove_duplicates}

-- `size_v<TList> - 1` on `std::size_t`
unfoldable pub last_index : {T : Type 0} → List T → ℕ
unfolding size
last_index ts = (size ts + (2 ^ 64 - 1)) % 2 ^ 64

module _ {T : Type 0} ⦃types : Eq T⦄ where
  unfoldable pub call_unless_empty : T → T → List T
  call_unless_empty empty_type object = if object == empty_type then [] else object ∷ []

  unfoldable pub dispatch_helper : ℕ → T → List T → ℕ → ℕ → Option (List T)
  unfolding last_index nth_element call_unless_empty
  dispatch_helper zero empty_type ts n tag = none
  dispatch_helper (suc depth) empty_type ts n tag =
      let here = call_unless_empty empty_type (nth_element empty_type ts n) in
      let later = dispatch_helper depth empty_type ts (n + 1) tag in
      if ltb n (last_index ts)
      then Option.map (λ calls. if nat_beq n tag then here else calls) later
      else some (if nat_beq n tag then here else [])

  unfoldable pub dispatch : ℕ → T → List T → ℕ → Option (List T)
  unfolding dispatch_helper
  dispatch depth empty_type ts tag = dispatch_helper depth empty_type ts 0 tag

  -- The next template that it instantiates is `dispatch_helper`.
  unfoldable pub dispatch_helper_mapped : ℕ → T → (T → ℕ) → List T → ℕ → ℕ → Option (List T)
  unfolding last_index nth_element call_unless_empty dispatch_helper
  dispatch_helper_mapped zero empty_type type_to_tag ts n tag = none
  dispatch_helper_mapped (suc depth) empty_type type_to_tag ts n tag =
      let object = nth_element empty_type ts n in
      let here = call_unless_empty empty_type object in
      let later = dispatch_helper depth empty_type ts (n + 1) tag in
      if ltb n (last_index ts)
      then Option.map (λ calls. if nat_beq (type_to_tag object) tag then here else calls) later
      else some (if nat_beq (type_to_tag object) tag then here else [])

  unfoldable pub dispatch_mapped : ℕ → T → (T → ℕ) → List T → ℕ → Option (List T)
  unfolding dispatch_helper_mapped
  dispatch_mapped depth empty_type type_to_tag ts tag =
      dispatch_helper_mapped depth empty_type type_to_tag ts 0 tag

-- The types that the member dispatcher names, and what it knows of a type: whether the member can be
-- named (an overloaded one cannot) and the type that it then returns, whether a call with the
-- arguments is well-formed, and the type and the value of that call.
pub record Member (T V : Type 0) : Type 0 where
  pub has_member : T → Bool
  pub return_type : T → T
  pub takes_arguments : T → Bool
  pub call_type : T → T
  pub call_member : T → V
  pub monostate : T
  pub void : T
  pub no_value : V

-- A `std::variant`: the alternative that it holds.
pub record Variant (T V : Type 0) : Type 0 where
  pub alternative : T
  pub value : V

module _ {T V : Type 0} ⦃types : Eq T⦄ (member : Member T V) where
  -- The alternatives of the result.
  unfoldable pub return_variant : List T → List T
  unfolding push_front remove_duplicates erase filter
  return_variant ts =
      push_front
        (remove_duplicates
          (erase (map member.return_type (filter member.has_member ts true)) member.void))
        member.monostate

  unfoldable pub select_overload : List T → T → Variant T V → Variant T V
  unfolding return_variant contains
  select_overload ts object result =
      if member.takes_arguments object && contains (return_variant ts) (member.call_type object)
      then record { alternative = member.call_type object; value = member.call_member object }
      else result

  unfoldable pub default_variant : Variant T V
  default_variant = record { alternative = member.monostate; value = member.no_value }

  unfoldable pub call_each : List T → List T → Variant T V → Variant T V
  unfolding select_overload
  call_each ts [] result = result
  call_each ts (object ∷ objects) result = call_each ts objects (select_overload ts object result)

  unfoldable pub call : ℕ → T → List T → ℕ → Option (Variant T V)
  unfolding dispatch call_each default_variant
  call depth empty_type ts tag =
      Option.map (λ objects. call_each ts objects default_variant)
        (dispatch depth empty_type ts tag)

  unfoldable pub call_mapped : ℕ → T → (T → ℕ) → List T → ℕ → Option (Variant T V)
  unfolding dispatch_mapped call_each default_variant
  call_mapped depth empty_type type_to_tag ts tag =
      Option.map (λ objects. call_each ts objects default_variant)
        (dispatch_mapped depth empty_type type_to_tag ts tag)
