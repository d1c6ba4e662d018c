-- ===== src/Tests/Types.antt =====
-- The theorems on the type lists at concrete inputs: types are numbers, 0 is the empty type, and a
-- type above 2 has the member, which returns void for 4.
use ipcinfra.Prelude.{
  ℕ, ◌≡◌, refl, false, none, some, List, [], ◌∷◌, take, length, arith, nat_beq, ltb, ◌-◌,
  if◌then◌else◌,
}
use ipcinfra.Prelude.Classes.{nat_eq}
use ipcinfra.TypeLists.{remove_duplicates, contains}
use ipcinfra.TypeLists.Erasing.{firsts, remove_duplicates-firsts}
use ipcinfra.TypeLists.Dispatch.{Member}
use ipcinfra.TypeLists.Policies.{Policy, deinit_dispatcher}
use ipcinfra.TypeLists.Lifecycle.{has_deinit, deinit_dispatcher-Compiles}

abbrev types : List ℕ
types = 3 ∷ 4 ∷ 1 ∷ 3 ∷ []

abbrev void_type : ℕ
void_type = 9

abbrev member : Member ℕ ℕ
member = record {
  has_member = λ t. ltb 2 t;
  return_type = λ t. if nat_beq t 4 then void_type else t;
  takes_arguments = λ t. ltb 2 t;
  call_type = λ t. if nat_beq t 4 then void_type else t;
  call_member = λ t. t;
  monostate = 8;
  void = void_type;
  no_value = 0;
}

remove_duplicates-firsts_example : remove_duplicates types ≡ firsts [] types
remove_duplicates-firsts_example = remove_duplicates-firsts types

-- Of these only the policy 1, the last, has a `deinit`.
abbrev policies : List ℕ
policies = 3 ∷ 4 ∷ 1 ∷ []

abbrev recording : ℕ → Policy (List ℕ)
recording t = record {
  init_with = none;
  init = none;
  deinit = if nat_beq t 1 then some (λ undone. t ∷ undone) else none;
}

policies_are_named : contains policies 0 ≡ false
unfolding contains
policies_are_named = refl

deinit_dispatcher-Compiles_example :
    deinit_dispatcher recording 900 0 policies []
    ≡ (if has_deinit recording (take (length policies - 1) policies) then none else some [])
deinit_dispatcher-Compiles_example =
    deinit_dispatcher-Compiles recording 900 0 policies [] policies_are_named (omega arith)
      (omega arith)
