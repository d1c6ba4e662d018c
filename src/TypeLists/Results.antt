-- ===== src/TypeLists/Results.antt =====
-- The result of a member dispatcher (UtilitiesInfra/runtime_dispatcher.hpp).
use ipcinfra.Prelude.{Bool, false, not, ◌&&◌, ◌||◌, List, [], ◌∷◌, if◌then◌else◌}
use mathlib.Core.Option
use ipcinfra.Prelude.Classes.{Eq, ◌==◌}
use ipcinfra.TypeLists.Dispatch.{Member, Variant, default_variant}

module _ {T V : Type 0} ⦃types : Eq T⦄ (member : Member T V) where
  -- Whether some type of the list has the member, and it returns `r`.
  abbrev pub returned_by : List T → T → Bool
  returned_by [] r = false
  returned_by (t ∷ ts) r = (member.has_member t && member.return_type t == r) || returned_by ts r

  -- Whether the result can hold an `r`.
  abbrev pub can_hold : List T → T → Bool
  can_hold ts r = member.monostate == r || (not (member.void == r) && returned_by ts r)

  -- What the caller is told: nothing, or the value of the call with its type.
  abbrev pub outcome : T → List T → T → Variant T V
  outcome empty_type ts object =
      if not (object == empty_type)
        && (member.takes_arguments object && can_hold ts (member.call_type object))
      then record { alternative = member.call_type object; value = member.call_member object }
      else default_variant member
