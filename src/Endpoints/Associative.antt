-- ===== src/Endpoints/Associative.antt =====
-- AssociativeEndpointStorage (TransportInfra/Policies/EndpointStorage.hpp), over the operations of
-- std::unordered_map that shared_lookup_table calls too.
use ipcinfra.Prelude.{Bool, true, Option, none, some, List, map}
use ipcinfra.Prelude.Classes.{Eq}
use ipcinfra.LookupTable.Hash

module _ {E K : Type 0} ⦃e : Eq K⦄ where
  unfoldable pub value_for : K → List (K × Option E) → Option (Option E)
  value_for key container = Hash.find key container

  unfoldable pub store : K → Option E → List (K × Option E) → Bool × List (K × Option E)
  store key p_endpoint container = (true, (Hash.insert_or_assign key p_endpoint container).0)

  unfoldable pub erase : K → List (K × Option E) → List (K × Option E)
  unfolding value_for
  erase key container = elim (value_for key container) [
    | some _ ↦ Hash.erase key container
    | none ↦ container
  ]

  unfoldable pub get_endpoint_for : K → List (K × Option E) → Option (Option E)
  unfolding value_for
  get_endpoint_for key container = value_for key container

  unfoldable pub for_each : {A : Type 0} → (K × Option E → A) → List (K × Option E) → List A
  for_each f container = map f container
