-- ===== src/Endpoints/Single.antt =====
-- SingleEndpointStorage (TransportInfra/Policies/EndpointStorage.hpp), over the default value of its
-- keys.
use ipcinfra.Prelude.{Bool, true, Option, none, some, List, [], ◌∷◌, if◌then◌else◌}
use ipcinfra.Prelude.Classes.{Eq, ◌==◌}

pub record SingleEndpointStorage (E K : Type 0) : Type 0 where
  pub endpoint : Option E
  pub key : K

module _ {E K : Type 0} ⦃e : Eq K⦄ (default_value : K) where
  abbrev pub initial : SingleEndpointStorage E K
  initial = record { endpoint = none; key = default_value }

  unfoldable pub store : K → Option E → SingleEndpointStorage E K → Bool × SingleEndpointStorage E K
  store key p_endpoint s = (true, record { endpoint = p_endpoint; key = key })

  unfoldable pub erase : K → SingleEndpointStorage E K → SingleEndpointStorage E K
  erase key s = if key == s.key then record { endpoint = none; key = default_value } else s

  unfoldable pub get_endpoint_for : K → SingleEndpointStorage E K → Option (Option E)
  get_endpoint_for key s = if key == s.key then some s.endpoint else none

  -- What the calls of `f` answer, null pointer or not.
  unfoldable pub for_each : {A : Type 0} → (Option E → A) → SingleEndpointStorage E K → List A
  for_each f s = f s.endpoint ∷ []
