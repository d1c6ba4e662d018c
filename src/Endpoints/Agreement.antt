-- ===== src/Endpoints/Agreement.antt =====
-- The two endpoint storages, for an owner that stores and erases
-- (TransportInfra/Policies/EndpointStorage.hpp).
use ipcinfra.Prelude.{
  ◌≡◌, ◌≢◌, refl, ap, ◌∙◌, Option, none, some, List, [], ◌∷◌, arith, if◌then◌else◌,
}
use ipcinfra.Prelude.Classes.{Eq, ◌==◌, ==_iff, ==_refl}
use ipcinfra.LookupTable.Hash.Laws.{find-insert_or_assign, find-erase}
use ipcinfra.Endpoints.Single
use ipcinfra.Endpoints.Single.{SingleEndpointStorage}
use ipcinfra.Endpoints.Associative

pub data Request (E K : Type 0) : Type 0 where
  stored : K → Option E → Request E K
  erased : K → Request E K

module _ {E K : Type 0} ⦃e : Eq K⦄ where
  unfoldable pub perform : List (Request E K) → List (K × Option E) → List (K × Option E)
  perform [] container = container
  perform (Request.stored k p ∷ requests) container =
      perform requests (Associative.store k p container).1
  perform (Request.erased k ∷ requests) container = perform requests (Associative.erase k container)

  -- The last request on a key decides what is found for it.
  abbrev pub last_on : K → List (Request E K) → Option (Option E) → Option (Option E)
  last_on j [] before = before
  last_on j (Request.stored k p ∷ requests) before =
      last_on j requests (if k == j then some p else before)
  last_on j (Request.erased k ∷ requests) before =
      last_on j requests (if k == j then none else before)

  pub get-erase :
      (k j : K) (container : List (K × Option E))
      → Associative.get_endpoint_for j (Associative.erase k container)
        ≡ (if k == j then none else Associative.get_endpoint_for j container)
  unfolding Associative.erase Associative.get_endpoint_for Associative.value_for
  get-erase k j container = ground (arith, find-erase k j container, ==_iff k j)

  -- After any sequence of calls of store and erase on an AssociativeEndpointStorage,
  -- getEndpointFor answers for each key what the last call on that key left: the pointer that was
  -- stored, or nothing after an erase; for a key without a call, what it answered before.
  pub perform-last_on :
      (requests : List (Request E K)) (container : List (K × Option E)) (j : K)
      → Associative.get_endpoint_for j (perform requests container)
        ≡ last_on j requests (Associative.get_endpoint_for j container)
  unfolding perform Associative.store Associative.get_endpoint_for Associative.value_for
  perform-last_on [] container j = refl
  perform-last_on (Request.stored k p ∷ requests) container j =
      perform-last_on requests _ j ∙ ap (last_on j requests) (find-insert_or_assign k j p container)
  perform-last_on (Request.erased k ∷ requests) container j =
      perform-last_on requests _ j ∙ ap (last_on j requests) (get-erase k j container)

  module _ (default_value : K) where
    unfoldable pub perform_single :
        List (Request E K) → SingleEndpointStorage E K → SingleEndpointStorage E K
    perform_single [] s = s
    perform_single (Request.stored k p ∷ requests) s =
        perform_single requests (Single.store default_value k p s).1
    perform_single (Request.erased k ∷ requests) s =
        perform_single requests (Single.erase default_value k s)

    abbrev pub AllOn : K → List (Request E K) → Type 0
    AllOn k [] = Unit
    AllOn k (Request.stored j p ∷ requests) = (j ≡ k) × AllOn k requests
    AllOn k (Request.erased j ∷ requests) = (j ≡ k) × AllOn k requests

    -- After any sequence of calls of store and erase on a SingleEndpointStorage that all use one
    -- key, other than the default value, getEndpointFor answers for that key what the last call
    -- left: the pointer that was stored, or nothing after an erase; without a call, what it
    -- answered before.
    pub perform_single-last_on :
        (requests : List (Request E K)) (s : SingleEndpointStorage E K) (k : K)
        → default_value ≢ k
        → AllOn k requests
        → Single.get_endpoint_for default_value k (perform_single requests s)
          ≡ last_on k requests (Single.get_endpoint_for default_value k s)
    unfolding perform_single Single.store Single.erase Single.get_endpoint_for
    perform_single-last_on [] s k ne all = refl
    perform_single-last_on (Request.stored j p ∷ requests) s k ne all =
        perform_single-last_on requests _ k ne all.1
        ∙ ap (last_on k requests) (rw (all.0, ==_refl k) refl)
    perform_single-last_on (Request.erased j ∷ requests) s k ne all =
        perform_single-last_on requests _ k ne all.1
        ∙ ap (last_on k requests) (
            ground
              (arith, all.0, ==_iff j s.key, ==_iff j k, ==_iff k s.key, ==_iff k default_value))
