-- ===== src/Server/Serving.antt =====
-- The endpoints that a server stores: what is kept of them by each operation
-- (TransportInfra/Policies/ServerCallbackPolicy.hpp).
use ipcinfra.Prelude.{
  ◌≡◌, refl, sym, ◌∙◌, true, Bool-cases, inl, inr, Option, none, some, List, if◌then◌else◌,
}
use mathlib.Core.Option
use ipcinfra.Prelude.Classes.{Eq, ◌==◌, ==_iff, nat_eq, int_eq}
use ipcinfra.Prelude.Run.{Keeps, then-Keeps, map-Keeps}
use ipcinfra.EventHandling.{Listener, subscribed_to_listener, listener_unsubscribe}
use ipcinfra.LookupTable.Hash.Laws.{find-insert_or_assign}
use ipcinfra.Endpoints.Agreement.{get-erase}
use ipcinfra.Endpoints.Associative.{value_for, store, erase, get_endpoint_for}
use ipcinfra.Server.{
  ServedClient, ServerEndpoint, destroy, destroy_stored, process_client_disconnection,
}

module _ {D K : Type 0} where
  -- The server's callbacks for the key are registered, and the listener knows the endpoint.
  pub record IsServed (key : K) (e : ServedClient D K) : Type 0 where
    pub told : e.client.dispatcher.disconnection ≡ some key
    pub heard : e.client.dispatcher.input_available ≡ some key
    pub subscribed : subscribed_to_listener e.policy ≡ true

module _ {D K : Type 0} ⦃keys : Eq K⦄ where
  -- Every endpoint in the storage is served by its key.
  abbrev pub IsServing : List (K × Option (ServedClient D K)) → Type 0
  IsServing storage =
      (key : K) (e : ServedClient D K)
      → get_endpoint_for key storage ≡ some (some e)
      → IsServed key e

  pub get-store :
      (key j : K) (e : ServedClient D K) (storage : List (K × Option (ServedClient D K)))
      → get_endpoint_for j (store key (some e) storage).1
        ≡ (if key == j then some (some e) else get_endpoint_for j storage)
  unfolding store get_endpoint_for value_for
  get-store key j e storage = find-insert_or_assign key j (some e) storage

  pub get-store-store :
      (key j : K) (e e' : ServedClient D K) (storage : List (K × Option (ServedClient D K)))
      → get_endpoint_for j (store key (some e') (store key (some e) storage).1).1
        ≡ (if key == j then some (some e') else get_endpoint_for j storage)
  get-store-store key j e e' storage =
      let outer = get-store key j e' (store key (some e) storage).1 in
      let inner = get-store key j e storage in
      elim (Bool-cases (key == j)) [
        | inl same ↦ rw same (rw same at outer)
        | inr other ↦ rw other ((rw other at outer) ∙ (rw other at inner))
      ]

  pub same_endpoint :
      {e e' : ServedClient D K}
      → Path (Option (Option (ServedClient D K))) (some (some e)) (some (some e'))
      → e ≡ e'
  same_endpoint p = Option.some-injective _ _ (Option.some-injective _ _ p)

  pub store-IsServing :
      (key : K) (e : ServedClient D K) (storage : List (K × Option (ServedClient D K)))
      → IsServing storage
      → IsServed key e
      → IsServing (store key (some e) storage).1
  store-IsServing key e storage serving served j e' there =
      let found = sym (get-store key j e storage) ∙ there in
      elim (Bool-cases (key == j)) [
        | inl same ↦ rw (sym ((==_iff key j).0 same), sym (same_endpoint (rw same at found))) served
        | inr other ↦ serving j e' (rw other at found)
      ]

  pub erase-IsServing :
      (key : K) (storage : List (K × Option (ServedClient D K)))
      → IsServing storage
      → IsServing (erase key storage)
  erase-IsServing key storage serving j e there =
      let found = sym (get-erase key j storage) ∙ there in
      elim (Bool-cases (key == j)) [
        | inl same ↦ absurd (Option.none-ne-some (some e) (rw same at found))
        | inr other ↦ serving j e (rw other at found)
      ]

module _ {A D K C L : Type 0} ⦃keys : Eq K⦄ (listeners : Listener L) where
  pub destroy-storage :
      (e : ServedClient D K) (s : ServerEndpoint A D K C L)
      → Keeps (λ s'. s'.storage ≡ s.storage) (destroy listeners e s)
  unfolding destroy
  destroy-storage e s = elim (Bool-cases (subscribed_to_listener e.policy)) [
    | inl subscribed ↦ rw subscribed (
        then-Keeps (listener_unsubscribe listeners e.policy s.listener) (λ answer. Keeps.kept refl))
    | inr unknown ↦ rw unknown (Keeps.kept refl)
  ]

  pub destroy_stored-storage :
      (o : Option (Option (ServedClient D K))) (s : ServerEndpoint A D K C L)
      → Keeps (λ s'. s'.storage ≡ s.storage) (destroy_stored listeners o s)
  unfolding destroy_stored
  destroy_stored-storage none s = Keeps.kept refl
  destroy_stored-storage (some none) s = Keeps.kept refl
  destroy_stored-storage (some (some e)) s = destroy-storage e s

  pub process_client_disconnection-IsServing :
      (key : K) (s : ServerEndpoint A D K C L)
      → IsServing s.storage
      → Keeps (λ s'. IsServing s'.storage) (process_client_disconnection listeners key s)
  unfolding process_client_disconnection
  process_client_disconnection-IsServing key s serving =
      map-Keeps (λ s' kept_storage. rw kept_storage (erase-IsServing key s.storage serving))
        (destroy_stored-storage (get_endpoint_for key s.storage) _)
