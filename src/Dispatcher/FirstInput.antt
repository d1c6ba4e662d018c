-- ===== src/Dispatcher/FirstInput.antt =====
-- What comes in before a callback is registered reaches the callback
-- (TransportInfra/Policies/DispatcherPolicy.hpp).
use ipcinfra.Prelude.{
  ℕ, ◌≡◌, refl, sym, ap, ◌∙◌, Bool-cases, inl, inr, some, List, [], ◌∷◌, ◌++◌, append-nil,
  append_assoc,
}
use ipcinfra.Prelude.Classes.{Eq, ◌==◌, ==_refl}
use ipcinfra.Dispatcher.{
  LocalInputBuffer, DispatcherPolicy, Call, store, clear, initial, process_client_input,
  register_client_input_callback,
}

abbrev pub all_of : List (List ℕ) → List ℕ
all_of [] = []
all_of (data_view ∷ views) = data_view ++ all_of views

module _ {K : Type 0} ⦃e : Eq K⦄ (default_value : K) where
  store_again :
      (key : K) (data_view contents : List ℕ)
      → store default_value key data_view (record { key = key; contents = contents })
        ≡ record { key = key; contents = contents ++ data_view }
  unfolding store
  store_again key data_view contents = elim (Bool-cases (default_value == key)) [
    | inl same ↦ rw (same, ==_refl key) refl
    | inr other ↦ rw (other, ==_refl key) refl
  ]

  store_first :
      (key : K) (data_view : List ℕ)
      → store default_value key data_view (clear default_value)
        ≡ record { key = key; contents = data_view }
  unfolding store
  store_first key data_view = rw (==_refl default_value, ==_refl key) refl

module _ {K C : Type 0} ⦃e : Eq K⦄ (default_value : K) where
  -- The state after each input of one client in turn.
  unfoldable pub receive : K → List (List ℕ) → DispatcherPolicy K C → DispatcherPolicy K C
  receive key [] d = d
  receive key (data_view ∷ views) d =
      receive key views (process_client_input default_value key data_view d).1

  abbrev with_buffer : LocalInputBuffer K → DispatcherPolicy K C
  with_buffer b = record (initial default_value) { local_buffer = b }

  receive-with_buffer :
      (key : K) (views : List (List ℕ)) (contents : List ℕ)
      → receive key views (with_buffer (record { key = key; contents = contents }))
        ≡ with_buffer (record { key = key; contents = contents ++ all_of views })
  unfolding receive process_client_input
  receive-with_buffer key [] contents =
      ap (λ (c : List ℕ). with_buffer (record { key = key; contents = c }))
        (sym (append-nil contents))
  receive-with_buffer key (data_view ∷ views) contents =
      ap (λ (b : LocalInputBuffer K). receive key views (with_buffer b))
        (store_again default_value key data_view contents)
      ∙ receive-with_buffer key views (contents ++ data_view)
      ∙ ap (λ (c : List ℕ). with_buffer (record { key = key; contents = c }))
          (append_assoc contents data_view (all_of views))

  -- If a server's dispatcher over a named pipe has received one or more inputs of one client
  -- before the first input callback is registered, registering a callback calls it once, with
  -- that client's key and all of the inputs in their order, and leaves the local buffer empty.
  pub register-FirstInput :
      (cb : C) (key : K) (first : List ℕ) (views : List (List ℕ))
      → register_client_input_callback default_value
          (some cb)
          (receive key (first ∷ views) (initial default_value))
        ≡ (
          Call.input cb key (first ++ all_of views) ∷ [],
          record (initial default_value) { input_available = some cb },
        )
  unfolding receive process_client_input register_client_input_callback
  register-FirstInput cb key first views =
      ap (register_client_input_callback default_value (some cb)) (
        ap (λ (b : LocalInputBuffer K). receive key views (with_buffer b))
          (store_first default_value key first)
        ∙ receive-with_buffer key views first)
