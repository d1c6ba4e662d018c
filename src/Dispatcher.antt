-- ===== src/Dispatcher.antt =====
-- BaseDispatcherPolicy of a server over a named pipe (TransportInfra/Policies/DispatcherPolicy.hpp):
-- what clients send goes to the registered callback, and into a local buffer as long as there is
-- none. A callback is a value of `C`, `none` the empty std::function; what is called is an output.
pub mod Client
pub mod Server
pub mod FirstInput
use ipcinfra.Prelude.{
  ℕ, Bool, true, false, Option, none, some, List, [], ◌∷◌, ◌++◌, not, if◌then◌else◌,
}
use ipcinfra.Prelude.Classes.{Eq, ◌==◌}

pub record LocalInputBuffer (K : Type 0) : Type 0 where
  pub key : K
  pub contents : List ℕ

pub record DispatcherPolicy (K C : Type 0) : Type 0 where
  pub local_buffer : LocalInputBuffer K
  pub input_available : Option C
  pub connected : Option C
  pub disconnected : Option C

-- A call of a callback, with the key and the data that it is given.
pub data Call (K C : Type 0) : Type 0 where
  input : C → K → List ℕ → Call K C
  connection disconnection : C → K → Call K C

-- A std::function as a bool.
abbrev pub is_callable : {C : Type 0} → Option C → Bool
is_callable none = false
is_callable (some _) = true

module _ {K : Type 0} ⦃e : Eq K⦄ (default_value : K) where
  unfoldable pub store : K → List ℕ → LocalInputBuffer K → LocalInputBuffer K
  store key data_view b =
      let owner = if default_value == b.key then key else b.key in
      record {
        key = owner;
        contents = if not (key == owner) then b.contents else b.contents ++ data_view;
      }

  abbrev pub clear : LocalInputBuffer K
  clear = record { key = default_value; contents = [] }

module _ {K C : Type 0} ⦃e : Eq K⦄ (default_value : K) where
  abbrev pub initial : DispatcherPolicy K C
  initial = record {
    local_buffer = clear default_value;
    input_available = none;
    connected = none;
    disconnected = none;
  }

  unfoldable pub process_client_input :
      K → List ℕ → DispatcherPolicy K C → List (Call K C) × DispatcherPolicy K C
  process_client_input key data_view d = elim d.input_available [
    | some cb ↦ (Call.input cb key data_view ∷ [], d)
    | none ↦ ([], record d { local_buffer = store default_value key data_view d.local_buffer })
  ]

  -- It always answers true, so that only the calls and the state are given.
  unfoldable pub register_client_input_callback :
      Option C → DispatcherPolicy K C → List (Call K C) × DispatcherPolicy K C
  unfolding process_client_input
  register_client_input_callback cb d =
      let d' : DispatcherPolicy K C = record d { input_available = cb } in
      let (calls, d'') = process_client_input d'.local_buffer.key d'.local_buffer.contents d' in
      if not (is_callable d.input_available)
      then (calls, record d'' { local_buffer = clear default_value })
      else ([], d')

module _ {K C : Type 0} where
  unfoldable pub register_client_connection_callback :
      Option C → DispatcherPolicy K C → DispatcherPolicy K C
  register_client_connection_callback cb d = record d { connected = cb }

  unfoldable pub register_client_disconnection_callback :
      Option C → DispatcherPolicy K C → DispatcherPolicy K C
  register_client_disconnection_callback cb d = record d { disconnected = cb }

  unfoldable pub process_client_connected : K → DispatcherPolicy K C → List (Call K C)
  process_client_connected key d = elim d.connected [
    | some cb ↦ Call.connection cb key ∷ []
    | none ↦ []
  ]

  unfoldable pub process_client_disconnected : K → DispatcherPolicy K C → List (Call K C)
  process_client_disconnected key d = elim d.disconnected [
    | some cb ↦ Call.disconnection cb key ∷ []
    | none ↦ []
  ]
