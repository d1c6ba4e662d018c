-- ===== src/Demux.antt =====
-- TransportInfra/Reactor/EpollDemultiplexer.h, with the mask functions of Events/Mask. The descriptor
-- `m_epoll_fd` names one epoll instance of the kernel, whose state is `kernel`.
pub mod Laws
pub mod Monitor
pub mod Rounds
use Prim.Native.Nat.{bit_or}
use ipcinfra.Prelude.{ℕ, ◌+◌, ◌≡◌, Bool, true, false, not, List, [], ◌∷◌, if◌then◌else◌}
use ipcinfra.Prelude.Int.{ℤ, pos, negsuc, to_uint32}
use ipcinfra.Prelude.Classes.{◌==◌, int_eq, int_ord}
use ipcinfra.Prelude.Run.{Run, ok, ◌>>=◌}
use ipcinfra.LookupTable.Sorted
use ipcinfra.Events.Mask.{epollhup, epollerr, epollrdhup, epollet}

-- `epoll_data`
pub data EpollData : Type 0 where
  fd : ℤ → EpollData
  u64 : ℕ → EpollData

-- epoll_ctl on the instance: its result, and the kernel after it. `E` is the kernel's state.
pub record Epoll (E : Type 0) : Type 0 where
  pub ctl_add : ℤ → ℕ → EpollData → E → ℤ × E
  pub ctl_mod : ℤ → ℕ → EpollData → E → ℤ × E
  pub ctl_del : ℤ → E → ℤ × E

pub record Demux (E : Type 0) : Type 0 where
  pub kernel : E
  pub wait_timeout_ms : ℕ
  pub monitoring_ended : Bool
  pub handle_id_map : List (ℤ × ℕ)

abbrev pub epoll_wait_timeout_ms : ℕ
epoll_wait_timeout_ms = 5000

unfoldable pub new : {E : Type 0} → E → Demux E
new kernel = record {
  kernel = kernel;
  wait_timeout_ms = epoll_wait_timeout_ms;
  monitoring_ended = false;
  handle_id_map = [];
}

-- `-1 != result`
abbrev pub no_error : ℤ → Bool
no_error result = not (result == negsuc 0)

-- What `registerImpl` asks for besides the subscriber's events.
unfoldable pub subscription_events : ℕ → ℕ
subscription_events events_mask =
    bit_or (bit_or (bit_or events_mask (bit_or epollhup epollerr)) epollrdhup) epollet

module _ {E : Type 0} where
  unfoldable pub add_handle_id_mapping : ℤ → ℕ → Demux E → Demux E
  add_handle_id_mapping handle id d = record d {
    handle_id_map = (Sorted.add_or_update_mapping handle id d.handle_id_map).0;
  }

  unfoldable pub remove_handle_id_mapping : ℤ → Demux E → Run (Demux E)
  remove_handle_id_mapping handle d = do
    table ← Sorted.remove_mapping handle d.handle_id_map
    ok (record d { handle_id_map = table })

  -- `hash` is std::hash<uint32_t>.
  unfoldable pub get_key_for : (ℕ → ℕ) → ℤ → Demux E → ℕ
  get_key_for hash handle d =
      let (sub_id, exists) = Sorted.value_for 0 handle d.handle_id_map in
      if exists then sub_id else hash (to_uint32 handle)

  unfoldable pub stop_monitoring : Demux E → Demux E
  stop_monitoring d = record d { monitoring_ended = true }

  unfoldable pub monitoring : Demux E → Bool
  monitoring d = not d.monitoring_ended

  unfoldable pub set_timeout_ms : ℕ → Demux E → Demux E
  set_timeout_ms timeout d = record d { wait_timeout_ms = timeout }

module _ {E : Type 0} (epoll : Epoll E) where
  unfoldable pub register_impl : ℤ → ℕ → ℕ → Demux E → Bool × Demux E
  unfolding add_handle_id_mapping subscription_events
  register_impl descriptor id events_mask d =
      let (result, k) =
        epoll.ctl_add descriptor (subscription_events events_mask) (fd descriptor) d.kernel in
      let d' : Demux E = record d { kernel = k } in
      if no_error result then (true, add_handle_id_mapping descriptor id d') else (false, d')

  unfoldable pub unregister_impl : ℤ → Demux E → Run (Bool × Demux E)
  unfolding remove_handle_id_mapping
  unregister_impl descriptor d = do
    d' ← remove_handle_id_mapping descriptor d
    let (result, k) = epoll.ctl_del descriptor d'.kernel
    ok (no_error result, record d' { kernel = k })

  unfoldable pub update_impl : ℤ → ℕ → ℕ → Demux E → Bool × Demux E
  update_impl descriptor id events_mask d =
      let (result, k) = epoll.ctl_mod descriptor events_mask (u64 id) d.kernel in
      (no_error result, record d { kernel = k })
