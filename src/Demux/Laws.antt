-- ===== src/Demux/Laws.antt =====
-- The handle map of the demultiplexer across registering, unregistering and updating, whatever the
-- kernel answers.
use ipcinfra.Prelude.{
  ℕ, ◌≡◌, refl, sym, Bool, ◌&&◌, Option, none, some, arith, if◌then◌else◌, Bool-cases, inl, inr,
}
use ipcinfra.Prelude.Int.{ℤ, to_uint32}
use ipcinfra.Prelude.Classes.{◌==◌, int_eq, int_ord}
use ipcinfra.Prelude.Run.{◌>>=◌, Returns}
use ipcinfra.LookupTable.Sorted
use ipcinfra.LookupTable.Sorted.{get_value_position_for}
use ipcinfra.LookupTable.Sorted.Laws.{IsSorted, add_or_update_mapping-IsSorted}
use ipcinfra.LookupTable.Sorted.Removal.{remove_mapping-Removes}
use ipcinfra.Demux.{
  Demux, Epoll, fd, no_error, subscription_events, add_handle_id_mapping, remove_handle_id_mapping,
  get_key_for, register_impl, unregister_impl,
}

-- The id that the map holds for a handle.
abbrev pub key_of : {E : Type 0} → ℤ → Demux E → Option ℕ
key_of handle d = get_value_position_for handle d.handle_id_map

abbrev pub HasSortedMap : {E : Type 0} → Demux E → Type 0
HasSortedMap d = IsSorted d.handle_id_map

abbrev pub or_hashed : Option ℕ → ℕ → ℕ
or_hashed none key = key
or_hashed (some id) key = id

module _ {E : Type 0} where
  pub get_key_for_lem :
      (hash : ℕ → ℕ) (handle : ℤ) (d : Demux E)
      → get_key_for hash handle d ≡ or_hashed (key_of handle d) (hash (to_uint32 handle))
  unfolding get_key_for Sorted.value_for
  get_key_for_lem hash handle d = ground arith

  module _ (epoll : Epoll E) where
    -- What comes of a registration, from what the kernel answers to epoll_ctl.
    pub record Registers (handle : ℤ) (id mask : ℕ) (d : Demux E) (out : Bool × Demux E)
        : Type 0 where
      pub answered :
          out.0 ≡ no_error (epoll.ctl_add handle (subscription_events mask) (fd handle) d.kernel).0
      pub kernel_after :
          out.1.kernel ≡ (epoll.ctl_add handle (subscription_events mask) (fd handle) d.kernel).1
      pub sorted : HasSortedMap out.1
      pub keys : (j : ℤ) → key_of j out.1 ≡ (if out.0 && j == handle then some id else key_of j d)

    -- If the handle map is sorted, register_impl calls epoll_ctl with the handle and the
    -- subscriber's events with those that registerImpl adds, answers true exactly if the kernel
    -- does not answer -1, leaves the kernel as that call does, keeps the map sorted, maps the
    -- handle to the id if it answers true and leaves its mapping else, and changes the mapping of
    -- no other handle.
    pub register_impl-Registers :
        (handle : ℤ) (id mask : ℕ) (d : Demux E)
        → HasSortedMap d
        → Registers handle id mask d (register_impl epoll handle id mask d)
    unfolding register_impl add_handle_id_mapping
    register_impl-Registers handle id mask d s =
        let added = add_or_update_mapping-IsSorted handle id d.handle_id_map s in
        let answer = epoll.ctl_add handle (subscription_events mask) (fd handle) d.kernel in
        elim (Bool-cases (no_error answer.0)) [
          | inl good ↦ rw good (record {
            answered = sym good;
            kernel_after = refl;
            sorted = added.0;
            keys = λ j. added.2 j;
          })
          | inr bad ↦
              rw bad
                (record { answered = sym bad; kernel_after = refl; sorted = s; keys = λ j. refl })
        ]

    abbrev pub Unregisters : ℤ → Demux E → Bool × Demux E → Type 0
    Unregisters handle d (_, d') =
        HasSortedMap d' × ((j : ℤ) → key_of j d' ≡ (if j == handle then none else key_of j d))

    -- If the handle map is sorted and holds the handle, unregister_impl returns without undefined
    -- behaviour, keeps the map sorted, takes out the handle's mapping and no other, whatever the
    -- kernel answers.
    pub unregister_impl-Unregisters :
        (handle : ℤ) (d : Demux E) {id : ℕ}
        → HasSortedMap d
        → key_of handle d ≡ some id
        → Returns (Unregisters handle d) (unregister_impl epoll handle d)
    unfolding unregister_impl remove_handle_id_mapping
    unregister_impl-Unregisters handle d {id = id} s h =
        let (table, e, sorted, found) =
          remove_mapping-Removes handle d.handle_id_map {v = id} s h in
        let answer = epoll.ctl_del handle d.kernel in
        (
          (no_error answer.0, record d { kernel = answer.1; handle_id_map = table }),
          rw (e, ◌>>=◌),
          (sorted, found),
        )
