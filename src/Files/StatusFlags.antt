-- ===== src/Files/StatusFlags.antt =====
-- FileStatusFlags (IOInfra/FileStatusFlags.cpp): the status flags of an open file, as the object
-- remembers them. The constants are those of <fcntl.h> on Linux; the kernel is the record Fcntl.
pub mod Laws
use ipcinfra.Prelude.{
  ℕ, zero, suc, ◌+◌, ◌-◌, ◌*◌, ◌^◌, ◌<◌, ◌≡◌, ◌≢◌, refl, sym, ap, ◌∙◌, Bool, true, false, ◌&&◌,
  ◌||◌, not, arith, nat_beq, nat_beq_iff, if◌then◌else◌, Bool-cases, inl, inr,
}
use Prim.Native.Nat.{bit_and}
use ipcinfra.Prelude.Int.{ℤ, pos, negsuc}
use ipcinfra.Files.{AccessMode, has_flag, differs, change_flag}

-- `fcntl` with F_GETFL and F_SETFL, over the kernel's state
pub record Fcntl (S : Type 0) : Type 0 where
  pub get_fl : ℤ → S → ℕ
  pub set_fl : ℤ → ℕ → S → S

-- -1, as a word
abbrev pub failed : ℕ
failed = 2 ^ 32 - 1

abbrev pub o_append : ℕ
o_append = 0x400

abbrev pub o_nonblock : ℕ
o_nonblock = 0x800

abbrev pub o_dsync : ℕ
o_dsync = 0x1000

abbrev pub o_async : ℕ
o_async = 0x2000

abbrev pub o_direct : ℕ
o_direct = 0x4000

abbrev pub o_noatime : ℕ
o_noatime = 0x40000

abbrev pub o_sync : ℕ
o_sync = 0x101000

pub record FileStatusFlags : Type 0 where
  pub descriptor : ℤ
  pub access_mode : AccessMode
  pub flags : ℕ

abbrev pub is_undefined : AccessMode → Bool
is_undefined AccessMode.undefined = true
is_undefined _ = false

unfoldable pub valid : FileStatusFlags → Bool
valid f = not (is_undefined f.access_mode) || elim f.descriptor [ pos _ ↦ true | negsuc _ ↦ false ]

unfoldable pub set_flags_mask : ℕ → FileStatusFlags → Bool × FileStatusFlags
set_flags_mask flags f =
    if valid f && not (nat_beq f.flags flags)
    then (true, record f { flags = flags })
    else (false, f)

unfoldable pub sett_access_mode_flag : ℕ → FileStatusFlags → FileStatusFlags
sett_access_mode_flag flags f =
    let access_mode = bit_and flags 3 in
    if nat_beq 0 access_mode
    then record f { access_mode = AccessMode.read_only }
    else if nat_beq 1 access_mode
    then record f { access_mode = AccessMode.write_only }
    else if nat_beq 2 access_mode
    then record f { access_mode = AccessMode.read_write }
    else f

unfoldable pub get_single_flag : ℕ → FileStatusFlags → Bool
unfolding valid
get_single_flag flag f = if valid f then has_flag f.flags flag else false

-- `getAccessModeFlag`, by the map `accessModeToFlagInt`
unfoldable pub get_access_mode_flag : AccessMode → ℕ
get_access_mode_flag AccessMode.undefined = 0
get_access_mode_flag AccessMode.read_only = 0
get_access_mode_flag AccessMode.write_only = 1
get_access_mode_flag AccessMode.read_write = 2
get_access_mode_flag AccessMode.append = 0x401

-- `setFlags`, which asks nothing of the kernel
unfoldable pub set_flags : ℕ → FileStatusFlags → Bool × FileStatusFlags
unfolding set_flags_mask
set_flags value f =
    let f' = sett_access_mode_flag value f in
    let (changed, f'') = set_flags_mask value f' in
    if valid f' && changed then (true, f'') else (
      false,
      if is_undefined f.access_mode then f' else record f' { access_mode = f.access_mode },
    )

module _ {S : Type 0} (fcntl : Fcntl S) where
  -- The constructor, `init` included.
  unfoldable pub open_flags : ℤ → S → FileStatusFlags
  unfolding sett_access_mode_flag set_flags_mask valid
  open_flags descriptor s =
      let f : FileStatusFlags = record {
        descriptor = descriptor;
        access_mode = AccessMode.undefined;
        flags = 0;
      } in
      let latest = fcntl.get_fl descriptor s in
      let f' = sett_access_mode_flag latest f in
      if nat_beq failed latest then f else if valid f' then (set_flags_mask latest f').1 else f'

  unfoldable pub set_single_flag : ℕ → Bool → FileStatusFlags → S → Bool × FileStatusFlags × S
  unfolding get_single_flag set_flags_mask valid
  set_single_flag flag requested f s =
      let current_value = get_single_flag flag f in
      let changed_flags = change_flag requested flag f.flags in
      let s' = fcntl.set_fl f.descriptor changed_flags s in
      let latest_flags = fcntl.get_fl f.descriptor s' in
      let (updated, f') = set_flags_mask latest_flags f in
      if not (valid f)
      then (false, f, s)
      else if differs requested current_value
      then (if updated then nat_beq changed_flags latest_flags else false, f', s')
      else (false, f, s)

  abbrev pub set_append : Bool → FileStatusFlags → S → Bool × FileStatusFlags × S
  set_append = set_single_flag o_append

  abbrev pub set_no_a_time : Bool → FileStatusFlags → S → Bool × FileStatusFlags × S
  set_no_a_time = set_single_flag o_noatime

  abbrev pub set_direct : Bool → FileStatusFlags → S → Bool × FileStatusFlags × S
  set_direct = set_single_flag o_direct

  abbrev pub set_async : Bool → FileStatusFlags → S → Bool × FileStatusFlags × S
  set_async = set_single_flag o_async

  abbrev pub set_non_block : Bool → FileStatusFlags → S → Bool × FileStatusFlags × S
  set_non_block = set_single_flag o_nonblock

abbrev pub append : FileStatusFlags → Bool
append = get_single_flag o_append

abbrev pub async : FileStatusFlags → Bool
async = get_single_flag o_async

abbrev pub non_block : FileStatusFlags → Bool
non_block = get_single_flag o_nonblock

abbrev pub direct : FileStatusFlags → Bool
direct = get_single_flag o_direct

abbrev pub no_atime : FileStatusFlags → Bool
no_atime = get_single_flag o_noatime

abbrev pub dsync : FileStatusFlags → Bool
dsync = get_single_flag o_dsync

abbrev pub sync : FileStatusFlags → Bool
sync = get_single_flag o_sync
