-- ===== src/LinuxIo/Opening.antt =====
-- LinuxIOUtilities::openNewFile and openExistingFile
-- (UtilitiesInfra/LinuxUtils/LinuxIOUtilities.cpp), for one path. The constants are those of
-- <fcntl.h> on Linux.
use Prim.Native.Nat.{bit_or, bit_and}
use ipcinfra.Prelude.{
  ℕ, ◌-◌, ◌^◌, ◌≡◌, ◌∙◌, Bool, false, ◌&&◌, not, Bool-cases, inl, inr, List, [], ◌∷◌, nat_beq,
  if◌then◌else◌,
}
use ipcinfra.Prelude.Int.{ℤ, negsuc}
use ipcinfra.Prelude.Classes.{◌==◌, int_eq}
use ipcinfra.Files.{AccessMode, FilePermission}
use ipcinfra.Files.Permissions.{from_list}
use ipcinfra.Files.StatusFlags.{get_access_mode_flag}

-- The calls on the path and its descriptors, over the kernel's state; -1 is an open that failed.
pub record FileKernel (S : Type 0) : Type 0 where
  pub open_file : ℕ → ℕ → S → ℤ × S
  pub exists_error : S → Bool
  pub permissions : ℤ → S → ℕ
  pub fchmod : ℤ → ℕ → S → Bool × S
  pub close : ℤ → S → S

abbrev pub null_descriptor : ℤ
null_descriptor = negsuc 0

abbrev pub o_creat : ℕ
o_creat = 0x40

abbrev pub o_excl : ℕ
o_excl = 0x80

abbrev pub o_cloexec : ℕ
o_cloexec = 0x80000

abbrev pub without : ℕ → ℕ → ℕ
without flags flag = bit_and flags (2 ^ 32 - 1 - flag)

unfoldable pub new_file_flags : AccessMode → ℕ → ℕ
unfolding get_access_mode_flag
new_file_flags access_mode flags =
    bit_or (bit_or (bit_or (bit_or flags (get_access_mode_flag access_mode)) o_creat) o_excl)
      o_cloexec

-- The permissions where none are asked for.
unfoldable pub mode_or_default : ℕ → ℕ
unfolding from_list
mode_or_default mode =
    if nat_beq 0 mode
    then (from_list (FilePermission.user_read ∷ FilePermission.user_write ∷ [])).flags
    else mode

module _ {S : Type 0} (kernel : FileKernel S) where
  -- From the check of the permissions on, which the umask may have changed.
  unfoldable pub apply_mode : ℕ → ℕ → ℤ → S → ℤ × S
  apply_mode open_file_flags mode fd s =
      let (changed, s') = kernel.fchmod fd mode s in
      if nat_beq (kernel.permissions fd s) mode
      then (fd, s)
      else if changed
      then kernel.open_file open_file_flags 0 (kernel.close fd s')
      else (fd, s')

  -- A new file, or the one that exists already.
  unfoldable pub create_or_reopen : ℕ → ℕ → ℕ → S → ℤ × S
  create_or_reopen new_flags open_file_flags mode s =
      let created = kernel.open_file new_flags mode s in
      if created.0 == null_descriptor && kernel.exists_error created.1
      then kernel.open_file open_file_flags 0 created.1
      else created

  unfoldable pub open_new_file : AccessMode → ℕ → ℕ → S → ℤ × S
  open_new_file access_mode flags mode s =
      let created_flags = new_file_flags access_mode flags in
      let open_file_flags = without (without created_flags o_creat) o_excl in
      let mode' = mode_or_default mode in
      let r = create_or_reopen created_flags open_file_flags mode' s in
      if not (r.0 == null_descriptor) then apply_mode open_file_flags mode' r.0 r.1 else r

  unfoldable pub open_existing_file : AccessMode → ℕ → S → ℤ × S
  open_existing_file access_mode flags s =
      kernel.open_file (bit_or (bit_or (get_access_mode_flag access_mode) flags) o_cloexec) 0 s

  -- The descriptors that the process has open, and what the calls do to them.
  pub record Descriptors (live : S → List ℤ) : Type 0 where
    pub opened :
        (flags mode : ℕ) (s : S)
        → live (kernel.open_file flags mode s).1 ≡ (
            if (kernel.open_file flags mode s).0 == null_descriptor
            then live s
            else (kernel.open_file flags mode s).0 ∷ live s)
    pub kept : (fd : ℤ) (mode : ℕ) (s : S) → live (kernel.fchmod fd mode s).1 ≡ live s
    pub closed :
        (fd : ℤ) (others : List ℤ) (s : S)
        → live s ≡ fd ∷ others
        → live (kernel.close fd s) ≡ others

  -- Nothing but the answer is open besides what was open before.
  abbrev pub Owns : (S → List ℤ) → List ℤ → ℤ × S → Type 0
  Owns live before r = live r.1 ≡ (if r.0 == null_descriptor then before else r.0 ∷ before)

  module _ (live : S → List ℤ) (laws : Descriptors live) where
    apply_mode-Owns :
        (open_file_flags mode : ℕ) (fd : ℤ) (before : List ℤ) (s : S)
        → (fd == null_descriptor) ≡ false
        → live s ≡ fd ∷ before
        → Owns live before (apply_mode open_file_flags mode fd s)
    unfolding apply_mode
    apply_mode-Owns open_file_flags mode fd before s valid e =
        elim (Bool-cases (nat_beq (kernel.permissions fd s) mode)) [
          | inl as_asked ↦ rw (as_asked, valid) e
          | inr other ↦ elim (Bool-cases (kernel.fchmod fd mode s).0) [
            | inr refused ↦ rw (other, refused, valid) (laws.kept fd mode s ∙ e)
            | inl changed ↦
                let s' = (kernel.fchmod fd mode s).1 in
                let gone = laws.closed fd before s' (laws.kept fd mode s ∙ e) in
                rw (other, changed)
                  (rw gone at (laws.opened open_file_flags 0 (kernel.close fd s')))
          ]
        ]

    create_or_reopen-Owns :
        (new_flags open_file_flags mode : ℕ) (s : S)
        → Owns live (live s) (create_or_reopen new_flags open_file_flags mode s)
    unfolding create_or_reopen
    create_or_reopen-Owns new_flags open_file_flags mode s =
        let created = kernel.open_file new_flags mode s in
        let first = laws.opened new_flags mode s in
        elim (Bool-cases (created.0 == null_descriptor)) [
          | inr made ↦ rw (made, made) (rw made at first)
          | inl missing ↦
              let same : live created.1 ≡ live s = rw missing at first in
              elim (Bool-cases (kernel.exists_error created.1)) [
                | inl exists ↦
                    rw (missing, exists, ← same) (laws.opened open_file_flags 0 created.1)
                | inr other ↦ rw (missing, other, missing) same
              ]
        ]

    -- For a kernel whose open adds the descriptor that it answers, unless that is -1, to those
    -- that are open, whose fchmod changes none, and whose close takes out the latest one where it
    -- is given that one, openNewFile leaves open what was open before and its answer, unless that
    -- is -1, and no other descriptor.
    pub open_new_file-Owns :
        (access_mode : AccessMode) (flags mode : ℕ) (s : S)
        → Owns live (live s) (open_new_file access_mode flags mode s)
    unfolding open_new_file
    open_new_file-Owns access_mode flags mode s =
        let new_flags = new_file_flags access_mode flags in
        let open_file_flags = without (without new_flags o_creat) o_excl in
        let r = create_or_reopen new_flags open_file_flags (mode_or_default mode) s in
        let owned = create_or_reopen-Owns new_flags open_file_flags (mode_or_default mode) s in
        elim (Bool-cases (r.0 == null_descriptor)) [
          | inl missing ↦ rw missing owned
          | inr made ↦ rw made (
              apply_mode-Owns open_file_flags (mode_or_default mode) r.0 (live s) r.1 made
                (rw made at owned))
        ]
