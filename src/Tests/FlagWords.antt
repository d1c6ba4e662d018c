-- ===== src/Tests/FlagWords.antt =====
-- The theorems on FilePermissions and FileStatusFlags at concrete inputs.
use ipcinfra.Prelude.{ℕ, ◌≡◌, refl, true, List, [], ◌∷◌}
use ipcinfra.Prelude.Int.{pos}
use ipcinfra.Files.{AccessMode, FilePermission, has_flag}
use ipcinfra.Files.Permissions.{FilePermissions, mode_flag, InStep, listing}
use ipcinfra.Files.StatusFlags.{Fcntl, FileStatusFlags, failed, valid, get_single_flag, dsync}

abbrev shared_file : FilePermissions
shared_file = record { array = λ index. has_flag 0o640 (mode_flag index); flags = 0o640 }

shared_file-InStep : InStep shared_file
shared_file-InStep index below = refl

abbrev granted : List FilePermission
granted = FilePermission.user_read ∷ FilePermission.last ∷ FilePermission.other_execute ∷ []

shared_file_letters : listing 0o640 ≡ "r" ∷ "w" ∷ "-" ∷ "r" ∷ "-" ∷ "-" ∷ "-" ∷ "-" ∷ "-" ∷ []
shared_file_letters = refl

-- A kernel that stores the flags of its only file, and one that has lost the file.
abbrev storing : Fcntl ℕ
storing = record { get_fl = λ _ s. s; set_fl = λ _ m _. m }

abbrev losing : Fcntl ℕ
losing = record { get_fl = λ _ _. failed; set_fl = λ _ _ s. s }

abbrev opened : FileStatusFlags
opened = record { descriptor = pos 3; access_mode = AccessMode.read_write; flags = 2 }

opened-valid : valid opened ≡ true
unfolding valid
opened-valid = refl

abbrev data_synced : FileStatusFlags
data_synced = record { descriptor = pos 3; access_mode = AccessMode.write_only; flags = 0x1001 }

data_synced-dsync : dsync data_synced ≡ true
unfolding get_single_flag valid
data_synced-dsync = refl
