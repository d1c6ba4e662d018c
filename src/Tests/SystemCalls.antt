-- ===== src/Tests/SystemCalls.antt =====
-- The theorems on LinuxIOUtilities at concrete inputs.
use ipcinfra.Prelude.{
  ℕ, ◌+◌, ◌≡◌, ◌≢◌, refl, true, false, some, List, [], ◌∷◌, ◌++◌, length, ap, arith,
}
use ipcinfra.Prelude.Int.{ℤ, pos, negsuc}
use ipcinfra.Prelude.Classes.{int_eq}
use ipcinfra.Prelude.Run.{Returns, ok}
use ipcinfra.Files.{AccessMode}
use ipcinfra.LinuxIo.{Offer}
use ipcinfra.LinuxIo.Opening.{FileKernel, Descriptors, Owns, open_new_file, open_new_file-Owns}
use ipcinfra.LinuxIo.Paths.{
  full_path, get_directory_and_file_name, full_path-split, split_loop, at_separator,
}
use ipcinfra.LinuxIo.Reading.{read, read_line}
use ipcinfra.LinuxIo.Reading.Line.{Lines, read_line-Lines}
use ipcinfra.LinuxIo.Reading.Whole.{Gathers, read-Gathers, corrupted, read-Corrupts}
use ipcinfra.LinuxIo.Receiving.{Receives, recv, recv-Receives}
use ipcinfra.LinuxIo.Writing.{Sends, write, write-Sends}

-- "ab", an end of line, "c"
abbrev text : List ℕ
text = 97 ∷ 98 ∷ 10 ∷ 99 ∷ []

abbrev offers : List Offer
offers = Offer.up_to 9 ∷ Offer.interrupted ∷ Offer.up_to 9 ∷ []

write-Sends_example : Sends (record { size = 0; taken = [] }) text offers (write text offers)
write-Sends_example = write-Sends text offers

read-Gathers_example : Returns (Gathers 4096 0 [] text offers) (read 4096 (negsuc 0) [] text offers)
read-Gathers_example = read-Gathers 4096 [] text offers

read-Corrupts_example :
    read 4096 (pos (length text + 1)) [] (text ++ 100 ∷ []) (Offer.up_to 9 ∷ Offer.up_to 9 ∷ offers)
    ≡ ok (some (corrupted text 100 9 9 offers))
read-Corrupts_example =
    read-Corrupts text 100 9 9 offers 4096 (omega arith) (omega arith) (omega arith)

corrupted_text : (corrupted text 100 9 9 offers).result ≡ 100 ∷ 98 ∷ 10 ∷ 99 ∷ 0 ∷ []
corrupted_text = refl

read_line-Lines_example : Lines 0 [] text offers (read_line 4096 [] text offers)
read_line-Lines_example = read_line-Lines 4096 [] text offers

-- "/a/b"
abbrev path : List ℕ
path = 47 ∷ 97 ∷ 47 ∷ 98 ∷ []

path_directory : (get_directory_and_file_name path).0 ≢ []
unfolding get_directory_and_file_name split_loop at_separator
path_directory e = omega (arith, ap (length {A = ℕ}) e)

path_name : (get_directory_and_file_name path).1 ≢ []
unfolding get_directory_and_file_name split_loop at_separator
path_name e = omega (arith, ap (length {A = ℕ}) e)

full_path-split_example :
    full_path (get_directory_and_file_name path).1 (get_directory_and_file_name path).0 ≡ path
full_path-split_example = full_path-split path path_directory path_name

recv-Receives_example : Receives 8 text offers (recv 4096 8 false text offers)
recv-Receives_example = recv-Receives 4096 8 text offers (omega arith)

all_but_latest : List ℤ → List ℤ
all_but_latest [] = []
all_but_latest (fd ∷ others) = others

-- A kernel that numbers what it opens from 3 and closes the latest.
abbrev numbering : FileKernel (List ℤ)
numbering = record {
  open_file = λ _ _ s. (pos (length s + 3), pos (length s + 3) ∷ s);
  exists_error = λ _. false;
  permissions = λ _ _. 0;
  fchmod = λ _ _ s. (true, s);
  close = λ _ s. all_but_latest s;
}

abbrev every : List ℤ → List ℤ
every s = s

numbering-Descriptors : Descriptors numbering every
unfolding all_but_latest
numbering-Descriptors = record {
  opened = λ flags mode s. ground arith;
  kept = λ fd mode s. refl;
  closed = λ fd others s e. rw e refl;
}

open_new_file-Owns_example :
    Owns numbering every [] (open_new_file numbering AccessMode.write_only 0 0 [])
open_new_file-Owns_example =
    open_new_file-Owns numbering every numbering-Descriptors AccessMode.write_only 0 0 []
