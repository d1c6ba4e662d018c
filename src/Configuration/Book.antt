-- ===== src/Configuration/Book.antt =====
-- ConfigurationBook (Configuration/ConfigurationBook.cpp, Configuration/ConfigurationBook.hpp).
-- Each method is one step under the mutex. The conversion of a text to a value is an argument.
pub mod Collections
pub mod ReadBack
use ipcinfra.Prelude.{
  ℕ, zero, suc, ◌+◌, ◌-◌, Bool, true, false, not, ◌||◌, ◌&&◌, Option, none, some, List, [], ◌∷◌,
  ◌++◌, length, take, drop, nat_beq, ltb, if◌then◌else◌,
}
use ipcinfra.Prelude.Run.{Run, ok, fault, endless_loop, ◌>>=◌}
use ipcinfra.LookupTable.Hash.{find, empty}
use ipcinfra.Configuration.{Text, text_beq, text_eq, KeyValues, SectionTable}
use ipcinfra.Configuration.Reader.{FileStream, open_file, read_in, fill_table}

pub record ConfigurationAddress : Type 0 where
  pub section : Text
  pub key : Text

pub record ConfigurationBook : Type 0 where
  pub file_content : Text
  pub reader : FileStream
  pub section_table : SectionTable

-- With what was read, if anything was.
unfoldable pub fill_from : ConfigurationBook → Option Text → Run (Bool × ConfigurationBook)
unfolding fill_table
fill_from b none = ok (false, b)
fill_from b (some content) = fill_table content >>= λ filled.
    ok (filled.0, record b { file_content = content; section_table = filled.1 })

unfoldable pub init : ConfigurationBook → Run (Bool × ConfigurationBook)
unfolding read_in fill_from
init b =
    if not b.reader.is_open
    then ok (false, b)
    else fill_from (record b { reader = (read_in b.reader).1 }) (read_in b.reader).0

-- `file` is what stands under the name.
unfoldable pub init_from : Option Text → ConfigurationBook → Run (Bool × ConfigurationBook)
unfolding open_file init
init_from file b =
    let (opened, reader) = open_file file b.reader in
    if opened then init (record b { reader = reader }) else ok (false, record b { reader = reader })

unfoldable pub is_ready : ConfigurationBook → Bool
unfolding empty
is_ready b = not (empty b.section_table)

-- The value of the first pair with the key.
abbrev pub find_key : Text → KeyValues → Option Text
find_key key [] = none
find_key key ((k, v) ∷ pairs) = if text_beq k key then some v else find_key key pairs

unfoldable pub find_value_in_table : ConfigurationAddress → ConfigurationBook → Option Text
unfolding find
find_value_in_table addr b = elim (find addr.section b.section_table) [
  | none ↦ none
  | some container ↦ find_key addr.key container
]

-- A searcher for `sep`: what stands before the first match and behind it; without a match,
-- everything and nothing.
abbrev pub is_prefix : Text → Text → Bool
is_prefix [] text = true
is_prefix (c ∷ cs) [] = false
is_prefix (c ∷ cs) (b ∷ bytes) = nat_beq c b && is_prefix cs bytes

unfoldable pub search : Text → Text → Text × Text
search sep [] = ([], [])
search sep (b ∷ bytes) =
    let (before, behind) = search sep bytes in
    if is_prefix sep (b ∷ bytes) then ([], drop (length sep) (b ∷ bytes)) else (b ∷ before, behind)

module _ {T : Type 0} (convert : Text → Option T) where
  -- `valueFor`
  unfoldable pub value_for : ConfigurationAddress → ConfigurationBook → Option T
  unfolding find_value_in_table
  value_for addr b = elim (find_value_in_table addr b) [
    | none ↦ none
    | some in_value ↦ convert in_value
  ]

  -- What is put at the container's end for one element, and whether something is.
  abbrev pub insert_element : Option T → List T → Bool → List T × Bool
  insert_element none out_container res = (out_container, res)
  insert_element (some element) out_container res = (out_container ++ element ∷ [], true)

  -- The loop of `collectionFor`, over the text from `substr_start_pos` on.
  unfoldable pub collect : ℕ → Text → Text → List T → Bool → Run (Bool × List T)
  unfolding search
  collect zero sep text out_container res = fault endless_loop
  collect (suc rounds) sep [] out_container res = ok (res, out_container)
  collect (suc rounds) sep (b ∷ bytes) out_container res =
      let (element, after) = search sep (b ∷ bytes) in
      let inserted = insert_element (convert element) out_container res in
      collect rounds sep after inserted.0 inserted.1

  unfoldable pub collection_for :
      ℕ → ConfigurationAddress → Text → List T → ConfigurationBook → Run (Bool × List T)
  unfolding find_value_in_table collect
  collection_for rounds addr sep out_container b = elim (find_value_in_table addr b) [
    | none ↦ ok (false, out_container)
    | some str_collection ↦ collect rounds sep str_collection out_container false
  ]
