-- ===== src/Configuration/Reader.antt =====
-- ConfigurationReader, streamSize and readContent (Configuration/ConfigurationReader.cpp). Iterators
-- into the content are positions. The loops take a number of rounds, and `endless_loop` is a loop
-- that has used all of them.
pub mod Searches
pub mod Printed
pub mod EmptySection
pub mod Ending
use ipcinfra.Prelude.{
  ℕ, zero, suc, ◌+◌, ◌-◌, Bool, true, false, not, ◌||◌, Option, none, some, List, [], ◌∷◌, ◌++◌,
  length, take, drop, substr, nat_beq, ltb, if◌then◌else◌,
}
use ipcinfra.Prelude.Int.{ℤ, pos, negsuc}
use ipcinfra.Prelude.Run.{Run, ok, fault, undefined_behaviour, endless_loop, ◌>>=◌}
use ipcinfra.LookupTable.Hash.{find, insert_or_assign, empty}
use ipcinfra.Configuration.{Text, text_eq, KeyValues, SectionTable}

abbrev pub open_section_sep : ℕ
open_section_sep = b'['

abbrev pub close_section_sep : ℕ
close_section_sep = b']'

abbrev pub key_value_sep : ℕ
key_value_sep = b'='

abbrev pub endline_sep : ℕ
endline_sep = 10

-- How many bytes stand before the first `c`.
abbrev pub index : ℕ → Text → ℕ
index c [] = 0
index c (b ∷ bytes) = if nat_beq b c then 0 else suc (index c bytes)

-- A searcher for `c`: the positions of the match and behind it, which are both the end where there is
-- no match.
abbrev pub search : ℕ → Text → ℕ → ℕ × ℕ
search c content from =
    let p = from + index c (drop from content) in
    if ltb p (length content) then (p, p + 1) else (p, p)

-- A search backwards: the position behind the last `c`, and 0 where there is none.
abbrev pub after_last : ℕ → Text → ℕ
after_last c [] = 0
after_last c (b ∷ bytes) =
    let rest = after_last c bytes in
    if nat_beq 0 rest then (if nat_beq b c then 1 else 0) else suc rest

abbrev pub or_empty : Option KeyValues → KeyValues
or_empty none = []
or_empty (some pairs) = pairs

-- `out_table[section_name].emplace_back`
unfoldable pub emplace_back : Text → Text × Text → SectionTable → SectionTable
unfolding find insert_or_assign
emplace_back section_name pair table =
    (insert_or_assign section_name (or_empty (find section_name table) ++ pair ∷ []) table).0

-- The loop over the pairs of a section, from the next separator of a key and its value.
unfoldable pub fill_section : ℕ → Text → Text → ℕ → ℕ × ℕ → SectionTable → Run SectionTable
unfolding emplace_back
fill_section zero content section_name section_open_pos kv table = fault endless_loop
fill_section (suc rounds) content section_name section_open_pos kv table =
    let next_line = search endline_sep content kv.1 in
    let line_start = after_last endline_sep (take kv.0 content) in
    let key = substr line_start (kv.0 - line_start) content in
    let value = substr kv.1 (next_line.0 - kv.1) content in
    let rest =
      fill_section rounds content section_name section_open_pos
        (search key_value_sep content next_line.1) (emplace_back section_name (key, value) table) in
    if ltb kv.0 section_open_pos then rest else ok table

-- The loop over the sections. std::count is undefined where the next section starts before the next
-- separator.
unfoldable pub fill_sections : ℕ → Text → ℕ × ℕ → SectionTable → Run SectionTable
unfolding fill_section insert_or_assign
fill_sections zero content section_open table = fault endless_loop
fill_sections (suc rounds) content section_open table =
    let section_close = search close_section_sep content section_open.1 in
    let section_name = substr section_open.1 (section_close.0 - section_open.1) content in
    let kv = search key_value_sep content section_close.1 in
    let next_open = search open_section_sep content section_open.1 in
    let rest =
      fill_section (suc (length content)) content section_name next_open.0 kv
        (insert_or_assign section_name [] table).0
      >>= λ table'. fill_sections rounds content next_open table' in
    if nat_beq section_open.0 (length content) || nat_beq section_close.0 (length content)
    then ok table
    else if ltb next_open.0 kv.0
    then fault undefined_behaviour
    else rest

-- The table's old contents do not count.
unfoldable pub fill_table : Text → Run (Bool × SectionTable)
unfolding fill_sections
fill_table content =
    fill_sections (suc (length content)) content (search open_section_sep content 0) []
    >>= λ out_table. ok (not (empty out_table), out_table)

-- An std::fstream: `is_open`, the failbit, the file's bytes and the position.
pub record FileStream : Type 0 where
  pub is_open : Bool
  pub failed : Bool
  pub bytes : Text
  pub position : ℕ

-- `open`: `file` is what stands under the name, if it can be opened.
unfoldable pub open_file : Option Text → FileStream → Bool × FileStream
open_file none f = (false, record f { is_open = false; failed = true })
open_file (some bytes) f =
    (true, record { is_open = true; failed = false; bytes = bytes; position = 0 })

unfoldable pub stream_size : FileStream → ℤ
stream_size f = if f.failed then negsuc 0 else pos (length f.bytes - f.position)

-- Reads from the position on to the end; what `result` held does not count.
unfoldable pub read_content : FileStream → Option Text × FileStream
read_content f =
    if f.failed
    then (none, f)
    else (some (drop f.position f.bytes), record f { position = length f.bytes })

unfoldable pub read_in : FileStream → Option Text × FileStream
unfolding read_content
read_in f = if not f.is_open then (none, f) else read_content f
