-- ===== src/Configuration/Book/ReadBack.antt =====
-- A configuration file read and looked up again (Configuration/ConfigurationBook.cpp).
use ipcinfra.Prelude.{
  ◌≡◌, refl, sym, ap, ◌∙◌, Bool, true, false, not, Bool-cases, Option-cases, inl, inr, Option, none,
  some, [], ◌∷◌, length, drop-all, arith, All,
}
use ipcinfra.Prelude.Run.{Run, ok, ◌>>=◌, Returns}
use ipcinfra.Prelude.Classes.{◌==◌, ==_iff}
use ipcinfra.LookupTable.Hash.{find, insert_or_assign, empty}
use ipcinfra.LookupTable.Hash.Laws.{IsUnique, find-insert_or_assign}
use ipcinfra.Configuration.{Text, text_eq, KeyValues, SectionTable}
use ipcinfra.Configuration.Reader.{fill_table, open_file, read_in, read_content}
use ipcinfra.Configuration.Reader.Printed.ReadBack.{print, IsSection, enter_all, fill_table-print}
use ipcinfra.Configuration.Book.{
  ConfigurationAddress, ConfigurationBook, fill_from, init, init_from, is_ready, find_key,
  find_value_in_table,
}

-- The value under an address in the sections themselves.
unfoldable pub look_up : ConfigurationAddress → SectionTable → Option Text
unfolding find
look_up addr sections = elim (find addr.section sections) [
  | none ↦ none
  | some pairs ↦ find_key addr.key pairs
]

abbrev pub or_find : Text → SectionTable → Option KeyValues → Option KeyValues
or_find name table none = find name table
or_find name table (some pairs) = some pairs

find-enter_all :
    (sections table : SectionTable) (j : Text)
    → IsUnique sections
    → find j (enter_all sections table) ≡ or_find j table (find j sections)
unfolding find
find-enter_all [] table j u = refl
find-enter_all ((name, pairs) ∷ sections) table j u =
    let later = find-enter_all sections (insert_or_assign name pairs table).0 j u.1 in
    let entered = find-insert_or_assign name j pairs table in
    elim (Bool-cases (name == j)) [
      | inl same ↦
          let once : find j sections ≡ none =
            ap (λ (k : Text). find k sections) (sym ((==_iff name j).0 same)) ∙ u.0 in
          rw (same, later, once) (rw same at entered)
      | inr other ↦ elim (Option-cases (find j sections)) [
        | inl absent ↦ rw (other, later, absent) (rw other at entered)
        | inr (v, present) ↦ rw (other, later, present) refl
      ]
    ]

abbrev pub read_book : SectionTable → ConfigurationBook
read_book sections = record {
  file_content = print sections;
  reader = record {
    is_open = true;
    failed = false;
    bytes = print sections;
    position = length (print sections);
  };
  section_table = enter_all sections [];
}

init_from-print :
    (sections : SectionTable) (b : ConfigurationBook)
    → All IsSection sections
    → init_from (some (print sections)) b
      ≡ ok (not (empty (enter_all sections [])), read_book sections)
unfolding init_from init open_file read_in read_content fill_from
init_from-print sections b s = rw (fill_table-print sections s) refl

empty_content : fill_table [] ≡ ok (false, [])
unfolding empty
empty_content = fill_table-print [] tt

init-read_book :
    (sections : SectionTable)
    → init (read_book sections)
      ≡ ok (false, record (read_book sections) { file_content = []; section_table = [] })
unfolding init read_in read_content fill_from
init-read_book sections =
    ap (λ (c : Text). fill_from (read_book sections) (some c))
      (drop-all (length (print sections)) (print sections) (omega arith))
    ∙ ap
        (λ (r : Run (Bool × SectionTable)). r >>= λ filled.
          ok
            (filled.0, record (read_book sections) { file_content = []; section_table = filled.1 }))
        empty_content

find_value-read_book :
    (sections : SectionTable) (addr : ConfigurationAddress)
    → IsUnique sections
    → find_value_in_table addr (read_book sections) ≡ look_up addr sections
unfolding find_value_in_table look_up
find_value-read_book sections addr u =
    let entered = find-enter_all sections [] addr.section u in
    elim (Option-cases (find addr.section sections)) [
      | inl absent ↦ rw (entered, absent, find_value_in_table, look_up) refl
      | inr (pairs, present) ↦ rw (entered, present, find_value_in_table, look_up) refl
    ]

-- What the book answers after it has read the sections.
pub record ReadsBack (sections : SectionTable) (r : Bool × ConfigurationBook) : Type 0 where
  pub values : (addr : ConfigurationAddress) → find_value_in_table addr r.1 ≡ look_up addr sections
  pub answered : is_ready r.1 ≡ r.0

-- For sections with distinct names free of brackets, each with at least one pair of a key (free
-- of the separator, the end of line and the opening bracket) and a value (free of the last two),
-- initFrom of the file that they are printed to returns, whatever the book held; findValueInTable
-- then gives for every address the value of the section's first pair with the key, and nothing
-- where there is none, and isReady what initFrom answered.
pub init_from-ReadsBack :
    (sections : SectionTable) (b : ConfigurationBook)
    → All IsSection sections
    → IsUnique sections
    → Returns (ReadsBack sections) (init_from (some (print sections)) b)
unfolding find_value_in_table is_ready
init_from-ReadsBack sections b s u = (
  _,
  init_from-print sections b s,
  record { values = λ addr. find_value-read_book sections addr u; answered = refl },
)

-- The book after a second call.
pub record Emptied (r : Bool × ConfigurationBook) : Type 0 where
  pub answered : r.0 ≡ false
  pub not_ready : is_ready r.1 ≡ false
  pub no_values : (addr : ConfigurationAddress) → find_value_in_table addr r.1 ≡ none

-- After initFrom of a file that sections are printed to, with names free of brackets that may
-- repeat, each with at least one pair of a key (free of the separator, the end of line and the
-- opening bracket) and a value (free of the last two), a call of init returns, answers false, and
-- leaves the book not ready and without a value for any address.
pub init-Empties :
    (sections : SectionTable) (b : ConfigurationBook)
    → All IsSection sections
    → Returns Emptied (init_from (some (print sections)) b >>= λ r. init r.1)
unfolding find_value_in_table is_ready empty find
init-Empties sections b s = (
  (false, record (read_book sections) { file_content = []; section_table = [] }),
  rw (init_from-print sections b s, ◌>>=◌) (init-read_book sections),
  record { answered = refl; not_ready = refl; no_values = λ addr. refl },
)
