-- ===== src/Configuration/Reader/Printed.antt =====
-- The configuration files that ConfigurationReader::fillTable reads back
-- (Configuration/ConfigurationReader.cpp).
pub mod ReadBack
use ipcinfra.Prelude.{
  ℕ, zero, suc, ◌+◌, ◌-◌, ◌≤◌, ◌<◌, ◌≡◌, refl, sym, ap, ◌∙◌, Bool, true, false, Bool-cases, inl,
  inr, Option, some, List, [], ◌∷◌, ◌++◌, length, take, drop, substr, length-append, length-drop,
  take-append, drop-append, append_assoc, append-nil, arith, nat_beq, nat_beq_iff, ltb, All,
  if◌then◌else◌,
}
use ipcinfra.Prelude.Run.{Run, ok, ◌>>=◌}
use ipcinfra.Prelude.Classes.{◌==◌, ==_refl}
use ipcinfra.LookupTable.Hash.{find, insert_or_assign, empty}
use ipcinfra.LookupTable.Hash.Laws.{find-insert_or_assign}
use ipcinfra.Configuration.{Text, text_eq, KeyValues, SectionTable}
use ipcinfra.Configuration.Reader.{
  open_section_sep, close_section_sep, key_value_sep, endline_sep, search, after_last, or_empty,
  emplace_back, fill_section, fill_sections, fill_table,
}
use ipcinfra.Configuration.Reader.Searches.{
  Free, Free-append, search-at, search-absent, search-ge, after_last-at, substr-at,
}

abbrev pub print_pair : Text × Text → Text
print_pair (key, value) = key ++ key_value_sep ∷ (value ++ endline_sep ∷ [])

abbrev pub print_pairs : KeyValues → Text
print_pairs [] = []
print_pairs (pair ∷ pairs) = print_pair pair ++ print_pairs pairs

-- A key and its value stand on one line, in no section of their own.
pub record IsPair (pair : Text × Text) : Type 0 where
  pub key_sep : Free key_value_sep pair.0
  pub key_line : Free endline_sep pair.0
  pub key_open : Free open_section_sep pair.0
  pub value_line : Free endline_sep pair.1
  pub value_open : Free open_section_sep pair.1

abbrev pub emplace_all : Text → KeyValues → SectionTable → SectionTable
emplace_all section_name [] table = table
emplace_all section_name (pair ∷ pairs) table =
    emplace_all section_name pairs (emplace_back section_name pair table)

-- One line, behind the end of line after `pre`.
module _ (content pre key value rest : Text) where
  abbrev seen : Text
  seen = pre ++ endline_sep ∷ []

  abbrev through_sep : Text
  through_sep = seen ++ (key ++ key_value_sep ∷ [])

  -- What stands before the end of this line.
  abbrev next_pre : Text
  next_pre = pre ++ (endline_sep ∷ (key ++ key_value_sep ∷ value))

  line_start :
      through_sep ++ (value ++ endline_sep ∷ rest) ≡ content
      → Free endline_sep key
      → after_last endline_sep (take (length seen + length key) content) ≡ length seen
  line_start e f =
      let split : (seen ++ key) ++ (key_value_sep ∷ (value ++ endline_sep ∷ rest)) ≡ content =
        simp append_assoc refl ∙ e in
      ap (λ (l : Text). after_last endline_sep (take (length seen + length key) l)) (sym split)
      ∙ ap
          (λ (n : ℕ).
            after_last endline_sep
              (take n ((seen ++ key) ++ (key_value_sep ∷ (value ++ endline_sep ∷ rest)))))
          (sym (length-append seen key))
      ∙ ap (after_last endline_sep) (
          take-append (seen ++ key) (key_value_sep ∷ (value ++ endline_sep ∷ rest))
          ∙ append_assoc pre (endline_sep ∷ []) key)
      ∙ after_last-at endline_sep pre key f
      ∙ sym (length-append pre (endline_sep ∷ []))

  line :
      through_sep ++ (value ++ endline_sep ∷ rest) ≡ content
      → seen ++ (key ++ key_value_sep ∷ (value ++ endline_sep ∷ rest)) ≡ content
  line e = simp append_assoc refl ∙ e

  next_length : length through_sep + length value + 1 ≡ length (next_pre ++ endline_sep ∷ [])
  next_length = omega (
    arith,
    length-append {0} seen (key ++ key_value_sep ∷ []),
    length-append {0} key (key_value_sep ∷ []),
    length-append {0} pre (endline_sep ∷ []),
    length-append {0} next_pre (endline_sep ∷ []),
    length-append {0} pre (endline_sep ∷ (key ++ key_value_sep ∷ value)),
    length-append {0} key (key_value_sep ∷ value),
  )

  line_pair :
      (section_name : Text) (section_open_pos rounds : ℕ) (table : SectionTable)
      → through_sep ++ (value ++ endline_sep ∷ rest) ≡ content
      → IsPair (key, value)
      → length through_sep < section_open_pos
      → fill_section
          (suc rounds)
          content
          section_name
          section_open_pos
          (search key_value_sep content (length seen))
          table
        ≡ fill_section rounds content section_name section_open_pos
            (search key_value_sep content (length (next_pre ++ endline_sep ∷ [])))
            (emplace_back section_name (key, value) table)
  unfolding fill_section
  line_pair section_name section_open_pos rounds table e p inside =
      let kv : search key_value_sep content (length seen)
          ≡ (length seen + length key, length seen + length key + 1) =
        search-at key_value_sep content seen key (value ++ endline_sep ∷ rest) (line e) p.key_sep in
      let behind : length seen + length key + 1 ≡ length through_sep = omega (
        arith,
        length-append seen (key ++ key_value_sep ∷ []),
        length-append key (key_value_sep ∷ []),
      ) in
      let next_line : search endline_sep content (length through_sep)
          ≡ (length through_sep + length value, length through_sep + length value + 1) =
        search-at endline_sep content through_sep value rest e p.value_line in
      let started : after_last endline_sep (take (length seen + length key) content) ≡ length seen =
        line_start e p.key_line in
      let key_text : substr (length seen) (length seen + length key - length seen) content ≡ key =
        substr-at content seen key (key_value_sep ∷ (value ++ endline_sep ∷ rest)) _ (line e)
          (omega arith) in
      let value_text : substr (length through_sep)
            (length through_sep + length value - length through_sep) content
          ≡ value =
        substr-at content through_sep value (endline_sep ∷ rest) _ e (omega arith) in
      let more : ltb (length seen + length key) section_open_pos ≡ true = ground arith in
      let next : length through_sep + length value + 1 ≡ length (next_pre ++ endline_sep ∷ []) =
        next_length in
      rw (kv, behind, next_line) (rw (started, key_text, value_text, more, next) refl)

pub length-print_pairs :
    (key value : Text) (pairs : KeyValues)
    → length (print_pairs ((key, value) ∷ pairs))
      ≡ length key + length value + 2 + length (print_pairs pairs)
length-print_pairs key value pairs = omega (
  arith,
  length-append {0} (print_pair (key, value)) (print_pairs pairs),
  length-append {0} key (key_value_sep ∷ (value ++ endline_sep ∷ [])),
  length-append {0} value (endline_sep ∷ []),
)

length-through_sep :
    (content pre key value rest : Text)
    → length (through_sep content pre key value rest)
      ≡ length (pre ++ endline_sep ∷ []) + length key + 1
length-through_sep content pre key value rest = omega (
  arith,
  length-append {0} (pre ++ endline_sep ∷ []) (key ++ key_value_sep ∷ []),
  length-append {0} key (key_value_sep ∷ []),
)

print-split :
    (content pre key value tail : Text) (pairs : KeyValues)
    → (pre ++ endline_sep ∷ []) ++ (print_pairs ((key, value) ∷ pairs) ++ tail) ≡ content
    → through_sep content pre key value tail ++ (value ++ endline_sep ∷ (print_pairs pairs ++ tail))
      ≡ content
print-split content pre key value tail pairs e = simp append_assoc refl ∙ e

pub fill_section-pairs :
    (pairs : KeyValues) (content pre tail section_name : Text) (section_open_pos rounds : ℕ)
    (table : SectionTable)
    → (pre ++ endline_sep ∷ []) ++ (print_pairs pairs ++ tail) ≡ content
    → All IsPair pairs
    → section_open_pos ≡ length (pre ++ endline_sep ∷ []) + length (print_pairs pairs)
    → length pairs < rounds
    → fill_section rounds content section_name section_open_pos
        (search key_value_sep content (length (pre ++ endline_sep ∷ [])))
        table
      ≡ ok (emplace_all section_name pairs table)
unfolding fill_section
fill_section-pairs pairs content pre tail section_name section_open_pos zero table e p o enough =
    absurd (omega (arith, enough))
fill_section-pairs [] content pre tail section_name section_open_pos (suc rounds) table e p o
      enough =
    let past : ltb (search key_value_sep content (length (pre ++ endline_sep ∷ []))).0
          section_open_pos
        ≡ false =
      ground (arith, search-ge key_value_sep content (length (pre ++ endline_sep ∷ []))) in
    rw past refl
fill_section-pairs ((key, value) ∷ pairs) content pre tail section_name section_open_pos
      (suc rounds) table e p o enough =
    let split = print-split content pre key value tail pairs e in
    line_pair content pre key value (print_pairs pairs ++ tail) section_name section_open_pos rounds
      table split p.0
      (omega (
        arith,
        length-print_pairs key value pairs,
        length-through_sep content pre key value (print_pairs pairs ++ tail),
      ))
    ∙ fill_section-pairs pairs content (next_pre content pre key value tail) tail section_name
        section_open_pos rounds (emplace_back section_name (key, value) table)
        (simp append_assoc refl ∙ split) p.1
        (omega (
          arith,
          length-print_pairs key value pairs,
          length-through_sep content pre key value (print_pairs pairs ++ tail),
          next_length content pre key value (print_pairs pairs ++ tail),
        ))
        (omega (arith, enough))

-- What a section makes of the table.
insert_or_assign-again :
    (name : Text) (old new : KeyValues) (table : SectionTable)
    → (insert_or_assign name new (insert_or_assign name old table).0).0
      ≡ (insert_or_assign name new table).0
unfolding insert_or_assign
insert_or_assign-again name old new [] = rw (==_refl name) refl
insert_or_assign-again name old new ((j, w) ∷ table) = elim (Bool-cases (j == name)) [
  | inl same ↦ rw (same, same) refl
  | inr other ↦
      rw (other, other)
        (ap (λ (t : SectionTable). (j, w) ∷ t) (insert_or_assign-again name old new table))
]

emplace_back-insert :
    (name : Text) (pairs : KeyValues) (pair : Text × Text) (table : SectionTable)
    → emplace_back name pair (insert_or_assign name pairs table).0
      ≡ (insert_or_assign name (pairs ++ pair ∷ []) table).0
unfolding emplace_back
emplace_back-insert name pairs pair table =
    let found : find name (insert_or_assign name pairs table).0 ≡ some pairs =
      rw (==_refl name) at (find-insert_or_assign name name pairs table) in
    ap
      (λ (o : Option KeyValues).
        (insert_or_assign name (or_empty o ++ pair ∷ []) (insert_or_assign name pairs table).0).0)
      found
    ∙ insert_or_assign-again name pairs (pairs ++ pair ∷ []) table

pub emplace_all-insert :
    (name : Text) (pairs later : KeyValues) (table : SectionTable)
    → emplace_all name later (insert_or_assign name pairs table).0
      ≡ (insert_or_assign name (pairs ++ later) table).0
emplace_all-insert name pairs [] table = rw (append-nil pairs) refl
emplace_all-insert name pairs (pair ∷ later) table =
    rw (emplace_back-insert name pairs pair table) (
      emplace_all-insert name (pairs ++ pair ∷ []) later table
      ∙ ap (λ (l : KeyValues). (insert_or_assign name l table).0)
          (append_assoc pairs (pair ∷ []) later))
