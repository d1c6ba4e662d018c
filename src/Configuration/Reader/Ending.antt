-- ===== src/Configuration/Reader/Ending.antt =====
-- How ConfigurationReader::fillTable ends (Configuration/ConfigurationReader.cpp).
use ipcinfra.Prelude.{
  ℕ, zero, suc, ◌+◌, ◌≤◌, ◌<◌, ◌≡◌, ◌⊎◌, refl, Bool, not, ◌||◌, Bool-cases, inl, inr, [], ◌∷◌,
  length, drop, length-drop, arith, nat_beq, ltb,
}
use ipcinfra.Prelude.Run.{Run, ok, fault, undefined_behaviour, Returns, ◌>>=◌}
use ipcinfra.LookupTable.Hash.{empty}
use ipcinfra.Configuration.{Text, text_eq, SectionTable}
use ipcinfra.Configuration.Reader.{
  open_section_sep, close_section_sep, key_value_sep, endline_sep, index, search, fill_section,
  fill_sections, fill_table,
}
use ipcinfra.Configuration.Reader.Searches.{search-ge}

-- A position and the one behind it, or the end twice.
abbrev IsMatch : Text → ℕ × ℕ → Type 0
IsMatch content m = m.0 < length content → m.1 ≡ m.0 + 1

search-IsMatch : (c : ℕ) (content : Text) (from : ℕ) → IsMatch content (search c content from)
search-IsMatch c content from h = ground arith

index-le : (c : ℕ) (text : Text) → index c text ≤ length text
index-le c [] = omega arith
index-le c (b ∷ text) = ground (arith, index-le c text)

-- No search passes the end.
search-within :
    (c : ℕ) (content : Text) (from : ℕ)
    → from ≤ length content
    → (search c content from).1 ≤ length content
search-within c content from h =
    ground (arith, index-le c (drop from content), length-drop from content)

search-before :
    (c : ℕ) (content : Text) (from : ℕ) → (search c content from).0 ≤ (search c content from).1
search-before c content from = ground arith

abbrev next_line : Text → ℕ × ℕ → ℕ × ℕ
next_line content kv = search endline_sep content kv.1

abbrev next_kv : Text → ℕ × ℕ → ℕ × ℕ
next_kv content kv = search key_value_sep content (next_line content kv).1

-- A section's pairs are read to their end, since each round starts further behind.
fill_section-ends :
    (rounds : ℕ) (content section_name : Text) (section_open_pos : ℕ) (kv : ℕ × ℕ)
    (table : SectionTable)
    → section_open_pos ≤ length content
    → IsMatch content kv
    → kv.0 ≤ length content
    → length content < rounds + kv.0
    → Returns {0, 0}
        (λ _. Unit)
        (fill_section rounds content section_name section_open_pos kv table)
unfolding fill_section
fill_section-ends zero content section_name section_open_pos kv table inside m within enough =
    absurd (omega (arith, enough, within))
fill_section-ends (suc rounds) content section_name section_open_pos kv table inside m within
      enough =
    elim (Bool-cases (ltb kv.0 section_open_pos)) [
      | inr past ↦ rw past (table, refl, tt)
      | inl more ↦
          let before : kv.0 < length content = ground arith in
          let behind : kv.1 ≡ kv.0 + 1 = m before in
          let line_le : (next_line content kv).1 ≤ length content =
            search-within endline_sep content kv.1 (omega arith) in
          let line_ge = search-ge endline_sep content kv.1 in
          let line_end = search-before endline_sep content kv.1 in
          let later = search-ge key_value_sep content (next_line content kv).1 in
          let last = search-within key_value_sep content (next_line content kv).1 line_le in
          let last_start = search-before key_value_sep content (next_line content kv).1 in
          rw more (
            fill_section-ends rounds content section_name section_open_pos (next_kv content kv) _
              inside (search-IsMatch key_value_sep content (next_line content kv).1)
              (omega (arith, last, last_start))
              (omega (arith, enough, behind, line_ge, line_end, later)))
    ]

-- Undefined behaviour, or a table.
abbrev Ends : Run SectionTable → Type 0
Ends r = (r ≡ fault undefined_behaviour) ⊎ Returns {0, 0} (λ _. Unit) r

Ends-bind :
    (r : Run SectionTable) (next : SectionTable → Run SectionTable)
    → Returns {0, 0} (λ _. Unit) r
    → ((t : SectionTable) → Ends (next t))
    → Ends (r >>= next)
Ends-bind r next (t, run, u) h = rw run (h t)

fill_sections-Ends :
    (rounds : ℕ) (content : Text) (section_open : ℕ × ℕ) (table : SectionTable)
    → IsMatch content section_open
    → section_open.0 ≤ length content
    → length content < rounds + section_open.0
    → Ends (fill_sections rounds content section_open table)
unfolding fill_sections
fill_sections-Ends zero content section_open table m within enough =
    absurd (omega (arith, enough, within))
fill_sections-Ends (suc rounds) content section_open table m within enough =
    let close = search close_section_sep content section_open.1 in
    let next = search open_section_sep content section_open.1 in
    let kv = search key_value_sep content close.1 in
    elim (Bool-cases
      (nat_beq section_open.0 (length content) || nat_beq close.0 (length content))) [
        | inl over ↦ rw over (inr (table, refl, tt))
        | inr goes_on ↦
            let before : section_open.0 < length content = ground arith in
            let behind : section_open.1 ≡ section_open.0 + 1 = m before in
            let next_ge = search-ge open_section_sep content section_open.1 in
            let next_le =
              search-within open_section_sep content section_open.1
                (omega (arith, before, behind)) in
            let next_start = search-before open_section_sep content section_open.1 in
            let close_le =
              search-within close_section_sep content section_open.1
                (omega (arith, before, behind)) in
            let kv_le = search-within key_value_sep content close.1 close_le in
            let kv_start = search-before key_value_sep content close.1 in
            elim (Bool-cases (ltb next.0 kv.0)) [
              | inl crossed ↦ rw (goes_on, crossed) (inl refl)
              | inr in_order ↦
                  rw (goes_on, in_order)
                    (Ends-bind _ _
                      (fill_section-ends (suc (length content)) content _ next.0 kv _
                        (omega (arith, next_le, next_start))
                        (search-IsMatch key_value_sep content close.1)
                        (omega (arith, kv_le, kv_start)) (omega arith))
                      (λ t.
                        fill_sections-Ends rounds content next t
                          (search-IsMatch open_section_sep content section_open.1)
                          (omega (arith, next_le, next_start))
                          (omega (arith, enough, behind, next_ge))))
            ]
      ]

abbrev pub Fills : Run (Bool × SectionTable) → Type 0
Fills r = (r ≡ fault undefined_behaviour) ⊎ Returns (λ filled. filled.0 ≡ not (empty filled.1)) r

filled :
    (r : Run SectionTable)
    → Ends r
    → Fills (r >>= λ out_table. ok (not (empty out_table), out_table))
filled r (inl undefined) = rw undefined (inl refl)
filled r (inr (t, run, u)) = rw run (inr (_, refl, refl))

-- For any content fillTable ends: it has undefined behaviour, or returns a table and answers
-- whether it is not empty.
pub fill_table-Fills : (content : Text) → Fills (fill_table content)
unfolding fill_table
fill_table-Fills content =
    let first = search-within open_section_sep content 0 (omega arith) in
    let first_start = search-before open_section_sep content 0 in
    filled _ (
      fill_sections-Ends (suc (length content)) content (search open_section_sep content 0) []
        (search-IsMatch open_section_sep content 0) (omega (arith, first, first_start))
        (omega arith))
