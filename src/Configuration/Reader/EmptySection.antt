-- ===== src/Configuration/Reader/EmptySection.antt =====
-- A section without pairs before another one (Configuration/ConfigurationReader.cpp).
use ipcinfra.Prelude.{
  ℕ, suc, ◌+◌, ◌≡◌, refl, ap, ◌∙◌, true, false, [], ◌∷◌, ◌++◌, length, length-append, append_assoc,
  arith, nat_beq, ltb,
}
use ipcinfra.Prelude.Run.{fault, undefined_behaviour}
use ipcinfra.Configuration.{Text, SectionTable}
use ipcinfra.Configuration.Reader.{
  open_section_sep, close_section_sep, key_value_sep, endline_sep, search, fill_sections,
  fill_table,
}
use ipcinfra.Configuration.Reader.Searches.{Free, Free-append, search-at, search-ge, search-skip}

crossed :
    (rounds : ℕ) (content : Text) (section_open close next kv : ℕ × ℕ) (table : SectionTable)
    → search close_section_sep content section_open.1 ≡ close
    → search open_section_sep content section_open.1 ≡ next
    → search key_value_sep content close.1 ≡ kv
    → nat_beq section_open.0 (length content) ≡ false
    → nat_beq close.0 (length content) ≡ false
    → ltb next.0 kv.0 ≡ true
    → fill_sections (suc rounds) content section_open table ≡ fault undefined_behaviour
unfolding fill_sections
crossed rounds content section_open close next kv table c n k some_section some_close over =
    rw (c, n) (rw k (rw (some_section, some_close, over) refl))

module _ (name tail : Text) where
  abbrev pub two_sections : Text
  two_sections =
      open_section_sep ∷ (name ++ close_section_sep ∷ (endline_sep ∷ (open_section_sep ∷ tail)))

  abbrev opened : Text
  opened = open_section_sep ∷ []

  abbrev closed : Text
  closed = opened ++ (name ++ close_section_sep ∷ [])

  -- For a file that starts with a section whose name is free of brackets, and whose header's line
  -- the next section's opening bracket follows, fillTable has undefined behaviour, whatever comes
  -- behind it.
  pub fill_table-EmptySection :
      Free open_section_sep name
      → Free close_section_sep name
      → fill_table two_sections ≡ fault undefined_behaviour
  unfolding fill_table
  fill_table-EmptySection no_open no_close =
      let first : search open_section_sep two_sections 0 ≡ (0, 1) =
        search-at open_section_sep two_sections [] [] _ refl tt in
      let close = search-at close_section_sep two_sections opened name _ refl no_close in
      let next =
        search-at open_section_sep two_sections opened
          (name ++ close_section_sep ∷ (endline_sep ∷ [])) tail (simp append_assoc refl)
          (Free-append open_section_sep name (close_section_sep ∷ (endline_sep ∷ [])) no_open
            (refl, (refl, tt))) in
      let long : length closed ≡ length name + 2 =
        omega (arith, length-append {0} name (close_section_sep ∷ [])) in
      let longer : length (name ++ close_section_sep ∷ (endline_sep ∷ [])) ≡ length name + 2 =
        length-append name (close_section_sep ∷ (endline_sep ∷ [])) in
      let whole : length two_sections ≡ length name + 4 + length tail = omega (
        arith,
        length-append {0} name (close_section_sep ∷ (endline_sep ∷ (open_section_sep ∷ tail))),
      ) in
      let kv =
        search-skip key_value_sep two_sections closed (endline_sep ∷ (open_section_sep ∷ [])) tail
          (simp append_assoc refl) (refl, (refl, tt)) in
      let later =
        search-ge key_value_sep two_sections
          (length (closed ++ endline_sep ∷ (open_section_sep ∷ []))) in
      let at_start : nat_beq (search open_section_sep two_sections 0).0 (length two_sections)
          ≡ false =
        ground (arith, ap (λ (o : ℕ × ℕ). o.0) first, whole) in
      let at_close : nat_beq (length opened + length name) (length two_sections) ≡ false =
        ground (arith, whole) in
      let passed : length (closed ++ endline_sep ∷ (open_section_sep ∷ [])) ≡ length closed + 2 =
        length-append closed (endline_sep ∷ (open_section_sep ∷ [])) in
      let over : ltb (length opened + length (name ++ close_section_sep ∷ (endline_sep ∷ [])))
            (search key_value_sep two_sections
              (length (closed ++ endline_sep ∷ (open_section_sep ∷ [])))).0
          ≡ true =
        ground (arith, later, passed, long, longer) in
      let run : fill_sections (suc (length two_sections)) two_sections
            (search open_section_sep two_sections 0) []
          ≡ fault undefined_behaviour =
        crossed (length two_sections) two_sections (search open_section_sep two_sections 0) _ _ _ []
          (ap (λ (o : ℕ × ℕ). search close_section_sep two_sections o.1) first ∙ close)
          (ap (λ (o : ℕ × ℕ). search open_section_sep two_sections o.1) first ∙ next)
          (ap (search key_value_sep two_sections) (omega (arith, long)) ∙ kv) at_start at_close
          over in
      rw run refl
