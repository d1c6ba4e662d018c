-- ===== src/Configuration/Reader/Printed/ReadBack.antt =====
-- Whole configuration files, section by section (Configuration/ConfigurationReader.cpp).
use ipcinfra.Prelude.{
  ℕ, zero, suc, ◌+◌, ◌-◌, ◌≤◌, ◌<◌, ◌≡◌, refl, sym, ap, ◌∙◌, true, false, not, [], ◌∷◌, ◌++◌,
  length, substr, length-append, append_assoc, append-nil, arith, nat_beq, ltb, All,
}
use ipcinfra.Prelude.Run.{ok}
use ipcinfra.LookupTable.Hash.{insert_or_assign, empty}
use ipcinfra.Configuration.{Text, text_eq, KeyValues, SectionTable}
use ipcinfra.Configuration.Reader.{
  open_section_sep, close_section_sep, key_value_sep, endline_sep, search, fill_section,
  fill_sections, fill_table,
}
use ipcinfra.Configuration.Reader.Searches.{
  Free, Free-append, search-at, search-absent, search-skip, substr-at,
}
use ipcinfra.Configuration.Reader.Printed.{
  print_pair, print_pairs, IsPair, emplace_all, fill_section-pairs, emplace_all-insert,
  length-print_pairs,
}

abbrev pub print_section : Text × KeyValues → Text
print_section (name, pairs) =
    open_section_sep ∷ (name ++ close_section_sep ∷ (endline_sep ∷ print_pairs pairs))

abbrev pub print : SectionTable → Text
print [] = []
print (section ∷ sections) = print_section section ++ print sections

-- A name within its brackets, with at least one pair.
pub record IsSection (section : Text × KeyValues) : Type 0 where
  pub name_open : Free open_section_sep section.0
  pub name_close : Free close_section_sep section.0
  pub pairs : All IsPair section.1
  pub some_pair : 0 < length section.1

-- A later section of the same name replaces an earlier one.
abbrev pub enter_all : SectionTable → SectionTable → SectionTable
enter_all [] table = table
enter_all ((name, pairs) ∷ sections) table =
    enter_all sections (insert_or_assign name pairs table).0

pair_eq : {a b c d : ℕ} → a ≡ b → c ≡ d → ◌≡◌ {A = ℕ × ℕ} (a, c) (b, d)
pair_eq e f = rw (e, f) refl

print_pairs-Free :
    (pairs : KeyValues) → All IsPair pairs → Free open_section_sep (print_pairs pairs)
print_pairs-Free [] p = tt
print_pairs-Free ((key, value) ∷ pairs) p =
    Free-append open_section_sep (print_pair (key, value)) (print_pairs pairs)
      (Free-append open_section_sep key (key_value_sep ∷ (value ++ endline_sep ∷ [])) p.0.key_open
        (refl, Free-append open_section_sep value (endline_sep ∷ []) p.0.value_open (refl, tt)))
      (print_pairs-Free pairs p.1)

print_pairs-long : (pairs : KeyValues) → length pairs ≤ length (print_pairs pairs)
print_pairs-long [] = omega arith
print_pairs-long ((key, value) ∷ pairs) =
    omega (arith, print_pairs-long pairs, length-print_pairs key value pairs)

next_section :
    (sections : SectionTable) (content seen : Text)
    → seen ++ print sections ≡ content
    → (search open_section_sep content (length seen)).0 ≡ length seen
next_section [] content seen e =
    ap (λ (t : ℕ × ℕ). t.0) (search-absent open_section_sep content seen [] e tt)
    ∙ ap (length {A = ℕ}) (sym e ∙ append-nil seen)
next_section ((name, pairs) ∷ sections) content seen e =
    ap (λ (t : ℕ × ℕ). t.0) (search-at open_section_sep content seen [] _ e tt) ∙ omega arith

-- The first separator of a key and a value stands among the pairs.
first_pair :
    (pairs : KeyValues) (content seen tail : Text)
    → seen ++ (print_pairs pairs ++ tail) ≡ content
    → All IsPair pairs
    → 0 < length pairs
    → (search key_value_sep content (length seen)).0 < length seen + length (print_pairs pairs)
first_pair [] content seen tail e p some_pair = absurd (omega arith)
first_pair ((key, value) ∷ pairs) content seen tail e p some_pair =
    let at =
      search-at key_value_sep content seen key
        ((value ++ endline_sep ∷ []) ++ (print_pairs pairs ++ tail)) (simp append_assoc refl ∙ e)
        p.0.key_sep in
    omega (arith, ap (λ (t : ℕ × ℕ). t.0) at, length-print_pairs key value pairs)

module _ (content seen name : Text) (pairs : KeyValues) (sections : SectionTable) where
  abbrev opened : Text
  opened = seen ++ open_section_sep ∷ []

  abbrev closed : Text
  closed = opened ++ (name ++ close_section_sep ∷ [])

  abbrev passed : Text
  passed = opened ++ (name ++ close_section_sep ∷ (endline_sep ∷ print_pairs pairs))

  module _ (e : seen ++ print ((name, pairs) ∷ sections) ≡ content) where
    split-opened :
        opened
          ++ (name ++ close_section_sep ∷ (endline_sep ∷ (print_pairs pairs ++ print sections)))
        ≡ content
    split-opened = simp append_assoc refl ∙ e

    split-closed : closed ++ (endline_sep ∷ (print_pairs pairs ++ print sections)) ≡ content
    split-closed = simp append_assoc refl ∙ e

    split-line : (closed ++ endline_sep ∷ []) ++ (print_pairs pairs ++ print sections) ≡ content
    split-line = simp append_assoc refl ∙ e

    split-passed : passed ++ print sections ≡ content
    split-passed = simp append_assoc refl ∙ e

    split-body :
        opened
          ++ ((name ++ close_section_sep ∷ (endline_sep ∷ print_pairs pairs)) ++ print sections)
        ≡ content
    split-body = simp append_assoc refl ∙ e

  record Sizes : Type 0 where
    to_opened : length opened ≡ length seen + 1
    to_closed : length closed ≡ length opened + length name + 1
    to_line : length (closed ++ endline_sep ∷ []) ≡ length closed + 1
    to_passed : length passed ≡ length closed + 1 + length (print_pairs pairs)

  sizes : Sizes
  sizes = record {
    to_opened = length-append seen (open_section_sep ∷ []);
    to_closed = omega (
      arith,
      length-append {0} opened (name ++ close_section_sep ∷ []),
      length-append {0} name (close_section_sep ∷ []),
    );
    to_line = length-append closed (endline_sep ∷ []);
    to_passed = omega (
      arith,
      length-append {0} opened (name ++ close_section_sep ∷ []),
      length-append {0} name (close_section_sep ∷ []),
      length-append {0} opened (name ++ close_section_sep ∷ (endline_sep ∷ print_pairs pairs)),
      length-append {0} name (close_section_sep ∷ (endline_sep ∷ print_pairs pairs)),
    );
  }

  fill_sections-step :
      (rounds : ℕ) (table : SectionTable)
      → seen ++ print ((name, pairs) ∷ sections) ≡ content
      → IsSection (name, pairs)
      → fill_sections (suc rounds) content (search open_section_sep content (length seen)) table
        ≡ fill_sections rounds content
            (search open_section_sep content (length passed))
            (insert_or_assign name pairs table).0
  unfolding fill_sections
  fill_sections-step rounds table e s =
      let z = sizes in
      let total : length passed ≤ length content =
        omega (
          arith,
          ap (length {A = ℕ}) (split-passed e),
          length-append {0} passed (print sections),
        ) in
      let next_at : (search open_section_sep content (length passed)).0 ≡ length passed =
        next_section sections content passed (split-passed e) in
      let first =
        first_pair pairs content (closed ++ endline_sep ∷ []) (print sections) (split-line e)
          s.pairs s.some_pair in
      let here : search open_section_sep content (length seen) ≡ (length seen, length opened) =
        search-at open_section_sep content seen [] _ e tt
        ∙ pair_eq (omega arith) (omega (arith, z.to_opened)) in
      let close : search close_section_sep content (length opened)
          ≡ (length opened + length name, length closed) =
        search-at close_section_sep content opened name _ (split-opened e) s.name_close
        ∙ pair_eq refl (sym z.to_closed) in
      let named : substr (length opened) (length opened + length name - length opened) content
          ≡ name =
        substr-at content opened name _ _ (split-opened e) (omega arith) in
      let kv : search key_value_sep content (length closed)
          ≡ search key_value_sep content (length (closed ++ endline_sep ∷ [])) =
        search-skip key_value_sep content closed (endline_sep ∷ []) _ (split-closed e) (refl, tt) in
      let next : search open_section_sep content (length opened)
          ≡ search open_section_sep content (length passed) =
        search-skip open_section_sep content opened
          (name ++ close_section_sep ∷ (endline_sep ∷ print_pairs pairs)) (print sections)
          (split-body e)
          (Free-append open_section_sep name (close_section_sep ∷ (endline_sep ∷ print_pairs pairs))
            s.name_open (refl, (refl, print_pairs-Free pairs s.pairs))) in
      let some_section : nat_beq (length seen) (length content) ≡ false =
        ground (arith, z.to_opened, z.to_closed, z.to_passed, total) in
      let some_close : nat_beq (length opened + length name) (length content) ≡ false =
        ground (arith, z.to_opened, z.to_closed, z.to_passed, total) in
      let in_order : ltb (search open_section_sep content (length passed)).0
            (search key_value_sep content (length (closed ++ endline_sep ∷ []))).0
          ≡ false =
        ground (arith, next_at, first, z.to_line, z.to_passed) in
      let pairs_read : fill_section (suc (length content)) content name
            (search open_section_sep content (length passed)).0
            (search key_value_sep content (length (closed ++ endline_sep ∷ [])))
            (insert_or_assign name [] table).0
          ≡ ok (emplace_all name pairs (insert_or_assign name [] table).0) =
        fill_section-pairs pairs content closed (print sections) name
          (search open_section_sep content (length passed)).0 (suc (length content))
          (insert_or_assign name [] table).0 (split-line e) s.pairs
          (omega (arith, next_at, z.to_line, z.to_passed))
          (omega (arith, print_pairs-long pairs, z.to_passed, total)) in
      rw here (
        rw (close, next)
          (rw (named, kv)
            (rw
              (
                some_section,
                some_close,
                in_order,
                pairs_read,
                emplace_all-insert name [] pairs table,
              )
              refl)))

fill_sections-print :
    (sections : SectionTable) (content seen : Text) (rounds : ℕ) (table : SectionTable)
    → seen ++ print sections ≡ content
    → All IsSection sections
    → length sections < rounds
    → fill_sections rounds content (search open_section_sep content (length seen)) table
      ≡ ok (enter_all sections table)
unfolding fill_sections
fill_sections-print sections content seen zero table e s enough = absurd (omega (arith, enough))
fill_sections-print [] content seen (suc rounds) table e s enough =
    let at_end : nat_beq (search open_section_sep content (length seen)).0 (length content) ≡ true =
      ground
        (arith, ap (λ (t : ℕ × ℕ). t.0) (search-absent open_section_sep content seen [] e tt)) in
    rw at_end refl
fill_sections-print ((name, pairs) ∷ sections) content seen (suc rounds) table e s enough =
    fill_sections-step content seen name pairs sections rounds table e s.0
    ∙ fill_sections-print sections content (passed content seen name pairs sections) rounds
        (insert_or_assign name pairs table).0 (split-passed content seen name pairs sections e) s.1
        (omega (arith, enough))

print-long : (sections : SectionTable) → length sections ≤ length (print sections)
print-long [] = omega arith
print-long ((name, pairs) ∷ sections) =
    omega
      (arith, print-long sections, length-append {0} (print_section (name, pairs)) (print sections))

pub fill_table-print :
    (sections : SectionTable)
    → All IsSection sections
    → fill_table (print sections) ≡ ok (not (empty (enter_all sections [])), enter_all sections [])
unfolding fill_table
fill_table-print sections s =
    rw
      (fill_sections-print sections (print sections) [] (suc (length (print sections))) [] refl s
        (omega (arith, print-long sections)))
      refl
