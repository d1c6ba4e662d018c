-- ===== src/LinuxIo/Paths.antt =====
-- LinuxIOUtilities::getDirectoryAndFileName and fullPath
-- (UtilitiesInfra/LinuxUtils/LinuxIOUtilities.cpp).
use ipcinfra.Prelude.{
  ℕ, suc, ◌+◌, ◌-◌, ◌≡◌, ◌≢◌, refl, sym, ap, ◌∙◌, false, ◌&&◌, not, Bool-cases, inl, inr, List, [],
  ◌∷◌, ◌++◌, length, take, drop, substr, no_length, length-append, take-append, drop-append,
  take-all, append-nil, append_assoc, arith, nat_beq, nat_beq_iff, if◌then◌else◌, All,
}

abbrev pub path_separator : ℕ
path_separator = b'/'

-- The positions that `find_first_of` gives, one after the other, from `pos` on.
abbrev pub separators : ℕ → List ℕ → List ℕ
separators pos [] = []
separators pos (c ∷ rest) =
    if nat_beq c path_separator then pos ∷ separators (pos + 1) rest else separators (pos + 1) rest

-- The loop's variables.
pub record Split : Type 0 where
  pub prev_pos : ℕ
  pub offset : ℕ
  pub file_path : List ℕ

unfoldable pub at_separator : List ℕ → Split → ℕ → Split
at_separator full_path s next_pos =
    if not (nat_beq s.prev_pos next_pos)
    then record {
      prev_pos = next_pos;
      offset = 1;
      file_path = s.file_path ++ substr s.prev_pos (next_pos - s.prev_pos) full_path;
    }
    else record s { offset = 1 }

unfoldable pub split_loop : List ℕ → Split → List ℕ → Split
split_loop full_path s [] = s
split_loop full_path s (next_pos ∷ positions) =
    split_loop full_path (at_separator full_path s next_pos) positions

unfoldable pub get_directory_and_file_name : List ℕ → List ℕ × List ℕ
unfolding split_loop
get_directory_and_file_name full_path =
    let s =
      split_loop full_path (record { prev_pos = 0; offset = 0; file_path = [] })
        (separators 0 full_path) in
    (s.file_path, substr (s.prev_pos + s.offset) (length full_path - s.prev_pos) full_path)

unfoldable pub full_path : List ℕ → List ℕ → List ℕ
full_path filename directory =
    if not (nat_beq (length directory) 0) && not (nat_beq (length filename) 0)
    then (directory ++ path_separator ∷ []) ++ filename
    else directory

abbrev pub IsPlain : List ℕ → Type 0
IsPlain text = All (λ c. nat_beq c path_separator ≡ false) text

-- The variables once `seen` has been passed.
data Passed (seen : List ℕ) (s : Split) : Type 0 where
  none_yet : IsPlain seen → s.prev_pos ≡ 0 → s.offset ≡ 0 → s.file_path ≡ [] → Passed seen s
  after :
      (name : List ℕ)
      → s.file_path ++ path_separator ∷ name ≡ seen
      → IsPlain name
      → s.prev_pos ≡ length s.file_path
      → s.offset ≡ 1
      → Passed seen s

IsPlain-concat :
    (xs : List ℕ) (c : ℕ) → IsPlain xs → nat_beq c path_separator ≡ false → IsPlain (xs ++ c ∷ [])
IsPlain-concat [] c p h = (h, tt)
IsPlain-concat (x ∷ xs) c p h = (p.0, IsPlain-concat xs c p.1 h)

pass_plain :
    (seen : List ℕ) (c : ℕ) (s : Split)
    → nat_beq c path_separator ≡ false
    → Passed seen s
    → Passed (seen ++ c ∷ []) s
pass_plain seen c s h (none_yet p a b e) = none_yet (IsPlain-concat seen c p h) a b e
pass_plain seen c s h (after name e p a b) =
    after (name ++ c ∷ [])
      (sym (append_assoc s.file_path (path_separator ∷ name) (c ∷ []))
        ∙ ap (λ (l : List ℕ). l ++ c ∷ []) e)
      (IsPlain-concat name c p h) a b

-- The path up to a separator is whole once the separator is passed.
arrive :
    (seen rest : List ℕ) (s : Split)
    → s.file_path ++ substr s.prev_pos (length seen - s.prev_pos) (seen ++ rest) ≡ seen
    → (s.prev_pos ≡ length seen → s.file_path ≡ seen)
    → Passed (seen ++ path_separator ∷ []) (at_separator (seen ++ rest) s (length seen))
unfolding at_separator
arrive seen rest s extended here = elim (Bool-cases (nat_beq s.prev_pos (length seen))) [
  | inl same ↦
      let e = (nat_beq_iff s.prev_pos (length seen)).0 same in
      rw same (
        after [] (ap (λ (l : List ℕ). l ++ path_separator ∷ []) (here e)) tt
          (e ∙ ap (length {A = ℕ}) (sym (here e))) refl)
  | inr new ↦ rw new (
      after [] (ap (λ (l : List ℕ). l ++ path_separator ∷ []) extended) tt
        (ap (length {A = ℕ}) (sym extended)) refl)
]

pass_separator :
    (seen rest : List ℕ) (s : Split)
    → Passed seen s
    → Passed (seen ++ path_separator ∷ []) (at_separator (seen ++ rest) s (length seen))
pass_separator seen rest s (none_yet p a b e) =
    arrive seen rest s
      (rw (a, e) (ap (λ (n : ℕ). take n (seen ++ rest)) (omega arith) ∙ take-append seen rest))
      (λ h. e ∙ sym (no_length seen (sym h ∙ a)))
pass_separator seen rest s (after name e p a b) =
    let tail = path_separator ∷ name in
    let long : length seen ≡ length s.file_path + length tail =
      ap (length {A = ℕ}) (sym e) ∙ length-append s.file_path tail in
    let gap : length seen - length s.file_path ≡ length tail = omega (arith, long) in
    arrive seen rest s
      (ap (λ (l : List ℕ). s.file_path ++ l)
          (ap (λ (n : ℕ). substr n (length seen - n) (seen ++ rest)) a
            ∙ ap
                (λ (l : List ℕ).
                  take (length seen - length s.file_path) (drop (length s.file_path) (l ++ rest)))
                (sym e)
            ∙ ap
                (λ (l : List ℕ).
                  take (length seen - length s.file_path) (drop (length s.file_path) l))
                (append_assoc s.file_path tail rest)
            ∙ ap (take (length seen - length s.file_path)) (drop-append s.file_path (tail ++ rest))
            ∙ ap (λ (n : ℕ). take n (tail ++ rest)) gap
            ∙ take-append tail rest)
        ∙ e)
      (λ h. absurd (omega (arith, h, a, long)))

split_loop-Passed :
    (full seen rest : List ℕ) (s : Split)
    → seen ++ rest ≡ full
    → Passed seen s
    → Passed full (split_loop full s (separators (length seen) rest))
unfolding split_loop
split_loop-Passed full seen [] s e p = rw (sym (append-nil seen) ∙ e) at p
split_loop-Passed full seen (c ∷ rest) s e p =
    let shift : length seen + 1 ≡ length (seen ++ c ∷ []) = sym (length-append seen (c ∷ [])) in
    let joined : (seen ++ c ∷ []) ++ rest ≡ full = append_assoc seen (c ∷ []) rest ∙ e in
    elim (Bool-cases (nat_beq c path_separator)) [
      | inl sep ↦
          let passed : Passed (seen ++ c ∷ []) (at_separator full s (length seen)) =
            rw (← e, (nat_beq_iff c path_separator).0 sep)
              (pass_separator seen (path_separator ∷ rest) s p) in
          rw (sep, shift)
            (split_loop-Passed full (seen ++ c ∷ []) rest (at_separator full s (length seen)) joined
              passed)
      | inr plain ↦
          rw (plain, shift)
            (split_loop-Passed full (seen ++ c ∷ []) rest s joined (pass_plain seen c s plain p))
    ]

-- The directory and the name, joined by a separator, are the path; without one the name is.
pub data Splits (path : List ℕ) (parts : List ℕ × List ℕ) : Type 0 where
  whole : IsPlain path → parts ≡ ([], path) → Splits path parts
  apart : parts.0 ++ path_separator ∷ parts.1 ≡ path → IsPlain parts.1 → Splits path parts

parts-Splits :
    (path : List ℕ) (s : Split)
    → Passed path s
    → Splits path (s.file_path, substr (s.prev_pos + s.offset) (length path - s.prev_pos) path)
parts-Splits path s (none_yet p a b e) =
    let from_start : s.prev_pos + s.offset ≡ 0 = omega (arith, a, b) in
    whole p (
      rw (e, from_start)
        (ap (λ (l : List ℕ). ([], l))
          (take-all (length path - s.prev_pos) path (omega (arith, a)))))
parts-Splits path s (after name e p a b) =
    let d = s.file_path in
    let long : length path ≡ length d + suc (length name) =
      ap (length {A = ℕ}) (sym e) ∙ length-append d (path_separator ∷ name) in
    let start : s.prev_pos + s.offset ≡ length (d ++ path_separator ∷ []) =
      omega (arith, a, b, length-append {0} d (path_separator ∷ [])) in
    let behind : drop (s.prev_pos + s.offset) path ≡ name =
      ap (λ (n : ℕ). drop n path) start
      ∙ ap (drop (length (d ++ path_separator ∷ [])))
          (sym e ∙ sym (append_assoc d (path_separator ∷ []) name))
      ∙ drop-append (d ++ path_separator ∷ []) name in
    let named : substr (s.prev_pos + s.offset) (length path - s.prev_pos) path ≡ name =
      ap (take (length path - s.prev_pos)) behind
      ∙ take-all (length path - s.prev_pos) name (omega (arith, long, a)) in
    apart (ap (λ (l : List ℕ). d ++ path_separator ∷ l) named ∙ e) (rw named p)

some_length : (xs : List ℕ) → xs ≢ [] → nat_beq (length xs) 0 ≡ false
some_length [] ne = absurd (ne refl)
some_length (x ∷ xs) ne = ground arith

joined-path :
    (path : List ℕ) (parts : List ℕ × List ℕ)
    → Splits path parts
    → parts.0 ≢ []
    → parts.1 ≢ []
    → full_path parts.1 parts.0 ≡ path
unfolding full_path
joined-path path parts (whole p e) some_directory some_name =
    absurd (some_directory (ap (λ (t : List ℕ × List ℕ). t.0) e))
joined-path path parts (apart e p) some_directory some_name =
    let d : nat_beq (length parts.0) 0 ≡ false = some_length parts.0 some_directory in
    let n : nat_beq (length parts.1) 0 ≡ false = some_length parts.1 some_name in
    rw (d, n) (append_assoc parts.0 (path_separator ∷ []) parts.1 ∙ e)

pub get_directory_and_file_name-Splits :
    (path : List ℕ) → Splits path (get_directory_and_file_name path)
unfolding get_directory_and_file_name
get_directory_and_file_name-Splits path = parts-Splits path _ (
    split_loop-Passed path [] path (record { prev_pos = 0; offset = 0; file_path = [] }) refl
      (none_yet tt refl refl refl))

-- If getDirectoryAndFileName gives a directory and a name that are not empty, fullPath of the two
-- is the path again.
pub full_path-split :
    (path : List ℕ)
    → (get_directory_and_file_name path).0 ≢ []
    → (get_directory_and_file_name path).1 ≢ []
    → full_path (get_directory_and_file_name path).1 (get_directory_and_file_name path).0 ≡ path
full_path-split path some_directory some_name =
    joined-path path (get_directory_and_file_name path) (get_directory_and_file_name-Splits path)
      some_directory some_name
