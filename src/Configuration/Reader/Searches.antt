-- ===== src/Configuration/Reader/Searches.antt =====
-- Where the searches of ConfigurationReader::fillTable end
-- (Configuration/ConfigurationReader.cpp).
use ipcinfra.Prelude.{
  ℕ, suc, ◌+◌, ◌≤◌, ◌≡◌, refl, sym, ap, ◌∙◌, true, false, [], ◌∷◌, ◌++◌, length, take, drop, substr,
  length-append, take-append, drop-append, append_assoc, arith, nat_beq, nat_beq_iff, ltb, All,
}
use ipcinfra.Configuration.{Text}
use ipcinfra.Configuration.Reader.{index, search, after_last}

-- No byte is `c`.
abbrev pub Free : ℕ → Text → Type 0
Free c text = All (λ b. nat_beq b c ≡ false) text

pub Free-append : (c : ℕ) (s t : Text) → Free c s → Free c t → Free c (s ++ t)
Free-append c [] t f g = g
Free-append c (b ∷ s) t f g = (f.0, Free-append c s t f.1 g)

index-Free : (c : ℕ) (w rest : Text) → Free c w → index c (w ++ c ∷ rest) ≡ length w
index-Free c [] rest f = rw ((nat_beq_iff c c).1 refl) refl
index-Free c (b ∷ w) rest f = rw f.0 (ap suc (index-Free c w rest f.1))

index-absent : (c : ℕ) (w : Text) → Free c w → index c w ≡ length w
index-absent c [] f = refl
index-absent c (b ∷ w) f = rw f.0 (ap suc (index-absent c w f.1))

-- Behind `seen`, the first `c` comes after `w`.
pub search-at :
    (c : ℕ) (content seen w rest : Text)
    → seen ++ (w ++ c ∷ rest) ≡ content
    → Free c w
    → search c content (length seen) ≡ (length seen + length w, length seen + length w + 1)
search-at c content seen w rest e f =
    let there : index c (drop (length seen) content) ≡ length w =
      ap (λ (l : Text). index c (drop (length seen) l)) (sym e)
      ∙ ap (index c) (drop-append seen (w ++ c ∷ rest))
      ∙ index-Free c w rest f in
    let total : length content ≡ length seen + (length w + suc (length rest)) = omega (
      arith,
      ap (length {A = ℕ}) e,
      length-append seen (w ++ c ∷ rest),
      length-append w (c ∷ rest),
    ) in
    let inside : ltb (length seen + length w) (length content) ≡ true = ground arith in
    rw (there, inside) refl

pub search-absent :
    (c : ℕ) (content seen w : Text)
    → seen ++ w ≡ content
    → Free c w
    → search c content (length seen) ≡ (length content, length content)
search-absent c content seen w e f =
    let there : index c (drop (length seen) content) ≡ length w =
      ap (λ (l : Text). index c (drop (length seen) l)) (sym e)
      ∙ ap (index c) (drop-append seen w)
      ∙ index-absent c w f in
    let total : length seen + length w ≡ length content =
      sym (length-append seen w) ∙ ap (length {A = ℕ}) e in
    let outside : ltb (length content) (length content) ≡ false = ground arith in
    rw (there, total, outside) refl

pub search-ge : (c : ℕ) (content : Text) (from : ℕ) → from ≤ (search c content from).0
search-ge c content from = ground arith

after_last-Free : (c : ℕ) (w : Text) → Free c w → after_last c w ≡ 0
after_last-Free c [] f = refl
after_last-Free c (b ∷ w) f = rw (after_last-Free c w f.1, f.0) refl

-- The line that is open at the end of `seen`.
pub after_last-at :
    (c : ℕ) (seen w : Text) → Free c w → after_last c (seen ++ (c ∷ w)) ≡ length seen + 1
after_last-at c [] w f = rw (after_last-Free c w f, (nat_beq_iff c c).1 refl) refl
after_last-at c (b ∷ seen) w f =
    let e = after_last-at c seen w f in
    let some_line : nat_beq 0 (length seen + 1) ≡ false = ground arith in
    rw (e, some_line) (omega arith)

pub substr-at :
    (content seen w rest : Text) (count : ℕ)
    → seen ++ (w ++ rest) ≡ content
    → count ≡ length w
    → substr (length seen) count content ≡ w
substr-at content seen w rest count e n =
    ap (λ (l : Text). substr (length seen) count l) (sym e)
    ∙ ap (take count) (drop-append seen (w ++ rest))
    ∙ ap (λ (k : ℕ). take k (w ++ rest)) n
    ∙ take-append w rest

index-skip : (c : ℕ) (w rest : Text) → Free c w → index c (w ++ rest) ≡ length w + index c rest
index-skip c [] rest f = omega arith
index-skip c (b ∷ w) rest f = rw f.0 (omega (arith, index-skip c w rest f.1))

-- Bytes other than `c` can be passed over.
pub search-skip :
    (c : ℕ) (content seen w rest : Text)
    → seen ++ (w ++ rest) ≡ content
    → Free c w
    → search c content (length seen) ≡ search c content (length (seen ++ w))
search-skip c content seen w rest e f =
    let first : index c (drop (length seen) content) ≡ length w + index c rest =
      ap (λ (l : Text). index c (drop (length seen) l)) (sym e)
      ∙ ap (index c) (drop-append seen (w ++ rest))
      ∙ index-skip c w rest f in
    let second : index c (drop (length (seen ++ w)) content) ≡ index c rest =
      ap (λ (l : Text). index c (drop (length (seen ++ w)) l))
        (sym e ∙ sym (append_assoc seen w rest))
      ∙ ap (index c) (drop-append (seen ++ w) rest) in
    let same : length seen + (length w + index c rest) ≡ length (seen ++ w) + index c rest =
      omega (arith, length-append seen w) in
    rw (first, second, same) refl
