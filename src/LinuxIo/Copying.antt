-- ===== src/LinuxIo/Copying.antt =====
-- LinuxIOUtilities::copyTo (UtilitiesInfra/LinuxUtils/LinuxIOUtilities.cpp), with the descriptors that
-- its calls of open answer.

use Prim.Native.Nat.{min}
use ipcinfra.Prelude.{
  ℕ, suc, ◌+◌, ◌-◌, ◌≤◌, ◌<◌, ◌≡◌, refl, ap, ◌∙◌, Bool, true, false, not, Option, none, some, List,
  [], ◌∷◌, ◌++◌, length, take, drop, take-all, drop-all, arith, nat_beq, ltb, if◌then◌else◌,
}
use ipcinfra.Prelude.Int.{ℤ, pos, negsuc, int_ltb}
use ipcinfra.Prelude.Classes.{◌==◌, int_eq}
use ipcinfra.LinuxIo.{Offer, chunk, left}
use ipcinfra.LinuxIo.Reading.{before_end_line, read_line_loop, read_line}
use ipcinfra.LinuxIo.Writing.{Written, write_loop, write}

-- The loop, over the offers that each call of `write` is made; `copied` is what they took.
unfoldable pub copy_lines : ℕ → List ℕ → List ℕ → List Offer → List (List Offer) → Option (List ℕ)
copy_lines size copied stream offers [] = elim (read_line size [] stream offers) [
  | none ↦ none
  | some line ↦ if ltb 0 line.size then none else some copied
]
copy_lines size copied stream offers (writes ∷ more) = elim (read_line size [] stream offers) [
  | none ↦ none
  | some line ↦ elim (ltb 0 line.size) [
    | false ↦ some copied
    | true ↦ elim (write line.result writes) [
      | none ↦ none
      | some w ↦ copy_lines size (copied ++ w.taken) line.stream line.offers more
    ]
  ]
]

-- The answer, the bytes that were written, and the descriptors that were closed.
pub record Copied : Type 0 where
  pub answer : Bool
  pub text : List ℕ
  pub closed : List ℤ

-- `available` is what `availableSize` answers for the new file in the end.
unfoldable pub copy_to :
    ℕ → Bool → Bool → ℤ → ℤ → ℤ → List ℕ → List Offer → List (List Offer) → Option Copied
unfolding copy_lines
copy_to size original_exists copy_exists existing_fd new_fd available stream offers writes =
    let refused : Copied = record { answer = false; text = []; closed = [] } in
    if not original_exists
    then some refused
    else if copy_exists
    then some refused
    else if existing_fd == negsuc 0
    then some refused
    else if new_fd == negsuc 0
    then some refused
    else elim (copy_lines size [] stream offers writes) [
      | none ↦ none
      | some text ↦ some (record {
        answer = not (int_ltb available (pos 0));
        text = text;
        closed = existing_fd ∷ new_fd ∷ [];
      })
    ]

-- A read that takes all of a text with an end of line: what stands behind it is gone.
module _ (size : ℕ) (text : List ℕ) (a : ℕ) (offers : List Offer) where
  read_line_once :
      0 < length (before_end_line text)
      → length (before_end_line text) < length text
      → length text ≤ size
      → length text ≤ a
      → read_line size [] text (Offer.up_to a ∷ offers)
        ≡ some (record {
          size = 0 + length (before_end_line text);
          result = before_end_line text;
          stream = [];
          offers = offers;
        })
  unfolding read_line read_line_loop
  read_line_once some_text ended fits enough =
      let all_of : chunk size a text ≡ text =
        take-all (min size a) text (omega (arith, fits, enough)) in
      let nothing : left size a text ≡ [] =
        drop-all (min size a) text (omega (arith, fits, enough)) in
      let some_bytes : nat_beq 0 (length text) ≡ false = ground arith in
      let cut : nat_beq (length (before_end_line text)) (length text) ≡ false = ground arith in
      rw (all_of, nothing, some_bytes, cut) refl

read_line_at_end :
    (size b : ℕ) (offers : List Offer)
    → read_line size [] [] (Offer.up_to b ∷ offers)
      ≡ some (record { size = 0; result = []; stream = []; offers = offers })
unfolding read_line read_line_loop
read_line_at_end size b offers =
    let all_of : chunk size b [] ≡ [] = take-all (min size b) [] (omega arith) in
    let nothing : left size b [] ≡ [] = drop-all (min size b) [] (omega arith) in
    rw (all_of, nothing) refl

taken_all :
    (text : List ℕ)
    → ◌≡◌ {A = Written}
        (record { size = 0 + length text; taken = take (length text) text })
        (record { size = length text; taken = text })
taken_all text =
    let all_of : take (length text) text ≡ text = take-all (length text) text (omega arith) in
    let n : 0 + length text ≡ length text = omega arith in rw (all_of, n) refl

write_loop_once :
    (text : List ℕ) (c : ℕ) (offers : List Offer)
    → 0 < length text
    → length text ≤ c
    → write_loop text (record { size = 0; taken = [] }) (Offer.up_to c ∷ offers)
      ≡ some (record { size = length text; taken = text })
unfolding write_loop
write_loop_once [] c offers positive enough = absurd (omega arith)
write_loop_once (byte ∷ rest) c offers positive enough =
    let whole = byte ∷ rest in
    let all_of : min (length whole) c ≡ length whole = omega arith in
    ap (λ (n : ℕ). write_loop (drop n whole) (record { size = 0 + n; taken = take n whole }) offers)
      all_of
    ∙ ap
        (λ (l : List ℕ).
          write_loop l (record { size = 0 + length whole; taken = take (length whole) whole })
            offers)
        (drop-all (length whole) whole (omega arith))
    ∙ ap (λ (w : Written). some w) (taken_all whole)

write_once :
    (text : List ℕ) (c : ℕ) (offers : List Offer)
    → length text ≤ c
    → write text (Offer.up_to c ∷ offers) ≡ some (record { size = length text; taken = text })
unfolding write
write_once [] c offers enough = refl
write_once (byte ∷ rest) c offers enough =
    write_loop_once (byte ∷ rest) c offers (omega arith) enough

copy_lines_at_end :
    (size b : ℕ) (copied : List ℕ) (offers : List Offer) (more : List (List Offer))
    → copy_lines size copied [] (Offer.up_to b ∷ offers) more ≡ some copied
unfolding copy_lines
copy_lines_at_end size b copied offers [] = rw (read_line_at_end size b offers, copy_lines) refl
copy_lines_at_end size b copied offers (writes ∷ more) =
    rw (read_line_at_end size b offers, copy_lines) refl

copy_lines_step :
    (size n : ℕ) (copied stream line : List ℕ) (offers rest writes : List Offer)
    (more : List (List Offer)) (w : Written)
    → read_line size [] stream offers
      ≡ some (record { size = 0 + suc n; result = line; stream = []; offers = rest })
    → write line writes ≡ some w
    → copy_lines size copied stream offers (writes ∷ more)
      ≡ copy_lines size (copied ++ w.taken) [] rest more
unfolding copy_lines
copy_lines_step size n copied stream line offers rest writes more w e e' =
    let positive : ltb 0 (0 + suc n) ≡ true = ground arith in rw (e, positive, e', copy_lines) refl

-- If a file has an end of line behind a first line that is not empty, and fits in the read
-- buffer, and the kernel gives and takes all that it is asked to at once, then the loop of copyTo
-- copies the first line without its end, and nothing else.
pub copy_lines-Truncates :
    (size : ℕ) (text : List ℕ) (a b c : ℕ) (offers writes : List Offer) (more : List (List Offer))
    → 0 < length (before_end_line text)
    → length (before_end_line text) < length text
    → length text ≤ size
    → length text ≤ a
    → length text ≤ c
    → copy_lines size [] text
        (Offer.up_to a ∷ Offer.up_to b ∷ offers)
        ((Offer.up_to c ∷ writes) ∷ more)
      ≡ some (before_end_line text)
copy_lines-Truncates size text a b c offers writes more some_text ended fits enough enough' =
    let line = before_end_line text in
    let n : length line ≡ suc (length line - 1) = omega (arith, some_text) in
    copy_lines_step size (length line - 1) [] text line _ (Offer.up_to b ∷ offers) _ more _
      (rw (← n) (read_line_once size text a (Offer.up_to b ∷ offers) some_text ended fits enough))
      (write_once line c writes (omega (arith, ended, enough')))
    ∙ copy_lines_at_end size b line offers more
