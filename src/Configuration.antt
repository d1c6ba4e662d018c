-- ===== src/Configuration.antt =====
-- The configuration files: Configuration/ConfigurationReader.cpp (Configuration/Reader) and
-- Configuration/ConfigurationBook.cpp and .hpp (Configuration/Book). Texts are lists of bytes, and a
-- string_view is the text that it shows.
pub mod Reader
pub mod Book
use mathlib.Core.Bool.{true≢false}
use ipcinfra.Prelude.{
  ℕ, ◌≡◌, ◌↔◌, refl, sym, ap, Bool, true, false, ◌&&◌, List, [], ◌∷◌, arith, nat_beq, nat_beq_iff,
}
use ipcinfra.Prelude.Classes.{Eq}

abbrev pub Text : Type 0
Text = List ℕ

abbrev pub text_beq : Text → Text → Bool
text_beq [] [] = true
text_beq [] (b ∷ bs) = false
text_beq (a ∷ rest) [] = false
text_beq (a ∷ rest) (b ∷ bs) = nat_beq a b && text_beq rest bs

pub text_beq_iff : (s t : Text) → (text_beq s t ≡ true) ↔ (s ≡ t)
text_beq_iff [] [] = (λ h. refl, λ e. refl)
text_beq_iff [] (b ∷ bs) = (λ h. absurd (true≢false (sym h)), λ e. cc)
text_beq_iff (a ∷ rest) [] = (λ h. absurd (true≢false (sym h)), λ e. cc)
text_beq_iff (a ∷ rest) (b ∷ bs) = grind (arith, nat_beq_iff a b, text_beq_iff rest bs)

instance abbrev pub text_eq : Eq Text
text_eq = record { equal = text_beq; equal_iff = text_beq_iff }

abbrev pub KeyValues : Type 0
KeyValues = List (Text × Text)

abbrev pub SectionTable : Type 0
SectionTable = List (Text × KeyValues)
