-- ===== src/Configuration/Book/Collections.antt =====
-- What ConfigurationBook::collectionFor makes of a text (Configuration/ConfigurationBook.hpp).
use mathlib.Core.Bool.{true≢false}
use ipcinfra.Prelude.{
  ℕ, zero, suc, ◌<◌, ◌≡◌, ◌≢◌, ◌⊎◌, refl, sym, ap, ◌∙◌, Bool, true, false, ◌||◌, Bool-cases, Option,
  none, some, inl, inr, List, [], ◌∷◌, ◌++◌, length, drop, length-append, append_assoc, append-nil,
  arith, All, nat_beq, nat_beq_iff,
}
use ipcinfra.Prelude.Run.{fault, endless_loop, Returns}
use ipcinfra.Configuration.{Text}
use ipcinfra.Configuration.Book.{
  is_prefix, search, insert_element, collect, collection_for, ConfigurationAddress,
  ConfigurationBook, find_value_in_table,
}

abbrev pub occurs : Text → Text → Bool
occurs sep [] = is_prefix sep []
occurs sep (b ∷ bytes) = is_prefix sep (b ∷ bytes) || occurs sep bytes

-- Each element with the separator behind it.
abbrev pub terminated : Text → List Text → Text
terminated sep [] = []
terminated sep (element ∷ elements) = element ++ (sep ++ terminated sep elements)

prefix-whole : (sep text : Text) → is_prefix sep text ≡ true → sep ++ drop (length sep) text ≡ text
prefix-whole [] text h = refl
prefix-whole (c ∷ sep) [] h = absurd (true≢false (sym h))
prefix-whole (c ∷ sep) (b ∷ bytes) h = elim (Bool-cases (nat_beq c b)) [
  | inr other ↦ absurd (true≢false (sym (rw other at h)))
  | inl same ↦
      let rest : is_prefix sep bytes ≡ true = rw same at h in
      rw ((nat_beq_iff c b).0 same) (ap (λ (t : Text). b ∷ t) (prefix-whole sep bytes rest))
]

prefix-append :
    (sep text more : Text) → is_prefix sep (text ++ more) ≡ false → is_prefix sep text ≡ false
prefix-append [] text more h = h
prefix-append (c ∷ sep) [] more h = refl
prefix-append (c ∷ sep) (b ∷ bytes) more h = ground (arith, prefix-append sep bytes more)

-- What a search for a separator of at least one byte gives.
record Found (sep text : Text) (parts : Text × Text) : Type 0 where
  whole : (parts.0 ++ (sep ++ parts.1) ≡ text) ⊎ ((parts.0 ≡ text) × (parts.1 ≡ []))
  plain : occurs sep parts.0 ≡ false

extend_whole :
    (sep bytes : Text) (b : ℕ) (parts : Text × Text)
    → (parts.0 ++ (sep ++ parts.1) ≡ bytes) ⊎ ((parts.0 ≡ bytes) × (parts.1 ≡ []))
    → (b ∷ parts.0 ++ (sep ++ parts.1) ≡ b ∷ bytes) ⊎ ((b ∷ parts.0 ≡ b ∷ bytes) × (parts.1 ≡ []))
extend_whole sep bytes b parts (inl e) = inl (ap (λ (t : Text). b ∷ t) e)
extend_whole sep bytes b parts (inr (e, n)) = inr (ap (λ (t : Text). b ∷ t) e, n)

start_plain :
    (sep bytes : Text) (b : ℕ) (parts : Text × Text)
    → (parts.0 ++ (sep ++ parts.1) ≡ bytes) ⊎ ((parts.0 ≡ bytes) × (parts.1 ≡ []))
    → is_prefix sep (b ∷ bytes) ≡ false
    → is_prefix sep (b ∷ parts.0) ≡ false
start_plain sep bytes b parts (inl e) h = prefix-append sep (b ∷ parts.0) (sep ++ parts.1) (rw e h)
start_plain sep bytes b parts (inr (e, n)) h = rw e h

search-Found : (sep text : Text) → 0 < length sep → Found sep text (search sep text)
unfolding search
search-Found [] text some_sep = absurd (omega arith)
search-Found (c ∷ sep) [] some_sep = record { whole = inr (refl, refl); plain = refl }
search-Found (c ∷ sep) (b ∷ bytes) some_sep =
    let found = search-Found (c ∷ sep) bytes some_sep in
    let parts = search (c ∷ sep) bytes in
    elim (Bool-cases (is_prefix (c ∷ sep) (b ∷ bytes))) [
      | inl here ↦
          rw here (record { whole = inl (prefix-whole (c ∷ sep) (b ∷ bytes) here); plain = refl })
      | inr later ↦ rw later (record {
        whole = extend_whole (c ∷ sep) bytes b parts found.whole;
        plain = rw (start_plain (c ∷ sep) bytes b parts found.whole later, found.plain) refl;
      })
    ]

behind-shorter :
    (sep text : Text) (b : ℕ) (parts : Text × Text)
    → 0 < length sep
    → Found sep (b ∷ text) parts
    → length parts.1 < length (b ∷ text)
behind-shorter sep text b parts some_sep found = shorter found.whole
  where
    shorter :
        (parts.0 ++ (sep ++ parts.1) ≡ b ∷ text) ⊎ ((parts.0 ≡ b ∷ text) × (parts.1 ≡ []))
        → length parts.1 < length (b ∷ text)
    shorter (inl e) = omega (
      arith,
      ap (length {A = ℕ}) e,
      length-append parts.0 (sep ++ parts.1),
      length-append sep parts.1,
    )
    shorter (inr (e, n)) = omega (arith, ap (length {A = ℕ}) n)

module _ {T : Type 0} (convert : Text → Option T) where
  abbrev pub to_list : Option T → List T
  to_list none = []
  to_list (some value) = value ∷ []

  -- The values of the elements that can be converted.
  abbrev pub converted : List Text → List T
  converted [] = []
  converted (element ∷ elements) = to_list (convert element) ++ converted elements

  abbrev pub some_value : List T → Bool
  some_value [] = false
  some_value (value ∷ values) = true

  pub record Collects (sep text : Text) (out : List T) (res : Bool) (r : Bool × List T)
      : Type 0 where
    pub elements : List Text
    pub whole :
        (terminated sep elements ≡ text) ⊎ ((terminated sep elements ≡ text ++ sep) × (text ≢ []))
    pub plain : All (λ element. occurs sep element ≡ false) elements
    pub values : r.1 ≡ out ++ converted elements
    pub answered : r.0 ≡ (res || some_value (converted elements))

  insert-values :
      (x : Option T) (out : List T) (res : Bool) (rest : List T)
      → (insert_element convert x out res).0 ++ rest ≡ out ++ (to_list x ++ rest)
  insert-values none out res rest = refl
  insert-values (some value) out res rest = append_assoc out (value ∷ []) rest

  insert-answer :
      (x : Option T) (out : List T) (res : Bool) (rest : List T)
      → ((insert_element convert x out res).1 || some_value rest)
        ≡ (res || some_value (to_list x ++ rest))
  insert-answer none out res rest = refl
  insert-answer (some value) out true rest = refl
  insert-answer (some value) out false rest = refl

  join_whole :
      (sep text more : Text) (parts : Text × Text)
      → text ≢ []
      → (parts.0 ++ (sep ++ parts.1) ≡ text) ⊎ ((parts.0 ≡ text) × (parts.1 ≡ []))
      → (more ≡ parts.1) ⊎ ((more ≡ parts.1 ++ sep) × (parts.1 ≢ []))
      → (parts.0 ++ (sep ++ more) ≡ text) ⊎ ((parts.0 ++ (sep ++ more) ≡ text ++ sep) × (text ≢ []))
  join_whole sep text more parts ne (inl e) (inl f) = inl (rw f e)
  join_whole sep text more parts ne (inl e) (inr (f, g)) = inr (
    rw f (
        ap (λ (t : Text). parts.0 ++ t) (sym (append_assoc sep parts.1 sep))
        ∙ sym (append_assoc parts.0 (sep ++ parts.1) sep)
        ∙ ap (λ (t : Text). t ++ sep) e),
    ne,
  )
  join_whole sep text more parts ne (inr (e, n)) (inl f) =
      inr (rw (f, n, append-nil sep) (ap (λ (t : Text). t ++ sep) e), ne)
  join_whole sep text more parts ne (inr (e, n)) (inr (f, g)) = absurd (g n)

  module _ (sep text : Text) (out : List T) (res : Bool) (parts : Text × Text)
      (r : Bool × List T) where
    -- One element, put before those of the text behind it.
    put_before :
        text ≢ []
        → Found sep text parts
        → Collects sep parts.1
            (insert_element convert (convert parts.0) out res).0
            (insert_element convert (convert parts.0) out res).1
            r
        → Collects sep text out res r
    put_before ne found c = record {
      elements = parts.0 ∷ c.elements;
      whole = join_whole sep text (terminated sep c.elements) parts ne found.whole c.whole;
      plain = (found.plain, c.plain);
      values = c.values ∙ insert-values (convert parts.0) out res (converted c.elements);
      answered = c.answered ∙ insert-answer (convert parts.0) out res (converted c.elements);
    }

  collect-Collects :
      (rounds : ℕ) (sep text : Text) (out : List T) (res : Bool)
      → 0 < length sep
      → length text < rounds
      → Returns (Collects sep text out res) (collect convert rounds sep text out res)
  unfolding collect
  collect-Collects zero sep text out res some_sep enough = absurd (omega arith)
  collect-Collects (suc rounds) sep [] out res some_sep enough = (
    (res, out),
    refl,
    record {
      elements = [];
      whole = inl refl;
      plain = tt;
      values = sym (append-nil out);
      answered = ground arith;
    },
  )
  collect-Collects (suc rounds) sep (b ∷ bytes) out res some_sep enough =
      let parts = search sep (b ∷ bytes) in
      let found = search-Found sep (b ∷ bytes) some_sep in
      let inserted = insert_element convert (convert parts.0) out res in
      let (r, run, c) =
        collect-Collects rounds sep parts.1 inserted.0 inserted.1 some_sep
          (omega (arith, behind-shorter sep bytes b parts some_sep found)) in
      (r, run, put_before sep (b ∷ bytes) out res parts r (λ e. cc) found c)

  -- If an address has a text and the separator is not empty, then collectionFor returns after at
  -- most one round for each byte of the text and one more; the elements, each free of the
  -- separator and followed by it, make up the text, or the text with one more separator if it is
  -- not empty; the container gains at its end the values of those elements that can be converted,
  -- in their order, and the answer is whether there are any.
  pub collection_for-Collects :
      (rounds : ℕ) (addr : ConfigurationAddress) (sep text : Text) (out : List T)
      (b : ConfigurationBook)
      → 0 < length sep
      → find_value_in_table addr b ≡ some text
      → length text < rounds
      → Returns (Collects sep text out false) (collection_for convert rounds addr sep out b)
  unfolding collection_for
  collection_for-Collects rounds addr sep text out b some_sep e enough =
      rw (e, collection_for) (collect-Collects rounds sep text out false some_sep enough)

  -- An empty separator is found again and again where the search starts.
  pub collect_spins :
      (rounds : ℕ) (b : ℕ) (bytes : Text) (out : List T) (res : Bool)
      → convert [] ≡ none
      → collect convert rounds [] (b ∷ bytes) out res ≡ fault endless_loop
  unfolding collect search
  collect_spins zero b bytes out res none_of = refl
  collect_spins (suc rounds) b bytes out res none_of =
      rw none_of (collect_spins rounds b bytes out res none_of)
