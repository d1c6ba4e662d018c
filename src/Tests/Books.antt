-- ===== src/Tests/Books.antt =====
-- The theorems on configuration files at concrete inputs.
use ipcinfra.Prelude.{◌≡◌, refl, false, Option, some, [], ◌∷◌, arith, All}
use ipcinfra.Prelude.Run.{Returns}
use ipcinfra.LookupTable.Hash.{find}
use ipcinfra.LookupTable.Hash.Laws.{IsUnique}
use ipcinfra.Configuration.{Text, text_eq, SectionTable}
use ipcinfra.Configuration.Reader.{fill_table}
use ipcinfra.Configuration.Reader.Ending.{Fills, fill_table-Fills}
use ipcinfra.Configuration.Reader.Printed.ReadBack.{print, IsSection}
use ipcinfra.Configuration.Book.{
  ConfigurationAddress, ConfigurationBook, init_from, find_value_in_table, collection_for,
}
use ipcinfra.Configuration.Book.Collections.{Collects, collection_for-Collects}
use ipcinfra.Configuration.Book.ReadBack.{ReadsBack, init_from-ReadsBack}

-- "s" with k=v, "t" with a=1 2 and b=
abbrev sections : SectionTable
sections =
    (b's' ∷ [], (b'k' ∷ [], b'v' ∷ []) ∷ [])
    ∷ (b't' ∷ [], (b'a' ∷ [], b'1' ∷ b' ' ∷ b'2' ∷ []) ∷ (b'b' ∷ [], []) ∷ [])
    ∷ []

sections-IsSection : All IsSection sections
sections-IsSection = (
  record {
    name_open = (refl, tt);
    name_close = (refl, tt);
    pairs = (
      record {
        key_sep = (refl, tt);
        key_line = (refl, tt);
        key_open = (refl, tt);
        value_line = (refl, tt);
        value_open = (refl, tt);
      },
      tt,
    );
    some_pair = omega arith;
  },
  (
    record {
      name_open = (refl, tt);
      name_close = (refl, tt);
      pairs = (
        record {
          key_sep = (refl, tt);
          key_line = (refl, tt);
          key_open = (refl, tt);
          value_line = (refl, (refl, (refl, tt)));
          value_open = (refl, (refl, (refl, tt)));
        },
        (
          record {
            key_sep = (refl, tt);
            key_line = (refl, tt);
            key_open = (refl, tt);
            value_line = tt;
            value_open = tt;
          },
          tt,
        ),
      );
      some_pair = omega arith;
    },
    tt,
  ),
)

sections-IsUnique : IsUnique sections
unfolding find
sections-IsUnique = (refl, (refl, tt))

abbrev book : ConfigurationBook
book = record {
  file_content = [];
  reader = record { is_open = false; failed = false; bytes = []; position = 0 };
  section_table = sections;
}

init_from-ReadsBack_example : Returns (ReadsBack sections) (init_from (some (print sections)) book)
init_from-ReadsBack_example = init_from-ReadsBack sections book sections-IsSection sections-IsUnique

abbrev as_text : Text → Option Text
as_text text = some text

abbrev address : ConfigurationAddress
address = record { section = b't' ∷ []; key = b'a' ∷ [] }

address_value : find_value_in_table address book ≡ some (b'1' ∷ b' ' ∷ b'2' ∷ [])
unfolding find_value_in_table find
address_value = refl

collection_for-Collects_example :
    Returns
      (Collects as_text (b' ' ∷ []) (b'1' ∷ b' ' ∷ b'2' ∷ []) [] false)
      (collection_for as_text 4 address (b' ' ∷ []) [] book)
collection_for-Collects_example =
    collection_for-Collects as_text 4 address (b' ' ∷ []) (b'1' ∷ b' ' ∷ b'2' ∷ []) [] book
      (omega arith) address_value (omega arith)

fill_table-Fills_example : Fills (fill_table (print sections))
fill_table-Fills_example = fill_table-Fills (print sections)
