-- ===== src/Tests/Devices.antt =====
-- The theorem on the choice of a device's type at a concrete input.
use ipcinfra.Prelude.{
  ℕ, ◌≡◌, refl, ◌+◌, ◌&&◌, Bool, false, some, [], ◌∷◌, arith, All, leb, if◌then◌else◌,
}
use ipcinfra.Prelude.Run.{Returns}
use ipcinfra.LookupTable.Hash.{find}
use ipcinfra.LookupTable.Hash.Laws.{IsUnique}
use ipcinfra.Configuration.{text_eq, SectionTable}
use ipcinfra.Configuration.Reader.Printed.ReadBack.{print, IsSection}
use ipcinfra.Configuration.Book.{ConfigurationBook, init_from}
use ipcinfra.Configuration.Book.ReadBack.{look_up}
use ipcinfra.DeviceTypes.{
  underlying, writing_fifo_device, dev_type_key, profile_key, to_lower, get_device_type,
}
use ipcinfra.DeviceTypes.Selecting.{
  Describes, pipe, reading_profile, under, get_device_type-Describes,
}

abbrev small : ℕ → ℕ
small c = if leb 65 c && leb c 90 then c + 32 else c

-- "Pipe" and "READ", in the section "c"
abbrev pipe_sections : SectionTable
pipe_sections =
    (
      b'c' ∷ [],
      (dev_type_key, b'P' ∷ b'i' ∷ b'p' ∷ b'e' ∷ [])
          ∷ (profile_key, b'R' ∷ b'E' ∷ b'A' ∷ b'D' ∷ [])
          ∷ [],
    )
    ∷ []

pipe_sections-IsSection : All IsSection pipe_sections
pipe_sections-IsSection = (
  record {
    name_open = (refl, tt);
    name_close = (refl, tt);
    pairs = (
      record {
        key_sep = (
          refl,
          (refl, (refl, (refl, (refl, (refl, (refl, (refl, (refl, (refl, (refl, tt)))))))))),
        );
        key_line = (
          refl,
          (refl, (refl, (refl, (refl, (refl, (refl, (refl, (refl, (refl, (refl, tt)))))))))),
        );
        key_open = (
          refl,
          (refl, (refl, (refl, (refl, (refl, (refl, (refl, (refl, (refl, (refl, tt)))))))))),
        );
        value_line = (refl, (refl, (refl, (refl, tt))));
        value_open = (refl, (refl, (refl, (refl, tt))));
      },
      (
        record {
          key_sep = (refl, (refl, (refl, (refl, (refl, (refl, (refl, tt)))))));
          key_line = (refl, (refl, (refl, (refl, (refl, (refl, (refl, tt)))))));
          key_open = (refl, (refl, (refl, (refl, (refl, (refl, (refl, tt)))))));
          value_line = (refl, (refl, (refl, (refl, tt))));
          value_open = (refl, (refl, (refl, (refl, tt))));
        },
        tt,
      ),
    );
    some_pair = omega arith;
  },
  tt,
)

pipe_sections-IsUnique : IsUnique pipe_sections
unfolding find
pipe_sections-IsUnique = (refl, tt)

pipe_sections-Describes :
    Describes small (under small pipe_sections (b'c' ∷ [])) writing_fifo_device
unfolding find look_up to_lower
pipe_sections-Describes =
    pipe (record { text = b'P' ∷ b'i' ∷ b'p' ∷ b'e' ∷ []; present = refl; lowered = refl })
      (record { text = b'R' ∷ b'E' ∷ b'A' ∷ b'D' ∷ []; present = refl; lowered = refl })
      reading_profile

abbrev unread_book : ConfigurationBook
unread_book = record {
  file_content = [];
  reader = record { is_open = false; failed = false; bytes = []; position = 0 };
  section_table = [];
}

get_device_type-Describes_example :
    Returns
      (λ (r : Bool × ConfigurationBook).
        get_device_type small r.1 (b'c' ∷ []) ≡ underlying writing_fifo_device)
      (init_from (some (print pipe_sections)) unread_book)
get_device_type-Describes_example =
    get_device_type-Describes small pipe_sections (b'c' ∷ []) writing_fifo_device unread_book
      pipe_sections-IsSection pipe_sections-IsUnique pipe_sections-Describes
