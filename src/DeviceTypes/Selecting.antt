-- ===== src/DeviceTypes/Selecting.antt =====
-- What type a configuration leads to (TransportInfra/ConnectorClient.cpp).
use ipcinfra.Prelude.{ℕ, ◌≡◌, refl, ap, ◌∙◌, Bool, Option, All, some}
use ipcinfra.Prelude.Run.{Returns}
use ipcinfra.LookupTable.Hash.{find}
use ipcinfra.LookupTable.Hash.Laws.{IsUnique}
use ipcinfra.Configuration.{Text, text_eq, SectionTable}
use ipcinfra.Configuration.Reader.Printed.ReadBack.{print, IsSection}
use ipcinfra.Configuration.Book.{ConfigurationBook, init_from, value_for}
use ipcinfra.Configuration.Book.ReadBack.{look_up, ReadsBack, init_from-ReadsBack}
use ipcinfra.Conversion.{convert_text}
use ipcinfra.DeviceTypes.{
  DeviceType, underlying, ipv4_tcp_socket_device, ipv4_udp_socket_device, unix_stream_socket_device,
  unix_dgram_socket_device, reading_fifo_device, writing_fifo_device, dev_type_key, socket_type_key,
  socket_domain_key, profile_key, socket_word, pipe_word, unix_word, ipv4_word, ipv6_word,
  stream_word, datagram_word, read_word, write_word, socket_device_type, profile_device_type,
  to_lower, get_socket_device_type, get_pipe_device_type, get_device_type,
}

-- The devices of sockets by type and domain, and of pipes by profile.
pub data IsSocket : Text → Text → DeviceType → Type 0 where
  ipv4_datagram : IsSocket datagram_word ipv4_word ipv4_udp_socket_device
  ipv6_datagram : IsSocket datagram_word ipv6_word ipv4_udp_socket_device
  unix_datagram : IsSocket datagram_word unix_word unix_dgram_socket_device
  ipv4_stream : IsSocket stream_word ipv4_word ipv4_tcp_socket_device
  ipv6_stream : IsSocket stream_word ipv6_word ipv4_tcp_socket_device
  unix_stream : IsSocket stream_word unix_word unix_stream_socket_device

pub data IsPipe : Text → DeviceType → Type 0 where
  writing_profile : IsPipe write_word reading_fifo_device
  reading_profile : IsPipe read_word writing_fifo_device

socket_device_type-IsSocket :
    {kind domain : Text} {t : DeviceType}
    → IsSocket kind domain t
    → socket_device_type kind domain ≡ t
unfolding socket_device_type find
socket_device_type-IsSocket ipv4_datagram = refl
socket_device_type-IsSocket ipv6_datagram = refl
socket_device_type-IsSocket unix_datagram = refl
socket_device_type-IsSocket ipv4_stream = refl
socket_device_type-IsSocket ipv6_stream = refl
socket_device_type-IsSocket unix_stream = refl

profile_device_type-IsPipe :
    {profile : Text} {t : DeviceType} → IsPipe profile t → profile_device_type profile ≡ t
unfolding profile_device_type
profile_device_type-IsPipe writing_profile = refl
profile_device_type-IsPipe reading_profile = refl

module _ (tolower : ℕ → ℕ) where
  -- A value that is the word once its letters are small.
  pub record Says (value : Option Text) (word : Text) : Type 0 where
    pub text : Text
    pub present : value ≡ some text
    pub lowered : to_lower tolower text ≡ word

  -- What the values under a section's keys describe.
  pub data Describes (value : Text → Option Text) : DeviceType → Type 0 where
    socket :
        {kind domain : Text} {t : DeviceType}
        → Says (value dev_type_key) socket_word
        → Says (value socket_type_key) kind
        → Says (value socket_domain_key) domain
        → IsSocket kind domain t
        → Describes value t
    pipe :
        {profile : Text} {t : DeviceType}
        → Says (value dev_type_key) pipe_word
        → Says (value profile_key) profile
        → IsPipe profile t
        → Describes value t

  abbrev pub under : SectionTable → Text → Text → Option Text
  under sections section key = look_up (record { section = section; key = key }) sections

  module _ (sections : SectionTable) (section : Text) (r : Bool × ConfigurationBook)
      (back : ReadsBack sections r) where
    value_for-Says :
        (key : Text) {word : Text} (s : Says (under sections section key) word)
        → value_for convert_text (record { section = section; key = key }) r.1 ≡ some s.text
    unfolding value_for
    value_for-Says key s =
        rw (back.values (record { section = section; key = key }) ∙ s.present, value_for) refl

    get_device_type-read_back :
        {t : DeviceType}
        → Describes (under sections section) t
        → get_device_type tolower r.1 section ≡ underlying t
    unfolding get_device_type get_socket_device_type get_pipe_device_type
    get_device_type-read_back (socket dev kind domain is_socket) =
        rw
          (
            value_for-Says dev_type_key dev,
            dev.lowered,
            value_for-Says socket_type_key kind,
            value_for-Says socket_domain_key domain,
            get_device_type,
            get_socket_device_type,
          )
          (ap underlying (
            (λ i. socket_device_type (kind.lowered i) (domain.lowered i))
            ∙ socket_device_type-IsSocket is_socket))
    get_device_type-read_back (pipe dev profile is_pipe) =
        rw
          (
            value_for-Says dev_type_key dev,
            dev.lowered,
            value_for-Says profile_key profile,
            profile.lowered,
            get_device_type,
            get_pipe_device_type,
          )
          (ap underlying (profile_device_type-IsPipe is_pipe))

  -- For sections as they can be read back (distinct names free of brackets, each with at least
  -- one pair of a key, free of the separator, the end of line and the opening bracket, and a
  -- value, free of the last two), initFrom of the file that they are printed to returns a book
  -- from which getDeviceType selects, for a section that describes a device once the letters of
  -- its values are small, that device's type: of a socket by the six pairs of a type and a
  -- domain, where the domain ipv6 describes the IPv4 types, and of a pipe by its profile, where
  -- write describes the reading and read the writing device.
  pub get_device_type-Describes :
      (sections : SectionTable) (section : Text) (t : DeviceType) (b : ConfigurationBook)
      → All IsSection sections
      → IsUnique sections
      → Describes (under sections section) t
      → Returns
          (λ (r : Bool × ConfigurationBook). get_device_type tolower r.1 section ≡ underlying t)
          (init_from (some (print sections)) b)
  get_device_type-Describes sections section t b s u described =
      let (r, returned, back) = init_from-ReadsBack sections b s u in
      (r, returned, get_device_type-read_back sections section r back described)
