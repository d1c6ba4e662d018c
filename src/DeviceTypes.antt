-- ===== src/DeviceTypes.antt =====
-- The choice of a device's type from a configuration: DeviceTypeReader
-- (TransportInfra/ConnectorClient.cpp). The C library's tolower is a parameter.
pub mod Selecting
use ipcinfra.Prelude.{ℕ, Option, none, some, List, [], ◌∷◌, map, if◌then◌else◌}
use ipcinfra.LookupTable.Hash.{find}
use ipcinfra.Configuration.{Text, text_beq, text_eq}
use ipcinfra.Conversion.{convert_text}
use ipcinfra.Configuration.Book.{ConfigurationAddress, ConfigurationBook, value_for}

-- `EDeviceType`
pub data DeviceType : Type 0 where
  undefined_device ipv4_tcp_socket_device ipv4_udp_socket_device : DeviceType
  ipv6_tcp_socket_device ipv6_udp_socket_device : DeviceType
  unix_stream_socket_device unix_dgram_socket_device : DeviceType
  reading_fifo_device writing_fifo_device last_device : DeviceType

abbrev pub underlying : DeviceType → ℕ
underlying undefined_device = 0
underlying ipv4_tcp_socket_device = 1
underlying ipv4_udp_socket_device = 2
underlying ipv6_tcp_socket_device = 3
underlying ipv6_udp_socket_device = 4
underlying unix_stream_socket_device = 5
underlying unix_dgram_socket_device = 6
underlying reading_fifo_device = 7
underlying writing_fifo_device = 8
underlying last_device = 9

-- "DEVICE_TYPE", "SOCKET_TYPE", "SOCKET_DOMAIN" and "PROFILE"
abbrev pub dev_type_key : Text
dev_type_key = b'D' ∷ b'E' ∷ b'V' ∷ b'I' ∷ b'C' ∷ b'E' ∷ b'_' ∷ b'T' ∷ b'Y' ∷ b'P' ∷ b'E' ∷ []

abbrev pub socket_type_key : Text
socket_type_key = b'S' ∷ b'O' ∷ b'C' ∷ b'K' ∷ b'E' ∷ b'T' ∷ b'_' ∷ b'T' ∷ b'Y' ∷ b'P' ∷ b'E' ∷ []

abbrev pub socket_domain_key : Text
socket_domain_key =
    b'S' ∷ b'O' ∷ b'C' ∷ b'K' ∷ b'E' ∷ b'T' ∷ b'_' ∷ b'D' ∷ b'O' ∷ b'M' ∷ b'A' ∷ b'I' ∷ b'N' ∷ []

abbrev pub profile_key : Text
profile_key = b'P' ∷ b'R' ∷ b'O' ∷ b'F' ∷ b'I' ∷ b'L' ∷ b'E' ∷ []

-- The words that the values are compared with.
abbrev pub socket_word : Text
socket_word = b's' ∷ b'o' ∷ b'c' ∷ b'k' ∷ b'e' ∷ b't' ∷ []

abbrev pub pipe_word : Text
pipe_word = b'p' ∷ b'i' ∷ b'p' ∷ b'e' ∷ []

abbrev pub unix_word : Text
unix_word = b'u' ∷ b'n' ∷ b'i' ∷ b'x' ∷ []

abbrev pub ipv4_word : Text
ipv4_word = b'i' ∷ b'p' ∷ b'v' ∷ b'4' ∷ []

abbrev pub ipv6_word : Text
ipv6_word = b'i' ∷ b'p' ∷ b'v' ∷ b'6' ∷ []

abbrev pub stream_word : Text
stream_word = b's' ∷ b't' ∷ b'r' ∷ b'e' ∷ b'a' ∷ b'm' ∷ []

abbrev pub datagram_word : Text
datagram_word = b'd' ∷ b'a' ∷ b't' ∷ b'a' ∷ b'g' ∷ b'r' ∷ b'a' ∷ b'm' ∷ []

abbrev pub read_word : Text
read_word = b'r' ∷ b'e' ∷ b'a' ∷ b'd' ∷ []

abbrev pub write_word : Text
write_word = b'w' ∷ b'r' ∷ b'i' ∷ b't' ∷ b'e' ∷ []

abbrev pub socket_config_info_to_type : List (Text × List (Text × DeviceType))
socket_config_info_to_type =
    (
      datagram_word,
      (ipv4_word, ipv4_udp_socket_device)
          ∷ (ipv6_word, ipv4_udp_socket_device)
          ∷ (unix_word, unix_dgram_socket_device)
          ∷ [],
    )
    ∷ (
      stream_word,
      (ipv4_word, ipv4_tcp_socket_device)
          ∷ (ipv6_word, ipv4_tcp_socket_device)
          ∷ (unix_word, unix_stream_socket_device)
          ∷ [],
    )
    ∷ []

-- What the two maps hold for a socket's type and domain.
unfoldable pub socket_device_type : Text → Text → DeviceType
unfolding find
socket_device_type socket_type socket_dom = elim (find socket_type socket_config_info_to_type) [
  | none ↦ undefined_device
  | some sock_domain_map ↦ elim (find socket_dom sock_domain_map) [
    | none ↦ undefined_device
    | some ret_dev ↦ ret_dev
  ]
]

-- The comparison of a profile in small letters.
unfoldable pub profile_device_type : Text → DeviceType
profile_device_type profile =
    if text_beq write_word profile
    then reading_fifo_device
    else if text_beq read_word profile
    then writing_fifo_device
    else undefined_device

module _ (tolower : ℕ → ℕ) where
  unfoldable pub to_lower : Text → Text
  to_lower value = map tolower value

  unfoldable pub get_socket_device_type : ConfigurationBook → Text → DeviceType
  unfolding value_for to_lower socket_device_type
  get_socket_device_type book section =
      elim (value_for convert_text (record { section = section; key = socket_type_key }) book) [
        | none ↦ undefined_device
        | some socket_type ↦
            elim (value_for convert_text (record { section = section; key = socket_domain_key })
              book) [
                | none ↦ undefined_device
                | some socket_dom ↦ socket_device_type (to_lower socket_type) (to_lower socket_dom)
              ]
      ]

  unfoldable pub get_pipe_device_type : ConfigurationBook → Text → DeviceType
  unfolding value_for to_lower profile_device_type
  get_pipe_device_type book section =
      elim (value_for convert_text (record { section = section; key = profile_key }) book) [
        | none ↦ undefined_device
        | some profile ↦ profile_device_type (to_lower profile)
      ]

  unfoldable pub get_device_type : ConfigurationBook → Text → ℕ
  unfolding value_for to_lower get_socket_device_type get_pipe_device_type
  get_device_type book section =
      elim (value_for convert_text (record { section = section; key = dev_type_key }) book) [
        | none ↦ underlying undefined_device
        | some dev_type ↦ underlying (
            if text_beq socket_word (to_lower dev_type)
            then get_socket_device_type book section
            else if text_beq pipe_word (to_lower dev_type)
            then get_pipe_device_type book section
            else undefined_device)
      ]
