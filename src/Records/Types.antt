-- ===== src/Records/Types.antt =====
-- src/nts_ke/records: the data types of the records, and the errors of reading them.
use cfnts.Base.{ℕ, Bytes, List, Option, Bool}

pub data Party : Type 0 where
  client server : Party

pub data KnownNextProtocol : Type 0 where
  ntpv4 : KnownNextProtocol

pub data KnownAeadAlgorithm : Type 0 where
  aead_aes_siv_cmac_256 : KnownAeadAlgorithm

pub data ErrorKind : Type 0 where
  unrecognized_critical_record bad_request : ErrorKind

pub data WarningKind : Type 0 where
  dummy : WarningKind

-- The addresses of `std::net` by the number of their 32 or 128 bits; a name by its bytes.
pub data Address : Type 0 where
  hostname : Bytes → Address
  ipv4_addr : ℕ → Address
  ipv6_addr : ℕ → Address

-- `KeRecord`, with the fields of the record structs as arguments.
pub data KeRecord : Type 0 where
  end_of_message : KeRecord
  next_protocol : List KnownNextProtocol → KeRecord
  error_record : ErrorKind → KeRecord
  warning : WarningKind → KeRecord
  aead_algorithm : List KnownAeadAlgorithm → KeRecord
  new_cookie : Bytes → KeRecord
  server_record : Party → Address → KeRecord
  port_record : Party → ℕ → KeRecord

-- The messages of the `String` that `from_bytes` returns.
pub data BodyError : Type 0 where
  end_not_empty next_protocol_odd unknown_next_protocol error_not_two unknown_error : BodyError
  warning_not_two unknown_warning aead_odd unknown_aead not_ascii port_not_two : BodyError

pub data DeserializeError : Type 0 where
  parsing : BodyError → DeserializeError
  unknown_critical_record unknown_not_critical_record : DeserializeError

-- The last two are causes of the client alone.
pub data NtsKeParseError : Type 0 where
  record_after_end received_error_record no_ipv4_addr_found no_ipv6_addr_found : NtsKeParseError

pub record ReceivedNtsKeRecordState : Type 0 where
  pub finished : Bool
  pub next_protocols : List ℕ
  pub aead_scheme : List ℕ
  pub cookies : List Bytes
  pub next_server : Option Bytes
  pub next_port : Option ℕ

-- `FromStr` and `Display` of `Ipv4Addr` and `Ipv6Addr`, as a parameter.
pub record Net : Type 0 where
  pub parse_ipv4 : Bytes → Option ℕ
  pub show_ipv4 : ℕ → Bytes
  pub parse_ipv6 : Bytes → Option ℕ
  pub show_ipv6 : ℕ → Bytes
