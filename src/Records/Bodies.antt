-- ===== src/Records/Bodies.antt =====
-- src/nts_ke/records: the methods of `KeRecordTrait` for each record, by cases on the record, and
-- `from_bytes` of each.
use cfnts.Base.{
  ℕ, ◌-◌, ◌*◌, ◌%◌, ◌^◌, List, [], ◌∷◌, ◌++◌, Bytes, Bool, true, false, some, none, Outcome, ok,
  err, panic, ◌>>=◌, u16_bytes, u16_of, length, ltb, ◌==◌, if◌then◌else◌, not,
}
use cfnts.Records.Types.{
  Party, client, server, KnownNextProtocol, ntpv4, KnownAeadAlgorithm, aead_aes_siv_cmac_256,
  ErrorKind, unrecognized_critical_record, bad_request, WarningKind, dummy, Address, hostname,
  ipv4_addr, ipv6_addr, KeRecord, end_of_message, next_protocol, error_record, warning,
  aead_algorithm, new_cookie, server_record, port_record, BodyError, end_not_empty,
  next_protocol_odd, unknown_next_protocol, error_not_two, unknown_error, warning_not_two,
  unknown_warning, aead_odd, unknown_aead, not_ascii, port_not_two, Net,
}

abbrev pub as_protocol_id : KnownNextProtocol → ℕ
as_protocol_id ntpv4 = 0

abbrev pub as_algorithm_id : KnownAeadAlgorithm → ℕ
as_algorithm_id aead_aes_siv_cmac_256 = 15

abbrev pub error_code : ErrorKind → ℕ
error_code unrecognized_critical_record = 0
error_code bad_request = 1

abbrev pub warning_code : WarningKind → ℕ
warning_code dummy = 2 ^ 16 - 1

-- A server record or a port record is critical if the server sends it.
abbrev pub from_server : Party → Bool
from_server client = false
from_server server = true

abbrev pub critical : KeRecord → Bool
critical end_of_message = true
critical (next_protocol ps) = true
critical (error_record k) = true
critical (warning k) = true
critical (aead_algorithm as_) = true
critical (new_cookie c) = false
critical (server_record party address) = from_server party
critical (port_record party port) = from_server party

abbrev pub record_type : KeRecord → ℕ
record_type end_of_message = 0
record_type (next_protocol ps) = 1
record_type (error_record k) = 2
record_type (warning k) = 3
record_type (aead_algorithm as_) = 4
record_type (new_cookie c) = 5
record_type (server_record party address) = 6
record_type (port_record party port) = 7

-- `u16::try_from(n).expect(..)`
unfoldable pub try_u16 : {E : Type 0} → ℕ → Outcome E ℕ
try_u16 n = if ltb n (2 ^ 16) then ok n else panic

-- `u16::try_from(n).ok().and_then(|n| n.checked_mul(2)).expect(..)`
unfoldable pub try_double : {E : Type 0} → ℕ → Outcome E ℕ
unfolding try_u16
try_double n = do count ← try_u16 n; if ltb (count * 2) (2 ^ 16) then ok (count * 2) else panic

abbrev pub protocol_bytes : List KnownNextProtocol → Bytes
protocol_bytes [] = []
protocol_bytes (p ∷ ps) = u16_bytes (as_protocol_id p) ++ protocol_bytes ps

abbrev pub algorithm_bytes : List KnownAeadAlgorithm → Bytes
algorithm_bytes [] = []
algorithm_bytes (a ∷ as_) = u16_bytes (as_algorithm_id a) ++ algorithm_bytes as_

-- The two tests of a body that is not ASCII give the same message: an ASCII text is UTF-8.
unfoldable pub is_ascii : Bytes → Bool
is_ascii [] = true
is_ascii (b ∷ bs) = if ltb b 128 then is_ascii bs else false

module _ (net : Net) where
  abbrev pub into_string : Address → Bytes
  into_string (hostname name) = name
  into_string (ipv4_addr addr) = net.show_ipv4 addr
  into_string (ipv6_addr addr) = net.show_ipv6 addr

  -- `len`; the text of an address is cast to `u16`.
  unfoldable pub record_len : {E : Type 0} → KeRecord → Outcome E ℕ
  unfolding try_u16 try_double
  record_len end_of_message = ok 0
  record_len (next_protocol ps) = try_double (length ps)
  record_len (error_record k) = ok 2
  record_len (warning k) = ok 2
  record_len (aead_algorithm as_) = try_double (length as_)
  record_len (new_cookie c) = try_u16 (length c)
  record_len (server_record party (hostname name)) = try_u16 (length name)
  record_len (server_record party (ipv4_addr a)) = ok (length (net.show_ipv4 a) % 2 ^ 16)
  record_len (server_record party (ipv6_addr a)) = ok (length (net.show_ipv6 a) % 2 ^ 16)
  record_len (port_record party port) = ok 2

  abbrev pub into_bytes : KeRecord → Bytes
  into_bytes end_of_message = []
  into_bytes (next_protocol ps) = protocol_bytes ps
  into_bytes (error_record k) = u16_bytes (error_code k)
  into_bytes (warning k) = u16_bytes (warning_code k)
  into_bytes (aead_algorithm as_) = algorithm_bytes as_
  into_bytes (new_cookie c) = c
  into_bytes (server_record party address) = into_string address
  into_bytes (port_record party port) = u16_bytes port

  unfoldable pub address_from : Bytes → Address
  address_from body = elim (net.parse_ipv4 body) [
    | some a ↦ ipv4_addr a
    | none ↦ elim (net.parse_ipv6 body) [ some a ↦ ipv6_addr a | none ↦ hostname body ]
  ]

  unfoldable pub server_from_bytes : Party → Bytes → Outcome BodyError KeRecord
  unfolding is_ascii address_from
  server_from_bytes party bytes =
      if not (is_ascii bytes) then err not_ascii else ok (server_record party (address_from bytes))

unfoldable pub end_from_bytes : Bytes → Outcome BodyError KeRecord
end_from_bytes bytes = if not (length bytes == 0) then err end_not_empty else ok end_of_message

-- `bytes.chunks_exact(2)`: an odd byte at the end is left.
unfoldable pub protocol_words : Bytes → Outcome BodyError (List KnownNextProtocol)
protocol_words (w1 ∷ w0 ∷ rest) =
    let more = protocol_words rest in
    if as_protocol_id ntpv4 == u16_of w1 w0
    then (more >>= λ ps. ok (ntpv4 ∷ ps))
    else err unknown_next_protocol
protocol_words _ = ok []

unfoldable pub next_protocol_from_bytes : Bytes → Outcome BodyError KeRecord
unfolding protocol_words
next_protocol_from_bytes bytes =
    if not (length bytes % 2 == 0)
    then err next_protocol_odd
    else (protocol_words bytes >>= λ ps. ok (next_protocol ps))

unfoldable pub algorithm_words : Bytes → Outcome BodyError (List KnownAeadAlgorithm)
algorithm_words (w1 ∷ w0 ∷ rest) =
    let more = algorithm_words rest in
    if as_algorithm_id aead_aes_siv_cmac_256 == u16_of w1 w0
    then (more >>= λ as_. ok (aead_aes_siv_cmac_256 ∷ as_))
    else err unknown_aead
algorithm_words _ = ok []

unfoldable pub aead_from_bytes : Bytes → Outcome BodyError KeRecord
unfolding algorithm_words
aead_from_bytes bytes =
    if not (length bytes % 2 == 0)
    then err aead_odd
    else (algorithm_words bytes >>= λ as_. ok (aead_algorithm as_))

-- The length test of the three records below fails on every list but one of two bytes.
unfoldable pub error_from_bytes : Bytes → Outcome BodyError KeRecord
error_from_bytes (b1 ∷ b0 ∷ []) =
    if error_code unrecognized_critical_record == u16_of b1 b0
    then ok (error_record unrecognized_critical_record)
    else if error_code bad_request == u16_of b1 b0
    then ok (error_record bad_request)
    else err unknown_error
error_from_bytes _ = err error_not_two

unfoldable pub warning_from_bytes : Bytes → Outcome BodyError KeRecord
warning_from_bytes (b1 ∷ b0 ∷ []) =
    if warning_code dummy == u16_of b1 b0 then ok (warning dummy) else err unknown_warning
warning_from_bytes _ = err warning_not_two

unfoldable pub port_from_bytes : Party → Bytes → Outcome BodyError KeRecord
port_from_bytes party (b1 ∷ b0 ∷ []) = ok (port_record party (u16_of b1 b0))
port_from_bytes party _ = err port_not_two
