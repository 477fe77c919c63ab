-- ===== src/Ntp/Server/Kod.antt =====
-- src/ntp/server/server.rs: the kiss of death, and the answer to a query without NTS.
use cfnts.Base.{
  ℕ, zero, suc, ◌+◌, ◌-◌, ◌/◌, ◌%◌, ◌^◌, ◌<◌, List, [], ◌∷◌, ◌++◌, Bytes, true, false, ok, length,
  length-append, length-replicate, take, drop, drop-append, replicate, ltb, le→ltb_false, eq→==,
  u16_of, u16_bytes, u16_of-u16_bytes, append-nil, arith, ◌≡◌, refl, ◌∙◌, ◌==◌,
}
use cfnts.Protocol.Types.{
  client, server, unknown, NtpExtension, NtpPacket, NtpPacketHeader, IsHeader, unique_identifier,
  nts_cookie, nts_authenticator, type_from_wire, same_type,
}
use cfnts.Protocol.Header.{
  parse_packet_header, serialize_header, on_wire, parse-serialize_header, length-serialize_header,
}
use cfnts.Protocol.Extensions.{
  read_zeroed, parse_extensions_loop, parse_extensions, parse_ntp_packet, serialize_extensions,
  serialize_ntp_packet, has_extension, extract_extension, is_nts_packet,
}
use cfnts.Protocol.Aead.{Aead}
use cfnts.Cookie.{get_keyid}
use cfnts.KeyRotator.{KeyRotator}
use cfnts.Ntp.Clock.{Floats, SystemTime}
use cfnts.Ntp.Server.{ServerState, NtpCounters, kiss_of_death, send_kiss_of_death}
use cfnts.Ntp.Server.Response.{
  with_cookie, with_keyid, is_client, answer_packet, answer_parsed, response,
}

-- A query of 60 bytes: an empty cookie, an empty authenticator, and the head of a unique identifier
-- that announces `n` bytes of contents.
abbrev pub short_tail : ℕ → Bytes
short_tail n = 2 ∷ 4 ∷ 0 ∷ 4 ∷ 4 ∷ 4 ∷ 0 ∷ 4 ∷ 1 ∷ 4 ∷ u16_bytes (n + 4)

abbrev pub in_client_mode : NtpPacketHeader → NtpPacketHeader
in_client_mode head = record head { mode = client }

abbrev pub short_query : NtpPacketHeader → ℕ → Bytes
short_query head n = serialize_header (in_client_mode head) ++ short_tail n

in_client_mode-IsHeader : (head : NtpPacketHeader) → IsHeader head → IsHeader (in_client_mode head)
in_client_mode-IsHeader head v = record {
  version_u8 = v.version_u8;
  stratum_u8 = v.stratum_u8;
  poll_i8 = v.poll_i8;
  precision_i8 = v.precision_i8;
  root_delay_u32 = v.root_delay_u32;
  root_dispersion_u32 = v.root_dispersion_u32;
  reference_id_u32 = v.reference_id_u32;
  reference_timestamp_u64 = v.reference_timestamp_u64;
  origin_timestamp_u64 = v.origin_timestamp_u64;
  receive_timestamp_u64 = v.receive_timestamp_u64;
  transmit_timestamp_u64 = v.transmit_timestamp_u64;
}

-- The header of a kiss of death; 0x4e54534e are the letters NTSN.
abbrev pub kod_header : ℕ → NtpPacketHeader
kod_header origin = record {
  leap_indicator = unknown;
  version = 4;
  mode = server;
  stratum = 0;
  poll = 0;
  precision = 0;
  root_delay = 0;
  root_dispersion = 0;
  reference_id = 0x4e54534e;
  reference_timestamp = 0;
  origin_timestamp = origin;
  receive_timestamp = 0;
  transmit_timestamp = 0;
}

kod_header-IsHeader : (origin : ℕ) → origin < 2 ^ 64 → IsHeader (kod_header origin)
kod_header-IsHeader origin h = record {
  version_u8 = omega arith;
  stratum_u8 = omega arith;
  poll_i8 = omega arith;
  precision_i8 = omega arith;
  root_delay_u32 = omega arith;
  root_dispersion_u32 = omega arith;
  reference_id_u32 = omega arith;
  reference_timestamp_u64 = omega arith;
  origin_timestamp_u64 = h;
  receive_timestamp_u64 = omega arith;
  transmit_timestamp_u64 = omega arith;
}

abbrev padded : ℕ → NtpExtension
padded n = record { ext_type = unique_identifier; contents = replicate n 0 }

abbrev padded_exts : ℕ → List NtpExtension
padded_exts n =
    record { ext_type = nts_cookie; contents = [] }
    ∷ record { ext_type = nts_authenticator; contents = [] }
    ∷ padded n
    ∷ []

drop_nil : (n : ℕ) → drop {A = ℕ} n [] ≡ []
drop_nil zero = refl
drop_nil (suc n) = refl

take_nil : (n : ℕ) → take {A = ℕ} n [] ≡ []
take_nil zero = refl
take_nil (suc n) = refl

parse_extensions-short_tail :
    (n : ℕ) → n % 4 ≡ 0 → n + 4 < 2 ^ 16 → parse_extensions (short_tail n) ≡ ok (padded_exts n)
unfolding parse_extensions parse_extensions_loop read_zeroed type_from_wire
parse_extensions-short_tail n words fits =
    let back : u16_of ((n + 4) / 256 % 256) ((n + 4) % 256) ≡ n + 4 =
      u16_of-u16_bytes (n + 4) fits in
    let even : (n + 4) % 4 == 0 ≡ true = eq→== _ 0 (omega arith) in
    let long : ltb (n + 4) 4 ≡ false = le→ltb_false _ _ (omega arith) in
    let cut : n + 4 - 4 ≡ n = omega arith in
    let all : n - 0 ≡ n = omega arith in
    rw (back, even, long, cut, drop_nil n, take_nil n, all) refl

module _ (f : Floats) (aead : Aead) (nonces : ℕ → Bytes) (seal_nonce : Bytes) (rotator : KeyRotator)
    (r_time t_time now : SystemTime) (state : ServerState) (c : NtpCounters) where
  parse_ntp_packet-short :
      (head : NtpPacketHeader) (n : ℕ)
      → IsHeader head
      → n % 4 ≡ 0
      → n + 4 < 2 ^ 16
      → parse_ntp_packet (serialize_header head ++ short_tail n)
        ≡ ok (record { header = on_wire head; exts = padded_exts n })
  unfolding parse_ntp_packet
  parse_ntp_packet-short head n v words fits =
      rw
        (
          parse-serialize_header head v (short_tail n),
          drop-append (serialize_header head) (short_tail n) (length-serialize_header head),
          parse_extensions-short_tail n words fits,
        )
        refl

  -- To a query of 60 bytes in client mode, whose header fields hold values of their Rust types,
  -- and whose last extension only announces its `n` bytes, a number of words that a length field
  -- can hold, the server answers with a kiss of death of 52 + n bytes, up to 65580: a header in server
  -- mode of stratum 0 with the kiss code NTSN and the query's transmit timestamp as its origin, and then
  -- a unique identifier of n zeros that was never received. It counts the query, the NTS query, the
  -- malformed cookie and the kiss of death.
  pub response-short :
      (head : NtpPacketHeader) (n : ℕ)
      → IsHeader head
      → n % 4 ≡ 0
      → n + 4 < 2 ^ 16
      → (length (short_query head n) ≡ 60)
        × ((bytes : Bytes) × (response f aead nonces seal_nonce rotator r_time t_time now state c
                (short_query head n)
              ≡ (
                record c {
                  queries = c.queries + 1;
                  nts = c.nts + 1;
                  malformed = c.malformed + 1;
                  kod = c.kod + 1;
                },
                ok bytes,
              ))
            × (length bytes ≡ 52 + n)
            × (parse_packet_header bytes ≡ ok (kod_header head.transmit_timestamp))
            × (drop 48 bytes ≡ 1 ∷ 4 ∷ (u16_bytes (n + 4) ++ replicate n 0)))
  unfolding response answer_parsed answer_packet is_nts_packet has_extension extract_extension
      same_type with_cookie with_keyid get_keyid send_kiss_of_death kiss_of_death
      serialize_ntp_packet serialize_extensions is_client
  response-short head n v words fits =
      let asked = in_client_mode head in
      let packet : NtpPacket = record { header = on_wire asked; exts = padded_exts n } in
      let count : length (replicate {A = ℕ} n 0) ≡ n = length-replicate n 0 in
      let whole : (n % 4 == 0) ≡ true = eq→== _ 0 words in
      let kod = kod_header head.transmit_timestamp in
      let answer = serialize_header kod in
      let tail = 1 ∷ 4 ∷ (u16_bytes ((n + 4) % 2 ^ 16) ++ (replicate {A = ℕ} n 0 ++ [])) in
      let size : (n + 4) % 2 ^ 16 ≡ n + 4 = omega arith in
      (
        omega (
          arith,
          length-append (serialize_header asked) (short_tail n),
          length-serialize_header asked,
        ),
        (
          answer ++ tail,
          rw
              (
                parse_ntp_packet-short asked n (in_client_mode-IsHeader head v) words fits,
                count,
                whole,
              )
              refl,
          omega (
            arith,
            length-append answer tail,
            length-serialize_header kod,
            count,
            length-append (replicate {A = ℕ} n 0) [],
          ),
          parse-serialize_header kod
              (kod_header-IsHeader head.transmit_timestamp v.transmit_timestamp_u64) tail,
          drop-append answer tail (length-serialize_header kod)
              ∙ rw (size, append-nil (replicate {A = ℕ} n 0)) refl,
        ),
      )
