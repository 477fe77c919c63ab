-- ===== src/Examples/Answers.antt =====
-- Examples on the plain answers of the NTP server and its kiss of death.
use cfnts.Base.{
  [], ◌∷◌, ◌++◌, drop, u16_bytes, replicate, Bytes, length, ok, arith, ◌≡◌, refl, false,
}
use cfnts.Protocol.Types.{NtpPacket, IsHeader}
use cfnts.Protocol.Header.{parse_packet_header, serialize_header}
use cfnts.Protocol.Extensions.{
  parse_ntp_packet, serialize_ntp_packet, is_nts_packet, has_extension, serialize_extensions,
}
use cfnts.Protocol.Extensions.RoundTrip.{parse-serialize_ntp_packet}
use cfnts.Protocol.Aead.{plain_aead}
use cfnts.Ntp.Client.{query_header}
use cfnts.Ntp.Server.{create_header}
use cfnts.Ntp.Server.Response.{response}
use cfnts.Ntp.Server.Kod.{kod_header, short_query, response-short}
use cfnts.Ntp.Server.Plain.{IsAnswer, response-plain}
use cfnts.Examples.Data.{
  nonce, rotator_with, query_header-IsHeader, whole_floats, noon, ntp_counters, state,
}

response-short_example :
    (length (short_query query_header 65528) ≡ 60)
    × ((bytes : Bytes) × (response whole_floats plain_aead
            (λ n. nonce)
            nonce
            (rotator_with 28800)
            noon
            noon
            noon
            state
            ntp_counters
            (short_query query_header 65528)
          ≡ (record ntp_counters { queries = 1; nts = 1; malformed = 1; kod = 1 }, ok bytes))
        × (length bytes ≡ 65580)
        × (parse_packet_header bytes ≡ ok (kod_header query_header.transmit_timestamp))
        × (drop 48 bytes ≡ 1 ∷ 4 ∷ (u16_bytes 65532 ++ replicate 65528 0)))
response-short_example =
    response-short whole_floats plain_aead (λ n. nonce) nonce (rotator_with 28800) noon noon noon
      state ntp_counters query_header 65528 query_header-IsHeader (omega arith) (omega arith)

abbrev pub bare : NtpPacket
bare = record { header = query_header; exts = [] }

pub bare-parsed : parse_ntp_packet (serialize_header query_header) ≡ ok bare
unfolding serialize_ntp_packet serialize_extensions serialize_header
bare-parsed = parse-serialize_ntp_packet bare query_header-IsHeader tt

pub bare-plain : is_nts_packet bare ≡ false
unfolding is_nts_packet has_extension
bare-plain = refl

answer-IsHeader : IsHeader (create_header whole_floats bare noon noon state)
unfolding create_header
answer-IsHeader = record {
  version_u8 = omega arith;
  stratum_u8 = omega arith;
  poll_i8 = omega arith;
  precision_i8 = omega arith;
  root_delay_u32 = omega arith;
  root_dispersion_u32 = omega arith;
  reference_id_u32 = omega arith;
  reference_timestamp_u64 = omega arith;
  origin_timestamp_u64 = omega arith;
  receive_timestamp_u64 = omega arith;
  transmit_timestamp_u64 = omega arith;
}

response-plain_example :
    (bytes : Bytes) × (response whole_floats plain_aead
        (λ n. nonce)
        nonce
        (rotator_with 28800)
        noon
        noon
        noon
        state
        ntp_counters
        (serialize_header query_header)
      ≡ (record ntp_counters { queries = 1 }, ok bytes))
    × IsAnswer whole_floats noon noon state query_header bytes
response-plain_example =
    response-plain whole_floats plain_aead (λ n. nonce) nonce (rotator_with 28800) noon noon noon
      state ntp_counters (serialize_header query_header) bare bare-parsed refl bare-plain
      answer-IsHeader
