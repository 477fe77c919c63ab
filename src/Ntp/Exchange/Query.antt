-- ===== src/Ntp/Exchange/Query.antt =====
-- src/ntp/client.rs: the query of the client, as the server reads it.
use cfnts.Base.{
  ℕ, ◌≡◌, refl, [], ◌∷◌, ◌++◌, arith, Bytes, some, ok, length, length-append, All, IsU32,
}
use cfnts.Protocol.Types.{nts_cookie, same_type, NtpPacket, NtsPacket, IsHeader}
use cfnts.Protocol.Extensions.{is_nts_packet, has_extension, extract_extension}
use cfnts.Protocol.Extensions.RoundTrip.{wires}
use cfnts.Protocol.Aead.{Aead, IsAead}
use cfnts.Protocol.Nts.{serialize_nts_packet}
use cfnts.Protocol.Nts.Wires.{IsPlain}
use cfnts.Protocol.Nts.RoundTrip.{parse-serialize_nts_packet}
use cfnts.Protocol.Nts.Plain.{
  associated, sealed_ext, serialize_nts_packet-wires, parse_ntp_packet-serialize_nts_packet,
  length-serialize_nts_packet,
}
use cfnts.Cookie.{NtsKeys, IsKeys, make_cookie}
use cfnts.Cookie.RoundTrip.{get_keyid-make_cookie, length-make_cookie, eat_cookie-make_cookie}
use cfnts.KeyRotator.{KeyRotator}
use cfnts.Ntp.Client.{query_header, query_packet}
use cfnts.Ntp.Exchange.{IsAuthentic}

pub query_header-IsHeader : IsHeader query_header
query_header-IsHeader = record {
  version_u8 = omega arith;
  stratum_u8 = omega arith;
  poll_i8 = omega arith;
  precision_i8 = omega arith;
  root_delay_u32 = omega arith;
  root_dispersion_u32 = omega arith;
  reference_id_u32 = omega arith;
  reference_timestamp_u64 = omega arith;
  origin_timestamp_u64 = omega arith;
  receive_timestamp_u64 = omega arith;
  transmit_timestamp_u64 = omega arith;
}

-- The query of the client with a cookie that was made under a key which the rotator still has.
module _ (aead : Aead) (sound : IsAead aead) (rotator : KeyRotator) (keys : NtsKeys)
    (k : IsKeys keys) (id : ℕ) (u32 : IsU32 id) (key : Bytes) (known : rotator.cache id ≡ some key)
    (cookie_nonce : Bytes) (cookie_sixteen : length cookie_nonce ≡ 16) (nonce : Bytes)
    (sixteen : length nonce ≡ 16) (unique_id : Bytes) (id_length : length unique_id ≡ 32) where
  abbrev pub cookie : Bytes
  cookie = make_cookie aead cookie_nonce keys key id

  abbrev pub query : NtsPacket
  query = query_packet unique_id cookie

  query-IsPlain : All IsPlain query.auth_exts
  unfolding same_type
  query-IsPlain =
      let size = length-make_cookie aead cookie_nonce keys key id sound k cookie_sixteen in
      (
        record {
          extension = record {
            canonical = tt;
            words = rw id_length refl;
            fits = omega (arith, id_length);
          };
          not_authenticator = refl;
        },
        (
          record {
            extension = record { canonical = tt; words = rw size refl; fits = omega (arith, size) };
            not_authenticator = refl;
          },
          tt,
        ),
      )

  -- The query is sent, and the server finds it authentic.
  pub query-IsAuthentic :
      (wire : Bytes) × (serialize_nts_packet aead keys.c2s nonce query ≡ ok wire)
      × (length wire ≡ 228)
      × (packet : NtpPacket) × (packet.header ≡ query_header)
      × IsAuthentic aead rotator keys wire packet query
  unfolding is_nts_packet has_extension extract_extension same_type
  query-IsAuthentic =
      let size = length-make_cookie aead cookie_nonce keys key id sound k cookie_sixteen in
      let made =
        serialize_nts_packet-wires aead keys.c2s nonce query sound sixteen query-IsPlain tt
          (omega arith) in
      let last = sealed_ext aead keys.c2s nonce query in
      let wire = associated aead keys.c2s nonce query ++ wires (last ∷ []) in
      let plain =
        parse_ntp_packet-serialize_nts_packet aead keys.c2s nonce query sound sixteen query-IsPlain
          tt (omega arith) query_header-IsHeader in
      let authentic =
        parse-serialize_nts_packet aead keys.c2s nonce query sound sixteen query_header-IsHeader
          query-IsPlain tt (omega arith) in
      (
        wire,
        made,
        omega (
          arith,
          length-serialize_nts_packet aead keys.c2s nonce query sound sixteen query-IsPlain tt
              (omega arith),
          length-append unique_id
              (wires (record { ext_type = nts_cookie; contents = cookie } ∷ [])),
          length-append cookie [],
          size,
          id_length,
        ),
        record { header = query_header; exts = query.auth_exts ++ (last ∷ []) },
        refl,
        record {
          parsed = rw made at plain;
          asks = refl;
          is_nts = refl;
          cookie = record { ext_type = nts_cookie; contents = cookie };
          carries = refl;
          id = id;
          names = get_keyid-make_cookie aead cookie_nonce keys key id u32;
          key = key;
          known = known;
          eaten = eat_cookie-make_cookie aead cookie_nonce keys key id sound k cookie_sixteen;
          opened = rw made at authentic;
        },
      )
