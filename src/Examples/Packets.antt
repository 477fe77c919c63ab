-- ===== src/Examples/Packets.antt =====
-- Examples on packets, cookies and records.
use cfnts.Base.{
  ◌+◌, [], ◌∷◌, ◌++◌, Bytes, some, length, ok, panic, ◌>>=◌, IsSettled, IsEnded, bind-eq-ok, arith,
  ◌≡◌, refl, ◌≤◌, drop, take,
}
use cfnts.Protocol.Header.{parse_packet_header, serialize_header, on_wire}
use cfnts.Protocol.Extensions.{parse_ntp_packet, serialize_ntp_packet}
use cfnts.Protocol.Extensions.RoundTrip.{parse-serialize_ntp_packet, wires}
use cfnts.Protocol.Extensions.Total.{parse_ntp_packet-IsSettled}
use cfnts.Protocol.Aead.{plain_aead, plain_aead-IsAead}
use cfnts.Protocol.Nts.{parse_nts_packet, serialize_nts_packet}
use cfnts.Protocol.Nts.RoundTrip.{parse-serialize_nts_packet}
use cfnts.Protocol.Nts.Authentic.{Opened, parse_nts_packet-Opened}
use cfnts.Protocol.Nts.Inserted.{inserted, parse_nts_packet-inserted}
use cfnts.Protocol.Nts.Total.{
  extension, nothing, cut_authenticator, parse_nts_packet-IsSettled, parse_nts_packet-IsEnded,
  parse_nts_packet-cut,
}
use cfnts.Cookie.{IsKeys, make_cookie, eat_cookie}
use cfnts.Cookie.RoundTrip.{eat_cookie-make_cookie, eat_cookie-some}
use cfnts.Records.Types.{client, port_record}
use cfnts.Records.Wire.{serialize, deserialize}
use cfnts.Records.RoundTrip.{deserialize-serialize}
use cfnts.Records.Total.{deserialize-alias}
use cfnts.Ntp.Client.{query_header}
use cfnts.Examples.Data.{
  placeholder, keys, keys-IsKeys, nonce, master_key, no_net, unique_id, unique_id-IsExtension,
  unique_id-IsPlain, placeholder-IsExtension, placeholder-IsPlain, query_header-IsHeader, query,
  plain_query,
}

parse-serialize_ntp_packet_example :
    (serialize_ntp_packet plain_query >>= parse_ntp_packet)
    ≡ ok (record plain_query { header = on_wire query_header })
parse-serialize_ntp_packet_example =
    parse-serialize_ntp_packet plain_query query_header-IsHeader (unique_id-IsExtension, tt)

parse_ntp_packet-IsSettled_example : IsSettled (parse_ntp_packet (1 ∷ 2 ∷ []))
parse_ntp_packet-IsSettled_example = parse_ntp_packet-IsSettled (1 ∷ 2 ∷ [])

parse-serialize_nts_packet_example :
    (serialize_nts_packet plain_aead keys.c2s nonce query >>= parse_nts_packet plain_aead keys.c2s)
    ≡ ok (record query { header = on_wire query_header })
parse-serialize_nts_packet_example =
    parse-serialize_nts_packet plain_aead keys.c2s nonce query plain_aead-IsAead refl
      query_header-IsHeader (unique_id-IsPlain, (placeholder-IsPlain, tt))
      (placeholder-IsExtension, tt) (omega arith)

-- A query as it arrives.
sent :
    (bytes : Bytes) × (serialize_nts_packet plain_aead keys.c2s nonce query ≡ ok bytes)
    × (parse_nts_packet plain_aead keys.c2s bytes
        ≡ ok (record query { header = on_wire query_header }))
sent = bind-eq-ok (serialize_nts_packet plain_aead keys.c2s nonce query) _ (
    parse-serialize_nts_packet plain_aead keys.c2s nonce query plain_aead-IsAead refl
      query_header-IsHeader (unique_id-IsPlain, (placeholder-IsPlain, tt))
      (placeholder-IsExtension, tt) (omega arith))

parse_nts_packet-Opened_example :
    (parse_packet_header sent.0 ≡ ok (on_wire query_header))
    × Opened plain_aead keys.c2s sent.0 48 (drop 48 sent.0) query.auth_exts query.auth_enc_exts
parse_nts_packet-Opened_example = parse_nts_packet-Opened plain_aead keys.c2s sent.0 sent.2

parse_nts_packet-inserted_example :
    (bytes : Bytes) × (serialize_nts_packet plain_aead keys.c2s nonce query ≡ ok bytes)
    × (parse_nts_packet plain_aead keys.c2s
          (inserted (48 + length (wires query.auth_exts)) placeholder bytes)
        ≡ ok (record query {
          header = on_wire query_header;
          auth_exts = query.auth_exts ++ (placeholder ∷ []);
        }))
parse_nts_packet-inserted_example =
    parse_nts_packet-inserted plain_aead keys.c2s nonce query placeholder plain_aead-IsAead refl
      query_header-IsHeader (unique_id-IsPlain, (placeholder-IsPlain, tt))
      (placeholder-IsExtension, tt) placeholder-IsPlain (omega arith)

parse_nts_packet-IsSettled_example :
    IsSettled
      (parse_nts_packet plain_aead keys.c2s (serialize_header query_header ++ (4 ∷ 4 ∷ 0 ∷ 4 ∷ [])))
unfolding serialize_header
parse_nts_packet-IsSettled_example =
    parse_nts_packet-IsSettled plain_aead keys.c2s
      (serialize_header query_header ++ (4 ∷ 4 ∷ 0 ∷ 4 ∷ []))
      (extension 0 refl (omega arith) (omega arith) nothing)

parse_nts_packet-IsEnded_example : IsEnded (parse_nts_packet plain_aead keys.c2s (1 ∷ []))
parse_nts_packet-IsEnded_example = parse_nts_packet-IsEnded plain_aead keys.c2s (1 ∷ [])

parse_nts_packet-cut_example :
    parse_nts_packet plain_aead keys.c2s
      (serialize_header query_header ++ (wires (unique_id ∷ []) ++ cut_authenticator 1000 (1 ∷ [])))
    ≡ panic
parse_nts_packet-cut_example =
    parse_nts_packet-cut plain_aead keys.c2s query_header (unique_id ∷ []) 1000 (1 ∷ [])
      query_header-IsHeader (unique_id-IsPlain, tt) (omega arith) (omega arith) (omega arith)

eat_cookie-make_cookie_example :
    eat_cookie plain_aead (make_cookie plain_aead nonce keys master_key 258) master_key ≡ some keys
eat_cookie-make_cookie_example =
    eat_cookie-make_cookie plain_aead nonce keys master_key 258 plain_aead-IsAead keys-IsKeys refl

eat_cookie-some_example :
    (40 ≤ length (make_cookie plain_aead nonce keys master_key 258))
    × (plain_aead.unseal master_key
          (take 16 (drop 4 (make_cookie plain_aead nonce keys master_key 258)))
          []
          (drop 16 (drop 4 (make_cookie plain_aead nonce keys master_key 258)))
        ≡ some (keys.c2s ++ keys.s2c))
    × IsKeys keys
eat_cookie-some_example =
    eat_cookie-some plain_aead (make_cookie plain_aead nonce keys master_key 258) master_key (
      eat_cookie-make_cookie plain_aead nonce keys master_key 258 plain_aead-IsAead keys-IsKeys
        refl)

deserialize-serialize_example :
    (serialize no_net (port_record client 4123) >>= λ bytes.
    deserialize no_net client (bytes ++ (1 ∷ [])))
    ≡ ok (port_record client 4123)
deserialize-serialize_example =
    deserialize-serialize no_net client (port_record client 4123) (1 ∷ []) (refl, omega arith)

deserialize-alias_example :
    deserialize no_net client (8 ∷ 7 ∷ 0 ∷ 2 ∷ 0 ∷ 123 ∷ [])
    ≡ deserialize no_net client (0 ∷ 7 ∷ 0 ∷ 2 ∷ 0 ∷ 123 ∷ [])
deserialize-alias_example = deserialize-alias no_net client 8 7 (0 ∷ 2 ∷ 0 ∷ 123 ∷ []) (omega arith)
