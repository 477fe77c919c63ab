-- ===== src/Examples/Exchange.antt =====
-- Examples on the key exchange and the answers of the NTP server.
use cfnts.Base.{
  ◌+◌, [], ◌∷◌, ◌++◌, Bytes, true, some, All, replicate, length, ok, IsSettled, arith, ◌≡◌, refl,
  ◌≤◌, drop,
}
use cfnts.Protocol.Types.{NtpExtension, NtsPacket}
use cfnts.Protocol.Header.{serialize_header}
use cfnts.Protocol.Extensions.RoundTrip.{wires}
use cfnts.Protocol.Aead.{plain_aead, plain_aead-IsAead}
use cfnts.Protocol.Nts.{serialize_nts_packet}
use cfnts.Cookie.{make_cookie}
use cfnts.KeyRotator.{latest_key_value}
use cfnts.Records.Process.{received_nothing}
use cfnts.Ke.Server.{
  KeServerConn, new_conn, TlsEvent, read_bytes, waiting, read_buffer, read_records, response,
  read_ready,
}
use cfnts.Ke.Server.Records.{read_records-IsSettled, read_buffer-append}
use cfnts.Ke.Server.Once.{IsConn, begun, read, Reachable-IsConn}
use cfnts.Ke.Client.{read_response}
use cfnts.Ke.Client.Ends.{read_response-IsSettled}
use cfnts.Ke.Exchange.{cookies_of, agreed, read_response-response}
use cfnts.Ntp.Server.{cookie_ext, nts_response}
use cfnts.Ntp.Server.Cookies.{IsFresh, unique_ids, placeholders, nts_response-cookies}
use cfnts.Ntp.Server.Answers.{response-IsSettled}
use cfnts.Ntp.Client.{query_header, time_diff, read_answer}
use cfnts.Ke.Stream.{next_record, take_record}
use cfnts.Records.Wire.{deserialize}
use cfnts.Ntp.Client.Accepts.{Accepted, read_answer-Accepted, read_answer-serialize}
use cfnts.Protocol.Nts.Total.{IsWhole, extension, nothing}
use cfnts.Examples.Data.{
  keys, keys-IsKeys, nonce, master_key, no_net, rotator_with, unique_id, placeholder,
  unique_id-IsPlain, placeholder-IsExtension, query_header-IsHeader, query, whole_floats, noon,
  ntp_counters, state,
}

latest : latest_key_value (rotator_with 28800) ≡ ok (28800, master_key)
unfolding latest_key_value
latest = refl

abbrev cookie : NtpExtension
cookie = cookie_ext (make_cookie plain_aead nonce keys master_key 28800)

-- A query with a unique identifier, a cookie, a placeholder and an authenticator.
abbrev query_bytes : Bytes
query_bytes =
    serialize_header query_header
    ++ (wires (unique_id ∷ cookie ∷ placeholder ∷ [])
        ++ (4 ∷ 4 ∷ 0 ∷ 40 ∷ 0 ∷ 16 ∷ 0 ∷ 16 ∷ (nonce ++ replicate 16 0)))

query_bytes-IsWhole : IsWhole (drop 48 query_bytes)
unfolding serialize_header make_cookie
query_bytes-IsWhole = extension 32 refl (omega arith) (omega arith) (
    extension 100 refl (omega arith) (omega arith) (
      extension 100 refl (omega arith) (omega arith)
        (extension 36 refl (omega arith) (omega arith) nothing)))

response-IsSettled_example :
    IsSettled
      (cfnts.Ntp.Server.Response.response whole_floats plain_aead
        (λ n. nonce)
        nonce
        (rotator_with 28800)
        noon
        noon
        noon
        state
        ntp_counters
        query_bytes).1
response-IsSettled_example =
    response-IsSettled whole_floats plain_aead plain_aead-IsAead (λ n. nonce) (λ n. refl) nonce refl
      (rotator_with 28800) 28800 master_key latest (omega arith) noon noon noon state ntp_counters
      query_bytes query_bytes-IsWhole

nts_response-cookies_example :
    (resp : NtsPacket) × (nts_response plain_aead
        (λ n. nonce)
        keys
        (rotator_with 28800)
        5
        query_header
        query
      ≡ ok resp)
    × (resp.header ≡ record query_header { transmit_timestamp = 5 })
    × (resp.auth_exts ≡ unique_ids query.auth_exts)
    × (length resp.auth_enc_exts ≡ placeholders query.auth_exts + 1)
    × All (IsFresh plain_aead keys master_key 28800) resp.auth_enc_exts
    × (length (wires resp.auth_exts) + length (wires resp.auth_enc_exts)
        ≤ length (wires query.auth_exts) + 104)
nts_response-cookies_example =
    nts_response-cookies plain_aead plain_aead-IsAead keys keys-IsKeys (λ n. nonce) (λ n. refl)
      (rotator_with 28800) 28800 master_key latest (omega arith) 5 query_header query

read_response-response_example :
    (bytes : Bytes) × (response no_net plain_aead (replicate 8 nonce) keys (rotator_with 28800) 123
      ≡ ok bytes)
    × ((rest : Bytes)
        → read_response no_net (length (bytes ++ rest) + 1) (bytes ++ rest) received_nothing
          ≡ ok (
              agreed
                (cookies_of plain_aead keys master_key 28800 (replicate 8 nonce))
                (some 123)
                true))
read_response-response_example =
    read_response-response no_net plain_aead plain_aead-IsAead keys keys-IsKeys master_key 28800
      (replicate 8 nonce) (rotator_with 28800) 123 refl
      (refl, (refl, (refl, (refl, (refl, (refl, (refl, (refl, tt)))))))) latest (omega arith)

read_records-IsSettled_example :
    IsSettled (read_records no_net 4 (128 ∷ 0 ∷ 0 ∷ []) received_nothing)
read_records-IsSettled_example =
    read_records-IsSettled no_net 4 (128 ∷ 0 ∷ 0 ∷ []) received_nothing (omega arith)

read_response-IsSettled_example :
    IsSettled (read_response no_net 4 (128 ∷ 0 ∷ 0 ∷ []) received_nothing)
read_response-IsSettled_example =
    read_response-IsSettled no_net 4 (128 ∷ 0 ∷ 0 ∷ []) received_nothing (omega arith)

-- The end of the message, cut into two.
waits :
    read_buffer no_net (128 ∷ 0 ∷ []) received_nothing
    ≡ ok (waiting (128 ∷ 0 ∷ []) received_nothing)
unfolding read_records next_record
waits = refl

read_buffer-append_example :
    read_buffer no_net (128 ∷ 0 ∷ 0 ∷ 0 ∷ []) received_nothing
    ≡ read_buffer no_net (128 ∷ 0 ∷ 0 ∷ 0 ∷ []) received_nothing
read_buffer-append_example =
    read_buffer-append no_net (128 ∷ 0 ∷ []) (0 ∷ 0 ∷ []) (128 ∷ 0 ∷ []) received_nothing
      received_nothing waits

-- An event in which a whole request arrives.
abbrev request_event : TlsEvent
request_event = record {
  tls_read = read_bytes 16;
  processed = true;
  plaintext = some (128 ∷ 1 ∷ 0 ∷ 2 ∷ 0 ∷ 0 ∷ 128 ∷ 4 ∷ 0 ∷ 2 ∷ 0 ∷ 15 ∷ 128 ∷ 0 ∷ 0 ∷ 0 ∷ []);
  exported = some keys;
  writes = true;
  shuts = true;
  shuts_again = true;
}

answered :
    (c : KeServerConn) × (read_ready no_net plain_aead request_event
        (replicate 8 nonce)
        (rotator_with 28800)
        123
        new_conn
      ≡ ok c)
unfolding read_ready read_records next_record take_record deserialize
answered = (_, refl)

Reachable-IsConn_example : IsConn answered.0
Reachable-IsConn_example =
    Reachable-IsConn no_net plain_aead 123 answered.0
      (read request_event (replicate 8 nonce) (rotator_with 28800) begun answered.1)

-- An answer that starts with the unique identifier of the query.
abbrev answer : NtsPacket
answer = record {
  header = query_header;
  auth_exts = unique_id ∷ [];
  auth_enc_exts = placeholder ∷ [];
}

read_answer-serialize_example :
    (datagram : Bytes) × (serialize_nts_packet plain_aead keys.s2c nonce answer ≡ ok datagram)
    × (read_answer whole_floats plain_aead keys.s2c (replicate 32 3) 0 0 datagram
        ≡ ok (record { stratum = 0; time_diff = 0 }))
unfolding time_diff
read_answer-serialize_example =
    read_answer-serialize whole_floats plain_aead keys.s2c (replicate 32 3) 0 0 nonce answer
      unique_id [] plain_aead-IsAead refl query_header-IsHeader refl refl (unique_id-IsPlain, tt)
      (placeholder-IsExtension, tt) (omega arith)

accepted :
    (datagram : Bytes) × (serialize_nts_packet plain_aead keys.s2c nonce answer ≡ ok datagram)
    × (read_answer whole_floats plain_aead keys.s2c (replicate 32 3) 0 0 datagram
        ≡ ok (record { stratum = 0; time_diff = 0 }))
unfolding time_diff
accepted =
    read_answer-serialize whole_floats plain_aead keys.s2c (replicate 32 3) 0 0 nonce answer
      unique_id [] plain_aead-IsAead refl query_header-IsHeader refl refl (unique_id-IsPlain, tt)
      (placeholder-IsExtension, tt) (omega arith)

read_answer-Accepted_example :
    Accepted whole_floats plain_aead keys.s2c
      (replicate 32 3)
      accepted.0
      0
      0
      (record { stratum = 0; time_diff = 0 })
read_answer-Accepted_example =
    read_answer-Accepted whole_floats plain_aead keys.s2c (replicate 32 3) 0 0 accepted.0
      (record { stratum = 0; time_diff = 0 }) accepted.2
