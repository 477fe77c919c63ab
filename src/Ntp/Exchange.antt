-- ===== src/Ntp/Exchange.antt =====
-- src/ntp/client.rs and src/ntp/server/server.rs: the query of the client, the answer of the server to
-- it, and what the client makes of the answer.
pub mod Query
pub mod Answer
pub mod Run
pub mod Session
use cfnts.Base.{
  ℕ, ◌+◌, ◌*◌, ◌^◌, ◌<◌, ◌≤◌, ◌≡◌, refl, sym, ap, ◌∙◌, List, [], ◌∷◌, ◌++◌, arith, Bytes, true,
  false, some, ok, ◌>>=◌, bind-eq-ok, length, length-append, All, IsU32, take,
}
use cfnts.Protocol.Types.{
  client, nts_cookie, nts_authenticator, unique_identifier, same_type, NtpExtension, NtpPacket,
  NtsPacket, NtpPacketHeader, IsHeader,
}
use cfnts.Protocol.Header.{serialize_header, on_wire, length-serialize_header}
use cfnts.Protocol.Extensions.{parse_ntp_packet, is_nts_packet, has_extension, extract_extension}
use cfnts.Protocol.Extensions.RoundTrip.{IsExtension, wires}
use cfnts.Protocol.Aead.{Aead, IsAead}
use cfnts.Protocol.Nts.{parse_nts_packet, serialize_nts_packet}
use cfnts.Protocol.Nts.Wires.{IsPlain}
use cfnts.Protocol.Nts.RoundTrip.{parse-serialize_nts_packet}
use cfnts.Protocol.Nts.Plain.{
  associated, sealed_ext, serialize_nts_packet-wires, parse_ntp_packet-serialize_nts_packet,
  length-serialize_nts_packet,
}
use cfnts.Cookie.{NtsKeys, IsKeys, make_cookie, eat_cookie, get_keyid}
use cfnts.Cookie.RoundTrip.{get_keyid-make_cookie, length-make_cookie, eat_cookie-make_cookie}
use cfnts.KeyRotator.{KeyRotator, latest_key_value}
use cfnts.Ntp.Clock.{Floats, SystemTime, ntp_timestamp}
use cfnts.Ntp.Server.{
  ServerState, NtpCounters, create_header, nts_response, after_parse_nts, process_nts,
}
use cfnts.Ntp.Server.Response.{
  is_client, with_keys, with_key, with_keyid, with_cookie, answer_packet, answer_parsed, response,
}
use cfnts.Ntp.Server.Cookies.{IsFresh, nts_response-cookies}
use cfnts.Ntp.Server.Plain.{is_client-client}
use cfnts.Ntp.Client.{query_header, query_packet, time_diff, read_answer}
use cfnts.Ntp.Client.Accepts.{read_answer-serialize}

-- A query whose cookie opens under a key of the rotator, and that is authentic under the session key
-- in the cookie.
pub record IsAuthentic (aead : Aead) (rotator : KeyRotator) (keys : NtsKeys) (wire : Bytes)
    (packet : NtpPacket) (query : NtsPacket) : Type 0 where
  pub parsed : parse_ntp_packet wire ≡ ok packet
  pub asks : packet.header.mode ≡ client
  pub is_nts : is_nts_packet packet ≡ true
  pub cookie : NtpExtension
  pub carries : extract_extension packet.exts nts_cookie ≡ some cookie
  pub id : ℕ
  pub names : get_keyid cookie.contents ≡ some id
  pub key : Bytes
  pub known : rotator.cache id ≡ some key
  pub eaten : eat_cookie aead cookie.contents key ≡ some keys
  pub opened : parse_nts_packet aead keys.c2s wire ≡ ok query

module _ (f : Floats) (aead : Aead) (nonces : ℕ → Bytes) (seal_nonce : Bytes) (rotator : KeyRotator)
    (r_time t_time now : SystemTime) (state : ServerState) (c : NtpCounters) where
  -- An authentic query is counted as such, and its answer is what `nts_response` makes of it, sealed
  -- under the key from server to client.
  pub response-authentic :
      (keys : NtsKeys) (wire : Bytes) (packet : NtpPacket) (query : NtsPacket)
      → IsAuthentic aead rotator keys wire packet query
      → response f aead nonces seal_nonce rotator r_time t_time now state c wire ≡ (
        record c { queries = c.queries + 1; nts = c.nts + 1 },
        nts_response aead nonces keys rotator
              (ntp_timestamp f now)
              (create_header f packet r_time t_time state)
              query
            >>= serialize_nts_packet aead keys.s2c seal_nonce,
      )
  unfolding response answer_parsed answer_packet with_cookie with_keyid with_key with_keys
      process_nts after_parse_nts
  response-authentic keys wire packet query a =
      rw
        (
          a.parsed,
          is_client-client packet.header.mode a.asks,
          a.is_nts,
          a.carries,
          a.names,
          a.known,
          a.eaten,
          a.opened,
        )
        refl
