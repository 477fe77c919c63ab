-- ===== src/Ntp/Server/Response.antt =====
-- src/ntp/server/server.rs: `response`, by the arms of its nested matches. The locks around the rotator
-- and the state are left out: what they guard is an argument.
use cfnts.Base.{
  ℕ, ◌+◌, Bytes, Bool, true, false, Option, some, none, not, Outcome, ok, err, panic, hang,
  if◌then◌else◌,
}
use cfnts.Protocol.Types.{
  PacketMode, client, IoError, not_client_mode, nts_cookie, NtpPacketHeader, NtpExtension,
  NtpPacket,
}
use cfnts.Protocol.Header.{serialize_header}
use cfnts.Protocol.Extensions.{parse_ntp_packet, extract_extension, is_nts_packet}
use cfnts.Protocol.Aead.{Aead}
use cfnts.Cookie.{NtsKeys, get_keyid, eat_cookie}
use cfnts.KeyRotator.{KeyRotator}
use cfnts.Ntp.Clock.{Floats, SystemTime, ntp_timestamp}
use cfnts.Ntp.Server.{
  ServerState, NtpCounters, Answer, create_header, send_kiss_of_death, process_nts,
}

unfoldable pub is_client : PacketMode → Bool
is_client client = true
is_client _ = false

module _ (f : Floats) (aead : Aead) (nonces : ℕ → Bytes) (seal_nonce : Bytes)
    (rotator : KeyRotator) where
  -- The arms of `response` for a cookie: the keys in it, the key that it was made with, and its key
  -- identifier. `now` is the time at which the answer is ready.
  unfoldable pub with_keys :
      SystemTime → NtpCounters → NtpPacketHeader → Bytes → NtpPacket → Option NtsKeys → Answer
  unfolding process_nts send_kiss_of_death ntp_timestamp
  with_keys now c header query packet none =
      send_kiss_of_death (record c { undecryptable = c.undecryptable + 1 }) packet
  with_keys now c header query packet (some keys) =
      process_nts aead nonces keys rotator seal_nonce (ntp_timestamp f now) c header query

  unfoldable pub with_key :
      SystemTime → NtpCounters → NtpPacketHeader → Bytes → NtpPacket → Bytes → Option Bytes → Answer
  unfolding with_keys eat_cookie send_kiss_of_death
  with_key now c header query packet cookie none =
      send_kiss_of_death (record c { missing_key = c.missing_key + 1 }) packet
  with_key now c header query packet cookie (some key) =
      with_keys now c header query packet (eat_cookie aead cookie key)

  -- `get` of the rotator looks the key identifier up in the cache.
  unfoldable pub with_keyid :
      SystemTime → NtpCounters → NtpPacketHeader → Bytes → NtpPacket → Bytes → Option ℕ → Answer
  unfolding with_key send_kiss_of_death
  with_keyid now c header query packet cookie none =
      send_kiss_of_death (record c { malformed = c.malformed + 1 }) packet
  with_keyid now c header query packet cookie (some keyid) =
      with_key now c header query packet cookie (rotator.cache keyid)

  -- The `unwrap` of `extract_extension` panics without a cookie.
  unfoldable pub with_cookie :
      SystemTime → NtpCounters → NtpPacketHeader → Bytes → NtpPacket → Option NtpExtension → Answer
  unfolding with_keyid get_keyid
  with_cookie now c header query packet none = (c, panic)
  with_cookie now c header query packet (some ext) =
      with_keyid now c header query packet ext.contents (get_keyid ext.contents)

  -- `response` behind the parser, for the received packet.
  unfoldable pub answer_packet :
      SystemTime → SystemTime → SystemTime → ServerState → NtpCounters → Bytes → NtpPacket → Answer
  unfolding create_header is_client is_nts_packet with_cookie extract_extension
  answer_packet r_time t_time now state c query packet =
      let header = create_header f packet r_time t_time state in
      let counted = record c { queries = c.queries + 1 } in
      if not (is_client packet.header.mode)
      then (counted, err not_client_mode)
      else if is_nts_packet packet
      then with_cookie now (record counted { nts = c.nts + 1 }) header query packet
          (extract_extension packet.exts nts_cookie)
      else (counted, ok (serialize_header header))

  unfoldable pub answer_parsed :
      SystemTime
      → SystemTime
      → SystemTime
      → ServerState
      → NtpCounters
      → Bytes
      → Outcome IoError NtpPacket
      → Answer
  unfolding answer_packet
  answer_parsed r_time t_time now state c query (ok packet) =
      answer_packet r_time t_time now state c query packet
  answer_parsed r_time t_time now state c query (err e) = (c, err e)
  answer_parsed r_time t_time now state c query panic = (c, panic)
  answer_parsed r_time t_time now state c query hang = (c, hang)

  -- `r_time` and `t_time` are the arguments of the Rust function.
  unfoldable pub response :
      SystemTime → SystemTime → SystemTime → ServerState → NtpCounters → Bytes → Answer
  unfolding answer_parsed parse_ntp_packet
  response r_time t_time now state c query =
      answer_parsed r_time t_time now state c query (parse_ntp_packet query)
