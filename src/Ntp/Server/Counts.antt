-- ===== src/Ntp/Server/Counts.antt =====
-- src/ntp/server/server.rs: how `response` and `refresh_servstate` count.
use cfnts.Base.{
  ℕ, ◌+◌, ◌≤◌, Bytes, Option, some, none, Outcome, ok, err, panic, hang, Bool-cases, inl, inr,
  arith, ◌≡◌, refl,
}
use cfnts.Protocol.Types.{IoError, NtpPacket, NtpPacketHeader, NtpExtension, NtsPacket, nts_cookie}
use cfnts.Protocol.Extensions.{parse_ntp_packet, is_nts_packet, extract_extension}
use cfnts.Protocol.Aead.{Aead}
use cfnts.Protocol.Nts.{parse_nts_packet}
use cfnts.Cookie.{NtsKeys, get_keyid, eat_cookie}
use cfnts.KeyRotator.{KeyRotator}
use cfnts.Ntp.Clock.{Floats, SystemTime, ntp_timestamp}
use cfnts.Ntp.Server.{
  ServerState, NtpCounters, create_header, send_kiss_of_death, unwrap_parsed, after_parse_nts,
  process_nts,
}
use cfnts.Ntp.Server.Response.{
  is_client, with_keys, with_key, with_keyid, with_cookie, answer_packet, answer_parsed, response,
}

-- Every query that looks like NTS is a query; each kiss of death goes to such a query, and each cookie
-- that cannot be used causes one; and an upstream failure is one of an upstream query.
pub record IsCounted (c : NtpCounters) : Type 0 where
  pub nts_queries : c.nts ≤ c.queries
  pub kod_nts : c.kod ≤ c.nts
  pub causes : c.malformed + c.missing_key + c.undecryptable ≤ c.kod
  pub failures : c.upstream_failures ≤ c.upstream_queries

-- What the arms for a cookie do to the counters that stood at `c`.
record Steps (c c' : NtpCounters) : Type 0 where
  queries : c'.queries ≡ c.queries
  nts : c'.nts ≡ c.nts
  kod_from : c.kod ≤ c'.kod
  kod_to : c'.kod ≤ c.kod + 1
  causes :
      c'.malformed + c'.missing_key + c'.undecryptable + c.kod
      ≤ c.malformed + c.missing_key + c.undecryptable + c'.kod
  upstream : c'.upstream_queries ≡ c.upstream_queries
  failures : c'.upstream_failures ≡ c.upstream_failures

module _ (f : Floats) (aead : Aead) (nonces : ℕ → Bytes) (seal_nonce : Bytes) (rotator : KeyRotator)
    (now : SystemTime) (c : NtpCounters) (header : NtpPacketHeader) (query : Bytes) where
  unwrap_parsed-Steps : (m : Outcome IoError NtpPacket) → Steps c (unwrap_parsed c m).0
  unfolding send_kiss_of_death
  unwrap_parsed-Steps (ok packet) = ground arith
  unwrap_parsed-Steps (err e) = ground arith
  unwrap_parsed-Steps panic = ground arith
  unwrap_parsed-Steps hang = ground arith

  after_parse_nts-Steps :
      (keys : NtsKeys) (m : Outcome IoError NtsPacket)
      → Steps c
          (after_parse_nts aead nonces keys rotator seal_nonce
            (ntp_timestamp f now)
            c
            header
            query
            m).0
  unfolding after_parse_nts
  after_parse_nts-Steps keys (ok packet) = ground arith
  after_parse_nts-Steps keys (err e) = unwrap_parsed-Steps (parse_ntp_packet query)
  after_parse_nts-Steps keys panic = ground arith
  after_parse_nts-Steps keys hang = ground arith

  with_keys-Steps :
      (packet : NtpPacket) (keys : Option NtsKeys)
      → Steps c (with_keys f aead nonces seal_nonce rotator now c header query packet keys).0
  unfolding with_keys send_kiss_of_death process_nts
  with_keys-Steps packet none = ground arith
  with_keys-Steps packet (some keys) =
      after_parse_nts-Steps keys (parse_nts_packet aead keys.c2s query)

  with_key-Steps :
      (packet : NtpPacket) (cookie : Bytes) (key : Option Bytes)
      → Steps c (with_key f aead nonces seal_nonce rotator now c header query packet cookie key).0
  unfolding with_key send_kiss_of_death
  with_key-Steps packet cookie none = ground arith
  with_key-Steps packet cookie (some key) = with_keys-Steps packet (eat_cookie aead cookie key)

  with_cookie-Steps :
      (packet : NtpPacket) (ext : Option NtpExtension)
      → Steps c (with_cookie f aead nonces seal_nonce rotator now c header query packet ext).0
  unfolding with_cookie with_keyid send_kiss_of_death
  with_cookie-Steps packet none = ground arith
  with_cookie-Steps packet (some ext) = by_id (get_keyid ext.contents)
    where
      by_id :
          (id : Option ℕ)
          → Steps c
              (with_keyid f aead nonces seal_nonce rotator now c header query packet ext.contents
                id).0
      by_id none = ground arith
      by_id (some id) = with_key-Steps packet ext.contents (rotator.cache id)

-- A count of the answers of `response`: one query more at most, and one if it is answered.
pub record Counts (c c' : NtpCounters) : Type 0 where
  pub counted : IsCounted c'
  pub queries_from : c.queries ≤ c'.queries
  pub queries_to : c'.queries ≤ c.queries + 1

counted-Steps :
    (c c' : NtpCounters)
    → IsCounted c
    → Steps (record c { queries = c.queries + 1; nts = c.nts + 1 }) c'
    → Counts c c'
counted-Steps c c' i s = ground arith

module _ (f : Floats) (aead : Aead) (nonces : ℕ → Bytes) (seal_nonce : Bytes) (rotator : KeyRotator)
    (r_time t_time now : SystemTime) (state : ServerState) (c : NtpCounters) (query : Bytes)
    (i : IsCounted c) where
  answer_packet-Counts :
      (packet : NtpPacket)
      → Counts c
          (answer_packet f aead nonces seal_nonce rotator r_time t_time now state c query packet).0
  unfolding answer_packet
  answer_packet-Counts packet = elim (Bool-cases (is_client packet.header.mode)) [
    | inl asks ↦ elim (Bool-cases (is_nts_packet packet)) [
      | inl nts ↦
          rw (asks, nts)
            (counted-Steps c _ i (
              with_cookie-Steps f aead nonces seal_nonce rotator now
                (record c { queries = c.queries + 1; nts = c.nts + 1 })
                (create_header f packet r_time t_time state) query packet
                (extract_extension packet.exts nts_cookie)))
      | inr plain ↦ rw (asks, plain) (ground arith)
    ]
    | inr other ↦ rw other (ground arith)
  ]

  pub response-Counts :
      Counts c (response f aead nonces seal_nonce rotator r_time t_time now state c query).0
  unfolding response
  response-Counts = by_parse (parse_ntp_packet query)
    where
      by_parse :
          (m : Outcome IoError NtpPacket)
          → Counts c
              (answer_parsed f aead nonces seal_nonce rotator r_time t_time now state c query m).0
      by_parse (ok packet) = unfold answer_parsed in answer_packet-Counts packet
      by_parse (err e) = unfold answer_parsed in ground arith
      by_parse panic = unfold answer_parsed in ground arith
      by_parse hang = unfold answer_parsed in ground arith

module _ (f : Floats) (aead : Aead) (nonces : ℕ → Bytes) (seal_nonce : Bytes) (rotator : KeyRotator)
    (r_time t_time now : SystemTime) (state : ServerState) (c : NtpCounters) (query : Bytes) where
  answer_packet-counted :
      (packet : NtpPacket)
      → (answer_packet f aead nonces seal_nonce rotator r_time t_time now state c query
          packet).0.queries
        ≡ c.queries + 1
  unfolding answer_packet
  answer_packet-counted packet = elim (Bool-cases (is_client packet.header.mode)) [
    | inl asks ↦ elim (Bool-cases (is_nts_packet packet)) [
      | inl nts ↦
          rw (asks, nts)
            (with_cookie-Steps f aead nonces seal_nonce rotator now
              (record c { queries = c.queries + 1; nts = c.nts + 1 })
              (create_header f packet r_time t_time state) query packet
              (extract_extension packet.exts nts_cookie)).queries
      | inr plain ↦ rw (asks, plain) refl
    ]
    | inr other ↦ rw other refl
  ]

  -- What is answered was counted.
  pub response-counted :
      (bytes : Bytes)
      → (response f aead nonces seal_nonce rotator r_time t_time now state c query).1 ≡ ok bytes
      → (response f aead nonces seal_nonce rotator r_time t_time now state c query).0.queries
        ≡ c.queries + 1
  unfolding response answer_parsed
  response-counted bytes = by_parse (parse_ntp_packet query)
    where
      by_parse :
          (m : Outcome IoError NtpPacket)
          → (answer_parsed f aead nonces seal_nonce rotator r_time t_time now state c query m).1
            ≡ ok bytes
          → (answer_parsed f aead nonces seal_nonce rotator r_time t_time now state c query
              m).0.queries
            ≡ c.queries + 1
      by_parse (ok packet) h = answer_packet-counted packet
      by_parse (err e) h = cc
      by_parse panic h = cc
      by_parse hang h = cc
