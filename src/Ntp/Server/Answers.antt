-- ===== src/Ntp/Server/Answers.antt =====
-- src/ntp/server/server.rs: `response` returns on every query whose extensions are there in full.
use cfnts.Base.{
  ℕ, ◌+◌, List, [], ◌∷◌, Bytes, Bool, true, false, Option, some, none, not, All, Outcome, ok, err,
  panic, hang, Ensures, Ensures-ok, IsSettled, length, drop, if◌then◌else◌, IsU32, arith, ◌≡◌, refl,
  subst, subst⁻¹,
}
use cfnts.Protocol.Types.{
  NtpExtension, NtpPacket, NtsPacket, NtpPacketHeader, IoError, unique_identifier, nts_cookie,
  same_type,
}
use cfnts.Protocol.Extensions.{parse_ntp_packet, extract_extension, is_nts_packet}
use cfnts.Protocol.Extensions.Total.{parse_ntp_packet-IsSettled}
use cfnts.Protocol.Aead.{Aead, IsAead}
use cfnts.Protocol.Nts.{parse_nts_packet}
use cfnts.Protocol.Nts.Total.{IsWhole, parse_nts_packet-IsSettled}
use cfnts.Ntp.Server.{NtpCounters, ServerState, after_parse_nts, process_nts, create_header}
use cfnts.Ntp.Server.Response.{
  with_keys, with_key, with_keyid, with_cookie, is_client, answer_packet, answer_parsed, response,
}
use cfnts.Ntp.Server.Cookies.{unique_ids, IsFresh, nts_response-cookies}
use cfnts.Ntp.Clock.{Floats, SystemTime, ntp_timestamp}
use cfnts.Cookie.{NtsKeys, IsKeys, eat_cookie, get_keyid}
use cfnts.Cookie.RoundTrip.{eat_cookie-some}
use cfnts.KeyRotator.{KeyRotator, latest_key_value}
use cfnts.Ntp.Server.Words.{IsWords, parse_ntp_packet-IsWords}
use cfnts.Ntp.Server.Settled.{
  parse_nts_packet-IsWords, serialize_nts_packet-IsSettled, send_kiss_of_death-IsSettled,
  has-extract, nts_packet-cookie, if-IsSettled,
}

module _ (f : Floats) (aead : Aead) (sound : IsAead aead) (nonces : ℕ → Bytes)
    (sixteen : (n : ℕ) → length (nonces n) ≡ 16) (seal_nonce : Bytes)
    (seal_sixteen : length seal_nonce ≡ 16) (rotator : KeyRotator) (key_id : ℕ) (master_key : Bytes)
    (latest : latest_key_value rotator ≡ ok (key_id, master_key)) (u32 : IsU32 key_id) where
  fresh-IsWords :
      (keys : NtsKeys) (exts : List NtpExtension)
      → All (IsFresh aead keys master_key key_id) exts
      → All IsWords exts
  fresh-IsWords keys [] h = tt
  fresh-IsWords keys (ext ∷ exts) (h, hs) = (omega (arith, h.size), fresh-IsWords keys exts hs)

  unique_ids-IsWords : (exts : List NtpExtension) → All IsWords exts → All IsWords (unique_ids exts)
  unique_ids-IsWords [] h = tt
  unique_ids-IsWords (ext ∷ exts) (w, h) =
      if-All (same_type ext.ext_type unique_identifier) ext (unique_ids exts) w
        (unique_ids-IsWords exts h)
    where
      if-All :
          (b : Bool) (ext : NtpExtension) (exts : List NtpExtension)
          → IsWords ext
          → All IsWords exts
          → All IsWords (if b then ext ∷ exts else exts)
      if-All true ext exts w h = (w, h)
      if-All false ext exts w h = h

  after_parse_nts-IsSettled :
      (keys : NtsKeys) (transmitted : ℕ) (c : NtpCounters) (header : NtpPacketHeader)
      (query : Bytes) (packet : NtpPacket) (m : Outcome IoError NtsPacket)
      → IsKeys keys
      → parse_ntp_packet query ≡ ok packet
      → All IsWords packet.exts
      → IsSettled m
      → Ensures (λ p. All IsWords p.auth_exts) m
      → IsSettled
          (after_parse_nts aead nonces keys rotator seal_nonce transmitted c header query m).1
  unfolding after_parse_nts
  after_parse_nts-IsSettled keys transmitted c header query packet (ok p) k parsed words settled
        clear =
      let (resp, e, head, ids, count, fresh, small) =
        nts_response-cookies aead sound keys k nonces sixteen rotator key_id master_key latest u32
          transmitted header p in
      rw e (
        serialize_nts_packet-IsSettled aead keys.s2c seal_nonce resp seal_sixteen
          (subst⁻¹ (All IsWords) ids (unique_ids-IsWords p.auth_exts clear))
          (fresh-IsWords keys resp.auth_enc_exts fresh))
  after_parse_nts-IsSettled keys transmitted c header query packet (err e) k parsed words settled
        clear =
      rw parsed (send_kiss_of_death-IsSettled c packet words)
  after_parse_nts-IsSettled keys transmitted c header query packet panic k parsed words settled
        clear =
      settled
  after_parse_nts-IsSettled keys transmitted c header query packet hang k parsed words settled
        clear =
      settled

  with_keys-IsSettled :
      (now : SystemTime) (c : NtpCounters) (header : NtpPacketHeader) (query : Bytes)
      (packet : NtpPacket) (keys : Option NtsKeys)
      → ((k : NtsKeys) → keys ≡ some k → IsKeys k)
      → parse_ntp_packet query ≡ ok packet
      → All IsWords packet.exts
      → IsWhole (drop 48 query)
      → IsSettled (with_keys f aead nonces seal_nonce rotator now c header query packet keys).1
  unfolding with_keys process_nts
  with_keys-IsSettled now c header query packet none k parsed words whole =
      send_kiss_of_death-IsSettled c packet words
  with_keys-IsSettled now c header query packet (some keys) k parsed words whole =
      after_parse_nts-IsSettled keys (ntp_timestamp f now) c header query packet
        (parse_nts_packet aead keys.c2s query) (k keys refl) parsed words
        (parse_nts_packet-IsSettled aead keys.c2s query whole)
        (parse_nts_packet-IsWords aead keys.c2s query whole parsed)

  with_key-IsSettled :
      (now : SystemTime) (c : NtpCounters) (header : NtpPacketHeader) (query : Bytes)
      (packet : NtpPacket) (cookie : Bytes) (key : Option Bytes)
      → parse_ntp_packet query ≡ ok packet
      → All IsWords packet.exts
      → IsWhole (drop 48 query)
      → IsSettled (with_key f aead nonces seal_nonce rotator now c header query packet cookie key).1
  unfolding with_key
  with_key-IsSettled now c header query packet cookie none parsed words whole =
      send_kiss_of_death-IsSettled c packet words
  with_key-IsSettled now c header query packet cookie (some key) parsed words whole =
      with_keys-IsSettled now c header query packet (eat_cookie aead cookie key)
        (λ k e. (eat_cookie-some aead cookie key e).2) parsed words whole

  with_keyid-IsSettled :
      (now : SystemTime) (c : NtpCounters) (header : NtpPacketHeader) (query : Bytes)
      (packet : NtpPacket) (cookie : Bytes) (keyid : Option ℕ)
      → parse_ntp_packet query ≡ ok packet
      → All IsWords packet.exts
      → IsWhole (drop 48 query)
      → IsSettled
          (with_keyid f aead nonces seal_nonce rotator now c header query packet cookie keyid).1
  unfolding with_keyid
  with_keyid-IsSettled now c header query packet cookie none parsed words whole =
      send_kiss_of_death-IsSettled c packet words
  with_keyid-IsSettled now c header query packet cookie (some keyid) parsed words whole =
      with_key-IsSettled now c header query packet cookie (rotator.cache keyid) parsed words whole

  with_cookie-IsSettled :
      (now : SystemTime) (c : NtpCounters) (header : NtpPacketHeader) (query : Bytes)
      (packet : NtpPacket)
      → parse_ntp_packet query ≡ ok packet
      → All IsWords packet.exts
      → IsWhole (drop 48 query)
      → is_nts_packet packet ≡ true
      → IsSettled
          (with_cookie f aead nonces seal_nonce rotator now c header query packet
            (extract_extension packet.exts nts_cookie)).1
  unfolding with_cookie
  with_cookie-IsSettled now c header query packet parsed words whole nts =
      let (ext, e) = has-extract packet.exts nts_cookie (nts_packet-cookie packet nts) in
      rw e (
        with_keyid-IsSettled now c header query packet ext.contents (get_keyid ext.contents) parsed
          words whole)

  answer_packet-IsSettled :
      (r_time t_time now : SystemTime) (state : ServerState) (c : NtpCounters) (query : Bytes)
      (packet : NtpPacket)
      → parse_ntp_packet query ≡ ok packet
      → All IsWords packet.exts
      → IsWhole (drop 48 query)
      → IsSettled
          (answer_packet f aead nonces seal_nonce rotator r_time t_time now state c query packet).1
  unfolding answer_packet
  answer_packet-IsSettled r_time t_time now state c query packet parsed words whole =
      if-IsSettled (not (is_client packet.header.mode)) _ _ (λ _. tt)
        (λ _.
          if-IsSettled (is_nts_packet packet) _ _
            (λ nts.
              with_cookie-IsSettled now (record c { queries = c.queries + 1; nts = c.nts + 1 })
                (create_header f packet r_time t_time state) query packet parsed words whole nts)
            (λ _. tt))

  -- With a latest key that is a `u32` in the rotator, an AEAD that is sound and nonces of 16 bytes, the
  -- server answers every query whose extensions are there in full, whatever the cookie in it and the
  -- state and counters of the server: with bytes or an error. It does not panic, apart from its
  -- measurement, which is left out.
  pub response-IsSettled :
      (r_time t_time now : SystemTime) (state : ServerState) (c : NtpCounters) (query : Bytes)
      → IsWhole (drop 48 query)
      → IsSettled (response f aead nonces seal_nonce rotator r_time t_time now state c query).1
  unfolding response answer_parsed
  response-IsSettled r_time t_time now state c query whole =
      answer_parsed-IsSettled (parse_ntp_packet query) refl
    where
      answer_parsed-IsSettled :
          (m : Outcome IoError NtpPacket)
          → parse_ntp_packet query ≡ m
          → IsSettled
              (answer_parsed f aead nonces seal_nonce rotator r_time t_time now state c query m).1
      answer_parsed-IsSettled (ok packet) parsed =
          answer_packet-IsSettled r_time t_time now state c query packet parsed
            (Ensures-ok (λ packet. All IsWords packet.exts) (parse_ntp_packet query) packet
              (parse_ntp_packet-IsWords query) parsed)
            whole
      answer_parsed-IsSettled (err e) parsed = tt
      answer_parsed-IsSettled panic parsed =
          subst IsSettled parsed (parse_ntp_packet-IsSettled query)
      answer_parsed-IsSettled hang parsed =
          subst IsSettled parsed (parse_ntp_packet-IsSettled query)
