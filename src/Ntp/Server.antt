-- ===== src/Ntp/Server.antt =====
-- src/ntp/server/server.rs: the answer to a query, and the refresh of the server's state. The AEAD,
-- the clock, the random nonces and the socket are parameters; the Prometheus counters are state.
-- The measurements of the experiment are left out; the file that they read is taken to be there.
pub mod Response
pub mod Cookies
pub mod Words
pub mod Settled
pub mod Answers
pub mod Kod
pub mod State
pub mod Run
pub mod Counts
pub mod Plain
use cfnts.Base.{
  ℕ, zero, suc, ◌+◌, ◌-◌, ◌*◌, ◌%◌, ◌^◌, List, [], ◌∷◌, ◌++◌, Bytes, Bool, true, false, Option,
  some, none, not, Outcome, ok, err, panic, hang, ◌>>=◌, length, ltb, if◌then◌else◌,
}
use cfnts.Protocol.Types.{
  LeapState, unknown, PacketMode, client, server, IoError, not_client_mode, same_type,
  NtpExtensionType, unique_identifier, nts_cookie, nts_cookie_placeholder, NtpPacketHeader,
  NtpExtension, NtsPacket, NtpPacket,
}
use cfnts.Protocol.Header.{serialize_header}
use cfnts.Protocol.Extensions.{
  parse_ntp_packet, serialize_ntp_packet, has_extension, extract_extension, is_nts_packet,
}
use cfnts.Protocol.Nts.{parse_nts_packet, serialize_nts_packet}
use cfnts.Protocol.Aead.{Aead}
use cfnts.Cookie.{cookie_size, NtsKeys, get_keyid, make_cookie, eat_cookie}
use cfnts.KeyRotator.{KeyRotator, RotateError, latest_key_value}
use cfnts.Ntp.Clock.{Floats, SystemTime, fix_dispersion, ntp_timestamp}

pub record ServerState : Type 0 where
  pub leap : LeapState
  pub stratum : ℕ
  pub version : ℕ
  pub poll : ℕ
  pub precision : ℕ
  pub root_delay : ℕ
  pub root_dispersion : ℕ
  pub refid : ℕ
  pub refstamp : ℕ
  pub taken : SystemTime

-- `QUERY_COUNTER`, `NTS_COUNTER`, `KOD_COUNTER`, `MALFORMED_COOKIE_COUNTER`,
-- `MISSING_KEY_COUNTER`, `UNDECRYPTABLE_COOKIE_COUNTER`, `UPSTREAM_QUERY_COUNTER` and
-- `UPSTREAM_FAILURE_COUNTER`
pub record NtpCounters : Type 0 where
  pub queries : ℕ
  pub nts : ℕ
  pub kod : ℕ
  pub malformed : ℕ
  pub missing_key : ℕ
  pub undecryptable : ℕ
  pub upstream_queries : ℕ
  pub upstream_failures : ℕ

abbrev pub Answer : Type 0
Answer = NtpCounters × Outcome IoError Bytes

unfoldable pub create_header :
    Floats → NtpPacket → SystemTime → SystemTime → ServerState → NtpPacketHeader
unfolding ntp_timestamp fix_dispersion
create_header f query_packet received transmit state = record {
  leap_indicator = state.leap;
  version = state.version;
  mode = server;
  stratum = state.stratum;
  poll = state.poll;
  precision = state.precision;
  root_delay = state.root_delay;
  root_dispersion = fix_dispersion f state.root_dispersion transmit state.taken;
  reference_id = state.refid;
  reference_timestamp = state.refstamp;
  origin_timestamp = query_packet.header.transmit_timestamp;
  receive_timestamp = ntp_timestamp f received;
  transmit_timestamp = ntp_timestamp f transmit;
}

-- The extension that a kiss of death repeats.
abbrev pub option_list : Option NtpExtension → List NtpExtension
option_list none = []
option_list (some ext) = ext ∷ []

unfoldable pub kiss_of_death : NtpPacket → NtpPacket
unfolding has_extension extract_extension
kiss_of_death query_packet = record {
  header = record {
    leap_indicator = unknown;
    version = 4;
    mode = server;
    stratum = 0;
    poll = 0;
    precision = 0;
    root_delay = 0;
    root_dispersion = 0;
    reference_id = 0x4e54534e;
    reference_timestamp = 0;
    origin_timestamp = query_packet.header.transmit_timestamp;
    receive_timestamp = 0;
    transmit_timestamp = 0;
  };
  exts =
      if has_extension query_packet.exts unique_identifier
      then option_list (extract_extension query_packet.exts unique_identifier)
      else [];
}

unfoldable pub send_kiss_of_death : NtpCounters → NtpPacket → Answer
unfolding kiss_of_death serialize_ntp_packet
send_kiss_of_death c query_packet =
    (record c { kod = c.kod + 1 }, serialize_ntp_packet (kiss_of_death query_packet))

-- `unwrap` of a parsed packet.
abbrev pub unwrap_parsed : NtpCounters → Outcome IoError NtpPacket → Answer
unwrap_parsed c (ok packet) = send_kiss_of_death c packet
unwrap_parsed c (err e) = (c, panic)
unwrap_parsed c panic = (c, panic)
unwrap_parsed c hang = (c, hang)

-- A placeholder that is as long as a cookie, for which a cookie goes back.
unfoldable pub takes_cookie : NtpExtension → Bool
unfolding same_type
takes_cookie ext =
    if same_type ext.ext_type nts_cookie_placeholder
    then not (ltb (length ext.contents) cookie_size)
    else false

-- The extension with a new cookie.
abbrev pub cookie_ext : Bytes → NtpExtension
cookie_ext cookie = record { ext_type = nts_cookie; contents = cookie }

module _ (aead : Aead) (nonces : ℕ → Bytes) (keys : NtsKeys) (rotator : KeyRotator) where
  -- A cookie under the latest key; without one, `latest_key_value` panics.
  unfoldable pub cookie_under : ℕ → Outcome RotateError (ℕ × Bytes) → Outcome IoError Bytes
  unfolding make_cookie
  cookie_under n (ok latest) = ok (make_cookie aead (nonces n) keys latest.1 latest.0)
  cookie_under n (err e) = panic
  cookie_under n panic = panic
  cookie_under n hang = hang

  unfoldable pub fresh_cookie : ℕ → Outcome IoError Bytes
  unfolding latest_key_value cookie_under
  fresh_cookie n = cookie_under n (latest_key_value rotator)

  -- The loop of `nts_response`: the extensions that go back in the clear, and those that are sealed.
  -- `n` cookies were made before.
  unfoldable pub answer_extensions :
      ℕ → List NtpExtension → Outcome IoError (List NtpExtension × List NtpExtension)
  unfolding fresh_cookie takes_cookie same_type
  answer_extensions n [] = ok ([], [])
  answer_extensions n (ext ∷ exts) =
      if same_type ext.ext_type unique_identifier
      then (answer_extensions n exts >>= λ r. ok (ext ∷ r.0, r.1))
      else if takes_cookie ext
      then (fresh_cookie n >>= λ cookie.
          answer_extensions (n + 1) exts >>= λ r. ok (r.0, cookie_ext cookie ∷ r.1))
      else answer_extensions n exts

  -- The last cookie replaces the one that the query used; `transmitted` is the timestamp set at
  -- the end.
  unfoldable pub nts_response : ℕ → NtpPacketHeader → NtsPacket → Outcome IoError NtsPacket
  unfolding answer_extensions fresh_cookie
  nts_response transmitted header query = do
    r ← answer_extensions 1 query.auth_exts
    cookie ← fresh_cookie 0
    ok (record {
      header = record header { transmit_timestamp = transmitted };
      auth_exts = r.0;
      auth_enc_exts = r.1 ++ (cookie_ext cookie ∷ []);
    })

  -- What `process_nts` makes of the parsed packet; `seal_nonce` is the nonce of the answer.
  unfoldable pub after_parse_nts :
      Bytes → ℕ → NtpCounters → NtpPacketHeader → Bytes → Outcome IoError NtsPacket → Answer
  unfolding nts_response send_kiss_of_death
  after_parse_nts seal_nonce transmitted c header query_raw (ok packet) =
      (c, nts_response transmitted header packet >>= serialize_nts_packet aead keys.s2c seal_nonce)
  after_parse_nts seal_nonce transmitted c header query_raw (err e) =
      unwrap_parsed c (parse_ntp_packet query_raw)
  after_parse_nts seal_nonce transmitted c header query_raw panic = (c, panic)
  after_parse_nts seal_nonce transmitted c header query_raw hang = (c, hang)

  unfoldable pub process_nts : Bytes → ℕ → NtpCounters → NtpPacketHeader → Bytes → Answer
  unfolding after_parse_nts
  process_nts seal_nonce transmitted c header query_raw =
      after_parse_nts seal_nonce transmitted c header query_raw
        (parse_nts_packet aead keys.c2s query_raw)

-- A failed query of the upstream server.
abbrev pub upstream_failed : NtpCounters → NtpCounters
upstream_failed c = record c {
  upstream_queries = c.upstream_queries + 1;
  upstream_failures = c.upstream_failures + 1;
}

-- The `match` on the parsed answer of the upstream server.
unfoldable pub take_upstream :
    SystemTime → ServerState → NtpCounters → Outcome IoError NtpPacket → ServerState × NtpCounters
take_upstream now state c (ok packet) = (
  record {
    leap = packet.header.leap_indicator;
    stratum = packet.header.stratum;
    version = 4;
    poll = packet.header.poll;
    precision = packet.header.precision;
    root_delay = packet.header.root_delay;
    root_dispersion = packet.header.root_dispersion;
    refid = packet.header.reference_id;
    refstamp = packet.header.reference_timestamp;
    taken = now;
  },
  record c { upstream_queries = c.upstream_queries + 1 },
)
take_upstream now state c (err e) = (state, upstream_failed c)
take_upstream now state c panic = (state, upstream_failed c)
take_upstream now state c hang = (state, upstream_failed c)

-- One turn of the loop of `refresh_servstate`: what `recv_from` received, if it did, and when. The
-- failures of `connect` and `send` panic, and are left out, as is the sleep.
unfoldable pub refresh_servstate :
    SystemTime → Option Bytes → ServerState → NtpCounters → ServerState × NtpCounters
unfolding parse_ntp_packet take_upstream
refresh_servstate now none state c = (state, upstream_failed c)
refresh_servstate now (some buff) state c = take_upstream now state c (parse_ntp_packet buff)
