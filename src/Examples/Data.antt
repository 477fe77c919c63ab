-- ===== src/Examples/Data.antt =====
-- The inputs of the examples.
use cfnts.Base.{
  ℕ, ◌+◌, ◌*◌, ◌%◌, ◌^◌, [], ◌∷◌, ◌++◌, Bytes, some, none, replicate, ◌==◌, if◌then◌else◌, arith,
  refl,
}
use cfnts.Protocol.Types.{
  no_leap, unique_identifier, same_type, nts_cookie_placeholder, NtpExtension, IsHeader, NtsPacket,
  NtpPacket,
}
use cfnts.Protocol.Extensions.RoundTrip.{IsExtension}
use cfnts.Protocol.Nts.Wires.{IsPlain}
use cfnts.Cookie.{NtsKeys, IsKeys}
use cfnts.KeyRotator.{KeyRotator, Counters, Memcache, found}
use cfnts.Records.Types.{Net}
use cfnts.Ntp.Clock.{Floats, SystemTime}
use cfnts.Ntp.Server.{NtpCounters, ServerState}
use cfnts.Ntp.Client.{query_header}

abbrev pub keys : NtsKeys
keys = record { c2s = replicate 32 1; s2c = replicate 32 2 }

pub keys-IsKeys : IsKeys keys
keys-IsKeys = record { length-c2s = refl; length-s2c = refl }

abbrev pub nonce : Bytes
nonce = replicate 16 7

abbrev pub master_key : Bytes
master_key = 9 ∷ []

abbrev pub sign : Bytes → Bytes → Bytes
sign key message = key ++ message

abbrev pub no_net : Net
no_net = record {
  parse_ipv4 = λ text. none;
  show_ipv4 = λ a. [];
  parse_ipv6 = λ text. none;
  show_ipv6 = λ a. [];
}

-- A memcached server with the same value for every period, and one that refuses connections.
abbrev pub full_memcache : Memcache
full_memcache = record { connect = λ url. none; get = λ key. found (5 ∷ []) }

abbrev pub down_memcache : Memcache
down_memcache = record { connect = λ url. some 1; get = λ key. found (5 ∷ []) }

abbrev pub counters : Counters
counters = record { rotations = 0; failures = 0 }

-- A rotator of three periods of an hour, whose only key is the one with the identifier `id`.
abbrev pub rotator_with : ℕ → KeyRotator
rotator_with id = record {
  memcached_url = [];
  prefix = [];
  duration = 3600;
  number_of_forward_periods = 1;
  number_of_backward_periods = 1;
  master_key = master_key;
  latest_key_id = id;
  cache = λ k. if k == id then some master_key else none;
}

abbrev pub unique_id : NtpExtension
unique_id = record { ext_type = unique_identifier; contents = replicate 32 3 }

abbrev pub placeholder : NtpExtension
placeholder = record { ext_type = nts_cookie_placeholder; contents = replicate 100 0 }

pub unique_id-IsExtension : IsExtension unique_id
unique_id-IsExtension = record { canonical = tt; words = refl; fits = omega arith }

pub unique_id-IsPlain : IsPlain unique_id
unfolding same_type
unique_id-IsPlain = record { extension = unique_id-IsExtension; not_authenticator = refl }

pub placeholder-IsExtension : IsExtension placeholder
placeholder-IsExtension = record { canonical = tt; words = refl; fits = omega arith }

pub placeholder-IsPlain : IsPlain placeholder
unfolding same_type
placeholder-IsPlain = record { extension = placeholder-IsExtension; not_authenticator = refl }

pub query_header-IsHeader : IsHeader query_header
query_header-IsHeader = record {
  version_u8 = omega arith;
  stratum_u8 = omega arith;
  poll_i8 = omega arith;
  precision_i8 = omega arith;
  root_delay_u32 = omega arith;
  root_dispersion_u32 = omega arith;
  reference_id_u32 = omega arith;
  reference_timestamp_u64 = omega arith;
  origin_timestamp_u64 = omega arith;
  receive_timestamp_u64 = omega arith;
  transmit_timestamp_u64 = omega arith;
}

-- A query with a unique identifier and a placeholder.
abbrev pub query : NtsPacket
query = record {
  header = query_header;
  auth_exts = unique_id ∷ placeholder ∷ [];
  auth_enc_exts = placeholder ∷ [];
}

abbrev pub plain_query : NtpPacket
plain_query = record { header = query_header; exts = unique_id ∷ [] }

-- Whole numbers in place of floats.
abbrev pub whole_floats : Floats
whole_floats = record {
  F64 = ℕ;
  of_int = λ n. n;
  phi = 0;
  add = λ x y. x + y;
  sub = λ x y. x;
  mul = λ x y. x * y;
  div = λ x y. x;
  floor_u32 = λ x. x % 2 ^ 32;
  round_u32 = λ x. x % 2 ^ 32;
}

abbrev pub noon : SystemTime
noon = record { secs = 1700000000; nanos = 5 }

abbrev pub ntp_counters : NtpCounters
ntp_counters = record {
  queries = 0;
  nts = 0;
  kod = 0;
  malformed = 0;
  missing_key = 0;
  undecryptable = 0;
  upstream_queries = 0;
  upstream_failures = 0;
}

abbrev pub state : ServerState
state = record {
  leap = no_leap;
  stratum = 2;
  version = 4;
  poll = 0;
  precision = 0;
  root_delay = 0;
  root_dispersion = 0;
  refid = 0;
  refstamp = 0;
  taken = noon;
}
