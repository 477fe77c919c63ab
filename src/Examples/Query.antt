-- ===== src/Examples/Query.antt =====
-- Examples on the exchange of the NTP client with the server.
use cfnts.Base.{
  ◌-◌, ◌*◌, ◌/◌, ◌^◌, [], ◌∷◌, Bytes, true, some, replicate, length, ok, arith, ap, ◌≡◌, refl,
}
use cfnts.Protocol.Aead.{plain_aead, plain_aead-IsAead}
use cfnts.Protocol.Nts.{serialize_nts_packet}
use cfnts.Cookie.{make_cookie}
use cfnts.KeyRotator.{latest_key_value}
use cfnts.Ke.Client.{NtsKeResult, SocketAddr}
use cfnts.Ntp.Clock.{Floats, ntp_timestamp, system_to_ntpfloat, timestamp_to_float}
use cfnts.Ntp.Client.{
  UdpClient, query_packet, query_addr, time_diff, read_answer, run_nts_ntp_client,
}
use cfnts.Ntp.Server.Response.{response}
use cfnts.Ntp.Server.State.{IsState}
use cfnts.Ntp.Exchange.Run.{response-query, run_nts_ntp_client-response}
use cfnts.Examples.Data.{
  keys, keys-IsKeys, nonce, master_key, rotator_with, whole_floats, noon, ntp_counters, state,
}

pub latest : latest_key_value (rotator_with 28800) ≡ ok (28800, master_key)
unfolding latest_key_value
latest = refl

pub state-IsState : IsState state
state-IsState = record {
  stratum_u8 = omega arith;
  version_u8 = omega arith;
  poll_i8 = omega arith;
  precision_i8 = omega arith;
  root_delay_u32 = omega arith;
  root_dispersion_u32 = omega arith;
  refid_u32 = omega arith;
  refstamp_u64 = omega arith;
}

abbrev pub id : Bytes
id = replicate 32 3

abbrev pub cookie : Bytes
cookie = make_cookie plain_aead nonce keys master_key 28800

response-query_example :
    (wire : Bytes) × (datagram : Bytes) × (serialize_nts_packet plain_aead keys.c2s nonce
        (query_packet id cookie)
      ≡ ok wire)
    × (length wire ≡ 228)
    × (response whole_floats plain_aead
          (λ n. nonce)
          nonce
          (rotator_with 28800)
          noon
          noon
          noon
          state
          ntp_counters
          wire
        ≡ (record ntp_counters { queries = 1; nts = 1 }, ok datagram))
    × (length datagram ≡ 228)
    × (read_answer whole_floats plain_aead keys.s2c id 0 0 datagram
        ≡ ok (record {
          stratum = 2;
          time_diff =
              time_diff whole_floats
                (ntp_timestamp whole_floats noon)
                (ntp_timestamp whole_floats noon)
                0
                0;
        }))
response-query_example =
    response-query whole_floats plain_aead plain_aead-IsAead (λ n. nonce) (λ n. refl) nonce refl
      (rotator_with 28800) 28800 master_key latest (omega arith) noon noon noon state ntp_counters
      state-IsState keys keys-IsKeys 28800 (omega arith) master_key refl nonce refl nonce refl id
      refl 0 0

-- The same exchange, for the runs below.
pub exchanged :
    (wire : Bytes) × (datagram : Bytes) × (serialize_nts_packet plain_aead keys.c2s nonce
        (query_packet id cookie)
      ≡ ok wire)
    × (length wire ≡ 228)
    × (response whole_floats plain_aead
          (λ n. nonce)
          nonce
          (rotator_with 28800)
          noon
          noon
          noon
          state
          ntp_counters
          wire
        ≡ (record ntp_counters { queries = 1; nts = 1 }, ok datagram))
    × (length datagram ≡ 228)
    × (read_answer whole_floats plain_aead keys.s2c id 0 0 datagram
        ≡ ok (record {
          stratum = 2;
          time_diff =
              time_diff whole_floats
                (ntp_timestamp whole_floats noon)
                (ntp_timestamp whole_floats noon)
                0
                0;
        }))
exchanged =
    response-query whole_floats plain_aead plain_aead-IsAead (λ n. nonce) (λ n. refl) nonce refl
      (rotator_with 28800) 28800 master_key latest (omega arith) noon noon noon state ntp_counters
      state-IsState keys keys-IsKeys 28800 (omega arith) master_key refl nonce refl nonce refl id
      refl 0 0

abbrev pub address : SocketAddr
address = record { is_ipv4 = true; text = [] }

abbrev ke_result : NtsKeResult
ke_result = record {
  cookies = cookie ∷ [];
  next_protocols = [];
  aead_scheme = 15;
  next_server = [];
  next_port = 123;
  keys = keys;
  use_ipv4 = some true;
}

abbrev pub udp : UdpClient
udp = record {
  resolve = λ name port. some (address ∷ []);
  binds = λ v4. true;
  connects = λ addr. true;
  sends = λ bytes. true;
  receives = some exchanged.1;
  before = noon;
  after = noon;
}

pub found : query_addr (some true) (address ∷ []) ≡ ok address
unfolding query_addr
found = refl

run_nts_ntp_client-response_example :
    run_nts_ntp_client whole_floats plain_aead udp id nonce ke_result
    ≡ ok (record {
      stratum = 2;
      time_diff =
          time_diff whole_floats
            (ntp_timestamp whole_floats noon)
            (ntp_timestamp whole_floats noon)
            (system_to_ntpfloat whole_floats noon)
            (system_to_ntpfloat whole_floats noon);
    })
run_nts_ntp_client-response_example =
    run_nts_ntp_client-response whole_floats plain_aead plain_aead-IsAead (λ n. nonce) (λ n. refl)
      nonce refl (rotator_with 28800) 28800 master_key latest (omega arith) noon noon noon state
      ntp_counters state-IsState keys keys-IsKeys 28800 (omega arith) master_key refl nonce refl
      nonce refl id refl udp ke_result [] (address ∷ []) address exchanged.0 exchanged.1 refl refl
      refl found refl refl exchanged.2 refl (ap (λ a. a.1) exchanged.4) refl

-- The arithmetic of whole numbers of seconds.
abbrev seconds : Floats
seconds = record whole_floats { sub = λ x y. x - y; div = λ x y. x / y }

-- A server that is 6 seconds ahead at the query and 8 at the answer is 7 ahead.
time_diff_mean : time_diff seconds (10 * 2 ^ 32) (20 * 2 ^ 32) 4 12 ≡ 7
unfolding time_diff timestamp_to_float
time_diff_mean = refl
