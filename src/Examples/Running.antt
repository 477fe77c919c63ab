-- ===== src/Examples/Running.antt =====
-- Examples on the commands and the rotation thread.
use cfnts.Base.{ℕ, Bytes, ◌^◌, ◌<◌, [], ◌∷◌, true, some, none, ok, codes, arith, ap, ◌≡◌, refl}
use cfnts.Protocol.Aead.{plain_aead}
use cfnts.KeyRotator as Rotator
use cfnts.KeyRotator.{
  Memcache, Counters, Run, found, rotate, fetch_periods, set_latest, connect_loop, periodic_rotate,
  latest_key_value,
}
use cfnts.KeyRotator.Periodic.{IsRecovered, periodic_rotate-IsRecovered}
use cfnts.Ke.Setup as Setup
use cfnts.Ke.Setup.{KeServer}
use cfnts.Commands.KeServer as KeCommand
use cfnts.Commands.KeServer.{listens, crashes, IsListening}
use cfnts.Commands.KeServer.Listens.{run-IsListening}
use cfnts.Ntp.Clock.{SystemTime}
use cfnts.Ntp.Server.Run as NtpRun
use cfnts.Protocol.Types.{IsHeader}
use cfnts.Protocol.Header.{serialize_header}
use cfnts.Ntp.Client.{query_header}
use cfnts.Ntp.Server.{create_header}
use cfnts.Ntp.Server.Response.{response}
use cfnts.Ntp.Server.Plain.{IsAnswer, response-plain}
use cfnts.Ntp.Server.Run.{NtpServer, Message, Totals, scm_timestamp, ipv4_packet_info}
use cfnts.Ntp.Server.Run.Steps as Steps
use cfnts.Ntp.Server.Run.Steps.{here, next}
use cfnts.Ntp.Server.Run.Starts.{shared_at}
use cfnts.Commands.NtpServer as NtpCommand
use cfnts.Commands.NtpServer.{serves, IsRunning, run-IsRunning}
use cfnts.Examples.Data.{
  nonce, sign, full_memcache, down_memcache, counters, rotator_with, master_key, whole_floats, noon,
}
use cfnts.Examples.Answers.{bare, bare-parsed, bare-plain}
use cfnts.Examples.Configs.{address, system, config_with, ke_config_of, ntp_config_of}

-- Memcached is there at each try.
abbrev world : ℕ → ℕ × Memcache
world i = (36000, full_memcache)

early : (j : ℕ) → (world j).0 < 2 ^ 63
early j = omega arith

abbrev connected : Run
connected = Rotator.connect sign world (codes "/nts/nts-keys") (codes "name") master_key counters

connects : connected.2 ≡ ok tt
unfolding Rotator.connect connect_loop rotate fetch_periods set_latest
connects = refl

abbrev server : KeServer
server = record {
  state = record {
    config = config_with ((2 ∷ []) ∷ []);
    rotator = connected.0;
    tls_server_config = record {
      chain = (1 ∷ []) ∷ [];
      secret_key = 2 ∷ [];
      protocols = codes "ntske/1" ∷ [];
    };
  };
  listeners = address ∷ [];
}

server_listens :
    KeCommand.run sign world counters system (λ certs. λ key. true) (λ addr. true) none
    ≡ listens server
unfolding KeCommand.run Setup.connect Setup.start Rotator.connect connect_loop rotate fetch_periods
    set_latest
server_listens = rw (ke_config_of ((2 ∷ []) ∷ []) _) refl

run-IsListening_example :
    IsListening sign world counters system
      (λ certs. λ key. true)
      (λ addr. true)
      (KeCommand.resolve_config_filename none)
      server
run-IsListening_example =
    run-IsListening sign world counters system (λ certs. λ key. true) (λ addr. true) none server
      early server_listens

periodic_rotate-IsRecovered_example : IsRecovered sign full_memcache 39600 (rotator_with 28800) (
    periodic_rotate sign
      ((36000, down_memcache) ∷ (39600, full_memcache) ∷ [])
      (rotator_with 28800)
      counters)
periodic_rotate-IsRecovered_example =
    periodic_rotate-IsRecovered sign ((36000, down_memcache) ∷ []) full_memcache 39600
      (rotator_with 28800) counters
      (record { positive = omega arith; short = omega arith; early = omega arith }) refl
      (λ p. λ l. λ u. (5 ∷ [], refl))

abbrev ntp_server : NtpServer
ntp_server = record {
  state = NtpRun.first_state noon;
  rotator = connected.0;
  sockets = record { addr = address; use_ipv4 = true } ∷ [];
}

server_serves :
    NtpCommand.run sign world counters system true (λ addr. true) noon none ≡ serves ntp_server
unfolding NtpCommand.run NtpRun.start_ntp_server Rotator.connect connect_loop rotate fetch_periods
    set_latest
server_serves = rw (ntp_config_of _) refl

-- A query without NTS that arrives with a timestamp and the packet information of IPv4.
abbrev message : Message
message = record {
  address = some (127 ∷ []);
  cmsgs = scm_timestamp 1700000000 2 ∷ ipv4_packet_info (1 ∷ []) ∷ [];
  datagram = serialize_header query_header;
}

abbrev received : SystemTime
received = record { secs = 1700000000; nanos = 2000 }

first-IsHeader : IsHeader (create_header whole_floats bare received noon ntp_server.state)
unfolding create_header
first-IsHeader = record {
  version_u8 = omega arith;
  stratum_u8 = omega arith;
  poll_i8 = omega arith;
  precision_i8 = omega arith;
  root_delay_u32 = omega arith;
  root_dispersion_u32 = omega arith;
  reference_id_u32 = omega arith;
  reference_timestamp_u64 = omega arith;
  origin_timestamp_u64 = omega arith;
  receive_timestamp_u64 = omega arith;
  transmit_timestamp_u64 = omega arith;
}

-- The answer to it.
answer :
    (bytes : Bytes) × (response whole_floats plain_aead
        (λ n. nonce)
        nonce
        ntp_server.rotator
        received
        noon
        noon
        ntp_server.state
        (shared_at ntp_server counters).totals.counters
        (serialize_header query_header)
      ≡ (record (shared_at ntp_server counters).totals.counters { queries = 1 }, ok bytes))
    × IsAnswer whole_floats received noon ntp_server.state query_header bytes
answer =
    response-plain whole_floats plain_aead (λ n. nonce) nonce ntp_server.rotator received noon noon
      ntp_server.state (shared_at ntp_server counters).totals.counters
      (serialize_header query_header) bare bare-parsed refl bare-plain first-IsHeader

abbrev answered : Totals
answered = record {
  counters = record (shared_at ntp_server counters).totals.counters { queries = 1 };
  mangled = 0;
  replies =
      record { to = 127 ∷ []; cmsgs = ipv4_packet_info (1 ∷ []) ∷ []; datagram = answer.0 } ∷ [];
}

-- One query is answered.
answers_message :
    NtpRun.serve_message whole_floats plain_aead
      (λ n. nonce)
      nonce
      ntp_server.rotator
      noon
      noon
      ntp_server.state
      true
      (shared_at ntp_server counters).totals
      message
    ≡ ok answered
unfolding NtpRun.serve_message NtpRun.serve_from NtpRun.read_cmsgs NtpRun.send_response
    NtpRun.duration_of serialize_header
answers_message =
    ap
      (NtpRun.send_response (127 ∷ []) (ipv4_packet_info (1 ∷ []) ∷ [])
        (shared_at ntp_server counters).totals)
      answer.1

run-IsRunning_example :
    IsRunning sign world counters system true
      (λ addr. true)
      noon
      whole_floats
      plain_aead
      (NtpCommand.resolve_config_filename none)
      ntp_server
      (record (shared_at ntp_server counters) { totals = answered })
run-IsRunning_example =
    run-IsRunning sign world counters system true (λ addr. true) noon whole_floats plain_aead none
      ntp_server counters (record (shared_at ntp_server counters) { totals = answered }) early
      server_serves
      (next here
        (Steps.serves (λ n. nonce) nonce noon noon true message answered answers_message refl))
