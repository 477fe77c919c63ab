-- ===== src/Examples/Session.antt =====
-- Examples on a client's whole session.
use cfnts.Base.{[], ◌∷◌, Bytes, true, some, none, replicate, ok, arith, ap, ◌≡◌, refl}
use cfnts.Protocol.Aead.{plain_aead, plain_aead-IsAead}
use cfnts.Ke.Server.{
  KeServerConn, response_sent, new_conn, TlsEvent, read_bytes, response, read_ready,
}
use cfnts.Ke.Client.{NtsKeResult, ClientConfig, TlsClient, ke_port, choose_addr, run_nts_ke_client}
use cfnts.Ke.Exchange.{agreed, cookies_of}
use cfnts.Ke.Exchange.Run.{
  request_wire, IsAwaiting, IsDelivered, IsConnected, result_of, read_ready-request,
  run_nts_ke_client-read_ready,
}
use cfnts.Ntp.Clock.{ntp_timestamp, system_to_ntpfloat}
use cfnts.Ntp.Client.{time_diff, run_nts_ntp_client}
use cfnts.Ntp.Exchange.Session.{run_nts_ntp_client-run_nts_ke_client}
use cfnts.Examples.Data.{
  no_net, keys, keys-IsKeys, nonce, master_key, rotator_with, whole_floats, noon, ntp_counters,
  state,
}
use cfnts.Examples.Query.{latest, state-IsState, id, address, udp, found, exchanged}

abbrev event : TlsEvent
event = record {
  tls_read = read_bytes 64;
  processed = true;
  plaintext = some request_wire;
  exported = some keys;
  writes = true;
  shuts = true;
  shuts_again = true;
}

delivered : IsDelivered event request_wire keys
delivered = record {
  count = 64;
  read = refl;
  some_bytes = refl;
  processed = refl;
  delivered = refl;
  exported = refl;
  writes = refl;
}

awaits : IsAwaiting new_conn
awaits = record { opens = refl; untouched = refl; empty = refl; unwritten = refl }

answered :
    (bytes : Bytes) × (response no_net plain_aead (replicate 8 nonce) keys (rotator_with 28800) 123
      ≡ ok bytes)
    × (read_ready no_net plain_aead event (replicate 8 nonce) (rotator_with 28800) 123 new_conn
        ≡ ok (record {
          state = response_sent;
          ntske_state = agreed [] none true;
          ntske_buffer = request_wire;
          written = bytes ∷ [];
        }))
answered =
    read_ready-request no_net plain_aead plain_aead-IsAead keys keys-IsKeys master_key 28800
      (replicate 8 nonce) (rotator_with 28800) 123 refl
      (refl, (refl, (refl, (refl, (refl, (refl, (refl, (refl, tt)))))))) latest (omega arith) event
      new_conn awaits delivered

abbrev sent : KeServerConn
sent = record {
  state = response_sent;
  ntske_state = agreed [] none true;
  ntske_buffer = request_wire;
  written = answered.0 ∷ [];
}

abbrev tls : TlsClient
tls = record {
  adds_root = true;
  is_dns_name = λ name. true;
  resolve = λ name port. some (address ∷ []);
  connects = λ addr. true;
  writes = λ bytes. true;
  exported = some keys;
  plaintext = answered.0;
  shuts = true;
}

abbrev config : ClientConfig
config = record { host = []; port = none; use_ipv4 = some true }

connected : IsConnected tls config keys
unfolding ke_port choose_addr
connected = record {
  adds_root = refl;
  is_dns_name = refl;
  port = 4460;
  port_given = refl;
  addrs = address ∷ [];
  resolves = refl;
  addr = address;
  chosen = refl;
  connects = refl;
  writes = refl;
  exported = refl;
  shuts = refl;
}

run_nts_ke_client-read_ready_example :
    (read_ready no_net plain_aead event (replicate 8 nonce) (rotator_with 28800) 123 new_conn
      ≡ ok sent)
    × (run_nts_ke_client no_net tls config
        ≡ ok (
            result_of config keys
              (cookies_of plain_aead keys master_key 28800 (replicate 8 nonce))
              123))
run_nts_ke_client-read_ready_example =
    run_nts_ke_client-read_ready no_net plain_aead plain_aead-IsAead keys keys-IsKeys master_key
      28800 (replicate 8 nonce) (rotator_with 28800) 123 refl
      (refl, (refl, (refl, (refl, (refl, (refl, (refl, (refl, tt)))))))) latest (omega arith) event
      new_conn tls config awaits delivered answered.1 connected

run_nts_ntp_client-run_nts_ke_client_example :
    (ke : NtsKeResult) × (run_nts_ke_client no_net tls config ≡ ok ke)
    × (run_nts_ntp_client whole_floats plain_aead udp id nonce ke
        ≡ ok (record {
          stratum = 2;
          time_diff =
              time_diff whole_floats
                (ntp_timestamp whole_floats noon)
                (ntp_timestamp whole_floats noon)
                (system_to_ntpfloat whole_floats noon)
                (system_to_ntpfloat whole_floats noon);
        }))
run_nts_ntp_client-run_nts_ke_client_example =
    run_nts_ntp_client-run_nts_ke_client no_net plain_aead plain_aead-IsAead keys keys-IsKeys
      master_key 28800 (omega arith) nonce (replicate 7 nonce) (rotator_with 28800) 123 refl refl
      (refl, (refl, (refl, (refl, (refl, (refl, (refl, tt))))))) latest (omega arith) whole_floats
      (λ n. nonce) (λ n. refl) nonce refl (rotator_with 28800) 28800 master_key latest (omega arith)
      refl noon noon noon state ntp_counters state-IsState nonce refl id refl event new_conn sent
      tls config udp (address ∷ []) address exchanged.0 exchanged.1 awaits delivered answered.2 refl
      connected refl found refl refl exchanged.2 refl (ap (λ a. a.1) exchanged.4) refl
