-- ===== src/Ntp/Exchange/Session.antt =====
-- src/nts_ke and src/ntp: a client's whole session, the key exchange and then the time.
use cfnts.Base.{ℕ, ◌≡◌, refl, List, [], ◌∷◌, Bytes, true, some, ok, All, length, IsU16, IsU32}
use cfnts.Protocol.Aead.{Aead, IsAead}
use cfnts.Protocol.Nts.{serialize_nts_packet}
use cfnts.Cookie.{NtsKeys, IsKeys, make_cookie}
use cfnts.KeyRotator.{KeyRotator, latest_key_value}
use cfnts.Records.Types.{Net}
use cfnts.Ke.Server.{KeServerConn, TlsEvent, read_ready}
use cfnts.Ke.Client.{NtsKeResult, ClientConfig, TlsClient, SocketAddr, run_nts_ke_client}
use cfnts.Ke.Exchange.{cookies_of}
use cfnts.Ke.Exchange.Run.{
  request_wire, IsAwaiting, IsDelivered, IsConnected, result_of, run_nts_ke_client-read_ready,
  response-written,
}
use cfnts.Ntp.Clock.{Floats, SystemTime, ntp_timestamp, system_to_ntpfloat}
use cfnts.Ntp.Server.{ServerState, NtpCounters}
use cfnts.Ntp.Server.Response.{response}
use cfnts.Ntp.Server.State.{IsState}
use cfnts.Ntp.Client.{UdpClient, query_packet, query_addr, time_diff, run_nts_ntp_client}
use cfnts.Ntp.Exchange.Run.{run_nts_ntp_client-response}

-- The key exchange server: its rotator, the nonces of the eight cookies, and the port that it tells.
module _ (net : Net) (aead : Aead) (sound : IsAead aead) (keys : NtsKeys) (k : IsKeys keys)
    (master_key : Bytes) (key_id : ℕ) (u32 : IsU32 key_id) (cookie_nonce : Bytes)
    (other_nonces : List Bytes) (ke_rotator : KeyRotator) (port : ℕ)
    (eight : length (cookie_nonce ∷ other_nonces) ≡ 8) (cookie_sixteen : length cookie_nonce ≡ 16)
    (others_sixteen : All (λ nonce. length nonce ≡ 16) other_nonces)
    (ke_latest : latest_key_value ke_rotator ≡ ok (key_id, master_key)) (u16 : IsU16 port)
    -- The NTP server, which may have rotated since: it still has the key of the cookie.
    (f : Floats) (nonces : ℕ → Bytes) (sixteen : (n : ℕ) → length (nonces n) ≡ 16)
    (seal_nonce : Bytes) (seal_sixteen : length seal_nonce ≡ 16) (rotator : KeyRotator)
    (latest_id : ℕ) (latest_key : Bytes)
    (latest : latest_key_value rotator ≡ ok (latest_id, latest_key)) (latest_u32 : IsU32 latest_id)
    (known : rotator.cache key_id ≡ some master_key) (r_time t_time now : SystemTime)
    (state : ServerState) (c : NtpCounters) (s : IsState state)
    -- The query of the client.
    (nonce : Bytes) (nonce_sixteen : length nonce ≡ 16) (unique_id : Bytes)
    (id_length : length unique_id ≡ 32) where
  -- A whole session. The client's request reaches a connection of the key exchange server that has
  -- read nothing yet, and the client reads what the server writes; then its first query reaches the
  -- NTP server, and it reads what that answers. Then the key exchange ends with a result, and with
  -- that result the NTP exchange ends with the NTP server's stratum and the difference of the
  -- clocks. Names resolve and sockets work, both ends export the same session keys of 32 bytes, the
  -- AEAD is sound, nonces have 16 bytes and the unique identifier 32, both rotators hold a latest
  -- key, key identifiers are u32, the NTP server has or still has the key of the cookies, the port
  -- is a u16, and the NTP server's state holds values of its Rust types.
  pub run_nts_ntp_client-run_nts_ke_client :
      (event : TlsEvent) (conn conn' : KeServerConn) (tls : TlsClient) (config : ClientConfig)
      (udp : UdpClient) (addrs : List SocketAddr) (addr : SocketAddr) (wire datagram : Bytes)
      → IsAwaiting conn
      → IsDelivered event request_wire keys
      → read_ready net aead event (cookie_nonce ∷ other_nonces) ke_rotator port conn ≡ ok conn'
      → conn'.written ≡ tls.plaintext ∷ []
      → IsConnected tls config keys
      → udp.resolve config.host port ≡ some addrs
      → query_addr config.use_ipv4 addrs ≡ ok addr
      → udp.binds addr.is_ipv4 ≡ true
      → udp.connects addr ≡ true
      → serialize_nts_packet aead keys.c2s nonce
          (query_packet unique_id (make_cookie aead cookie_nonce keys master_key key_id))
        ≡ ok wire
      → udp.sends wire ≡ true
      → (response f aead nonces seal_nonce rotator r_time t_time now state c wire).1 ≡ ok datagram
      → udp.receives ≡ some datagram
      → (ke : NtsKeResult) × (run_nts_ke_client net tls config ≡ ok ke)
        × (run_nts_ntp_client f aead udp unique_id nonce ke
            ≡ ok (record {
              stratum = state.stratum;
              time_diff =
                  time_diff f
                    (ntp_timestamp f r_time)
                    (ntp_timestamp f now)
                    (system_to_ntpfloat f udp.before)
                    (system_to_ntpfloat f udp.after);
            }))
  run_nts_ntp_client-run_nts_ke_client event conn conn' tls config udp addrs addr wire datagram a d
        ready written i resolves chosen binds connects made sends answers receives =
      let cookies = cookies_of aead keys master_key key_id (cookie_nonce ∷ other_nonces) in
      let ke = result_of config keys cookies port in
      let arrives =
        response-written net aead sound keys k master_key key_id (cookie_nonce ∷ other_nonces)
          ke_rotator port eight (cookie_sixteen, others_sixteen) ke_latest u16 event conn conn'
          tls.plaintext a d ready written in
      let exchanged =
        run_nts_ke_client-read_ready net aead sound keys k master_key key_id
          (cookie_nonce ∷ other_nonces) ke_rotator port eight (cookie_sixteen, others_sixteen)
          ke_latest u16 event conn tls config a d arrives i in
      (
        ke,
        exchanged.1,
        run_nts_ntp_client-response f aead sound nonces sixteen seal_nonce seal_sixteen rotator
            latest_id latest_key latest latest_u32 r_time t_time now state c s keys k key_id u32
            master_key known cookie_nonce cookie_sixteen nonce nonce_sixteen unique_id id_length udp
            ke (cookies_of aead keys master_key key_id other_nonces) addrs addr wire datagram refl
            refl resolves chosen binds connects made sends answers receives,
      )
