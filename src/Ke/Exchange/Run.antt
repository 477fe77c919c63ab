-- ===== src/Ke/Exchange/Run.antt =====
-- src/nts_ke/server/connection.rs and src/nts_ke/client.rs: the client's run against a connection of
-- the server.
use cfnts.Base.{
  ℕ, ◌+◌, ◌==◌, List, [], ◌∷◌, ◌++◌, append-nil, Bytes, Bool, true, false, some, none, All, ok,
  length, IsU16, ok_inj, ◌≡◌, refl, sym, ap, ◌∙◌,
}
use cfnts.Protocol.Aead.{Aead, IsAead}
use cfnts.Cookie.{NtsKeys, IsKeys}
use cfnts.KeyRotator.{KeyRotator, latest_key_value}
use cfnts.Records.Types.{Net}
use cfnts.Records.Wire.{serialize, deserialize}
use cfnts.Records.Process.{received_nothing}
use cfnts.Ke.Stream.{take_record, next_record}
use cfnts.Ke.Server.{
  KeServerConn, opened, response_sent, TlsEvent, read_bytes, complete, open_on, handshake_on,
  after_read, read_plaintext, take_plaintext, after_records, respond, response, read_records,
  read_buffer, read_ready,
}
use cfnts.Ke.Client.{
  NtsKeResult, ClientConfig, TlsClient, SocketAddr, ke_port, choose_addr, request, read_response,
  run_nts_ke_client,
}
use cfnts.Ke.Exchange.{agreed, cookies_of, read_response-response}

-- The request as it is sent.
abbrev pub request_wire : Bytes
request_wire = 128 ∷ 1 ∷ 0 ∷ 2 ∷ 0 ∷ 0 ∷ 128 ∷ 4 ∷ 0 ∷ 2 ∷ 0 ∷ 15 ∷ 128 ∷ 0 ∷ 0 ∷ 0 ∷ []

module _ (net : Net) where
  pub request_lem : request net ≡ ok request_wire
  unfolding request serialize
  request_lem = refl

  read_buffer-request :
      read_buffer net request_wire received_nothing ≡ ok (complete (agreed [] none true))
  unfolding read_records next_record take_record deserialize
  read_buffer-request = refl

-- A connection that has read no record yet, and is not closed.
pub record IsAwaiting (c : KeServerConn) : Type 0 where
  pub opens : open_on (handshake_on c.state) ≡ opened
  pub untouched : c.ntske_state ≡ received_nothing
  pub empty : c.ntske_buffer ≡ []
  pub unwritten : c.written ≡ []

-- An event in which the session delivers the plaintext with these keys, and the socket works.
pub record IsDelivered (event : TlsEvent) (plaintext : Bytes) (keys : NtsKeys) : Type 0 where
  pub count : ℕ
  pub read : event.tls_read ≡ read_bytes count
  pub some_bytes : (count == 0) ≡ false
  pub processed : event.processed ≡ true
  pub delivered : event.plaintext ≡ some plaintext
  pub exported : event.exported ≡ some keys
  pub writes : event.writes ≡ true

-- The addresses, the connection and the session of a client whose request goes out.
pub record IsConnected (tls : TlsClient) (config : ClientConfig) (keys : NtsKeys) : Type 0 where
  pub adds_root : tls.adds_root ≡ true
  pub is_dns_name : tls.is_dns_name config.host ≡ true
  pub port : ℕ
  pub port_given : ke_port config.port ≡ ok port
  pub addrs : List SocketAddr
  pub resolves : tls.resolve config.host port ≡ some addrs
  pub addr : SocketAddr
  pub chosen : choose_addr config.use_ipv4 addrs ≡ ok addr
  pub connects : tls.connects addr ≡ true
  pub writes : tls.writes request_wire ≡ true
  pub exported : tls.exported ≡ some keys
  pub shuts : tls.shuts ≡ true

-- What the client ends with.
abbrev pub result_of : ClientConfig → NtsKeys → List Bytes → ℕ → NtsKeResult
result_of config keys cookies port = record {
  cookies = cookies;
  next_protocols = 0 ∷ [];
  aead_scheme = 15;
  next_server = config.host;
  next_port = port;
  keys = keys;
  use_ipv4 = config.use_ipv4;
}

module _ (net : Net) (aead : Aead) (sound : IsAead aead) (keys : NtsKeys) (k : IsKeys keys)
    (master_key : Bytes) (key_id : ℕ) (nonces : List Bytes) (rotator : KeyRotator) (port : ℕ)
    (eight : length nonces ≡ 8) (sixteen : All (λ nonce. length nonce ≡ 16) nonces)
    (latest : latest_key_value rotator ≡ ok (key_id, master_key)) (u16 : IsU16 port) where
  take_plaintext-request :
      (event : TlsEvent) (shuts : Bool) (c : KeServerConn) (bytes : Bytes)
      → open_on c.state ≡ opened
      → c.ntske_state ≡ received_nothing
      → c.ntske_buffer ≡ []
      → c.written ≡ []
      → event.exported ≡ some keys
      → event.writes ≡ true
      → response net aead nonces keys rotator port ≡ ok bytes
      → take_plaintext net aead event nonces rotator port shuts c request_wire
        ≡ ok (record {
          state = response_sent;
          ntske_state = agreed [] none true;
          ntske_buffer = request_wire;
          written = bytes ∷ [];
        })
  unfolding take_plaintext after_records respond
  take_plaintext-request event shuts c bytes opens untouched empty unwritten exported writes made =
      rw (exported, empty, untouched, read_buffer-request net, opens, made, writes, unwritten) refl

  pub read_ready-request :
      (event : TlsEvent) (c : KeServerConn)
      → IsAwaiting c
      → IsDelivered event request_wire keys
      → (bytes : Bytes) × (response net aead nonces keys rotator port ≡ ok bytes)
        × (read_ready net aead event nonces rotator port c
            ≡ ok (record {
              state = response_sent;
              ntske_state = agreed [] none true;
              ntske_buffer = request_wire;
              written = bytes ∷ [];
            }))
  unfolding read_ready after_read read_plaintext
  read_ready-request event c a d =
      let (bytes, made, reads) =
        read_response-response net aead sound keys k master_key key_id nonces rotator port eight
          sixteen latest u16 in
      let answer =
        take_plaintext-request event event.shuts (record c { state = handshake_on c.state }) bytes
          a.opens a.untouched a.empty a.unwritten d.exported d.writes made in
      (bytes, made, simp (d.read, d.some_bytes, d.processed, d.delivered) answer)

  -- The client sends its request to a connection of the server that has read nothing yet, and reads
  -- the server's response. Then the server reads the request whole and writes exactly that response,
  -- once; and the client ends with NTPv4, the algorithm AEAD_AES_SIV_CMAC_256, one cookie under the
  -- latest key for each of the eight nonces, its host as the NTP server with the port that the server is
  -- configured with, and the keys of the session. The client resolves and connects, both ends export
  -- the same keys, the AEAD is sound, nonces have 16 bytes and keys 32, and the port is a u16.
  pub run_nts_ke_client-read_ready :
      (event : TlsEvent) (c : KeServerConn) (tls : TlsClient) (config : ClientConfig)
      → IsAwaiting c
      → IsDelivered event request_wire keys
      → response net aead nonces keys rotator port ≡ ok tls.plaintext
      → IsConnected tls config keys
      → (read_ready net aead event nonces rotator port c
          ≡ ok (record {
            state = response_sent;
            ntske_state = agreed [] none true;
            ntske_buffer = request_wire;
            written = tls.plaintext ∷ [];
          }))
        × (run_nts_ke_client net tls config
            ≡ ok (result_of config keys (cookies_of aead keys master_key key_id nonces) port))
  unfolding run_nts_ke_client
  run_nts_ke_client-read_ready event c tls config a d arrives i =
      let (bytes, made, answer) = read_ready-request event c a d in
      let (bytes', made', reads) =
        read_response-response net aead sound keys k master_key key_id nonces rotator port eight
          sixteen latest u16 in
      let same : bytes ≡ tls.plaintext = ok_inj (sym made ∙ arrives) in
      let same' : bytes' ++ [] ≡ tls.plaintext = append-nil bytes' ∙ ok_inj (sym made' ∙ arrives) in
      let read =
        ap (λ b. read_response net (length b + 1) b received_nothing) (sym same') ∙ reads [] in
      (
        answer
            ∙ ap
                (λ b. ok (record {
                  state = response_sent;
                  ntske_state = agreed [] none true;
                  ntske_buffer = request_wire;
                  written = b ∷ [];
                }))
                same,
        rw
            (
              i.adds_root, i.is_dns_name, i.port_given, i.resolves, i.chosen, i.connects, i.writes,
              i.exported, read, i.shuts,
            )
            refl,
      )

  -- What is written is the response of the server.
  pub response-written :
      (event : TlsEvent) (c c' : KeServerConn) (bytes : Bytes)
      → IsAwaiting c
      → IsDelivered event request_wire keys
      → read_ready net aead event nonces rotator port c ≡ ok c'
      → c'.written ≡ bytes ∷ []
      → response net aead nonces keys rotator port ≡ ok bytes
  response-written event c c' bytes a d ready written =
      let (bytes', made, answer) = read_ready-request event c a d in
      let same : bytes' ∷ [] ≡ bytes ∷ [] =
        ap (λ (x : KeServerConn). x.written) (ok_inj (sym answer ∙ ready)) ∙ written in
      let arrives : bytes' ≡ bytes = cc in made ∙ ap ok arrives
