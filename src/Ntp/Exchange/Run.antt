-- ===== src/Ntp/Exchange/Run.antt =====
-- src/ntp/client.rs and src/ntp/server/server.rs: the client's run against the server.
use cfnts.Base.{
  ℕ, ◌+◌, ◌≤◌, ◌≡◌, sym, ap, ◌∙◌, List, ◌∷◌, arith, Bytes, true, some, ok, length, IsU32, take,
  take_short, ok_inj,
}
use cfnts.Protocol.Types.{NtsPacket}
use cfnts.Protocol.Aead.{Aead, IsAead}
use cfnts.Protocol.Nts.{serialize_nts_packet}
use cfnts.Cookie.{NtsKeys, IsKeys, make_cookie}
use cfnts.KeyRotator.{KeyRotator, latest_key_value}
use cfnts.Ntp.Clock.{Floats, SystemTime, ntp_timestamp, system_to_ntpfloat}
use cfnts.Ntp.Server.{ServerState, NtpCounters}
use cfnts.Ntp.Server.Response.{response}
use cfnts.Ntp.Server.State.{IsState}
use cfnts.Ntp.Exchange.Query.{query-IsAuthentic}
use cfnts.Ntp.Client.{
  UdpClient, buff_size, query_packet, query_addr, time_diff, read_answer, run_nts_ntp_client,
}
use cfnts.Ke.Client.{NtsKeResult, SocketAddr}
use cfnts.Ntp.Exchange.Answer.{answer-accepted}

module _ (f : Floats) (aead : Aead) (sound : IsAead aead) (nonces : ℕ → Bytes)
    (sixteen : (n : ℕ) → length (nonces n) ≡ 16) (seal_nonce : Bytes)
    (seal_sixteen : length seal_nonce ≡ 16) (rotator : KeyRotator) (key_id : ℕ) (master_key : Bytes)
    (latest : latest_key_value rotator ≡ ok (key_id, master_key)) (u32 : IsU32 key_id)
    (r_time t_time now : SystemTime) (state : ServerState) (c : NtpCounters) (s : IsState state)
    (keys : NtsKeys) (k : IsKeys keys) (id : ℕ) (id_u32 : IsU32 id) (key : Bytes)
    (known : rotator.cache id ≡ some key) (cookie_nonce : Bytes)
    (cookie_sixteen : length cookie_nonce ≡ 16) (nonce : Bytes) (nonce_sixteen : length nonce ≡ 16)
    (unique_id : Bytes) (id_length : length unique_id ≡ 32) where
  abbrev sent : NtsPacket
  sent = query_packet unique_id (make_cookie aead cookie_nonce keys key id)

  -- The client's query with a cookie under a key that the server still has is sent in 228 bytes; the
  -- server counts it as authentic and answers it with 228 bytes, so without amplification; and the
  -- client accepts the answer, with the server's stratum and the difference of the clocks from the
  -- times of reception and transmission. The AEAD is sound, nonces have 16 bytes, keys and the unique
  -- identifier 32, the rotator holds a latest key, key identifiers are u32 and the server's state
  -- holds values of its Rust types.
  pub response-query :
      (t1 t4 : f.F64)
      → (wire : Bytes) × (datagram : Bytes) × (serialize_nts_packet aead keys.c2s nonce sent
          ≡ ok wire)
        × (length wire ≡ 228)
        × (response f aead nonces seal_nonce rotator r_time t_time now state c wire
            ≡ (record c { queries = c.queries + 1; nts = c.nts + 1 }, ok datagram))
        × (length datagram ≡ 228)
        × (read_answer f aead keys.s2c unique_id t1 t4 datagram
            ≡ ok (record {
              stratum = state.stratum;
              time_diff = time_diff f (ntp_timestamp f r_time) (ntp_timestamp f now) t1 t4;
            }))
  response-query t1 t4 =
      let (wire, made, size, packet, head, authentic) =
        query-IsAuthentic aead sound rotator keys k id id_u32 key known cookie_nonce cookie_sixteen
          nonce nonce_sixteen unique_id id_length in
      let (datagram, answers, long, accepted) =
        answer-accepted f aead sound nonces sixteen seal_nonce seal_sixteen rotator key_id
          master_key latest u32 r_time t_time now state c s keys k unique_id id_length
          (make_cookie aead cookie_nonce keys key id) wire packet t1 t4 head authentic in
      (wire, datagram, made, size, answers, long, accepted)

  -- Run against the server, the client ends with the server's stratum and the difference of the
  -- clocks: if it resolves the address, its socket binds and connects, the query that it serialises
  -- goes out, and what arrives is what the server answers to that query. The AEAD is sound, nonces
  -- have 16 bytes, keys and the unique identifier 32, the cookie is the client's first and made
  -- under a key that the server still has, the rotator holds a latest key, key identifiers are u32
  -- and the server's state holds values of its Rust types.
  pub run_nts_ntp_client-response :
      (udp : UdpClient) (ke : NtsKeResult) (others : List Bytes) (addrs : List SocketAddr)
      (addr : SocketAddr) (wire datagram : Bytes)
      → ke.keys ≡ keys
      → ke.cookies ≡ make_cookie aead cookie_nonce keys key id ∷ others
      → udp.resolve ke.next_server ke.next_port ≡ some addrs
      → query_addr ke.use_ipv4 addrs ≡ ok addr
      → udp.binds addr.is_ipv4 ≡ true
      → udp.connects addr ≡ true
      → serialize_nts_packet aead keys.c2s nonce sent ≡ ok wire
      → udp.sends wire ≡ true
      → (response f aead nonces seal_nonce rotator r_time t_time now state c wire).1 ≡ ok datagram
      → udp.receives ≡ some datagram
      → run_nts_ntp_client f aead udp unique_id nonce ke
        ≡ ok (record {
          stratum = state.stratum;
          time_diff =
              time_diff f
                (ntp_timestamp f r_time)
                (ntp_timestamp f now)
                (system_to_ntpfloat f udp.before)
                (system_to_ntpfloat f udp.after);
        })
  unfolding run_nts_ntp_client
  run_nts_ntp_client-response udp ke others addrs addr wire datagram ks cs rs qa bs co made sends
        answers receives =
      let t1 = system_to_ntpfloat f udp.before in
      let t4 = system_to_ntpfloat f udp.after in
      let (wire', datagram', made', _, answers', long, accepted) = response-query t1 t4 in
      let same_wire : wire' ≡ wire = ok_inj (sym made' ∙ made) in
      let same : datagram' ≡ datagram =
        ok_inj (sym (ap (λ a. a.1) (rw same_wire at answers')) ∙ answers) in
      let fits : length datagram' ≤ buff_size = omega (arith, long) in
      let short : take buff_size datagram ≡ datagram =
        take_short buff_size datagram (rw same at fits) in
      rw (rs, qa, bs, cs, co, ks, made, sends, receives, short) (rw same at accepted)
