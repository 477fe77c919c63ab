-- ===== src/Ntp/Exchange/Answer.antt =====
-- src/ntp/server/server.rs and src/ntp/client.rs: the answer of the server to the client's query.
use cfnts.Base.{
  ℕ, ◌+◌, ◌*◌, ◌≡◌, refl, sym, ◌∙◌, List, [], ◌∷◌, arith, Bytes, ok, ok_inj, length, length-append,
  All, IsU32,
}
use cfnts.Protocol.Types.{unique_identifier, same_type, NtpExtension, NtpPacket, IsHeader}
use cfnts.Protocol.Extensions.RoundTrip.{IsExtension, wires}
use cfnts.Protocol.Aead.{Aead, IsAead}
use cfnts.Protocol.Nts.Wires.{IsPlain}
use cfnts.Protocol.Nts.Plain.{
  length-serialize_nts_packet, serialize_nts_packet-wires, length-serialize_nts_packet,
}
use cfnts.Cookie.{NtsKeys, IsKeys}
use cfnts.KeyRotator.{KeyRotator, latest_key_value}
use cfnts.Ntp.Clock.{Floats, SystemTime, ntp_timestamp}
use cfnts.Ntp.Server.{ServerState, NtpCounters, create_header, takes_cookie}
use cfnts.Ntp.Server.Response.{response}
use cfnts.Ntp.Server.Cookies.{IsFresh, nts_response-cookies}
use cfnts.Ntp.Client.{query_header, query_packet, time_diff, read_answer}
use cfnts.Ntp.Client.Accepts.{read_answer-serialize}
use cfnts.Ntp.Server.State.{IsState, create_header-IsHeader, ntp_timestamp-IsU64}
use cfnts.Ntp.Exchange.{IsAuthentic, response-authentic}

fresh-IsExtension :
    (aead : Aead) (keys : NtsKeys) (master_key : Bytes) (key_id : ℕ) (exts : List NtpExtension)
    → All (IsFresh aead keys master_key key_id) exts
    → All IsExtension exts
fresh-IsExtension aead keys master_key key_id [] h = tt
fresh-IsExtension aead keys master_key key_id (ext ∷ exts) (h, hs) = (
  record { canonical = rw h.kind tt; words = rw h.size refl; fits = omega (arith, h.size) },
  fresh-IsExtension aead keys master_key key_id exts hs,
)

length-wires_fresh :
    (aead : Aead) (keys : NtsKeys) (master_key : Bytes) (key_id : ℕ) (exts : List NtpExtension)
    → All (IsFresh aead keys master_key key_id) exts
    → length (wires exts) ≡ 104 * length exts
length-wires_fresh aead keys master_key key_id [] h = omega arith
length-wires_fresh aead keys master_key key_id (ext ∷ exts) (h, hs) = omega (
  arith,
  h.size,
  length-append ext.contents (wires exts),
  length-wires_fresh aead keys master_key key_id exts hs,
)

module _ (f : Floats) (aead : Aead) (sound : IsAead aead) (nonces : ℕ → Bytes)
    (sixteen : (n : ℕ) → length (nonces n) ≡ 16) (seal_nonce : Bytes)
    (seal_sixteen : length seal_nonce ≡ 16) (rotator : KeyRotator) (key_id : ℕ) (master_key : Bytes)
    (latest : latest_key_value rotator ≡ ok (key_id, master_key)) (u32 : IsU32 key_id)
    (r_time t_time now : SystemTime) (state : ServerState) (c : NtpCounters) (s : IsState state)
    (keys : NtsKeys) (k : IsKeys keys) (unique_id : Bytes) (id_length : length unique_id ≡ 32) where
  abbrev unique : NtpExtension
  unique = record { ext_type = unique_identifier; contents = unique_id }

  unique-IsPlain : IsPlain unique
  unfolding same_type
  unique-IsPlain = record {
    extension = record {
      canonical = tt;
      words = rw id_length refl;
      fits = omega (arith, id_length);
    };
    not_authenticator = refl;
  }

  -- The server's answer to an authentic query of the client, as the client reads it.
  pub answer-accepted :
      (cookie wire : Bytes) (packet : NtpPacket) (t1 t4 : f.F64)
      → packet.header ≡ query_header
      → IsAuthentic aead rotator keys wire packet (query_packet unique_id cookie)
      → (datagram : Bytes) × (response f aead nonces seal_nonce rotator r_time t_time now state c
            wire
          ≡ (record c { queries = c.queries + 1; nts = c.nts + 1 }, ok datagram))
        × (length datagram ≡ 228)
        × (read_answer f aead keys.s2c unique_id t1 t4 datagram
            ≡ ok (record {
              stratum = state.stratum;
              time_diff = time_diff f (ntp_timestamp f r_time) (ntp_timestamp f now) t1 t4;
            }))
  unfolding create_header same_type takes_cookie
  answer-accepted cookie wire packet t1 t4 head a =
      let header = create_header f packet r_time t_time state in
      let stamp = ntp_timestamp f now in
      let (resp, e, hd, ids, count, fresh, _) =
        nts_response-cookies aead sound keys k nonces sixteen rotator key_id master_key latest u32
          stamp header (query_packet unique_id cookie) in
      let origin : packet.header.transmit_timestamp ≡ 0 = rw head refl in
      let v : IsHeader resp.header = rw hd (
        create_header-IsHeader f packet r_time t_time state stamp s (omega arith)
          (ntp_timestamp-IsU64 f now)) in
      let enc = fresh-IsExtension aead keys master_key key_id resp.auth_enc_exts fresh in
      let size = length-wires_fresh aead keys master_key key_id resp.auth_enc_exts fresh in
      let bytes : length (wires resp.auth_enc_exts) ≡ 104 = omega (arith, size, count) in
      let plain : All IsPlain resp.auth_exts = rw ids (unique-IsPlain, tt) in
      let (datagram, d, accepted) =
        read_answer-serialize f aead keys.s2c unique_id t1 t4 seal_nonce resp unique [] sound
          seal_sixteen v ids refl plain enc (omega arith) in
      let made =
        serialize_nts_packet-wires aead keys.s2c seal_nonce resp sound seal_sixteen plain enc
          (omega arith) in
      let total =
        length-serialize_nts_packet aead keys.s2c seal_nonce resp sound seal_sixteen plain enc
          (omega arith) in
      let front : length (wires resp.auth_exts) ≡ 36 =
        rw ids (omega (arith, id_length, length-append unique_id [])) in
      (
        datagram,
        response-authentic f aead nonces seal_nonce rotator r_time t_time now state c keys wire
              packet (query_packet unique_id cookie) a
            ∙ rw (e, d) refl,
        rw (ok_inj (sym d ∙ made)) (omega (arith, total)),
        rw hd at accepted,
      )
