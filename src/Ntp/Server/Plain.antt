-- ===== src/Ntp/Server/Plain.antt =====
-- src/ntp/server/server.rs: the answer to a query without NTS.
use cfnts.Base.{ℕ, ◌+◌, [], append-nil, Bytes, true, false, ok, length, ◌≡◌, refl, sym, ap, ◌∙◌}
use cfnts.Protocol.Types.{client, server, PacketMode, NtpPacket, NtpPacketHeader, IsHeader}
use cfnts.Protocol.Header.{
  parse_packet_header, serialize_header, on_wire, parse-serialize_header, length-serialize_header,
}
use cfnts.Protocol.Extensions.{parse_ntp_packet, is_nts_packet}
use cfnts.Protocol.Aead.{Aead}
use cfnts.KeyRotator.{KeyRotator}
use cfnts.Ntp.Clock.{Floats, SystemTime, ntp_timestamp}
use cfnts.Ntp.Server.{ServerState, NtpCounters, create_header}
use cfnts.Ntp.Server.Response.{is_client, answer_packet, answer_parsed, response}

-- What a client reads in the answer to the packet that it sent.
pub record IsAnswer (f : Floats) (r_time t_time : SystemTime) (state : ServerState)
    (query : NtpPacketHeader) (bytes : Bytes) : Type 0 where
  pub size : length bytes ≡ 48
  pub header : NtpPacketHeader
  pub parsed : parse_packet_header bytes ≡ ok header
  pub mode : header.mode ≡ server
  pub stratum : header.stratum ≡ state.stratum
  pub origin : header.origin_timestamp ≡ query.transmit_timestamp
  pub received : header.receive_timestamp ≡ ntp_timestamp f r_time
  pub transmitted : header.transmit_timestamp ≡ ntp_timestamp f t_time

pub is_client-client : (mode : PacketMode) → mode ≡ client → is_client mode ≡ true
unfolding is_client
is_client-client mode h = rw h refl

module _ (f : Floats) (aead : Aead) (nonces : ℕ → Bytes) (seal_nonce : Bytes) (rotator : KeyRotator)
    (r_time t_time now : SystemTime) (state : ServerState) (c : NtpCounters) where
  -- A query in client mode that is no NTS packet is counted and answered, where the fields of the
  -- answer's header are values of their Rust types: with 48 bytes that parse to a header in server
  -- mode with the server's stratum, the times of reception and transmission, and the query's transmit
  -- timestamp as its origin.
  pub response-plain :
      (query : Bytes) (packet : NtpPacket)
      → parse_ntp_packet query ≡ ok packet
      → packet.header.mode ≡ client
      → is_nts_packet packet ≡ false
      → IsHeader (create_header f packet r_time t_time state)
      → (bytes : Bytes) × (response f aead nonces seal_nonce rotator r_time t_time now state c query
          ≡ (record c { queries = c.queries + 1 }, ok bytes))
        × IsAnswer f r_time t_time state packet.header bytes
  unfolding response answer_parsed answer_packet create_header
  response-plain query packet parsed mode plain v =
      let head = create_header f packet r_time t_time state in
      (
        serialize_header head,
        rw (parsed, is_client-client packet.header.mode mode, plain) refl,
        record {
          size = length-serialize_header head;
          header = on_wire head;
          parsed =
              ap parse_packet_header (sym (append-nil (serialize_header head)))
              ∙ parse-serialize_header head v [];
          mode = refl;
          stratum = refl;
          origin = refl;
          received = refl;
          transmitted = refl;
        },
      )
