-- ===== src/Ntp/Client.antt =====
-- src/ntp/client.rs: one query of the NTP client. Name resolution, the socket, the clock, the AEAD
-- and the random numbers are parameters, by what their calls answer.
pub mod Accepts
use cfnts.Base.{
  ℕ, zero, suc, ◌+◌, ◌-◌, ◌*◌, ◌^◌, List, [], ◌∷◌, ◌++◌, Bytes, Bool, true, false, Option, some,
  none, not, Outcome, ok, err, panic, hang, ◌>>=◌, ◌>>◌, guard, map_err, first_of, length, take,
  ◌==◌, if◌then◌else◌, ok_or, unwrap,
}
use cfnts.Protocol.Types.{
  no_leap, client, IoError, unique_identifier, nts_cookie, NtpPacketHeader, NtpExtension, NtsPacket,
}
use cfnts.Protocol.Nts.{parse_nts_packet, serialize_nts_packet}
use cfnts.Protocol.Aead.{Aead}
use cfnts.Cookie.{NtsKeys}
use cfnts.Ke.Client.{NtsKeResult, SocketAddr, find_addr}
use cfnts.Ntp.Clock.{Floats, SystemTime, system_to_ntpfloat, timestamp_to_float}

abbrev pub buff_size : ℕ
buff_size = 2048

-- `io` is an error of the socket or of the resolver, and `unparsed` one of the packet parser.

pub data NtpClientError : Type 0 where
  no_ipv4_addr_found no_ipv6_addr_found invalid_uid io : NtpClientError
  unparsed : IoError → NtpClientError

pub record NtpResult (f : Floats) : Type 0 where
  pub stratum : ℕ
  pub time_diff : f.F64

-- What the calls of one query answer: the addresses of a name and port, whether a socket of the
-- version of IP is bound, whether it is connected to an address and the packet sent, the
-- datagram that arrives, if one does, and the clock before the query and after the answer.
pub record UdpClient : Type 0 where
  pub resolve : Bytes → ℕ → Option (List SocketAddr)
  pub binds : Bool → Bool
  pub connects : SocketAddr → Bool
  pub sends : Bytes → Bool
  pub receives : Option Bytes
  pub before : SystemTime
  pub after : SystemTime

-- The header of a query.
abbrev pub query_header : NtpPacketHeader
query_header = record {
  leap_indicator = no_leap;
  version = 4;
  mode = client;
  stratum = 0;
  poll = 0;
  precision = 0x20;
  root_delay = 0;
  root_dispersion = 0;
  reference_id = 0;
  reference_timestamp = 0xdeadbeef;
  origin_timestamp = 0;
  receive_timestamp = 0;
  transmit_timestamp = 0;
}

-- The query with its unique identifier and a cookie.
abbrev pub query_packet : Bytes → Bytes → NtsPacket
query_packet unique_id cookie = record {
  header = query_header;
  auth_exts =
      record { ext_type = unique_identifier; contents = unique_id }
      ∷ record { ext_type = nts_cookie; contents = cookie }
      ∷ [];
  auth_enc_exts = [];
}

-- The `==` of two byte vectors.
unfoldable pub same_bytes : Bytes → Bytes → Bool
same_bytes [] [] = true
same_bytes (a ∷ as_) (b ∷ bs) = let rest = same_bytes as_ bs in if a == b then rest else false
same_bytes _ _ = false

-- The address, of the wanted version of IP if there is one.
unfoldable pub query_addr : Option Bool → List SocketAddr → Outcome NtpClientError SocketAddr
unfolding find_addr
query_addr (some true) addrs = ok_or no_ipv4_addr_found (find_addr (λ a. a.is_ipv4) addrs)
query_addr (some false) addrs = ok_or no_ipv6_addr_found (find_addr (λ a. not a.is_ipv4) addrs)
query_addr none addrs = first_of addrs

module _ (f : Floats) where
  -- The difference of the clocks: the mean of the two differences.
  unfoldable pub time_diff : ℕ → ℕ → f.F64 → f.F64 → f.F64
  unfolding timestamp_to_float
  time_diff receive transmit t1 t4 =
      f.div
        (f.add (f.sub (timestamp_to_float f receive) t1) (f.sub (timestamp_to_float f transmit) t4))
        (f.of_int 2)

  -- What the client makes of the answer.
  unfoldable pub read_answer :
      Aead → Bytes → Bytes → f.F64 → f.F64 → Bytes → Outcome NtpClientError (NtpResult f)
  unfolding parse_nts_packet same_bytes time_diff
  read_answer aead s2c unique_id t1 t4 datagram = do
    packet ← map_err unparsed (parse_nts_packet aead s2c datagram)
    ext ← first_of packet.auth_exts
    (if not (same_bytes ext.contents unique_id)
        then err invalid_uid
        else ok (record {
          stratum = packet.header.stratum;
          time_diff =
              time_diff packet.header.receive_timestamp packet.header.transmit_timestamp t1 t4;
        }))

  -- `unique_id` and `nonce` are random; a longer datagram is cut to the buffer.
  unfoldable pub run_nts_ntp_client :
      Aead → UdpClient → Bytes → Bytes → NtsKeResult → Outcome NtpClientError (NtpResult f)
  unfolding query_addr serialize_nts_packet read_answer system_to_ntpfloat
  run_nts_ntp_client aead udp unique_id nonce state = do
    addrs ← ok_or io (udp.resolve state.next_server state.next_port)
    addr ← query_addr state.use_ipv4 addrs
    (if udp.binds addr.is_ipv4 then ok tt else panic) >> (do
      cookie ← first_of state.cookies
      guard (udp.connects addr) io
      wire_packet ←
          map_err unparsed
            (serialize_nts_packet aead state.keys.c2s nonce (query_packet unique_id cookie))
      let t1 = system_to_ntpfloat f udp.before
      guard (udp.sends wire_packet) io
      datagram ← ok_or io udp.receives
      let t4 = system_to_ntpfloat f udp.after
      read_answer aead state.keys.s2c unique_id t1 t4 (take buff_size datagram))
