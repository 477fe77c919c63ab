-- ===== src/Ntp/Server/Run.antt =====
-- src/ntp/server/server.rs: `run_server`, one turn of its loop for each message, and what
-- `start_ntp_server` starts. The socket options and the errors of `sendmsg`, which are only logged, are
-- left out; what `recvmsg` received is an argument.
pub mod Messages
pub mod Steps
pub mod Serving
pub mod Starts
use cfnts.Base.{
  ℕ, zero, ◌+◌, ◌*◌, ◌/◌, ◌%◌, ◌^◌, List, [], ◌∷◌, ◌++◌, Bytes, Bool, true, false, Option, some,
  none, not, Outcome, ok, err, panic, hang, ◌>>=◌, ◌>>◌, guard, length, take, ◌==◌, if◌then◌else◌,
}
use cfnts.Protocol.Types.{LeapState, unknown, no_leap, IoError}
use cfnts.Protocol.Aead.{Aead}
use cfnts.KeyRotator.{KeyRotator, Counters, Run}
use cfnts.Ntp.Clock.{Floats, SystemTime}
use cfnts.Ntp.Server.{ServerState, NtpCounters, Answer}
use cfnts.Ntp.Server.Response.{response}
use cfnts.Config.Settings.{SocketAddr}
use cfnts.Config.Ntp.{NtpServerConfig}

abbrev pub buf_size : ℕ
buf_size = 1280

-- The seconds and microseconds of a timestamp, the two kinds of packet information, and any other.
pub data ControlMessage : Type 0 where
  scm_timestamp : ℕ → ℕ → ControlMessage
  ipv4_packet_info ipv6_packet_info : Bytes → ControlMessage
  other_message : ControlMessage

-- What `recvmsg` received: the sender, if it is known, the control messages and the datagram.
pub record Message : Type 0 where
  pub address : Option Bytes
  pub cmsgs : List ControlMessage
  pub datagram : Bytes

-- The arguments of `sendmsg`.
pub record Reply : Type 0 where
  pub to : Bytes
  pub cmsgs : List ControlMessage
  pub datagram : Bytes

-- `MANGLED_PACKET_COUNTER`, the other counters, and what was sent.
pub record Totals : Type 0 where
  pub counters : NtpCounters
  pub mangled : ℕ
  pub replies : List Reply

-- `Duration::new(r_time.tv_sec() as u64, r_time.tv_usec() as u32 * 1000)`
unfoldable pub duration_of : ℕ → ℕ → SystemTime
duration_of secs micros =
    let nanos = micros % 2 ^ 32 * 1000 % 2 ^ 32 in
    record { secs = secs + nanos / 10 ^ 9; nanos = nanos % 10 ^ 9 }

-- The loop over the control messages: the last timestamp, and the packet information of the version
-- of IP that the socket has.
unfoldable pub read_cmsgs :
    Bool → SystemTime → List ControlMessage → List ControlMessage → SystemTime × List ControlMessage
unfolding duration_of
read_cmsgs ipv4 r_time msgs [] = (r_time, msgs)
read_cmsgs ipv4 r_time msgs (scm_timestamp secs micros ∷ rest) =
    read_cmsgs ipv4 (duration_of secs micros) msgs rest
read_cmsgs ipv4 r_time msgs (ipv4_packet_info inf ∷ rest) =
    read_cmsgs ipv4 r_time (if ipv4 then msgs ++ (ipv4_packet_info inf ∷ []) else msgs) rest
read_cmsgs ipv4 r_time msgs (ipv6_packet_info inf ∷ rest) =
    read_cmsgs ipv4 r_time (if ipv4 then msgs else msgs ++ (ipv6_packet_info inf ∷ [])) rest
read_cmsgs ipv4 r_time msgs (other_message ∷ rest) = read_cmsgs ipv4 r_time msgs rest

abbrev pub epoch : SystemTime
epoch = record { secs = 0; nanos = 0 }

-- What the loop does with the result of `response`; a panic ends the thread.
unfoldable pub send_response :
    Bytes → List ControlMessage → Totals → Answer → Outcome IoError Totals
send_response to cmsgs t (c, ok bytes) = ok (record {
  counters = c;
  mangled = t.mangled;
  replies = t.replies ++ (record { to = to; cmsgs = cmsgs; datagram = bytes } ∷ []);
})
send_response to cmsgs t (c, err e) = ok (record t { counters = c; mangled = t.mangled + 1 })
send_response to cmsgs t (c, panic) = panic
send_response to cmsgs t (c, hang) = hang

module _ (f : Floats) (aead : Aead) where
  -- `t_time` is the clock after `recvmsg`, and `now` the one at which the answer is ready.
  unfoldable pub serve_from :
      (ℕ → Bytes)
      → Bytes
      → KeyRotator
      → SystemTime
      → SystemTime
      → ServerState
      → Bool
      → Totals
      → Message
      → Option Bytes
      → Outcome IoError Totals
  unfolding read_cmsgs send_response response
  serve_from nonces seal_nonce rotator t_time now state ipv4 t m none = ok t
  serve_from nonces seal_nonce rotator t_time now state ipv4 t m (some src) =
      let (r_time, msgs) = read_cmsgs ipv4 epoch [] m.cmsgs in
      send_response src msgs t (
        response f aead nonces seal_nonce rotator r_time t_time now state t.counters
          (take buf_size m.datagram))

  -- One turn of the loop; a message without an address is dropped.
  unfoldable pub serve_message :
      (ℕ → Bytes)
      → Bytes
      → KeyRotator
      → SystemTime
      → SystemTime
      → ServerState
      → Bool
      → Totals
      → Message
      → Outcome IoError Totals
  unfolding serve_from
  serve_message nonces seal_nonce rotator t_time now state ipv4 t m =
      serve_from nonces seal_nonce rotator t_time now state ipv4 t m m.address

-- The state before the server has asked an upstream server; `precision` is -18 as a byte.
abbrev pub first_state : SystemTime → ServerState
first_state now = record {
  leap = unknown;
  stratum = 16;
  version = 4;
  poll = 7;
  precision = 238;
  root_delay = 10;
  root_dispersion = 10;
  refid = 0;
  refstamp = 0;
  taken = now;
}

-- Without an upstream server it is of stratum 1.
unfoldable pub state_for : Option SocketAddr → SystemTime → ServerState
state_for (some upstream) now = first_state now
state_for none now = record (first_state now) { leap = no_leap; stratum = 1 }

-- A socket that is served, and whether it is one of IPv4.
pub record Socket : Type 0 where
  pub addr : SocketAddr
  pub use_ipv4 : Bool

-- An address of IPv6 has 16 bytes.
abbrev pub is_ipv4 : SocketAddr → Bool
is_ipv4 addr = not (length addr.ip == 16)

pub data StartError : Type 0 where
  bind_error : SocketAddr → StartError
  upstream_error : StartError

-- The loop over the addresses of the configuration, with what `udp_listen` answers.
unfoldable pub listen_all : (SocketAddr → Bool) → List SocketAddr → Outcome StartError (List Socket)
listen_all listens [] = ok []
listen_all listens (addr ∷ addrs) = do
  guard (listens addr) (bind_error addr)
  sockets ← listen_all listens addrs
  ok (record { addr = addr; use_ipv4 = is_ipv4 addr } ∷ sockets)

pub record NtpServer : Type 0 where
  pub state : ServerState
  pub rotator : KeyRotator
  pub sockets : List Socket

-- The socket for the upstream server is bound and gets its timeout, if there is one.
unfoldable pub bind_upstream : Option SocketAddr → Bool → Outcome StartError (Unit {0})
bind_upstream none binds = ok tt
bind_upstream (some addr) binds = guard binds upstream_error

-- A rotator that is connected; `expect` panics on an error.
abbrev pub expect_rotator : Run → Outcome StartError KeyRotator
expect_rotator (rotator, c, ok _) = ok rotator
expect_rotator (rotator, c, err e) = panic
expect_rotator (rotator, c, panic) = panic
expect_rotator (rotator, c, hang) = hang

-- `connected` is the result of `KeyRotator::connect`; the threads are what is started in the end.
unfoldable pub start_ntp_server :
    Run → Bool → (SocketAddr → Bool) → SystemTime → NtpServerConfig → Outcome StartError NtpServer
unfolding state_for listen_all bind_upstream
start_ntp_server connected binds listens now config = do
  rotator ← expect_rotator connected
  bind_upstream config.upstream_addr binds
  sockets ← listen_all listens config.addrs
  ok (record { state = state_for config.upstream_addr now; rotator = rotator; sockets = sockets })
