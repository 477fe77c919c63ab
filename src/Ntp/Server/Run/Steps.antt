-- ===== src/Ntp/Server/Run/Steps.antt =====
-- src/ntp/server/server.rs and src/key_rotator.rs: the threads of the NTP server as steps on what they
-- share, in any order: messages are answered, the state is refreshed and the keys are rotated.
use cfnts.Base.{ℕ, Bytes, Bool, Option, some, none, ok, panic, [], take, ◌+◌, All, IsU8, ◌≡◌}
use cfnts.Protocol.Aead.{Aead}
use cfnts.KeyRotator.{KeyRotator, Counters, Memcache, rotate}
use cfnts.Ntp.Clock.{Floats, SystemTime}
use cfnts.Ntp.Server.{ServerState, NtpCounters, refresh_servstate}
use cfnts.Ntp.Server.Response.{response}
use cfnts.Ntp.Server.Run.{Message, Totals, serve_message, read_cmsgs, epoch, buf_size}

-- What the threads share, and how many of them a panic has ended.
pub record Shared : Type 0 where
  pub state : ServerState
  pub rotator : KeyRotator
  pub rotations : Counters
  pub totals : Totals
  pub ended : ℕ

-- A datagram, if one arrived, is made of bytes.
abbrev pub AreBytes : Option Bytes → Type 0
AreBytes none = Unit {0}
AreBytes (some bytes) = All IsU8 bytes

module _ (f : Floats) (aead : Aead) (sign : Bytes → Bytes → Bytes) where
  -- A message is answered at some time by the thread of some socket, with some nonces; `response`
  -- panics on it, which ends that thread, keeps what was counted before and leaves the other threads
  -- as they are, since locks that are only read are not poisoned; the state is refreshed with what
  -- the upstream server sent; and the keys are rotated.
  pub data Step (s : Shared) (s' : Shared) : Type 0 where
    serves :
        (nonces : ℕ → Bytes) (seal_nonce : Bytes) (t_time now : SystemTime) (ipv4 : Bool)
        (m : Message) (t : Totals)
        → serve_message f aead nonces seal_nonce s.rotator t_time now s.state ipv4 s.totals m ≡ ok t
        → s' ≡ record s { totals = t }
        → Step s s'
    panics :
        (nonces : ℕ → Bytes) (seal_nonce : Bytes) (t_time now : SystemTime) (ipv4 : Bool)
        (m : Message) (src : Bytes) (c : NtpCounters)
        → m.address ≡ some src
        → response f aead nonces seal_nonce s.rotator
            (read_cmsgs ipv4 epoch [] m.cmsgs).0
            t_time
            now
            s.state
            s.totals.counters
            (take buf_size m.datagram)
          ≡ (c, panic)
        → s' ≡ record s { totals = record s.totals { counters = c }; ended = s.ended + 1 }
        → Step s s'
    refreshes :
        (now : SystemTime) (received : Option Bytes)
        → AreBytes received
        → s' ≡ record s {
          state = (refresh_servstate now received s.state s.totals.counters).0;
          totals = record s.totals {
            counters = (refresh_servstate now received s.state s.totals.counters).1;
          };
        }
        → Step s s'
    rotates :
        (client : Memcache) (timestamp : ℕ)
        → s' ≡ record s {
          rotator = (rotate sign client timestamp s.rotator s.rotations).0;
          rotations = (rotate sign client timestamp s.rotator s.rotations).1;
        }
        → Step s s'

  pub data Reachable (s : Shared) : Shared → Type 0 where
    here : Reachable s s
    next : {t u : Shared} → Reachable s t → Step t u → Reachable s u
