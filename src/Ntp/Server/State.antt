-- ===== src/Ntp/Server/State.antt =====
-- src/ntp/server/server.rs: the state of the server holds values of its Rust types, and so does the
-- header of an answer.
use cfnts.Base.{ℕ, inl, inr, Bool-cases, IsU8, IsU32, IsU64, arith}
use cfnts.Protocol.Types.{NtpPacket, NtpPacketHeader, IsHeader}
use cfnts.Ntp.Clock.{Floats, SystemTime, is_before, fix_dispersion, ntp_timestamp}
use cfnts.Ntp.Server.{ServerState, create_header}

pub record IsState (state : ServerState) : Type 0 where
  pub stratum_u8 : IsU8 state.stratum
  pub version_u8 : IsU8 state.version
  pub poll_i8 : IsU8 state.poll
  pub precision_i8 : IsU8 state.precision
  pub root_delay_u32 : IsU32 state.root_delay
  pub root_dispersion_u32 : IsU32 state.root_dispersion
  pub refid_u32 : IsU32 state.refid
  pub refstamp_u64 : IsU64 state.refstamp

fix_dispersion-IsU32 :
    (f : Floats) (disp : ℕ) (now taken : SystemTime)
    → IsU32 disp
    → IsU32 (fix_dispersion f disp now taken)
unfolding fix_dispersion
fix_dispersion-IsU32 f disp now taken h = elim (Bool-cases (is_before now taken)) [
  | inl before ↦ rw before h
  | inr after ↦ rw after (omega arith)
]

pub ntp_timestamp-IsU64 : (f : Floats) (time : SystemTime) → IsU64 (ntp_timestamp f time)
unfolding ntp_timestamp
ntp_timestamp-IsU64 f time = omega arith

-- The header of an answer with the timestamp that is set at the end.
abbrev pub transmitted_at : ℕ → NtpPacketHeader → NtpPacketHeader
transmitted_at stamp header = record header { transmit_timestamp = stamp }

pub create_header-IsHeader :
    (f : Floats) (packet : NtpPacket) (r_time t_time : SystemTime) (state : ServerState) (stamp : ℕ)
    → IsState state
    → IsU64 packet.header.transmit_timestamp
    → IsU64 stamp
    → IsHeader (transmitted_at stamp (create_header f packet r_time t_time state))
unfolding create_header
create_header-IsHeader f packet r_time t_time state stamp s origin last = record {
  version_u8 = s.version_u8;
  stratum_u8 = s.stratum_u8;
  poll_i8 = s.poll_i8;
  precision_i8 = s.precision_i8;
  root_delay_u32 = s.root_delay_u32;
  root_dispersion_u32 =
      fix_dispersion-IsU32 f state.root_dispersion t_time state.taken s.root_dispersion_u32;
  reference_id_u32 = s.refid_u32;
  reference_timestamp_u64 = s.refstamp_u64;
  origin_timestamp_u64 = origin;
  receive_timestamp_u64 = ntp_timestamp-IsU64 f r_time;
  transmit_timestamp_u64 = last;
}
