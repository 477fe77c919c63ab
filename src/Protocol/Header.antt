-- ===== src/Protocol/Header.antt =====
-- src/ntp/protocol.rs: `parse_packet_header` and `serialize_header`.
pub mod Range
use cfnts.Base.{
  ◌%◌, ◌≤◌, ◌≡◌, refl, ◌∷◌, ◌++◌, arith, Bytes, Outcome, ok, err, u32_bytes, u64_bytes, length, ltb,
  if◌then◌else◌, le→ltb_false, length-append, IsSettled, bind-IsSettled, ◌>>=◌ as bind_outcome,
  Bool-cases, inl, inr,
}
use cfnts.Protocol.Types.{NtpPacketHeader, IsHeader, IoError, too_short}
use cfnts.Protocol.First.{
  parse_leap_indicator, parse_version, parse_mode, create_first, leap-create_first,
  version-create_first, mode-create_first,
}
use cfnts.Protocol.Cursor.{
  Reader, ◌>>=◌, pure, read_u8, read_u32, read_u64, read_u32-u32_bytes, read_u64-u64_bytes, Settles,
  bind-Settles, read_u8-Settles, read_u32-Settles, read_u64-Settles,
}

-- The reads, in the order of the fields on the wire.
pub read_header : Reader NtpPacketHeader
read_header = do
  first ← read_u8
  stratum ← read_u8
  poll ← read_u8
  precision ← read_u8
  root_delay ← read_u32
  root_dispersion ← read_u32
  reference_id ← read_u32
  ref_timestamp ← read_u64
  origin_timestamp ← read_u64
  receive_timestamp ← read_u64
  transmit_timestamp ← read_u64
  pure (record {
    leap_indicator = parse_leap_indicator first;
    version = parse_version first;
    mode = parse_mode first;
    stratum = stratum;
    poll = poll;
    precision = precision;
    root_delay = root_delay;
    root_dispersion = root_dispersion;
    reference_id = reference_id;
    reference_timestamp = ref_timestamp;
    origin_timestamp = origin_timestamp;
    receive_timestamp = receive_timestamp;
    transmit_timestamp = transmit_timestamp;
  })

unfoldable pub parse_packet_header : Bytes → Outcome IoError NtpPacketHeader
unfolding read_header
parse_packet_header packet =
    if ltb (length packet) 48
    then err too_short
    else bind_outcome (read_header packet) (λ r. ok r.0)

unfoldable pub serialize_header : NtpPacketHeader → Bytes
serialize_header head =
    create_first head.leap_indicator head.version head.mode
    ∷ head.stratum
    ∷ head.poll
    ∷ head.precision
    ∷ (u32_bytes head.root_delay
        ++ (u32_bytes head.root_dispersion
            ++ (u32_bytes head.reference_id
                ++ (u64_bytes head.reference_timestamp
                    ++ (u64_bytes head.origin_timestamp
                        ++ (u64_bytes head.receive_timestamp
                            ++ u64_bytes head.transmit_timestamp))))))

pub length-serialize_header : (head : NtpPacketHeader) → length (serialize_header head) ≡ 48
unfolding serialize_header
length-serialize_header head = refl

-- The header as it arrives: the version field has three bits on the wire.
abbrev pub on_wire : NtpPacketHeader → NtpPacketHeader
on_wire h = record h { version = h.version % 8 }

module _ (h : NtpPacketHeader) (v : IsHeader h) (rest : Bytes) where
  read_header-serialize_header :
      bind_outcome (read_header (serialize_header h ++ rest)) (λ r. ok r.0) ≡ ok (on_wire h)
  unfolding read_header serialize_header read_u8
  read_header-serialize_header = simp (
    read_u32-u32_bytes h.root_delay _ v.root_delay_u32,
    read_u32-u32_bytes h.root_dispersion _ v.root_dispersion_u32,
    read_u32-u32_bytes h.reference_id _ v.reference_id_u32,
    read_u64-u64_bytes h.reference_timestamp _ v.reference_timestamp_u64,
    read_u64-u64_bytes h.origin_timestamp _ v.origin_timestamp_u64,
    read_u64-u64_bytes h.receive_timestamp _ v.receive_timestamp_u64,
    read_u64-u64_bytes h.transmit_timestamp rest v.transmit_timestamp_u64,
    leap-create_first h.leap_indicator h.version h.mode v.version_u8,
    version-create_first h.leap_indicator h.version h.mode v.version_u8,
    mode-create_first h.leap_indicator h.version h.mode v.version_u8,
  )

  -- Parsing a serialised header, whose fields hold values of their Rust types, gives every field
  -- back, whatever bytes follow it; of the version only the three bits that the wire has.
  pub parse-serialize_header : parse_packet_header (serialize_header h ++ rest) ≡ ok (on_wire h)
  unfolding parse_packet_header
  parse-serialize_header =
      let long : 48 ≤ length (serialize_header h ++ rest) =
        omega (arith, length-append (serialize_header h) rest, length-serialize_header h) in
      rw (le→ltb_false _ 48 long) read_header-serialize_header

read_header-Settles : Settles read_header
unfolding read_header
read_header-Settles = bind-Settles read_u8 _ read_u8-Settles λ first.
    bind-Settles read_u8 _ read_u8-Settles λ stratum. bind-Settles read_u8 _ read_u8-Settles λ poll.
      bind-Settles read_u8 _ read_u8-Settles λ precision.
        bind-Settles read_u32 _ read_u32-Settles λ root_delay.
          bind-Settles read_u32 _ read_u32-Settles λ root_dispersion.
            bind-Settles read_u32 _ read_u32-Settles λ reference_id.
              bind-Settles read_u64 _ read_u64-Settles λ ref_timestamp.
                bind-Settles read_u64 _ read_u64-Settles λ origin_timestamp.
                  bind-Settles read_u64 _ read_u64-Settles λ receive_timestamp.
                    bind-Settles read_u64 _ read_u64-Settles λ transmit_timestamp s. tt

pub parse_packet_header-IsSettled : (packet : Bytes) → IsSettled (parse_packet_header packet)
unfolding parse_packet_header
parse_packet_header-IsSettled packet = elim (Bool-cases (ltb (length packet) 48)) [
  | inl short ↦ rw short tt
  | inr long ↦ rw long (bind-IsSettled _ _ (read_header-Settles packet) (λ r. tt))
]
