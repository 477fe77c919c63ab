-- ===== src/Protocol/Header/Range.antt =====
-- src/ntp/protocol.rs: the fields of a parsed header are values of their Rust types.
use cfnts.Base.{
  ℕ, ◌≡◌, refl, [], ◌∷◌, true, arith, Bytes, ok, All, Bool-cases, inl, inr, IsU8, IsU32, IsU64,
  length, ltb, ltb→lt, check_under, check_under_sound, Ensures, Ensures-ok, ◌>>=◌ as bind_outcome,
  bind-Ensures,
}
use cfnts.Protocol.Types.{NtpPacketHeader, IsHeader}
use cfnts.Protocol.First.{parse_version}
use cfnts.Protocol.Cursor.{Reader, ◌>>=◌, read_u8, read_u32, read_u64}
use cfnts.Protocol.Header.{read_header, parse_packet_header}

-- From a cursor over bytes the read gives a value with the property, and leaves bytes.
abbrev Reads : {A : Type 0} → (A → Type 0) → Reader A → Type 0
Reads P m = (s : Bytes) → All IsU8 s → Ensures (λ r. P r.0 × All IsU8 r.1) (m s)

bind-Reads :
    {A B : Type 0} (P : A → Type 0) (Q : B → Type 0) (m : Reader A) (f : A → Reader B)
    → Reads P m
    → ((a : A) → P a → Reads Q (f a))
    → Reads Q (m >>= f)
bind-Reads P Q m f h k s b =
    bind-Ensures (λ r. Q r.0 × All IsU8 r.1) (m s) (λ r. f r.0 r.1)
      λ r e.
        let (p, rest) = Ensures-ok (λ r. P r.0 × All IsU8 r.1) (m s) r (h s b) e in k r.0 p r.1 rest

read_u8-Reads : Reads IsU8 read_u8
unfolding read_u8
read_u8-Reads [] b = tt
read_u8-Reads (x ∷ s) b = b

read_u32-Reads : Reads IsU32 read_u32
unfolding read_u32
read_u32-Reads (b3 ∷ b2 ∷ b1 ∷ b0 ∷ s) (h3, (h2, (h1, (h0, h)))) = (omega arith, h)
read_u32-Reads (b3 ∷ b2 ∷ b1 ∷ []) b = tt
read_u32-Reads (b3 ∷ b2 ∷ []) b = tt
read_u32-Reads (b3 ∷ []) b = tt
read_u32-Reads [] b = tt

read_u64-Reads : Reads IsU64 read_u64
unfolding read_u64
read_u64-Reads =
    bind-Reads IsU32 IsU64 read_u32 _ read_u32-Reads
      λ high h. bind-Reads IsU32 IsU64 read_u32 _ read_u32-Reads λ low l s b. (omega arith, b)

parse_version-IsU8 : (first : ℕ) → IsU8 first → IsU8 (parse_version first)
unfolding check_under parse_version
parse_version-IsU8 first h =
    ltb→lt (parse_version first) 256
      (check_under_sound (λ x. ltb (parse_version x) 256) 256 h table)
  where
    table : check_under (λ x. ltb (parse_version x) 256) 256 ≡ true
    table = refl

read_header-Reads : Reads IsHeader read_header
unfolding read_header
read_header-Reads = bind-Reads IsU8 IsHeader read_u8 _ read_u8-Reads λ first version.
    bind-Reads IsU8 IsHeader read_u8 _ read_u8-Reads λ stratum stratum_u8.
      bind-Reads IsU8 IsHeader read_u8 _ read_u8-Reads λ poll poll_i8.
        bind-Reads IsU8 IsHeader read_u8 _ read_u8-Reads λ precision precision_i8.
          bind-Reads IsU32 IsHeader read_u32 _ read_u32-Reads λ delay delay_u32.
            bind-Reads IsU32 IsHeader read_u32 _ read_u32-Reads λ dispersion dispersion_u32.
              bind-Reads IsU32 IsHeader read_u32 _ read_u32-Reads λ refid refid_u32.
                bind-Reads IsU64 IsHeader read_u64 _ read_u64-Reads λ reference reference_u64.
                  bind-Reads IsU64 IsHeader read_u64 _ read_u64-Reads λ origin origin_u64.
                    bind-Reads IsU64 IsHeader read_u64 _ read_u64-Reads λ receive receive_u64.
                      bind-Reads IsU64 IsHeader read_u64 _ read_u64-Reads
                        λ transmit transmit_u64 s b. (
                          record {
                            version_u8 = parse_version-IsU8 first version;
                            stratum_u8 = stratum_u8;
                            poll_i8 = poll_i8;
                            precision_i8 = precision_i8;
                            root_delay_u32 = delay_u32;
                            root_dispersion_u32 = dispersion_u32;
                            reference_id_u32 = refid_u32;
                            reference_timestamp_u64 = reference_u64;
                            origin_timestamp_u64 = origin_u64;
                            receive_timestamp_u64 = receive_u64;
                            transmit_timestamp_u64 = transmit_u64;
                          },
                          b,
                        )

-- A header that is parsed from bytes holds values of its Rust types.
pub parse_packet_header-IsHeader :
    (packet : Bytes) {header : NtpPacketHeader}
    → All IsU8 packet
    → parse_packet_header packet ≡ ok header
    → IsHeader header
unfolding parse_packet_header
parse_packet_header-IsHeader packet {header} b h = elim (Bool-cases (ltb (length packet) 48)) [
  | inl short ↦ absurd (let e = rw short at h in cc)
  | inr long ↦
      Ensures-ok IsHeader (bind_outcome (read_header packet) (λ r. ok r.0)) header
        (bind-Ensures IsHeader (read_header packet) (λ r. ok r.0)
          λ r e.
            (Ensures-ok (λ q. IsHeader q.0 × All IsU8 q.1) (read_header packet) r
              (read_header-Reads packet b) e).0)
        (rw long at h)
]
