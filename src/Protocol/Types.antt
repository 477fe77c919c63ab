-- ===== src/Protocol/Types.antt =====
-- The data types of src/ntp/protocol.rs, and the wire codes of the extension types.
use cfnts.Base.{
  ℕ, Bool, true, false, List, Bytes, ◌≡◌, refl, ◌≢◌, arith, ◌==◌, if◌then◌else◌, ◌<◌, ◌^◌, IsU8,
  IsU16, IsU32, IsU64,
}

pub data LeapState : Type 0 where
  no_leap positive negative unknown : LeapState

-- The last constructor stands for modes 0, 6 and 7; its discriminant is 6.
pub data PacketMode : Type 0 where
  symmetric_active symmetric_passive client server broadcast invalid : PacketMode

pub data NtpExtensionType : Type 0 where
  unique_identifier nts_cookie nts_cookie_placeholder nts_authenticator : NtpExtensionType
  unknown_type : ℕ → NtpExtensionType

-- The causes for which the code builds a `std::io::Error` of kind `InvalidInput`, `InvalidData`,
-- and the one of a read past the end of a cursor.
pub data IoError : Type 0 where
  too_short not_on_word_boundary extension_too_short no_authenticator insufficient_length : IoError
  exceeds_wrapper authentication_failed not_client_mode unexpected_eof : IoError

abbrev pub wire_type : NtpExtensionType → ℕ
wire_type unique_identifier = 0x0104
wire_type nts_cookie = 0x0204
wire_type nts_cookie_placeholder = 0x0304
wire_type nts_authenticator = 0x0404
wire_type (unknown_type y) = y

unfoldable pub type_from_wire : ℕ → NtpExtensionType
type_from_wire ext =
    if ext == 0x0104
    then unique_identifier
    else if ext == 0x0204
    then nts_cookie
    else if ext == 0x0304
    then nts_cookie_placeholder
    else if ext == 0x0404
    then nts_authenticator
    else unknown_type ext

-- The derived `==` of the type.
unfoldable pub same_type : NtpExtensionType → NtpExtensionType → Bool
same_type unique_identifier unique_identifier = true
same_type nts_cookie nts_cookie = true
same_type nts_cookie_placeholder nts_cookie_placeholder = true
same_type nts_authenticator nts_authenticator = true
same_type (unknown_type x) (unknown_type y) = x == y
same_type _ _ = false

-- `poll` and `precision` are `i8`: the byte that stands for them.
pub record NtpPacketHeader : Type 0 where
  pub leap_indicator : LeapState
  pub version : ℕ
  pub mode : PacketMode
  pub stratum : ℕ
  pub poll : ℕ
  pub precision : ℕ
  pub root_delay : ℕ
  pub root_dispersion : ℕ
  pub reference_id : ℕ
  pub reference_timestamp : ℕ
  pub origin_timestamp : ℕ
  pub receive_timestamp : ℕ
  pub transmit_timestamp : ℕ

pub record NtpExtension : Type 0 where
  pub ext_type : NtpExtensionType
  pub contents : Bytes

pub record NtsPacket : Type 0 where
  pub header : NtpPacketHeader
  pub auth_exts : List NtpExtension
  pub auth_enc_exts : List NtpExtension

pub record NtpPacket : Type 0 where
  pub header : NtpPacketHeader
  pub exts : List NtpExtension

-- Every field holds a value of its Rust type.
pub record IsHeader (h : NtpPacketHeader) : Type 0 where
  pub version_u8 : IsU8 h.version
  pub stratum_u8 : IsU8 h.stratum
  pub poll_i8 : IsU8 h.poll
  pub precision_i8 : IsU8 h.precision
  pub root_delay_u32 : IsU32 h.root_delay
  pub root_dispersion_u32 : IsU32 h.root_dispersion
  pub reference_id_u32 : IsU32 h.reference_id
  pub reference_timestamp_u64 : IsU64 h.reference_timestamp
  pub origin_timestamp_u64 : IsU64 h.origin_timestamp
  pub receive_timestamp_u64 : IsU64 h.receive_timestamp
  pub transmit_timestamp_u64 : IsU64 h.transmit_timestamp

-- An unknown type carries a code that no known type has.
abbrev pub IsCanonical : NtpExtensionType → Type 0
IsCanonical (unknown_type y) = (y ≢ 0x0104) × (y ≢ 0x0204) × (y ≢ 0x0304) × (y ≢ 0x0404) × IsU16 y
IsCanonical _ = Unit {0}

pub type_from_wire-wire_type :
    (x : NtpExtensionType) → IsCanonical x → type_from_wire (wire_type x) ≡ x
unfolding type_from_wire
type_from_wire-wire_type unique_identifier h = refl
type_from_wire-wire_type nts_cookie h = refl
type_from_wire-wire_type nts_cookie_placeholder h = refl
type_from_wire-wire_type nts_authenticator h = refl
type_from_wire-wire_type (unknown_type y) h = ground arith

pub wire_type-type_from_wire : (w : ℕ) → wire_type (type_from_wire w) ≡ w
unfolding type_from_wire
wire_type-type_from_wire w = ground arith

pub wire_type-lt : (x : NtpExtensionType) → IsCanonical x → wire_type x < 2 ^ 16
wire_type-lt unique_identifier h = omega arith
wire_type-lt nts_cookie h = omega arith
wire_type-lt nts_cookie_placeholder h = omega arith
wire_type-lt nts_authenticator h = omega arith
wire_type-lt (unknown_type y) h = h.4

pub same_type_refl : (x : NtpExtensionType) → same_type x x ≡ true
unfolding same_type
same_type_refl (unknown_type y) = ground arith
same_type_refl unique_identifier = refl
same_type_refl nts_cookie = refl
same_type_refl nts_cookie_placeholder = refl
same_type_refl nts_authenticator = refl

pub same_type→eq : (x y : NtpExtensionType) → same_type x y ≡ true → x ≡ y
unfolding same_type
same_type→eq unique_identifier unique_identifier h = refl
same_type→eq (unknown_type x) (unknown_type y) h = ground arith
same_type→eq _ _ h = ground arith
