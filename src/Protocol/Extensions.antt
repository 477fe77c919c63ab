-- ===== src/Protocol/Extensions.antt =====
-- src/ntp/protocol.rs: extensions of NTP packets, and packets without encryption.
pub mod RoundTrip
pub mod Total
use cfnts.Base.{
  ℕ, zero, suc, ◌+◌, ◌-◌, ◌/◌, ◌%◌, ◌^◌, ◌<◌, ◌≤◌, ◌≡◌, ◌≢◌, refl, sym, ◌∙◌, List, [], ◌∷◌, ◌++◌,
  append_assoc, append-nil, arith, Bytes, Outcome, ok, err, panic, hang, ◌>>=◌, u16_bytes, u16_of,
  u16_of-u16_bytes, length, ltb, ◌==◌, if◌then◌else◌, not, Bool, true, false, take, drop, replicate,
  All, Option, some, none, take-append, drop-append, length-append, length-drop, ap,
}
use cfnts.Protocol.Types.{
  NtpExtension, NtpExtensionType, NtpPacket, NtpPacketHeader, IoError, not_on_word_boundary,
  extension_too_short, unique_identifier, nts_cookie, nts_authenticator, wire_type, type_from_wire,
  same_type, IsCanonical, type_from_wire-wire_type, wire_type-lt,
}
use cfnts.Protocol.Header.{parse_packet_header, serialize_header}

-- `let mut buf = vec![0; n]; reader.read(&mut buf)?`: what is missing stays zero.
unfoldable pub read_zeroed : ℕ → Bytes → Bytes
read_zeroed n rest = take n rest ++ replicate (n - length rest) 0

-- The loop of `parse_extensions`, on the bytes that the cursor has not read.
unfoldable pub parse_extensions_loop : ℕ → Bytes → Outcome IoError (List NtpExtension)
parse_extensions_loop zero rest = hang
parse_extensions_loop (suc fuel) (t1 ∷ t0 ∷ l1 ∷ l0 ∷ rest) =
    let ext_type = u16_of t1 t0 in
    let ext_len = u16_of l1 l0 in
    let more = parse_extensions_loop fuel (drop (ext_len - 4) rest) in
    let ext : NtpExtension = record {
      ext_type = type_from_wire ext_type;
      contents = read_zeroed (ext_len - 4) rest;
    } in
    if not (ext_len % 4 == 0)
    then err not_on_word_boundary
    else if ltb ext_len 4
    then err extension_too_short
    else (more >>= λ exts. ok (ext ∷ exts))
parse_extensions_loop (suc fuel) _ = ok []

-- Each round reads four bytes at least, so a round for each byte is enough.
unfoldable pub parse_extensions : Bytes → Outcome IoError (List NtpExtension)
parse_extensions buff = parse_extensions_loop (suc (length buff)) buff

unfoldable pub parse_ntp_packet : Bytes → Outcome IoError NtpPacket
parse_ntp_packet buff = do
  header ← parse_packet_header buff
  extensions ← parse_extensions (drop 48 buff)
  ok (record { header = header; exts = extensions })

-- The length field is a `u16`, to which the length is cast.
unfoldable pub serialize_extensions : List NtpExtension → Outcome IoError Bytes
serialize_extensions [] = ok []
serialize_extensions (ext ∷ exts) = if not (length ext.contents % 4 == 0) then panic else do
  more ← serialize_extensions exts
  ok (
      u16_bytes (wire_type ext.ext_type)
      ++ (u16_bytes ((length ext.contents + 4) % 2 ^ 16) ++ (ext.contents ++ more)))

unfoldable pub serialize_ntp_packet : NtpPacket → Outcome IoError Bytes
serialize_ntp_packet pack = do
  exts ← serialize_extensions pack.exts
  ok (serialize_header pack.header ++ exts)

-- `has_extension` and `extract_extension` go through `pack.exts`.
unfoldable pub has_extension : List NtpExtension → NtpExtensionType → Bool
has_extension [] kind = false
has_extension (ext ∷ exts) kind =
    if same_type ext.ext_type kind then true else has_extension exts kind

unfoldable pub extract_extension : List NtpExtension → NtpExtensionType → Option NtpExtension
extract_extension [] kind = none
extract_extension (ext ∷ exts) kind =
    if same_type ext.ext_type kind then some ext else extract_extension exts kind

unfoldable pub is_nts_packet : NtpPacket → Bool
is_nts_packet pack =
    if has_extension pack.exts nts_cookie
    then (if has_extension pack.exts nts_authenticator
        then has_extension pack.exts unique_identifier
        else false)
    else false
