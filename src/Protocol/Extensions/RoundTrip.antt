-- ===== src/Protocol/Extensions/RoundTrip.antt =====
-- src/ntp/protocol.rs: what `serialize_extensions` writes, `parse_extensions` reads back.
use cfnts.Base.{
  ℕ, zero, suc, ◌+◌, ◌*◌, ◌-◌, ◌/◌, ◌%◌, ◌^◌, ◌<◌, ◌≤◌, ◌≡◌, refl, List, [], ◌∷◌, ◌++◌, append-nil,
  arith, Bytes, ok, ◌>>=◌, u16_bytes, u16_of, u16_of-u16_bytes, length, All, take-append,
  drop-append, length-append,
}
use cfnts.Protocol.Types.{
  NtpExtension, NtpPacket, wire_type, type_from_wire, IsCanonical, type_from_wire-wire_type,
  wire_type-lt, IsHeader,
}
use cfnts.Protocol.Header.{
  serialize_header, on_wire, parse-serialize_header, length-serialize_header,
}
use cfnts.Protocol.Extensions.{
  read_zeroed, parse_extensions_loop, parse_extensions, parse_ntp_packet, serialize_extensions,
  serialize_ntp_packet,
}

-- What the constructor of an extension has to ensure for the wire format to hold it.
pub record IsExtension (ext : NtpExtension) : Type 0 where
  pub canonical : IsCanonical ext.ext_type
  pub words : length ext.contents % 4 ≡ 0
  pub fits : length ext.contents + 4 < 2 ^ 16

-- The bytes of an extension.
abbrev pub wire : NtpExtension → Bytes
wire ext =
    u16_bytes (wire_type ext.ext_type)
    ++ (u16_bytes ((length ext.contents + 4) % 2 ^ 16) ++ ext.contents)

abbrev pub wires : List NtpExtension → Bytes
wires [] = []
wires (ext ∷ exts) = wire ext ++ wires exts

pub read_zeroed-append : (xs ys : Bytes) {n : ℕ} → length xs ≡ n → read_zeroed n (xs ++ ys) ≡ xs
unfolding read_zeroed
read_zeroed-append xs ys {n} h =
    let enough : n - length (xs ++ ys) ≡ 0 = omega (arith, length-append xs ys) in
    rw (take-append xs ys h, enough) (append-nil xs)

pub serialize_extensions-wires :
    (exts : List NtpExtension) → All IsExtension exts → serialize_extensions exts ≡ ok (wires exts)
unfolding serialize_extensions
serialize_extensions-wires [] h = refl
serialize_extensions-wires (ext ∷ exts) (e, h) =
    rw (e.words, serialize_extensions-wires exts h) refl

module _ (ext : NtpExtension) (e : IsExtension ext) where
  pub type_back :
      type_from_wire (u16_of (wire_type ext.ext_type / 256 % 256) (wire_type ext.ext_type % 256))
      ≡ ext.ext_type
  type_back =
      rw (u16_of-u16_bytes _ (wire_type-lt ext.ext_type e.canonical))
        (type_from_wire-wire_type ext.ext_type e.canonical)

  pub len_back :
      (w : ℕ)
      → w ≡ (length ext.contents + 4) % 2 ^ 16
      → u16_of (w / 256 % 256) (w % 256) ≡ length ext.contents + 4
  len_back w h = let small : length ext.contents + 4 < 2 ^ 16 = e.fits in omega arith

pub parse_extensions_loop-wire :
    (ext : NtpExtension) (fuel : ℕ) (rest : Bytes)
    → IsExtension ext
    → parse_extensions_loop (suc fuel) (wire ext ++ rest)
      ≡ (parse_extensions_loop fuel rest >>= λ exts. ok (ext ∷ exts))
unfolding parse_extensions_loop
parse_extensions_loop-wire ext fuel rest e =
    let back : length ext.contents ≡ length ext.contents + 4 - 4 = omega arith in
    rw
      (
        type_back ext e,
        len_back ext e _ refl,
        read_zeroed-append ext.contents rest back,
        drop-append ext.contents rest back,
      )
      (ground (arith, e.words))

parse_extensions_loop-wires :
    (exts : List NtpExtension) (fuel : ℕ)
    → All IsExtension exts
    → length exts ≤ fuel
    → parse_extensions_loop (suc fuel) (wires exts) ≡ ok exts
parse_extensions_loop-wires [] fuel h k = unfold parse_extensions_loop in refl
parse_extensions_loop-wires (ext ∷ exts) zero h k = absurd (omega arith)
parse_extensions_loop-wires (ext ∷ exts) (suc fuel) (e, h) k =
    rw
      (
        parse_extensions_loop-wire ext (suc fuel) (wires exts) e,
        parse_extensions_loop-wires exts fuel h (omega arith),
      )
      refl

pub length-wires : (exts : List NtpExtension) → 4 * length exts ≤ length (wires exts)
length-wires [] = omega arith
length-wires (ext ∷ exts) =
    omega (arith, length-wires exts, length-append ext.contents (wires exts))

-- Extensions that the wire format can hold are parsed back from what was serialised.
pub parse_extensions-wires :
    (exts : List NtpExtension) → All IsExtension exts → parse_extensions (wires exts) ≡ ok exts
unfolding parse_extensions
parse_extensions-wires exts h =
    parse_extensions_loop-wires exts (length (wires exts)) h (omega (arith, length-wires exts))

-- A packet whose header fields hold values of their Rust types, and whose extensions the wire
-- format can hold, is serialised, and parsing the result gives the packet back, with the three
-- version bits of the wire.
pub parse-serialize_ntp_packet :
    (pack : NtpPacket)
    → IsHeader pack.header
    → All IsExtension pack.exts
    → (serialize_ntp_packet pack >>= parse_ntp_packet)
      ≡ ok (record pack { header = on_wire pack.header })
unfolding serialize_ntp_packet parse_ntp_packet
parse-serialize_ntp_packet pack v h =
    rw
      (
        serialize_extensions-wires pack.exts h,
        parse-serialize_header pack.header v (wires pack.exts),
        drop-append (serialize_header pack.header) (wires pack.exts) (length-serialize_header _),
        parse_extensions-wires pack.exts h,
      )
      refl
