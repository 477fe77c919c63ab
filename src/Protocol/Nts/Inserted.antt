-- ===== src/Protocol/Nts/Inserted.antt =====
-- src/ntp/protocol.rs: an extension that is inserted into a serialised NTS packet by someone who does
-- not have its key.
use cfnts.Base.{
  ℕ, ◌+◌, ◌^◌, ◌<◌, ◌≡◌, refl, sym, ap, ◌∙◌, List, [], ◌∷◌, ◌++◌, append_assoc, append-nil, arith,
  Bytes, ok, u16_of, u16_bytes, length, replicate, All, All-append, take, drop, take-append,
  drop-append, length-append,
}
use cfnts.Protocol.Types.{NtpExtension, NtpPacketHeader, NtsPacket, nts_authenticator, IsHeader}
use cfnts.Protocol.Header.{
  parse_packet_header, serialize_header, on_wire, parse-serialize_header, length-serialize_header,
}
use cfnts.Protocol.Extensions.{parse_extensions}
use cfnts.Protocol.Extensions.RoundTrip.{
  IsExtension, wire, wires, parse_extensions-wires, length-wires, len_back,
}
use cfnts.Protocol.Aead.{Aead, IsAead}
use cfnts.Protocol.Nts.{
  parse_decrypt_auth_ext, parse_nts_packet, authenticator, serialize_nts_packet,
}
use cfnts.Protocol.Nts.Wires.{IsPlain, length-authenticator}
use cfnts.Protocol.Nts.Plain.{
  wires-append, associated, sealed_ext, sealed_ext-IsExtension, serialize_nts_packet-wires,
}
use cfnts.Protocol.Nts.Total.{cut_authenticator}
use cfnts.Protocol.Nts.Lengthened.{
  parse_decrypt-followed, parse_nts_loop-behind, parse_nts_loop-lengthened,
  open_authenticator-lengthened,
}

-- The bytes of an extension whose length field has `n` more.
abbrev pub lengthened : ℕ → Bytes → Bytes
lengthened n (t1 ∷ t0 ∷ l1 ∷ l0 ∷ body) = t1 ∷ t0 ∷ (u16_bytes (u16_of l1 l0 + n) ++ body)
lengthened n bytes = bytes

-- An extension is inserted at a position, and its size is added to the length of what stands behind.
abbrev pub inserted : ℕ → NtpExtension → Bytes → Bytes
inserted at ext bytes =
    take at bytes ++ (wire ext ++ lengthened (4 + length ext.contents) (drop at bytes))

-- What is received instead: all the extensions, and then the authenticator with the longer length.
abbrev tampered : NtpPacketHeader → List NtpExtension → NtpExtension → Bytes → Bytes
tampered header exts ext body =
    serialize_header header
    ++ (wires (exts ++ (ext ∷ []))
        ++ cut_authenticator (length body + 4 + (4 + length ext.contents)) body)

-- The inserted extension stands behind what was authenticated.
tampered_lem :
    (header : NtpPacketHeader) (exts : List NtpExtension) (ext : NtpExtension) (body : Bytes)
    → (serialize_header header ++ wires exts)
        ++ (wire ext ++ cut_authenticator (length body + 4 + (4 + length ext.contents)) body)
      ≡ tampered header exts ext body
tampered_lem header exts ext body =
    let tail = cut_authenticator (length body + 4 + (4 + length ext.contents)) body in
    rw (wires-append exts (ext ∷ []), append-nil (wire ext))
      (append_assoc (serialize_header header) (wires exts) (wire ext ++ tail)
        ∙ ap (λ w. serialize_header header ++ w) (sym (append_assoc (wires exts) (wire ext) tail)))

parse_nts_packet-tampered :
    (aead : Aead) (key : Bytes) (header : NtpPacketHeader) (exts enc : List NtpExtension)
    (ext : NtpExtension) (body plaintext : Bytes)
    → IsHeader header
    → All IsPlain exts
    → IsPlain ext
    → length body + 4 + (4 + length ext.contents) < 2 ^ 16
    → parse_decrypt_auth_ext aead key
        (serialize_header header ++ wires exts)
        (body ++ replicate (4 + length ext.contents) 0)
      ≡ ok plaintext
    → parse_extensions plaintext ≡ ok enc
    → parse_nts_packet aead key (tampered header exts ext body)
      ≡ ok (record { header = on_wire header; auth_exts = exts ++ (ext ∷ []); auth_enc_exts = enc })
unfolding parse_nts_packet
parse_nts_packet-tampered aead key header exts enc ext body plaintext v plain inserts hi opens
      reads =
    let n = 4 + length ext.contents in
    let all = exts ++ (ext ∷ []) in
    let front = serialize_header header ++ wires exts in
    let tail = cut_authenticator (length body + 4 + n) body in
    let buff = tampered header exts ext body in
    let lengths : length buff ≡ 48 + (length (wires all) + (4 + length body)) = omega (
      arith,
      length-append (serialize_header header) (wires all ++ tail),
      length-serialize_header header,
      length-append (wires all) tail,
    ) in
    let place : 48 + length (wires all) ≡ length front + n = omega (
      arith,
      length-append (serialize_header header) (wires exts),
      length-serialize_header header,
      ap length (wires-append exts (ext ∷ [])),
      length-append (wires exts) (wires (ext ∷ [])),
      ap length (append-nil (wire ext)),
    ) in
    let opened =
      open_authenticator-lengthened aead key buff front (wire ext ++ tail) body plaintext n enc
        (sym (tampered_lem header exts ext body)) opens reads in
    let loop =
      parse_nts_loop-behind aead key buff all (length buff) 48 tail enc
        (All-append IsPlain exts (ext ∷ []) plain (inserts, tt))
        (omega (arith, lengths, length-wires all))
        (λ fuel.
          rw place
            (parse_nts_loop-lengthened aead key buff fuel (length front + n) n body hi ∙ opened)) in
    let parsed : parse_packet_header buff ≡ ok (on_wire header) =
      parse-serialize_header header v (wires all ++ tail) in
    let dropped : drop 48 buff ≡ wires all ++ tail =
      drop-append (serialize_header header) (wires all ++ tail) (length-serialize_header header) in
    rw (parsed, dropped, loop) refl

inserted_lem :
    (header : NtpPacketHeader) (exts : List NtpExtension) (ext last : NtpExtension)
    → last.ext_type ≡ nts_authenticator
    → IsExtension last
    → inserted
        (48 + length (wires exts))
        ext
        ((serialize_header header ++ wires exts) ++ wires (last ∷ []))
      ≡ tampered header exts ext last.contents
inserted_lem header exts ext last kind e =
    let front = serialize_header header ++ wires exts in
    let n = 4 + length ext.contents in
    let size : length front ≡ 48 + length (wires exts) = omega (
      arith,
      length-append (serialize_header header) (wires exts),
      length-serialize_header header,
    ) in
    let longer : lengthened n (wires (last ∷ []))
        ≡ cut_authenticator (length last.contents + 4 + n) last.contents =
      rw (len_back last e _ refl, kind, append-nil last.contents) refl in
    rw
      (
        take-append front (wires (last ∷ [])) size,
        drop-append front (wires (last ∷ [])) size,
        longer,
      )
      (tampered_lem header exts ext last.contents)

-- Who has no key inserts an extension between those that a serialised NTS packet authenticates and its
-- authenticator, and adds its size to the authenticator's length field. Then the packet still parses
-- under its key, to the same packet with the inserted extension as the last of those that pass for
-- authenticated. The AEAD is sound, the nonce has 16 bytes, header fields hold values of their Rust
-- types, the extensions fit the wire format, none of those in the clear is an authenticator, and
-- the encrypted ones with the inserted one leave room for the length field.
pub parse_nts_packet-inserted :
    (aead : Aead) (key nonce : Bytes) (packet : NtsPacket) (ext : NtpExtension)
    → IsAead aead
    → length nonce ≡ 16
    → IsHeader packet.header
    → All IsPlain packet.auth_exts
    → All IsExtension packet.auth_enc_exts
    → IsPlain ext
    → length (wires packet.auth_enc_exts) + 52 + length ext.contents < 2 ^ 16
    → (bytes : Bytes) × (serialize_nts_packet aead key nonce packet ≡ ok bytes)
      × (parse_nts_packet aead key (inserted (48 + length (wires packet.auth_exts)) ext bytes)
          ≡ ok (record packet {
            header = on_wire packet.header;
            auth_exts = packet.auth_exts ++ (ext ∷ []);
          }))
parse_nts_packet-inserted aead key nonce packet ext sound sixteen v plain enc inserts small =
    let front = associated aead key nonce packet in
    let last = sealed_ext aead key nonce packet in
    let plaintext = wires packet.auth_enc_exts in
    let ciphertext = aead.seal key nonce front plaintext in
    let body = authenticator nonce ciphertext in
    let n = 4 + length ext.contents in
    let room : length ciphertext + 32 < 2 ^ 16 =
      omega (arith, sound.length-seal key nonce front plaintext) in
    let is_ext =
      sealed_ext-IsExtension aead key nonce packet sound sixteen plain enc (omega arith) in
    let opens =
      parse_decrypt-followed nonce ciphertext (replicate n 0) sixteen aead key front plaintext room
        (sound.unseal-seal key nonce front plaintext) in
    (
      front ++ wires (last ∷ []),
      serialize_nts_packet-wires aead key nonce packet sound sixteen plain enc (omega arith),
      rw (inserted_lem packet.header packet.auth_exts ext last refl is_ext) (
          parse_nts_packet-tampered aead key packet.header packet.auth_exts packet.auth_enc_exts ext
            body plaintext v plain inserts
            (omega (
              arith,
              length-authenticator nonce ciphertext sixteen,
              sound.length-seal key nonce front plaintext,
            ))
            opens (parse_extensions-wires packet.auth_enc_exts enc)),
    )
