-- ===== src/Protocol/Nts/Plain.antt =====
-- src/ntp/protocol.rs: a serialised NTS packet, as the parser of plain packets reads it.
use cfnts.Base.{
  ◌+◌, ◌^◌, ◌<◌, ◌≡◌, refl, sym, ap, ◌∙◌, List, [], ◌∷◌, ◌++◌, append_assoc, arith, Bytes, ok,
  ◌>>=◌, length, length-append, All, All-append,
}
use cfnts.Protocol.Types.{NtpExtension, NtsPacket, nts_authenticator, IsHeader}
use cfnts.Protocol.Header.{serialize_header, on_wire, length-serialize_header}
use cfnts.Protocol.Extensions.{parse_ntp_packet, serialize_ntp_packet}
use cfnts.Protocol.Extensions.RoundTrip.{
  IsExtension, wire, wires, serialize_extensions-wires, parse-serialize_ntp_packet,
}
use cfnts.Protocol.Aead.{Aead, IsAead}
use cfnts.Protocol.Nts.{pad_len, authenticator, serialize_nts_packet}
use cfnts.Protocol.Nts.Wires.{
  IsPlain, plain_extensions, authenticator-IsExtension, length-authenticator,
}

pub wires-append : (xs ys : List NtpExtension) → wires (xs ++ ys) ≡ wires xs ++ wires ys
wires-append [] ys = refl
wires-append (x ∷ xs) ys =
    ap (λ w. wire x ++ w) (wires-append xs ys) ∙ sym (append_assoc (wire x) _ _)

module _ (aead : Aead) (key nonce : Bytes) (packet : NtsPacket) where
  -- What stands in front of the authenticator, and the extension itself.
  abbrev pub associated : Bytes
  associated = serialize_header packet.header ++ wires packet.auth_exts

  abbrev pub sealed_ext : NtpExtension
  sealed_ext = record {
    ext_type = nts_authenticator;
    contents = authenticator nonce (aead.seal key nonce associated (wires packet.auth_enc_exts));
  }

  module _ (sound : IsAead aead) (sixteen : length nonce ≡ 16)
      (plain : All IsPlain packet.auth_exts) (enc : All IsExtension packet.auth_enc_exts)
      (small : length (wires packet.auth_enc_exts) + 48 < 2 ^ 16) where
    pub sealed_ext-IsExtension : IsExtension sealed_ext
    sealed_ext-IsExtension =
        authenticator-IsExtension nonce
          (aead.seal key nonce associated (wires packet.auth_enc_exts)) sixteen
          (omega (arith, sound.length-seal key nonce associated (wires packet.auth_enc_exts)))

    pub serialize_nts_packet-wires :
        serialize_nts_packet aead key nonce packet ≡ ok (associated ++ wires (sealed_ext ∷ []))
    unfolding serialize_nts_packet
    serialize_nts_packet-wires =
        rw
          (
            serialize_extensions-wires packet.auth_exts (plain_extensions packet.auth_exts plain),
            serialize_extensions-wires packet.auth_enc_exts enc,
            serialize_extensions-wires (sealed_ext ∷ []) (sealed_ext-IsExtension, tt),
          )
          refl

    -- The parser of plain packets reads the authenticated extensions, and the authenticator behind
    -- them as one more.
    pub parse_ntp_packet-serialize_nts_packet :
        IsHeader packet.header
        → (serialize_nts_packet aead key nonce packet >>= parse_ntp_packet)
          ≡ ok (record {
            header = on_wire packet.header;
            exts = packet.auth_exts ++ (sealed_ext ∷ []);
          })
    unfolding serialize_ntp_packet
    parse_ntp_packet-serialize_nts_packet v =
        let all = packet.auth_exts ++ (sealed_ext ∷ []) in
        let is_ext : All IsExtension all =
          All-append IsExtension packet.auth_exts (sealed_ext ∷ [])
            (plain_extensions packet.auth_exts plain) (sealed_ext-IsExtension, tt) in
        let regroup : associated ++ wires (sealed_ext ∷ [])
            ≡ serialize_header packet.header ++ wires all =
          rw wires-append (append_assoc (serialize_header packet.header) _ _) in
        let back =
          parse-serialize_ntp_packet (record { header = packet.header; exts = all }) v is_ext in
        rw (serialize_nts_packet-wires, regroup)
          (rw (serialize_extensions-wires all is_ext) at back)

    pub length-serialize_nts_packet :
        length (associated ++ wires (sealed_ext ∷ []))
        ≡ 88
          + length (wires packet.auth_exts)
          + length (wires packet.auth_enc_exts)
          + pad_len (length (wires packet.auth_enc_exts) + 16)
    length-serialize_nts_packet =
        let enc_bytes = wires packet.auth_enc_exts in
        let sealed = aead.seal key nonce associated enc_bytes in
        omega (
          arith,
          length-append associated (wires (sealed_ext ∷ [])),
          length-append (serialize_header packet.header) (wires packet.auth_exts),
          length-serialize_header packet.header,
          length-append (authenticator nonce sealed) [],
          length-authenticator nonce sealed sixteen,
          sound.length-seal key nonce associated enc_bytes,
        )
