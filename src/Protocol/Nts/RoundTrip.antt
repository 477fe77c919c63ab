-- ===== src/Protocol/Nts/RoundTrip.antt =====
-- src/ntp/protocol.rs: `parse_nts_packet` reads back what `serialize_nts_packet` wrote.
use cfnts.Base.{
  ◌+◌, ◌-◌, ◌^◌, ◌<◌, ◌≤◌, ◌≡◌, refl, List, [], ◌∷◌, ◌++◌, append_assoc, arith, Bytes, ok, ◌>>=◌,
  length, ltb, false, drop, All, take-append, drop-append, length-append, le→ltb_false,
}
use cfnts.Protocol.Types.{NtpExtension, NtpPacketHeader, NtsPacket, nts_authenticator, IsHeader}
use cfnts.Protocol.Header.{
  parse_packet_header, serialize_header, on_wire, parse-serialize_header, length-serialize_header,
}
use cfnts.Protocol.Extensions.{parse_extensions}
use cfnts.Protocol.Extensions.RoundTrip.{
  IsExtension, wires, serialize_extensions-wires, parse_extensions-wires, length-wires,
}
use cfnts.Protocol.Aead.{Aead, IsAead}
use cfnts.Protocol.Nts.{
  parse_decrypt_auth_ext, open_authenticator, parse_nts_packet, authenticator, serialize_nts_packet,
}
use cfnts.Protocol.Nts.Wires.{
  IsPlain, plain_extensions, parse_nts_loop-wires, authenticator-IsExtension,
  parse_decrypt-authenticator,
}

-- The authenticator that stands behind `front` is opened with `front` as the associated data.
open_authenticator_lem :
    (aead : Aead) (key front tail contents plaintext : Bytes) (enc : List NtpExtension)
    → parse_decrypt_auth_ext aead key front contents ≡ ok plaintext
    → parse_extensions plaintext ≡ ok enc
    → open_authenticator aead key
        (front ++ tail)
        (length front + 4 + length contents)
        (length contents)
        contents
      ≡ ok ([], enc)
unfolding open_authenticator
open_authenticator_lem aead key front tail contents plaintext enc d e =
    let old : length front + 4 + length contents - 4 - length contents ≡ length front =
      omega arith in
    let fits : ltb (length front + 4 + length contents) (4 + length contents) ≡ false =
      le→ltb_false _ _ (omega arith) in
    rw (fits, old, take-append front tail refl, d, e) refl

module _ (aead : Aead) (key : Bytes) (head : NtpPacketHeader) (v : IsHeader head)
    (exts enc : List NtpExtension) (last : NtpExtension) (plaintext : Bytes)
    (plain : All IsPlain exts) (is_ext : IsExtension last)
    (kind : last.ext_type ≡ nts_authenticator)
    (opens : parse_decrypt_auth_ext aead key (serialize_header head ++ wires exts) last.contents
      ≡ ok plaintext)
    (reads : parse_extensions plaintext ≡ ok enc) where
  abbrev front : Bytes
  front = serialize_header head ++ wires exts

  abbrev tail : Bytes
  tail = wires (last ∷ [])

  parse_nts_packet_lem :
      parse_nts_packet aead key (front ++ tail)
      ≡ ok (record { header = on_wire head; auth_exts = exts; auth_enc_exts = enc })
  unfolding parse_nts_packet
  parse_nts_packet_lem =
      let regroup : front ++ tail ≡ serialize_header head ++ (wires exts ++ tail) =
        append_assoc (serialize_header head) (wires exts) tail in
      let fuel : length exts ≤ length (front ++ tail) = omega (
        arith,
        length-append front tail,
        length-append (serialize_header head) (wires exts),
        length-wires exts,
      ) in
      let here : length front + 4 + length last.contents
          ≡ 48 + length (wires exts) + 4 + length last.contents =
        omega (
          arith,
          length-append (serialize_header head) (wires exts),
          length-serialize_header head,
        ) in
      let opened =
        open_authenticator_lem aead key front tail last.contents plaintext enc opens reads in
      let loop =
        parse_nts_loop-wires aead key (front ++ tail) exts (length (front ++ tail)) 48 last enc
          plain is_ext kind fuel (rw here at opened) in
      let parsed : parse_packet_header (front ++ tail) ≡ ok (on_wire head) =
        rw regroup (parse-serialize_header head v (wires exts ++ tail)) in
      let dropped : drop 48 (front ++ tail) ≡ wires exts ++ tail =
        rw regroup (
          drop-append (serialize_header head) (wires exts ++ tail)
            (length-serialize_header head)) in
      rw (parsed, dropped, loop) refl

-- With a sound AEAD and a nonce of 16 bytes, an NTS packet whose header fields hold values of
-- their Rust types and whose extensions the wire format can hold, none of the authenticated ones
-- being an authenticator, and whose encrypted part leaves room for the length field, is
-- serialised; and parsing the result under the same key gives the same packet, with the
-- version's three bits.
pub parse-serialize_nts_packet :
    (aead : Aead) (key nonce : Bytes) (packet : NtsPacket)
    → IsAead aead
    → length nonce ≡ 16
    → IsHeader packet.header
    → All IsPlain packet.auth_exts
    → All IsExtension packet.auth_enc_exts
    → length (wires packet.auth_enc_exts) + 48 < 2 ^ 16
    → (serialize_nts_packet aead key nonce packet >>= parse_nts_packet aead key)
      ≡ ok (record packet { header = on_wire packet.header })
unfolding serialize_nts_packet
parse-serialize_nts_packet aead key nonce packet sound n v plain enc small =
    let ad = serialize_header packet.header ++ wires packet.auth_exts in
    let plaintext = wires packet.auth_enc_exts in
    let ciphertext = aead.seal key nonce ad plaintext in
    let room : length ciphertext + 32 < 2 ^ 16 =
      omega (arith, sound.length-seal key nonce ad plaintext) in
    let is_ext = authenticator-IsExtension nonce ciphertext n room in
    rw
      (
        serialize_extensions-wires packet.auth_exts (plain_extensions packet.auth_exts plain),
        serialize_extensions-wires packet.auth_enc_exts enc,
        serialize_extensions-wires (_ ∷ []) (is_ext, tt),
      )
      (parse_nts_packet_lem aead key packet.header v packet.auth_exts packet.auth_enc_exts
        (record { ext_type = nts_authenticator; contents = authenticator nonce ciphertext })
        plaintext plain is_ext refl
        (parse_decrypt-authenticator nonce ciphertext n aead key ad plaintext room
          (sound.unseal-seal key nonce ad plaintext))
        (parse_extensions-wires packet.auth_enc_exts enc))
