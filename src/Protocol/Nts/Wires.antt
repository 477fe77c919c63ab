-- ===== src/Protocol/Nts/Wires.antt =====
-- src/ntp/protocol.rs: the extensions of an NTS packet on the wire, and its authenticator.
use cfnts.Base.{
  ℕ, zero, suc, ◌+◌, ◌-◌, ◌/◌, ◌%◌, ◌^◌, ◌<◌, ◌≤◌, ◌≡◌, refl, List, [], ◌∷◌, ◌++◌, append_assoc,
  arith, Bytes, ok, ◌>>=◌, u16_of, length, if◌then◌else◌, false, min, replicate, All, some,
  take-append, drop-append, length-append, length-replicate,
}
use cfnts.Protocol.Types.{NtpExtension, nts_authenticator, same_type}
use cfnts.Protocol.Extensions.RoundTrip.{
  IsExtension, wire, wires, read_zeroed-append, type_back, len_back,
}
use cfnts.Protocol.Aead.{Aead}
use cfnts.Protocol.Nts.{
  pad_len, parse_decrypt_auth_ext, open_authenticator, parse_nts_loop, authenticator,
}

-- An extension that may stand before the authenticator.
pub record IsPlain (ext : NtpExtension) : Type 0 where
  pub extension : IsExtension ext
  pub not_authenticator : same_type ext.ext_type nts_authenticator ≡ false

pub plain_extensions : (exts : List NtpExtension) → All IsPlain exts → All IsExtension exts
plain_extensions [] h = tt
plain_extensions (e ∷ es) (h, k) = (h.extension, plain_extensions es k)

module _ (aead : Aead) (key : Bytes) (buff : Bytes) where
  -- One round on the bytes of an extension that the wire format can hold.
  pub parse_nts_loop-wire :
      (ext : NtpExtension) (fuel pos : ℕ) (rest : Bytes)
      → IsExtension ext
      → parse_nts_loop aead key buff (suc fuel) pos (wire ext ++ rest) ≡ (
          if same_type ext.ext_type nts_authenticator
          then open_authenticator aead key buff
              (pos + 4 + length ext.contents)
              (length ext.contents)
              ext.contents
          else (parse_nts_loop aead key buff fuel (pos + 4 + length ext.contents) rest >>= λ r.
              ok (ext ∷ r.0, r.1)))
  unfolding parse_nts_loop
  parse_nts_loop-wire ext fuel pos rest e =
      let small : length ext.contents + 4 < 2 ^ 16 = e.fits in
      let back : (length ext.contents + 4 + 2 ^ 16 - 4) % 2 ^ 16 ≡ length ext.contents =
        omega arith in
      let reads : min (length ext.contents) (length (ext.contents ++ rest)) ≡ length ext.contents =
        omega (arith, length-append ext.contents rest) in
      rw
        (
          type_back ext e,
          len_back ext e _ refl,
          back,
          read_zeroed-append ext.contents rest refl,
          drop-append ext.contents rest refl,
          reads,
        )
        refl

  pub parse_nts_loop-wires :
      (exts : List NtpExtension) (fuel pos : ℕ) (last : NtpExtension) (enc : List NtpExtension)
      → All IsPlain exts
      → IsExtension last
      → last.ext_type ≡ nts_authenticator
      → length exts ≤ fuel
      → open_authenticator aead key buff
          (pos + length (wires exts) + 4 + length last.contents)
          (length last.contents)
          last.contents
        ≡ ok ([], enc)
      → parse_nts_loop aead key buff (suc fuel) pos (wires exts ++ wires (last ∷ []))
        ≡ ok (exts, enc)
  parse_nts_loop-wires [] fuel pos last enc h l t k opens =
      let here : pos + 0 ≡ pos = omega arith in
      let opens' = rw here at opens in
      rw (parse_nts_loop-wire last fuel pos [] l, t) (unfold same_type in opens')
  parse_nts_loop-wires (e ∷ es) zero pos last enc h l t k opens = absurd (omega arith)
  parse_nts_loop-wires (e ∷ es) (suc fuel) pos last enc (h, hs) l t k opens =
      let there : pos + length (wires (e ∷ es)) + 4 + length last.contents
          ≡ pos + 4 + length e.contents + length (wires es) + 4 + length last.contents =
        omega (arith, length-append e.contents (wires es)) in
      let ih =
        parse_nts_loop-wires es fuel (pos + 4 + length e.contents) last enc hs l t (omega arith)
          (rw there at opens) in
      rw
        (
          append_assoc (wire e) (wires es) (wires (last ∷ [])),
          parse_nts_loop-wire e (suc fuel) pos (wires es ++ wires (last ∷ [])) h.extension,
          h.not_authenticator,
          ih,
        )
        refl

module _ (nonce ciphertext : Bytes) (n : length nonce ≡ 16) where
  pub length-authenticator :
      length (authenticator nonce ciphertext) ≡ 20 + length ciphertext + pad_len (length ciphertext)
  length-authenticator =
      let zeros : Bytes = replicate (pad_len (length ciphertext)) 0 in
      omega (
        arith,
        length-append nonce (ciphertext ++ zeros),
        length-append ciphertext zeros,
        length-replicate {A = ℕ} (pad_len (length ciphertext)) 0,
      )

  pub authenticator-IsExtension :
      length ciphertext + 32 < 2 ^ 16
      → IsExtension
          (record { ext_type = nts_authenticator; contents = authenticator nonce ciphertext })
  authenticator-IsExtension small = record {
    canonical = tt;
    words = omega (arith, length-authenticator);
    fits = omega (arith, length-authenticator);
  }

  pub parse_decrypt-authenticator :
      (aead : Aead) (key auth_dat plaintext : Bytes)
      → length ciphertext + 32 < 2 ^ 16
      → aead.unseal key nonce auth_dat ciphertext ≡ some plaintext
      → parse_decrypt_auth_ext aead key auth_dat (authenticator nonce ciphertext) ≡ ok plaintext
  unfolding parse_decrypt_auth_ext
  parse_decrypt-authenticator aead key auth_dat plaintext small opens =
      let zeros : Bytes = replicate (pad_len (length ciphertext)) 0 in
      let len : u16_of (length ciphertext % 2 ^ 16 / 256 % 256) (length ciphertext % 2 ^ 16 % 256)
          ≡ length ciphertext =
        omega arith in
      rw
        (
          len,
          take-append nonce (ciphertext ++ zeros) n,
          drop-append nonce (ciphertext ++ zeros) n,
          take-append ciphertext zeros refl,
          opens,
        )
        (ground (arith, length-authenticator))
