-- ===== src/Protocol/Nts/Lengthened.antt =====
-- src/ntp/protocol.rs: `parse_nts_packet` at an authenticator that announces more bytes than there are.
use cfnts.Base.{
  ℕ, zero, suc, ◌+◌, ◌-◌, ◌/◌, ◌%◌, ◌^◌, ◌<◌, ◌≤◌, ◌≡◌, refl, List, [], ◌∷◌, ◌++◌, append_assoc,
  arith, Bytes, ok, u16_of, length, ltb, false, min, replicate, All, some, take_short, take-append,
  drop-append, length-append, length-replicate, le→ltb_false,
}
use cfnts.Protocol.Types.{NtpExtension, type_from_wire, same_type}
use cfnts.Protocol.Extensions.{read_zeroed, parse_extensions}
use cfnts.Protocol.Extensions.RoundTrip.{wire, wires}
use cfnts.Protocol.Aead.{Aead}
use cfnts.Protocol.Nts.{
  pad_len, parse_decrypt_auth_ext, open_authenticator, parse_nts_loop, authenticator,
}
use cfnts.Protocol.Nts.Wires.{IsPlain, parse_nts_loop-wire}
use cfnts.Protocol.Nts.Total.{cut_authenticator}

-- What is behind an authenticator in its contents does not matter.
pub parse_decrypt-followed :
    (nonce ciphertext more : Bytes)
    → length nonce ≡ 16
    → (aead : Aead) (key auth_dat plaintext : Bytes) → length ciphertext + 32 < 2 ^ 16
    → aead.unseal key nonce auth_dat ciphertext ≡ some plaintext
    → parse_decrypt_auth_ext aead key auth_dat (authenticator nonce ciphertext ++ more)
      ≡ ok plaintext
unfolding parse_decrypt_auth_ext
parse_decrypt-followed nonce ciphertext more n aead key auth_dat plaintext small opens =
    let zeros : Bytes = replicate (pad_len (length ciphertext)) 0 in
    let len : u16_of (length ciphertext % 2 ^ 16 / 256 % 256) (length ciphertext % 2 ^ 16 % 256)
        ≡ length ciphertext =
      omega arith in
    rw
      (
        append_assoc nonce (ciphertext ++ zeros) more,
        append_assoc ciphertext zeros more,
        len,
        take-append nonce (ciphertext ++ (zeros ++ more)) n,
        drop-append nonce (ciphertext ++ (zeros ++ more)) n,
        take-append ciphertext (zeros ++ more) refl,
        opens,
      )
      (ground (
        arith,
        length-append nonce (ciphertext ++ (zeros ++ more)),
        length-append ciphertext (zeros ++ more),
        length-append zeros more,
        length-replicate {A = ℕ} (pad_len (length ciphertext)) 0,
      ))

module _ (aead : Aead) (key buff : Bytes) where
  -- The loop reads the extensions in front of whatever it reads then.
  pub parse_nts_loop-behind :
      (exts : List NtpExtension) (fuel pos : ℕ) (tail : Bytes) (enc : List NtpExtension)
      → All IsPlain exts
      → length exts ≤ fuel
      → ((fuel : ℕ)
          → parse_nts_loop aead key buff (suc fuel) (pos + length (wires exts)) tail ≡ ok ([], enc))
      → parse_nts_loop aead key buff (suc fuel) pos (wires exts ++ tail) ≡ ok (exts, enc)
  parse_nts_loop-behind [] fuel pos tail enc h k last =
      let here : pos + 0 ≡ pos = omega arith in rw here at (last fuel)
  parse_nts_loop-behind (e ∷ es) zero pos tail enc h k last = absurd (omega arith)
  parse_nts_loop-behind (e ∷ es) (suc fuel) pos tail enc (h, hs) k last =
      let there : pos + length (wires (e ∷ es)) ≡ pos + 4 + length e.contents + length (wires es) =
        omega (arith, length-append e.contents (wires es)) in
      let ih =
        parse_nts_loop-behind es fuel (pos + 4 + length e.contents) tail enc hs (omega arith)
          (λ fuel. rw there at (last fuel)) in
      rw
        (
          append_assoc (wire e) (wires es) tail,
          parse_nts_loop-wire aead key buff e (suc fuel) pos (wires es ++ tail) h.extension,
          h.not_authenticator,
          ih,
        )
        refl

  -- An authenticator whose length is `n` too long.
  pub parse_nts_loop-lengthened :
      (fuel pos n : ℕ) (body : Bytes)
      → length body + 4 + n < 2 ^ 16
      → parse_nts_loop aead key buff (suc fuel) pos (cut_authenticator (length body + 4 + n) body)
        ≡ open_authenticator aead key buff
            (pos + 4 + length body)
            (length body + n)
            (body ++ replicate n 0)
  unfolding parse_nts_loop read_zeroed type_from_wire same_type
  parse_nts_loop-lengthened fuel pos n body hi =
      let len = length body + 4 + n in
      let back : (u16_of (len / 256 % 256) (len % 256) + 2 ^ 16 - 4) % 2 ^ 16 ≡ length body + n =
        omega arith in
      let reads : min (length body + n) (length body) ≡ length body = omega arith in
      let missing : length body + n - length body ≡ n = omega arith in
      rw (back, reads, missing, take_short (length body + n) body (omega arith)) refl

  pub open_authenticator-lengthened :
      (front tail contents plaintext : Bytes) (n : ℕ) (enc : List NtpExtension)
      → buff ≡ front ++ tail
      → parse_decrypt_auth_ext aead key front (contents ++ replicate n 0) ≡ ok plaintext
      → parse_extensions plaintext ≡ ok enc
      → open_authenticator aead key buff
          (length front + n + 4 + length contents)
          (length contents + n)
          (contents ++ replicate n 0)
        ≡ ok ([], enc)
  unfolding open_authenticator
  open_authenticator-lengthened front tail contents plaintext n enc e d p =
      let old : length front + n + 4 + length contents - 4 - (length contents + n) ≡ length front =
        omega arith in
      let fits : ltb (length front + n + 4 + length contents) (4 + (length contents + n)) ≡ false =
        le→ltb_false _ _ (omega arith) in
      rw (fits, old, e, take-append front tail refl, d, p) refl
