-- ===== src/Protocol/Nts.antt =====
-- src/ntp/protocol.rs: NTS packets, whose last extension authenticates what stands before it and
-- holds the encrypted extensions. Arithmetic wraps, as in a release build.
pub mod Wires
pub mod RoundTrip
pub mod Authentic
pub mod Total
pub mod Plain
pub mod Lengthened
pub mod Inserted
use cfnts.Base.{
  ℕ, zero, suc, ◌+◌, ◌-◌, ◌%◌, ◌^◌, min, List, [], ◌∷◌, ◌++◌, Bytes, Outcome, ok, err, panic, hang,
  ◌>>=◌, u16_bytes, u16_of, length, ltb, if◌then◌else◌, take, drop, replicate, Option, some, none,
}
use cfnts.Protocol.Types.{
  NtpExtension, NtsPacket, IoError, no_authenticator, insufficient_length, exceeds_wrapper,
  authentication_failed, nts_authenticator, type_from_wire, same_type,
}
use cfnts.Protocol.Header.{parse_packet_header, serialize_header}
use cfnts.Protocol.Extensions.{read_zeroed, parse_extensions, serialize_extensions}
use cfnts.Protocol.Aead.{Aead}

-- `(4 - (n % 4)) % 4`
abbrev pub pad_len : ℕ → ℕ
pad_len n = (4 - n % 4) % 4

-- The contents of the authenticator; the nonce, 16 random bytes, is an argument.
abbrev pub authenticator : Bytes → Bytes → Bytes
authenticator nonce ciphertext =
    u16_bytes 16
    ++ (u16_bytes (length ciphertext % 2 ^ 16)
        ++ (nonce ++ (ciphertext ++ replicate (pad_len (length ciphertext)) 0)))

opened : Option Bytes → Outcome IoError Bytes
opened none = err authentication_failed
opened (some plaintext) = ok plaintext

module _ (aead : Aead) (key : Bytes) where
  unfoldable pub parse_decrypt_auth_ext : Bytes → Bytes → Outcome IoError Bytes
  unfolding opened
  parse_decrypt_auth_ext auth_dat (n1 ∷ n0 ∷ c1 ∷ c0 ∷ body) =
      let nonce_len = u16_of n1 n0 in
      let cipher_len = u16_of c1 c0 in
      let nonce_pad_len = nonce_len + pad_len nonce_len in
      let cipher_pad_len = cipher_len + pad_len cipher_len in
      if ltb (length (n1 ∷ n0 ∷ c1 ∷ c0 ∷ body)) (nonce_pad_len + cipher_pad_len + 4)
      then err exceeds_wrapper
      else opened (
          aead.unseal key (take nonce_len body) auth_dat
            (take cipher_len (drop nonce_pad_len body)))
  parse_decrypt_auth_ext auth_dat _ = err insufficient_length

  -- The `NTSAuthenticator` arm: `pos` is the position behind the extension. Where the subtraction
  -- of `oldpos` wraps, the slice `buff[0..oldpos]` is out of range.
  unfoldable pub open_authenticator :
      Bytes → ℕ → ℕ → Bytes → Outcome IoError (List NtpExtension × List NtpExtension)
  unfolding parse_decrypt_auth_ext
  open_authenticator buff pos ext_len contents = if ltb pos (4 + ext_len) then panic else do
    enc_ext_data ← parse_decrypt_auth_ext (take (pos - 4 - ext_len) buff) contents
    enc_exts ← parse_extensions enc_ext_data
    ok ([], enc_exts)

  -- The loop of `parse_nts_packet`: the cursor stands at `pos`, with `rest` behind it.
  unfoldable pub parse_nts_loop :
      Bytes → ℕ → ℕ → Bytes → Outcome IoError (List NtpExtension × List NtpExtension)
  parse_nts_loop buff zero pos rest = hang
  parse_nts_loop buff (suc fuel) pos (t1 ∷ t0 ∷ l1 ∷ l0 ∷ rest) =
      let ext_len = (u16_of l1 l0 + 2 ^ 16 - 4) % 2 ^ 16 in
      let pos' = pos + 4 + min ext_len (length rest) in
      let contents = read_zeroed ext_len rest in
      let kind = type_from_wire (u16_of t1 t0) in
      let ext : NtpExtension = record { ext_type = kind; contents = contents } in
      let more = parse_nts_loop buff fuel pos' (drop ext_len rest) in
      if same_type kind nts_authenticator
      then open_authenticator buff pos' ext_len contents
      else (more >>= λ r. ok (ext ∷ r.0, r.1))
  parse_nts_loop buff (suc fuel) pos _ = err no_authenticator

  -- Each round reads four bytes at least, so a round for each byte is enough.
  unfoldable pub parse_nts_packet : Bytes → Outcome IoError NtsPacket
  parse_nts_packet buff = do
    header ← parse_packet_header buff
    r ← parse_nts_loop buff (suc (length buff)) 48 (drop 48 buff)
    ok (record { header = header; auth_exts = r.0; auth_enc_exts = r.1 })

  unfoldable pub serialize_nts_packet : Bytes → NtsPacket → Outcome IoError Bytes
  serialize_nts_packet nonce packet = do
    auth_exts ← serialize_extensions packet.auth_exts
    let buff = serialize_header packet.header ++ auth_exts
    plaintext ← serialize_extensions packet.auth_enc_exts
    let ciphertext = aead.seal key nonce buff plaintext
    res ←
        serialize_extensions
          (record { ext_type = nts_authenticator; contents = authenticator nonce ciphertext } ∷ [])
    ok (buff ++ res)
