-- ===== src/Cookie.antt =====
-- src/cookie.rs: cookies, which carry the session keys to the NTP server under the server's key.
-- The AEAD is a parameter, and the random nonce of a cookie is an argument.
pub mod RoundTrip
use cfnts.Base.{
  ℕ, ◌+◌, ◌*◌, ◌^◌, List, [], ◌∷◌, ◌++◌, Bytes, Option, some, none, length, take, drop, ltb, ◌==◌,
  if◌then◌else◌, not, u32_bytes, u32_of, ◌≡◌,
}
use cfnts.Protocol.Aead.{Aead}

abbrev pub cookie_size : ℕ
cookie_size = 100

-- Each key is an array of 32 bytes.
pub record NtsKeys : Type 0 where
  pub c2s : Bytes
  pub s2c : Bytes

pub record IsKeys (keys : NtsKeys) : Type 0 where
  pub length-c2s : length keys.c2s ≡ 32
  pub length-s2c : length keys.s2c ≡ 32

-- `aead.open(..)` on the result of which `unpack` is called.
unfoldable pub unpack : Bytes → Option NtsKeys
unpack pt =
    if not (length pt == 64) then none else some (record { c2s = take 32 pt; s2c = drop 32 pt })

unfoldable pub unpack_opened : Option Bytes → Option NtsKeys
unpack_opened none = none
unpack_opened (some buf) = unpack buf

unfoldable pub get_keyid : Bytes → Option ℕ
get_keyid (b3 ∷ b2 ∷ b1 ∷ b0 ∷ rest) = some (u32_of b3 b2 b1 b0)
get_keyid _ = none

module _ (aead : Aead) where
  -- The two loops fill the 64 bytes of the plaintext with the two arrays of 32.
  unfoldable pub make_cookie : Bytes → NtsKeys → Bytes → ℕ → Bytes
  make_cookie nonce keys master_key key_id =
      let plaintext = keys.c2s ++ keys.s2c in
      u32_bytes key_id ++ (nonce ++ aead.seal master_key nonce [] plaintext)

  unfoldable pub eat_cookie : Bytes → Bytes → Option NtsKeys
  unfolding unpack_opened unpack
  eat_cookie cookie key =
      if ltb (length cookie) 40
      then none
      else (let ciphertext = drop 4 cookie in
          unpack_opened (aead.unseal key (take 16 ciphertext) [] (drop 16 ciphertext)))
