-- ===== src/Cookie/RoundTrip.antt =====
-- src/cookie.rs: a cookie gives back the key identifier and the keys that it was made of.
use cfnts.Base.{
  ℕ, ◌≤◌, ◌≡◌, refl, sym, ap, [], ◌++◌, arith, Bytes, Option, some, none, length, take, drop, ltb,
  ◌==◌, IsU32, length-append, take-append, drop-append, le→ltb_false, eq→==, Bool-cases, inl, inr,
  length-take, length-drop, take-append-drop,
}
use cfnts.Protocol.Aead.{Aead, IsAead}
use cfnts.Cookie.{
  cookie_size, NtsKeys, IsKeys, unpack, unpack_opened, get_keyid, make_cookie, eat_cookie,
}

module _ (aead : Aead) (nonce : Bytes) (keys : NtsKeys) (master_key : Bytes) (key_id : ℕ) where
  -- The key identifier of a new cookie, a `u32`, is the one that it was made with.
  pub get_keyid-make_cookie :
      IsU32 key_id → get_keyid (make_cookie aead nonce keys master_key key_id) ≡ some key_id
  unfolding get_keyid make_cookie
  get_keyid-make_cookie h = ground arith

  -- With a sound AEAD, keys of 32 bytes and a nonce of 16, a new cookie has the length
  -- `COOKIE_SIZE` that the server compares placeholders with.
  pub length-make_cookie :
      IsAead aead
      → IsKeys keys
      → length nonce ≡ 16
      → length (make_cookie aead nonce keys master_key key_id) ≡ cookie_size
  unfolding make_cookie
  length-make_cookie sound k n =
      let sealed = aead.seal master_key nonce [] (keys.c2s ++ keys.s2c) in
      omega (
        arith,
        length-append nonce sealed,
        length-append keys.c2s keys.s2c,
        sound.length-seal master_key nonce [] (keys.c2s ++ keys.s2c),
        k.length-c2s,
        k.length-s2c,
      )

  -- With a sound AEAD, keys of 32 bytes and a nonce of 16, eating a new cookie under the key
  -- that it was made with gives the session keys back.
  pub eat_cookie-make_cookie :
      IsAead aead
      → IsKeys keys
      → length nonce ≡ 16
      → eat_cookie aead (make_cookie aead nonce keys master_key key_id) master_key ≡ some keys
  unfolding eat_cookie
  eat_cookie-make_cookie sound k n =
      let plain = keys.c2s ++ keys.s2c in
      let sealed = aead.seal master_key nonce [] plain in
      let len : length plain ≡ 64 =
        omega (arith, length-append keys.c2s keys.s2c, k.length-c2s, k.length-s2c) in
      let long : 40 ≤ length (make_cookie aead nonce keys master_key key_id) =
        omega (arith, length-make_cookie sound k n) in
      rw (le→ltb_false _ 40 long) (
        unfold make_cookie in
        rw
          (
            take-append nonce sealed n,
            drop-append nonce sealed n,
            sound.unseal-seal master_key nonce [] plain,
            eq→== _ 64 len,
            take-append keys.c2s keys.s2c k.length-c2s,
            drop-append keys.c2s keys.s2c k.length-c2s,
          )
          refl)

unpack-some :
    (pt : Bytes) {keys : NtsKeys}
    → unpack pt ≡ some keys
    → (pt ≡ keys.c2s ++ keys.s2c) × IsKeys keys
unfolding unpack
unpack-some pt {keys} h = elim (Bool-cases (length pt == 64)) [
  | inl full ↦
      let c : take 32 pt ≡ keys.c2s = ground (arith, rw full at h) in
      let s : drop 32 pt ≡ keys.s2c = ground (arith, rw full at h) in
      let len : length pt ≡ 64 = ground (arith, full) in
      (
        rw (← c, ← s) (sym (take-append-drop 32 pt)),
        record {
          length-c2s = rw (← c) (omega (arith, length-take 32 pt));
          length-s2c = rw (← s) (omega (arith, length-drop 32 pt));
        },
      )
  | inr short ↦ cc (rw short at h)
]

unpack_opened-some :
    (o : Option Bytes) {keys : NtsKeys}
    → unpack_opened o ≡ some keys
    → (o ≡ some (keys.c2s ++ keys.s2c)) × IsKeys keys
unfolding unpack_opened
unpack_opened-some none h = cc
unpack_opened-some (some buf) h = let (e, k) = unpack-some buf h in (ap some e, k)

-- A cookie that is eaten has 40 bytes at least; what stands behind its key identifier opens under
-- the key, with no associated data, to the two session keys of 32 bytes each.
pub eat_cookie-some :
    (aead : Aead) (cookie key : Bytes) {keys : NtsKeys}
    → eat_cookie aead cookie key ≡ some keys
    → (40 ≤ length cookie)
      × (aead.unseal key (take 16 (drop 4 cookie)) [] (drop 16 (drop 4 cookie))
          ≡ some (keys.c2s ++ keys.s2c))
      × IsKeys keys
unfolding eat_cookie
eat_cookie-some aead cookie key {keys} h = elim (Bool-cases (ltb (length cookie) 40)) [
  | inl short ↦ cc (rw short at h)
  | inr long ↦ let (o, k) = unpack_opened-some _ (rw long at h) in (ground (arith, long), o, k)
]
