-- ===== src/Ntp/Server/Cookies.antt =====
-- src/ntp/server/server.rs, `nts_response`: which extensions and cookies an answer has.
use cfnts.Base.{
  ℕ, suc, ◌+◌, ◌≤◌, List, [], ◌∷◌, ◌++◌, Bytes, true, false, some, All, All-append, inl, inr,
  Bool-cases, ok, length, length-append, ltb_false→le, leb, ◌&&◌, if◌then◌else◌, IsU32, arith, ◌≡◌,
  refl, ap,
}
use cfnts.Protocol.Types.{
  unique_identifier, nts_cookie, nts_cookie_placeholder, same_type, NtpPacketHeader, NtpExtension,
  NtsPacket,
}
use cfnts.Protocol.Extensions.RoundTrip.{wires}
use cfnts.Protocol.Aead.{Aead, IsAead}
use cfnts.Cookie.{cookie_size, NtsKeys, IsKeys, get_keyid, make_cookie, eat_cookie}
use cfnts.Cookie.RoundTrip.{get_keyid-make_cookie, length-make_cookie, eat_cookie-make_cookie}
use cfnts.KeyRotator.{KeyRotator, latest_key_value}
use cfnts.Ntp.Server.{
  takes_cookie, cookie_ext, cookie_under, fresh_cookie, answer_extensions, nts_response,
}

-- The unique identifiers among the extensions, and the number of the placeholders of 100 bytes or
-- more, the length of a cookie.
abbrev pub unique_ids : List NtpExtension → List NtpExtension
unique_ids [] = []
unique_ids (ext ∷ exts) =
    if same_type ext.ext_type unique_identifier then ext ∷ unique_ids exts else unique_ids exts

abbrev pub placeholders : List NtpExtension → ℕ
placeholders [] = 0
placeholders (ext ∷ exts) =
    if same_type ext.ext_type nts_cookie_placeholder && leb 100 (length ext.contents)
    then suc (placeholders exts)
    else placeholders exts

takes_cookie_lem :
    (ext : NtpExtension)
    → takes_cookie ext
      ≡ (same_type ext.ext_type nts_cookie_placeholder && leb 100 (length ext.contents))
unfolding takes_cookie
takes_cookie_lem ext = ground arith

takes_cookie-long :
    (ext : NtpExtension) → takes_cookie ext ≡ true → cookie_size ≤ length ext.contents
unfolding takes_cookie same_type
takes_cookie-long ext h = ground (arith, ltb_false→le (length ext.contents) cookie_size)

-- A unique identifier is no placeholder.
takes_cookie_unique :
    (ext : NtpExtension)
    → same_type ext.ext_type unique_identifier ≡ true
    → takes_cookie ext ≡ false
unfolding takes_cookie same_type
takes_cookie_unique ext h = ground arith

-- A cookie of the length that placeholders are compared with, with the given keys and identifier.
pub record IsFresh (aead : Aead) (keys : NtsKeys) (master_key : Bytes) (key_id : ℕ)
    (ext : NtpExtension) : Type 0 where
  pub kind : ext.ext_type ≡ nts_cookie
  pub size : length ext.contents ≡ cookie_size
  pub eaten : eat_cookie aead ext.contents master_key ≡ some keys
  pub identifier : get_keyid ext.contents ≡ some key_id

module _ (aead : Aead) (sound : IsAead aead) (keys : NtsKeys) (k : IsKeys keys) (nonces : ℕ → Bytes)
    (sixteen : (n : ℕ) → length (nonces n) ≡ 16) (rotator : KeyRotator) (key_id : ℕ)
    (master_key : Bytes) (latest : latest_key_value rotator ≡ ok (key_id, master_key))
    (u32 : IsU32 key_id) where
  cookie : ℕ → Bytes
  cookie n = make_cookie aead (nonces n) keys master_key key_id

  fresh_cookie-ok : (n : ℕ) → fresh_cookie aead nonces keys rotator n ≡ ok (cookie n)
  unfolding fresh_cookie cookie_under cookie
  fresh_cookie-ok n = ap (cookie_under aead nonces keys rotator n) latest

  cookie-IsFresh : (n : ℕ) → IsFresh aead keys master_key key_id (cookie_ext (cookie n))
  unfolding cookie
  cookie-IsFresh n = record {
    kind = refl;
    size = length-make_cookie aead (nonces n) keys master_key key_id sound k (sixteen n);
    eaten = eat_cookie-make_cookie aead (nonces n) keys master_key key_id sound k (sixteen n);
    identifier = get_keyid-make_cookie aead (nonces n) keys master_key key_id u32;
  }

  -- What the loop makes of extensions.
  record Answered (query : List NtpExtension) (r : List NtpExtension × List NtpExtension)
      : Type 0 where
    ids : r.0 ≡ unique_ids query
    count : length r.1 ≡ placeholders query
    fresh : All (IsFresh aead keys master_key key_id) r.1
    small : length (wires r.0) + length (wires r.1) ≤ length (wires query)

  answer_extensions-Answered :
      (n : ℕ) (query : List NtpExtension)
      → (r : List NtpExtension × List NtpExtension) × (answer_extensions aead nonces keys rotator n
            query
          ≡ ok r)
        × Answered query r
  unfolding answer_extensions
  answer_extensions-Answered n [] =
      (([], []), refl, record { ids = refl; count = refl; fresh = tt; small = omega arith })
  answer_extensions-Answered n (ext ∷ exts) =
      elim (Bool-cases (same_type ext.ext_type unique_identifier)) [
        | inl id ↦
            let (r, e, a) = answer_extensions-Answered n exts in
            (
              (ext ∷ r.0, r.1),
              rw (id, e) refl,
              record {
                ids = rw (id, a.ids) refl;
                count = rw (← takes_cookie_lem ext, takes_cookie_unique ext id) a.count;
                fresh = a.fresh;
                small = omega (
                  arith,
                  a.small,
                  length-append ext.contents (wires r.0),
                  length-append ext.contents (wires exts),
                );
              },
            )
        | inr other ↦ elim (Bool-cases (takes_cookie ext)) [
          | inl takes ↦
              let (r, e, a) = answer_extensions-Answered (n + 1) exts in
              (
                (r.0, cookie_ext (cookie n) ∷ r.1),
                rw (other, takes, fresh_cookie-ok n, e) refl,
                record {
                  ids = rw (other, a.ids) refl;
                  count = rw (← takes_cookie_lem ext, takes) (omega (arith, a.count));
                  fresh = (cookie-IsFresh n, a.fresh);
                  small = omega (
                    arith,
                    a.small,
                    (cookie-IsFresh n).size,
                    takes_cookie-long ext takes,
                    length-append (cookie n) (wires r.1),
                    length-append ext.contents (wires exts),
                  );
                },
              )
          | inr skips ↦
              let (r, e, a) = answer_extensions-Answered n exts in
              (
                r,
                rw (other, skips, e) refl,
                record {
                  ids = rw (other, a.ids) refl;
                  count = rw (← takes_cookie_lem ext, skips) a.count;
                  fresh = a.fresh;
                  small = omega (arith, a.small, length-append ext.contents (wires exts));
                },
              )
        ]
      ]

  -- With a latest key that is a `u32` in the rotator, an AEAD that is sound, keys of 32 bytes and nonces
  -- of 16, `nts_response` does return a packet. It repeats the authenticated unique identifiers of
  -- the query, and no other extension. It seals one cookie for each placeholder of 100
  -- bytes or more, and one more, each of them fresh: 100 bytes that carry the keys of this exchange under
  -- the latest key. So its extensions have at most 104 bytes more than those of the query.
  pub nts_response-cookies :
      (transmitted : ℕ) (header : NtpPacketHeader) (query : NtsPacket)
      → (resp : NtsPacket) × (nts_response aead nonces keys rotator transmitted header query
          ≡ ok resp)
        × (resp.header ≡ record header { transmit_timestamp = transmitted })
        × (resp.auth_exts ≡ unique_ids query.auth_exts)
        × (length resp.auth_enc_exts ≡ placeholders query.auth_exts + 1)
        × All (IsFresh aead keys master_key key_id) resp.auth_enc_exts
        × (length (wires resp.auth_exts) + length (wires resp.auth_enc_exts)
            ≤ length (wires query.auth_exts) + 104)
  unfolding nts_response
  nts_response-cookies transmitted header query =
      let (r, e, a) = answer_extensions-Answered 1 query.auth_exts in
      let last = cookie_ext (cookie 0) in
      (
        record {
          header = record header { transmit_timestamp = transmitted };
          auth_exts = r.0;
          auth_enc_exts = r.1 ++ (last ∷ []);
        },
        rw (e, fresh_cookie-ok 0) refl,
        refl,
        a.ids,
        omega (arith, a.count, length-append r.1 (last ∷ [])),
        All-append (IsFresh aead keys master_key key_id) r.1 (last ∷ []) a.fresh
            (cookie-IsFresh 0, tt),
        omega (arith, a.small, (cookie-IsFresh 0).size, wires-last r.1 last),
      )
    where
      wires-last :
          (exts : List NtpExtension) (ext : NtpExtension)
          → length (wires (exts ++ (ext ∷ []))) ≡ length (wires exts) + length ext.contents + 4
      wires-last [] ext = omega (arith, length-append ext.contents [])
      wires-last (x ∷ xs) ext = omega (
        arith,
        wires-last xs ext,
        length-append x.contents (wires xs),
        length-append x.contents (wires (xs ++ (ext ∷ []))),
      )
