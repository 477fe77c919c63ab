-- ===== src/Protocol/Nts/Authentic.antt =====
-- src/ntp/protocol.rs: what a successful `parse_nts_packet` has checked.
use cfnts.Base.{
  ℕ, zero, suc, ◌+◌, ◌-◌, ◌%◌, ◌^◌, ◌≡◌, ◌≤◌, List, [], ◌∷◌, ◌++◌, arith, Bytes, ok, ok_inj,
  bind-eq-ok, u16_of, length, length-append, length-take, ltb, take, drop, take-append-drop,
  replicate, append-nil, append_assoc, refl, sym, ap, ◌∙◌, subst, min, true, Option, some,
  Bool-cases, inl, inr,
}
use cfnts.Protocol.Types.{NtpExtension, NtsPacket, nts_authenticator, type_from_wire, same_type}
use cfnts.Protocol.Header.{parse_packet_header}
use cfnts.Protocol.Extensions.{read_zeroed, parse_extensions}
use cfnts.Protocol.Aead.{Aead}
use cfnts.Protocol.Nts.{
  pad_len, opened, parse_decrypt_auth_ext, open_authenticator, parse_nts_loop, parse_nts_packet,
}

-- The extensions that stand one after the other in the bytes, each with the bytes of its type and
-- length and with all of its contents.
abbrev pub AreRead : List NtpExtension → Bytes → Type 0
AreRead [] raw = raw ≡ []
AreRead (ext ∷ exts) raw =
    (t1 t0 l1 l0 : ℕ) × (later : Bytes) × (raw ≡ t1 ∷ t0 ∷ l1 ∷ l0 ∷ (ext.contents ++ later))
    × (ext.ext_type ≡ type_from_wire (u16_of t1 t0))
    × (length ext.contents ≡ (u16_of l1 l0 + 2 ^ 16 - 4) % 2 ^ 16)
    × AreRead exts later

-- The bytes of an authenticator of length `len`, as far as they are there, with zeros for those that
-- are missing: the lengths, the nonce and the ciphertext, each of the two padded to words.
pub record IsAuthenticator (tail : Bytes) (len : ℕ) (body nonce ciphertext : Bytes) : Type 0 where
  pub t1 : ℕ
  pub t0 : ℕ
  pub l1 : ℕ
  pub l0 : ℕ
  pub starts : tail ≡ t1 ∷ t0 ∷ l1 ∷ l0 ∷ body
  pub kind : same_type (type_from_wire (u16_of t1 t0)) nts_authenticator ≡ true
  pub announced : len ≡ (u16_of l1 l0 + 2 ^ 16 - 4) % 2 ^ 16
  pub n1 : ℕ
  pub n0 : ℕ
  pub c1 : ℕ
  pub c0 : ℕ
  pub inner : Bytes
  pub contents : take len body ++ replicate (len - length body) 0 ≡ n1 ∷ n0 ∷ c1 ∷ c0 ∷ inner
  pub is_nonce : nonce ≡ take (u16_of n1 n0) inner
  pub is_ciphertext :
      ciphertext ≡ take (u16_of c1 c0) (drop (u16_of n1 n0 + pad_len (u16_of n1 n0)) inner)

-- Behind the first `pos` bytes of the buffer stand the extensions in the clear, and then the
-- authenticator. The AEAD opened its ciphertext under the key, with everything before the
-- authenticator as the associated data, less as many bytes as the authenticator is short of its length;
-- and the encrypted extensions are those of the plaintext.
pub record Opened (aead : Aead) (key buff : Bytes) (pos : ℕ) (rest : Bytes)
    (exts enc : List NtpExtension) : Type 0 where
  pub raw : Bytes
  pub tail : Bytes
  pub splits : rest ≡ raw ++ tail
  pub clear : AreRead exts raw
  pub len : ℕ
  pub body : Bytes
  pub nonce : Bytes
  pub ciphertext : Bytes
  pub authenticator : IsAuthenticator tail len body nonce ciphertext
  pub plaintext : Bytes
  pub opens :
      aead.unseal key nonce (take (pos + length raw - (len - length body)) buff) ciphertext
      ≡ some plaintext
  pub reads : parse_extensions plaintext ≡ ok enc

module _ (aead : Aead) (key : Bytes) where
  opened_some : (o : Option Bytes) {p : Bytes} → opened o ≡ ok p → o ≡ some p
  unfolding opened
  opened_some o h = ground arith

  -- What was decrypted, from the parts of the contents.
  record Decrypted (dat contents plaintext : Bytes) : Type 0 where
    n1 : ℕ
    n0 : ℕ
    c1 : ℕ
    c0 : ℕ
    inner : Bytes
    parts : contents ≡ n1 ∷ n0 ∷ c1 ∷ c0 ∷ inner
    opens :
        aead.unseal key
          (take (u16_of n1 n0) inner)
          dat
          (take (u16_of c1 c0) (drop (u16_of n1 n0 + pad_len (u16_of n1 n0)) inner))
        ≡ some plaintext

  parse_decrypt-Decrypted :
      (dat contents : Bytes) {p : Bytes}
      → parse_decrypt_auth_ext aead key dat contents ≡ ok p
      → Decrypted dat contents p
  unfolding parse_decrypt_auth_ext
  parse_decrypt-Decrypted dat [] h = cc
  parse_decrypt-Decrypted dat (a ∷ []) h = cc
  parse_decrypt-Decrypted dat (a ∷ b ∷ []) h = cc
  parse_decrypt-Decrypted dat (a ∷ b ∷ c ∷ []) h = cc
  parse_decrypt-Decrypted dat (n1 ∷ n0 ∷ c1 ∷ c0 ∷ body) h = record {
    n1 = n1;
    n0 = n0;
    c1 = c1;
    c0 = c0;
    inner = body;
    parts = refl;
    opens = ground arith;
  }

  open_authenticator-Opened :
      (buff : Bytes) (pos t1 t0 l1 l0 : ℕ) (body : Bytes)
      {r : List NtpExtension × List NtpExtension}
      → same_type (type_from_wire (u16_of t1 t0)) nts_authenticator ≡ true
      → (let len = (u16_of l1 l0 + 2 ^ 16 - 4) % 2 ^ 16 in
          open_authenticator aead key buff
            (pos + 4 + min len (length body))
            len
            (read_zeroed len body))
        ≡ ok r
      → Opened aead key buff pos (t1 ∷ t0 ∷ l1 ∷ l0 ∷ body) r.0 r.1
  unfolding open_authenticator read_zeroed
  open_authenticator-Opened buff pos t1 t0 l1 l0 body {r} kind h =
      let len = (u16_of l1 l0 + 2 ^ 16 - 4) % 2 ^ 16 in
      let pos' = pos + 4 + min len (length body) in
      let contents = read_zeroed len body in
      elim (Bool-cases (ltb pos' (4 + len))) [
        | inl short ↦ cc (rw short at h)
        | inr long ↦
            let dat = take (pos' - 4 - len) buff in
            let (data_, d, k) =
              bind-eq-ok (parse_decrypt_auth_ext aead key dat contents) _ (rw long at h) in
            let (enc, e, q) = bind-eq-ok (parse_extensions data_) _ k in
            let x = parse_decrypt-Decrypted dat contents d in
            let same : r ≡ ([], enc) = sym (ok_inj q) in
            let place : pos' - 4 - len ≡ pos + 0 - (len - length body) = omega arith in
            record {
              raw = [];
              tail = t1 ∷ t0 ∷ l1 ∷ l0 ∷ body;
              splits = refl;
              clear = rw same refl;
              len = len;
              body = body;
              nonce = take (u16_of x.n1 x.n0) x.inner;
              ciphertext =
                  take (u16_of x.c1 x.c0)
                    (drop (u16_of x.n1 x.n0 + pad_len (u16_of x.n1 x.n0)) x.inner);
              authenticator = record {
                t1 = t1;
                t0 = t0;
                l1 = l1;
                l0 = l0;
                starts = refl;
                kind = kind;
                announced = refl;
                n1 = x.n1;
                n0 = x.n0;
                c1 = x.c1;
                c0 = x.c0;
                inner = x.inner;
                contents = x.parts;
                is_nonce = refl;
                is_ciphertext = refl;
              };
              plaintext = data_;
              opens =
                  ap
                    (λ k. aead.unseal key (take (u16_of x.n1 x.n0) x.inner) (take k buff) (
                      take (u16_of x.c1 x.c0)
                        (drop (u16_of x.n1 x.n0 + pad_len (u16_of x.n1 x.n0)) x.inner)))
                    (sym place)
                  ∙ x.opens;
              reads =
                  e ∙ ap ok (ap (λ (r : List NtpExtension × List NtpExtension). r.1) (sym same));
            }
      ]

  -- Behind an extension that is not there in full the loop finds no authenticator.
  parse_nts_loop-whole :
      (buff : Bytes) (fuel pos n : ℕ) (rest : Bytes) {r : List NtpExtension × List NtpExtension}
      → parse_nts_loop aead key buff fuel pos (drop n rest) ≡ ok r
      → n ≤ length rest
  unfolding parse_nts_loop
  parse_nts_loop-whole buff fuel pos zero rest h = omega arith
  parse_nts_loop-whole buff zero pos (suc n) [] h = cc
  parse_nts_loop-whole buff (suc fuel) pos (suc n) [] h = cc
  parse_nts_loop-whole buff fuel pos (suc n) (b ∷ rest) h =
      omega (arith, parse_nts_loop-whole buff fuel pos n rest h)

  parse_nts_loop-Opened :
      (buff : Bytes) (fuel pos : ℕ) (rest : Bytes) {r : List NtpExtension × List NtpExtension}
      → parse_nts_loop aead key buff fuel pos rest ≡ ok r
      → Opened aead key buff pos rest r.0 r.1
  unfolding parse_nts_loop
  parse_nts_loop-Opened buff zero pos rest h = cc
  parse_nts_loop-Opened buff (suc fuel) pos [] h = cc
  parse_nts_loop-Opened buff (suc fuel) pos (a ∷ []) h = cc
  parse_nts_loop-Opened buff (suc fuel) pos (a ∷ b ∷ []) h = cc
  parse_nts_loop-Opened buff (suc fuel) pos (a ∷ b ∷ c ∷ []) h = cc
  parse_nts_loop-Opened buff (suc fuel) pos (t1 ∷ t0 ∷ l1 ∷ l0 ∷ rest) {r} h =
      elim (Bool-cases (same_type (type_from_wire (u16_of t1 t0)) nts_authenticator)) [
        | inl last ↦ open_authenticator-Opened buff pos t1 t0 l1 l0 rest last (rw last at h)
        | inr plain ↦
            let n = (u16_of l1 l0 + 2 ^ 16 - 4) % 2 ^ 16 in
            let contents = read_zeroed n rest in
            let ext : NtpExtension = record {
              ext_type = type_from_wire (u16_of t1 t0);
              contents = contents;
            } in
            let pos' = pos + 4 + min n (length rest) in
            let (q, m, e) =
              bind-eq-ok (parse_nts_loop aead key buff fuel pos' (drop n rest)) _ (rw plain at h) in
            let same : (ext ∷ q.0, q.1) ≡ r = ok_inj e in
            subst
              (λ (r : List NtpExtension × List NtpExtension).
                Opened aead key buff pos (t1 ∷ t0 ∷ l1 ∷ l0 ∷ rest) r.0 r.1)
              same
              (after_extension buff pos t1 t0 l1 l0 rest
                (parse_nts_loop-whole buff fuel pos' n rest m)
                (parse_nts_loop-Opened buff fuel pos' (drop n rest) m))
      ]
    where
      after_extension :
          (buff : Bytes) (pos t1 t0 l1 l0 : ℕ) (rest : Bytes) {exts enc : List NtpExtension}
          → (u16_of l1 l0 + 2 ^ 16 - 4) % 2 ^ 16 ≤ length rest
          → (let n = (u16_of l1 l0 + 2 ^ 16 - 4) % 2 ^ 16 in
              Opened aead key buff (pos + 4 + min n (length rest)) (drop n rest) exts enc)
          → Opened aead key buff pos
              (t1 ∷ t0 ∷ l1 ∷ l0 ∷ rest)
              (record {
                ext_type = type_from_wire (u16_of t1 t0);
                contents = read_zeroed ((u16_of l1 l0 + 2 ^ 16 - 4) % 2 ^ 16) rest;
              }
                ∷ exts)
              enc
      after_extension buff pos t1 t0 l1 l0 rest fits o =
          let n = (u16_of l1 l0 + 2 ^ 16 - 4) % 2 ^ 16 in
          let none_missing : n - length rest ≡ 0 = omega arith in
          let contents = read_zeroed n rest in
          let whole : contents ≡ take n rest =
            unfold read_zeroed in rw none_missing (append-nil (take n rest)) in
          let size : length contents ≡ n = ap length whole ∙ length-take n rest ∙ omega arith in
          let raw = t1 ∷ t0 ∷ l1 ∷ l0 ∷ (contents ++ o.raw) in
          let place : pos + 4 + min n (length rest) + length o.raw ≡ pos + length raw =
            omega (arith, size, length-append contents o.raw) in
          record {
            raw = raw;
            tail = o.tail;
            splits =
                ap (λ l. t1 ∷ t0 ∷ l1 ∷ l0 ∷ l)
                  (sym (take-append-drop n rest)
                    ∙ ap (λ l. l ++ drop n rest) (sym whole)
                    ∙ ap (λ l. contents ++ l) o.splits
                    ∙ sym (append_assoc contents o.raw o.tail));
            clear = (t1, t0, l1, l0, o.raw, refl, refl, size, o.clear);
            len = o.len;
            body = o.body;
            nonce = o.nonce;
            ciphertext = o.ciphertext;
            authenticator = o.authenticator;
            plaintext = o.plaintext;
            opens =
                ap
                  (λ k.
                    aead.unseal key o.nonce (take (k - (o.len - length o.body)) buff) o.ciphertext)
                  (sym place)
                ∙ o.opens;
            reads = o.reads;
          }

  -- A parsed NTS packet has the header that the buffer starts with. Behind the 48 bytes of a header
  -- stand the extensions in the clear, in full and in their order, and then the authenticator. The AEAD
  -- opened the ciphertext in it under the key, with its nonce and with the header and all of these
  -- extensions as the associated data, less as many bytes at their end as the authenticator is short
  -- of the length that it announces; and the encrypted extensions are those of the plaintext.
  pub parse_nts_packet-Opened :
      (buff : Bytes) {packet : NtsPacket}
      → parse_nts_packet aead key buff ≡ ok packet
      → (parse_packet_header buff ≡ ok packet.header)
        × Opened aead key buff 48 (drop 48 buff) packet.auth_exts packet.auth_enc_exts
  unfolding parse_nts_packet
  parse_nts_packet-Opened buff {packet} h =
      let (header, a, k) = bind-eq-ok (parse_packet_header buff) _ h in
      let (r, m, e) =
        bind-eq-ok (parse_nts_loop aead key buff (suc (length buff)) 48 (drop 48 buff)) _ k in
      let same : record { header = header; auth_exts = r.0; auth_enc_exts = r.1 } ≡ packet =
        ok_inj e in
      (
        ground (arith, a, e),
        subst
            (λ (p : NtsPacket). Opened aead key buff 48 (drop 48 buff) p.auth_exts p.auth_enc_exts)
            same (parse_nts_loop-Opened buff _ 48 (drop 48 buff) m),
      )
