-- ===== src/Ntp/Server/Settled.antt =====
-- src/ntp/protocol.rs and src/ntp/server/server.rs: the parts of an answer are serialised.
use cfnts.Base.{
  ℕ, zero, suc, ◌+◌, ◌-◌, ◌%◌, ◌^◌, min, List, [], ◌∷◌, ◌++◌, Bytes, Bool, true, false, Option,
  some, none, All, inl, inr, Bool-cases, Outcome, ok, bind-eq-ok, Ensures, Ensures-ok, bind-Ensures,
  if-Ensures, IsSettled, length, length-append, length-replicate, take, drop, replicate, ltb,
  if◌then◌else◌, u16_of, arith, ◌≡◌, refl, subst,
}
use cfnts.Protocol.Types.{
  NtpExtension, NtpExtensionType, NtpPacket, NtsPacket, unique_identifier, nts_cookie,
  nts_authenticator, type_from_wire, same_type,
}
use cfnts.Protocol.Header.{parse_packet_header, serialize_header}
use cfnts.Protocol.Extensions.{
  read_zeroed, parse_extensions_loop, parse_extensions, parse_ntp_packet, serialize_ntp_packet,
  has_extension, extract_extension, is_nts_packet,
}
use cfnts.Protocol.Aead.{Aead}
use cfnts.Protocol.Nts.{
  pad_len, authenticator, open_authenticator, parse_decrypt_auth_ext, parse_nts_loop,
  parse_nts_packet, serialize_nts_packet,
}
use cfnts.Protocol.Nts.Total.{IsWhole, nothing, one, two, three, extension}
use cfnts.Ntp.Server.{NtpCounters, option_list, kiss_of_death, send_kiss_of_death}
use cfnts.Ntp.Server.Words.{
  IsWords, length-read_zeroed, serialize_extensions-words, extract_extension-IsWords,
  parse_extensions_loop-ok,
}

-- The authenticated extensions of what the loop of `parse_nts_packet` returns.
abbrev ClearWords : List NtpExtension × List NtpExtension → Type 0
ClearWords r = All IsWords r.0

no_fuel : (rest : Bytes) {exts : List NtpExtension} → parse_extensions_loop zero rest ≡ ok exts → ⊥
unfolding parse_extensions_loop
no_fuel rest h = cc

module _ (aead : Aead) (key : Bytes) where
  open_authenticator-ClearWords :
      (buff : Bytes) (pos len : ℕ) (contents : Bytes)
      → Ensures ClearWords (open_authenticator aead key buff pos len contents)
  unfolding open_authenticator
  open_authenticator-ClearWords buff pos len contents =
      if-Ensures ClearWords (ltb pos (4 + len)) _ _ (λ _. tt)
        (λ _.
          bind-Ensures ClearWords
            (parse_decrypt_auth_ext aead key (take (pos - 4 - len) buff) contents) _
            (λ d _. bind-Ensures ClearWords (parse_extensions d) _ (λ e _. tt)))

  -- The two parsers cut the extensions in the same way, and the first one wants whole words.
  parse_nts_loop-ClearWords :
      (buff : Bytes) (fuel fuel' pos : ℕ) {rest : Bytes} {exts : List NtpExtension}
      → IsWhole rest
      → parse_extensions_loop fuel' rest ≡ ok exts
      → Ensures ClearWords (parse_nts_loop aead key buff fuel pos rest)
  unfolding parse_nts_loop
  parse_nts_loop-ClearWords buff zero fuel' pos w h = tt
  parse_nts_loop-ClearWords buff (suc fuel) fuel' pos nothing h = tt
  parse_nts_loop-ClearWords buff (suc fuel) fuel' pos one h = tt
  parse_nts_loop-ClearWords buff (suc fuel) fuel' pos two h = tt
  parse_nts_loop-ClearWords buff (suc fuel) fuel' pos three h = tt
  parse_nts_loop-ClearWords buff (suc fuel) zero pos {rest} (extension n len small fits w) h =
      absurd (no_fuel rest h)
  parse_nts_loop-ClearWords buff (suc fuel) (suc fuel') pos
        (extension {t1} {t0} {l1} {l0} {rest} n len small fits w) h =
      let (even, long, (more, e, k)) = parse_extensions_loop-ok fuel' t1 t0 l1 l0 rest h in
      let cut : u16_of l1 l0 - 4 ≡ n = omega arith in
      let back : (u16_of l1 l0 + 2 ^ 16 - 4) % 2 ^ 16 ≡ n = omega arith in
      let rec = parse_nts_loop aead key buff fuel (pos + 4 + min n (length rest)) (drop n rest) in
      rw back (
        if-Ensures ClearWords (same_type (type_from_wire (u16_of t1 t0)) nts_authenticator) _ _
          (λ _.
            open_authenticator-ClearWords buff (pos + 4 + min n (length rest)) n
              (read_zeroed n rest))
          (λ _. bind-Ensures ClearWords rec _ (λ r q. (
            omega (arith, length-read_zeroed n rest),
            Ensures-ok ClearWords rec r
                (parse_nts_loop-ClearWords buff fuel fuel' (pos + 4 + min n (length rest)) w
                  (subst (λ m. parse_extensions_loop fuel' (drop m rest) ≡ ok more) cut e))
                q,
          ))))

  pub parse_nts_packet-IsWords :
      (buff : Bytes) {packet : NtpPacket}
      → IsWhole (drop 48 buff)
      → parse_ntp_packet buff ≡ ok packet
      → Ensures (λ p. All IsWords p.auth_exts) (parse_nts_packet aead key buff)
  unfolding parse_nts_packet parse_ntp_packet parse_extensions
  parse_nts_packet-IsWords buff w h =
      let (header, e, k) = bind-eq-ok (parse_packet_header buff) _ h in
      let (exts, q, j) = bind-eq-ok (parse_extensions (drop 48 buff)) _ k in
      let loop = parse_nts_loop aead key buff (suc (length buff)) 48 (drop 48 buff) in
      bind-Ensures (λ p. All IsWords p.auth_exts) (parse_packet_header buff) _
        (λ header _.
          bind-Ensures (λ p. All IsWords p.auth_exts) loop _
            (λ r m.
              Ensures-ok ClearWords loop r
                (parse_nts_loop-ClearWords buff (suc (length buff)) (suc (length (drop 48 buff))) 48
                  w q)
                m))

  -- The contents of the authenticator are a number of words, for a nonce of 16 bytes.
  pub serialize_nts_packet-IsSettled :
      (nonce : Bytes) (packet : NtsPacket)
      → length nonce ≡ 16
      → All IsWords packet.auth_exts
      → All IsWords packet.auth_enc_exts
      → IsSettled (serialize_nts_packet aead key nonce packet)
  unfolding serialize_nts_packet
  serialize_nts_packet-IsSettled nonce packet n clear enc =
      let (a, e) = serialize_extensions-words packet.auth_exts clear in
      let (b, q) = serialize_extensions-words packet.auth_enc_exts enc in
      let ad = serialize_header packet.header ++ a in
      let ciphertext = aead.seal key nonce ad b in
      let contents = authenticator nonce ciphertext in
      let words : length contents % 4 ≡ 0 = omega (
        arith,
        length-append nonce (ciphertext ++ replicate (pad_len (length ciphertext)) 0),
        length-append ciphertext (replicate {A = ℕ} (pad_len (length ciphertext)) 0),
        length-replicate {A = ℕ} (pad_len (length ciphertext)) 0,
      ) in
      let (d, t) =
        serialize_extensions-words
          (record { ext_type = nts_authenticator; contents = contents } ∷ []) (words, tt) in
      rw (e, q, t) tt

-- A kiss of death is sent for every parsed packet.
extracted-IsWords :
    (o : Option NtpExtension)
    → ((ext : NtpExtension) → o ≡ some ext → IsWords ext)
    → All IsWords (option_list o)
extracted-IsWords none h = tt
extracted-IsWords (some ext) h = (h ext refl, tt)

kiss_of_death-IsWords :
    (packet : NtpPacket) → All IsWords packet.exts → All IsWords (kiss_of_death packet).exts
unfolding kiss_of_death
kiss_of_death-IsWords packet h = if-All (has_extension packet.exts unique_identifier) _ (
    extracted-IsWords (extract_extension packet.exts unique_identifier)
      (λ ext e. extract_extension-IsWords packet.exts unique_identifier h e))
  where
    if-All :
        (b : Bool) (exts : List NtpExtension)
        → All IsWords exts
        → All IsWords (if b then exts else [])
    if-All true exts h = h
    if-All false exts h = tt

pub send_kiss_of_death-IsSettled :
    (c : NtpCounters) (packet : NtpPacket)
    → All IsWords packet.exts
    → IsSettled (send_kiss_of_death c packet).1
unfolding send_kiss_of_death serialize_ntp_packet
send_kiss_of_death-IsSettled c packet h =
    let (bytes, e) =
      serialize_extensions-words (kiss_of_death packet).exts (kiss_of_death-IsWords packet h) in
    rw e tt

pub has-extract :
    (exts : List NtpExtension) (kind : NtpExtensionType)
    → has_extension exts kind ≡ true
    → (ext : NtpExtension) × (extract_extension exts kind ≡ some ext)
unfolding has_extension extract_extension
has-extract [] kind h = absurd cc
has-extract (ext ∷ exts) kind h = elim (Bool-cases (same_type ext.ext_type kind)) [
  | inl same ↦ (ext, rw same refl)
  | inr other ↦ let (found, e) = has-extract exts kind (rw other at h) in (found, rw other e)
]

pub nts_packet-cookie :
    (packet : NtpPacket) → is_nts_packet packet ≡ true → has_extension packet.exts nts_cookie ≡ true
unfolding is_nts_packet
nts_packet-cookie packet h = ground arith

pub if-IsSettled :
    {E A : Type 0} (b : Bool) (m n : NtpCounters × Outcome E A)
    → (b ≡ true → IsSettled m.1)
    → (b ≡ false → IsSettled n.1)
    → IsSettled (if b then m else n).1
if-IsSettled true m n h k = h refl
if-IsSettled false m n h k = k refl
