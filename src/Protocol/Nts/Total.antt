-- ===== src/Protocol/Nts/Total.antt =====
-- src/ntp/protocol.rs: when `parse_nts_packet` returns, and the input on which it panics.
use cfnts.Base.{
  ℕ, zero, suc, ◌+◌, ◌-◌, ◌/◌, ◌%◌, ◌^◌, ◌<◌, ◌≤◌, ◌≡◌, refl, List, [], ◌∷◌, ◌++◌, append_assoc,
  arith, Bytes, panic, IsSettled, bind-IsSettled, IsEnded, bind-IsEnded, IsSettled-IsEnded, u16_of,
  length, ltb, true, drop, min, All, length-drop, length-append, drop-append, Bool-cases, inl, inr,
  take, Option, some, none, le→ltb_false, lt→ltb,
}
use cfnts.Protocol.Types.{
  NtpExtension, NtpPacketHeader, IsHeader, nts_authenticator, type_from_wire, same_type,
}
use cfnts.Protocol.Header.{
  serialize_header, parse-serialize_header, length-serialize_header, parse_packet_header-IsSettled,
}
use cfnts.Protocol.Extensions.RoundTrip.{wire, wires, length-wires}
use cfnts.Protocol.Extensions.Total.{parse_extensions-IsSettled}
use cfnts.Protocol.Aead.{Aead}
use cfnts.Protocol.Nts.{
  pad_len, opened, parse_decrypt_auth_ext, open_authenticator, parse_nts_loop, parse_nts_packet,
}
use cfnts.Protocol.Nts.Wires.{IsPlain, parse_nts_loop-wire}

-- Every extension, up to the end or an incomplete header, has a length field of 4 at least and is
-- there in full.
pub data IsWhole : Bytes → Type 0 where
  nothing : IsWhole []
  one : {a : ℕ} → IsWhole (a ∷ [])
  two : {a b : ℕ} → IsWhole (a ∷ b ∷ [])
  three : {a b c : ℕ} → IsWhole (a ∷ b ∷ c ∷ [])
  extension :
      {t1 t0 l1 l0 : ℕ} {rest : Bytes} (n : ℕ)
      → u16_of l1 l0 ≡ n + 4
      → n + 4 < 2 ^ 16
      → n ≤ length rest
      → IsWhole (drop n rest)
      → IsWhole (t1 ∷ t0 ∷ l1 ∷ l0 ∷ rest)

module _ (aead : Aead) (key : Bytes) where
  opened-IsSettled : (o : Option Bytes) → IsSettled (opened o)
  unfolding opened
  opened-IsSettled none = tt
  opened-IsSettled (some p) = tt

  parse_decrypt-IsSettled :
      (dat contents : Bytes) → IsSettled (parse_decrypt_auth_ext aead key dat contents)
  unfolding parse_decrypt_auth_ext
  parse_decrypt-IsSettled dat (n1 ∷ n0 ∷ c1 ∷ c0 ∷ body) =
      let n = u16_of n1 n0 in
      let c = u16_of c1 c0 in
      let total = n + pad_len n + (c + pad_len c) + 4 in
      elim (Bool-cases (ltb (length (n1 ∷ n0 ∷ c1 ∷ c0 ∷ body)) total)) [
        | inl over ↦ rw over tt
        | inr within ↦ rw within (
            opened-IsSettled
              (aead.unseal key (take n body) dat (take c (drop (n + pad_len n) body))))
      ]
  parse_decrypt-IsSettled dat _ = tt

  open_authenticator-IsSettled :
      (buff : Bytes) (pos len : ℕ) (contents : Bytes)
      → 4 + len ≤ pos
      → IsSettled (open_authenticator aead key buff pos len contents)
  unfolding open_authenticator
  open_authenticator-IsSettled buff pos len contents h = rw (le→ltb_false pos (4 + len) h) (
      bind-IsSettled _ _ (parse_decrypt-IsSettled (take (pos - 4 - len) buff) contents)
        λ d. bind-IsSettled _ _ (parse_extensions-IsSettled d) λ e. tt)

  open_authenticator-IsEnded :
      (buff : Bytes) (pos len : ℕ) (contents : Bytes)
      → IsEnded (open_authenticator aead key buff pos len contents)
  unfolding open_authenticator
  open_authenticator-IsEnded buff pos len contents = elim (Bool-cases (ltb pos (4 + len))) [
    | inl early ↦ rw early tt
    | inr late ↦
        IsSettled-IsEnded (open_authenticator aead key buff pos len contents)
          (open_authenticator-IsSettled buff pos len contents (ground (arith, late)))
  ]

  parse_nts_loop-IsEnded :
      (buff : Bytes) (fuel pos : ℕ) (rest : Bytes)
      → length rest < fuel
      → IsEnded (parse_nts_loop aead key buff fuel pos rest)
  unfolding parse_nts_loop
  parse_nts_loop-IsEnded buff zero pos rest h = absurd (omega arith)
  parse_nts_loop-IsEnded buff (suc fuel) pos (t1 ∷ t0 ∷ l1 ∷ l0 ∷ rest) h =
      let n = (u16_of l1 l0 + 2 ^ 16 - 4) % 2 ^ 16 in
      elim (Bool-cases (same_type (type_from_wire (u16_of t1 t0)) nts_authenticator)) [
        | inl last ↦ rw last (open_authenticator-IsEnded buff _ _ _)
        | inr plain ↦ rw plain (
            bind-IsEnded _ _
              (parse_nts_loop-IsEnded buff fuel (pos + 4 + min n (length rest)) (drop n rest)
                (omega (arith, length-drop n rest)))
              (λ r. tt))
      ]
  parse_nts_loop-IsEnded buff (suc fuel) pos _ h = tt

  parse_nts_loop-IsSettled :
      (buff : Bytes) (fuel pos : ℕ) {rest : Bytes}
      → IsWhole rest
      → length rest < fuel
      → IsSettled (parse_nts_loop aead key buff fuel pos rest)
  unfolding parse_nts_loop
  parse_nts_loop-IsSettled buff zero pos w h = absurd (omega arith)
  parse_nts_loop-IsSettled buff (suc fuel) pos nothing h = tt
  parse_nts_loop-IsSettled buff (suc fuel) pos one h = tt
  parse_nts_loop-IsSettled buff (suc fuel) pos two h = tt
  parse_nts_loop-IsSettled buff (suc fuel) pos three h = tt
  parse_nts_loop-IsSettled buff (suc fuel) pos
        (extension {t1} {t0} {l1} {l0} {rest} n len small fits w) h =
      let back : (u16_of l1 l0 + 2 ^ 16 - 4) % 2 ^ 16 ≡ n = omega arith in
      let reads : min n (length rest) ≡ n = omega arith in
      rw (back, reads)
        (elim (Bool-cases (same_type (type_from_wire (u16_of t1 t0)) nts_authenticator)) [
          | inl last ↦ rw last (open_authenticator-IsSettled buff _ n _ (omega arith))
          | inr plain ↦ rw plain (
              bind-IsSettled _ _
                (parse_nts_loop-IsSettled buff fuel (pos + 4 + n) w
                  (omega (arith, length-drop n rest)))
                (λ r. tt))
        ])

  -- Where every extension is there in full, `parse_nts_packet` returns a packet or an error.
  pub parse_nts_packet-IsSettled :
      (buff : Bytes) → IsWhole (drop 48 buff) → IsSettled (parse_nts_packet aead key buff)
  unfolding parse_nts_packet
  parse_nts_packet-IsSettled buff w =
      bind-IsSettled _ _ (parse_packet_header-IsSettled buff) λ header.
        bind-IsSettled _ _
          (parse_nts_loop-IsSettled buff (suc (length buff)) 48 w
            (omega (arith, length-drop 48 buff)))
          λ r. tt

  -- On every input the loop of `parse_nts_packet` comes to an end.
  pub parse_nts_packet-IsEnded : (buff : Bytes) → IsEnded (parse_nts_packet aead key buff)
  unfolding parse_nts_packet
  parse_nts_packet-IsEnded buff =
      bind-IsEnded _ _ (IsSettled-IsEnded _ (parse_packet_header-IsSettled buff)) λ header.
        bind-IsEnded _ _
          (parse_nts_loop-IsEnded buff (suc (length buff)) 48 (drop 48 buff)
            (omega (arith, length-drop 48 buff)))
          λ r. tt

-- The head of an authenticator extension whose length field promises `len` bytes.
abbrev pub cut_authenticator : ℕ → Bytes → Bytes
cut_authenticator len body = 4 ∷ 4 ∷ (len / 256 % 256) ∷ (len % 256) ∷ body

module _ (aead : Aead) (key buff : Bytes) where
  parse_nts_loop-cut :
      (fuel pos len : ℕ) (body : Bytes)
      → 4 ≤ len
      → len < 2 ^ 16
      → pos + length body + 4 < len
      → parse_nts_loop aead key buff (suc fuel) pos (cut_authenticator len body) ≡ panic
  unfolding parse_nts_loop open_authenticator type_from_wire same_type
  parse_nts_loop-cut fuel pos len body lo hi short =
      let back : (u16_of (len / 256 % 256) (len % 256) + 2 ^ 16 - 4) % 2 ^ 16 ≡ len - 4 =
        omega arith in
      let early : ltb (pos + 4 + min (len - 4) (length body)) (4 + (len - 4)) ≡ true =
        lt→ltb _ _ (omega arith) in
      rw (back, early) refl

  parse_nts_loop-cut_behind :
      (exts : List NtpExtension) (fuel pos len : ℕ) (body : Bytes)
      → All IsPlain exts
      → length exts ≤ fuel
      → 4 ≤ len
      → len < 2 ^ 16
      → pos + length (wires exts) + length body + 4 < len
      → parse_nts_loop aead key buff (suc fuel) pos (wires exts ++ cut_authenticator len body)
        ≡ panic
  parse_nts_loop-cut_behind [] fuel pos len body h k lo hi short =
      parse_nts_loop-cut fuel pos len body lo hi (omega arith)
  parse_nts_loop-cut_behind (e ∷ es) zero pos len body h k lo hi short = absurd (omega arith)
  parse_nts_loop-cut_behind (e ∷ es) (suc fuel) pos len body (h, hs) k lo hi short =
      let shorter : pos + 4 + length e.contents + length (wires es) + length body + 4 < len =
        omega (arith, length-append e.contents (wires es)) in
      rw
        (
          append_assoc (wire e) (wires es) (cut_authenticator len body),
          parse_nts_loop-wire aead key buff e (suc fuel) pos
              (wires es ++ cut_authenticator len body) h.extension,
          h.not_authenticator,
          parse_nts_loop-cut_behind es fuel (pos + 4 + length e.contents) len body hs (omega arith)
              lo hi shorter,
        )
        refl

-- A packet that has, behind a header with values of the Rust types and extensions that the wire
-- format can hold and of which none is an authenticator, an authenticator whose length, a `u16`,
-- is longer than the whole packet, makes `parse_nts_packet` panic, whatever the AEAD and the
-- key.
pub parse_nts_packet-cut :
    (aead : Aead) (key : Bytes) (head : NtpPacketHeader) (exts : List NtpExtension) (len : ℕ)
    (body : Bytes)
    → IsHeader head
    → All IsPlain exts
    → 4 ≤ len
    → len < 2 ^ 16
    → 48 + length (wires exts) + length body + 4 < len
    → parse_nts_packet aead key
        (serialize_header head ++ (wires exts ++ cut_authenticator len body))
      ≡ panic
unfolding parse_nts_packet
parse_nts_packet-cut aead key head exts len body v plain lo hi short =
    let behind = wires exts ++ cut_authenticator len body in
    let buff = serialize_header head ++ behind in
    let fuel : length exts ≤ length buff = omega (
      arith,
      length-append (serialize_header head) behind,
      length-append (wires exts) (cut_authenticator len body),
      length-wires exts,
    ) in
    rw
      (
        parse-serialize_header head v behind,
        drop-append (serialize_header head) behind (length-serialize_header head),
        parse_nts_loop-cut_behind aead key buff exts (length buff) 48 len body plain fuel lo hi
            short,
      )
      refl
