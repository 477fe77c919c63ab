-- ===== src/Ntp/Server/Words.antt =====
-- src/ntp/protocol.rs: extensions whose contents are a number of words, which alone the serializer
-- takes, and which alone the parser of packets returns.
use cfnts.Base.{
  ℕ, zero, suc, ◌-◌, ◌%◌, ◌≤◌, List, [], ◌∷◌, ◌++◌, Bytes, false, some, not, All, inl, inr,
  Bool-cases, ok, bind-eq-ok, Ensures, Ensures-ok, bind-Ensures, if-Ensures, length, length-append,
  length-take, length-replicate, take, drop, replicate, ltb, u16_of, arith, ◌≡◌, refl, ◌==◌, eq→==,
  ==→eq, ltb_false→le, subst,
}
use cfnts.Protocol.Types.{NtpExtension, NtpExtensionType, type_from_wire, same_type}
use cfnts.Protocol.Extensions.RoundTrip.{wire}
use cfnts.Protocol.Header.{parse_packet_header}
use cfnts.Protocol.Extensions.{
  read_zeroed, parse_extensions_loop, parse_extensions, parse_ntp_packet, serialize_extensions,
  extract_extension,
}

abbrev pub IsWords : NtpExtension → Type 0
IsWords ext = length ext.contents % 4 ≡ 0

pub length-read_zeroed : (n : ℕ) (rest : Bytes) → length (read_zeroed n rest) ≡ n
unfolding read_zeroed
length-read_zeroed n rest = omega (
  arith,
  length-append (take n rest) (replicate (n - length rest) 0),
  length-take n rest,
  length-replicate {A = ℕ} (n - length rest) 0,
)

pub serialize_extensions-words :
    (exts : List NtpExtension)
    → All IsWords exts
    → (bytes : Bytes) × (serialize_extensions exts ≡ ok bytes)
unfolding serialize_extensions
serialize_extensions-words [] h = ([], refl)
serialize_extensions-words (ext ∷ exts) (w, h) =
    let (bytes, e) = serialize_extensions-words exts h in
    (wire ext ++ bytes, rw (eq→== (length ext.contents % 4) 0 w, e) refl)

pub extract_extension-IsWords :
    (exts : List NtpExtension) (kind : NtpExtensionType) {ext : NtpExtension}
    → All IsWords exts
    → extract_extension exts kind ≡ some ext
    → IsWords ext
unfolding extract_extension
extract_extension-IsWords [] kind h e = absurd cc
extract_extension-IsWords (x ∷ xs) kind {ext} (w, h) e =
    elim (Bool-cases (same_type x.ext_type kind)) [
      | inl same ↦ let x_is_ext : x ≡ ext = ground (arith, e, same) in subst IsWords x_is_ext w
      | inr other ↦ extract_extension-IsWords xs kind h (rw other at e)
    ]

-- What a turn of the loop that returned has seen.
pub parse_extensions_loop-ok :
    (fuel t1 t0 l1 l0 : ℕ) (rest : Bytes) {exts : List NtpExtension}
    → parse_extensions_loop (suc fuel) (t1 ∷ t0 ∷ l1 ∷ l0 ∷ rest) ≡ ok exts
    → (u16_of l1 l0 % 4 ≡ 0)
      × (4 ≤ u16_of l1 l0)
      × ((more : List NtpExtension) × (parse_extensions_loop fuel (drop (u16_of l1 l0 - 4) rest)
            ≡ ok more)
          × (exts
              ≡ record {
                ext_type = type_from_wire (u16_of t1 t0);
                contents = read_zeroed (u16_of l1 l0 - 4) rest;
              }
                ∷ more))
unfolding parse_extensions_loop
parse_extensions_loop-ok fuel t1 t0 l1 l0 rest {exts} h =
    let n = u16_of l1 l0 in
    elim (Bool-cases (n % 4 == 0)) [
      | inl even ↦ elim (Bool-cases (ltb n 4)) [
        | inl short ↦ absurd (let e = rw (even, short) at h in cc)
        | inr long ↦
            let (more, e, k) =
              bind-eq-ok (parse_extensions_loop fuel (drop (n - 4) rest)) _
                (rw (even, long) at h) in
            (==→eq _ 0 even, ltb_false→le n 4 long, (more, e, cc))
      ]
      | inr odd ↦ absurd (let e = rw odd at h in cc)
    ]

parse_extensions_loop-IsWords :
    (fuel : ℕ) (rest : Bytes) → Ensures (All IsWords) (parse_extensions_loop fuel rest)
unfolding parse_extensions_loop
parse_extensions_loop-IsWords (suc fuel) (t1 ∷ t0 ∷ l1 ∷ l0 ∷ rest) =
    let n = u16_of l1 l0 in
    let more = parse_extensions_loop fuel (drop (n - 4) rest) in
    if-Ensures (All IsWords) (not (n % 4 == 0)) _ _ (λ odd. tt)
      (λ even.
        if-Ensures (All IsWords) (ltb n 4) _ _ (λ short. tt)
          (λ long. bind-Ensures (All IsWords) more _ (λ exts e. (
            words n rest even (ltb_false→le n 4 long),
            Ensures-ok (All IsWords) more exts
                (parse_extensions_loop-IsWords fuel (drop (n - 4) rest)) e,
          ))))
  where
    words :
        (n : ℕ) (rest : Bytes)
        → not (n % 4 == 0) ≡ false
        → 4 ≤ n
        → length (read_zeroed (n - 4) rest) % 4 ≡ 0
    words n rest even long = ground (arith, length-read_zeroed (n - 4) rest)
parse_extensions_loop-IsWords zero rest = tt
parse_extensions_loop-IsWords (suc fuel) [] = tt
parse_extensions_loop-IsWords (suc fuel) (a ∷ []) = tt
parse_extensions_loop-IsWords (suc fuel) (a ∷ b ∷ []) = tt
parse_extensions_loop-IsWords (suc fuel) (a ∷ b ∷ c ∷ []) = tt

-- Every extension of a parsed packet is a number of words.
pub parse_ntp_packet-IsWords :
    (buff : Bytes) → Ensures (λ packet. All IsWords packet.exts) (parse_ntp_packet buff)
unfolding parse_ntp_packet parse_extensions
parse_ntp_packet-IsWords buff =
    bind-Ensures (λ packet. All IsWords packet.exts) (parse_packet_header buff) _
      (λ header _.
        bind-Ensures (λ packet. All IsWords packet.exts) (parse_extensions (drop 48 buff)) _
          (λ exts e.
            Ensures-ok (All IsWords) (parse_extensions (drop 48 buff)) exts
              (parse_extensions_loop-IsWords (suc (length (drop 48 buff))) (drop 48 buff)) e))
