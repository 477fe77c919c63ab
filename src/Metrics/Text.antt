-- ===== src/Metrics/Text.antt =====
-- src/metrics.rs: the texts that `read_line` takes, which are those that UTF-8 encodes.
use cfnts.Base.{
  ℕ, ◌+◌, ◌/◌, ◌%◌, ◌<◌, ◌≤◌, List, [], ◌∷◌, ◌++◌, append_assoc, Bytes, true, Bool-cases, leb, ltb,
  ◌==◌, if◌then◌else◌, All, arith, ltb→lt, ltb_false→le, ==→eq, ◌≡◌, ◌⊎◌, inl, inr, refl, ◌∙◌,
}
use cfnts.Metrics.{longer, lead_of, between, boundary, inside, next_state, after_byte, utf8_from}

-- A Unicode scalar value.
abbrev pub IsScalar : ℕ → Type 0
IsScalar c = (c < 0xD800) ⊎ ((0xE000 ≤ c) × (c < 0x110000))

-- The bytes of a character, and of a text.
abbrev pub encode_char : ℕ → Bytes
encode_char c =
    if ltb c 0x80
    then c ∷ []
    else if ltb c 0x800
    then (0xC0 + c / 64) ∷ (0x80 + c % 64) ∷ []
    else if ltb c 0x10000
    then (0xE0 + c / 4096) ∷ (0x80 + c / 64 % 64) ∷ (0x80 + c % 64) ∷ []
    else (0xF0 + c / 262144) ∷ (0x80 + c / 4096 % 64) ∷ (0x80 + c / 64 % 64) ∷ (0x80 + c % 64) ∷ []

abbrev pub encode : List ℕ → Bytes
encode [] = []
encode (c ∷ cs) = encode_char c ++ encode cs

between_lem : (low high b : ℕ) → low ≤ b → b ≤ high → between low high b ≡ true
between_lem low high b l h = ground arith

follows :
    (low high more b : ℕ) (rest : Bytes)
    → low ≤ b
    → b ≤ high
    → utf8_from (inside low high more) (b ∷ rest) ≡ utf8_from (after_byte more) rest
unfolding utf8_from next_state
follows low high more b rest l h = rw (between_lem low high b l h) refl

-- The first two bytes of a character.
record Begins (lead second more : ℕ) : Type 0 where
  low : ℕ
  high : ℕ
  leads : lead_of lead ≡ longer low high more
  from : low ≤ second
  to : second ≤ high

begins :
    (lead second more : ℕ) (rest : Bytes)
    → Begins lead second more
    → utf8_from boundary (lead ∷ second ∷ rest) ≡ utf8_from (after_byte more) rest
unfolding utf8_from next_state
begins lead second more rest b = rw (b.leads, between_lem b.low b.high second b.from b.to) refl

two-Begins : (c : ℕ) → 0x80 ≤ c → c < 0x800 → Begins (0xC0 + c / 64) (0x80 + c % 64) 0
unfolding lead_of
two-Begins c l h = record {
  low = 0x80;
  high = 0xBF;
  leads = ground arith;
  from = omega arith;
  to = omega arith;
}

three-Begins :
    (c : ℕ) → IsScalar c → 0x800 ≤ c → c < 0x10000 → Begins (0xE0 + c / 4096) (0x80 + c / 64 % 64) 1
unfolding lead_of
three-Begins c s l h = elim (Bool-cases (c / 4096 == 0)) [
  | inl e ↦
      let first = ==→eq (c / 4096) 0 e in
      record {
        low = 0xA0;
        high = 0xBF;
        leads = rw first refl;
        from = omega (arith, first);
        to = omega arith;
      }
  | inr e ↦ elim (Bool-cases (c / 4096 == 13)) [
    | inl k ↦
        let last = ==→eq (c / 4096) 13 k in
        record {
          low = 0x80;
          high = 0x9F;
          leads = rw last refl;
          from = omega arith;
          to = grind (arith, last);
        }
    | inr k ↦ record {
      low = 0x80;
      high = 0xBF;
      leads = ground arith;
      from = omega arith;
      to = omega arith;
    }
  ]
]

four-Begins :
    (c : ℕ) → 0x10000 ≤ c → c < 0x110000 → Begins (0xF0 + c / 262144) (0x80 + c / 4096 % 64) 2
unfolding lead_of
four-Begins c l h = elim (Bool-cases (c / 262144 == 0)) [
  | inl e ↦
      let first = ==→eq (c / 262144) 0 e in
      record {
        low = 0x90;
        high = 0xBF;
        leads = rw first refl;
        from = omega (arith, first);
        to = omega arith;
      }
  | inr e ↦ elim (Bool-cases (c / 262144 == 4)) [
    | inl k ↦
        let last = ==→eq (c / 262144) 4 k in
        record {
          low = 0x80;
          high = 0x8F;
          leads = rw last refl;
          from = omega arith;
          to = omega (arith, last);
        }
    | inr k ↦ record {
      low = 0x80;
      high = 0xBF;
      leads = ground arith;
      from = omega arith;
      to = omega arith;
    }
  ]
]

one-boundary :
    (c : ℕ) (rest : Bytes) → c < 0x80 → utf8_from boundary (c ∷ rest) ≡ utf8_from boundary rest
unfolding utf8_from next_state lead_of
one-boundary c rest h = let single_byte : leb c 0x7F ≡ true = ground arith in rw single_byte refl

IsScalar-lt : (c : ℕ) → IsScalar c → c < 0x110000
IsScalar-lt c (inl h) = omega (arith, h)
IsScalar-lt c (inr (l, h)) = h

-- The validation passes over a character.
utf8_from-encode_char :
    (c : ℕ) (rest : Bytes)
    → IsScalar c
    → utf8_from boundary (encode_char c ++ rest) ≡ utf8_from boundary rest
utf8_from-encode_char c rest s = elim (Bool-cases (ltb c 0x80)) [
  | inl a ↦ rw a (one-boundary c rest (ltb→lt c 0x80 a))
  | inr a ↦ elim (Bool-cases (ltb c 0x800)) [
    | inl b ↦
        rw (a, b)
          (begins (0xC0 + c / 64) (0x80 + c % 64) 0 rest
            (two-Begins c (ltb_false→le c 0x80 a) (ltb→lt c 0x800 b)))
    | inr b ↦ elim (Bool-cases (ltb c 0x10000)) [
      | inl d ↦
          rw (a, b, d)
            (begins (0xE0 + c / 4096) (0x80 + c / 64 % 64) 1 ((0x80 + c % 64) ∷ rest)
                (three-Begins c s (ltb_false→le c 0x800 b) (ltb→lt c 0x10000 d))
              ∙ follows 0x80 0xBF 0 (0x80 + c % 64) rest (omega arith) (omega arith))
      | inr d ↦
          rw (a, b, d)
            (begins (0xF0 + c / 262144) (0x80 + c / 4096 % 64) 2
                ((0x80 + c / 64 % 64) ∷ (0x80 + c % 64) ∷ rest)
                (four-Begins c (ltb_false→le c 0x10000 d) (IsScalar-lt c s))
              ∙ follows 0x80 0xBF 1 (0x80 + c / 64 % 64) ((0x80 + c % 64) ∷ rest) (omega arith)
                  (omega arith)
              ∙ follows 0x80 0xBF 0 (0x80 + c % 64) rest (omega arith) (omega arith))
    ]
  ]
]

-- It takes every text of scalar values, as UTF-8 encodes it.
pub utf8_from-encode :
    (cs : List ℕ) (rest : Bytes)
    → All IsScalar cs
    → utf8_from boundary (encode cs ++ rest) ≡ utf8_from boundary rest
utf8_from-encode [] rest h = refl
utf8_from-encode (c ∷ cs) rest (s, h) =
    rw (append_assoc (encode_char c) (encode cs) rest)
      (utf8_from-encode_char c (encode cs ++ rest) s ∙ utf8_from-encode cs rest h)
