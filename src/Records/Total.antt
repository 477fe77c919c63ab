-- ===== src/Records/Total.antt =====
-- src/nts_ke/records/mod.rs: when `deserialize` returns, and which record types it confuses.
use cfnts.Base.{
  ℕ, ◌+◌, ◌*◌, ◌/◌, ◌%◌, ◌≤◌, ◌≡◌, refl, ◌∙◌, [], ◌∷◌, Bytes, Bool, IsSettled, u16_of, length, take,
  ◌==◌, bit_and, arith, le→ltb_false, check_under, check_under_sound, ==→eq, IsU8,
}
use cfnts.Records.Types.{Party, Net}
use cfnts.Records.Bodies.{
  protocol_words, algorithm_words, error_from_bytes, warning_from_bytes, port_from_bytes,
}
use cfnts.Records.Wire.{deserialize_body, deserialize}

protocol_words-IsSettled : (bytes : Bytes) → IsSettled (protocol_words bytes)
unfolding protocol_words
protocol_words-IsSettled (a ∷ b ∷ rest) = ground (arith, protocol_words-IsSettled rest)
protocol_words-IsSettled _ = tt

algorithm_words-IsSettled : (bytes : Bytes) → IsSettled (algorithm_words bytes)
unfolding algorithm_words
algorithm_words-IsSettled (a ∷ b ∷ rest) = ground (arith, algorithm_words-IsSettled rest)
algorithm_words-IsSettled _ = tt

error-IsSettled : (body : Bytes) → IsSettled (error_from_bytes body)
unfolding error_from_bytes
error-IsSettled body = ground arith

warning-IsSettled : (body : Bytes) → IsSettled (warning_from_bytes body)
unfolding warning_from_bytes
warning-IsSettled body = ground arith

port-IsSettled : (party : Party) (body : Bytes) → IsSettled (port_from_bytes party body)
unfolding port_from_bytes
port-IsSettled party body = ground arith

module _ (net : Net) (party : Party) where
  deserialize_body-IsSettled :
      (is_critical : Bool) (type_ : ℕ) (body : Bytes)
      → IsSettled (deserialize_body net party is_critical type_ body)
  unfolding deserialize_body
  deserialize_body-IsSettled is_critical type_ body = ground (
    arith,
    protocol_words-IsSettled body,
    algorithm_words-IsSettled body,
    error-IsSettled body,
    warning-IsSettled body,
    port-IsSettled party body,
  )

  -- On an input with a header and the whole body that the header announces, `deserialize` returns
  -- a record or an error: it does not panic.
  pub deserialize-IsSettled :
      (b0 b1 b2 b3 : ℕ) (rest : Bytes)
      → u16_of b2 b3 ≤ length rest
      → IsSettled (deserialize net party (b0 ∷ b1 ∷ b2 ∷ b3 ∷ rest))
  unfolding deserialize
  deserialize-IsSettled b0 b1 b2 b3 rest h = rw (le→ltb_false (length rest) (u16_of b2 b3) h) (
      deserialize_body-IsSettled (b0 / 128 == 1) (u16_of (bit_and b0 0x7) b1)
        (take (u16_of b2 b3) rest))

  low_three : (b : ℕ) → IsU8 b → bit_and b 0x7 ≡ b % 8
  low_three b h =
      ==→eq _ _
        (check_under_sound (λ b. bit_and b 0x7 == b % 8) 256 {k = b} h (unfold check_under in refl))

  -- The record type that is read is the one on the wire modulo 2048, where the first byte is
  -- below 256: of the 15 bits of the record type the upper four are ignored, so that a record of
  -- an unknown type passes for a known one.
  pub deserialize-alias :
      (b0 b1 : ℕ) (rest : Bytes)
      → IsU8 b0
      → deserialize net party (b0 ∷ b1 ∷ rest)
        ≡ deserialize net party ((b0 / 128 * 128 + b0 % 8) ∷ b1 ∷ rest)
  unfolding deserialize
  deserialize-alias b0 b1 [] h = refl
  deserialize-alias b0 b1 (b2 ∷ []) h = refl
  deserialize-alias b0 b1 (b2 ∷ b3 ∷ rest) h =
      let same : bit_and (b0 / 128 * 128 + b0 % 8) 0x7 ≡ b0 % 8 =
        low_three (b0 / 128 * 128 + b0 % 8) (omega arith) ∙ omega arith in
      let top : (b0 / 128 * 128 + b0 % 8) / 128 ≡ b0 / 128 = omega arith in
      rw (same, top, low_three b0 h) refl
