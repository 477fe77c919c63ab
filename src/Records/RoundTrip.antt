-- ===== src/Records/RoundTrip.antt =====
-- src/nts_ke/records: a record that was serialised is deserialised to itself.
use cfnts.Base.{
  ℕ, ◌+◌, ◌*◌, ◌/◌, ◌%◌, ◌^◌, ◌<◌, ◌≡◌, refl, ap, List, [], ◌∷◌, ◌++◌, Bytes, true, false, some,
  none, ok, ◌>>=◌, u16_bytes, u16_of, u16_of-u16_bytes, IsU16, length, take-append, length-append,
  ltb, ◌==◌, if◌then◌else◌, bit_and, arith, le→ltb_false, lt→ltb,
}
use cfnts.Records.Types.{
  Party, client, server, KnownNextProtocol, ntpv4, KnownAeadAlgorithm, aead_aes_siv_cmac_256,
  unrecognized_critical_record, bad_request, dummy, Address, hostname, ipv4_addr, ipv6_addr,
  KeRecord, end_of_message, next_protocol, error_record, warning, aead_algorithm, new_cookie,
  server_record, port_record, Net,
}
use cfnts.Records.Bodies.{
  critical, record_type, record_len, into_bytes, into_string, try_u16, try_double, protocol_bytes,
  algorithm_bytes, protocol_words, algorithm_words, is_ascii, address_from, server_from_bytes,
}
use cfnts.Records.Wire.{serialize, deserialize_body, deserialize}

-- The text of an address is ASCII, is read as that address, and fits the length field.
abbrev pub IsAddress : Net → Address → Type 0
IsAddress net (hostname name) =
    (is_ascii name ≡ true)
    × (net.parse_ipv4 name ≡ none)
    × (net.parse_ipv6 name ≡ none)
    × (length name < 2 ^ 16)
IsAddress net (ipv4_addr a) =
    (is_ascii (net.show_ipv4 a) ≡ true)
    × (net.parse_ipv4 (net.show_ipv4 a) ≡ some a)
    × (length (net.show_ipv4 a) < 2 ^ 16)
IsAddress net (ipv6_addr a) =
    (is_ascii (net.show_ipv6 a) ≡ true)
    × (net.parse_ipv4 (net.show_ipv6 a) ≡ none)
    × (net.parse_ipv6 (net.show_ipv6 a) ≡ some a)
    × (length (net.show_ipv6 a) < 2 ^ 16)

-- The body fits the length field, a port is a `u16`, and a record that keeps its party has the
-- party that the reader takes as the sender.
abbrev pub IsRecord : Net → Party → KeRecord → Type 0
IsRecord net party (next_protocol ps) = length ps * 2 < 2 ^ 16
IsRecord net party (aead_algorithm as_) = length as_ * 2 < 2 ^ 16
IsRecord net party (new_cookie c) = length c < 2 ^ 16
IsRecord net party (server_record p a) = (p ≡ party) × IsAddress net a
IsRecord net party (port_record p port) = (p ≡ party) × IsU16 port
IsRecord net party _ = Unit {0}

length-protocol_bytes : (ps : List KnownNextProtocol) → length (protocol_bytes ps) ≡ length ps * 2
length-protocol_bytes [] = refl
length-protocol_bytes (p ∷ ps) = omega (arith, length-protocol_bytes ps)

length-algorithm_bytes :
    (as_ : List KnownAeadAlgorithm) → length (algorithm_bytes as_) ≡ length as_ * 2
length-algorithm_bytes [] = refl
length-algorithm_bytes (a ∷ as_) = omega (arith, length-algorithm_bytes as_)

protocol_words-protocol_bytes :
    (ps : List KnownNextProtocol) → protocol_words (protocol_bytes ps) ≡ ok ps
unfolding protocol_words
protocol_words-protocol_bytes [] = refl
protocol_words-protocol_bytes (ntpv4 ∷ ps) = rw (protocol_words-protocol_bytes ps) refl

algorithm_words-algorithm_bytes :
    (as_ : List KnownAeadAlgorithm) → algorithm_words (algorithm_bytes as_) ≡ ok as_
unfolding algorithm_words
algorithm_words-algorithm_bytes [] = refl
algorithm_words-algorithm_bytes (aead_aes_siv_cmac_256 ∷ as_) =
    rw (algorithm_words-algorithm_bytes as_) refl

try_u16-ok : {E : Type 0} (n : ℕ) → n < 2 ^ 16 → try_u16 {E = E} n ≡ ok n
unfolding try_u16
try_u16-ok n h = rw (lt→ltb n (2 ^ 16) h) refl

try_double-ok : {E : Type 0} (n : ℕ) → n * 2 < 2 ^ 16 → try_double {E = E} n ≡ ok (n * 2)
unfolding try_double try_u16
try_double-ok n h = rw (lt→ltb n (2 ^ 16) (omega arith), lt→ltb (n * 2) (2 ^ 16) h) refl

module _ (net : Net) (party : Party) where
  record_len-into_bytes :
      {E : Type 0} (r : KeRecord)
      → IsRecord net party r
      → record_len net {E = E} r ≡ ok (length (into_bytes net r))
  unfolding record_len
  record_len-into_bytes end_of_message h = refl
  record_len-into_bytes (next_protocol ps) h =
      rw (try_double-ok (length ps) h, length-protocol_bytes ps) refl
  record_len-into_bytes (error_record k) h = refl
  record_len-into_bytes (warning k) h = refl
  record_len-into_bytes (aead_algorithm as_) h =
      rw (try_double-ok (length as_) h, length-algorithm_bytes as_) refl
  record_len-into_bytes (new_cookie c) h = try_u16-ok (length c) h
  record_len-into_bytes (server_record p (hostname name)) (e, (a, v4, v6, small)) =
      try_u16-ok (length name) small
  record_len-into_bytes (server_record p (ipv4_addr x)) (e, (a, v4, small)) = ap ok (omega arith)
  record_len-into_bytes (server_record p (ipv6_addr x)) (e, (a, v4, v6, small)) =
      ap ok (omega arith)
  record_len-into_bytes (port_record p port) h = refl

  body_small : (r : KeRecord) → IsRecord net party r → length (into_bytes net r) < 2 ^ 16
  body_small end_of_message h = omega arith
  body_small (next_protocol ps) h = omega (arith, length-protocol_bytes ps)
  body_small (error_record k) h = omega arith
  body_small (warning k) h = omega arith
  body_small (aead_algorithm as_) h = omega (arith, length-algorithm_bytes as_)
  body_small (new_cookie c) h = h
  body_small (server_record p (hostname name)) h = h.1.3
  body_small (server_record p (ipv4_addr x)) h = h.1.2
  body_small (server_record p (ipv6_addr x)) h = h.1.3
  body_small (port_record p port) h = omega arith

  server_back :
      (a : Address)
      → IsAddress net a
      → server_from_bytes net party (into_string net a) ≡ ok (server_record party a)
  unfolding server_from_bytes
  server_back (hostname name) (ascii, v4, v6, small) =
      rw (ascii, v4, v6, server_from_bytes, address_from) refl
  server_back (ipv4_addr x) (ascii, v4, small) = rw (ascii, v4, address_from) refl
  server_back (ipv6_addr x) (ascii, v4, v6, small) = rw (ascii, v4, v6, address_from) refl

  deserialize_body-into_bytes :
      (r : KeRecord)
      → IsRecord net party r
      → deserialize_body net party (critical r) (record_type r) (into_bytes net r) ≡ ok r
  unfolding deserialize_body
  deserialize_body-into_bytes end_of_message h = refl
  deserialize_body-into_bytes (next_protocol ps) h =
      let even : length (protocol_bytes ps) % 2 ≡ 0 = omega (arith, length-protocol_bytes ps) in
      rw (even, protocol_words-protocol_bytes ps) refl
  deserialize_body-into_bytes (error_record unrecognized_critical_record) h = refl
  deserialize_body-into_bytes (error_record bad_request) h = refl
  deserialize_body-into_bytes (warning dummy) h = refl
  deserialize_body-into_bytes (aead_algorithm as_) h =
      let even : length (algorithm_bytes as_) % 2 ≡ 0 = omega (arith, length-algorithm_bytes as_) in
      rw (even, algorithm_words-algorithm_bytes as_) refl
  deserialize_body-into_bytes (new_cookie c) h = refl
  deserialize_body-into_bytes (server_record p a) (e, h) = rw e (rw (server_back a h) refl)
  deserialize_body-into_bytes (port_record p port) (e, h) = rw (e, u16_of-u16_bytes port h) refl

  -- The first two bytes of a serialised record.
  abbrev first_word : KeRecord → ℕ
  first_word r = (if critical r then 2 ^ 15 else 0) + record_type r

  first_word_back :
      (r : KeRecord)
      → ((first_word r / 256 % 256 / 128 == 1) ≡ critical r)
        × (u16_of (bit_and (first_word r / 256 % 256) 0x7) (first_word r % 256) ≡ record_type r)
  first_word_back end_of_message = (refl, refl)
  first_word_back (server_record client a) = (refl, refl)
  first_word_back (server_record server a) = (refl, refl)
  first_word_back (port_record client port) = (refl, refl)
  first_word_back (port_record server port) = (refl, refl)
  first_word_back _ = (refl, refl)

  -- The bytes of a record.
  abbrev pub record_wire : KeRecord → Bytes
  record_wire r =
      u16_bytes (first_word r) ++ (u16_bytes (length (into_bytes net r)) ++ into_bytes net r)

  pub serialize-record_wire :
      {E : Type 0} (r : KeRecord)
      → IsRecord net party r
      → serialize net {E = E} r ≡ ok (record_wire r)
  unfolding serialize
  serialize-record_wire r h = rw (record_len-into_bytes r h) refl

  -- A record that the wire format can hold, and whose party, if it keeps one, is the sender that
  -- the reader takes, is deserialised from its serialised form, whatever bytes follow.
  pub deserialize-serialize :
      (r : KeRecord) (rest : Bytes)
      → IsRecord net party r
      → (serialize net r >>= λ bytes. deserialize net party (bytes ++ rest)) ≡ ok r
  unfolding deserialize
  deserialize-serialize r rest h =
      let body = into_bytes net r in
      let long : ltb (length (body ++ rest)) (length body) ≡ false =
        le→ltb_false _ _ (omega (arith, length-append body rest)) in
      rw
        (
          serialize-record_wire r h,
          u16_of-u16_bytes (length body) (body_small r h),
          long,
          take-append body rest refl,
          (first_word_back r).0,
          (first_word_back r).1,
        )
        (deserialize_body-into_bytes r h)
