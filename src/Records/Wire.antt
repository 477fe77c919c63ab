-- ===== src/Records/Wire.antt =====
-- src/nts_ke/records/mod.rs: `serialize` and `deserialize`.
use cfnts.Base.{
  ℕ, ◌+◌, ◌/◌, ◌^◌, ◌∷◌, ◌++◌, Bytes, Bool, Outcome, ok, err, panic, ◌>>=◌, map_err, u16_bytes,
  u16_of, length, take, ltb, ◌==◌, if◌then◌else◌, bit_and,
}
use cfnts.Records.Types.{
  Party, KeRecord, new_cookie, DeserializeError, parsing, unknown_critical_record,
  unknown_not_critical_record, Net,
}
use cfnts.Records.Bodies.{
  critical, record_type, record_len, into_bytes, end_from_bytes, next_protocol_from_bytes,
  error_from_bytes, warning_from_bytes, aead_from_bytes, server_from_bytes, port_from_bytes,
}

module _ (net : Net) where
  unfoldable pub serialize : {E : Type 0} → KeRecord → Outcome E Bytes
  unfolding record_len
  serialize r = do
    let first_word = (if critical r then 2 ^ 15 else 0) + record_type r
    len ← record_len net r
    ok (u16_bytes first_word ++ (u16_bytes len ++ into_bytes net r))

  -- The chain of the macro `deserialize_body`.
  unfoldable pub deserialize_body : Party → Bool → ℕ → Bytes → Outcome DeserializeError KeRecord
  unfolding end_from_bytes next_protocol_from_bytes error_from_bytes warning_from_bytes
      aead_from_bytes server_from_bytes port_from_bytes
  deserialize_body party is_critical type_ body =
      if type_ == 0
      then map_err parsing (end_from_bytes body)
      else if type_ == 1
      then map_err parsing (next_protocol_from_bytes body)
      else if type_ == 2
      then map_err parsing (error_from_bytes body)
      else if type_ == 3
      then map_err parsing (warning_from_bytes body)
      else if type_ == 4
      then map_err parsing (aead_from_bytes body)
      else if type_ == 5
      then ok (new_cookie body)
      else if type_ == 6
      then map_err parsing (server_from_bytes net party body)
      else if type_ == 7
      then map_err parsing (port_from_bytes party body)
      else if is_critical
      then err unknown_critical_record
      else err unknown_not_critical_record

  -- The index or slice of a short input is out of range.
  unfoldable pub deserialize : Party → Bytes → Outcome DeserializeError KeRecord
  unfolding deserialize_body
  deserialize party (b0 ∷ b1 ∷ b2 ∷ b3 ∷ rest) =
      let is_critical = b0 / 128 == 1 in
      let type_ = u16_of (bit_and b0 0x7) b1 in
      let len = u16_of b2 b3 in
      if ltb (length rest) len
      then panic
      else deserialize_body party is_critical type_ (take len rest)
  deserialize party _ = panic
