-- ===== src/Ke/Stream.antt =====
-- src/nts_ke/server/connection.rs and src/nts_ke/client.rs: what the record loops of the two ends
-- have in common, one turn of the loop.
pub mod Next
use cfnts.Base.{
  ℕ, zero, suc, ◌+◌, List, [], ◌∷◌, ◌++◌, Bytes, Bool, true, false, Option, some, none, Outcome, ok,
  err, panic, hang, map_err, u16_of, length, take, drop, ltb, if◌then◌else◌,
}
use cfnts.Records.Types.{
  Party, KeRecord, BodyError, DeserializeError, parsing, unknown_critical_record,
  unknown_not_critical_record, NtsKeParseError, ReceivedNtsKeRecordState, Net,
}
use cfnts.Records.Wire.{deserialize}
use cfnts.Records.Process.{process_record}

-- What ends an exchange: a record that breaks the protocol, one that is unknown and critical, or
-- one that cannot be read.
pub data RecordFault : Type 0 where
  refused : NtsKeParseError → RecordFault
  critical_unknown : RecordFault
  unreadable : BodyError → RecordFault

abbrev pub header_size : ℕ
header_size = 4

-- `body_length`, from the third and fourth byte of the header.
unfoldable pub body_length : Bytes → ℕ
body_length (b0 ∷ b1 ∷ b2 ∷ b3 ∷ rest) = u16_of b2 b3
body_length _ = 0

-- The first record of a stream and the rest, if the whole record has arrived.
unfoldable pub next_record : Bytes → Option (Bytes × Bytes)
unfolding body_length
next_record reader =
    if ltb (length reader) header_size
    then none
    else (let size = header_size + body_length reader in
        if ltb (length reader) size then none else some (take size reader, drop size reader))

-- The `match` of the loops: a record changes the state, an unknown one that is not critical is
-- skipped, and any other error ends the exchange.
unfoldable pub take_result :
    Net
    → ReceivedNtsKeRecordState
    → Outcome DeserializeError KeRecord
    → Outcome RecordFault ReceivedNtsKeRecordState
unfolding process_record
take_result net s (ok r) = map_err refused (process_record net r s)
take_result net s (err (parsing cause)) = err (unreadable cause)
take_result net s (err unknown_critical_record) = err critical_unknown
take_result net s (err unknown_not_critical_record) = ok s
take_result net s panic = panic
take_result net s hang = hang

unfoldable pub take_record :
    Net → Party → Bytes → ReceivedNtsKeRecordState → Outcome RecordFault ReceivedNtsKeRecordState
unfolding take_result
take_record net party bytes s = take_result net s (deserialize net party bytes)
