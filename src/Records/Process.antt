-- ===== src/Records/Process.antt =====
-- src/nts_ke/records/mod.rs: `process_record`. On an error the state is left as it was.
use cfnts.Base.{[], ◌∷◌, ◌++◌, map, true, false, some, none, Outcome, ok, err, if◌then◌else◌}
use cfnts.Records.Types.{
  Net, KeRecord, end_of_message, next_protocol, error_record, warning, aead_algorithm, new_cookie,
  server_record, port_record, NtsKeParseError, record_after_end, received_error_record,
  ReceivedNtsKeRecordState,
}
use cfnts.Records.Bodies.{as_protocol_id, as_algorithm_id, into_string}

-- The state of an exchange before the first record.
abbrev pub received_nothing : ReceivedNtsKeRecordState
received_nothing = record {
  finished = false;
  next_protocols = [];
  aead_scheme = [];
  cookies = [];
  next_server = none;
  next_port = none;
}

module _ (net : Net) where
  -- The `match` of `process_record`.
  unfoldable pub process_open :
      KeRecord → ReceivedNtsKeRecordState → Outcome NtsKeParseError ReceivedNtsKeRecordState
  process_open end_of_message s = ok (record s { finished = true })
  process_open (next_protocol ps) s = ok (record s { next_protocols = map as_protocol_id ps })
  process_open (error_record k) s = err received_error_record
  process_open (warning k) s = ok s
  process_open (aead_algorithm as_) s = ok (record s { aead_scheme = map as_algorithm_id as_ })
  process_open (new_cookie c) s = ok (record s { cookies = s.cookies ++ (c ∷ []) })
  process_open (server_record party a) s = ok (record s { next_server = some (into_string net a) })
  process_open (port_record party port) s = ok (record s { next_port = some port })

  unfoldable pub process_record :
      KeRecord → ReceivedNtsKeRecordState → Outcome NtsKeParseError ReceivedNtsKeRecordState
  unfolding process_open
  process_record r s = if s.finished then err record_after_end else process_open r s
