-- ===== src/Ke/Server.antt =====
-- src/nts_ke/server/connection.rs: a connection of the key exchange server. The TLS session is a
-- parameter, by what its calls answer in one event; the bytes given to it are kept in `written`.
pub mod Records
pub mod Follows
pub mod Once
use cfnts.Base.{
  ℕ, zero, suc, ◌+◌, List, [], ◌∷◌, ◌++◌, Bytes, Bool, true, false, Option, some, none, Outcome, ok,
  err, panic, hang, ◌>>=◌, map_err, length, if◌then◌else◌, ◌==◌,
}
use cfnts.Protocol.Aead.{Aead}
use cfnts.Cookie.{NtsKeys, make_cookie}
use cfnts.KeyRotator.{KeyRotator, RotateError, latest_key_value}
use cfnts.Records.Types.{
  server, ntpv4, aead_aes_siv_cmac_256, KeRecord, end_of_message, next_protocol, aead_algorithm,
  new_cookie, port_record, ReceivedNtsKeRecordState, Net,
}
use cfnts.Records.Wire.{serialize}
use cfnts.Records.Process.{received_nothing}
use cfnts.Ke.Stream.{take_record, next_record}

pub data KeServerConnState : Type 0 where
  connected : KeServerConnState
  tls_handshaking : KeServerConnState
  opened : KeServerConnState
  response_sent : KeServerConnState
  closed : KeServerConnState

pub record KeServerConn : Type 0 where
  pub state : KeServerConnState
  pub ntske_state : ReceivedNtsKeRecordState
  pub ntske_buffer : Bytes
  pub written : List Bytes

-- `KeServerConn::new`
abbrev pub new_conn : KeServerConn
new_conn = record {
  state = connected;
  ntske_state = received_nothing;
  ntske_buffer = [];
  written = [];
}

-- The result of `read_tls`.
pub data TlsRead : Type 0 where
  would_block : TlsRead
  read_error : TlsRead
  read_bytes : ℕ → TlsRead

-- What the calls of one readable event answer: `read_tls`, whether `process_new_packets`
-- succeeds, the plaintext of `read_to_end`, the keys of `gen_key`, and whether `write_all` and the
-- first and second `shutdown` of the socket succeed.
pub record TlsEvent : Type 0 where
  pub tls_read : TlsRead
  pub processed : Bool
  pub plaintext : Option Bytes
  pub exported : Option NtsKeys
  pub writes : Bool
  pub shuts : Bool
  pub shuts_again : Bool

-- Where the loop over the records stops: the rest is too short for a record, or the end of the
-- message was seen.
pub data Reading : Type 0 where
  waiting : Bytes → ReceivedNtsKeRecordState → Reading
  complete : ReceivedNtsKeRecordState → Reading

-- The first plaintext means that the handshake is done.
abbrev pub open_on : KeServerConnState → KeServerConnState
open_on tls_handshaking = opened
open_on state = state

-- The first readable event starts the handshake.
abbrev pub handshake_on : KeServerConnState → KeServerConnState
handshake_on connected = tls_handshaking
handshake_on state = state

abbrev pub is_opened : KeServerConnState → Bool
is_opened opened = true
is_opened _ = false

-- The panic is the `unwrap` of the result of the socket's `shutdown`.
unfoldable pub shutdown : {E : Type 0} → Bool → KeServerConn → Outcome E KeServerConn
shutdown shuts c = if shuts then ok (record c { state = closed }) else panic

module _ (net : Net) where
  -- The loop, with as much fuel as there are bytes, and one; the error is the state at a shutdown.
  unfoldable pub read_records :
      ℕ → Bytes → ReceivedNtsKeRecordState → Outcome ReceivedNtsKeRecordState Reading
  read_records zero reader s = hang
  read_records (suc fuel) reader s =
      if s.finished then ok (complete s) else (elim (next_record reader) [
        | none ↦ ok (waiting reader s)
        | some p ↦
            map_err (λ _. s) (take_record net server p.0 s) >>= λ s'. read_records fuel p.1 s'
      ])

  -- The loop on a buffer.
  abbrev pub read_buffer :
      Bytes → ReceivedNtsKeRecordState → Outcome ReceivedNtsKeRecordState Reading
  read_buffer buffer s = read_records (suc (length buffer)) buffer s

module _ (net : Net) (aead : Aead) where
  -- The cookies of a response, one for each random nonce.
  unfoldable pub cookie_records : {E : Type 0} → List Bytes → NtsKeys → Bytes → ℕ → Outcome E Bytes
  unfolding make_cookie serialize
  cookie_records [] keys master_key key_id = ok []
  cookie_records (nonce ∷ nonces) keys master_key key_id = do
    first ← serialize net (new_cookie (make_cookie aead nonce keys master_key key_id))
    others ← cookie_records nonces keys master_key key_id
    ok (first ++ others)

  -- The eight random nonces are an argument. `latest_key_value` panics without a latest key. The
  -- measurement is left out; the file that it reads is taken to be there.
  unfoldable pub response : List Bytes → NtsKeys → KeyRotator → ℕ → Outcome RotateError Bytes
  unfolding latest_key_value cookie_records serialize
  response nonces keys rotator port = do
    protocols ← serialize net (next_protocol (ntpv4 ∷ []))
    algorithms ← serialize net (aead_algorithm (aead_aes_siv_cmac_256 ∷ []))
    latest ← latest_key_value rotator
    cookies ← cookie_records nonces keys latest.1 latest.0
    ports ← serialize net (port_record server port)
    end ← serialize net end_of_message
    ok (protocols ++ (algorithms ++ (cookies ++ (ports ++ end))))

  -- The response is sent once: only an open connection sends it.
  unfoldable pub respond :
      TlsEvent
      → List Bytes
      → NtsKeys
      → KeyRotator
      → ℕ
      → KeServerConn
      → Outcome RotateError KeServerConn
  unfolding response
  respond event nonces keys rotator port c =
      if is_opened c.state
      then (response nonces keys rotator port >>= λ bytes.
          if event.writes
          then ok (record c { state = response_sent; written = c.written ++ (bytes ∷ []) })
          else panic)
      else ok c

  -- What follows the loop, by where it stopped. `c` holds the extended buffer.
  unfoldable pub after_records :
      TlsEvent
      → List Bytes
      → NtsKeys
      → KeyRotator
      → ℕ
      → KeServerConn
      → Bool
      → Outcome ReceivedNtsKeRecordState Reading
      → Outcome RotateError KeServerConn
  unfolding respond shutdown
  after_records event nonces keys rotator port c shuts (ok (waiting rest s)) =
      ok (record c { ntske_buffer = rest; ntske_state = s })
  after_records event nonces keys rotator port c shuts (ok (complete s)) =
      respond event nonces keys rotator port (record c { ntske_state = s })
  after_records event nonces keys rotator port c shuts (err s) =
      shutdown shuts (record c { ntske_state = s })
  after_records event nonces keys rotator port c shuts panic = panic
  after_records event nonces keys rotator port c shuts hang = hang

  -- The plaintext of an event.
  unfoldable pub take_plaintext :
      TlsEvent
      → List Bytes
      → KeyRotator
      → ℕ
      → Bool
      → KeServerConn
      → Bytes
      → Outcome RotateError KeServerConn
  unfolding after_records
  take_plaintext event nonces rotator port shuts c [] = ok c
  take_plaintext event nonces rotator port shuts c (b ∷ bs) =
      let buffer = c.ntske_buffer ++ b ∷ bs in
      let c' = record c { state = open_on c.state; ntske_buffer = buffer } in
      elim event.exported [
        | none ↦ panic
        | some keys ↦
            after_records event nonces keys rotator port c' shuts
              (read_buffer net buffer c.ntske_state)
      ]

  -- `read_to_end`
  unfoldable pub read_plaintext :
      TlsEvent
      → List Bytes
      → KeyRotator
      → ℕ
      → Bool
      → KeServerConn
      → Option Bytes
      → Outcome RotateError KeServerConn
  unfolding take_plaintext shutdown
  read_plaintext event nonces rotator port shuts c none = shutdown shuts c
  read_plaintext event nonces rotator port shuts c (some buf) =
      take_plaintext event nonces rotator port shuts c buf

  -- What follows `read_tls`. After an error of `process_new_packets` the socket is shut down and the
  -- handler goes on.
  unfoldable pub after_read :
      TlsEvent
      → List Bytes
      → KeyRotator
      → ℕ
      → KeServerConn
      → TlsRead
      → Outcome RotateError KeServerConn
  unfolding read_plaintext shutdown
  after_read event nonces rotator port c would_block = ok c
  after_read event nonces rotator port c read_error = shutdown event.shuts c
  after_read event nonces rotator port c (read_bytes count) =
      if count == 0
      then shutdown event.shuts c
      else ((if event.processed then ok c else shutdown event.shuts c) >>= λ c'.
          read_plaintext event nonces rotator port
            (if event.processed then event.shuts else event.shuts_again) c' event.plaintext)

  unfoldable pub read_ready :
      TlsEvent → List Bytes → KeyRotator → ℕ → KeServerConn → Outcome RotateError KeServerConn
  unfolding after_read
  read_ready event nonces rotator port c =
      after_read event nonces rotator port (record c { state = handshake_on c.state })
        event.tls_read

-- `writes` tells whether `write_tls` succeeds.
unfoldable pub write_ready : {E : Type 0} → TlsEvent → KeServerConn → Outcome E KeServerConn
unfolding shutdown
write_ready event c = if event.writes then ok c else shutdown event.shuts c
