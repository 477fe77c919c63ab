-- ===== src/Ke/Server/Once.antt =====
-- src/nts_ke/server/connection.rs: a connection sends one response, after the end of the message.
use cfnts.Base.{
  ℕ, suc, ◌≤◌, List, [], ◌∷◌, ◌++◌, Bytes, Bool, true, false, Option, some, none, Outcome, ok, err,
  panic, hang, Ensures, bind-Ensures, Ensures-ok, if-Ensures, length, length-append, if◌then◌else◌,
  arith, ◌≡◌, refl, sym, ap, ◌∙◌, ◌==◌,
}
use cfnts.Protocol.Aead.{Aead}
use cfnts.Cookie.{NtsKeys}
use cfnts.KeyRotator.{KeyRotator, RotateError}
use cfnts.Records.Types.{Net, ReceivedNtsKeRecordState}
use cfnts.Ke.Server.{
  KeServerConnState, connected, tls_handshaking, opened, response_sent, closed, KeServerConn,
  new_conn, TlsEvent, TlsRead, read_plaintext, after_read, would_block, read_error, read_bytes,
  Reading, waiting, complete, open_on, handshake_on, is_opened, shutdown, read_buffer, response,
  respond, after_records, take_plaintext, read_ready, write_ready,
}
use cfnts.Ke.Server.Follows.{Follows, read_records-Follows}

-- The states before the response.
abbrev pub is_unsent : KeServerConnState → Bool
is_unsent connected = true
is_unsent tls_handshaking = true
is_unsent opened = true
is_unsent response_sent = false
is_unsent closed = false

-- What was written, by the state: nothing before the response is sent, never more than one response,
-- and a response only after the end of the message.
pub record IsConn (c : KeServerConn) : Type 0 where
  pub at_most_one : length c.written ≤ 1
  pub unsent : is_unsent c.state ≡ true → c.written ≡ []
  pub after_end : length c.written ≡ 1 → c.ntske_state.finished ≡ true

pub new_conn-IsConn : IsConn new_conn
new_conn-IsConn = record {
  at_most_one = omega arith;
  unsent = λ e. refl;
  after_end = λ e. absurd (omega arith);
}

module _ (net : Net) (aead : Aead) (port : ℕ) where
  shutdown-IsConn :
      (E : Type 0) (shuts : Bool) (c : KeServerConn) (s : ReceivedNtsKeRecordState)
      → IsConn c
      → (c.ntske_state.finished ≡ true → s.finished ≡ true)
      → Ensures IsConn (shutdown {E = E} shuts (record c { ntske_state = s }))
  unfolding shutdown
  shutdown-IsConn E true c s h k = record {
    at_most_one = h.at_most_one;
    unsent = λ e. cc;
    after_end = λ e. k (h.after_end e);
  }
  shutdown-IsConn E false c s h k = tt

  shut-IsConn :
      (shuts : Bool) (c : KeServerConn)
      → IsConn c
      → Ensures IsConn (shutdown {E = RotateError} shuts c)
  shut-IsConn shuts c h = shutdown-IsConn RotateError shuts c c.ntske_state h (λ d. d)

  is_opened-unsent : (state : KeServerConnState) → is_opened state ≡ true → is_unsent state ≡ true
  is_opened-unsent opened e = refl
  is_opened-unsent connected e = cc
  is_opened-unsent tls_handshaking e = cc
  is_opened-unsent response_sent e = cc
  is_opened-unsent closed e = cc

  respond-IsConn :
      (event : TlsEvent) (nonces : List Bytes) (keys : NtsKeys) (rotator : KeyRotator)
      (c : KeServerConn)
      → IsConn c
      → c.ntske_state.finished ≡ true
      → Ensures IsConn (respond net aead event nonces keys rotator port c)
  unfolding respond
  respond-IsConn event nonces keys rotator c h done =
      if-Ensures IsConn (is_opened c.state) _ (ok c)
        (λ e. bind-Ensures IsConn (response net aead nonces keys rotator port) _ (λ bytes _.
          if-Ensures IsConn event.writes _ panic
            (λ _. record {
              at_most_one = omega (
                arith,
                ap length (h.unsent (is_opened-unsent c.state e)),
                length-append c.written (bytes ∷ []),
              );
              unsent = λ k. cc;
              after_end = λ _. done;
            })
            (λ _. tt)))
        (λ _. h)

  after_records-IsConn :
      (event : TlsEvent) (nonces : List Bytes) (keys : NtsKeys) (rotator : KeyRotator)
      (c : KeServerConn) (shuts : Bool) (m : Outcome ReceivedNtsKeRecordState Reading)
      → IsConn c
      → Follows c.ntske_state m
      → Ensures IsConn (after_records net aead event nonces keys rotator port c shuts m)
  unfolding after_records
  after_records-IsConn event nonces keys rotator c shuts (ok (waiting rest s)) h f = record {
    at_most_one = h.at_most_one;
    unsent = h.unsent;
    after_end = λ e. let d = h.after_end e in cc;
  }
  after_records-IsConn event nonces keys rotator c shuts (ok (complete s)) h f =
      respond-IsConn event nonces keys rotator (record c { ntske_state = s })
        (record { at_most_one = h.at_most_one; unsent = h.unsent; after_end = λ _. f }) f
  after_records-IsConn event nonces keys rotator c shuts (err s) h f =
      shutdown-IsConn RotateError shuts c s h (λ d. cc)
  after_records-IsConn event nonces keys rotator c shuts panic h f = tt
  after_records-IsConn event nonces keys rotator c shuts hang h f = tt

  open_on-unsent : (state : KeServerConnState) → is_unsent (open_on state) ≡ is_unsent state
  open_on-unsent connected = refl
  open_on-unsent tls_handshaking = refl
  open_on-unsent opened = refl
  open_on-unsent response_sent = refl
  open_on-unsent closed = refl

  handshake_on-unsent :
      (state : KeServerConnState) → is_unsent (handshake_on state) ≡ is_unsent state
  handshake_on-unsent connected = refl
  handshake_on-unsent tls_handshaking = refl
  handshake_on-unsent opened = refl
  handshake_on-unsent response_sent = refl
  handshake_on-unsent closed = refl

  take_plaintext-IsConn :
      (event : TlsEvent) (nonces : List Bytes) (rotator : KeyRotator) (shuts : Bool)
      (c : KeServerConn) (buf : Bytes)
      → IsConn c
      → Ensures IsConn (take_plaintext net aead event nonces rotator port shuts c buf)
  unfolding take_plaintext
  take_plaintext-IsConn event nonces rotator shuts c [] h = h
  take_plaintext-IsConn event nonces rotator shuts c (b ∷ bs) h =
      elim event.exported
        as (λ exported. Ensures IsConn (elim exported [
          | none ↦ panic
          | some keys ↦
              after_records net aead event nonces keys rotator port
                (record c { state = open_on c.state; ntske_buffer = c.ntske_buffer ++ b ∷ bs })
                shuts (read_buffer net (c.ntske_buffer ++ b ∷ bs) c.ntske_state)
        ])) [
          | none ↦ tt
          | some keys ↦
              let buffer = c.ntske_buffer ++ b ∷ bs in
              after_records-IsConn event nonces keys rotator
                (record c { state = open_on c.state; ntske_buffer = buffer }) shuts
                (read_buffer net buffer c.ntske_state)
                (record {
                  at_most_one = h.at_most_one;
                  unsent = λ e. h.unsent (sym (open_on-unsent c.state) ∙ e);
                  after_end = h.after_end;
                })
                (read_records-Follows net (suc (length buffer)) buffer c.ntske_state)
        ]

  read_plaintext-IsConn :
      (event : TlsEvent) (nonces : List Bytes) (rotator : KeyRotator) (shuts : Bool)
      (c : KeServerConn) (plaintext : Option Bytes)
      → IsConn c
      → Ensures IsConn (read_plaintext net aead event nonces rotator port shuts c plaintext)
  unfolding read_plaintext
  read_plaintext-IsConn event nonces rotator shuts c none h = shut-IsConn shuts c h
  read_plaintext-IsConn event nonces rotator shuts c (some buf) h =
      take_plaintext-IsConn event nonces rotator shuts c buf h

  after_read-IsConn :
      (event : TlsEvent) (nonces : List Bytes) (rotator : KeyRotator) (c : KeServerConn)
      (tls_read : TlsRead)
      → IsConn c
      → Ensures IsConn (after_read net aead event nonces rotator port c tls_read)
  unfolding after_read
  after_read-IsConn event nonces rotator c would_block h = h
  after_read-IsConn event nonces rotator c read_error h = shut-IsConn event.shuts c h
  after_read-IsConn event nonces rotator c (read_bytes count) h =
      let first = if event.processed then ok c else shutdown event.shuts c in
      let kept : Ensures IsConn first =
        if-Ensures IsConn event.processed (ok c) (shutdown event.shuts c) (λ _. h)
          (λ _. shut-IsConn event.shuts c h) in
      if-Ensures IsConn (count == 0) _ _ (λ _. shut-IsConn event.shuts c h)
        (λ _. bind-Ensures IsConn first _ (λ c' e.
          read_plaintext-IsConn event nonces rotator _ c' event.plaintext
            (Ensures-ok IsConn first c' kept e)))

  pub read_ready-IsConn :
      (event : TlsEvent) (nonces : List Bytes) (rotator : KeyRotator) (c : KeServerConn)
      → IsConn c
      → Ensures IsConn (read_ready net aead event nonces rotator port c)
  unfolding read_ready
  read_ready-IsConn event nonces rotator c h =
      after_read-IsConn event nonces rotator (record c { state = handshake_on c.state })
        event.tls_read
        (record {
          at_most_one = h.at_most_one;
          unsent = λ e. h.unsent (sym (handshake_on-unsent c.state) ∙ e);
          after_end = h.after_end;
        })

  pub write_ready-IsConn :
      (event : TlsEvent) (c : KeServerConn)
      → IsConn c
      → Ensures IsConn (write_ready {E = RotateError} event c)
  unfolding write_ready
  write_ready-IsConn event c h =
      if-Ensures IsConn event.writes (ok c) _ (λ _. h) (λ _. shut-IsConn event.shuts c h)

  -- The connections that events in any order lead to, with any keys of the rotator.
  pub data Reachable : KeServerConn → Type 0 where
    begun : Reachable new_conn
    read :
        {c c' : KeServerConn} (event : TlsEvent) (nonces : List Bytes) (rotator : KeyRotator)
        → Reachable c
        → read_ready net aead event nonces rotator port c ≡ ok c'
        → Reachable c'
    wrote :
        {c c' : KeServerConn} (event : TlsEvent)
        → Reachable c
        → write_ready {E = RotateError} event c ≡ ok c'
        → Reachable c'

  -- After any sequence of events that a connection survives, it has written at most one response,
  -- none in a state before `response_sent`, and one only if the end of the message was received.
  pub Reachable-IsConn : (c : KeServerConn) → Reachable c → IsConn c
  Reachable-IsConn _ begun = record {
    at_most_one = omega arith;
    unsent = λ e. refl;
    after_end = λ e. absurd (omega arith);
  }
  Reachable-IsConn c' (read {c = c} event nonces rotator r e) =
      Ensures-ok IsConn (read_ready net aead event nonces rotator port c) c'
        (read_ready-IsConn event nonces rotator c (Reachable-IsConn c r)) e
  Reachable-IsConn c' (wrote {c = c} event r e) =
      Ensures-ok IsConn (write_ready event c) c' (write_ready-IsConn event c (Reachable-IsConn c r))
        e
