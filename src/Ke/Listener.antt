-- ===== src/Ke/Listener.antt =====
-- src/nts_ke/server/listener.rs: the table of connections of a listener, their deadlines and tokens.
-- Times are nanoseconds since the Unix epoch. The polling, the sockets and TLS are parameters.
pub mod Expiry
pub mod Table
use cfnts.Base.{
  ℕ, zero, suc, ◌+◌, ◌-◌, ◌*◌, ◌/◌, ◌^◌, List, [], ◌∷◌, Bytes, Bool, true, false, Option, some,
  none, Outcome, ok, err, panic, hang, ◌>>=◌, ◌&&◌, ltb, ◌==◌, if◌then◌else◌,
}
use cfnts.Protocol.Aead.{Aead}
use cfnts.KeyRotator.{KeyRotator, RotateError}
use cfnts.Records.Types.{Net}
use cfnts.Ke.Server.{
  KeServerConnState, closed, KeServerConn, new_conn, TlsEvent, shutdown, read_ready, write_ready,
}

abbrev pub listener_mio_token_id : ℕ
listener_mio_token_id = 0

abbrev pub connection_mio_token_id_min : ℕ
connection_mio_token_id_min = listener_mio_token_id + 1

abbrev pub connection_mio_token_id_max : ℕ
connection_mio_token_id_max = 2 ^ 64 - 2

-- The map from tokens to connections is a function; the min-heap of deadlines and tokens is the list
-- of its elements in the order in which they are popped.
pub record KeServerListener : Type 0 where
  pub connections : ℕ → Option KeServerConn
  pub deadlines : List (ℕ × ℕ)
  pub next_conn_token_id : ℕ

abbrev pub remove : (ℕ → Option KeServerConn) → ℕ → ℕ → Option KeServerConn
remove connections token = λ t. if t == token then none else connections t

abbrev pub insert : (ℕ → Option KeServerConn) → ℕ → KeServerConn → ℕ → Option KeServerConn
insert connections token c = λ t. if t == token then some c else connections t

-- The order of pairs.
unfoldable pub is_earlier : ℕ × ℕ → ℕ × ℕ → Bool
is_earlier d e = if ltb d.0 e.0 then true else (if d.0 == e.0 then ltb d.1 e.1 else false)

unfoldable pub push : ℕ × ℕ → List (ℕ × ℕ) → List (ℕ × ℕ)
unfolding is_earlier
push d [] = d ∷ []
push d (e ∷ rest) = let later = push d rest in if is_earlier e d then e ∷ later else d ∷ e ∷ rest

-- `checked_add` fails where a `usize` overflows.
unfoldable pub increment_next_conn_token_id : ℕ → ℕ
increment_next_conn_token_id id =
    let value = if ltb (id + 1) (2 ^ 64) then id + 1 else connection_mio_token_id_min in
    if ltb connection_mio_token_id_max value then connection_mio_token_id_min else value

-- What `accept` of the socket answers: nothing to accept, an error and whether the listener is
-- bound and registered again, or a stream, whether the address of its peer is known, which
-- `KeServerConn::new` unwraps, and whether it is registered.
pub data Accepting : Type 0 where
  none_waiting : Accepting
  accept_error : Bool → Accepting
  accepted : Bool → Bool → Accepting

-- The error is that of the second binding. A deadline beyond the seconds of an `i64` is left out.
unfoldable pub accept : ℕ → ℕ → Accepting → KeServerListener → Outcome (Unit {0}) KeServerListener
unfolding increment_next_conn_token_id push
accept now timeout none_waiting l = ok l
accept now timeout (accept_error rebinds) l = if rebinds then ok l else err tt
accept now timeout (accepted has_peer registers) l =
    let token = l.next_conn_token_id in
    let deadline = now + timeout * 1000000000 in
    if has_peer && registers
    then ok (record {
      connections = insert l.connections token new_conn;
      deadlines =
          if ltb (deadline / 1000000000) (2 ^ 63)
          then push (deadline, token) l.deadlines
          else l.deadlines;
      next_conn_token_id = increment_next_conn_token_id token;
    })
    else panic

-- A connection that is found is shut down, before the others are seen to.
unfoldable pub close_one : {E A : Type 0} → Bool → Option KeServerConn → Outcome E A → Outcome E A
unfolding shutdown
close_one shuts none others = others
close_one shuts (some c) others = shutdown shuts c >>= λ c'. others

-- The loop of `close_expired_connections`; `shuts` tells whether the socket of a token's connection
-- shuts down.
unfoldable pub close_expired :
    {E : Type 0}
    → ℕ
    → (ℕ → Bool)
    → List (ℕ × ℕ)
    → (ℕ → Option KeServerConn)
    → Outcome E (List (ℕ × ℕ) × (ℕ → Option KeServerConn))
unfolding close_one
close_expired now shuts [] connections = ok ([], connections)
close_expired now shuts (d ∷ rest) connections =
    let others = close_expired now shuts rest (remove connections d.1) in
    if ltb d.0 now
    then close_one (shuts d.1) (connections d.1) others
    else ok (d ∷ rest, connections)

unfoldable pub close_expired_connections :
    {E : Type 0} → ℕ → (ℕ → Bool) → KeServerListener → Outcome E KeServerListener
unfolding close_expired
close_expired_connections now shuts l = do
  left ← close_expired now shuts l.deadlines l.connections
  ok (record l { deadlines = left.0; connections = left.1 })

-- One event of the poll, and what the calls that handle it answer: the time, which sockets shut
-- down, the token, what `accept` answers, and for a connection its TLS event, its readiness, whether
-- it is registered again, and the random nonces of a response.
pub record PollEvent : Type 0 where
  pub now : ℕ
  pub shuts : ℕ → Bool
  pub token : ℕ
  pub accepting : Accepting
  pub tls : TlsEvent
  pub is_readable : Bool
  pub is_writable : Bool
  pub reregisters : Bool
  pub nonces : List Bytes

abbrev pub is_closed : KeServerConnState → Bool
is_closed closed = true
is_closed _ = false

-- The configuration and the rotator are those of the server.
module _ (net : Net) (aead : Aead) (rotator : KeyRotator) (port timeout : ℕ) where
  -- `KeServerConn::ready`
  unfoldable pub ready : PollEvent → KeServerConn → Outcome RotateError KeServerConn
  unfolding read_ready write_ready
  ready event c = do
    c1 ←
        if event.is_readable
        then read_ready net aead event.tls event.nonces rotator port c
        else ok c
    c2 ← if event.is_writable then write_ready event.tls c1 else ok c1
    (if is_closed c2.state then ok c2 else (if event.reregisters then ok c2 else panic))

  -- A connection that is closed leaves the table; an event without one is ignored.
  unfoldable pub ready_connection :
      PollEvent → KeServerListener → Option KeServerConn → Outcome RotateError KeServerListener
  unfolding ready
  ready_connection event l none = ok l
  ready_connection event l (some c) = ready event c >>= λ c'. ok (record l {
    connections =
        if is_closed c'.state
        then remove l.connections event.token
        else insert l.connections event.token c';
  })

  -- An error of `accept` is logged, and the listener goes on.
  unfoldable pub after_accept :
      KeServerListener → Outcome (Unit {0}) KeServerListener → Outcome RotateError KeServerListener
  after_accept l (ok l') = ok l'
  after_accept l (err e) = ok l
  after_accept l panic = panic
  after_accept l hang = hang

  -- The body of the loop of `listen`.
  unfoldable pub handle_event : PollEvent → KeServerListener → Outcome RotateError KeServerListener
  unfolding close_expired_connections accept after_accept ready_connection
  handle_event event l = close_expired_connections event.now event.shuts l >>= λ l'.
      if event.token == listener_mio_token_id
      then after_accept l' (accept event.now timeout event.accepting l')
      else ready_connection event l' (l'.connections event.token)
