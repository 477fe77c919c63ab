-- ===== src/Ke/Listener/Table.antt =====
-- src/nts_ke/server/listener.rs: what holds of the table of connections after every event.
use cfnts.Base.{
  ℕ, ◌≤◌, ◌&&◌, List, Bool, true, false, Option, some, none, Outcome, ok, err, panic, hang, Ensures,
  Ensures-ok, bind-Ensures, if-Ensures, ◌==◌, if◌then◌else◌, ◌≡◌, refl, subst⁻¹,
}
use cfnts.Protocol.Aead.{Aead}
use cfnts.KeyRotator.{KeyRotator, RotateError}
use cfnts.Records.Types.{Net}
use cfnts.Ke.Server.{KeServerConn, new_conn, read_ready, write_ready}
use cfnts.Ke.Server.Once.{IsConn, new_conn-IsConn, read_ready-IsConn, write_ready-IsConn}
use cfnts.Ke.Listener.{
  connection_mio_token_id_min, connection_mio_token_id_max, listener_mio_token_id, KeServerListener,
  Accepting, none_waiting, accept_error, accepted, accept, remove, insert, close_expired,
  close_expired_connections, PollEvent, is_closed, ready, ready_connection, after_accept,
  handle_event,
}
use cfnts.Ke.Listener.Expiry.{
  IsSorted, push-IsSorted, expires, Closed, close_expired-Closed, increment_next_conn_token_id_lem,
}

-- A connection in the table is not closed, and has sent what its state says.
abbrev pub IsEntry : Option KeServerConn → Type 0
IsEntry none = Unit {0}
IsEntry (some c) = (is_closed c.state ≡ false) × IsConn c

-- The deadlines are in order, the next token is in the range of connections, and every connection is
-- not closed and has sent what its state says.
pub record IsListener (l : KeServerListener) : Type 0 where
  pub sorted : IsSorted l.deadlines
  pub low : connection_mio_token_id_min ≤ l.next_conn_token_id
  pub high : l.next_conn_token_id ≤ connection_mio_token_id_max
  pub entries : (t : ℕ) → IsEntry (l.connections t)

if-IsEntry :
    (b : Bool) (o p : Option KeServerConn) → IsEntry o → IsEntry p → IsEntry (if b then o else p)
if-IsEntry true o p h k = h
if-IsEntry false o p h k = k

if-IsSorted :
    (b : Bool) (ds es : List (ℕ × ℕ)) → IsSorted ds → IsSorted es → IsSorted (if b then ds else es)
if-IsSorted true ds es h k = h
if-IsSorted false ds es h k = k

update_entries :
    (b : Bool) (connections : ℕ → Option KeServerConn) (token : ℕ) (c : KeServerConn)
    → (b ≡ false → IsEntry (some c))
    → ((t : ℕ) → IsEntry (connections t))
    → (t : ℕ) → IsEntry ((if b then remove connections token else insert connections token c) t)
update_entries true connections token c h k t =
    if-IsEntry (t == token) none (connections t) tt (k t)
update_entries false connections token c h k t =
    if-IsEntry (t == token) (some c) (connections t) (h refl) (k t)

close_expired_connections-IsListener :
    (E : Type 0) (now : ℕ) (shuts : ℕ → Bool) (l : KeServerListener)
    → IsListener l
    → Ensures IsListener (close_expired_connections {E = E} now shuts l)
unfolding close_expired_connections
close_expired_connections-IsListener E now shuts l h =
    let m = close_expired {E = E} now shuts l.deadlines l.connections in
    bind-Ensures IsListener m _ (λ r e.
      let k =
        Ensures-ok (Closed now l.deadlines l.connections) m r
          (close_expired-Closed E now shuts l.deadlines l.connections h.sorted) e in
      record {
        sorted = k.sorted;
        low = h.low;
        high = h.high;
        entries = λ t.
            subst⁻¹ IsEntry (k.table t)
              (if-IsEntry (expires now l.deadlines t) none (l.connections t) tt (h.entries t));
      })

accept-IsListener :
    (now timeout : ℕ) (accepting : Accepting) (l : KeServerListener)
    → IsListener l
    → Ensures IsListener (accept now timeout accepting l)
unfolding accept
accept-IsListener now timeout none_waiting l h = h
accept-IsListener now timeout (accept_error rebinds) l h =
    if-Ensures IsListener rebinds (ok l) (err tt) (λ _. h) (λ _. tt)
accept-IsListener now timeout (accepted has_peer registers) l h =
    if-Ensures IsListener (has_peer && registers) _ panic
      (λ _.
        let (low, high) = increment_next_conn_token_id_lem l.next_conn_token_id h.high in
        record {
          sorted = if-IsSorted _ _ l.deadlines (push-IsSorted _ l.deadlines h.sorted) h.sorted;
          low = low;
          high = high;
          entries = λ t.
              if-IsEntry (t == l.next_conn_token_id) (some new_conn) (l.connections t)
                (refl, new_conn-IsConn) (h.entries t);
        })
      (λ _. tt)

module _ (net : Net) (aead : Aead) (rotator : KeyRotator) (port timeout : ℕ) where
  ready-IsConn :
      (event : PollEvent) (c : KeServerConn)
      → IsConn c
      → Ensures IsConn (ready net aead rotator port timeout event c)
  unfolding ready
  ready-IsConn event c h =
      let first =
        if event.is_readable
        then read_ready net aead event.tls event.nonces rotator port c
        else ok c in
      let kept : Ensures IsConn first =
        if-Ensures IsConn event.is_readable _ (ok c)
          (λ _. read_ready-IsConn net aead port event.tls event.nonces rotator c h) (λ _. h) in
      bind-Ensures IsConn first _ (λ c1 e.
        let h1 = Ensures-ok IsConn first c1 kept e in
        let second = if event.is_writable then write_ready event.tls c1 else ok c1 in
        let kept2 : Ensures IsConn second =
          if-Ensures IsConn event.is_writable _ (ok c1)
            (λ _. write_ready-IsConn net aead port event.tls c1 h1) (λ _. h1) in
        bind-Ensures IsConn second _ (λ c2 e2.
          let h2 = Ensures-ok IsConn second c2 kept2 e2 in
          if-Ensures IsConn (is_closed c2.state) (ok c2) _ (λ _. h2)
            (λ _. if-Ensures IsConn event.reregisters (ok c2) panic (λ _. h2) (λ _. tt))))

  ready_connection-IsListener :
      (event : PollEvent) (l : KeServerListener) (found : Option KeServerConn)
      → IsListener l
      → IsEntry found
      → Ensures IsListener (ready_connection net aead rotator port timeout event l found)
  unfolding ready_connection
  ready_connection-IsListener event l none h k = h
  ready_connection-IsListener event l (some c) h k =
      bind-Ensures IsListener (ready net aead rotator port timeout event c) _ (λ c' e. record {
        sorted = h.sorted;
        low = h.low;
        high = h.high;
        entries =
            update_entries (is_closed c'.state) l.connections event.token c'
              (λ alive. (
                alive,
                Ensures-ok IsConn (ready net aead rotator port timeout event c) c'
                    (ready-IsConn event c k.1) e,
              ))
              h.entries;
      })

  after_accept-IsListener :
      (l : KeServerListener) (m : Outcome (Unit {0}) KeServerListener)
      → IsListener l
      → Ensures IsListener m
      → Ensures IsListener (after_accept net aead rotator port timeout l m)
  unfolding after_accept
  after_accept-IsListener l (ok l') h k = k
  after_accept-IsListener l (err e) h k = h
  after_accept-IsListener l panic h k = tt
  after_accept-IsListener l hang h k = tt

  -- The body of the loop of `listen`, whatever the event and what the calls answer, keeps the
  -- deadlines in order and the next token in the range of connections, and keeps in the table
  -- connections alone that are not closed, that have sent one response at most, and that only
  -- after the end of the message.
  pub handle_event-IsListener :
      (event : PollEvent) (l : KeServerListener)
      → IsListener l
      → Ensures IsListener (handle_event net aead rotator port timeout event l)
  unfolding handle_event
  handle_event-IsListener event l h =
      let swept = close_expired_connections {E = RotateError} event.now event.shuts l in
      bind-Ensures IsListener swept _ (λ l' e.
        let k =
          Ensures-ok IsListener swept l'
            (close_expired_connections-IsListener RotateError event.now event.shuts l h) e in
        if-Ensures IsListener (event.token == listener_mio_token_id) _ _
          (λ _.
            after_accept-IsListener l' _ k
              (accept-IsListener event.now timeout event.accepting l' k))
          (λ _.
            ready_connection-IsListener event l' (l'.connections event.token) k
              (k.entries event.token)))
