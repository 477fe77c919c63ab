-- ===== src/Examples/Connections.antt =====
-- Examples on the listener of the key exchange server.
use cfnts.Base.{[], none, true, false, Ensures, replicate, arith}
use cfnts.Protocol.Aead.{plain_aead}
use cfnts.Ke.Server.{TlsEvent, would_block}
use cfnts.Ke.Listener.{KeServerListener, accepted, PollEvent, handle_event}
use cfnts.Ke.Listener.Table.{IsListener, handle_event-IsListener}
use cfnts.Examples.Data.{no_net, nonce, rotator_with}

abbrev empty_listener : KeServerListener
empty_listener = record { connections = λ t. none; deadlines = []; next_conn_token_id = 1 }

empty-IsListener : IsListener empty_listener
empty-IsListener = record { sorted = tt; low = omega arith; high = omega arith; entries = λ t. tt }

abbrev quiet : TlsEvent
quiet = record {
  tls_read = would_block;
  processed = true;
  plaintext = none;
  exported = none;
  writes = true;
  shuts = true;
  shuts_again = true;
}

-- A connection arrives.
abbrev arrival : PollEvent
arrival = record {
  now = 5;
  shuts = λ t. true;
  token = 0;
  accepting = accepted true true;
  tls = quiet;
  is_readable = true;
  is_writable = false;
  reregisters = true;
  nonces = replicate 8 nonce;
}

handle_event-IsListener_example :
    Ensures IsListener
      (handle_event no_net plain_aead (rotator_with 28800) 123 30 arrival empty_listener)
handle_event-IsListener_example =
    handle_event-IsListener no_net plain_aead (rotator_with 28800) 123 30 arrival empty_listener
      empty-IsListener
