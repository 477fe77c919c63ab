-- ===== src/Ke/Setup.antt =====
-- src/nts_ke/server/server.rs: `KeServer::connect` and `KeServer::start`. What rustls says to a
-- certificate chain with a key, and the system to the binding of a listener, are arguments; the threads
-- are what is started in the end.
use cfnts.Base.{
  List, [], ◌∷◌, ◌++◌, Bytes, Bool, Outcome, ok, err, panic, hang, ◌>>=◌, first_of, codes,
  if◌then◌else◌,
}
use cfnts.KeyRotator.{RotateError, KeyRotator, Run}
use cfnts.Config.Settings.{SocketAddr}
use cfnts.Config.Ke.{KeServerConfig}

-- `ServerConfig` of rustls, for TLS 1.3 alone, as it is set up: the chain with its key, and the
-- protocols of ALPN.
pub record TlsServerConfig : Type 0 where
  pub chain : List Bytes
  pub secret_key : Bytes
  pub protocols : List Bytes

pub record KeServerState : Type 0 where
  pub config : KeServerConfig
  pub rotator : KeyRotator
  pub tls_server_config : TlsServerConfig

-- A listener is known by the address that it is bound to.
pub record KeServer : Type 0 where
  pub state : KeServerState
  pub listeners : List SocketAddr

-- The `?` behind `KeyRotator::connect`.
abbrev pub connected_rotator : Run → Outcome RotateError KeyRotator
connected_rotator (rotator, c, ok _) = ok rotator
connected_rotator (rotator, c, err e) = err e
connected_rotator (rotator, c, panic) = panic
connected_rotator (rotator, c, hang) = hang

-- `tls_secret_keys[0]` panics without a key, and `expect` where rustls refuses the chain.
unfoldable pub tls_config :
    (List Bytes → Bytes → Bool) → KeServerConfig → Outcome RotateError TlsServerConfig
tls_config fits config = do
  secret_key ← first_of config.tls_secret_keys
  (if fits config.tls_certs secret_key
      then ok (record {
        chain = config.tls_certs;
        secret_key = secret_key;
        protocols = codes "ntske/1" ∷ [];
      })
      else panic)

-- `connected` is the result of `KeyRotator::connect` with the prefix, the url and the cookie key.
unfoldable pub connect :
    Run → (List Bytes → Bytes → Bool) → KeServerConfig → Outcome RotateError KeServer
unfolding tls_config
connect connected fits config = do
  rotator ← connected_rotator connected
  tls_server_config ← tls_config fits config
  ok (record {
    state = record { config = config; rotator = rotator; tls_server_config = tls_server_config };
    listeners = [];
  })

-- The loop of `start` over the addresses: it stops at the first that is not bound. The listeners
-- of the server before it are kept.
unfoldable pub bind_listeners :
    (SocketAddr → Bool) → KeServer → List SocketAddr → KeServer × Outcome SocketAddr (Unit {0})
bind_listeners binds server [] = (server, ok tt)
bind_listeners binds server (addr ∷ addrs) =
    let more =
      bind_listeners binds (record server { listeners = server.listeners ++ (addr ∷ []) }) addrs in
    if binds addr then more else (server, err addr)

unfoldable pub start : (SocketAddr → Bool) → KeServer → KeServer × Outcome SocketAddr (Unit {0})
unfolding bind_listeners
start binds server = bind_listeners binds server server.state.config.addrs
