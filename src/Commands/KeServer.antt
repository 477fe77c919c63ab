-- ===== src/Commands/KeServer.antt =====
-- src/sub_command/ke_server.rs: the command `ke-server`, from the name of a file to a running server.
pub mod Listens
use cfnts.Base.{
  ℕ, ◌+◌, ◌*◌, ◌/◌, ◌%◌, ◌^◌, ◌<◌, ◌≤◌, List, [], ◌∷◌, ◌++◌, append_assoc, append-nil, Bytes, Bool,
  true, false, Option, some, none, Outcome, ok, err, panic, hang, ◌>>=◌, bind-eq-ok, ok_inj,
  first_of, first_of-ok, codes, All, Bool-cases, inl, inr, if◌then◌else◌, arith, ◌≡◌, refl, ap, sym,
  ◌∙◌,
}
use cfnts.KeyRotator as Rotator
use cfnts.KeyRotator.{RotateError, KeyRotator, Counters, Memcache, Run}
use cfnts.KeyRotator.Connect.{LatestAt, connect-LatestAt}
use cfnts.Config.Settings.{ConfigError, SocketAddr, System}
use cfnts.Config.Ke.{KeServerConfig, parse}
use cfnts.Config.Ke.Reads.{IsKeConfig, parse-IsKeConfig}
use cfnts.Ke.Setup.{KeServer, connected_rotator, tls_config, connect, bind_listeners, start}

-- How the command ends: with a server whose listeners listen, with `process::exit(1)`, or by a panic.
pub data Exit : Type 0 where
  listens : KeServer → Exit
  exits : Exit
  crashes : Exit

unfoldable pub resolve_config_filename : Option Bytes → Bytes
resolve_config_filename (some filename) = filename
resolve_config_filename none = codes "/etc/cfnts/ke-server.config"

-- The `if let` behind `start`.
abbrev pub after_start : KeServer × Outcome SocketAddr (Unit {0}) → Exit
after_start (server, ok _) = listens server
after_start (server, err e) = exits
after_start (server, panic) = crashes
after_start (server, hang) = crashes

-- The `match` behind `KeServer::connect`.
abbrev pub after_connect : (SocketAddr → Bool) → Outcome RotateError KeServer → Exit
after_connect binds (ok server) = after_start (start binds server)
after_connect binds (err e) = exits
after_connect binds panic = crashes
after_connect binds hang = crashes

-- The clock and the memcached server of each try of `KeyRotator::connect` are `world`.
module _ (sign : Bytes → Bytes → Bytes) (world : ℕ → ℕ × Memcache) (c : Counters) (sys : System)
    (fits : List Bytes → Bytes → Bool) (binds : SocketAddr → Bool) where
  -- `KeyRotator::connect` with the arguments that `KeServer::connect` gives it.
  abbrev pub rotator_of : KeServerConfig → Run
  rotator_of config =
      Rotator.connect sign world (codes "/nts/nts-keys") config.memcached_url config.cookie_key c

  -- The `match` behind `KeServerConfig::parse`.
  abbrev pub after_parse : Outcome ConfigError KeServerConfig → Exit
  after_parse (ok config) = after_connect binds (connect (rotator_of config) fits config)
  after_parse (err e) = exits
  after_parse panic = crashes
  after_parse hang = crashes

  -- `configfile` is the value of the argument, if it was given.
  unfoldable pub run : Option Bytes → Exit
  unfolding resolve_config_filename
  run configfile = after_parse (parse sys (resolve_config_filename configfile))

  -- A server that listens.
  pub record IsListening (filename : Bytes) (s : KeServer) : Type 0 where
    pub config : KeServerConfig
    pub configured : IsKeConfig sys filename config
    pub addrs : s.listeners ≡ config.addrs
    pub all_bind : All (λ addr. binds addr ≡ true) config.addrs
    pub chain : s.state.tls_server_config.chain ≡ config.tls_certs
    pub secret_key : Bytes
    pub others : List Bytes
    pub keys : config.tls_secret_keys ≡ secret_key ∷ others
    pub uses : s.state.tls_server_config.secret_key ≡ secret_key
    pub fitting : fits config.tls_certs secret_key ≡ true
    pub try : ℕ
    pub latest : LatestAt sign world s.state.rotator try
