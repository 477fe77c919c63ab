-- ===== src/Commands/NtpServer.antt =====
-- src/sub_command/ntp_server.rs: the command `ntp-server`, from the name of a file to a running server.
use cfnts.Base.{
  ℕ, ◌^◌, ◌<◌, Bytes, Bool, Option, some, none, Outcome, ok, err, panic, hang, codes, ◌≡◌, refl,
  subst⁻¹,
}
use cfnts.KeyRotator as Rotator
use cfnts.KeyRotator.{Counters, Memcache, Run}
use cfnts.KeyRotator.Connect.{LatestAt, connect-LatestAt}
use cfnts.Protocol.Aead.{Aead}
use cfnts.Ntp.Clock.{Floats, SystemTime}
use cfnts.Ntp.Server.Run.{StartError, NtpServer, start_ntp_server}
use cfnts.Ntp.Server.Run.Starts.{IsStarted, shared_at, start_ntp_server-serves}
use cfnts.Ntp.Server.Run.Steps.{Shared, Reachable}
use cfnts.Ntp.Server.Run.Serving.{IsServing}
use cfnts.Config.Settings.{ConfigError, SocketAddr, System}
use cfnts.Config.Ntp.{NtpServerConfig, parse}
use cfnts.Config.Ntp.Reads.{IsNtpConfig, parse-IsNtpConfig}

-- How the command ends: with a server that serves, with `process::exit(1)`, or by a panic.
pub data Exit : Type 0 where
  serves : NtpServer → Exit
  exits : Exit
  crashes : Exit

unfoldable pub resolve_config_filename : Option Bytes → Bytes
resolve_config_filename (some filename) = filename
resolve_config_filename none = codes "/etc/cfnts/ntp-server.config"

-- The `if let` behind `start_ntp_server`.
abbrev pub after_start : Outcome StartError NtpServer → Exit
after_start (ok server) = serves server
after_start (err e) = exits
after_start panic = crashes
after_start hang = crashes

-- The clock and the memcached server of each try of `KeyRotator::connect` are `world`.
module _ (sign : Bytes → Bytes → Bytes) (world : ℕ → ℕ × Memcache) (c : Counters) (sys : System)
    (binds : Bool) (listens : SocketAddr → Bool) (now : SystemTime) where
  -- `KeyRotator::connect` with the arguments that `start_ntp_server` gives it.
  abbrev pub rotator_of : NtpServerConfig → Run
  rotator_of config =
      Rotator.connect sign world (codes "/nts/nts-keys") config.memcached_url config.cookie_key c

  -- The `match` behind `NtpServerConfig::parse`.
  abbrev pub after_parse : Outcome ConfigError NtpServerConfig → Exit
  after_parse (ok config) =
      after_start (start_ntp_server (rotator_of config) binds listens now config)
  after_parse (err e) = exits
  after_parse panic = crashes
  after_parse hang = crashes

  -- `configfile` is the value of the argument, if it was given.
  unfoldable pub run : Option Bytes → Exit
  unfolding resolve_config_filename
  run configfile = after_parse (parse sys (resolve_config_filename configfile))

  after_start-serves :
      (m : Outcome StartError NtpServer) {s : NtpServer} → after_start m ≡ serves s → m ≡ ok s
  after_start-serves (ok server) h = cc
  after_start-serves (err e) h = cc
  after_start-serves panic h = cc
  after_start-serves hang h = cc

  after_parse-serves :
      (m : Outcome ConfigError NtpServerConfig) {s : NtpServer}
      → after_parse m ≡ serves s
      → (config : NtpServerConfig) × (m ≡ ok config)
        × (start_ntp_server (rotator_of config) binds listens now config ≡ ok s)
  after_parse-serves (ok config) h = (config, refl, after_start-serves _ h)
  after_parse-serves (err e) h = cc
  after_parse-serves panic h = cc
  after_parse-serves hang h = cc

  -- A server that was started as configured, and a state that its threads have come to.
  pub record IsRunning (f : Floats) (aead : Aead) (filename : Bytes) (s : NtpServer) (s' : Shared)
      : Type 0 where
    pub config : NtpServerConfig
    pub configured : IsNtpConfig sys filename config
    pub started : IsStarted (rotator_of config) listens now config s
    pub try : ℕ
    pub latest : LatestAt sign world s.rotator try
    pub serving : IsServing f aead s'

  -- If the command `ntp-server` comes to serving, and the time of every try to connect to memcached
  -- is below 2 ^ 63: the settings of the named file, or of the default one, describe its
  -- configuration; it serves every address of it, in its order, and starts at stratum 1 exactly if
  -- it has no upstream server; its rotator has the latest key of the hour of one of the tries. In
  -- every state that its threads come to, in whatever order they run and if some end by a panic of
  -- `response`: each reply went to the sender of a message, with the packet information of that
  -- message, of one version of IP, and the bytes that `response` returned for its datagram; there are
  -- no more replies than counted queries, and no more counted queries than replies, mangled packets
  -- and ended threads; the counted causes are no more than the kisses of death, these no more than
  -- the NTS queries and these no more than the queries; and the state of the server holds values of
  -- its Rust types.
  pub run-IsRunning :
      (f : Floats) (aead : Aead) (configfile : Option Bytes) (s : NtpServer) (rotations : Counters)
      (s' : Shared)
      → ((j : ℕ) → (world j).0 < 2 ^ 63)
      → run configfile ≡ serves s
      → Reachable f aead sign (shared_at s rotations) s'
      → IsRunning f aead (resolve_config_filename configfile) s s'
  unfolding run
  run-IsRunning f aead configfile s rotations s' early h reach =
      let filename = resolve_config_filename configfile in
      let (config, p, h1) = after_parse-serves (parse sys filename) h in
      let (started, serving) =
        start_ntp_server-serves (rotator_of config) binds listens now config s h1 f aead sign
          rotations reach in
      let (try, _, _, latest) =
        connect-LatestAt sign world (codes "/nts/nts-keys") config.memcached_url config.cookie_key c
          early started.connects in
      record {
        config = config;
        configured = parse-IsNtpConfig sys filename config p;
        started = started;
        try = try;
        latest = subst⁻¹ (λ r. LatestAt sign world r try) started.rotator latest;
        serving = serving;
      }
