-- ===== src/Config/Ntp.antt =====
-- src/ntp/server/config.rs: `NtpServerConfig` and its `parse`. The logger is left out.
pub mod Reads
pub mod Accepts
use cfnts.Base.{
  ℕ, List, [], ◌∷◌, ◌++◌, Bytes, Option, some, none, Outcome, ok, err, panic, hang, ◌>>=◌, map_err,
  unwrap, ok_or,
}
use cfnts.Config.Settings.{
  ℤ, Setting, value, missing, unreadable, Settings, ConfigError, message, other, foreign, Cause,
  no_address, SocketAddr, System, get, MetricsConfig, get_metrics_config, parse_cookie_key,
  u16_try_from,
}

pub record NtpServerConfig : Type 0 where
  pub addrs : List SocketAddr
  pub cookie_key : Bytes
  pub memcached_url : Bytes
  pub metrics_config : Option MetricsConfig
  pub upstream_addr : Option SocketAddr

-- `NtpServerConfig::new`, with its arguments in their order.
abbrev pub new : Bytes → Bytes → Option MetricsConfig → Option SocketAddr → NtpServerConfig
new cookie_key memcached_url metrics_config upstream_addr = record {
  addrs = [];
  cookie_key = cookie_key;
  memcached_url = memcached_url;
  metrics_config = metrics_config;
  upstream_addr = upstream_addr;
}

abbrev pub add_address : NtpServerConfig → SocketAddr → NtpServerConfig
add_address config addr = record config { addrs = config.addrs ++ (addr ∷ []) }

-- The port of the upstream server, none if it is missing.
unfoldable pub resolve_upstream_port : Setting ℤ → Outcome ConfigError (Option ℕ)
unfolding u16_try_from
resolve_upstream_port missing = ok none
resolve_upstream_port unreadable = err (other "upstream_port")
resolve_upstream_port (value val) = do
  port ← ok_or (message "the upstream port is not a valid u64") (u16_try_from val)
  ok (some port)

-- The address of the upstream server, none if it is missing.
unfoldable pub resolve_upstream_addr : Setting Bytes → Outcome ConfigError (Option Bytes)
resolve_upstream_addr missing = ok none
resolve_upstream_addr unreadable = err (other "upstream_addr")
resolve_upstream_addr (value addr) = ok (some addr)

module _ (sys : System) where
  -- Both of the address and the port, or none.
  unfoldable pub upstream_sock_addr :
      Option Bytes → Option ℕ → Outcome ConfigError (Option SocketAddr)
  upstream_sock_addr (some addr) (some port) = do
    ip ← ok_or (foreign (no_address addr)) (sys.parse_ip_addr addr)
    ok (some (record { ip = ip; port = port }))
  upstream_sock_addr none _ = ok none
  upstream_sock_addr (some addr) none = ok none

  -- The loop over the addresses.
  unfoldable pub add_addresses : NtpServerConfig → List Bytes → Outcome ConfigError NtpServerConfig
  add_addresses config [] = ok config
  add_addresses config (addr ∷ addrs) = do
    sock_addr ← ok_or (foreign (no_address addr)) (sys.parse_socket_addr addr)
    add_addresses (add_address config sock_addr) addrs

  -- The settings of a file that cannot be built make `expect` panic.
  unfoldable pub parse : Bytes → Outcome ConfigError NtpServerConfig
  unfolding resolve_upstream_port resolve_upstream_addr upstream_sock_addr get_metrics_config
      parse_cookie_key add_addresses
  parse filename = do
    settings ← unwrap (sys.build filename)
    memcached_url ← get "memc_url" settings.get_string
    let metrics_config = get_metrics_config settings
    upstream_port ← resolve_upstream_port (settings.get_int "upstream_port")
    upstream_addr ← resolve_upstream_addr (settings.get_string "upstream_addr")
    sock_addr ← upstream_sock_addr upstream_addr upstream_port
    cookie_key_filename ← get "cookie_key_file" settings.get_string
    cookie_key ← map_err foreign (parse_cookie_key sys cookie_key_filename)
    let config = new cookie_key memcached_url metrics_config sock_addr
    addrs ← get "addr" settings.get_array
    add_addresses config addrs
