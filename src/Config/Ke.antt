-- ===== src/Config/Ke.antt =====
-- src/nts_ke/server/config.rs: `KeServerConfig` and its `parse`. The logger is left out.
pub mod Reads
pub mod Accepts
use cfnts.Base.{
  ℕ, List, [], ◌∷◌, ◌++◌, Bytes, Option, some, none, Outcome, ok, err, panic, hang, ◌>>=◌, map_err,
  unwrap, ok_or,
}
use cfnts.Config.Settings.{
  ℤ, Setting, value, missing, unreadable, Settings, ConfigError, message, other, foreign, Cause,
  no_certs, no_secret_keys, no_address, OpenFile, SocketAddr, System, get, MetricsConfig,
  get_metrics_config, open_at, parse_cookie_key, u16_try_from, u64_try_from,
}

pub record KeServerConfig : Type 0 where
  pub addrs : List SocketAddr
  pub cookie_key : Bytes
  pub timeout : ℕ
  pub memcached_url : Bytes
  pub metrics_config : Option MetricsConfig
  pub next_port : ℕ
  pub tls_certs : List Bytes
  pub tls_secret_keys : List Bytes

-- `KeServerConfig::new`, with its arguments in their order.
abbrev pub new : ℕ → Bytes → Bytes → Option MetricsConfig → ℕ → KeServerConfig
new timeout cookie_key memcached_url metrics_config next_port = record {
  addrs = [];
  cookie_key = cookie_key;
  timeout = timeout;
  memcached_url = memcached_url;
  metrics_config = metrics_config;
  next_port = next_port;
  tls_certs = [];
  tls_secret_keys = [];
}

abbrev pub add_tls_cert : KeServerConfig → Bytes → KeServerConfig
add_tls_cert config cert = record config { tls_certs = config.tls_certs ++ (cert ∷ []) }

abbrev pub add_tls_secret_key : KeServerConfig → Bytes → KeServerConfig
add_tls_secret_key config key = record config {
  tls_secret_keys = config.tls_secret_keys ++ (key ∷ []);
}

abbrev pub add_address : KeServerConfig → SocketAddr → KeServerConfig
add_address config addr = record config { addrs = config.addrs ++ (addr ∷ []) }

-- The loops of the two imports.
unfoldable pub add_tls_certs : KeServerConfig → List Bytes → KeServerConfig
add_tls_certs config [] = config
add_tls_certs config (cert ∷ certs) = add_tls_certs (add_tls_cert config cert) certs

unfoldable pub add_tls_secret_keys : KeServerConfig → List Bytes → KeServerConfig
add_tls_secret_keys config [] = config
add_tls_secret_keys config (key ∷ keys) = add_tls_secret_keys (add_tls_secret_key config key) keys

-- The next port, which is mandatory.
unfoldable pub resolve_next_port : ℤ → Outcome ConfigError ℕ
unfolding u16_try_from
resolve_next_port val = ok_or (message "the next port is not a valid u16") (u16_try_from val)

-- The connection timeout, 30 seconds if there is none.
unfoldable pub resolve_timeout : Setting ℤ → Outcome ConfigError ℕ
unfolding u64_try_from
resolve_timeout missing = ok 30
resolve_timeout unreadable = err (other "conn_timeout")
resolve_timeout (value val) =
    ok_or (message "the connection timeout is not a valid u64") (u64_try_from val)

module _ (sys : System) where
  unfoldable pub import_tls_certs : KeServerConfig → Bytes → Outcome Cause KeServerConfig
  unfolding add_tls_certs
  import_tls_certs config filename = do
    file ← open_at sys filename
    certs ← ok_or (no_certs filename) (sys.certs file)
    ok (add_tls_certs config certs)

  unfoldable pub import_tls_secret_keys : KeServerConfig → Bytes → Outcome Cause KeServerConfig
  unfolding add_tls_secret_keys
  import_tls_secret_keys config filename = do
    file ← open_at sys filename
    secret_keys ← ok_or (no_secret_keys filename) (sys.pkcs8_private_keys file)
    ok (add_tls_secret_keys config secret_keys)

  -- The loop over the addresses.
  unfoldable pub add_addresses : KeServerConfig → List Bytes → Outcome ConfigError KeServerConfig
  add_addresses config [] = ok config
  add_addresses config (addr ∷ addrs) = do
    sock_addr ← ok_or (foreign (no_address addr)) (sys.parse_socket_addr addr)
    add_addresses (add_address config sock_addr) addrs

  -- The end of `parse`: what is read from files, and the addresses.
  unfoldable pub fill :
      Settings → Bytes → Bytes → KeServerConfig → Outcome ConfigError KeServerConfig
  unfolding import_tls_certs import_tls_secret_keys add_addresses
  fill settings certs_filename secret_keys_filename config = do
    with_certs ← map_err foreign (import_tls_certs config certs_filename)
    with_keys ← map_err foreign (import_tls_secret_keys with_certs secret_keys_filename)
    addrs ← get "addr" settings.get_array
    add_addresses with_keys addrs

  -- The settings of a file that cannot be built make `expect` panic.
  unfoldable pub parse : Bytes → Outcome ConfigError KeServerConfig
  unfolding resolve_next_port resolve_timeout get_metrics_config parse_cookie_key fill
  parse filename = do
    settings ← unwrap (sys.build filename)
    port ← get "next_port" settings.get_int
    next_port ← resolve_next_port port
    memcached_url ← get "memc_url" settings.get_string
    timeout ← resolve_timeout (settings.get_int "conn_timeout")
    let metrics_config = get_metrics_config settings
    certs_filename ← get "tls_cert_file" settings.get_string
    secret_keys_filename ← get "tls_key_file" settings.get_string
    cookie_key_filename ← get "cookie_key_file" settings.get_string
    cookie_key ← map_err foreign (parse_cookie_key sys cookie_key_filename)
    fill settings certs_filename secret_keys_filename
        (new timeout cookie_key memcached_url metrics_config next_port)
