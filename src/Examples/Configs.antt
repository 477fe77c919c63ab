-- ===== src/Examples/Configs.antt =====
-- Examples on the configurations.
use cfnts.Base.{[], ◌∷◌, Bytes, some, none, Option, ok, List, codes, arith, ◌≡◌, ◌↔◌, refl}
use cfnts.Config.Settings.{
  pos, value, Settings, OpenFile, opened, SocketAddr, System, as_u16, get_metrics_config,
}
use cfnts.Config.Ke as KeConfig
use cfnts.Config.Ke.Reads.{IsKeConfig}
use cfnts.Config.Ke.Accepts.{parse-iff-IsKeConfig}
use cfnts.Config.Ntp as NtpConfig
use cfnts.Config.Ntp.Reads.{IsNtpConfig}
use cfnts.Config.Ntp.Accepts.{parse-iff-IsNtpConfig}
use cfnts.Examples.Data.{keys, master_key}

-- Settings with the same value for each key, and a system whose files hold one certificate and the
-- given keys.
abbrev pub settings : Settings
settings = record {
  get_string = λ key. value (codes "name");
  get_int = λ key. value (pos 123);
  get_array = λ key. value (codes "here" ∷ []);
}

abbrev pub address : SocketAddr
address = record { ip = 127 ∷ 0 ∷ 0 ∷ 1 ∷ []; port = 4460 }

abbrev pub system_with : Option (List Bytes) → System
system_with keys = record {
  build = λ name. some settings;
  open_file = λ name. opened (record { contents = master_key; read_error = none });
  certs = λ file. some ((1 ∷ []) ∷ []);
  pkcs8_private_keys = λ file. keys;
  parse_socket_addr = λ text. some address;
  parse_ip_addr = λ text. some (10 ∷ 0 ∷ 0 ∷ 1 ∷ []);
}

abbrev pub system : System
system = system_with (some ((2 ∷ []) ∷ []))

abbrev pub config_with : List Bytes → KeConfig.KeServerConfig
config_with keys = record {
  addrs = address ∷ [];
  cookie_key = master_key;
  timeout = 123;
  memcached_url = codes "name";
  metrics_config = some (record { port = 123; addr = codes "name" });
  next_port = 123;
  tls_certs = (1 ∷ []) ∷ [];
  tls_secret_keys = keys;
}

parse-iff-IsKeConfig_example :
    (KeConfig.parse system (codes "file") ≡ ok (config_with ((2 ∷ []) ∷ [])))
    ↔ IsKeConfig system (codes "file") (config_with ((2 ∷ []) ∷ []))
parse-iff-IsKeConfig_example =
    parse-iff-IsKeConfig system (codes "file") (config_with ((2 ∷ []) ∷ []))

abbrev pub ntp_config : NtpConfig.NtpServerConfig
ntp_config = record {
  addrs = address ∷ [];
  cookie_key = master_key;
  memcached_url = codes "name";
  metrics_config = some (record { port = 123; addr = codes "name" });
  upstream_addr = some (record { ip = 10 ∷ 0 ∷ 0 ∷ 1 ∷ []; port = 123 });
}

parse-iff-IsNtpConfig_example :
    (NtpConfig.parse system (codes "file") ≡ ok ntp_config)
    ↔ IsNtpConfig system (codes "file") ntp_config
parse-iff-IsNtpConfig_example = parse-iff-IsNtpConfig system (codes "file") ntp_config

abbrev file : OpenFile
file = record { contents = master_key; read_error = none }

pub ke_config_of :
    (keys : List Bytes) (name : Bytes)
    → KeConfig.parse (system_with (some keys)) name ≡ ok (config_with keys)
ke_config_of keys name =
    (parse-iff-IsKeConfig (system_with (some keys)) name (config_with keys)).1 (record {
      settings = settings;
      built = refl;
      port = refl;
      port_u16 = omega arith;
      url = refl;
      timeout = (refl, omega arith);
      metrics = unfold get_metrics_config as_u16 in refl;
      certs_name = codes "name";
      certs_setting = refl;
      keys_name = codes "name";
      keys_setting = refl;
      cookie_name = codes "name";
      cookie_setting = refl;
      cookie_file = file;
      cookie_open = refl;
      cookie_whole = refl;
      cookie = refl;
      files = record {
        certs_file = file;
        certs_open = refl;
        certs = refl;
        keys_file = file;
        keys_open = refl;
        keys = refl;
        texts = codes "here" ∷ [];
        addrs_setting = refl;
        addrs = (refl, tt);
      };
    })

pub ntp_config_of : (name : Bytes) → NtpConfig.parse system name ≡ ok ntp_config
ntp_config_of name = (parse-iff-IsNtpConfig system name ntp_config).1 (record {
  settings = settings;
  built = refl;
  url = refl;
  metrics = unfold get_metrics_config as_u16 in refl;
  upstream = (123, refl, omega arith, 10 ∷ 0 ∷ 0 ∷ 1 ∷ [], refl, refl);
  cookie_name = codes "name";
  cookie_setting = refl;
  cookie_file = file;
  cookie_open = refl;
  cookie_whole = refl;
  cookie = refl;
  texts = codes "here" ∷ [];
  addrs_setting = refl;
  addrs = (refl, tt);
})
