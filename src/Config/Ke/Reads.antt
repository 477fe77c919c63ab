-- ===== src/Config/Ke/Reads.antt =====
-- src/nts_ke/server/config.rs: the configurations that `parse` returns, described by the settings.
use cfnts.Base.{
  ℕ, ◌^◌, ◌<◌, List, [], ◌∷◌, ◌++◌, append_assoc, append-nil, Bytes, some, none, ok, bind-eq-ok,
  map_err, map_err-ok, unwrap, ok_or, unwrap-ok, ok_or-ok, IsU16, arith, ◌≡◌, refl, ap, sym,
  subst⁻¹, ◌∙◌,
}
use cfnts.Config.Settings.{
  ℤ, pos, Setting, value, missing, unreadable, Settings, foreign, OpenFile, opened, SocketAddr,
  System, get, found-ok, u16_try_from-some, u64_try_from-some, get_metrics_config, open_at,
  io_result-ok, parse_cookie_key, parse_cookie_key-ok, u16_try_from, u64_try_from, AreAddrs,
}
use cfnts.Config.Ke.{
  KeServerConfig, new, add_tls_certs, add_tls_secret_keys, resolve_next_port, resolve_timeout,
  import_tls_certs, import_tls_secret_keys, add_addresses, fill, parse,
}

-- The timeout that a setting stands for.
abbrev pub IsTimeout : Setting ℤ → ℕ → Type 0
IsTimeout missing t = t ≡ 30
IsTimeout unreadable t = ⊥
IsTimeout (value val) t = (val ≡ pos t) × (t < 2 ^ 64)

-- What `parse` reads from files: the names are settings, the files open, and hold PEM certificates and
-- keys; and the addresses.
pub record AreFiles (sys : System) (settings : Settings) (certs_name keys_name : Bytes)
    (config : KeServerConfig) : Type 0 where
  pub certs_file : OpenFile
  pub certs_open : sys.open_file certs_name ≡ opened certs_file
  pub certs : sys.certs certs_file ≡ some config.tls_certs
  pub keys_file : OpenFile
  pub keys_open : sys.open_file keys_name ≡ opened keys_file
  pub keys : sys.pkcs8_private_keys keys_file ≡ some config.tls_secret_keys
  pub texts : List Bytes
  pub addrs_setting : settings.get_array "addr" ≡ value texts
  pub addrs : AreAddrs sys texts config.addrs

pub record IsKeConfig (sys : System) (filename : Bytes) (config : KeServerConfig) : Type 0 where
  pub settings : Settings
  pub built : sys.build filename ≡ some settings
  pub port : settings.get_int "next_port" ≡ value (pos config.next_port)
  pub port_u16 : config.next_port < 2 ^ 16
  pub url : settings.get_string "memc_url" ≡ value config.memcached_url
  pub timeout : IsTimeout (settings.get_int "conn_timeout") config.timeout
  pub metrics : config.metrics_config ≡ get_metrics_config settings
  pub certs_name : Bytes
  pub certs_setting : settings.get_string "tls_cert_file" ≡ value certs_name
  pub keys_name : Bytes
  pub keys_setting : settings.get_string "tls_key_file" ≡ value keys_name
  pub cookie_name : Bytes
  pub cookie_setting : settings.get_string "cookie_key_file" ≡ value cookie_name
  pub cookie_file : OpenFile
  pub cookie_open : sys.open_file cookie_name ≡ opened cookie_file
  pub cookie_whole : cookie_file.read_error ≡ none
  pub cookie : cookie_file.contents ≡ config.cookie_key
  pub files : AreFiles sys settings certs_name keys_name config

pub add_tls_certs_lem :
    (config : KeServerConfig) (certs : List Bytes)
    → add_tls_certs config certs ≡ record config { tls_certs = config.tls_certs ++ certs }
unfolding add_tls_certs
add_tls_certs_lem config [] = rw append-nil refl
add_tls_certs_lem config (cert ∷ certs) =
    add_tls_certs_lem (record config { tls_certs = config.tls_certs ++ (cert ∷ []) }) certs
    ∙ rw append_assoc refl

pub add_tls_secret_keys_lem :
    (config : KeServerConfig) (keys : List Bytes)
    → add_tls_secret_keys config keys
      ≡ record config { tls_secret_keys = config.tls_secret_keys ++ keys }
unfolding add_tls_secret_keys
add_tls_secret_keys_lem config [] = rw append-nil refl
add_tls_secret_keys_lem config (key ∷ keys) =
    add_tls_secret_keys_lem
      (record config { tls_secret_keys = config.tls_secret_keys ++ (key ∷ []) }) keys
    ∙ rw append_assoc refl

resolve_timeout-ok : (s : Setting ℤ) {t : ℕ} → resolve_timeout s ≡ ok t → IsTimeout s t
unfolding resolve_timeout
resolve_timeout-ok missing h = ground arith
resolve_timeout-ok unreadable h = cc
resolve_timeout-ok (value val) h = u64_try_from-some val (ok_or-ok _ (u64_try_from val) h)

module _ (sys : System) where
  add_addresses-ok :
      (config : KeServerConfig) (texts : List Bytes) {r : KeServerConfig}
      → add_addresses sys config texts ≡ ok r
      → (addrs : List SocketAddr) × AreAddrs sys texts addrs
        × (r ≡ record config { addrs = config.addrs ++ addrs })
  unfolding add_addresses
  add_addresses-ok config [] h = ([], tt, rw append-nil cc)
  add_addresses-ok config (text ∷ texts) h =
      let (addr, p, k) = bind-eq-ok (ok_or _ (sys.parse_socket_addr text)) _ h in
      let (addrs, all, e) =
        add_addresses-ok (record config { addrs = config.addrs ++ (addr ∷ []) }) texts k in
      (addr ∷ addrs, (ok_or-ok _ (sys.parse_socket_addr text) p, all), e ∙ rw append_assoc refl)

  import_tls_certs-ok :
      (config : KeServerConfig) (filename : Bytes) {r : KeServerConfig}
      → import_tls_certs sys config filename ≡ ok r
      → (file : OpenFile) × (certs : List Bytes) × (sys.open_file filename ≡ opened file)
        × (sys.certs file ≡ some certs)
        × (r ≡ record config { tls_certs = config.tls_certs ++ certs })
  unfolding import_tls_certs
  import_tls_certs-ok config filename h =
      let (file, o, k) = bind-eq-ok (open_at sys filename) _ h in
      let (certs, p, e) = bind-eq-ok (ok_or _ (sys.certs file)) _ k in
      (
        file,
        certs,
        io_result-ok (sys.open_file filename) o,
        ok_or-ok _ (sys.certs file) p,
        rw (← add_tls_certs_lem config certs) cc,
      )

  import_tls_secret_keys-ok :
      (config : KeServerConfig) (filename : Bytes) {r : KeServerConfig}
      → import_tls_secret_keys sys config filename ≡ ok r
      → (file : OpenFile) × (keys : List Bytes) × (sys.open_file filename ≡ opened file)
        × (sys.pkcs8_private_keys file ≡ some keys)
        × (r ≡ record config { tls_secret_keys = config.tls_secret_keys ++ keys })
  unfolding import_tls_secret_keys
  import_tls_secret_keys-ok config filename h =
      let (file, o, k) = bind-eq-ok (open_at sys filename) _ h in
      let (keys, p, e) = bind-eq-ok (ok_or _ (sys.pkcs8_private_keys file)) _ k in
      (
        file,
        keys,
        io_result-ok (sys.open_file filename) o,
        ok_or-ok _ (sys.pkcs8_private_keys file) p,
        rw (← add_tls_secret_keys_lem config keys) cc,
      )

  -- The configuration `base` has no certificates, keys and addresses yet.
  fill-AreFiles :
      (settings : Settings) (certs_name keys_name : Bytes) (base : KeServerConfig)
      {r : KeServerConfig}
      → fill sys settings certs_name keys_name base ≡ ok r
      → base.tls_certs ≡ []
      → base.tls_secret_keys ≡ []
      → base.addrs ≡ []
      → AreFiles sys settings certs_name keys_name r
        × (r ≡ record base {
          addrs = r.addrs;
          tls_certs = r.tls_certs;
          tls_secret_keys = r.tls_secret_keys;
        })
  unfolding fill
  fill-AreFiles settings certs_name keys_name base {r} h no_certs no_keys no_addrs =
      let (with_certs, wc, h1) =
        bind-eq-ok (map_err foreign (import_tls_certs sys base certs_name)) _ h in
      let (with_keys, wk, h2) =
        bind-eq-ok (map_err foreign (import_tls_secret_keys sys with_certs keys_name)) _ h1 in
      let (texts, ts, h3) = bind-eq-ok (get "addr" settings.get_array) _ h2 in
      let (certs_file, certs, co, cf, ce) =
        import_tls_certs-ok base certs_name
          (map_err-ok foreign (import_tls_certs sys base certs_name) wc) in
      let (keys_file, keys, ko, kf, ke) =
        import_tls_secret_keys-ok with_certs keys_name
          (map_err-ok foreign (import_tls_secret_keys sys with_certs keys_name) wk) in
      let (addrs, as_read, ae) = add_addresses-ok with_keys texts h3 in
      let final : r ≡ record base { addrs = addrs; tls_certs = certs; tls_secret_keys = keys } =
        ground (arith, ae, ke, ce) in
      let all : r.addrs ≡ addrs = ap (λ (c : KeServerConfig). c.addrs) final in
      let all_certs : r.tls_certs ≡ certs = ap (λ (c : KeServerConfig). c.tls_certs) final in
      let all_keys : r.tls_secret_keys ≡ keys =
        ap (λ (c : KeServerConfig). c.tls_secret_keys) final in
      (
        record {
          certs_file = certs_file;
          certs_open = co;
          certs = cf ∙ ap some (sym all_certs);
          keys_file = keys_file;
          keys_open = ko;
          keys = kf ∙ ap some (sym all_keys);
          texts = texts;
          addrs_setting = found-ok "addr" (settings.get_array "addr") ts;
          addrs = subst⁻¹ (AreAddrs sys texts) all as_read;
        },
        ground (arith, final),
      )

  pub parse-IsKeConfig :
      (filename : Bytes) (config : KeServerConfig)
      → parse sys filename ≡ ok config
      → IsKeConfig sys filename config
  unfolding parse resolve_next_port
  parse-IsKeConfig filename config h =
      let (settings, s, h1) = bind-eq-ok (unwrap (sys.build filename)) _ h in
      let (port, p, h2) = bind-eq-ok (get "next_port" settings.get_int) _ h1 in
      let (next_port, np, h3) = bind-eq-ok (resolve_next_port port) _ h2 in
      let (url, u, h4) = bind-eq-ok (get "memc_url" settings.get_string) _ h3 in
      let (timeout, t, h5) = bind-eq-ok (resolve_timeout (settings.get_int "conn_timeout")) _ h4 in
      let (certs_name, cn, h6) = bind-eq-ok (get "tls_cert_file" settings.get_string) _ h5 in
      let (keys_name, kn, h7) = bind-eq-ok (get "tls_key_file" settings.get_string) _ h6 in
      let (cookie_name, ckn, h8) = bind-eq-ok (get "cookie_key_file" settings.get_string) _ h7 in
      let (cookie_key, ck, h9) =
        bind-eq-ok (map_err foreign (parse_cookie_key sys cookie_name)) _ h8 in
      let (cookie_file, cko, whole, contents) =
        parse_cookie_key-ok sys cookie_name
          (map_err-ok foreign (parse_cookie_key sys cookie_name) ck) in
      let (pp, small) = u16_try_from-some port (ok_or-ok _ (u16_try_from port) np) in
      let base = new timeout cookie_key url (get_metrics_config settings) next_port in
      let (files, e) = fill-AreFiles settings certs_name keys_name base h9 refl refl refl in
      let e_port = ap (λ (c : KeServerConfig). c.next_port) e in
      record {
        settings = settings;
        built = unwrap-ok (sys.build filename) s;
        port =
            found-ok "next_port" (settings.get_int "next_port") p
            ∙ ap value (pp ∙ ap pos (sym e_port));
        port_u16 = subst⁻¹ IsU16 e_port small;
        url =
            found-ok "memc_url" (settings.get_string "memc_url") u
            ∙ ap (λ (c : KeServerConfig). value c.memcached_url) (sym e);
        timeout =
            subst⁻¹ (IsTimeout (settings.get_int "conn_timeout"))
              (ap (λ (c : KeServerConfig). c.timeout) e)
              (resolve_timeout-ok (settings.get_int "conn_timeout") t);
        metrics = ap (λ (c : KeServerConfig). c.metrics_config) e;
        certs_name = certs_name;
        certs_setting = found-ok "tls_cert_file" (settings.get_string "tls_cert_file") cn;
        keys_name = keys_name;
        keys_setting = found-ok "tls_key_file" (settings.get_string "tls_key_file") kn;
        cookie_name = cookie_name;
        cookie_setting = found-ok "cookie_key_file" (settings.get_string "cookie_key_file") ckn;
        cookie_file = cookie_file;
        cookie_open = cko;
        cookie_whole = whole;
        cookie = contents ∙ ap (λ (c : KeServerConfig). c.cookie_key) (sym e);
        files = files;
      }
