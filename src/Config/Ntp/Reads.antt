-- ===== src/Config/Ntp/Reads.antt =====
-- src/ntp/server/config.rs: the configurations that `parse` returns, described by the settings.
use cfnts.Base.{
  ℕ, ◌^◌, ◌<◌, List, [], ◌∷◌, ◌++◌, append_assoc, append-nil, Bytes, Option, some, none, ok,
  bind-eq-ok, map_err, map_err-ok, unwrap, ok_or, unwrap-ok, ok_or-ok, ◌≡◌, refl, ap, sym, subst⁻¹,
  ◌∙◌,
}
use cfnts.Config.Settings.{
  ℤ, pos, Setting, value, missing, unreadable, Settings, foreign, OpenFile, opened, SocketAddr,
  System, get, found-ok, u16_try_from-some, get_metrics_config, parse_cookie_key,
  parse_cookie_key-ok, u16_try_from, AreAddrs,
}
use cfnts.Config.Ntp.{
  NtpServerConfig, new, resolve_upstream_port, resolve_upstream_addr, upstream_sock_addr,
  add_addresses, parse,
}

-- The upstream server that two settings stand for: an address with a port if both are there, and
-- none if one is missing. A port that is there is a u16 in any case.
abbrev pub IsUpstream : System → Setting ℤ → Setting Bytes → Option SocketAddr → Type 0
IsUpstream sys missing missing up = up ≡ none
IsUpstream sys missing (value text) up = up ≡ none
IsUpstream sys (value val) missing up = (n : ℕ) × (val ≡ pos n) × (n < 2 ^ 16) × (up ≡ none)
IsUpstream sys (value val) (value text) up =
    (n : ℕ) × (val ≡ pos n)
    × (n < 2 ^ 16)
    × (ip : Bytes) × (sys.parse_ip_addr text ≡ some ip)
    × (up ≡ some (record { ip = ip; port = n }))
IsUpstream sys _ _ up = ⊥

pub record IsNtpConfig (sys : System) (filename : Bytes) (config : NtpServerConfig) : Type 0 where
  pub settings : Settings
  pub built : sys.build filename ≡ some settings
  pub url : settings.get_string "memc_url" ≡ value config.memcached_url
  pub metrics : config.metrics_config ≡ get_metrics_config settings
  pub upstream :
      IsUpstream sys
        (settings.get_int "upstream_port")
        (settings.get_string "upstream_addr")
        config.upstream_addr
  pub cookie_name : Bytes
  pub cookie_setting : settings.get_string "cookie_key_file" ≡ value cookie_name
  pub cookie_file : OpenFile
  pub cookie_open : sys.open_file cookie_name ≡ opened cookie_file
  pub cookie_whole : cookie_file.read_error ≡ none
  pub cookie : cookie_file.contents ≡ config.cookie_key
  pub texts : List Bytes
  pub addrs_setting : settings.get_array "addr" ≡ value texts
  pub addrs : AreAddrs sys texts config.addrs

module _ (sys : System) where
  upstream_port-value :
      (val : ℤ) (port : Option ℕ)
      → resolve_upstream_port (value val) ≡ ok port
      → (n : ℕ) × (val ≡ pos n) × (n < 2 ^ 16) × (port ≡ some n)
  unfolding resolve_upstream_port
  upstream_port-value val port h =
      let (n, p, e) = bind-eq-ok (ok_or _ (u16_try_from val)) _ h in
      let (v, small) = u16_try_from-some val (ok_or-ok _ (u16_try_from val) p) in (n, v, small, cc)

  -- What the three steps of `parse` come to that find the upstream server.
  upstream_sock_addr-IsUpstream :
      (port_setting : Setting ℤ) (addr_setting : Setting Bytes) (port : Option ℕ)
      (addr : Option Bytes) (up : Option SocketAddr)
      → resolve_upstream_port port_setting ≡ ok port
      → resolve_upstream_addr addr_setting ≡ ok addr
      → upstream_sock_addr sys addr port ≡ ok up
      → IsUpstream sys port_setting addr_setting up
  unfolding resolve_upstream_port resolve_upstream_addr upstream_sock_addr
  upstream_sock_addr-IsUpstream missing missing none none up p a h = cc
  upstream_sock_addr-IsUpstream missing (value text) none (some addr) up p a h = cc
  upstream_sock_addr-IsUpstream (value val) missing port none up p a h =
      let (n, v, small, e) = upstream_port-value val port p in (n, v, small, cc)
  upstream_sock_addr-IsUpstream (value val) (value text) (some port) (some addr) up p a h =
      let (n, v, small, e) = upstream_port-value val (some port) p in
      let (ip, q, k) = bind-eq-ok (ok_or _ (sys.parse_ip_addr addr)) _ h in
      let same : addr ≡ text = cc in
      (n, v, small, ip, ap sys.parse_ip_addr (sym same) ∙ ok_or-ok _ (sys.parse_ip_addr addr) q, cc)
  upstream_sock_addr-IsUpstream (value val) (value text) none (some addr) up p a h =
      let (n, v, small, e) = upstream_port-value val none p in cc
  upstream_sock_addr-IsUpstream missing addr_setting (some n) addr up p a h = cc
  upstream_sock_addr-IsUpstream missing missing none (some b) up p a h = cc
  upstream_sock_addr-IsUpstream missing (value text) none none up p a h = cc
  upstream_sock_addr-IsUpstream missing unreadable none addr up p a h = cc
  upstream_sock_addr-IsUpstream unreadable addr_setting port addr up p a h = cc
  upstream_sock_addr-IsUpstream (value val) unreadable port addr up p a h = cc
  upstream_sock_addr-IsUpstream (value val) missing port (some addr) up p a h = cc
  upstream_sock_addr-IsUpstream (value val) (value text) port none up p a h = cc

  add_addresses-ok :
      (config : NtpServerConfig) (texts : List Bytes) {r : NtpServerConfig}
      → add_addresses sys config texts ≡ ok r
      → (addrs : List SocketAddr) × AreAddrs sys texts addrs
        × (r ≡ record config { addrs = config.addrs ++ addrs })
  unfolding add_addresses
  add_addresses-ok config [] h = ([], tt, rw append-nil cc)
  add_addresses-ok config (text ∷ texts) h =
      let (addr, p, k) = bind-eq-ok (ok_or _ (sys.parse_socket_addr text)) _ h in
      let (addrs, all, e) =
        add_addresses-ok (record config { addrs = config.addrs ++ (addr ∷ []) }) texts k in
      (addr ∷ addrs, (ok_or-ok _ (sys.parse_socket_addr text) p, all), e ∙ rw append_assoc refl)

  pub parse-IsNtpConfig :
      (filename : Bytes) (config : NtpServerConfig)
      → parse sys filename ≡ ok config
      → IsNtpConfig sys filename config
  unfolding parse
  parse-IsNtpConfig filename config h =
      let (settings, s, h1) = bind-eq-ok (unwrap (sys.build filename)) _ h in
      let (url, u, h2) = bind-eq-ok (get "memc_url" settings.get_string) _ h1 in
      let (port, p, h3) =
        bind-eq-ok (resolve_upstream_port (settings.get_int "upstream_port")) _ h2 in
      let (addr, a, h4) =
        bind-eq-ok (resolve_upstream_addr (settings.get_string "upstream_addr")) _ h3 in
      let (up, k, h5) = bind-eq-ok (upstream_sock_addr sys addr port) _ h4 in
      let (cookie_name, ckn, h6) = bind-eq-ok (get "cookie_key_file" settings.get_string) _ h5 in
      let (cookie_key, ck, h7) =
        bind-eq-ok (map_err foreign (parse_cookie_key sys cookie_name)) _ h6 in
      let (texts, ts, h8) = bind-eq-ok (get "addr" settings.get_array) _ h7 in
      let (cookie_file, cko, whole, contents) =
        parse_cookie_key-ok sys cookie_name
          (map_err-ok foreign (parse_cookie_key sys cookie_name) ck) in
      let (addrs, as_read, e) =
        add_addresses-ok (new cookie_key url (get_metrics_config settings) up) texts h8 in
      record {
        settings = settings;
        built = unwrap-ok (sys.build filename) s;
        url =
            found-ok "memc_url" (settings.get_string "memc_url") u
            ∙ ap (λ (c : NtpServerConfig). value c.memcached_url) (sym e);
        metrics = ap (λ (c : NtpServerConfig). c.metrics_config) e;
        upstream =
            subst⁻¹
              (IsUpstream sys (settings.get_int "upstream_port")
                (settings.get_string "upstream_addr"))
              (ap (λ (c : NtpServerConfig). c.upstream_addr) e)
              (upstream_sock_addr-IsUpstream (settings.get_int "upstream_port")
                (settings.get_string "upstream_addr") port addr up p a k);
        cookie_name = cookie_name;
        cookie_setting = found-ok "cookie_key_file" (settings.get_string "cookie_key_file") ckn;
        cookie_file = cookie_file;
        cookie_open = cko;
        cookie_whole = whole;
        cookie = contents ∙ ap (λ (c : NtpServerConfig). c.cookie_key) (sym e);
        texts = texts;
        addrs_setting = found-ok "addr" (settings.get_array "addr") ts;
        addrs = subst⁻¹ (AreAddrs sys texts) (ap (λ (c : NtpServerConfig). c.addrs) e) as_read;
      }
