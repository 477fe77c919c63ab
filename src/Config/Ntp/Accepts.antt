-- ===== src/Config/Ntp/Accepts.antt =====
-- src/ntp/server/config.rs: `parse` returns every configuration that the settings describe.
use cfnts.Base.{
  ℕ, List, [], ◌∷◌, ◌++◌, append_assoc, append-nil, Bytes, Option, some, none, ok, ◌≡◌, ◌↔◌, refl,
  ap, sym, ◌∙◌,
}
use cfnts.Config.Settings.{
  ℤ, Setting, value, missing, unreadable, SocketAddr, System, u16_try_from-pos, parse_cookie_key,
  AreAddrs,
}
use cfnts.Config.Ntp.{
  NtpServerConfig, new, resolve_upstream_port, resolve_upstream_addr, upstream_sock_addr,
  add_addresses, parse,
}
use cfnts.Config.Ntp.Reads.{IsUpstream, IsNtpConfig, parse-IsNtpConfig}

module _ (sys : System) where
  add_addresses-AreAddrs :
      (config : NtpServerConfig) (texts : List Bytes) (addrs : List SocketAddr)
      → AreAddrs sys texts addrs
      → add_addresses sys config texts ≡ ok (record config { addrs = config.addrs ++ addrs })
  unfolding add_addresses
  add_addresses-AreAddrs config [] [] h = rw append-nil refl
  add_addresses-AreAddrs config [] (addr ∷ addrs) h = absurd h
  add_addresses-AreAddrs config (text ∷ texts) [] h = absurd h
  add_addresses-AreAddrs config (text ∷ texts) (addr ∷ addrs) (e, h) = rw e (
      add_addresses-AreAddrs (record config { addrs = config.addrs ++ (addr ∷ []) }) texts addrs h
      ∙ rw append_assoc refl)

  upstream-IsUpstream :
      (port_setting : Setting ℤ) (addr_setting : Setting Bytes) (up : Option SocketAddr)
      → IsUpstream sys port_setting addr_setting up
      → (port : Option ℕ) × (addr : Option Bytes) × (resolve_upstream_port port_setting ≡ ok port)
        × (resolve_upstream_addr addr_setting ≡ ok addr)
        × (upstream_sock_addr sys addr port ≡ ok up)
  unfolding resolve_upstream_port resolve_upstream_addr upstream_sock_addr
  upstream-IsUpstream missing missing up e = (none, none, refl, refl, ap ok (sym e))
  upstream-IsUpstream missing (value text) up e = (none, some text, refl, refl, ap ok (sym e))
  upstream-IsUpstream (value val) missing up (n, v, small, e) =
      (some n, none, rw (v, u16_try_from-pos n small) refl, refl, ap ok (sym e))
  upstream-IsUpstream (value val) (value text) up (n, v, small, ip, q, e) =
      (some n, some text, rw (v, u16_try_from-pos n small) refl, refl, rw (q, e) refl)
  upstream-IsUpstream missing unreadable up e = absurd e
  upstream-IsUpstream unreadable addr_setting up e = absurd e
  upstream-IsUpstream (value val) unreadable up e = absurd e

  IsNtpConfig-parse :
      (filename : Bytes) (config : NtpServerConfig)
      → IsNtpConfig sys filename config
      → parse sys filename ≡ ok config
  unfolding parse parse_cookie_key
  IsNtpConfig-parse filename config r =
      let (port, addr, p, a, k) =
        upstream-IsUpstream (r.settings.get_int "upstream_port")
          (r.settings.get_string "upstream_addr") config.upstream_addr r.upstream in
      rw
        (
          r.built,
          r.url,
          p,
          a,
          k,
          r.cookie_setting,
          r.cookie_open,
          r.cookie_whole,
          r.cookie,
          r.addrs_setting,
          ← r.metrics,
        )
        (add_addresses-AreAddrs
          (new config.cookie_key config.memcached_url config.metrics_config config.upstream_addr)
          r.texts config.addrs r.addrs)

  -- `parse` of the NTP server's configuration returns a configuration exactly when the settings
  -- describe it: there is an upstream server exactly if its address and its port are both set, a port
  -- that is set is a u16, the url is there, the cookie key is that of the file that is named, and the
  -- addresses are the ones of the list, all of them and in its order.
  pub parse-iff-IsNtpConfig :
      (filename : Bytes) (config : NtpServerConfig)
      → (parse sys filename ≡ ok config) ↔ IsNtpConfig sys filename config
  parse-iff-IsNtpConfig filename config =
      (parse-IsNtpConfig sys filename config, IsNtpConfig-parse filename config)
