-- ===== src/Config/Ke/Accepts.antt =====
-- src/nts_ke/server/config.rs: `parse` returns every configuration that the settings describe.
use cfnts.Base.{
  ℕ, ◌^◌, List, [], ◌∷◌, ◌++◌, append_assoc, append-nil, Bytes, some, ok, lt→ltb, arith, ◌≡◌, ◌↔◌,
  refl, ap, ◌∙◌,
}
use cfnts.Config.Settings.{
  ℤ, Setting, value, missing, unreadable, Settings, SocketAddr, System, OpenFile, opened,
  parse_cookie_key, u16_try_from-pos, u64_try_from, AreAddrs,
}
use cfnts.Config.Ke.{
  KeServerConfig, new, resolve_next_port, resolve_timeout, import_tls_certs, import_tls_secret_keys,
  add_addresses, fill, parse,
}
use cfnts.Config.Ke.Reads.{
  IsTimeout, AreFiles, IsKeConfig, add_tls_certs_lem, add_tls_secret_keys_lem, parse-IsKeConfig,
}

resolve_timeout-IsTimeout : (s : Setting ℤ) (t : ℕ) → IsTimeout s t → resolve_timeout s ≡ ok t
unfolding resolve_timeout u64_try_from
resolve_timeout-IsTimeout missing t h = ground arith
resolve_timeout-IsTimeout unreadable t h = absurd h
resolve_timeout-IsTimeout (value val) t (e, h) = rw (e, lt→ltb t (2 ^ 64) h) refl

module _ (sys : System) where
  add_addresses-AreAddrs :
      (config : KeServerConfig) (texts : List Bytes) (addrs : List SocketAddr)
      → AreAddrs sys texts addrs
      → add_addresses sys config texts ≡ ok (record config { addrs = config.addrs ++ addrs })
  unfolding add_addresses
  add_addresses-AreAddrs config [] [] h = rw append-nil refl
  add_addresses-AreAddrs config [] (addr ∷ addrs) h = absurd h
  add_addresses-AreAddrs config (text ∷ texts) [] h = absurd h
  add_addresses-AreAddrs config (text ∷ texts) (addr ∷ addrs) (e, h) = rw e (
      add_addresses-AreAddrs (record config { addrs = config.addrs ++ (addr ∷ []) }) texts addrs h
      ∙ rw append_assoc refl)

  import_tls_certs-opened :
      (config : KeServerConfig) (filename : Bytes) (file : OpenFile) (certs : List Bytes)
      → sys.open_file filename ≡ opened file
      → sys.certs file ≡ some certs
      → import_tls_certs sys config filename
        ≡ ok (record config { tls_certs = config.tls_certs ++ certs })
  unfolding import_tls_certs
  import_tls_certs-opened config filename file certs o c =
      rw (o, c) (ap ok (add_tls_certs_lem config certs))

  import_tls_secret_keys-opened :
      (config : KeServerConfig) (filename : Bytes) (file : OpenFile) (keys : List Bytes)
      → sys.open_file filename ≡ opened file
      → sys.pkcs8_private_keys file ≡ some keys
      → import_tls_secret_keys sys config filename
        ≡ ok (record config { tls_secret_keys = config.tls_secret_keys ++ keys })
  unfolding import_tls_secret_keys
  import_tls_secret_keys-opened config filename file keys o c =
      rw (o, c) (ap ok (add_tls_secret_keys_lem config keys))

  fill-opened :
      (settings : Settings) (certs_name keys_name : Bytes) (base config : KeServerConfig)
      → AreFiles sys settings certs_name keys_name config
      → base.tls_certs ≡ []
      → base.tls_secret_keys ≡ []
      → base.addrs ≡ []
      → fill sys settings certs_name keys_name base
        ≡ ok (record base {
          addrs = config.addrs;
          tls_certs = config.tls_certs;
          tls_secret_keys = config.tls_secret_keys;
        })
  unfolding fill
  fill-opened settings certs_name keys_name base config a no_certs no_keys no_addrs =
      rw
        (
          import_tls_certs-opened base certs_name a.certs_file config.tls_certs a.certs_open
              a.certs,
          import_tls_secret_keys-opened
              (record base { tls_certs = base.tls_certs ++ config.tls_certs }) keys_name a.keys_file
              config.tls_secret_keys a.keys_open a.keys,
          a.addrs_setting,
          add_addresses-AreAddrs
              (record base {
                tls_certs = base.tls_certs ++ config.tls_certs;
                tls_secret_keys = base.tls_secret_keys ++ config.tls_secret_keys;
              })
              a.texts config.addrs a.addrs,
          no_certs,
          no_keys,
          no_addrs,
        )
        refl

  IsKeConfig-parse :
      (filename : Bytes) (config : KeServerConfig)
      → IsKeConfig sys filename config
      → parse sys filename ≡ ok config
  unfolding parse resolve_next_port parse_cookie_key
  IsKeConfig-parse filename config r =
      rw
        (
          r.built,
          r.port,
          u16_try_from-pos config.next_port r.port_u16,
          r.url,
          resolve_timeout-IsTimeout (r.settings.get_int "conn_timeout") config.timeout r.timeout,
          r.certs_setting,
          r.keys_setting,
          r.cookie_setting,
          r.cookie_open,
          r.cookie_whole,
          r.cookie,
          ← r.metrics,
        )
        (fill-opened r.settings r.certs_name r.keys_name
          (new config.timeout config.cookie_key config.memcached_url config.metrics_config
            config.next_port)
          config r.files refl refl refl)

  -- `parse` of the key exchange server's configuration returns a configuration exactly when the
  -- settings describe it: the next port is there and a u16, the timeout a u64 or 30 seconds where it
  -- is missing, the url is there, the certificates, keys and cookie key are those of the files that
  -- are named, and the addresses are the ones of the list, all of them and in its order.
  pub parse-iff-IsKeConfig :
      (filename : Bytes) (config : KeServerConfig)
      → (parse sys filename ≡ ok config) ↔ IsKeConfig sys filename config
  parse-iff-IsKeConfig filename config =
      (parse-IsKeConfig sys filename config, IsKeConfig-parse filename config)
