-- ===== src/Commands/KeServer/Listens.antt =====
-- src/sub_command/ke_server.rs: how the command `ke-server` ends.
use cfnts.Base.{
  ℕ, ◌^◌, ◌<◌, List, [], ◌∷◌, ◌++◌, append_assoc, append-nil, Bytes, Bool, true, Option, Outcome,
  ok, err, panic, hang, bind-eq-ok, ok_inj, first_of, first_of-ok, codes, All, Bool-cases, inl, inr,
  ◌≡◌, refl, ap, sym, ◌∙◌, subst, subst⁻¹,
}
use cfnts.KeyRotator.{RotateError, KeyRotator, Counters, Memcache, Run}
use cfnts.KeyRotator.Connect.{LatestAt, connect-LatestAt}
use cfnts.Config.Settings.{ConfigError, SocketAddr, System}
use cfnts.Config.Ke.{KeServerConfig, parse}
use cfnts.Config.Ke.Reads.{parse-IsKeConfig}
use cfnts.Ke.Setup.{KeServer, connected_rotator, tls_config, connect, bind_listeners, start}
use cfnts.Ke.Setup.{TlsServerConfig, KeServerState}
use cfnts.Commands.KeServer.{
  listens, resolve_config_filename, after_start, after_connect, rotator_of, after_parse, run,
  IsListening,
}

connected_rotator-ok :
    (connected : Run) {r : KeyRotator}
    → connected_rotator connected ≡ ok r
    → (connected.2 ≡ ok tt) × (connected.0 ≡ r)
connected_rotator-ok (q, c, ok u) h = (refl, ok_inj h)
connected_rotator-ok (q, c, err e) h = cc
connected_rotator-ok (q, c, panic) h = cc
connected_rotator-ok (q, c, hang) h = cc

connected_rotator-done :
    (connected : Run) → connected.2 ≡ ok tt → connected_rotator connected ≡ ok connected.0
connected_rotator-done (q, c, ok u) h = refl
connected_rotator-done (q, c, err e) h = cc
connected_rotator-done (q, c, panic) h = cc
connected_rotator-done (q, c, hang) h = cc

bind_listeners-ok :
    (binds : SocketAddr → Bool) (server : KeServer) (addrs : List SocketAddr)
    → (bind_listeners binds server addrs).1 ≡ ok tt
    → All (λ addr. binds addr ≡ true) addrs
      × ((bind_listeners binds server addrs).0
          ≡ record server { listeners = server.listeners ++ addrs })
unfolding bind_listeners
bind_listeners-ok binds server [] h = (tt, rw append-nil refl)
bind_listeners-ok binds server (addr ∷ addrs) h = elim (Bool-cases (binds addr)) [
  | inl bound ↦
      let next = record server { listeners = server.listeners ++ (addr ∷ []) } in
      let (all, e) = bind_listeners-ok binds next addrs (rw bound at h) in
      ((bound, all), rw bound (e ∙ rw append_assoc refl))
  | inr taken ↦ absurd (let e = rw taken at h in cc)
]

after_start-listens :
    (p : KeServer × Outcome SocketAddr (Unit {0})) {s : KeServer}
    → after_start p ≡ listens s
    → (p.1 ≡ ok tt) × (p.0 ≡ s)
after_start-listens (server, ok u) h = (refl, cc)
after_start-listens (server, err e) h = cc
after_start-listens (server, panic) h = cc
after_start-listens (server, hang) h = cc

after_connect-listens :
    (binds : SocketAddr → Bool) (m : Outcome RotateError KeServer) {s : KeServer}
    → after_connect binds m ≡ listens s
    → (server : KeServer) × (m ≡ ok server) × (after_start (start binds server) ≡ listens s)
after_connect-listens binds (ok server) h = (server, refl, h)
after_connect-listens binds (err e) h = cc
after_connect-listens binds panic h = cc
after_connect-listens binds hang h = cc

-- The configuration of TLS that is set up without a panic.
record IsFitting (fits : List Bytes → Bytes → Bool) (config : KeServerConfig)
    (tls : TlsServerConfig) : Type 0 where
  chain : tls.chain ≡ config.tls_certs
  others : List Bytes
  keys : config.tls_secret_keys ≡ tls.secret_key ∷ others
  fitting : fits config.tls_certs tls.secret_key ≡ true

tls_config-ok :
    (fits : List Bytes → Bytes → Bool) (config : KeServerConfig) {tls : TlsServerConfig}
    → tls_config fits config ≡ ok tls
    → IsFitting fits config tls
unfolding tls_config
tls_config-ok fits config {tls} h =
    let (key, k, h1) = bind-eq-ok (first_of config.tls_secret_keys) _ h in
    let (others, keys) = first_of-ok config.tls_secret_keys k in
    elim (Bool-cases (fits config.tls_certs key)) [
      | inl good ↦
          let e = ok_inj (rw good at h1) in
          let same = ap (λ (t : TlsServerConfig). t.secret_key) e in
          record {
            chain = ap (λ (t : TlsServerConfig). t.chain) (sym e);
            others = others;
            keys = keys ∙ ap (λ x. x ∷ others) same;
            fitting = ap (fits config.tls_certs) (sym same) ∙ good;
          }
      | inr bad ↦ absurd (let e = rw bad at h1 in cc)
    ]

-- A server that is connected, and has no listeners yet.
record IsConnected (connected : Run) (fits : List Bytes → Bytes → Bool) (config : KeServerConfig)
    (server : KeServer) : Type 0 where
  done : connected.2 ≡ ok tt
  same_config : server.state.config ≡ config
  rotator : server.state.rotator ≡ connected.0
  tls : IsFitting fits config server.state.tls_server_config
  bare : server.listeners ≡ []

connect-IsConnected :
    (connected : Run) (fits : List Bytes → Bytes → Bool) (config : KeServerConfig)
    (server : KeServer)
    → connect connected fits config ≡ ok server
    → IsConnected connected fits config server
unfolding connect
connect-IsConnected connected fits config server k =
    let (rotator, r, k1) = bind-eq-ok (connected_rotator connected) _ k in
    let (tls, t, k2) = bind-eq-ok (tls_config fits config) _ k1 in
    let (done, same) = connected_rotator-ok connected r in
    let e = sym (ok_inj k2) in
    record {
      done = done;
      same_config = ap (λ (x : KeServer). x.state.config) e;
      rotator = ap (λ (x : KeServer). x.state.rotator) e ∙ sym same;
      tls =
          subst⁻¹ (IsFitting fits config) (ap (λ (x : KeServer). x.state.tls_server_config) e)
            (tls_config-ok fits config t);
      bare = ap (λ (x : KeServer). x.listeners) e;
    }

module _ (sign : Bytes → Bytes → Bytes) (world : ℕ → ℕ × Memcache) (c : Counters) (sys : System)
    (fits : List Bytes → Bytes → Bool) (binds : SocketAddr → Bool) where
  after_parse-listens :
      (m : Outcome ConfigError KeServerConfig) {s : KeServer}
      → after_parse sign world c sys fits binds m ≡ listens s
      → (config : KeServerConfig) × (m ≡ ok config)
        × (after_connect binds (connect (rotator_of sign world c sys fits binds config) fits config)
            ≡ listens s)
  after_parse-listens (ok config) h = (config, refl, h)
  after_parse-listens (err e) h = cc
  after_parse-listens panic h = cc
  after_parse-listens hang h = cc

  -- If the command `ke-server` comes to a server that listens, and the time of every try to connect
  -- to memcached is below 2 ^ 63: the settings of the named file, or of the default one, describe its
  -- configuration; it listens at each address of it, in its order; its TLS uses the configured chain
  -- with the first of the configured keys, which rustls accepted together; and its rotator has the
  -- latest key of the hour of one of the tries.
  pub run-IsListening :
      (configfile : Option Bytes) (s : KeServer)
      → ((j : ℕ) → (world j).0 < 2 ^ 63)
      → run sign world c sys fits binds configfile ≡ listens s
      → IsListening sign world c sys fits binds (resolve_config_filename configfile) s
  unfolding run start
  run-IsListening configfile s early h =
      let filename = resolve_config_filename configfile in
      let (config, p, h1) = after_parse-listens (parse sys filename) h in
      let connected = rotator_of sign world c sys fits binds config in
      let (server, k, h2) = after_connect-listens binds (connect connected fits config) h1 in
      let i = connect-IsConnected connected fits config server k in
      let (bound, final) = after_start-listens (start binds server) h2 in
      let (all, e) = bind_listeners-ok binds server server.state.config.addrs bound in
      let (try, _, _, latest) =
        connect-LatestAt sign world (codes "/nts/nts-keys") config.memcached_url config.cookie_key c
          early i.done in
      let whole : s ≡ record server { listeners = server.listeners ++ server.state.config.addrs } =
        sym final ∙ e in
      let state : s.state ≡ server.state = ap (λ (x : KeServer). x.state) whole in
      record {
        config = config;
        configured = parse-IsKeConfig sys filename config p;
        addrs =
            ap (λ (x : KeServer). x.listeners) whole
            ∙ ap (λ l. l ++ server.state.config.addrs) i.bare
            ∙ ap (λ (x : KeServerConfig). x.addrs) i.same_config;
        all_bind =
            subst (λ (x : KeServerConfig). All (λ addr. binds addr ≡ true) x.addrs) i.same_config
              all;
        chain = ap (λ (x : KeServerState). x.tls_server_config.chain) state ∙ i.tls.chain;
        secret_key = server.state.tls_server_config.secret_key;
        others = i.tls.others;
        keys = i.tls.keys;
        uses = ap (λ (x : KeServerState). x.tls_server_config.secret_key) state;
        fitting = i.tls.fitting;
        try = try;
        latest =
            subst⁻¹ (λ r. LatestAt sign world r try)
              (ap (λ (x : KeServerState). x.rotator) state ∙ i.rotator) latest;
      }
