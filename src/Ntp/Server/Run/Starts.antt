-- ===== src/Ntp/Server/Run/Starts.antt =====
-- src/ntp/server/server.rs: what `start_ntp_server` starts.
use cfnts.Base.{
  List, [], ◌∷◌, Bytes, Bool, true, false, Option, some, none, map, ok, err, panic, hang, guard,
  ok_inj, bind-eq-ok, All, arith, ◌≡◌, refl, ap, sym, ◌∙◌, subst⁻¹,
}
use cfnts.Protocol.Types.{unknown, no_leap}
use cfnts.Protocol.Aead.{Aead}
use cfnts.KeyRotator.{KeyRotator, Counters, Run}
use cfnts.Ntp.Clock.{Floats, SystemTime}
use cfnts.Ntp.Server.{ServerState}
use cfnts.Ntp.Server.State.{IsState}
use cfnts.Ntp.Server.Run.{
  Socket, is_ipv4, listen_all, NtpServer, bind_upstream, expect_rotator, start_ntp_server,
  state_for, first_state,
}
use cfnts.Ntp.Server.Run.Steps.{Shared, Reachable}
use cfnts.Ntp.Server.Run.Serving.{IsServing, Reachable-IsServing}
use cfnts.Config.Settings.{SocketAddr}
use cfnts.Config.Ntp.{NtpServerConfig}

abbrev pub socket_of : SocketAddr → Socket
socket_of addr = record { addr = addr; use_ipv4 = is_ipv4 addr }

guard-ok : {E : Type 0} (b : Bool) (e : E) {u : Unit {0}} → guard b e ≡ ok u → b ≡ true
guard-ok true e h = refl
guard-ok false e h = cc

listen_all-ok :
    (listens : SocketAddr → Bool) (addrs : List SocketAddr) {sockets : List Socket}
    → listen_all listens addrs ≡ ok sockets
    → (sockets ≡ map socket_of addrs) × All (λ addr. listens addr ≡ true) addrs
unfolding listen_all
listen_all-ok listens [] h = (cc, tt)
listen_all-ok listens (addr ∷ addrs) h =
    let (u, g, k) = bind-eq-ok (guard (listens addr) _) _ h in
    let (rest, r, e) = bind-eq-ok (listen_all listens addrs) _ k in
    let (same, all) = listen_all-ok listens addrs r in
    (sym (ok_inj e) ∙ ap (◌∷◌ (socket_of addr)) same, (guard-ok (listens addr) _ g, all))

first_state-IsState : (now : SystemTime) → IsState (first_state now)
first_state-IsState now = record {
  stratum_u8 = omega arith;
  version_u8 = omega arith;
  poll_i8 = omega arith;
  precision_i8 = omega arith;
  root_delay_u32 = omega arith;
  root_dispersion_u32 = omega arith;
  refid_u32 = omega arith;
  refstamp_u64 = omega arith;
}

state_for-IsState : (up : Option SocketAddr) (now : SystemTime) → IsState (state_for up now)
unfolding state_for
state_for-IsState none now = record {
  stratum_u8 = omega arith;
  version_u8 = omega arith;
  poll_i8 = omega arith;
  precision_i8 = omega arith;
  root_delay_u32 = omega arith;
  root_dispersion_u32 = omega arith;
  refid_u32 = omega arith;
  refstamp_u64 = omega arith;
}
state_for-IsState (some up) now = first_state-IsState now

state_for-taken : (up : Option SocketAddr) (now : SystemTime) → (state_for up now).taken ≡ now
unfolding state_for
state_for-taken none now = refl
state_for-taken (some up) now = refl

-- What the threads share when they start; all counters are zero, nothing was sent and no thread has ended.
abbrev pub shared_at : NtpServer → Counters → Shared
shared_at s rotations = record {
  state = s.state;
  rotator = s.rotator;
  rotations = rotations;
  totals = record {
    counters = record {
      queries = 0;
      nts = 0;
      kod = 0;
      malformed = 0;
      missing_key = 0;
      undecryptable = 0;
      upstream_queries = 0;
      upstream_failures = 0;
    };
    mangled = 0;
    replies = [];
  };
  ended = 0;
}

-- Without an upstream server the leap indicator is that of a synchronised server of stratum 1, and
-- with one it is unknown, at stratum 16, until the first answer.
abbrev pub IsFirst : Option SocketAddr → ServerState → Type 0
IsFirst none state = (state.stratum ≡ 1) × (state.leap ≡ no_leap)
IsFirst (some up) state = (state.stratum ≡ 16) × (state.leap ≡ unknown)

state_for-IsFirst : (up : Option SocketAddr) (now : SystemTime) → IsFirst up (state_for up now)
unfolding state_for
state_for-IsFirst none now = (refl, refl)
state_for-IsFirst (some up) now = (refl, refl)

-- A server that has been started, with sockets for all the addresses.
pub record IsStarted (connected : Run) (listens : SocketAddr → Bool) (now : SystemTime)
    (config : NtpServerConfig) (s : NtpServer) : Type 0 where
  pub connects : connected.2 ≡ ok tt
  pub rotator : s.rotator ≡ connected.0
  pub sockets : s.sockets ≡ map socket_of config.addrs
  pub all_listen : All (λ addr. listens addr ≡ true) config.addrs
  pub first : IsFirst config.upstream_addr s.state
  pub taken : s.state.taken ≡ now

expect_rotator-ok :
    (connected : Run) {r : KeyRotator}
    → expect_rotator connected ≡ ok r
    → (connected.2 ≡ ok tt) × (r ≡ connected.0)
expect_rotator-ok (q, c, ok u) h = (refl, cc)
expect_rotator-ok (q, c, err e) h = cc
expect_rotator-ok (q, c, panic) h = cc
expect_rotator-ok (q, c, hang) h = cc

module _ (connected : Run) (binds : Bool) (listens : SocketAddr → Bool) (now : SystemTime)
    (config : NtpServerConfig) (s : NtpServer)
    (started : start_ntp_server connected binds listens now config ≡ ok s) where
  pub start_ntp_server-IsStarted : IsStarted connected listens now config s
  unfolding start_ntp_server
  start_ntp_server-IsStarted =
      let (rotator, r, h1) = bind-eq-ok (expect_rotator connected) _ started in
      let (u, _, h2) = bind-eq-ok (bind_upstream config.upstream_addr binds) _ h1 in
      let (sockets, l, h3) = bind-eq-ok (listen_all listens config.addrs) _ h2 in
      let (connects, same) = expect_rotator-ok connected r in
      let (all, listening) = listen_all-ok listens config.addrs l in
      let e = ok_inj h3 in
      record {
        connects = connects;
        rotator = ap (λ (x : NtpServer). x.rotator) (sym e) ∙ same;
        sockets = ap (λ (x : NtpServer). x.sockets) (sym e) ∙ all;
        all_listen = listening;
        first =
            subst⁻¹ (IsFirst config.upstream_addr) (ap (λ (x : NtpServer). x.state) (sym e))
              (state_for-IsFirst config.upstream_addr now);
        taken =
            ap (λ (x : NtpServer). x.state.taken) (sym e)
            ∙ state_for-taken config.upstream_addr now;
      }

  start_ntp_server-IsState : IsState s.state
  unfolding start_ntp_server
  start_ntp_server-IsState =
      let (rotator, _, h1) = bind-eq-ok (expect_rotator connected) _ started in
      let (u, _, h2) = bind-eq-ok (bind_upstream config.upstream_addr binds) _ h1 in
      let (sockets, _, h3) = bind-eq-ok (listen_all listens config.addrs) _ h2 in
      subst⁻¹ IsState (ap (λ (x : NtpServer). x.state) (sym (ok_inj h3)))
        (state_for-IsState config.upstream_addr now)

  -- A started NTP server serves every address of its configuration, in its order and with the version
  -- of IP of the address, with the keys of the connected rotator, at stratum 1 exactly if it has no
  -- upstream server and at 16 until it has heard from one; and whatever its threads do from then on
  -- keeps the invariant of the running server.
  pub start_ntp_server-serves :
      (f : Floats) (aead : Aead) (sign : Bytes → Bytes → Bytes) (rotations : Counters) {s' : Shared}
      → Reachable f aead sign (shared_at s rotations) s'
      → IsStarted connected listens now config s × IsServing f aead s'
  start_ntp_server-serves f aead sign rotations reach =
      let started = start_ntp_server-IsStarted in
      (
        started,
        Reachable-IsServing f aead sign
            (record {
              state = start_ntp_server-IsState;
              counted = record {
                nts_queries = omega arith;
                kod_nts = omega arith;
                causes = omega arith;
                failures = omega arith;
              };
              answered = omega arith;
              settled = omega arith;
              replies = tt;
            })
            reach,
      )
