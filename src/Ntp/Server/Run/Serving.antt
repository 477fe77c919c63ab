-- ===== src/Ntp/Server/Run/Serving.antt =====
-- src/ntp/server/server.rs: what holds of the running NTP server.
use cfnts.Base.{
  ℕ, ◌+◌, ◌≤◌, [], ◌∷◌, Bytes, Bool, Option, some, none, Outcome, ok, err, panic, hang, All,
  All-append, IsU8, length, take, arith, ◌≡◌, inl, inr, refl, ap, subst, subst⁻¹, drop, ok_inj,
  bind-eq-ok, length-append, sym, ◌∙◌,
}
use cfnts.Protocol.Types.{IoError, NtpPacket, IsHeader}
use cfnts.Protocol.Header.Range.{parse_packet_header-IsHeader}
use cfnts.Protocol.Header.{parse_packet_header}
use cfnts.Protocol.Extensions.{parse_ntp_packet, parse_extensions}
use cfnts.Protocol.Aead.{Aead}
use cfnts.KeyRotator.{KeyRotator}
use cfnts.Ntp.Clock.{Floats, SystemTime}
use cfnts.Ntp.Server.{ServerState, NtpCounters, Answer, take_upstream, refresh_servstate}
use cfnts.Ntp.Server.Response.{response}
use cfnts.Ntp.Server.State.{IsState}
use cfnts.Ntp.Server.Counts.{IsCounted, Counts, response-Counts, response-counted}
use cfnts.Ntp.Server.Run.{
  Message, Reply, Totals, read_cmsgs, epoch, serve_from, serve_message, buf_size,
}
use cfnts.Ntp.Server.Run.Messages.{IsOneFamily, read_cmsgs-IsOneFamily, send_response-IsSent}
use cfnts.Ntp.Server.Run.Steps.{
  Shared, AreBytes, Step, serves, panics, refreshes, rotates, Reachable, here, next,
}

module _ (f : Floats) (aead : Aead) where
  -- A reply goes to the sender of a message, with the packet information of the message, and has the
  -- bytes that `response` returned for its datagram, for a valid state of the server.
  pub record IsReply (r : Reply) : Type 0 where
    pub message : Message
    pub ipv4 : Bool
    pub sender : message.address ≡ some r.to
    pub info : r.cmsgs ≡ (read_cmsgs ipv4 epoch [] message.cmsgs).1
    pub one_family : IsOneFamily r.cmsgs
    pub nonces : ℕ → Bytes
    pub seal_nonce : Bytes
    pub rotator : KeyRotator
    pub t_time : SystemTime
    pub now : SystemTime
    pub state : ServerState
    pub valid : IsState state
    pub counters : NtpCounters
    pub answers :
        (response f aead nonces seal_nonce rotator
          (read_cmsgs ipv4 epoch [] message.cmsgs).0
          t_time
          now
          state
          counters
          (take buf_size message.datagram)).1
        ≡ ok r.datagram

  pub record IsServing (s : Shared) : Type 0 where
    pub state : IsState s.state
    pub counted : IsCounted s.totals.counters
    pub answered : length s.totals.replies ≤ s.totals.counters.queries
    pub settled : s.totals.counters.queries ≤ length s.totals.replies + s.totals.mangled + s.ended
    pub replies : All IsReply s.totals.replies

module _ (f : Floats) (aead : Aead) (nonces : ℕ → Bytes) (seal_nonce : Bytes) (s : Shared)
    (t_time now : SystemTime) (ipv4 : Bool) (m : Message) (i : IsServing f aead s) where
  serve_from-IsServing :
      (t : Totals) (src : Option Bytes)
      → m.address ≡ src
      → serve_from f aead nonces seal_nonce s.rotator t_time now s.state ipv4 s.totals m src ≡ ok t
      → IsServing f aead (record s { totals = t })
  serve_from-IsServing t none from e =
      let same : s.totals ≡ t = unfold serve_from in ok_inj e in
      subst (λ t. IsServing f aead (record s { totals = t })) same i
  serve_from-IsServing t (some src) from e =
      let (r_time, msgs) = read_cmsgs ipv4 epoch [] m.cmsgs in
      let query = take buf_size m.datagram in
      let answer =
        response f aead nonces seal_nonce s.rotator r_time t_time now s.state s.totals.counters
          query in
      let sent = send_response-IsSent src msgs s.totals answer t (unfold serve_from in e) in
      let counts =
        response-Counts f aead nonces seal_nonce s.rotator r_time t_time now s.state
          s.totals.counters query i.counted in
      elim sent.replies [
        | inl same ↦
            let fewer : length t.replies ≡ length s.totals.replies = ap length same in
            record {
              state = i.state;
              counted = subst⁻¹ IsCounted sent.counters counts.counted;
              answered = rw sent.counters (omega (arith, counts.queries_from, fewer, i.answered));
              settled =
                  rw sent.counters (omega (arith, counts.queries_to, sent.one_more, i.settled));
              replies = subst⁻¹ (All (IsReply f aead)) same i.replies;
            }
        | inr (r, to, info, answers, more) ↦
            let longer : length t.replies ≡ length s.totals.replies + 1 =
              ap length more ∙ length-append s.totals.replies (r ∷ []) in
            let one =
              response-counted f aead nonces seal_nonce s.rotator r_time t_time now s.state
                s.totals.counters query r.datagram answers in
            let reply : IsReply f aead r = record {
              message = m;
              ipv4 = ipv4;
              sender = from ∙ ap some (sym to);
              info = info;
              one_family = subst⁻¹ IsOneFamily info (read_cmsgs-IsOneFamily ipv4 m.cmsgs);
              nonces = nonces;
              seal_nonce = seal_nonce;
              rotator = s.rotator;
              t_time = t_time;
              now = now;
              state = s.state;
              valid = i.state;
              counters = s.totals.counters;
              answers = answers;
            } in
            record {
              state = i.state;
              counted = subst⁻¹ IsCounted sent.counters counts.counted;
              answered = rw sent.counters (omega (arith, one, longer, i.answered));
              settled = rw sent.counters (omega (arith, one, sent.one_more, i.settled));
              replies =
                  subst⁻¹ (All (IsReply f aead)) more
                    (All-append (IsReply f aead) s.totals.replies (r ∷ []) i.replies (reply, tt));
            }
      ]

  serve_message-IsServing :
      (t : Totals)
      → serve_message f aead nonces seal_nonce s.rotator t_time now s.state ipv4 s.totals m ≡ ok t
      → IsServing f aead (record s { totals = t })
  unfolding serve_message
  serve_message-IsServing t h = serve_from-IsServing t m.address refl h

parse_ntp_packet-IsHeader :
    (buff : Bytes) (packet : NtpPacket)
    → All IsU8 buff
    → parse_ntp_packet buff ≡ ok packet
    → IsHeader packet.header
unfolding parse_ntp_packet
parse_ntp_packet-IsHeader buff packet b h =
    let (header, p, k) = bind-eq-ok (parse_packet_header buff) _ h in
    let (exts, _, e) = bind-eq-ok (parse_extensions (drop 48 buff)) _ k in
    let same : header ≡ packet.header = ap (λ (q : NtpPacket). q.header) (ok_inj e) in
    subst IsHeader same (parse_packet_header-IsHeader buff b p)

refresh_servstate-IsState :
    (now : SystemTime) (received : Option Bytes) (state : ServerState) (c : NtpCounters)
    → AreBytes received
    → IsState state
    → IsState (refresh_servstate now received state c).0
unfolding refresh_servstate
refresh_servstate-IsState now none state c b s = s
refresh_servstate-IsState now (some buff) state c b s =
    by_parse (parse_ntp_packet buff) (parse_ntp_packet-IsHeader buff)
  where
    by_parse :
        (m : Outcome IoError NtpPacket)
        → ((packet : NtpPacket) → All IsU8 buff → m ≡ ok packet → IsHeader packet.header)
        → IsState (take_upstream now state c m).0
    by_parse (ok packet) h =
        unfold take_upstream in
        let v = h packet b refl in
        record {
          stratum_u8 = v.stratum_u8;
          version_u8 = omega arith;
          poll_i8 = v.poll_i8;
          precision_i8 = v.precision_i8;
          root_delay_u32 = v.root_delay_u32;
          root_dispersion_u32 = v.root_dispersion_u32;
          refid_u32 = v.reference_id_u32;
          refstamp_u64 = v.reference_timestamp_u64;
        }
    by_parse (err e) h = unfold take_upstream in s
    by_parse panic h = unfold take_upstream in s
    by_parse hang h = unfold take_upstream in s

-- A refresh leaves the count of queries alone.
record Refreshed (c c' : NtpCounters) : Type 0 where
  counted : IsCounted c'
  queries : c'.queries ≡ c.queries

take_upstream-Refreshed :
    (now : SystemTime) (state : ServerState) (c : NtpCounters) (m : Outcome IoError NtpPacket)
    → IsCounted c
    → Refreshed c (take_upstream now state c m).1
unfolding take_upstream
take_upstream-Refreshed now state c (ok packet) i = ground arith
take_upstream-Refreshed now state c (err e) i = ground arith
take_upstream-Refreshed now state c panic i = ground arith
take_upstream-Refreshed now state c hang i = ground arith

refresh_servstate-Refreshed :
    (now : SystemTime) (received : Option Bytes) (state : ServerState) (c : NtpCounters)
    → IsCounted c
    → Refreshed c (refresh_servstate now received state c).1
unfolding refresh_servstate
refresh_servstate-Refreshed now none state c i = ground arith
refresh_servstate-Refreshed now (some buff) state c i =
    take_upstream-Refreshed now state c (parse_ntp_packet buff) i

module _ (f : Floats) (aead : Aead) (sign : Bytes → Bytes → Bytes) where
  Step-IsServing :
      {s s' : Shared} → Step f aead sign s s' → IsServing f aead s → IsServing f aead s'
  Step-IsServing {s} (serves nonces seal_nonce t_time now ipv4 m t h e) i =
      subst⁻¹ (IsServing f aead) e
        (serve_message-IsServing f aead nonces seal_nonce s t_time now ipv4 m i t h)
  Step-IsServing {s} (panics nonces seal_nonce t_time now ipv4 m src c from h e) i =
      let counts =
        response-Counts f aead nonces seal_nonce s.rotator (read_cmsgs ipv4 epoch [] m.cmsgs).0
          t_time now s.state s.totals.counters (take buf_size m.datagram) i.counted in
      let counted : Counts s.totals.counters c =
        subst (λ (a : Answer). Counts s.totals.counters a.0) h counts in
      subst⁻¹ (IsServing f aead) e (record {
        state = i.state;
        counted = counted.counted;
        answered = omega (arith, counted.queries_from, i.answered);
        settled = omega (arith, counted.queries_to, i.settled);
        replies = i.replies;
      })
  Step-IsServing {s} (refreshes now received b e) i =
      let r = refresh_servstate-Refreshed now received s.state s.totals.counters i.counted in
      subst⁻¹ (IsServing f aead) e (record {
        state = refresh_servstate-IsState now received s.state s.totals.counters b i.state;
        counted = r.counted;
        answered = omega (arith, r.queries, i.answered);
        settled = omega (arith, r.queries, i.settled);
        replies = i.replies;
      })
  Step-IsServing {s} (rotates client timestamp e) i = subst⁻¹ (IsServing f aead) e (record {
    state = i.state;
    counted = i.counted;
    answered = i.answered;
    settled = i.settled;
    replies = i.replies;
  })

  -- Whatever the threads of the NTP server do, and in whatever order, if it began so: the shared state
  -- holds values of its Rust types; queries that look like NTS are counted among the queries, kisses
  -- of death among those, and unusable cookies among the kisses of death; each reply went to the
  -- sender of a message, with packet information of one version of IP only, as `response` answered
  -- it; no more replies were sent than queries counted; and those that were not answered were counted
  -- as mangled or have ended a thread. The upstream server's datagrams are made of bytes.
  pub Reachable-IsServing :
      {s s' : Shared} → IsServing f aead s → Reachable f aead sign s s' → IsServing f aead s'
  Reachable-IsServing i here = i
  Reachable-IsServing i (next r step) = Step-IsServing step (Reachable-IsServing i r)
