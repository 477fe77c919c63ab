-- ===== src/Ntp/Server/Run/Messages.antt =====
-- src/ntp/server/server.rs: the control messages that go back with an answer.
use cfnts.Base.{
  ◌+◌, List, [], ◌∷◌, ◌++◌, Bytes, Bool, true, false, ok, err, panic, hang, All, All-append, length,
  length-append, arith, ◌≡◌, ◌⊎◌, inl, inr, refl, ap,
}
use cfnts.Ntp.Clock.{SystemTime}
use cfnts.Ntp.Server.{Answer}
use cfnts.Ntp.Server.Run.{
  ControlMessage, scm_timestamp, ipv4_packet_info, ipv6_packet_info, other_message, Reply, Totals,
  duration_of, read_cmsgs, epoch, send_response,
}

-- The packet information of one version of IP, and nothing else.
abbrev pub IsIpv4Info : ControlMessage → Type 0
IsIpv4Info (ipv4_packet_info inf) = Unit {0}
IsIpv4Info _ = ⊥

abbrev pub IsIpv6Info : ControlMessage → Type 0
IsIpv6Info (ipv6_packet_info inf) = Unit {0}
IsIpv6Info _ = ⊥

abbrev pub IsOneFamily : List ControlMessage → Type 0
IsOneFamily msgs = All IsIpv4Info msgs ⊎ All IsIpv6Info msgs

read_cmsgs-ipv4 :
    (r_time : SystemTime) (msgs rest : List ControlMessage)
    → All IsIpv4Info msgs
    → All IsIpv4Info (read_cmsgs true r_time msgs rest).1
unfolding read_cmsgs
read_cmsgs-ipv4 r_time msgs [] h = h
read_cmsgs-ipv4 r_time msgs (scm_timestamp s u ∷ rest) h =
    read_cmsgs-ipv4 (duration_of s u) msgs rest h
read_cmsgs-ipv4 r_time msgs (ipv4_packet_info inf ∷ rest) h =
    read_cmsgs-ipv4 r_time (msgs ++ (ipv4_packet_info inf ∷ [])) rest
      (All-append IsIpv4Info msgs (ipv4_packet_info inf ∷ []) h (tt, tt))
read_cmsgs-ipv4 r_time msgs (ipv6_packet_info inf ∷ rest) h = read_cmsgs-ipv4 r_time msgs rest h
read_cmsgs-ipv4 r_time msgs (other_message ∷ rest) h = read_cmsgs-ipv4 r_time msgs rest h

read_cmsgs-ipv6 :
    (r_time : SystemTime) (msgs rest : List ControlMessage)
    → All IsIpv6Info msgs
    → All IsIpv6Info (read_cmsgs false r_time msgs rest).1
unfolding read_cmsgs
read_cmsgs-ipv6 r_time msgs [] h = h
read_cmsgs-ipv6 r_time msgs (scm_timestamp s u ∷ rest) h =
    read_cmsgs-ipv6 (duration_of s u) msgs rest h
read_cmsgs-ipv6 r_time msgs (ipv4_packet_info inf ∷ rest) h = read_cmsgs-ipv6 r_time msgs rest h
read_cmsgs-ipv6 r_time msgs (ipv6_packet_info inf ∷ rest) h =
    read_cmsgs-ipv6 r_time (msgs ++ (ipv6_packet_info inf ∷ [])) rest
      (All-append IsIpv6Info msgs (ipv6_packet_info inf ∷ []) h (tt, tt))
read_cmsgs-ipv6 r_time msgs (other_message ∷ rest) h = read_cmsgs-ipv6 r_time msgs rest h

pub read_cmsgs-IsOneFamily :
    (ipv4 : Bool) (rest : List ControlMessage) → IsOneFamily (read_cmsgs ipv4 epoch [] rest).1
read_cmsgs-IsOneFamily true rest = inl (read_cmsgs-ipv4 epoch [] rest tt)
read_cmsgs-IsOneFamily false rest = inr (read_cmsgs-ipv6 epoch [] rest tt)

-- What a turn of the loop that ends without a panic has done with the result of `response`.
pub record IsSent (to : Bytes) (cmsgs : List ControlMessage) (t : Totals) (a : Answer) (t' : Totals)
    : Type 0 where
  pub counters : t'.counters ≡ a.0
  pub one_more : length t'.replies + t'.mangled ≡ length t.replies + t.mangled + 1
  pub replies :
      (t'.replies ≡ t.replies)
      ⊎ ((r : Reply) × (r.to ≡ to)
          × (r.cmsgs ≡ cmsgs)
          × (a.1 ≡ ok r.datagram)
          × (t'.replies ≡ t.replies ++ (r ∷ [])))

pub send_response-IsSent :
    (to : Bytes) (cmsgs : List ControlMessage) (t : Totals) (a : Answer) (t' : Totals)
    → send_response to cmsgs t a ≡ ok t'
    → IsSent to cmsgs t a t'
unfolding send_response
send_response-IsSent to cmsgs t (c, ok bytes) t' h =
    let r : Reply = record { to = to; cmsgs = cmsgs; datagram = bytes } in
    let e : t' ≡ record { counters = c; mangled = t.mangled; replies = t.replies ++ (r ∷ []) } =
      cc in
    record {
      counters = ap (λ (x : Totals). x.counters) e;
      one_more = rw e (omega (arith, length-append t.replies (r ∷ [])));
      replies = inr (r, refl, refl, refl, ap (λ (x : Totals). x.replies) e);
    }
send_response-IsSent to cmsgs t (c, err e) t' h =
    let e : t' ≡ record t { counters = c; mangled = t.mangled + 1 } = cc in
    record {
      counters = ap (λ (x : Totals). x.counters) e;
      one_more = rw e (omega arith);
      replies = inl (ap (λ (x : Totals). x.replies) e);
    }
send_response-IsSent to cmsgs t (c, panic) t' h = cc
send_response-IsSent to cmsgs t (c, hang) t' h = cc
