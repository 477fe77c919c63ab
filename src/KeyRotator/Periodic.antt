-- ===== src/KeyRotator/Periodic.antt =====
-- src/key_rotator.rs: the thread of `periodic_rotate`.
use cfnts.Base.{
  ℕ, zero, suc, ◌+◌, ◌-◌, ◌/◌, ◌<◌, ◌≤◌, ◌≡◌, inl, inr, refl, List, [], ◌∷◌, ◌++◌, Bytes, none, ok,
  err, panic, hang, IsSettled, Option-cases, arith, subst,
}
use native.Mathlib.Nat.{add_assoc, add-zero}
use cfnts.KeyRotator.{
  KeyRotator, Counters, found, Memcache, memcached_key, Run, cache_remove, cache_insert,
  fetch_periods, set_latest, rotate, periodic_rotate, latest_key_value,
}
use cfnts.KeyRotator.Fetch.{
  epoch_of, id_of, Reply-cases, fetch_periods-Keeps, fetch_failed, fetch_missing, fetch_found,
}
use cfnts.KeyRotator.Rotate.{
  first_period, last_period, removed_id, counted, IsSane, fetched, rotate_connected, rotate_refused,
  latest_key_value-rotate,
}
use cfnts.KeyRotator.Connect.{result-cases, rotate-cases}

-- The fields that a rotator is configured with.
pub record IsSame (r r' : KeyRotator) : Type 0 where
  pub url : r'.memcached_url ≡ r.memcached_url
  pub prefix : r'.prefix ≡ r.prefix
  pub duration : r'.duration ≡ r.duration
  pub forward : r'.number_of_forward_periods ≡ r.number_of_forward_periods
  pub backward : r'.number_of_backward_periods ≡ r.number_of_backward_periods
  pub master : r'.master_key ≡ r.master_key

-- Memcached has a value for each period of the window.
abbrev pub HasWindow : Memcache → ℕ → KeyRotator → Type 0
HasWindow client t r =
    (p : ℕ)
    → t / r.duration ≤ p + r.number_of_backward_periods
    → p ≤ t / r.duration + r.number_of_forward_periods
    → (v : Bytes) × (client.get (memcached_key r.prefix (epoch_of r.duration p)) ≡ found v)

set_latest-IsSame :
    (epoch : ℕ) (r : KeyRotator) (run : Run) → IsSame r run.0 → IsSame r (set_latest epoch run).0
unfolding set_latest
set_latest-IsSame epoch r (q, c, ok u) h = ground arith
set_latest-IsSame epoch r (q, c, err e) h = h
set_latest-IsSame epoch r (q, c, panic) h = h
set_latest-IsSame epoch r (q, c, hang) h = h

set_latest_done : (epoch : ℕ) (run : Run) → run.2 ≡ ok tt → (set_latest epoch run).2 ≡ ok tt
unfolding set_latest
set_latest_done epoch (q, c, ok u) h = refl
set_latest_done epoch (q, c, err e) h = cc
set_latest_done epoch (q, c, panic) h = cc
set_latest_done epoch (q, c, hang) h = cc

set_latest-IsSettled :
    (epoch : ℕ) (run : Run) → IsSettled run.2 → IsSettled (set_latest epoch run).2
unfolding set_latest
set_latest-IsSettled epoch (q, c, ok u) h = tt
set_latest-IsSettled epoch (q, c, err e) h = tt
set_latest-IsSettled epoch (q, c, panic) h = h
set_latest-IsSettled epoch (q, c, hang) h = h

module _ (sign : Bytes → Bytes → Bytes) where
  rotate-IsSame :
      (client : Memcache) (t : ℕ) (r : KeyRotator) (c : Counters)
      → IsSame r (rotate sign client t r c).0
  rotate-IsSame client t r c =
      let k =
        fetch_periods-Keeps sign client (last_period r t + 1 - first_period r t) (first_period r t)
          (cache_remove r (removed_id r t)) (counted c) in
      elim (rotate-cases sign client t r c) [
        | inl e ↦ rw e (ground arith)
        | inr (inl (n, e)) ↦ rw e (ground arith)
        | inr (inr e) ↦ rw e (set_latest-IsSame _ r (fetched sign client t r c) (ground (arith, k)))
      ]

  -- The loop returns `Ok` if there is a value for each of its periods.
  fetch_periods_ok :
      (client : Memcache) (n p : ℕ) (r : KeyRotator) (c : Counters)
      → ((i : ℕ)
          → i < n
          → (v : Bytes) × (client.get (memcached_key r.prefix (epoch_of r.duration (p + i)))
              ≡ found v))
      → (fetch_periods sign client n p r c).2 ≡ ok tt
  fetch_periods_ok client zero p r c h = unfold fetch_periods in refl
  fetch_periods_ok client (suc n) p r c h =
      let (v, q) = rw (add-zero p) at (h 0 (omega arith)) in
      let later =
        fetch_periods_ok client n (p + 1) (cache_insert sign r (id_of r.duration p) v) c
          (λ i lt. rw (add_assoc p 1 i) (h (1 + i) (omega arith))) in
      rw (fetch_found sign client n p r c v q) later

  rotate_ok :
      (client : Memcache) (t : ℕ) (r : KeyRotator) (c : Counters)
      → 0 < r.duration
      → client.connect r.memcached_url ≡ none
      → HasWindow client t r
      → (rotate sign client t r c).2 ≡ ok tt
  rotate_ok client t r c d q full = rw (rotate_connected sign client t r c d q) (
      set_latest_done (epoch_of r.duration (t / r.duration)) (fetched sign client t r c) (
        fetch_periods_ok client (last_period r t + 1 - first_period r t) (first_period r t)
          (cache_remove r (removed_id r t)) (counted c)
          (λ i lt. full (first_period r t + i) (omega arith) (omega arith))))

  fetch_periods-IsSettled :
      (client : Memcache) (n p : ℕ) (r : KeyRotator) (c : Counters)
      → IsSettled (fetch_periods sign client n p r c).2
  fetch_periods-IsSettled client zero p r c = unfold fetch_periods in tt
  fetch_periods-IsSettled client (suc n) p r c =
      elim (Reply-cases (client.get (memcached_key r.prefix (epoch_of r.duration p)))) [
        | inl (e, q) ↦ rw (fetch_failed sign client n p r c e q) tt
        | inr (inl q) ↦ rw (fetch_missing sign client n p r c q) tt
        | inr (inr (v, q)) ↦ rw (fetch_found sign client n p r c v q) (
            fetch_periods-IsSettled client n (p + 1) (cache_insert sign r (id_of r.duration p) v) c)
      ]

  -- Only a duration of zero makes a rotation panic.
  pub rotate-IsSettled :
      (client : Memcache) (t : ℕ) (r : KeyRotator) (c : Counters)
      → 0 < r.duration
      → IsSettled (rotate sign client t r c).2
  rotate-IsSettled client t r c d = elim (Option-cases (client.connect r.memcached_url)) [
    | inl q ↦ rw (rotate_connected sign client t r c d q) (
        set_latest-IsSettled _ (fetched sign client t r c) (
          fetch_periods-IsSettled client (last_period r t + 1 - first_period r t) (first_period r t)
            (cache_remove r (removed_id r t)) (counted c)))
    | inr (e, q) ↦ rw (rotate_refused sign client t r c e d q) tt
  ]

  -- The thread goes on, and the rotator has the latest key of the time `t`.
  pub record IsRecovered (client : Memcache) (t : ℕ) (r : KeyRotator) (out : Run) : Type 0 where
    pub ended : out.2 ≡ ok tt
    pub same : IsSame r out.0
    pub remote : Bytes
    pub has :
        client.get (memcached_key r.prefix (epoch_of r.duration (t / r.duration))) ≡ found remote
    pub latest :
        latest_key_value out.0 ≡ ok (id_of r.duration (t / r.duration), sign r.master_key remote)

  IsRecovered-IsSame :
      (client : Memcache) (t : ℕ) (r r' : KeyRotator) (out : Run)
      → IsSame r r'
      → IsRecovered client t r' out
      → IsRecovered client t r out
  IsRecovered-IsSame client t r r' out s i = record {
    ended = i.ended;
    same = ground (arith, s, i.same);
    remote = i.remote;
    has = rw (s.prefix, s.duration) at i.has;
    latest = rw (s.duration, s.master) at i.latest;
  }

  -- One more turn of the thread whose rotation does not panic.
  periodic_rotate-next :
      (client : Memcache) (t : ℕ) (turns : List (ℕ × Memcache)) (r : KeyRotator) (c : Counters)
      → IsSettled (rotate sign client t r c).2
      → periodic_rotate sign ((t, client) ∷ turns) r c
        ≡ periodic_rotate sign turns (rotate sign client t r c).0 (rotate sign client t r c).1
  periodic_rotate-next client t turns r c h = elim (result-cases (rotate sign client t r c).2) [
    | inl e ↦ unfold periodic_rotate in rw (e, periodic_rotate) refl
    | inr (inl (x, e)) ↦ unfold periodic_rotate in rw (e, periodic_rotate) refl
    | inr (inr (inl e)) ↦ absurd (subst IsSettled e h)
    | inr (inr (inr e)) ↦ absurd (subst IsSettled e h)
  ]

  -- Whatever happened in the turns of the rotation thread before, errors and lost keys included: a
  -- turn at a time `t` in which memcached can be reached and has a value for each period of the
  -- window leaves the thread running and the latest key there, which is the tag of memcached's value
  -- for the period of `t`. The duration is positive, and the window shorter than 2 ^ 32 seconds and
  -- ends before period 2 ^ 64.
  pub periodic_rotate-IsRecovered :
      (turns : List (ℕ × Memcache)) (client : Memcache) (t : ℕ) (r : KeyRotator) (c : Counters)
      → IsSane r t
      → client.connect r.memcached_url ≡ none
      → HasWindow client t r
      → IsRecovered client t r (periodic_rotate sign (turns ++ ((t, client) ∷ [])) r c)
  periodic_rotate-IsRecovered [] client t r c s q full =
      let done = rotate_ok client t r c s.positive q full in
      let (v, has, latest) = latest_key_value-rotate sign client t r c s done in
      rw (periodic_rotate-next client t [] r c (rotate-IsSettled client t r c s.positive)) (
        unfold periodic_rotate in
        (record {
          ended = refl;
          same = rotate-IsSame client t r c;
          remote = v;
          has = has;
          latest = latest;
        }))
  periodic_rotate-IsRecovered ((u, other) ∷ turns) client t r c s q full =
      let r' = (rotate sign other u r c).0 in
      let same = rotate-IsSame other u r c in
      let sane : IsSane r' t = record {
        positive = rw same.duration s.positive;
        short = rw (same.duration, same.forward, same.backward) s.short;
        early = rw (same.duration, same.forward) s.early;
      } in
      let full' : HasWindow client t r' =
        rw (same.duration, same.forward, same.backward, same.prefix) full in
      rw
        (periodic_rotate-next other u (turns ++ ((t, client) ∷ [])) r c
          (rotate-IsSettled other u r c s.positive))
        (IsRecovered-IsSame client t r r' _ same (
          periodic_rotate-IsRecovered turns client t r' (rotate sign other u r c).1 sane
            (rw same.url q) full'))
