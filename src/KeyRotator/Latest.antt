-- ===== src/KeyRotator/Latest.antt =====
-- src/key_rotator.rs: when a rotation keeps the latest key, and when it loses it.
use cfnts.Base.{
  ℕ, ◌+◌, ◌-◌, ◌/◌, ◌<◌, ◌≡◌, ◌≢◌, inl, inr, refl, ap, ◌∙◌, Bytes, some, none, ok, err, panic, hang,
  arith, Option-cases,
}
use cfnts.KeyRotator.{
  memcache_error, KeyRotator, Counters, Memcache, Run, cache_remove, set_latest, rotate,
  latest_key_value,
}
use cfnts.KeyRotator.Fetch.{fetch_periods-Keeps, fetch_periods-some}
use cfnts.KeyRotator.Rotate.{
  first_period, last_period, removed_id, counted, IsSane, Outcome-cases, fetched, rotate_connected,
  rotate_refused, rotate-IsFresh,
}

abbrev pub HasLatest : KeyRotator → Type 0
HasLatest r = (tag : Bytes) × (r.cache r.latest_key_id ≡ some tag)

module _ (sign : Bytes → Bytes → Bytes) (client : Memcache) (t : ℕ) (r : KeyRotator)
    (c : Counters) where
  -- Where the duration is positive and memcached refuses the connection in the period in which
  -- the latest key falls out of the window, the rotation returns the error, and
  -- `latest_key_value` panics on the state that it leaves.
  pub latest_key_value-rotate_lost :
      (e : ℕ)
      → 0 < r.duration
      → client.connect r.memcached_url ≡ some e
      → r.latest_key_id ≡ removed_id r t
      → ((rotate sign client t r c).2 ≡ err (memcache_error e))
        × (latest_key_value (rotate sign client t r c).0 ≡ panic)
  unfolding latest_key_value
  latest_key_value-rotate_lost e d q same =
      let gone : (cache_remove r (removed_id r t)).cache r.latest_key_id ≡ none =
        ground (arith, same) in
      rw (rotate_refused sign client t r c e d q) (refl, rw (gone, latest_key_value) refl)

  set_latest-ok : (epoch : ℕ) (run : Run) → run.2 ≡ ok tt → (set_latest epoch run).2 ≡ ok tt
  unfolding set_latest
  set_latest-ok epoch (r, c, ok u) h = refl
  set_latest-ok epoch (r, c, err e) h = cc
  set_latest-ok epoch (r, c, panic) h = cc
  set_latest-ok epoch (r, c, hang) h = cc

  set_latest-HasLatest :
      (epoch : ℕ) (run : Run)
      → ((run.2 ≡ ok tt) → ⊥)
      → HasLatest run.0
      → HasLatest (set_latest epoch run).0
  unfolding set_latest
  set_latest-HasLatest epoch (r, c, ok u) no_ok h = absurd (no_ok refl)
  set_latest-HasLatest epoch (r, c, err e) no_ok h = h
  set_latest-HasLatest epoch (r, c, panic) no_ok h = h
  set_latest-HasLatest epoch (r, c, hang) no_ok h = h

  -- The cache keeps an entry for the latest key through a rotation, with whatever result, as
  -- long as the rotation does not remove the period of the latest key. The duration is positive,
  -- the window is shorter than 2 ^ 32 seconds and ends before period 2 ^ 64.
  pub rotate-HasLatest :
      IsSane r t
      → HasLatest r
      → r.latest_key_id ≢ removed_id r t
      → HasLatest (rotate sign client t r c).0
  rotate-HasLatest s (tag, has) ne = elim (Outcome-cases (rotate sign client t r c).2) [
    | inl done ↦
        let fresh = rotate-IsFresh sign client t r c s done in
        let (v, q, e) = fresh.window (t / r.duration) (omega arith) (omega arith) in
        (sign r.master_key v, ap (rotate sign client t r c).0.cache fresh.latest ∙ e)
    | inr no_ok ↦ failed s tag has ne no_ok
  ]
    where
      failed :
          IsSane r t
          → (tag : Bytes) → r.cache r.latest_key_id ≡ some tag
          → r.latest_key_id ≢ removed_id r t
          → (((rotate sign client t r c).2 ≡ ok tt) → ⊥)
          → HasLatest (rotate sign client t r c).0
      failed s tag has ne no_ok =
          let kept : (cache_remove r (removed_id r t)).cache r.latest_key_id ≡ some tag =
            ground (arith, has) in
          elim (Option-cases (client.connect r.memcached_url)) [
            | inl q ↦
                let n = last_period r t + 1 - first_period r t in
                let start = cache_remove r (removed_id r t) in
                let keeps =
                  fetch_periods-Keeps sign client n (first_period r t) start (counted c) in
                let (tag', there) =
                  fetch_periods-some sign client n (first_period r t) start (counted c)
                    r.latest_key_id kept in
                let whole = rotate_connected sign client t r c s.positive q in
                rw whole (
                  set_latest-HasLatest _ (fetched sign client t r c)
                    (λ e. no_ok (rw whole (set_latest-ok _ (fetched sign client t r c) e)))
                    (tag', ap (fetched sign client t r c).0.cache keeps.latest ∙ there))
            | inr (x, q) ↦ rw (rotate_refused sign client t r c x s.positive q) (tag, kept)
          ]
