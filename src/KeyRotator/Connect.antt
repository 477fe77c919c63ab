-- ===== src/KeyRotator/Connect.antt =====
-- src/key_rotator.rs: `KeyRotator::connect`, which tries to rotate up to five times.
use cfnts.Base.{
  ℕ, zero, suc, ◌+◌, ◌-◌, ◌/◌, ◌%◌, ◌^◌, ◌<◌, ◌≤◌, ◌≡◌, ◌⊎◌, inl, inr, refl, sym, ap, ◌∙◌, Bytes,
  ◌==◌, Outcome, ok, err, panic, hang, arith, Bool-cases, Option-cases,
}
use cfnts.KeyRotator.{
  RotateError, memcache_error, KeyRotator, Counters, Memcache, Run, cache_remove, set_latest,
  rotate, connect_loop, connect, unrotated, latest_key_value,
}
use cfnts.KeyRotator.Fetch.{epoch_of, fetch_periods-Keeps, fetch_periods-rotations}
use cfnts.KeyRotator.Rotate.{
  IsSane, IsSteady, removed_id, first_period, last_period, counted, fetched, rotate_connected,
  rotate_refused, latest_key_value-rotate,
}

pub result-cases :
    (m : Outcome RotateError (Unit {0}))
    → (m ≡ ok tt) ⊎ (((e : RotateError) × (m ≡ err e)) ⊎ ((m ≡ panic) ⊎ (m ≡ hang)))
result-cases (ok u) = inl refl
result-cases (err e) = inr (inl (e, refl))
result-cases panic = inr (inr (inl refl))
result-cases hang = inr (inr (inr refl))

module _ (sign : Bytes → Bytes → Bytes) where
  -- The three ways through `rotate`.
  pub rotate-cases :
      (client : Memcache) (t : ℕ) (r : KeyRotator) (c : Counters)
      → (rotate sign client t r c ≡ (r, counted c, panic))
        ⊎ (((e : ℕ) × (rotate sign client t r c
                ≡ (cache_remove r (removed_id r t), counted c, err (memcache_error e))))
            ⊎ (rotate sign client t r c
                ≡ set_latest (epoch_of r.duration (t / r.duration)) (fetched sign client t r c)))
  rotate-cases client t r c = elim (Bool-cases (r.duration == 0)) [
    | inl z ↦ inl (unfold rotate in rw z refl)
    | inr nz ↦
        let d : 0 < r.duration = ground (arith, nz) in
        elim (Option-cases (client.connect r.memcached_url)) [
          | inl q ↦ inr (inr (rotate_connected sign client t r c d q))
          | inr (e, q) ↦ inr (inl (e, rotate_refused sign client t r c e d q))
        ]
  ]

  set_latest-IsSteady :
      (epoch : ℕ) (r : KeyRotator) (run : Run)
      → IsSteady r run.0
      → IsSteady r (set_latest epoch run).0
  unfolding set_latest
  set_latest-IsSteady epoch r (q, c, ok u) h = ground (arith, h)
  set_latest-IsSteady epoch r (q, c, err e) h = h
  set_latest-IsSteady epoch r (q, c, panic) h = h
  set_latest-IsSteady epoch r (q, c, hang) h = h

  set_latest-rotations : (epoch : ℕ) (run : Run) → (set_latest epoch run).1 ≡ run.1
  unfolding set_latest
  set_latest-rotations epoch (q, c, ok u) = refl
  set_latest-rotations epoch (q, c, err e) = refl
  set_latest-rotations epoch (q, c, panic) = refl
  set_latest-rotations epoch (q, c, hang) = refl

  -- The window of a rotator is not changed by a rotation.
  pub rotate-IsSteady :
      (client : Memcache) (t : ℕ) (r : KeyRotator) (c : Counters)
      → IsSteady r (rotate sign client t r c).0
  rotate-IsSteady client t r c = elim (rotate-cases client t r c) [
    | inl e ↦ rw e (record { duration = refl; forward = refl; backward = refl })
    | inr (inl (x, e)) ↦ rw e (record { duration = refl; forward = refl; backward = refl })
    | inr (inr e) ↦
        let keeps =
          fetch_periods-Keeps sign client (last_period r t + 1 - first_period r t)
            (first_period r t) (cache_remove r (removed_id r t)) (counted c) in
        rw e (
          set_latest-IsSteady _ r (fetched sign client t r c) (record {
            duration = keeps.duration;
            forward = keeps.forward;
            backward = keeps.backward;
          }))
  ]

  -- Every call of `rotate` counts once.
  pub rotate-rotations :
      (client : Memcache) (t : ℕ) (r : KeyRotator) (c : Counters)
      → (rotate sign client t r c).1.rotations ≡ c.rotations + 1
  rotate-rotations client t r c = elim (rotate-cases client t r c) [
    | inl e ↦ rw e refl
    | inr (inl (x, e)) ↦ rw e refl
    | inr (inr e) ↦
        rw (e, set_latest-rotations _ (fetched sign client t r c))
          (fetch_periods-rotations sign client _ _ _ _)
  ]

  module _ (world : ℕ → ℕ × Memcache) where
    -- One try, by its result.
    connect_loop_ok :
        (tries i : ℕ) (r : KeyRotator) (c : Counters)
        → (rotate sign (world i).1 (world i).0 r c).2 ≡ ok tt
        → connect_loop sign world (suc tries) i r c ≡ rotate sign (world i).1 (world i).0 r c
    unfolding connect_loop
    connect_loop_ok tries i r c h = simp (h, connect_loop)

    connect_loop_err :
        (tries i : ℕ) (r : KeyRotator) (c : Counters) (e : RotateError)
        → (rotate sign (world i).1 (world i).0 r c).2 ≡ err e
        → connect_loop sign world (suc tries) i r c
          ≡ connect_loop sign world tries
              (i + 1)
              (rotate sign (world i).1 (world i).0 r c).0
              (rotate sign (world i).1 (world i).0 r c).1
    unfolding connect_loop
    connect_loop_err tries i r c e h = simp (h, connect_loop)

    connect_loop_panic :
        (tries i : ℕ) (r : KeyRotator) (c : Counters)
        → (rotate sign (world i).1 (world i).0 r c).2 ≡ panic
        → connect_loop sign world (suc tries) i r c ≡ rotate sign (world i).1 (world i).0 r c
    unfolding connect_loop
    connect_loop_panic tries i r c h = simp (h, connect_loop)

    connect_loop_hang :
        (tries i : ℕ) (r : KeyRotator) (c : Counters)
        → (rotate sign (world i).1 (world i).0 r c).2 ≡ hang
        → connect_loop sign world (suc tries) i r c ≡ rotate sign (world i).1 (world i).0 r c
    unfolding connect_loop
    connect_loop_hang tries i r c h = simp (h, connect_loop)

    -- The constants that `connect` puts into the rotator.
    record IsDefault (r : KeyRotator) : Type 0 where
      duration : r.duration ≡ 3600
      forward : r.number_of_forward_periods ≡ 2
      backward : r.number_of_backward_periods ≡ 24

    IsDefault-IsSane : (r : KeyRotator) (t : ℕ) → IsDefault r → t < 2 ^ 63 → IsSane r t
    IsDefault-IsSane r t d h = record {
      positive = rw d.duration (omega arith);
      short = rw (d.duration, d.forward, d.backward) (omega arith);
      early = rw (d.duration, d.forward) (omega arith);
    }

    IsDefault-IsSteady : (r r' : KeyRotator) → IsDefault r → IsSteady r r' → IsDefault r'
    IsDefault-IsSteady r r' d s = record {
      duration = s.duration ∙ d.duration;
      forward = s.forward ∙ d.forward;
      backward = s.backward ∙ d.backward;
    }

    -- The latest key is there, and is that of the time of try `j`.
    abbrev pub LatestAt : KeyRotator → ℕ → Type 0
    LatestAt r j =
        (tag : Bytes) × (latest_key_value r ≡ ok (epoch_of 3600 ((world j).0 / 3600) % 2 ^ 32, tag))

    rotate-LatestAt :
        (i : ℕ) (r : KeyRotator) (c : Counters)
        → IsDefault r
        → (world i).0 < 2 ^ 63
        → (rotate sign (world i).1 (world i).0 r c).2 ≡ ok tt
        → LatestAt (rotate sign (world i).1 (world i).0 r c).0 i
    rotate-LatestAt i r c d early h =
        let (v, q, e) =
          latest_key_value-rotate sign (world i).1 (world i).0 r c
            (IsDefault-IsSane r (world i).0 d early) h in
        (
          sign r.master_key v,
          e
              ∙ ap (λ (n : ℕ). ok (epoch_of n ((world i).0 / n) % 2 ^ 32, sign r.master_key v))
                  d.duration,
        )

    connect_loop-LatestAt :
        (tries i : ℕ) (r : KeyRotator) (c : Counters)
        → ((j : ℕ) → (world j).0 < 2 ^ 63)
        → IsDefault r
        → (connect_loop sign world tries i r c).2 ≡ ok tt
        → (j : ℕ) × (i ≤ j) × (j ≤ i + tries) × LatestAt (connect_loop sign world tries i r c).0 j
    connect_loop-LatestAt zero i r c early d h =
        unfold connect_loop in (i, omega arith, omega arith, rotate-LatestAt i r c d (early i) h)
    connect_loop-LatestAt (suc tries) i r c early d h =
        elim (result-cases (rotate sign (world i).1 (world i).0 r c).2) [
          | inl good ↦
              rw (connect_loop_ok tries i r c good)
                (i, omega arith, omega arith, rotate-LatestAt i r c d (early i) good)
          | inr (inl (e, bad)) ↦
              let step = connect_loop_err tries i r c e bad in
              let run = rotate sign (world i).1 (world i).0 r c in
              let (j, lo, hi, l) =
                connect_loop-LatestAt tries (i + 1) run.0 run.1 early
                  (IsDefault-IsSteady r run.0 d (rotate-IsSteady (world i).1 (world i).0 r c))
                  (ap (λ (x : Run). x.2) (sym step) ∙ h) in
              rw step (j, omega arith, omega arith, l)
          | inr (inr (inl p)) ↦ cc (ap (λ (x : Run). x.2) (connect_loop_panic tries i r c p), p, h)
          | inr (inr (inr p)) ↦ cc (ap (λ (x : Run). x.2) (connect_loop_hang tries i r c p), p, h)
        ]

    -- Where `connect` returns `Ok`, and the time of every try is below 2 ^ 63, the latest key is
    -- there, and is that of the hour of one of the five tries.
    pub connect-LatestAt :
        (prefix memcached_url master_key : Bytes) (c : Counters)
        → ((j : ℕ) → (world j).0 < 2 ^ 63)
        → (connect sign world prefix memcached_url master_key c).2 ≡ ok tt
        → (j : ℕ) × (1 ≤ j)
          × (j ≤ 5)
          × LatestAt (connect sign world prefix memcached_url master_key c).0 j
    unfolding connect
    connect-LatestAt prefix memcached_url master_key c early h =
        connect_loop-LatestAt 4 1 (unrotated prefix memcached_url master_key) c early
          (record { duration = refl; forward = refl; backward = refl }) h
