-- ===== src/KeyRotator/Rotate.antt =====
-- src/key_rotator.rs: what one rotation does to the keys, and when the latest key is lost.
use cfnts.Base.{
  ℕ, ◌+◌, ◌-◌, ◌*◌, ◌/◌, ◌^◌, ◌<◌, ◌≤◌, ◌≡◌, ◌⊎◌, inl, inr, refl, sym, ap, ◌∙◌, min, Bytes, some,
  none, false, ◌==◌, Outcome, ok, err, panic, hang, arith, Option-cases,
}
use cfnts.KeyRotator.{
  from_epoch, RotateError, memcache_error, KeyRotator, Counters, found, Memcache, memcached_key,
  Run, cache_remove, fetch_periods, set_latest, rotate, latest_key_value,
}
use cfnts.KeyRotator.Fetch.{epoch_of, id_of, fetch_periods_all}

-- The periods of the window at a time, and the identifier that a rotation removes.
abbrev pub first_period : KeyRotator → ℕ → ℕ
first_period r t = t / r.duration - r.number_of_backward_periods

abbrev pub last_period : KeyRotator → ℕ → ℕ
last_period r t = min (t / r.duration + r.number_of_forward_periods) (2 ^ 64 - 1)

abbrev pub removed_id : KeyRotator → ℕ → ℕ
removed_id r t = id_of r.duration (first_period r t - 1)

abbrev pub counted : Counters → Counters
counted c = record c { rotations = c.rotations + 1 }

-- The window is shorter than 2 ^ 32 seconds, so its identifiers differ, and ends before 2 ^ 64.
pub record IsSane (r : KeyRotator) (t : ℕ) : Type 0 where
  pub positive : 0 < r.duration
  pub short : (r.number_of_backward_periods + r.number_of_forward_periods + 1) * r.duration ≤ 2 ^ 32
  pub early : t / r.duration + r.number_of_forward_periods < 2 ^ 64

-- The keys are those of the time `t`: the latest is that of the current period, and the cache
-- holds for each period of the window the tag of the value that memcached has for it.
pub record IsFresh (sign : Bytes → Bytes → Bytes) (client : Memcache) (t : ℕ) (r r' : KeyRotator)
    : Type 0 where
  pub latest : r'.latest_key_id ≡ id_of r.duration (t / r.duration)
  pub window :
      (p : ℕ)
      → t / r.duration ≤ p + r.number_of_backward_periods
      → p ≤ t / r.duration + r.number_of_forward_periods
      → (v : Bytes) × (client.get (memcached_key r.prefix (epoch_of r.duration p)) ≡ found v)
        × (r'.cache (id_of r.duration p) ≡ some (sign r.master_key v))

-- The fields that say which periods to fetch, and from where.
pub record IsSteady (r r' : KeyRotator) : Type 0 where
  pub duration : r'.duration ≡ r.duration
  pub forward : r'.number_of_forward_periods ≡ r.number_of_forward_periods
  pub backward : r'.number_of_backward_periods ≡ r.number_of_backward_periods

le_scaled : (a b d m : ℕ) → a ≤ b → b * d ≤ m → a * d ≤ m
le_scaled a b d m h k = let scaled : a * d ≤ b * d = grind arith in omega arith

latest_key_value-some :
    (r : KeyRotator) {tag : Bytes}
    → r.cache r.latest_key_id ≡ some tag
    → latest_key_value r ≡ ok (r.latest_key_id, tag)
unfolding latest_key_value
latest_key_value-some r h = rw (h, latest_key_value) refl

pub Outcome-cases : (m : Outcome RotateError (Unit {0})) → (m ≡ ok tt) ⊎ ((m ≡ ok tt) → ⊥)
Outcome-cases (ok u) = inl refl
Outcome-cases (err e) = inr (λ h. cc)
Outcome-cases panic = inr (λ h. cc)
Outcome-cases hang = inr (λ h. cc)

module _ (sign : Bytes → Bytes → Bytes) (client : Memcache) (t : ℕ) (r : KeyRotator)
    (c : Counters) where
  -- The run of the loop that `rotate` makes.
  abbrev pub fetched : Run
  fetched =
      fetch_periods sign client (last_period r t + 1 - first_period r t) (first_period r t)
        (cache_remove r (removed_id r t)) (counted c)

  pub rotate_connected :
      0 < r.duration
      → client.connect r.memcached_url ≡ none
      → rotate sign client t r c ≡ set_latest (epoch_of r.duration (t / r.duration)) fetched
  unfolding rotate
  rotate_connected d h =
      let nonzero : (r.duration == 0) ≡ false = ground arith in rw (nonzero, h) refl

  pub rotate_refused :
      (e : ℕ)
      → 0 < r.duration
      → client.connect r.memcached_url ≡ some e
      → rotate sign client t r c
        ≡ (cache_remove r (removed_id r t), counted c, err (memcache_error e))
  unfolding rotate
  rotate_refused e d h =
      let nonzero : (r.duration == 0) ≡ false = ground arith in rw (nonzero, h) refl

  set_latest_ok :
      (epoch : ℕ) (run : Run)
      → (set_latest epoch run).2 ≡ ok tt
      → (run.2 ≡ ok tt)
        × ((set_latest epoch run).0 ≡ record run.0 { latest_key_id = from_epoch epoch })
  unfolding set_latest
  set_latest_ok epoch (r, c, ok u) h = (refl, refl)
  set_latest_ok epoch (r, c, err e) h = cc
  set_latest_ok epoch (r, c, panic) h = cc
  set_latest_ok epoch (r, c, hang) h = cc

  -- A rotation that returns `Ok` has fetched every period of the window.
  rotate_ok :
      0 < r.duration
      → (rotate sign client t r c).2 ≡ ok tt
      → (fetched.2 ≡ ok tt)
        × ((rotate sign client t r c).0
            ≡ record fetched.0 { latest_key_id = id_of r.duration (t / r.duration) })
  rotate_ok d h = elim (Option-cases (client.connect r.memcached_url)) [
    | inl q ↦
        let e = rotate_connected d q in
        rw e (
          set_latest_ok (epoch_of r.duration (t / r.duration)) fetched
            (ap (λ (x : Run). x.2) (sym e) ∙ h))
    | inr (x, q) ↦ cc (ap (λ (x : Run). x.2) (rotate_refused x d q), h)
  ]

  -- A rotation that returns `Ok` leaves the keys of its time: the latest key is that of the
  -- current period, and the cache holds for each period of the window the tag of the value that
  -- memcached has for it. The duration is positive, the window is shorter than 2 ^ 32 seconds
  -- and ends before period 2 ^ 64.
  pub rotate-IsFresh :
      IsSane r t
      → (rotate sign client t r c).2 ≡ ok tt
      → IsFresh sign client t r (rotate sign client t r c).0
  rotate-IsFresh s h =
      let (done, e) = rotate_ok s.positive h in
      let first = first_period r t in
      let rounds = last_period r t + 1 - first in
      let d : 0 < r.duration = s.positive in
      let early : t / r.duration + r.number_of_forward_periods < 2 ^ 64 = s.early in
      let few : rounds ≤ r.number_of_backward_periods + r.number_of_forward_periods + 1 =
        omega arith in
      let short : rounds * r.duration ≤ 2 ^ 32 = le_scaled _ _ _ _ few s.short in
      rw e (record {
        latest = refl;
        window = λ p lo hi.
            let there : first + (p - first) ≡ p = omega arith in
            rw there at (
              fetch_periods_all sign client rounds first (cache_remove r (removed_id r t))
                (counted c) d short done (p - first) (omega arith));
      })

  -- After a rotation that returns `Ok` the latest key is there: `latest_key_value` does not
  -- panic, and gives the tag of the value that memcached has for the current period. The
  -- duration is positive, the window is shorter than 2 ^ 32 seconds and ends before period 2 ^
  -- 64.
  pub latest_key_value-rotate :
      IsSane r t
      → (rotate sign client t r c).2 ≡ ok tt
      → (v : Bytes) × (client.get (memcached_key r.prefix (epoch_of r.duration (t / r.duration)))
          ≡ found v)
        × (latest_key_value (rotate sign client t r c).0
            ≡ ok (id_of r.duration (t / r.duration), sign r.master_key v))
  latest_key_value-rotate s h =
      let fresh = rotate-IsFresh s h in
      let (v, q, e) = fresh.window (t / r.duration) (omega arith) (omega arith) in
      let r' = (rotate sign client t r c).0 in
      let has : r'.cache r'.latest_key_id ≡ some (sign r.master_key v) =
        ap r'.cache fresh.latest ∙ e in
      (
        v,
        q,
        latest_key_value-some r' has ∙ ap (λ (k : ℕ). ok (k, sign r.master_key v)) fresh.latest,
      )
