-- ===== src/KeyRotator/Fetch.antt =====
-- src/key_rotator.rs: what the loop of `rotate` leaves in the cache.
use cfnts.Base.{
  ℕ, zero, suc, ◌+◌, ◌*◌, ◌%◌, ◌^◌, ◌<◌, ◌≤◌, ◌≡◌, ◌≢◌, ◌⊎◌, inl, inr, refl, sym, ap, ◌∙◌, Bytes,
  some, ◌==◌, ok, err, arith, Bool-cases,
}
use native.Mathlib.Nat.{add_assoc, add-zero}
use cfnts.KeyRotator.{
  from_epoch, memcache_error, key_id_not_found, KeyRotator, Counters, Reply, failed, missing, found,
  Memcache, memcached_key, Run, cache_insert, fetch_periods,
}

-- The key identifier of a period, and the key under which memcached holds its value.
abbrev pub epoch_of : ℕ → ℕ → ℕ
epoch_of duration period = period * duration % 2 ^ 64

abbrev pub id_of : ℕ → ℕ → ℕ
id_of duration period = from_epoch (epoch_of duration period)

pub Reply-cases :
    (x : Reply) → ((e : ℕ) × (x ≡ failed e)) ⊎ ((x ≡ missing) ⊎ ((v : Bytes) × (x ≡ found v)))
Reply-cases (failed e) = inl (e, refl)
Reply-cases missing = inr (inl refl)
Reply-cases (found v) = inr (inr (v, refl))

-- Two periods less than 2 ^ 32 seconds apart have different identifiers.
pub id_of-ne : (d p i : ℕ) → 0 < d → 0 < i → i * d < 2 ^ 32 → id_of d p ≢ id_of d (p + i)
id_of-ne d p i hd hi h e =
    let sum : (p + i) * d ≡ p * d + i * d = grind arith in
    let pos : 0 < i * d = grind arith in omega arith

module _ (sign : Bytes → Bytes → Bytes) (client : Memcache) where
  -- All but the cache stays.
  pub record Keeps (r r' : KeyRotator) : Type 0 where
    pub url : r'.memcached_url ≡ r.memcached_url
    pub prefix : r'.prefix ≡ r.prefix
    pub duration : r'.duration ≡ r.duration
    pub forward : r'.number_of_forward_periods ≡ r.number_of_forward_periods
    pub backward : r'.number_of_backward_periods ≡ r.number_of_backward_periods
    pub master : r'.master_key ≡ r.master_key
    pub latest : r'.latest_key_id ≡ r.latest_key_id

  module _ (n p : ℕ) (r : KeyRotator) (c : Counters) where
    pub fetch_failed :
        (e : ℕ)
        → client.get (memcached_key r.prefix (epoch_of r.duration p)) ≡ failed e
        → fetch_periods sign client (suc n) p r c ≡ (r, c, err (memcache_error e))
    unfolding fetch_periods
    fetch_failed e q = rw (q, fetch_periods) refl

    pub fetch_missing :
        client.get (memcached_key r.prefix (epoch_of r.duration p)) ≡ missing
        → fetch_periods sign client (suc n) p r c
          ≡ (r, record c { failures = c.failures + 1 }, err (key_id_not_found (id_of r.duration p)))
    unfolding fetch_periods
    fetch_missing q = rw (q, fetch_periods) refl

    pub fetch_found :
        (v : Bytes)
        → client.get (memcached_key r.prefix (epoch_of r.duration p)) ≡ found v
        → fetch_periods sign client (suc n) p r c
          ≡ fetch_periods sign client n (p + 1) (cache_insert sign r (id_of r.duration p) v) c
    unfolding fetch_periods
    fetch_found v q = rw (q, fetch_periods) refl

  pub fetch_periods-Keeps :
      (n p : ℕ) (r : KeyRotator) (c : Counters) → Keeps r (fetch_periods sign client n p r c).0
  fetch_periods-Keeps zero p r c =
      unfold fetch_periods in
      (record {
        url = refl;
        prefix = refl;
        duration = refl;
        forward = refl;
        backward = refl;
        master = refl;
        latest = refl;
      })
  fetch_periods-Keeps (suc n) p r c =
      elim (Reply-cases (client.get (memcached_key r.prefix (epoch_of r.duration p)))) [
        | inl (e, q) ↦ rw (fetch_failed n p r c e q) (ground arith)
        | inr (inl q) ↦ rw (fetch_missing n p r c q) (ground arith)
        | inr (inr (v, q)) ↦ rw (fetch_found n p r c v q) (
            ground
              (arith, fetch_periods-Keeps n (p + 1) (cache_insert sign r (id_of r.duration p) v) c))
      ]

  -- The entries of other identifiers than those of the periods stay.
  pub fetch_periods_other :
      (n p : ℕ) (r : KeyRotator) (c : Counters) (k : ℕ)
      → ((i : ℕ) → i < n → id_of r.duration (p + i) ≢ k)
      → (fetch_periods sign client n p r c).0.cache k ≡ r.cache k
  fetch_periods_other zero p r c k h = unfold fetch_periods in refl
  fetch_periods_other (suc n) p r c k h =
      elim (Reply-cases (client.get (memcached_key r.prefix (epoch_of r.duration p)))) [
        | inl (e, q) ↦ rw (fetch_failed n p r c e q) refl
        | inr (inl q) ↦ rw (fetch_missing n p r c q) refl
        | inr (inr (v, q)) ↦
            let first : id_of r.duration p ≢ k = rw (add-zero p) at (h 0 (omega arith)) in
            let later =
              fetch_periods_other n (p + 1) (cache_insert sign r (id_of r.duration p) v) c k
                (λ i lt. rw (add_assoc p 1 i) (h (1 + i) (omega arith))) in
            rw (fetch_found n p r c v q) (later ∙ ground (arith, first))
      ]

  -- An entry that is there stays, if perhaps with another tag.
  pub fetch_periods-some :
      (n p : ℕ) (r : KeyRotator) (c : Counters) (k : ℕ) {tag : Bytes}
      → r.cache k ≡ some tag
      → (tag' : Bytes) × ((fetch_periods sign client n p r c).0.cache k ≡ some tag')
  fetch_periods-some zero p r c k {tag} h = (tag, unfold fetch_periods in h)
  fetch_periods-some (suc n) p r c k {tag} h =
      elim (Reply-cases (client.get (memcached_key r.prefix (epoch_of r.duration p)))) [
        | inl (e, q) ↦ rw (fetch_failed n p r c e q) (tag, h)
        | inr (inl q) ↦ rw (fetch_missing n p r c q) (tag, h)
        | inr (inr (v, q)) ↦
            rw (fetch_found n p r c v q) (elim (Bool-cases (k == id_of r.duration p)) [
              | inl new ↦
                  fetch_periods-some n (p + 1) _ c k {tag = sign r.master_key v} (rw new refl)
              | inr old ↦ fetch_periods-some n (p + 1) _ c k {tag = tag} (rw old h)
            ])
      ]

  pub fetch_periods-rotations :
      (n p : ℕ) (r : KeyRotator) (c : Counters)
      → (fetch_periods sign client n p r c).1.rotations ≡ c.rotations
  fetch_periods-rotations zero p r c = unfold fetch_periods in refl
  fetch_periods-rotations (suc n) p r c =
      elim (Reply-cases (client.get (memcached_key r.prefix (epoch_of r.duration p)))) [
        | inl (e, q) ↦ rw (fetch_failed n p r c e q) refl
        | inr (inl q) ↦ rw (fetch_missing n p r c q) refl
        | inr (inr (v, q)) ↦ rw (fetch_found n p r c v q) (fetch_periods-rotations n (p + 1) _ c)
      ]

  fetch_periods-ok :
      (n p : ℕ) (r : KeyRotator) (c : Counters)
      → (fetch_periods sign client (suc n) p r c).2 ≡ ok tt
      → (v : Bytes) × (client.get (memcached_key r.prefix (epoch_of r.duration p)) ≡ found v)
        × ((fetch_periods sign client n (p + 1) (cache_insert sign r (id_of r.duration p) v) c).2
            ≡ ok tt)
  fetch_periods-ok n p r c h =
      elim (Reply-cases (client.get (memcached_key r.prefix (epoch_of r.duration p)))) [
        | inl (e, q) ↦ cc (ap (λ (x : Run). x.2) (fetch_failed n p r c e q), h)
        | inr (inl q) ↦ cc (ap (λ (x : Run). x.2) (fetch_missing n p r c q), h)
        | inr (inr (v, q)) ↦ (v, q, ap (λ (x : Run). x.2) (sym (fetch_found n p r c v q)) ∙ h)
      ]

  -- After a loop that returns `Ok`, the cache holds for each of its periods the tag of the value
  -- that memcached has for it.
  pub fetch_periods_all :
      (n p : ℕ) (r : KeyRotator) (c : Counters)
      → 0 < r.duration
      → n * r.duration ≤ 2 ^ 32
      → (fetch_periods sign client n p r c).2 ≡ ok tt
      → (i : ℕ) → i < n
      → (v : Bytes) × (client.get (memcached_key r.prefix (epoch_of r.duration (p + i))) ≡ found v)
        × ((fetch_periods sign client n p r c).0.cache (id_of r.duration (p + i))
            ≡ some (sign r.master_key v))
  fetch_periods_all zero p r c d w h i lt = absurd (omega arith)
  fetch_periods_all (suc n) p r c d w h zero lt =
      let (v, q, ok_) = fetch_periods-ok n p r c h in
      let r' = cache_insert sign r (id_of r.duration p) v in
      let away : (i : ℕ) → i < n → id_of r.duration (p + 1 + i) ≢ id_of r.duration p = λ i lt e.
        id_of-ne r.duration p (1 + i) d (omega arith) (grind arith)
          (rw (add_assoc p 1 i) at (sym e)) in
      let kept = fetch_periods_other n (p + 1) r' c (id_of r.duration p) away in
      rw (add-zero p, fetch_found n p r c v q) (v, q, kept ∙ ground arith)
  fetch_periods_all (suc n) p r c d w h (suc i) lt =
      let (v, q, ok_) = fetch_periods-ok n p r c h in
      let r' = cache_insert sign r (id_of r.duration p) v in
      let w' : n * r.duration ≤ 2 ^ 32 = grind arith in
      let ih = fetch_periods_all n (p + 1) r' c d w' ok_ i (omega arith) in
      let next : p + 1 + i ≡ p + suc i = omega arith in rw (fetch_found n p r c v q) (rw next at ih)
