-- ===== src/KeyRotator.antt =====
-- src/key_rotator.rs: the keys of a window of time periods, fetched from a Memcached server.
-- The memcached client, HMAC-SHA256 and the clock are parameters; the cache, a `HashMap`, is a
-- function; the two Prometheus counters are state. Arithmetic wraps, as in a release build.
pub mod Fetch
pub mod Rotate
pub mod Latest
pub mod Connect
pub mod Periodic
use cfnts.Base.{
  ℕ, zero, suc, ◌+◌, ◌-◌, ◌*◌, ◌/◌, ◌%◌, ◌^◌, ◌<◌, min, List, [], ◌∷◌, ◌++◌, Bytes, Option, some,
  none, Bool, true, false, ltb, ◌==◌, if◌then◌else◌, Outcome, ok, err, panic, hang,
}

-- `epoch as u32`
abbrev pub from_epoch : ℕ → ℕ
from_epoch epoch = epoch % 2 ^ 32

pub data RotateError : Type 0 where
  memcache_error : ℕ → RotateError
  key_id_not_found : ℕ → RotateError

abbrev pub Cache : Type 0
Cache = ℕ → Option Bytes

pub record KeyRotator : Type 0 where
  pub memcached_url : Bytes
  pub prefix : Bytes
  pub duration : ℕ
  pub number_of_forward_periods : ℕ
  pub number_of_backward_periods : ℕ
  pub master_key : Bytes
  pub latest_key_id : ℕ
  pub cache : Cache

-- `ROTATION_COUNTER` and `FAILURE_COUNTER`
pub record Counters : Type 0 where
  pub rotations : ℕ
  pub failures : ℕ

-- What `Client::get` answers: a `MemcacheError` by its number, no such key, or a value.
pub data Reply : Type 0 where
  failed : ℕ → Reply
  missing : Reply
  found : Bytes → Reply

-- The memcached client while one rotation runs: the error of `connect`, if any, and the answers.
pub record Memcache : Type 0 where
  pub connect : Bytes → Option ℕ
  pub get : Bytes → Reply

-- The decimal digits of a `u64`, of which there are 20 at most.
unfoldable pub decimal : ℕ → ℕ → Bytes
decimal zero n = []
decimal (suc fuel) n =
    let front = decimal fuel (n / 10) in
    if ltb n 10 then (b'0' + n) ∷ [] else front ++ (b'0' + n % 10) ∷ []

-- `format!("{}/{}", prefix, epoch)`
unfoldable pub memcached_key : Bytes → ℕ → Bytes
unfolding decimal
memcached_key prefix epoch = prefix ++ b'/' ∷ decimal 20 epoch

abbrev pub cache_remove : KeyRotator → ℕ → KeyRotator
cache_remove r key_id = record r { cache = λ k. if k == key_id then none else r.cache k }

abbrev pub Run : Type 0
Run = KeyRotator × Counters × Outcome RotateError (Unit {0})

-- What `rotate` does after its loop.
unfoldable pub set_latest : ℕ → Run → Run
set_latest current_epoch (r, c, ok _) =
    (record r { latest_key_id = from_epoch current_epoch }, c, ok tt)
set_latest current_epoch (r, c, err e) = (r, c, err e)
set_latest current_epoch (r, c, panic) = (r, c, panic)
set_latest current_epoch (r, c, hang) = (r, c, hang)

unfoldable pub latest_key_value : KeyRotator → Outcome RotateError (ℕ × Bytes)
latest_key_value r = elim (r.cache r.latest_key_id) [
  | none ↦ panic
  | some tag ↦ ok (r.latest_key_id, tag)
]

-- The state before the first rotation.
abbrev pub unrotated : Bytes → Bytes → Bytes → KeyRotator
unrotated prefix memcached_url master_key = record {
  memcached_url = memcached_url;
  prefix = prefix;
  duration = 3600;
  number_of_forward_periods = 2;
  number_of_backward_periods = 24;
  master_key = master_key;
  latest_key_id = 0;
  cache = λ k. none;
}

-- `sign key message` is the tag of HMAC-SHA256.
module _ (sign : Bytes → Bytes → Bytes) where
  abbrev pub cache_insert : KeyRotator → ℕ → Bytes → KeyRotator
  cache_insert r key_id value = record r {
    cache = λ k. if k == key_id then some (sign r.master_key value) else r.cache k;
  }

  -- The loop of `rotate` over the periods that are left, from `period_number` on.
  unfoldable pub fetch_periods : Memcache → ℕ → ℕ → KeyRotator → Counters → Run
  fetch_periods client zero period_number r c = (r, c, ok tt)
  fetch_periods client (suc n) period_number r c =
      let epoch = period_number * r.duration % 2 ^ 64 in
      let key_id = from_epoch epoch in
      elim (client.get (memcached_key r.prefix epoch)) [
        | failed e ↦ (r, c, err (memcache_error e))
        | missing ↦ (r, record c { failures = c.failures + 1 }, err (key_id_not_found key_id))
        | found value ↦ fetch_periods client n (period_number + 1) (cache_insert r key_id value) c
      ]

  -- `rotate` at the time `timestamp`, in seconds since the Unix epoch; `-` is `saturating_sub`.
  unfoldable pub rotate : Memcache → ℕ → KeyRotator → Counters → Run
  unfolding set_latest
  rotate client timestamp r c =
      let c' = record c { rotations = c.rotations + 1 } in
      let current_period = timestamp / r.duration in
      let current_epoch = current_period * r.duration % 2 ^ 64 in
      let first_period = current_period - r.number_of_backward_periods in
      let last_period = min (current_period + r.number_of_forward_periods) (2 ^ 64 - 1) in
      let removed_epoch = (first_period - 1) * r.duration % 2 ^ 64 in
      let r' = cache_remove r (from_epoch removed_epoch) in
      let fetched = fetch_periods client (last_period + 1 - first_period) first_period r' c' in
      if r.duration == 0 then (r, c', panic) else (elim (client.connect r.memcached_url) [
        | some e ↦ (r', c', err (memcache_error e))
        | none ↦ set_latest current_epoch fetched
      ])

  -- The tries of `connect`: `tries` more after this one. The clock and the server at try `i` are
  -- `world i`; between two tries the thread sleeps.
  unfoldable pub connect_loop : (ℕ → ℕ × Memcache) → ℕ → ℕ → KeyRotator → Counters → Run
  connect_loop world zero i r c = rotate (world i).1 (world i).0 r c
  connect_loop world (suc tries) i r c =
      let run = rotate (world i).1 (world i).0 r c in
      let again = connect_loop world tries (i + 1) run.0 run.1 in
      elim run.2 [ ok _ ↦ run | err _ ↦ again | panic ↦ run | hang ↦ run ]

  -- Five tries at most.
  unfoldable pub connect : (ℕ → ℕ × Memcache) → Bytes → Bytes → Bytes → Counters → Run
  connect world prefix memcached_url master_key c =
      connect_loop world 4 1 (unrotated prefix memcached_url master_key) c

  -- The thread of `periodic_rotate`, for the turns of its loop that have been made: the clock and the
  -- server of each. The result of a rotation is dropped, and between two the thread sleeps for
  -- `duration` seconds; a panic ends it.
  unfoldable pub periodic_rotate : List (ℕ × Memcache) → KeyRotator → Counters → Run
  periodic_rotate [] r c = (r, c, ok tt)
  periodic_rotate ((timestamp, client) ∷ turns) r c =
      let run = rotate client timestamp r c in
      let again = periodic_rotate turns run.0 run.1 in
      elim run.2 [ ok _ ↦ again | err _ ↦ again | panic ↦ run | hang ↦ run ]
