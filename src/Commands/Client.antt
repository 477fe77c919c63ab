-- ===== src/Commands/Client.antt =====
-- src/sub_command/client.rs: the command `client`: its options, and the threads that measure. The
-- pauses between requests, the times that are measured and the texts of errors are left to parameters.
pub mod Accounts
use cfnts.Base.{
  ℕ, zero, suc, ◌+◌, ◌%◌, ◌^◌, List, [], ◌∷◌, ◌++◌, Bytes, Bool, true, false, ◌&&◌, ◌||◌, Option,
  some, none, Outcome, ok, err, panic, hang, first_of, codes, ◌==◌, if◌then◌else◌,
}
use cfnts.Ke.Client.{NtsKeResult, KeClientError}
use cfnts.Ntp.Client.{NtpClientError, NtpResult}
use cfnts.Ntp.Clock.{Floats}

-- The choice of the version of IP by the two flags, of which clap takes one at most.
unfoldable pub use_ipv4_of : Bool → Bool → Option Bool
use_ipv4_of true ipv6 = some true
use_ipv4_of false true = some false
use_ipv4_of false false = none

-- The trusted certificate: the first of the file that is named; a file that cannot be read counts as
-- none, and one without certificates makes the index panic. `load` is `load_tls_certs`.
unfoldable pub trusted_cert_of :
    {E : Type 0} → (Bytes → Option (List Bytes)) → Option Bytes → Outcome E (Option Bytes)
trusted_cert_of load none = ok none
trusted_cert_of load (some file) = elim (load file) [
  | none ↦ ok none
  | some [] ↦ panic
  | some (cert ∷ rest) ↦ ok (some cert)
]

-- `str::contains`
abbrev starts_with : Bytes → Bytes → Bool
starts_with [] text = true
starts_with (p ∷ ps) [] = false
starts_with (p ∷ ps) (t ∷ ts) = p == t && starts_with ps ts

unfoldable pub contains : Bytes → Bytes → Bool
contains [] word = starts_with word []
contains (t ∷ ts) word = starts_with word (t ∷ ts) || contains ts word

-- An `AtomicI32` as its bit pattern.
abbrev pub fetch_add : ℕ → ℕ
fetch_add n = (n + 1) % 2 ^ 32

-- `KE_TIMEOUT`, `KE_OS_FAILURE` and `KE_OTHER`, or the same of NTP.
pub record Failures : Type 0 where
  pub timeout : ℕ
  pub os_failure : ℕ
  pub other : ℕ

unfoldable pub count_failure : Bytes → Failures → Failures
unfolding contains
count_failure text f =
    if contains text (codes "time")
    then record f { timeout = fetch_add f.timeout }
    else if contains text (codes "os")
    then record f { os_failure = fetch_add f.os_failure }
    else record f { other = fetch_add f.other }

-- What the threads have counted, the numbers of times that were sent on the two channels, and the
-- texts on the channel of errors.
pub record Log : Type 0 where
  pub ke : Failures
  pub ntp : Failures
  pub ke_times : ℕ
  pub ntp_times : ℕ
  pub errors : List Bytes

abbrev pub ntp_time : Log → Log
ntp_time log = record log { ntp_times = log.ntp_times + 1 }

unfoldable pub ntp_failed : Bytes → Log → Log
unfolding count_failure
ntp_failed text log = record log {
  ntp = count_failure text log.ntp;
  errors = log.errors ++ ((codes "NTP: " ++ text) ∷ []);
}

unfoldable pub ke_failed : Bytes → Log → Log
unfolding count_failure
ke_failed text log = record log {
  ke = count_failure text log.ke;
  errors = log.errors ++ ((codes "KE: " ++ text) ∷ []);
}

module _ (f : Floats) (show_ke : KeClientError → Bytes) (show_ntp : NtpClientError → Bytes) where
  -- One request of a thread: what the key exchange ends with, and each NTP exchange with the state that
  -- it gave.
  pub record Request : Type 0 where
    pub ke_res : Outcome KeClientError NtsKeResult
    pub ntp_res : NtsKeResult → ℕ → Outcome NtpClientError (NtpResult f)

  -- The loop over `exchanges_per_cookie`; the time of an exchange is sent before its result is looked
  -- at. A panic ends the thread with what it has counted.
  unfoldable pub exchanges : (ℕ → Outcome NtpClientError (NtpResult f)) → ℕ → ℕ → Log → Log
  unfolding ntp_failed
  exchanges ntp_res zero i log = log
  exchanges ntp_res (suc left) i log = elim (ntp_res i) [
    | ok r ↦ exchanges ntp_res left (i + 1) (ntp_time log)
    | err e ↦ ntp_failed (show_ntp e) (ntp_time log)
    | panic ↦ log
    | hang ↦ log
  ]

  -- The body of the closure that the pool executes.
  unfoldable pub run_request : ℕ → Request → Log → Log
  unfolding exchanges ke_failed
  run_request exchanges_per_cookie request log = elim request.ke_res [
    | ok state ↦
        exchanges (request.ntp_res state) exchanges_per_cookie 0
          (record log { ke_times = log.ke_times + 1 })
    | err e ↦ ke_failed (show_ke e) log
    | panic ↦ log
    | hang ↦ log
  ]

  -- The requests of a measurement, in the order in which their threads count; the counters are atomic
  -- and the channels are queues.
  unfoldable pub measure : ℕ → List Request → Log → Log
  unfolding run_request
  measure exchanges_per_cookie [] log = log
  measure exchanges_per_cookie (request ∷ requests) log =
      measure exchanges_per_cookie requests (run_request exchanges_per_cookie request log)

  -- The warm-up: a key exchange that fails ends the command, and an NTP exchange that fails does not.
  unfoldable pub warmup : List Request → Outcome KeClientError (Unit {0})
  warmup [] = ok tt
  warmup (request ∷ requests) =
      let rest = warmup requests in
      elim request.ke_res [
        | ok state ↦ elim (request.ntp_res state 0) [
          | ok r ↦ rest
          | err e ↦ rest
          | panic ↦ panic
          | hang ↦ hang
        ]
        | err e ↦ err e
        | panic ↦ panic
        | hang ↦ hang
      ]
