-- ===== src/Commands/Client/Accounts.antt =====
-- src/sub_command/client.rs: every request of a measurement is accounted for.
use cfnts.Base.{
  ℕ, zero, suc, ◌+◌, ◌-◌, ◌%◌, ◌^◌, ◌≤◌, List, [], ◌∷◌, ◌++◌, append_assoc, append-nil, Bytes,
  Option, none, some, Outcome, ok, err, panic, hang, IsSettled, settled-cases, All, codes,
  Bool-cases, inl, inr, arith, ◌≡◌, refl, sym, ap, ◌∙◌,
}
use cfnts.Ke.Client.{NtsKeResult, KeClientError}
use cfnts.Ntp.Client.{NtpClientError, NtpResult}
use cfnts.Ntp.Clock.{Floats}
use cfnts.Commands.Client.{
  Failures, contains, count_failure, Log, ntp_time, ntp_failed, ke_failed, Request, exchanges,
  run_request, measure,
}

-- The failures that were counted, modulo 2 ^ 32.
abbrev pub total : Failures → ℕ
total f = (f.timeout + f.os_failure + f.other) % 2 ^ 32

count_failure-total :
    (text : Bytes) (f : Failures) → total (count_failure text f) ≡ (total f + 1) % 2 ^ 32
unfolding count_failure
count_failure-total text f = elim (Bool-cases (contains text (codes "time"))) [
  | inl time ↦ rw time (omega arith)
  | inr other ↦ elim (Bool-cases (contains text (codes "os"))) [
    | inl os ↦ rw (other, os) (omega arith)
    | inr rest ↦ rw (other, rest) (omega arith)
  ]
]

-- The first of `left` exchanges from `i` on that fails, by its number and its error.
abbrev pub first_failure : {E A : Type 0} → (ℕ → Outcome E A) → ℕ → ℕ → Option (ℕ × E)
first_failure res zero i = none
first_failure res (suc left) i =
    let others = first_failure res left (i + 1) in
    elim (res i) [ ok a ↦ others | err e ↦ some (i, e) | panic ↦ others | hang ↦ others ]

first_failure-ok :
    {E A : Type 0} (res : ℕ → Outcome E A) (left i : ℕ) {a : A}
    → res i ≡ ok a
    → first_failure res (suc left) i ≡ first_failure res left (i + 1)
first_failure-ok res left i e = rw (first_failure, e) refl

first_failure-err :
    {E A : Type 0} (res : ℕ → Outcome E A) (left i : ℕ) {e : E}
    → res i ≡ err e
    → first_failure res (suc left) i ≡ some (i, e)
first_failure-err res left i h = rw (first_failure, h) refl

-- The exchanges from `i` on that are made: all of them, or those up to the first that fails.
abbrev pub made : {E : Type 0} → ℕ → ℕ → Option (ℕ × E) → ℕ
made left i none = left
made left i (some failure) = failure.0 + 1 - i

abbrev pub is_failure : {A : Type 0} → Option A → ℕ
is_failure none = 0
is_failure (some a) = 1

-- A failure is not before the exchange from which it was looked for.
abbrev IsLater : {E : Type 0} → ℕ → Option (ℕ × E) → Type 0
IsLater i none = Unit {0}
IsLater i (some failure) = i ≤ failure.0

IsLater-next :
    {E : Type 0} (i : ℕ) (failure : Option (ℕ × E)) → IsLater (i + 1) failure → IsLater i failure
IsLater-next i none h = tt
IsLater-next i (some failure) h = omega (arith, h)

made_next :
    {E : Type 0} (left i : ℕ) (failure : Option (ℕ × E))
    → IsLater (i + 1) failure
    → {after : ℕ} (before : ℕ) → after ≡ before + 1 + made left (i + 1) failure
    → after ≡ before + made (suc left) i failure
made_next left i none h before e = omega (arith, e)
made_next left i (some failure) h before e = omega (arith, e, h)

module _ (f : Floats) (show_ke : KeClientError → Bytes) (show_ntp : NtpClientError → Bytes)
    (per_cookie : ℕ) where
  -- The key exchanges of the requests that gave a result, and those that failed.
  abbrev pub exchanged : List (Request f show_ke show_ntp) → ℕ
  exchanged [] = 0
  exchanged (request ∷ requests) = elim request.ke_res [
    | ok state ↦ 1 + exchanged requests
    | err e ↦ exchanged requests
    | panic ↦ exchanged requests
    | hang ↦ exchanged requests
  ]

  abbrev pub ke_errors : List (Request f show_ke show_ntp) → ℕ
  ke_errors [] = 0
  ke_errors (request ∷ requests) = elim request.ke_res [
    | ok state ↦ ke_errors requests
    | err e ↦ 1 + ke_errors requests
    | panic ↦ ke_errors requests
    | hang ↦ ke_errors requests
  ]

  -- The NTP exchange of a request that fails, if its key exchange gave a result.
  abbrev pub ntp_failure :
      Outcome KeClientError NtsKeResult
      → (NtsKeResult → ℕ → Outcome NtpClientError (NtpResult f))
      → Option (ℕ × NtpClientError)
  ntp_failure (ok state) ntp_res = first_failure (ntp_res state) per_cookie 0
  ntp_failure _ ntp_res = none

  abbrev pub ntp_errors : List (Request f show_ke show_ntp) → ℕ
  ntp_errors [] = 0
  ntp_errors (request ∷ requests) =
      is_failure (ntp_failure request.ke_res request.ntp_res) + ntp_errors requests

  -- The NTP exchanges that were made.
  abbrev pub ntp_made : List (Request f show_ke show_ntp) → ℕ
  ntp_made [] = 0
  ntp_made (request ∷ requests) = elim request.ke_res [
    | ok state ↦
        made per_cookie 0 (first_failure (request.ntp_res state) per_cookie 0) + ntp_made requests
    | err e ↦ ntp_made requests
    | panic ↦ ntp_made requests
    | hang ↦ ntp_made requests
  ]

  -- The text of an NTP exchange that fails, and the texts of all failures in their order.
  abbrev pub ntp_text : Option (ℕ × NtpClientError) → List Bytes
  ntp_text none = []
  ntp_text (some failure) = (codes "NTP: " ++ show_ntp failure.1) ∷ []

  abbrev pub texts : List (Request f show_ke show_ntp) → List Bytes
  texts [] = []
  texts (request ∷ requests) = elim request.ke_res [
    | ok state ↦ ntp_text (first_failure (request.ntp_res state) per_cookie 0) ++ texts requests
    | err e ↦ (codes "KE: " ++ show_ke e) ∷ texts requests
    | panic ↦ texts requests
    | hang ↦ texts requests
  ]

  -- What requests have done to the log.
  pub record IsAccounted (requests : List (Request f show_ke show_ntp)) (before after : Log)
      : Type 0 where
    pub ke_measured : after.ke_times ≡ before.ke_times + exchanged requests
    pub ke_counted : total after.ke ≡ (total before.ke + ke_errors requests) % 2 ^ 32
    pub ntp_measured : after.ntp_times ≡ before.ntp_times + ntp_made requests
    pub ntp_counted : total after.ntp ≡ (total before.ntp + ntp_errors requests) % 2 ^ 32
    pub reported : after.errors ≡ before.errors ++ texts requests

  -- A request whose key exchange and whose NTP exchanges return a result or an error.
  pub record IsQuiet (request : Request f show_ke show_ntp) : Type 0 where
    pub ke : IsSettled request.ke_res
    pub ntp : (state : NtsKeResult) (j : ℕ) → IsSettled (request.ntp_res state j)

  -- What the exchanges from `i` on do, of which `failure` is the first that fails.
  record IsExchanged (left i : ℕ) (failure : Option (ℕ × NtpClientError)) (before after : Log)
      : Type 0 where
    later : IsLater i failure
    ke : after.ke ≡ before.ke
    ke_times : after.ke_times ≡ before.ke_times
    measured : after.ntp_times ≡ before.ntp_times + made left i failure
    counted : total after.ntp ≡ (total before.ntp + is_failure failure) % 2 ^ 32
    reported : after.errors ≡ before.errors ++ ntp_text failure

  exchanges-IsExchanged :
      (ntp_res : ℕ → Outcome NtpClientError (NtpResult f)) (left i : ℕ) (log : Log)
      → ((j : ℕ) → IsSettled (ntp_res j))
      → IsExchanged left i
          (first_failure ntp_res left i)
          log
          (exchanges f show_ke show_ntp ntp_res left i log)
  unfolding exchanges ntp_failed
  exchanges-IsExchanged ntp_res zero i log h = record {
    later = tt;
    ke = refl;
    ke_times = refl;
    measured = omega arith;
    counted = omega arith;
    reported = sym (append-nil log.errors);
  }
  exchanges-IsExchanged ntp_res (suc left) i log h = elim (settled-cases (ntp_res i) (h i)) [
    | inl (r, e) ↦
        let x = exchanges-IsExchanged ntp_res left (i + 1) (ntp_time log) h in
        rw (first_failure-ok ntp_res left i e, exchanges, e)
          (record {
            later = IsLater-next i _ x.later;
            ke = x.ke;
            ke_times = x.ke_times;
            measured = made_next left i _ x.later log.ntp_times x.measured;
            counted = x.counted;
            reported = x.reported;
          })
    | inr (e, q) ↦
        rw (first_failure-err ntp_res left i q, exchanges, q)
          (record {
            later = omega arith;
            ke = refl;
            ke_times = refl;
            measured = omega arith;
            counted = count_failure-total (show_ntp e) log.ntp;
            reported = refl;
          })
  ]

  run_request-IsAccounted :
      (request : Request f show_ke show_ntp) (requests : List (Request f show_ke show_ntp))
      (log after : Log)
      → IsQuiet request
      → IsAccounted requests (run_request f show_ke show_ntp per_cookie request log) after
      → IsAccounted (request ∷ requests) log after
  unfolding run_request ke_failed
  run_request-IsAccounted request requests log after q rest =
      elim (settled-cases request.ke_res q.ke) [
        | inl (state, e) ↦
            let x =
              exchanges-IsExchanged (request.ntp_res state) per_cookie 0
                (record log { ke_times = log.ke_times + 1 }) (q.ntp state) in
            let r = rw (e, run_request) at rest in
            rw e (record {
              ke_measured = omega (arith, r.ke_measured, x.ke_times);
              ke_counted = rw x.ke at r.ke_counted;
              ntp_measured = omega (arith, r.ntp_measured, x.measured);
              ntp_counted = omega (arith, r.ntp_counted, x.counted);
              reported =
                  r.reported
                  ∙ ap (λ l. l ++ texts requests) x.reported
                  ∙ append_assoc log.errors _ (texts requests);
            })
        | inr (e, k) ↦
            let r = rw (k, run_request) at rest in
            rw k (record {
              ke_measured = r.ke_measured;
              ke_counted = omega (arith, r.ke_counted, count_failure-total (show_ke e) log.ke);
              ntp_measured = r.ntp_measured;
              ntp_counted = omega (arith, r.ntp_counted);
              reported =
                  r.reported
                  ∙ append_assoc log.errors ((codes "KE: " ++ show_ke e) ∷ []) (texts requests);
            })
      ]

  -- A measurement accounts for every request, where all of them return results and errors: a key
  -- exchange that gives a result is measured, and one that fails is counted; of the
  -- `exchanges_per_cookie` NTP exchanges behind a key exchange those up to the first that fails are
  -- made and measured, and that one is counted; and the channel of errors has the text of each failure,
  -- in their order. The counters are taken as sums over the causes modulo 2 ^ 32.
  pub measure-IsAccounted :
      (requests : List (Request f show_ke show_ntp)) (log : Log)
      → All IsQuiet requests
      → IsAccounted requests log (measure f show_ke show_ntp per_cookie requests log)
  unfolding measure
  measure-IsAccounted [] log h = record {
    ke_measured = omega arith;
    ke_counted = omega arith;
    ntp_measured = omega arith;
    ntp_counted = omega arith;
    reported = sym (append-nil log.errors);
  }
  measure-IsAccounted (request ∷ requests) log (q, h) =
      run_request-IsAccounted request requests log _ q
        (measure-IsAccounted requests (run_request f show_ke show_ntp per_cookie request log) h)
