-- ===== src/Examples/Measuring.antt =====
-- Examples on the measurement of the client and on the server of the metrics.
use cfnts.Base.{
  ℕ, [], ◌∷◌, ◌++◌, Bytes, true, none, Outcome, ok, err, List, All, IsSettled, Bool-cases, codes,
  inl, inr, arith, ◌≡◌, refl, ◌==◌, if◌then◌else◌,
}
use cfnts.Ke.Client.{KeClientError, read_error}
use cfnts.Ntp.Client.{NtpClientError, NtpResult, invalid_uid}
use cfnts.Commands.Client.{Request, Log, measure}
use cfnts.Commands.Client.Accounts.{IsQuiet, IsAccounted, measure-IsAccounted}
use cfnts.Metrics.{Incoming, wait_for_req_or_eof, scrape_result, serve_metrics}
use cfnts.Metrics.Request.{request_of, IsHeaderLine, serve_metrics-request_of}
use cfnts.Examples.Data.{keys, whole_floats}

-- A key exchange that times out, and one that succeeds before an NTP exchange that does not.
abbrev show_ke : KeClientError → Bytes
show_ke e = codes "timed out"

abbrev show_ntp : NtpClientError → Bytes
show_ntp e = codes "os error"

abbrev ntp_answer : ℕ → Outcome NtpClientError (NtpResult whole_floats)
ntp_answer j = if j == 1 then err invalid_uid else ok (record { stratum = 1; time_diff = 0 })

abbrev requests : List (Request whole_floats show_ke show_ntp)
requests =
    record { ke_res = err read_error; ntp_res = λ s. λ j. err invalid_uid }
    ∷ record {
      ke_res = ok (record {
        cookies = [];
        next_protocols = 0 ∷ [];
        aead_scheme = 15;
        next_server = codes "name";
        next_port = 123;
        keys = keys;
        use_ipv4 = none;
      });
      ntp_res = λ s. ntp_answer;
    }
    ∷ []

ntp_answer-IsSettled : (j : ℕ) → IsSettled (ntp_answer j)
ntp_answer-IsSettled j = elim (Bool-cases (j == 1)) [ inl e ↦ rw e tt | inr e ↦ rw e tt ]

requests-AreQuiet : All (IsQuiet whole_floats show_ke show_ntp 7) requests
requests-AreQuiet = (
  record { ke = tt; ntp = λ s. λ j. tt },
  (record { ke = tt; ntp = λ s. ntp_answer-IsSettled }, tt),
)

abbrev no_log : Log
no_log = record {
  ke = record { timeout = 0; os_failure = 0; other = 0 };
  ntp = record { timeout = 0; os_failure = 0; other = 0 };
  ke_times = 0;
  ntp_times = 0;
  errors = [];
}

measure-IsAccounted_example :
    IsAccounted whole_floats show_ke show_ntp 7 requests no_log
      (measure whole_floats show_ke show_ntp 7 requests no_log)
measure-IsAccounted_example =
    measure-IsAccounted whole_floats show_ke show_ntp 7 requests no_log requests-AreQuiet

-- A request of two lines, behind which the stream fails.
abbrev lines : List Bytes
lines = codes "GET /" ∷ (65 ∷ 58 ∷ 0xC3 ∷ 0xA9 ∷ 0xE2 ∷ 0x82 ∷ 0xAC ∷ []) ∷ []

lines-AreHeaderLines : All IsHeaderLine lines
lines-AreHeaderLines = (
  record {
    some_bytes = omega arith;
    no_newline = (refl, (refl, (refl, (refl, (refl, tt)))));
    text = codes "GET /";
    scalars = (
      inl (omega arith),
      (inl (omega arith), (inl (omega arith), (inl (omega arith), (inl (omega arith), tt)))),
    );
    encoded = refl;
  },
  (
    record {
      some_bytes = omega arith;
      no_newline = (refl, (refl, (refl, (refl, (refl, (refl, (refl, tt)))))));
      text = 65 ∷ 58 ∷ 0xE9 ∷ 0x20AC ∷ [];
      scalars =
          (inl (omega arith), (inl (omega arith), (inl (omega arith), (inl (omega arith), tt))));
      encoded = refl;
    },
    tt,
  ),
)

abbrev dest : Incoming
dest = record { received = request_of lines ++ (7 ∷ []); fails = true }

serve_metrics-request_of_example :
    (wait_for_req_or_eof dest ≡ ok (7 ∷ []))
    × (serve_metrics (codes "up 1") dest ≡ ok (scrape_result (codes "up 1")))
serve_metrics-request_of_example =
    serve_metrics-request_of dest (codes "up 1") lines (7 ∷ []) refl lines-AreHeaderLines
