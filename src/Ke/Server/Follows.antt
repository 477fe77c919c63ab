-- ===== src/Ke/Server/Follows.antt =====
-- src/nts_ke/server/connection.rs: what the record loop says of the state that it started from.
use cfnts.Base.{
  ℕ, zero, suc, Bytes, true, false, inl, inr, Option-cases, Bool-cases, Outcome, ok, err, panic,
  hang, ◌>>=◌, map_err, ◌≡◌, subst⁻¹,
}
use cfnts.Records.Types.{server, Net, ReceivedNtsKeRecordState}
use cfnts.Ke.Stream.{take_record, next_record}
use cfnts.Ke.Server.{Reading, waiting, complete, read_records}
use cfnts.Ke.Server.Records.{read_records_done, read_records_short, read_records_next}

-- What the loop says of the state that it started from.
abbrev pub Follows : ReceivedNtsKeRecordState → Outcome ReceivedNtsKeRecordState Reading → Type 0
Follows s0 (ok (waiting rest s)) = s0.finished ≡ false
Follows s0 (ok (complete s)) = s.finished ≡ true
Follows s0 (err s) = s0.finished ≡ false
Follows s0 panic = Unit {0}
Follows s0 hang = Unit {0}

Follows-unfinished :
    (s0 s1 : ReceivedNtsKeRecordState) (m : Outcome ReceivedNtsKeRecordState Reading)
    → s0.finished ≡ false
    → Follows s1 m
    → Follows s0 m
Follows-unfinished s0 s1 (ok (waiting rest s)) h f = h
Follows-unfinished s0 s1 (ok (complete s)) h f = f
Follows-unfinished s0 s1 (err s) h f = h
Follows-unfinished s0 s1 panic h f = tt
Follows-unfinished s0 s1 hang h f = tt

bind-Follows :
    (s0 : ReceivedNtsKeRecordState) (m : Outcome ReceivedNtsKeRecordState ReceivedNtsKeRecordState)
    (f : ReceivedNtsKeRecordState → Outcome ReceivedNtsKeRecordState Reading)
    → s0.finished ≡ false
    → ((s1 : ReceivedNtsKeRecordState) → Follows s1 (f s1))
    → Follows s0 (m >>= f)
bind-Follows s0 (ok s1) f h k = Follows-unfinished s0 s1 (f s1) h (k s1)
bind-Follows s0 (err e) f h k = h
bind-Follows s0 panic f h k = tt
bind-Follows s0 hang f h k = tt

module _ (net : Net) where
  pub read_records-Follows :
      (fuel : ℕ) (reader : Bytes) (s : ReceivedNtsKeRecordState)
      → Follows s (read_records net fuel reader s)
  unfolding read_records
  read_records-Follows zero reader s = tt
  read_records-Follows (suc fuel) reader s = elim (Bool-cases s.finished) [
    | inl done ↦ subst⁻¹ (Follows s) (read_records_done net fuel reader s done) done
    | inr open_ ↦ elim (Option-cases (next_record reader)) [
      | inl e ↦ subst⁻¹ (Follows s) (read_records_short net fuel reader s open_ e) open_
      | inr ((first, rest), e) ↦
          subst⁻¹ (Follows s) (read_records_next net fuel reader first rest s open_ e) (
            bind-Follows s (map_err (λ _. s) (take_record net server first s))
              (λ s1. read_records net fuel rest s1) open_ (λ s1. read_records-Follows fuel rest s1))
    ]
  ]
