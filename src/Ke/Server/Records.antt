-- ===== src/Ke/Server/Records.antt =====
-- src/nts_ke/server/connection.rs: the record loop does not depend on how the stream is cut.
use cfnts.Base.{
  ℕ, zero, suc, ◌<◌, ◌++◌, Bytes, true, false, some, none, inl, inr, Option-cases, Bool-cases, ok,
  ◌>>=◌, IsSettled, bind-IsSettled, bind-eq-ok, map_err, map_err-IsSettled, length, length-append,
  if_false, fun_ext, arith, ◌≡◌, refl, sym, ap, ◌∙◌,
}
use cfnts.Records.Types.{server, Net, ReceivedNtsKeRecordState}
use cfnts.Ke.Stream.{take_record, next_record}
use cfnts.Ke.Stream.Next.{
  next_record-split, next_record-append, next_record_shorter, take_record-IsSettled,
}
use cfnts.Ke.Server.{waiting, complete, read_records, read_buffer}

module _ (net : Net) where
  -- The loop on an unfinished state, one turn.
  pub read_records_done :
      (fuel : ℕ) (reader : Bytes) (s : ReceivedNtsKeRecordState)
      → s.finished ≡ true
      → read_records net (suc fuel) reader s ≡ ok (complete s)
  unfolding read_records
  read_records_done fuel reader s h = rw h refl

  pub read_records_short :
      (fuel : ℕ) (reader : Bytes) (s : ReceivedNtsKeRecordState)
      → s.finished ≡ false
      → next_record reader ≡ none
      → read_records net (suc fuel) reader s ≡ ok (waiting reader s)
  unfolding read_records
  read_records_short fuel reader s h e = if_false _ _ h ∙ rw e refl

  pub read_records_next :
      (fuel : ℕ) (reader first rest : Bytes) (s : ReceivedNtsKeRecordState)
      → s.finished ≡ false
      → next_record reader ≡ some (first, rest)
      → read_records net (suc fuel) reader s ≡ (
          map_err (λ _. s) (take_record net server first s) >>= λ s'. read_records net fuel rest s')
  unfolding read_records
  read_records_next fuel reader first rest s h e = if_false _ _ h ∙ rw e refl

  -- With more fuel than bytes, the loop ends in a state or at a shutdown: it neither panics nor
  -- runs out of fuel.
  pub read_records-IsSettled :
      (fuel : ℕ) (reader : Bytes) (s : ReceivedNtsKeRecordState)
      → length reader < fuel
      → IsSettled (read_records net fuel reader s)
  read_records-IsSettled zero reader s h = absurd (omega arith)
  read_records-IsSettled (suc fuel) reader s h = elim (Bool-cases s.finished) [
    | inl done ↦ rw (read_records_done fuel reader s done) tt
    | inr open_ ↦ elim (Option-cases (next_record reader)) [
      | inl e ↦ rw (read_records_short fuel reader s open_ e) tt
      | inr ((first, rest), e) ↦ rw (read_records_next fuel reader first rest s open_ e) (
          bind-IsSettled (map_err (λ _. s) (take_record net server first s)) _
            (map_err-IsSettled (λ _. s) (take_record net server first s)
              (take_record-IsSettled net server first s (next_record-split reader first rest e).0))
            (λ s'.
              read_records-IsSettled fuel rest s'
                (omega (arith, next_record_shorter reader first rest e))))
    ]
  ]

  -- Any fuel above the number of bytes gives the same reading.
  pub read_records_fuel :
      (fuel fuel' : ℕ) (reader : Bytes) (s : ReceivedNtsKeRecordState)
      → length reader < fuel
      → length reader < fuel'
      → read_records net fuel reader s ≡ read_records net fuel' reader s
  read_records_fuel zero fuel' reader s h h' = absurd (omega arith)
  read_records_fuel (suc fuel) zero reader s h h' = absurd (omega arith)
  read_records_fuel (suc fuel) (suc fuel') reader s h h' = elim (Bool-cases s.finished) [
    | inl done ↦
        rw (read_records_done fuel reader s done, read_records_done fuel' reader s done) refl
    | inr open_ ↦ elim (Option-cases (next_record reader)) [
      | inl e ↦
          rw (read_records_short fuel reader s open_ e, read_records_short fuel' reader s open_ e)
            refl
      | inr ((first, rest), e) ↦
          rw
            (
              read_records_next fuel reader first rest s open_ e,
              read_records_next fuel' reader first rest s open_ e,
            )
            (ap (λ k. map_err (λ _. s) (take_record net server first s) >>= k)
              (fun_ext (λ s'.
                read_records_fuel fuel fuel' rest s'
                  (omega (arith, next_record_shorter reader first rest e))
                  (omega (arith, next_record_shorter reader first rest e)))))
    ]
  ]

  read_records-append :
      (fuel fuel' : ℕ) (reader more rest : Bytes) (s s' : ReceivedNtsKeRecordState)
      → length (reader ++ more) < fuel
      → length (rest ++ more) < fuel'
      → read_records net fuel reader s ≡ ok (waiting rest s')
      → read_records net fuel (reader ++ more) s ≡ read_records net fuel' (rest ++ more) s'
  read_records-append zero fuel' reader more rest s s' h h' w = absurd (omega arith)
  read_records-append (suc fuel) fuel' reader more rest s s' h h' w = elim (Bool-cases s.finished) [
    | inl done ↦ absurd (let e = sym (read_records_done fuel reader s done) ∙ w in cc)
    | inr open_ ↦ elim (Option-cases (next_record reader)) [
      | inl e ↦
          let k : ok (waiting reader s) ≡ ok (waiting rest s') =
            sym (read_records_short fuel reader s open_ e) ∙ w in
          let e1 : rest ≡ reader = cc in
          let e2 : s' ≡ s = cc in
          rw (e1, e2) (read_records_fuel (suc fuel) fuel' (reader ++ more) s h (rw⁻¹ e1 h'))
      | inr ((first, later), e) ↦
          let m = map_err (λ _. s) (take_record net server first s) in
          let (s1, q, next) =
            bind-eq-ok m (λ s1. read_records net fuel later s1)
              (sym (read_records_next fuel reader first later s open_ e) ∙ w) in
          let shorter =
            next_record_shorter (reader ++ more) first (later ++ more)
              (next_record-append reader more first later e) in
          read_records_next fuel (reader ++ more) first (later ++ more) s open_
            (next_record-append reader more first later e)
          ∙ ap (λ m. m >>= λ s1. read_records net fuel (later ++ more) s1) q
          ∙ read_records-append fuel fuel' later more rest s1 s' (omega arith) h' next
    ]
  ]

  -- If the loop stopped on part of a stream to wait for more, then on the whole stream it does what
  -- it does after the wait on the bytes it kept and those that follow: where the stream is cut into
  -- events makes no difference.
  pub read_buffer-append :
      (reader more rest : Bytes) (s s' : ReceivedNtsKeRecordState)
      → read_buffer net reader s ≡ ok (waiting rest s')
      → read_buffer net (reader ++ more) s ≡ read_buffer net (rest ++ more) s'
  read_buffer-append reader more rest s s' w =
      read_records-append (suc (length (reader ++ more))) (suc (length (rest ++ more))) reader more
        rest s s' (omega arith) (omega arith)
        (read_records_fuel _ _ reader s (omega (arith, length-append reader more)) (omega arith)
          ∙ w)
