-- ===== src/Ke/Client/Ends.antt =====
-- src/nts_ke/client.rs: the client's loop comes to an end on every stream.
use cfnts.Base.{
  ℕ, zero, suc, ◌<◌, Bytes, inl, inr, Option-cases, Bool-cases, IsSettled, bind-IsSettled, map_err,
  map_err-IsSettled, length, if_false, arith, subst⁻¹,
}
use cfnts.Records.Types.{client, Net, ReceivedNtsKeRecordState}
use cfnts.Ke.Stream.{take_record, next_record}
use cfnts.Ke.Stream.Next.{next_record-split, next_record_shorter, take_record-IsSettled}
use cfnts.Ke.Client.{record_error, read_response}

module _ (net : Net) where
  -- With more fuel than bytes, the loop ends with a state or an error: it neither panics nor runs
  -- out of fuel.
  pub read_response-IsSettled :
      (fuel : ℕ) (stream : Bytes) (s : ReceivedNtsKeRecordState)
      → length stream < fuel
      → IsSettled (read_response net fuel stream s)
  unfolding read_response
  read_response-IsSettled zero stream s h = absurd (omega arith)
  read_response-IsSettled (suc fuel) stream s h = elim (Bool-cases s.finished) [
    | inl done ↦ rw done tt
    | inr open_ ↦ elim (Option-cases (next_record stream)) [
      | inl e ↦ subst⁻¹ IsSettled (if_false _ _ open_) (rw e tt)
      | inr ((first, rest), e) ↦ subst⁻¹ IsSettled (if_false _ _ open_) (
          rw e (
            bind-IsSettled (map_err record_error (take_record net client first s)) _
              (map_err-IsSettled record_error (take_record net client first s) (
                take_record-IsSettled net client first s (next_record-split stream first rest e).0))
              (λ s'.
                read_response-IsSettled fuel rest s'
                  (omega (arith, next_record_shorter stream first rest e)))))
    ]
  ]
