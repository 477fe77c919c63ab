-- ===== src/Ke/Stream/Next.antt =====
-- src/nts_ke/server/connection.rs and src/nts_ke/client.rs: the record that a stream starts with.
use cfnts.Base.{
  suc, ◌+◌, ◌<◌, ◌≤◌, [], ◌∷◌, ◌++◌, Bytes, false, some, none, inl, inr, IsSettled, u16_of, length,
  take, drop, ltb, ltb_false→le, le→ltb_false, Bool-cases, length-append, length-take, arith, ◌≡◌,
  refl, sym, ◌∙◌, append_assoc, take-append, drop-append, take-append-drop,
}
use cfnts.Records.Types.{Party, ReceivedNtsKeRecordState, Net}
use cfnts.Records.Process.{process_record}
use cfnts.Records.Total.{deserialize-IsSettled}
use cfnts.Ke.Stream.{body_length, next_record, take_record, take_result}

-- The bytes of one whole record.
abbrev pub IsWholeRecord : Bytes → Type 0
IsWholeRecord (b0 ∷ b1 ∷ b2 ∷ b3 ∷ body) = length body ≡ u16_of b2 b3
IsWholeRecord _ = ⊥

pub next_record-whole :
    (first rest : Bytes) → IsWholeRecord first → next_record (first ++ rest) ≡ some (first, rest)
unfolding next_record body_length
next_record-whole [] rest h = elim h [ ]
next_record-whole (b0 ∷ []) rest h = elim h [ ]
next_record-whole (b0 ∷ b1 ∷ []) rest h = elim h [ ]
next_record-whole (b0 ∷ b1 ∷ b2 ∷ []) rest h = elim h [ ]
next_record-whole (b0 ∷ b1 ∷ b2 ∷ b3 ∷ body) rest h =
    let reader : Bytes = b0 ∷ b1 ∷ b2 ∷ b3 ∷ (body ++ rest) in
    let header : ltb (length reader) 4 ≡ false = le→ltb_false _ _ (omega arith) in
    let long : ltb (length reader) (4 + body_length reader) ≡ false =
      le→ltb_false _ _ (omega (arith, length-append body rest)) in
    rw
      (
        header,
        long,
        take-append (b0 ∷ b1 ∷ b2 ∷ b3 ∷ body) rest {n = 4 + u16_of b2 b3} (omega arith),
        drop-append (b0 ∷ b1 ∷ b2 ∷ b3 ∷ body) rest {n = 4 + u16_of b2 b3} (omega arith),
      )
      refl

-- What `next_record` returns is a whole record, and the stream is it and the rest.
pub next_record-split :
    (reader first rest : Bytes)
    → next_record reader ≡ some (first, rest)
    → IsWholeRecord first × (reader ≡ first ++ rest)
unfolding next_record body_length
next_record-split (b0 ∷ b1 ∷ b2 ∷ b3 ∷ body) first rest h =
    let reader : Bytes = b0 ∷ b1 ∷ b2 ∷ b3 ∷ body in
    let header : ltb (length reader) 4 ≡ false = le→ltb_false _ _ (omega arith) in
    elim (Bool-cases (ltb (length reader) (4 + body_length reader))) [
      | inl short ↦
          let e : none ≡ some (first, rest) = sym (rw (header, short) refl) ∙ h in absurd cc
      | inr long ↦
          let n = u16_of b2 b3 in
          let four : 4 + u16_of b2 b3 ≡ suc (suc (suc (suc (u16_of b2 b3)))) = omega arith in
          let whole : next_record reader ≡ some (b0 ∷ b1 ∷ b2 ∷ b3 ∷ take n body, drop n body) =
            rw (header, long, four) refl in
          let e1 : first ≡ b0 ∷ b1 ∷ b2 ∷ b3 ∷ take n body = cc in
          let e2 : rest ≡ drop n body = cc in
          rw (e1, e2)
            (grind (arith, length-take n body, ltb_false→le), rw (take-append-drop n body) refl)
    ]
next_record-split [] first rest h = cc
next_record-split (b0 ∷ []) first rest h = cc
next_record-split (b0 ∷ b1 ∷ []) first rest h = cc
next_record-split (b0 ∷ b1 ∷ b2 ∷ []) first rest h = cc

-- A whole record stays the first one when more bytes arrive.
pub next_record-append :
    (reader more first rest : Bytes)
    → next_record reader ≡ some (first, rest)
    → next_record (reader ++ more) ≡ some (first, rest ++ more)
next_record-append reader more first rest h =
    let (whole, e) = next_record-split reader first rest h in
    rw (e, append_assoc first rest more) (next_record-whole first (rest ++ more) whole)

pub next_record_shorter :
    (reader first rest : Bytes)
    → next_record reader ≡ some (first, rest)
    → length rest < length reader
next_record_shorter reader first rest h =
    let (whole, e) = next_record-split reader first rest h in
    rw e (omega (arith, length-append first rest, header_long first whole))
  where
    header_long : (first : Bytes) → IsWholeRecord first → 4 ≤ length first
    header_long (b0 ∷ b1 ∷ b2 ∷ b3 ∷ body) h = omega arith
    header_long [] h = elim h [ ]
    header_long (b0 ∷ []) h = elim h [ ]
    header_long (b0 ∷ b1 ∷ []) h = elim h [ ]
    header_long (b0 ∷ b1 ∷ b2 ∷ []) h = elim h [ ]

-- A whole record is taken or refused: the call does not panic.
pub take_record-IsSettled :
    (net : Net) (party : Party) (bytes : Bytes) (s : ReceivedNtsKeRecordState)
    → IsWholeRecord bytes
    → IsSettled (take_record net party bytes s)
unfolding take_record take_result process_record
take_record-IsSettled net party (b0 ∷ b1 ∷ b2 ∷ b3 ∷ body) s h =
    ground (arith, deserialize-IsSettled net party b0 b1 b2 b3 body (omega arith))
take_record-IsSettled net party [] s h = elim h [ ]
take_record-IsSettled net party (b0 ∷ []) s h = elim h [ ]
take_record-IsSettled net party (b0 ∷ b1 ∷ []) s h = elim h [ ]
take_record-IsSettled net party (b0 ∷ b1 ∷ b2 ∷ []) s h = elim h [ ]
