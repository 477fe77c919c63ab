-- ===== src/Ntp/Clock.antt =====
-- src/ntp/server/server.rs and src/ntp/client.rs: times as NTP timestamps and as floats. The
-- machine's `f64` arithmetic is a parameter; a time is what has passed since the Unix epoch.
use cfnts.Base.{
  ℕ, ◌+◌, ◌-◌, ◌*◌, ◌/◌, ◌%◌, ◌^◌, ◌<◌, ltb, if◌then◌else◌, arith, ◌≡◌, ◌∙◌, ap, Bool, true, false,
}

-- `f64`: conversion from an integer, the operations, and `floor` and `round` followed by `as u32`;
-- `phi` is 15e-6.
pub record Floats : Type 1 where
  pub F64 : Type 0
  pub of_int : ℕ → F64
  pub phi : F64
  pub add : F64 → F64 → F64
  pub sub : F64 → F64 → F64
  pub mul : F64 → F64 → F64
  pub div : F64 → F64 → F64
  pub floor_u32 : F64 → ℕ
  pub round_u32 : F64 → ℕ

-- A cast to `u32` gives a `u32`.
pub record IsFloats (f : Floats) : Type 0 where
  pub floor_u32-lt : (x : f.F64) → f.floor_u32 x < 2 ^ 32
  pub round_u32-lt : (x : f.F64) → f.round_u32 x < 2 ^ 32

pub record SystemTime : Type 0 where
  pub secs : ℕ
  pub nanos : ℕ

abbrev pub unix_offset : ℕ
unix_offset = 2208988800

-- `duration_since` is an error if `now` is before `taken`; of a duration the seconds are used.
abbrev pub is_before : SystemTime → SystemTime → Bool
is_before a b =
    if ltb a.secs b.secs then true else (if ltb b.secs a.secs then false else ltb a.nanos b.nanos)

abbrev pub elapsed_secs : SystemTime → SystemTime → ℕ
elapsed_secs now taken =
    if ltb now.nanos taken.nanos then now.secs - taken.secs - 1 else now.secs - taken.secs

module _ (f : Floats) where
  -- The sum and the shift wrap at 32 bits.
  unfoldable pub fix_dispersion : ℕ → SystemTime → SystemTime → ℕ
  fix_dispersion disp now taken =
      let disp_frac = f.of_int (disp % 2 ^ 16) in
      let disp_secs = f.of_int (disp / 2 ^ 16) in
      let dispf = f.add disp_secs (f.div disp_frac (f.of_int 65536)) in
      let curdispf = f.add dispf (f.mul (f.of_int (elapsed_secs now taken)) f.phi) in
      let curdisp_secs = f.floor_u32 curdispf in
      let curdisp_frac = f.floor_u32 (f.mul curdispf (f.of_int 65336)) in
      if is_before now taken then disp else (curdisp_secs * 2 ^ 16 % 2 ^ 32 + curdisp_frac) % 2 ^ 32

  -- The sum and the shift wrap at 64 bits.
  unfoldable pub ntp_timestamp : SystemTime → ℕ
  ntp_timestamp time =
      let ts_secs = unix_offset + time.secs in
      let ts_frac =
        f.round_u32
          (f.div (f.mul (f.of_int time.nanos) (f.of_int (2 ^ 32))) (f.of_int 1000000000)) in
      (ts_secs * 2 ^ 32 % 2 ^ 64 + ts_frac) % 2 ^ 64

  unfoldable pub system_to_ntpfloat : SystemTime → f.F64
  system_to_ntpfloat time =
      f.add (f.of_int (unix_offset + time.secs)) (f.div (f.of_int time.nanos) (f.of_int 1000000000))

  unfoldable pub timestamp_to_float : ℕ → f.F64
  timestamp_to_float time =
      let ts_secs = time / 2 ^ 32 in
      let ts_frac = time - ts_secs * 2 ^ 32 in
      f.add (f.of_int ts_secs) (f.div (f.of_int ts_frac) (f.of_int (2 ^ 32)))

  -- The fields of a timestamp, for a cast that gives a `u32`: the upper half holds the seconds
  -- since 1900 of the era, and the lower half the fraction, which never carries into them; so
  -- `timestamp_to_float` takes the timestamp apart as it was put together.
  pub ntp_timestamp-fields :
      (time : SystemTime)
      → IsFloats f
      → (ntp_timestamp time / 2 ^ 32 ≡ (unix_offset + time.secs) % 2 ^ 32)
        × (timestamp_to_float (ntp_timestamp time)
            ≡ f.add (f.of_int ((unix_offset + time.secs) % 2 ^ 32)) (
                f.div
                  (f.of_int (
                    f.round_u32 (
                      f.div
                        (f.mul (f.of_int time.nanos) (f.of_int (2 ^ 32)))
                        (f.of_int 1000000000))))
                  (f.of_int (2 ^ 32))))
  unfolding ntp_timestamp timestamp_to_float
  ntp_timestamp-fields time h =
      let frac =
        f.round_u32
          (f.div (f.mul (f.of_int time.nanos) (f.of_int (2 ^ 32))) (f.of_int 1000000000)) in
      let small : frac < 2 ^ 32 = h.round_u32-lt _ in
      let secs = unix_offset + time.secs in
      let stamp = (secs * 2 ^ 32 % 2 ^ 64 + frac) % 2 ^ 64 in
      let upper : stamp / 2 ^ 32 ≡ secs % 2 ^ 32 = omega arith in
      let lower : stamp - secs % 2 ^ 32 * 2 ^ 32 ≡ frac = omega arith in
      (
        upper,
        ap (λ u. f.add (f.of_int u) (f.div (f.of_int (stamp - u * 2 ^ 32)) (f.of_int (2 ^ 32))))
              upper
            ∙ ap (λ l. f.add (f.of_int (secs % 2 ^ 32)) (f.div (f.of_int l) (f.of_int (2 ^ 32))))
                lower,
      )
