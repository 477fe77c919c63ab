-- ===== src/Protocol/Extensions/Total.antt =====
-- src/ntp/protocol.rs: the parsers of plain packets return on every input.
use cfnts.Base.{
  ℕ, zero, suc, ◌-◌, ◌%◌, ◌<◌, [], ◌∷◌, arith, Bytes, IsSettled, bind-IsSettled, u16_of, length,
  ltb, ◌==◌, drop, length-drop, Bool-cases, inl, inr,
}
use cfnts.Protocol.Header.{parse_packet_header-IsSettled}
use cfnts.Protocol.Extensions.{parse_extensions_loop, parse_extensions, parse_ntp_packet}

pub parse_extensions_loop-IsSettled :
    (fuel : ℕ) (rest : Bytes) → length rest < fuel → IsSettled (parse_extensions_loop fuel rest)
unfolding parse_extensions_loop
parse_extensions_loop-IsSettled zero rest h = absurd (omega arith)
parse_extensions_loop-IsSettled (suc fuel) [] h = tt
parse_extensions_loop-IsSettled (suc fuel) (a ∷ []) h = tt
parse_extensions_loop-IsSettled (suc fuel) (a ∷ b ∷ []) h = tt
parse_extensions_loop-IsSettled (suc fuel) (a ∷ b ∷ c ∷ []) h = tt
parse_extensions_loop-IsSettled (suc fuel) (t1 ∷ t0 ∷ l1 ∷ l0 ∷ rest) h =
    let n = u16_of l1 l0 in
    let ih =
      bind-IsSettled _ _
        (parse_extensions_loop-IsSettled fuel (drop (n - 4) rest)
          (omega (arith, length-drop (n - 4) rest)))
        (λ exts. tt) in
    elim (Bool-cases (n % 4 == 0)) [
      | inl even ↦ elim (Bool-cases (ltb n 4)) [
        | inl short ↦ rw (even, short) tt
        | inr long ↦ rw (even, long) ih
      ]
      | inr odd ↦ rw odd tt
    ]

pub parse_extensions-IsSettled : (buff : Bytes) → IsSettled (parse_extensions buff)
unfolding parse_extensions
parse_extensions-IsSettled buff =
    parse_extensions_loop-IsSettled (suc (length buff)) buff (omega arith)

-- `parse_ntp_packet` returns a packet or an error on every input: it neither panics nor loops.
pub parse_ntp_packet-IsSettled : (buff : Bytes) → IsSettled (parse_ntp_packet buff)
unfolding parse_ntp_packet
parse_ntp_packet-IsSettled buff =
    bind-IsSettled _ _ (parse_packet_header-IsSettled buff)
      λ header. bind-IsSettled _ _ (parse_extensions-IsSettled (drop 48 buff)) λ exts. tt
