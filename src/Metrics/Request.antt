-- ===== src/Metrics/Request.antt =====
-- src/metrics.rs: a request is read to its end, and every connection comes to an end.
use cfnts.Base.{
  ℕ, zero, suc, ◌+◌, ◌<◌, List, [], ◌∷◌, ◌++◌, append_assoc, Bytes, true, false, ◌&&◌, not, ok,
  ◌>>=◌, All, IsSettled, settled-cases, bind-IsSettled, length, length-append, Bool-cases, inl, inr,
  ◌==◌, ok_inj, arith, ◌≡◌, refl, sym, ap, ◌∙◌,
}
use cfnts.Metrics.{
  Incoming, next_line, read_line, is_last, read_request, is_utf8, utf8_from, wait_for_req_or_eof,
  scrape_result, serve_metrics,
}
use cfnts.Metrics.Text.{IsScalar, encode, utf8_from-encode}

-- A line of a header: at least one byte, no newline, and a text as UTF-8 encodes it.
pub record IsHeaderLine (line : Bytes) : Type 0 where
  pub some_bytes : 0 < length line
  pub no_newline : All (λ b. (b == 10) ≡ false) line
  pub text : List ℕ
  pub scalars : All IsScalar text
  pub encoded : line ≡ encode text

is_utf8-line : (line : Bytes) → IsHeaderLine line → is_utf8 (line ++ (13 ∷ 10 ∷ [])) ≡ true
unfolding utf8_from
is_utf8-line line l =
    let ends : is_utf8 (13 ∷ 10 ∷ []) ≡ true = refl in
    rw l.encoded (utf8_from-encode l.text (13 ∷ 10 ∷ []) l.scalars ∙ ends)

-- The request with these lines.
abbrev pub request_of : List Bytes → Bytes
request_of [] = 13 ∷ 10 ∷ []
request_of (line ∷ lines) = line ++ (13 ∷ 10 ∷ request_of lines)

next_line-line :
    (line rest : Bytes)
    → All (λ b. (b == 10) ≡ false) line
    → next_line (line ++ (13 ∷ 10 ∷ rest))
      ≡ record { ended = true; text = line ++ (13 ∷ 10 ∷ []); rest = rest }
unfolding next_line
next_line-line [] rest h = refl
next_line-line (b ∷ line) rest (e, h) = rw (e, next_line-line line rest h) refl

-- A line of a header is not the last.
is_last-line : (line : Bytes) → IsHeaderLine line → is_last (line ++ (13 ∷ 10 ∷ [])) ≡ false
is_last-line [] h = absurd (omega (arith, h.some_bytes))
is_last-line (a ∷ []) h = refl
is_last-line (a ∷ b ∷ []) h = refl
is_last-line (a ∷ b ∷ c ∷ line) h = refl

-- A line that is not the last has a byte.
is_last-positive : (line : Bytes) → is_last line ≡ false → 0 < length line
is_last-positive [] h = cc
is_last-positive (a ∷ line) h = omega arith

next_line-shorter :
    (stream : Bytes)
    → length (next_line stream).text + length (next_line stream).rest ≡ length stream
unfolding next_line
next_line-shorter [] = refl
next_line-shorter (b ∷ bs) = elim (Bool-cases (b == 10)) [
  | inl e ↦ rw e (omega arith)
  | inr e ↦ rw e (omega (arith, next_line-shorter bs))
]

module _ (dest : Incoming) where
  read_line-shorter :
      (stream : Bytes) {line : Bytes × Bytes}
      → read_line dest stream ≡ ok line
      → length line.0 + length line.1 ≡ length stream
  unfolding read_line
  read_line-shorter stream {line} h =
      let next = next_line stream in
      elim (Bool-cases (dest.fails && not next.ended)) [
        | inl e ↦ absurd (let k = rw e at h in cc)
        | inr e ↦ elim (Bool-cases (is_utf8 next.text)) [
          | inl u ↦
              let k : (next.text, next.rest) ≡ line = ok_inj (rw (e, u) at h) in
              rw (sym k) (next_line-shorter stream)
          | inr u ↦ absurd (let k = rw (e, u) at h in cc)
        ]
      ]

  read_line-IsSettled : (stream : Bytes) → IsSettled (read_line dest stream)
  unfolding read_line
  read_line-IsSettled stream =
      let next = next_line stream in
      elim (Bool-cases (dest.fails && not next.ended)) [
        | inl e ↦ rw e tt
        | inr e ↦ elim (Bool-cases (is_utf8 next.text)) [
          | inl u ↦ rw (e, u) tt
          | inr u ↦ rw (e, u) tt
        ]
      ]

  -- With more fuel than bytes the loop ends with what is left of the stream or an error.
  read_request-IsSettled :
      (fuel : ℕ) (stream : Bytes) → length stream < fuel → IsSettled (read_request fuel dest stream)
  unfolding read_request
  read_request-IsSettled zero stream enough = absurd (omega arith)
  read_request-IsSettled (suc fuel) stream enough =
      elim (settled-cases (read_line dest stream) (read_line-IsSettled stream)) [
        | inl (line, e) ↦ elim (Bool-cases (is_last line.0)) [
          | inl last ↦ rw (e, last) tt
          | inr more ↦
              rw (e, more)
                (read_request-IsSettled fuel line.1
                  (omega (arith, read_line-shorter stream e, is_last-positive line.0 more)))
        ]
        | inr (x, e) ↦ rw e tt
      ]

  -- Whatever a client sends, its connection is answered or ends with an error.
  pub serve_metrics-IsSettled : (metrics : Bytes) → IsSettled (serve_metrics metrics dest)
  unfolding serve_metrics wait_for_req_or_eof
  serve_metrics-IsSettled metrics =
      bind-IsSettled (wait_for_req_or_eof dest) _
        (read_request-IsSettled (length dest.received + 1) dest.received (omega arith)) (λ rest. tt)

  read_line-line :
      (line rest : Bytes)
      → All (λ b. (b == 10) ≡ false) line
      → is_utf8 (line ++ (13 ∷ 10 ∷ [])) ≡ true
      → read_line dest (line ++ (13 ∷ 10 ∷ rest)) ≡ ok (line ++ (13 ∷ 10 ∷ []), rest)
  unfolding read_line
  read_line-line line rest h utf8 = elim (Bool-cases dest.fails) [
    | inl e ↦ rw (next_line-line line rest h, e, utf8) refl
    | inr e ↦ rw (next_line-line line rest h, e, utf8) refl
  ]

  read_request-request_of :
      (fuel : ℕ) (lines : List Bytes) (more : Bytes)
      → length lines < fuel
      → All IsHeaderLine lines
      → read_request fuel dest (request_of lines ++ more) ≡ ok more
  unfolding read_request
  read_request-request_of zero lines more enough h = absurd (omega arith)
  read_request-request_of (suc fuel) [] more enough h = rw (read_line-line [] more tt refl) refl
  read_request-request_of (suc fuel) (line ∷ lines) more enough (l, h) =
      ap (read_request (suc fuel) dest) (append_assoc line (13 ∷ 10 ∷ request_of lines) more)
      ∙ rw
          (
            read_line-line line (request_of lines ++ more) l.no_newline (is_utf8-line line l),
            is_last-line line l,
          )
          (read_request-request_of fuel lines more (omega arith) h)

  lines-short : (lines : List Bytes) → length lines < length (request_of lines)
  lines-short [] = omega arith
  lines-short (line ∷ lines) =
      omega (arith, length-append line (13 ∷ 10 ∷ request_of lines), lines-short lines)

  -- A request is read up to its empty line, and answered: where the client sends lines without a
  -- newline of their own, each with a byte at least and followed by a line break, then an empty line,
  -- then anything, the loop stops behind the empty line, even if the stream fails later, and the status
  -- and the metrics are written. The lines are the UTF-8 encodings of texts of
  -- Unicode scalar values.
  pub serve_metrics-request_of :
      (metrics : Bytes) (lines : List Bytes) (more : Bytes)
      → dest.received ≡ request_of lines ++ more
      → All IsHeaderLine lines
      → (wait_for_req_or_eof dest ≡ ok more)
        × (serve_metrics metrics dest ≡ ok (scrape_result metrics))
  unfolding serve_metrics wait_for_req_or_eof
  serve_metrics-request_of metrics lines more e h =
      let waits : wait_for_req_or_eof dest ≡ ok more =
        ap (λ bytes. read_request (length bytes + 1) dest bytes) e
        ∙ (read_request-request_of (length (request_of lines ++ more) + 1) lines more
            (omega (arith, length-append (request_of lines) more, lines-short lines)) h) in
      (waits, ap (λ m. m >>= λ _. ok (scrape_result metrics)) waits)
