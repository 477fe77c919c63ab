-- ===== src/Metrics.antt =====
-- src/metrics.rs: the server of the metrics, on one connection. The metrics as text are an argument,
-- errors of writing and of the shutdown, which are only logged, are left out.
pub mod Text
pub mod Request
use cfnts.Base.{
  ℕ, zero, suc, ◌+◌, List, [], ◌∷◌, ◌++◌, Bytes, Bool, true, false, ◌&&◌, ◌||◌, not, Outcome, ok,
  err, panic, hang, ◌>>=◌, length, leb, codes, ◌==◌, if◌then◌else◌,
}

-- What a client sends: the bytes, and whether an error follows them in place of the end of the stream.
pub record Incoming : Type 0 where
  pub received : Bytes
  pub fails : Bool

pub data LineError : Type 0 where
  read_failed not_utf8 : LineError

-- A byte between two others.
abbrev between : ℕ → ℕ → ℕ → Bool
between low high b = leb low b && leb b high

-- The encoding of one character that begins with the byte `b`: the range of its second byte and the
-- number of bytes that follow that one; overlong forms and surrogates are left out.
pub data Lead : Type 0 where
  single : Lead
  longer : ℕ → ℕ → ℕ → Lead
  invalid : Lead

unfoldable lead_of : ℕ → Lead
lead_of b =
    if leb b 0x7F
    then single
    else if between 0xC2 0xDF b
    then longer 0x80 0xBF 0
    else if b == 0xE0
    then longer 0xA0 0xBF 1
    else if b == 0xED
    then longer 0x80 0x9F 1
    else if between 0xE1 0xEF b
    then longer 0x80 0xBF 1
    else if b == 0xF0
    then longer 0x90 0xBF 2
    else if between 0xF1 0xF3 b
    then longer 0x80 0xBF 2
    else if b == 0xF4
    then longer 0x80 0x8F 2
    else invalid

-- Where the validation stands: between two characters, or in one, whose next byte is in a range and has
-- a number of bytes behind it.
pub data Utf8State : Type 0 where
  boundary : Utf8State
  inside : ℕ → ℕ → ℕ → Utf8State
  broken : Utf8State

abbrev begin_char : Lead → Utf8State
begin_char single = boundary
begin_char (longer low high more) = inside low high more
begin_char invalid = broken

abbrev after_byte : ℕ → Utf8State
after_byte zero = boundary
after_byte (suc more) = inside 0x80 0xBF more

unfoldable next_state : Utf8State → ℕ → Utf8State
unfolding lead_of
next_state boundary b = begin_char (lead_of b)
next_state (inside low high more) b = if between low high b then after_byte more else broken
next_state broken b = broken

-- The validation of UTF-8 that `read_line` makes.
unfoldable pub utf8_from : Utf8State → Bytes → Bool
unfolding next_state
utf8_from boundary [] = true
utf8_from (inside low high more) [] = false
utf8_from broken [] = false
utf8_from state (b ∷ bs) = utf8_from (next_state state b) bs

abbrev pub is_utf8 : Bytes → Bool
is_utf8 bytes = utf8_from boundary bytes

-- A line with its newline, or what is left without one, and the rest.
pub record Line : Type 0 where
  pub ended : Bool
  pub text : Bytes
  pub rest : Bytes

unfoldable pub next_line : Bytes → Line
next_line [] = record { ended = false; text = []; rest = [] }
next_line (b ∷ bs) =
    let line = next_line bs in
    if b == 10
    then record { ended = true; text = b ∷ []; rest = bs }
    else record line { text = b ∷ line.text }

-- `read_line`, on what is left of the stream.
unfoldable pub read_line : Incoming → Bytes → Outcome LineError (Bytes × Bytes)
unfolding next_line utf8_from
read_line dest stream =
    let line = next_line stream in
    if dest.fails && not line.ended
    then err read_failed
    else if is_utf8 line.text
    then ok (line.text, line.rest)
    else err not_utf8

-- Nothing at the end of the stream, or the line `"\r\n"`.
abbrev pub is_last : Bytes → Bool
is_last [] = true
is_last (a ∷ b ∷ []) = a == 13 && b == 10
is_last _ = false

-- The loop, with as much fuel as there are bytes, and one; the result is what is left of the stream.
unfoldable pub read_request : ℕ → Incoming → Bytes → Outcome LineError Bytes
unfolding read_line
read_request zero dest stream = hang
read_request (suc fuel) dest stream = read_line dest stream >>= λ line.
    if is_last line.0 then ok line.1 else read_request fuel dest line.1

unfoldable pub wait_for_req_or_eof : Incoming → Outcome LineError Bytes
unfolding read_request
wait_for_req_or_eof dest = read_request (length dest.received + 1) dest dest.received

unfoldable pub scrape_result : Bytes → Bytes
scrape_result metrics =
    codes "HTTP/1.1 200 OK\r\nContent-Type: text/plain; version=0.0.4\r\n\r\n" ++ metrics

-- The result is what is written to the connection.
unfoldable pub serve_metrics : Bytes → Incoming → Outcome LineError Bytes
unfolding wait_for_req_or_eof scrape_result
serve_metrics metrics dest = wait_for_req_or_eof dest >>= λ _. ok (scrape_result metrics)
