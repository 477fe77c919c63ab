-- ===== src/Protocol/Cursor.antt =====
-- The reads of a `std::io::Cursor` with `byteorder`, as used by src/ntp/protocol.rs. A cursor is
-- the list of the bytes that it has not read yet.
use cfnts.Base.{
  ℕ, ◌+◌, ◌*◌, ◌/◌, ◌%◌, ◌^◌, ◌≡◌, [], ◌∷◌, ◌++◌, arith, Bytes, Outcome, ok, err, u32_bytes,
  u64_bytes, u32_of, IsU32, IsU64, ◌>>=◌ as bind_outcome, IsSettled, bind-IsSettled,
}
use cfnts.Protocol.Types.{IoError, unexpected_eof}

abbrev pub Reader : Type 0 → Type 0
Reader A = Bytes → Outcome IoError (A × Bytes)

infixl 5 ◌>>=◌
abbrev pub ◌>>=◌ : {A B : Type 0} → Reader A → (A → Reader B) → Reader B
◌>>=◌ m f s = bind_outcome (m s) (λ r. f r.0 r.1)

abbrev pub pure : {A : Type 0} → A → Reader A
pure a s = ok (a, s)

-- `read_u8`, and `read_i8`, which reads the same byte.
unfoldable pub read_u8 : Reader ℕ
read_u8 (b0 ∷ rest) = ok (b0, rest)
read_u8 [] = err unexpected_eof

unfoldable pub read_u32 : Reader ℕ
read_u32 (b3 ∷ b2 ∷ b1 ∷ b0 ∷ rest) = ok (u32_of b3 b2 b1 b0, rest)
read_u32 _ = err unexpected_eof

unfoldable pub read_u64 : Reader ℕ
unfolding read_u32
read_u64 = do high ← read_u32; low ← read_u32; pure (high * 2 ^ 32 + low)

pub read_u32-u32_bytes :
    (w : ℕ) (rest : Bytes) → IsU32 w → read_u32 (u32_bytes w ++ rest) ≡ ok (w, rest)
unfolding read_u32
read_u32-u32_bytes w rest h = ground arith

pub read_u64-u64_bytes :
    (w : ℕ) (rest : Bytes) → IsU64 w → read_u64 (u64_bytes w ++ rest) ≡ ok (w, rest)
unfolding read_u64
read_u64-u64_bytes w rest h = ground (
  arith,
  read_u32-u32_bytes (w / 2 ^ 32) (u32_bytes (w % 2 ^ 32) ++ rest),
  read_u32-u32_bytes (w % 2 ^ 32) rest,
)

-- A read returns a value or an error, whatever is left in the cursor.
abbrev pub Settles : {A : Type 0} → Reader A → Type 0
Settles m = (s : Bytes) → IsSettled (m s)

pub bind-Settles :
    {A B : Type 0} (m : Reader A) (f : A → Reader B)
    → Settles m
    → ((a : A) → Settles (f a))
    → Settles (m >>= f)
bind-Settles m f h k s = bind-IsSettled (m s) (λ r. f r.0 r.1) (h s) (λ r. k r.0 r.1)

pub read_u8-Settles : Settles read_u8
unfolding read_u8
read_u8-Settles [] = tt
read_u8-Settles (b ∷ s) = tt

pub read_u32-Settles : Settles read_u32
unfolding read_u32
read_u32-Settles (b3 ∷ b2 ∷ b1 ∷ b0 ∷ s) = tt
read_u32-Settles _ = tt

pub read_u64-Settles : Settles read_u64
unfolding read_u64
read_u64-Settles =
    bind-Settles read_u32 _ read_u32-Settles
      λ high. bind-Settles read_u32 _ read_u32-Settles λ low s. tt
