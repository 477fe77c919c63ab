-- ===== src/Base/Words.antt =====
-- Bytes and the big-endian forms of u16, u32 and u64 (`to_be_bytes`, `from_be_bytes`, `byteorder`).
use Prim.Native.Char.{code}
use Prim.Native.String.{String}
use Prim.Native.Nat.{ℕ, ◌+◌, ◌*◌, ◌/◌, ◌%◌, ◌^◌, ◌<◌}
use mathlib.Core.Path.{◌≡◌}
use mathlib.Core.List.{List, [], ◌∷◌, ◌++◌}
use native.Mathlib.Omega.{arith}

-- A `u8` is a number below 256; an `i8` is the same byte, read in two's complement.
abbrev pub Bytes : Type 0
Bytes = List ℕ

abbrev pub IsU8 : ℕ → Type 0
IsU8 w = w < 256

abbrev pub IsU16 : ℕ → Type 0
IsU16 w = w < 2 ^ 16

abbrev pub IsU32 : ℕ → Type 0
IsU32 w = w < 2 ^ 32

abbrev pub IsU64 : ℕ → Type 0
IsU64 w = w < 2 ^ 64

abbrev pub u16_bytes : ℕ → Bytes
u16_bytes w = w / 256 % 256 ∷ w % 256 ∷ []

abbrev pub u16_of : ℕ → ℕ → ℕ
u16_of b1 b0 = b1 * 256 + b0

abbrev pub u32_bytes : ℕ → Bytes
u32_bytes w = u16_bytes (w / 2 ^ 16) ++ u16_bytes (w % 2 ^ 16)

abbrev pub u32_of : ℕ → ℕ → ℕ → ℕ → ℕ
u32_of b3 b2 b1 b0 = u16_of b3 b2 * 2 ^ 16 + u16_of b1 b0

abbrev pub u64_bytes : ℕ → Bytes
u64_bytes w = u32_bytes (w / 2 ^ 32) ++ u32_bytes (w % 2 ^ 32)

pub u16_of-u16_bytes : (w : ℕ) → IsU16 w → u16_of (w / 256 % 256) (w % 256) ≡ w
u16_of-u16_bytes w h = omega arith

-- The code points of a text, which are its bytes where it is ASCII.
abbrev pub codes : String → Bytes
codes String.[] = []
codes (String.◌∷◌ c s) = code c ∷ codes s
