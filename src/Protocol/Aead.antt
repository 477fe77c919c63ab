-- ===== src/Protocol/Aead.antt =====
-- The `Aead` of the miscreant crate (`Aes128SivAead`), which is not part of the repository: its
-- two calls as a parameter, and what the code relies on.
use cfnts.Base.{
  ◌+◌, ◌≡◌, refl, Bytes, ◌++◌, Option, some, none, length, arith, replicate, drop, ltb,
  if◌then◌else◌, le→ltb_false,
}

-- `seal key nonce ad plaintext` and `unseal key nonce ad ciphertext`; `open` is a reserved word.
pub record Aead : Type 0 where
  pub seal : Bytes → Bytes → Bytes → Bytes → Bytes
  pub unseal : Bytes → Bytes → Bytes → Bytes → Option Bytes

-- What was sealed opens again under the same key, nonce and associated data; a ciphertext is 16
-- bytes longer than its plaintext.
pub record IsAead (a : Aead) : Type 0 where
  pub unseal-seal :
      (key nonce ad plaintext : Bytes)
      → a.unseal key nonce ad (a.seal key nonce ad plaintext) ≡ some plaintext
  pub length-seal :
      (key nonce ad plaintext : Bytes)
      → length (a.seal key nonce ad plaintext) ≡ length plaintext + 16

-- A function that meets the assumptions: it puts 16 zero bytes in front, and checks nothing.
abbrev pub plain_aead : Aead
plain_aead = record {
  seal = λ key nonce ad plaintext. replicate 16 0 ++ plaintext;
  unseal = λ key nonce ad ciphertext.
      if ltb (length ciphertext) 16 then none else some (drop 16 ciphertext);
}

plain_opens :
    (p : Bytes)
    → (if ltb (length (replicate 16 0 ++ p)) 16 then none else some (drop 16 (replicate 16 0 ++ p)))
      ≡ some p
plain_opens p = rw (le→ltb_false (length (replicate 16 0 ++ p)) 16 (omega arith)) refl

pub plain_aead-IsAead : IsAead plain_aead
plain_aead-IsAead = record {
  unseal-seal = λ key nonce ad p. plain_opens p;
  length-seal = λ key nonce ad p. omega arith;
}
