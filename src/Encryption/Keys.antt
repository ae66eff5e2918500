-- ===== src/Encryption/Keys.antt =====
-- The key that a password gives.
use mathlib.Core.List.{append-nil}
use weron.Prelude.{
  length, take, drop, replicate, length-append, length-take, ℕ, zero, suc, ◌-◌, ◌≤◌, ◌≡◌, refl, ap,
  [], ◌∷◌, ◌++◌, arith,
}
use weron.Encryption.{Bytes, Crypto, copy_into, derive_key}

length-drop : (n : ℕ) (xs : Bytes) → length (drop n xs) ≡ length xs - n
length-drop zero xs = omega arith
length-drop (suc n) [] = omega arith
length-drop (suc n) (x ∷ xs) = omega (arith, length-drop n xs)

length-copy_into : (dst src : Bytes) → length (copy_into dst src) ≡ length dst
length-copy_into dst src = omega (
  arith,
  length-append (take (length dst) src) (drop (length src) dst),
  length-take (length dst) src,
  length-drop (length src) dst,
)

take-append_short : (n : ℕ) (xs ys : Bytes) → n ≤ length xs → take n (xs ++ ys) ≡ take n xs
take-append_short zero xs ys h = refl
take-append_short (suc n) [] ys h = absurd (omega arith)
take-append_short (suc n) (x ∷ xs) ys h = ap (◌∷◌ x) (take-append_short n xs ys (omega arith))

drop_long : (n : ℕ) (xs : Bytes) → length xs ≤ n → drop n xs ≡ []
drop_long zero [] h = refl
drop_long zero (x ∷ xs) h = absurd (omega arith)
drop_long (suc n) [] h = refl
drop_long (suc n) (x ∷ xs) h = drop_long n xs (omega arith)

module _ (c : Crypto) where
  -- Every password gives a key of 32 bytes, so `aes.NewCipher` never fails.
  pub length-derive_key : (password : Bytes) → length (derive_key c password) ≡ 32
  unfolding derive_key
  length-derive_key password = length-copy_into (replicate 32 0) (password ++ c.empty_digest)

  -- A password of 32 bytes or more is not hashed: its first 32 bytes are the key.
  pub derive_key_long :
      (password : Bytes) → 32 ≤ length password → derive_key c password ≡ take 32 password
  unfolding derive_key
  derive_key_long password h =
      rw
        (
          take-append_short 32 password c.empty_digest h,
          drop_long (length (password ++ c.empty_digest)) (replicate 32 0)
              (omega (arith, length-append password c.empty_digest)),
          append-nil,
        )
        refl
