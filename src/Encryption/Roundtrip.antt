-- ===== src/Encryption/Roundtrip.antt =====
-- What decryption gives back.
use weron.Prelude.{
  ltb, length, take, drop, length-append, take-append, drop-append, ◌≤◌, ◌<◌, ◌≡◌, refl, sym, ◌∙◌,
  ◌↔◌, false, some, ◌++◌, arith,
}
use weron.Encryption.{Bytes, Crypto, nonce_size, value, panic, derive_key, encrypt, decrypt}
use weron.Encryption.Keys.{length-derive_key, derive_key_long}

module _ (c : Crypto) where
  -- What was encrypted under one password with any nonce of 12 bytes is decrypted under any password
  -- with the same key.
  decrypt-encrypt_key :
      (nonce plaintext p q : Bytes)
      → length nonce ≡ nonce_size
      → derive_key c q ≡ derive_key c p
      → decrypt c (nonce ++ c.seal_with (derive_key c p) nonce plaintext) q ≡ value plaintext
  unfolding decrypt
  decrypt-encrypt_key nonce plaintext p q n k =
      let ct = c.seal_with (derive_key c p) nonce plaintext in
      let tk : take nonce_size (nonce ++ ct) ≡ nonce = rw n at (take-append nonce ct) in
      let dp : drop nonce_size (nonce ++ ct) ≡ ct = rw n at (drop-append nonce ct) in
      let lt : ltb (length (nonce ++ ct)) nonce_size ≡ false =
        ground (arith, length-append nonce ct) in
      rw
        (
          decrypt,
          k,
          length-derive_key c p,
          lt,
          tk,
          dp,
          c.open-seal (derive_key c p) nonce plaintext,
        )
        refl

  -- With any 12 random bytes for the nonce encryption succeeds, and what it returns is decrypted to
  -- the same plaintext under the same password.
  pub decrypt-encrypt :
      (nonce plaintext password : Bytes)
      → length nonce ≡ nonce_size
      → (sealed : Bytes) × (encrypt c (some nonce) plaintext password ≡ value sealed)
        × (decrypt c sealed password ≡ value plaintext)
  unfolding encrypt
  decrypt-encrypt nonce plaintext password n = (
    nonce ++ c.seal_with (derive_key c password) nonce plaintext,
    rw (encrypt, length-derive_key c password),
    decrypt-encrypt_key nonce plaintext password password n refl,
  )

  -- Passwords of at least 32 bytes that agree in the first 32 open one another's messages: what is
  -- encrypted under one is decrypted under the other.
  pub decrypt-encrypt_prefix :
      (nonce plaintext p q sealed : Bytes)
      → length nonce ≡ nonce_size
      → 32 ≤ length p
      → 32 ≤ length q
      → take 32 p ≡ take 32 q
      → encrypt c (some nonce) plaintext p ≡ value sealed
      → decrypt c sealed q ≡ value plaintext
  unfolding encrypt
  decrypt-encrypt_prefix nonce plaintext p q sealed n hp hq same e =
      let k : derive_key c q ≡ derive_key c p =
        derive_key_long c q hq ∙ sym same ∙ sym (derive_key_long c p hp) in
      let sealed_is : nonce ++ c.seal_with (derive_key c p) nonce plaintext ≡ sealed =
        ground (arith, length-derive_key c p) in
      rw (← sealed_is) (decrypt-encrypt_key nonce plaintext p q n k)

  -- A message panics exactly if it is shorter than a nonce, whatever the password.
  pub decrypt_panics :
      (sealed password : Bytes) → (decrypt c sealed password ≡ panic) ↔ (length sealed < nonce_size)
  unfolding decrypt
  decrypt_panics sealed password = (
    λ e. ground (arith, length-derive_key c password),
    λ h. ground (arith, length-derive_key c password),
  )
