-- ===== src/Encryption.antt =====
-- internal/encryption/aes.go, over lists of bytes. AES-GCM is a parameter, as is the SHA-224 digest
-- of the empty text; a nonce is what `rand.Read` gives, `none` where it fails.
pub mod Keys
pub mod Roundtrip
use weron.Prelude.{
  ltb, ◌==◌, if◌then◌else◌, length, take, drop, replicate, ℕ, ◌≡◌, Bool, ◌||◌, Option, none, some,
  List, ◌++◌,
}

abbrev pub Bytes : Type 0
Bytes = List ℕ

-- crypto/aes and crypto/cipher: `seal_with` and `open_with` take the key and the nonce.
pub record Crypto : Type 0 where
  pub empty_digest : Bytes
  pub seal_with : Bytes → Bytes → Bytes → Bytes
  pub open_with : Bytes → Bytes → Bytes → Option Bytes
  pub length-empty_digest : length empty_digest ≡ 28
  pub open-seal :
      (key nonce plaintext : Bytes)
      → open_with key nonce (seal_with key nonce plaintext) ≡ some plaintext

-- `NonceSize` of GCM.
abbrev pub nonce_size : ℕ
nonce_size = 12

-- A value, an error, or a panic by a slice out of range.
pub data Outcome : Type 0 where
  value : Bytes → Outcome
  failure panic : Outcome

-- `copy(dst, src)`: what the destination then holds.
abbrev pub copy_into : Bytes → Bytes → Bytes
copy_into dst src = take (length dst) src ++ drop (length src) dst

-- The key sizes that `aes.NewCipher` takes.
abbrev pub is_key_size : ℕ → Bool
is_key_size n = n == 16 || n == 24 || n == 32

module _ (c : Crypto) where
  -- `Sum` appends the digest of what was written to the hash, which is nothing, to its argument.
  unfoldable pub derive_key : Bytes → Bytes
  derive_key password = copy_into (replicate 32 0) (password ++ c.empty_digest)

  unfoldable pub encrypt : Option Bytes → Bytes → Bytes → Outcome
  encrypt random plaintext password =
      let key = derive_key password in
      if is_key_size (length key)
      then elim random [
        | none ↦ failure
        | some nonce ↦ value (nonce ++ c.seal_with key nonce plaintext)
      ]
      else failure

  unfoldable pub decrypt : Bytes → Bytes → Outcome
  decrypt sealed password =
      let key = derive_key password in
      if is_key_size (length key)
      then if ltb (length sealed) nonce_size
        then panic
        else elim (c.open_with key (take nonce_size sealed) (drop nonce_size sealed)) [
          | none ↦ failure
          | some plaintext ↦ value plaintext
        ]
      else failure
