-- ===== src/Persister.antt =====
-- internal/persisters/communities.go: what the two stores of communities share.
pub mod Memory
pub mod Registry
pub mod Counts
pub mod Psql
use weron.Prelude.{ℕ, String, ◌≡◌, Bool, true, Option, some}
use weron.Prelude.Int64.{ℤ}

-- `Community` of internal/persisters.
pub record Community : Type 0 where
  pub id : String
  pub clients : ℤ
  pub persistent : Bool

-- The errors that callers tell apart; `failed` is any error of a library.
pub data Error : Type 0 where
  wrong_password ephemeral_communities_disabled no_rows unique_constraint_violation : Error
  failed : ℕ → Error

-- golang.org/x/crypto/bcrypt: `generate` is given the salt that it draws and may fail, and
-- `compare_ok` says that `CompareHashAndPassword` returns nil.
pub record Bcrypt : Type 0 where
  pub generate : ℕ → String → Option String
  pub compare_ok : String → String → Bool
  pub compare_generated :
      (salt : ℕ) (password hash : String)
      → generate salt password ≡ some hash
      → compare_ok hash password ≡ true
