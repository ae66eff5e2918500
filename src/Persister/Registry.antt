-- ===== src/Persister/Registry.antt =====
-- The contract of `CommunitiesPersister`: a registry is a function from IDs to rows, and each
-- method acts at one ID, but for `Cleanup`. The flag `upsert` of `AddClientsToCommunity` has no effect
-- on it.
use weron.Prelude.{
  if◌then◌else◌, All, Result, ok, err, ℕ, String, ◌≡◌, Bool, true, false, Option, none, some, List,
  [], ◌∷◌, str_eq,
}
use weron.Prelude.Int64.{pos, increment, decrement, is_positive}
use weron.Persister.{Error, wrong_password, no_rows, unique_constraint_violation, failed, Bcrypt}
use weron.Persister.Memory.{Row, Store, find, with_clients, new_row}

abbrev pub Registry : Type 0
Registry = String → Option Row

-- The registry with one entry replaced.
abbrev pub put : String → Option Row → Registry → Registry
put k r m = λ j. if str_eq k j then r else m j

-- What one client less makes of a row: only a persistent one outlives its last client.
abbrev pub left : Row → Option Row
left c =
    if is_positive (decrement c.clients)
    then some (with_clients (decrement c.clients) c)
    else if c.persistent
    then some (with_clients (pos 0) c)
    else none

-- `Cleanup` is to drop the ephemeral communities and to take the clients from the persistent ones.
abbrev pub swept : Option Row → Option Row
swept none = none
swept (some c) = if c.persistent then some c else none

abbrev pub reset : Option Row → Option Row
reset none = none
reset (some c) = if c.persistent then some (with_clients (pos 0) c) else some c

module _ (b : Bcrypt) where
  unfoldable pub join : ℕ → String → String → Registry → Registry × Result Error (Unit {0})
  join salt k password m = elim (b.generate salt password) [
    | none ↦ (m, err (failed salt))
    | some hash ↦ elim (m k) [
      | none ↦ (put k (some (new_row k hash (pos 1) false)) m, ok tt)
      | some c ↦
          if b.compare_ok c.password password
          then (put k (some (with_clients (increment c.clients) c)) m, ok tt)
          else (m, err wrong_password)
    ]
  ]

  unfoldable pub create : ℕ → String → String → Registry → Registry × Result Error (Unit {0})
  create salt k password m = elim (b.generate salt password) [
    | none ↦ (m, err (failed salt))
    | some hash ↦ elim (m k) [
      | none ↦ (put k (some (new_row k hash (pos 0) true)) m, ok tt)
      | some c ↦ (m, err unique_constraint_violation)
    ]
  ]

unfoldable pub leave : String → Registry → Registry × Result Error (Unit {0})
leave k m = elim (m k) [ none ↦ (m, err no_rows) | some c ↦ (put k (left c) m, ok tt) ]

unfoldable pub drop_entry : String → Registry → Registry × Result Error (Unit {0})
drop_entry k m = elim (m k) [ none ↦ (m, err no_rows) | some c ↦ (put k none m, ok tt) ]

-- The calls that the signaler makes.
pub data Call : Type 0 where
  adds : ℕ → String → String → Bool → Call
  removes : String → Call
  creates : ℕ → String → String → Call
  deletes : String → Call
  cleans : Call

abbrev pub is_clean : Call → Bool
is_clean cleans = true
is_clean _ = false

abbrev pub NoCleanup : List Call → Type 0
NoCleanup = All (λ c. is_clean c ≡ false)

unfoldable pub step : Bcrypt → Call → Registry → Registry × Result Error (Unit {0})
unfolding join leave create drop_entry
step b (adds salt k password upsert) m = join b salt k password m
step b (removes k) m = leave k m
step b (creates salt k password) m = create b salt k password m
step b (deletes k) m = drop_entry k m
step b cleans m = (λ j. reset (swept (m j)), ok tt)

-- A history of calls, with what each of them returned.
unfoldable pub run : Bcrypt → List Call → Registry → Registry × List (Result Error (Unit {0}))
run b [] m = (m, [])
run b (c ∷ cs) m = let (m', r) = step b c m in let (m'', rs) = run b cs m' in (m'', r ∷ rs)

-- No ID stands in two rows.
abbrev pub Distinct : Store → Type 0
Distinct [] = Unit
Distinct (c ∷ p) = (find c.id p ≡ none) × Distinct p

pub record Represents (p : Store) (m : Registry) : Type 0 where
  pub distinct : Distinct p
  pub agrees : (j : String) → find j p ≡ m j
