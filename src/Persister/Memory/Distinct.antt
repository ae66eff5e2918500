-- ===== src/Persister/Memory/Distinct.antt =====
-- No method of the memory store makes a second row with an ID.
use weron.Prelude.{
  if◌then◌else◌, String, ◌≡◌, refl, Option, none, some, [], ◌∷◌, ◌++◌, arith, eq_iff,
}
use weron.Prelude.Int64.{ℤ, pos}
use weron.Persister.Registry.{Distinct}
use weron.Persister.Memory.{Row, Store, find, with_clients, set_clients, without, cleanup}
use weron.Persister.Memory.Finds.{find-append, find-set_clients, find-without}

pub set_clients-Distinct :
    (k : String) (n : ℤ) (p : Store) → Distinct p → Distinct (set_clients k n p)
unfolding set_clients
set_clients-Distinct k n [] d = tt
set_clients-Distinct k n (c ∷ p) d =
    ground
      (arith, set_clients-Distinct k n p, find-set_clients c.id k n p, eq_iff k c.id, eq_iff c.id k)

pub without-Distinct : (k : String) (p : Store) → Distinct p → Distinct (without k p)
unfolding without
without-Distinct k [] d = tt
without-Distinct k (c ∷ p) d = ground (arith, without-Distinct k p, find-without c.id k p)

find-cleanup_absent : (j : String) (p : Store) → find j p ≡ none → find j (cleanup p) ≡ none
unfolding find cleanup
find-cleanup_absent j [] e = refl
find-cleanup_absent j (c ∷ p) e = ground (arith, find-cleanup_absent j p)

pub cleanup-Distinct : (p : Store) → Distinct p → Distinct (cleanup p)
unfolding cleanup
cleanup-Distinct [] d = tt
cleanup-Distinct (c ∷ p) d = ground (arith, cleanup-Distinct p, find-cleanup_absent c.id p)

-- What the loop of the memory store's `Cleanup` makes of a row: the opposite of what it is to do.
abbrev pub cleaned : Option Row → Option Row
cleaned none = none
cleaned (some c) = if c.persistent then none else some (with_clients (pos 0) c)

pub find-cleanup : (j : String) (p : Store) → Distinct p → find j (cleanup p) ≡ cleaned (find j p)
unfolding find cleanup
find-cleanup j [] d = refl
find-cleanup j (c ∷ p) d =
    ground (arith, find-cleanup j p d.1, find-cleanup_absent j p, eq_iff c.id j)

pub append-Distinct :
    (p : Store) (c : Row) → Distinct p → find c.id p ≡ none → Distinct (p ++ c ∷ [])
unfolding find
append-Distinct [] c d e = (refl, tt)
append-Distinct (x ∷ p) c d e = ground (
  arith,
  append-Distinct p c d.1,
  find-append x.id p (c ∷ []),
  eq_iff c.id x.id,
  eq_iff x.id c.id,
)
