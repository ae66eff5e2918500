-- ===== src/Persister/Memory/Finds.antt =====
-- The first row with an ID, after each of the writes to the memory store.
use mathlib.Core.Option
use weron.Prelude.{
  leb, if◌then◌else◌, String, ◌≡◌, refl, true, false, none, some, [], ◌∷◌, ◌++◌, arith, eq_iff,
  str_eq,
}
use weron.Prelude.Int64.{ℤ}
use weron.Persister.Memory.{Row, Store, find, with_clients, set_clients, without, count_matching}

pub find-append :
    (j : String) (p q : Store)
    → find j (p ++ q) ≡ elim (find j p) [ none ↦ find j q | some c ↦ some c ]
unfolding find
find-append j [] q = refl
find-append j (c ∷ p) q = ground (arith, find-append j p q)

pub find-set_clients :
    (j k : String) (n : ℤ) (p : Store)
    → find j (set_clients k n p)
      ≡ (if str_eq k j then Option.map (with_clients n) (find k p) else find j p)
unfolding find set_clients
find-set_clients j k n [] = ground arith
find-set_clients j k n (c ∷ p) =
    ground (arith, eq_iff k j, eq_iff c.id k, eq_iff c.id j, find-set_clients j k n p)

pub find-without :
    (j k : String) (p : Store) → find j (without k p) ≡ (if str_eq k j then none else find j p)
unfolding find without
find-without j k [] = ground arith
find-without j k (c ∷ p) =
    ground (arith, eq_iff k j, eq_iff c.id k, eq_iff c.id j, find-without j k p)

-- The row that is found has the ID.
pub find-id : (k : String) (p : Store) (c : Row) → find k p ≡ some c → c.id ≡ k
unfolding find
find-id k [] c e = cc
find-id k (d ∷ p) c e = ground (arith, eq_iff d.id k, find-id k p c)

pub without_absent : (k : String) (p : Store) → find k p ≡ none → without k p ≡ p
unfolding find without
without_absent k [] e = refl
without_absent k (c ∷ p) e = ground (arith, without_absent k p)

pub without-append : (k : String) (p q : Store) → without k (p ++ q) ≡ without k p ++ without k q
unfolding without
without-append k [] q = refl
without-append k (c ∷ p) q = ground (arith, without-append k p q)

pub set_clients_twice :
    (k : String) (m n : ℤ) (p : Store) → set_clients k n (set_clients k m p) ≡ set_clients k n p
unfolding set_clients
set_clients_twice k m n [] = refl
set_clients_twice k m n (c ∷ p) = ground (arith, set_clients_twice k m n p)

pub set_clients_same :
    (k : String) (p : Store) (c : Row) → find k p ≡ some c → set_clients k c.clients p ≡ p
unfolding set_clients find
set_clients_same k [] c e = refl
set_clients_same k (d ∷ p) c e = ground (arith, set_clients_same k p c)

-- `DeleteCommunity` counts no candidate exactly if none is found.
pub count_matching-find :
    (k : String) (p : Store)
    → leb (count_matching k p) 0 ≡ elim (find k p) [ none ↦ true | some c ↦ false ]
unfolding count_matching find
count_matching-find k [] = refl
count_matching-find k (c ∷ p) = ground (arith, count_matching-find k p)
