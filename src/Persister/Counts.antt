-- ===== src/Persister/Counts.antt =====
-- The client counts of a registry, and of the memory store, over histories of calls.
use mathlib.Core.Path.{subst}
use weron.Prelude.{
  leb, Bool-cases, Option-cases, length, ℕ, zero, suc, ◌+◌, ◌≤◌, ◌<◌, String, ◌≡◌, refl, sym, ◌∙◌,
  inl, inr, Bool, true, false, Option, none, some, List, [], ◌∷◌, arith, str_eq,
}
use weron.Prelude.Int64.{ℤ, pos, negsuc, int_max, increment, decrement, is_positive}
use weron.Persister.{Bcrypt}
use weron.Persister.Memory.{Row, new_communities_persister, find}
use weron.Persister.Memory.Refines.{run_store, run_store-refines}
use weron.Persister.Registry.{
  Registry, put, left, join, create, leave, drop_entry, Call, adds, removes, creates, deletes,
  cleans, is_clean, NoCleanup, step, run, Distinct, Represents,
}

-- A count from 0 to `n`, and 0 for a persistent community only.
abbrev pub is_counted : ℕ → Bool → ℤ → Bool
is_counted n persistent (pos zero) = persistent
is_counted n persistent (pos (suc k)) = leb (suc k) n
is_counted n persistent (negsuc k) = false

abbrev pub Counted : ℕ → Registry → Type 0
Counted n m = (j : String) (c : Row) → m j ≡ some c → is_counted n c.persistent c.clients ≡ true

increment-counted :
    (n : ℕ) (q : Bool) (k : ℤ)
    → n < int_max
    → is_counted n q k ≡ true
    → is_counted (suc n) q (increment k) ≡ true
unfolding increment
increment-counted n q (pos zero) h e = ground arith
increment-counted n q (pos (suc k)) h e = ground arith
increment-counted n q (negsuc k) h e = cc

widen-counted : (n : ℕ) (q : Bool) (k : ℤ) → is_counted n q k ≡ true → is_counted (suc n) q k ≡ true
widen-counted n q (pos zero) e = e
widen-counted n q (pos (suc k)) e = ground arith
widen-counted n q (negsuc k) e = cc

decrement-counted :
    (n : ℕ) (q : Bool) (k : ℤ)
    → is_counted n q k ≡ true
    → is_positive (decrement k) ≡ true
    → is_counted (suc n) q (decrement k) ≡ true
unfolding decrement is_positive
decrement-counted n q (pos zero) e p = cc
decrement-counted n q (pos (suc zero)) e p = cc
decrement-counted n q (pos (suc (suc k))) e p = ground arith
decrement-counted n q (negsuc k) e p = cc

widen-Counted : (n : ℕ) (m : Registry) → Counted n m → Counted (suc n) m
widen-Counted n m h j c e = widen-counted n c.persistent c.clients (h j c e)

put-Counted :
    (n : ℕ) (k : String) (r : Option Row) (m : Registry)
    → Counted n m
    → ((c : Row) → r ≡ some c → is_counted (suc n) c.persistent c.clients ≡ true)
    → Counted (suc n) (put k r m)
put-Counted n k r m h hr j c e = elim (Bool-cases (str_eq k j)) [
  | inl t ↦ hr c (rw t at e)
  | inr f ↦ widen-Counted n m h j c (rw f at e)
]

left-counted :
    (n : ℕ) (d c : Row)
    → is_counted n d.persistent d.clients ≡ true
    → left d ≡ some c
    → is_counted (suc n) c.persistent c.clients ≡ true
left-counted n d c h e = ground (arith, decrement-counted n d.persistent d.clients h)

module _ (b : Bcrypt) (n : ℕ) (m : Registry) (room : n < int_max) (h : Counted n m) where
  join-Counted : (salt : ℕ) (k password : String) → Counted (suc n) (join b salt k password m).0
  unfolding join
  join-Counted salt k password = elim (Option-cases (b.generate salt password)) [
    | inl e ↦ rw (e, join) (widen-Counted n m h)
    | inr (hash, e) ↦ elim (Option-cases (m k)) [
      | inl a ↦ rw (e, a, join) (put-Counted n k _ m h (λ c i. ground arith))
      | inr (d, a) ↦ elim (Bool-cases (b.compare_ok d.password password)) [
        | inl t ↦
            rw (e, a, t, join)
              (put-Counted n k _ m h
                (λ c i. ground (arith, increment-counted n d.persistent d.clients room (h k d a))))
        | inr f ↦ rw (e, a, f, join) (widen-Counted n m h)
      ]
    ]
  ]

  create-Counted : (salt : ℕ) (k password : String) → Counted (suc n) (create b salt k password m).0
  unfolding create
  create-Counted salt k password = elim (Option-cases (b.generate salt password)) [
    | inl e ↦ rw (e, create) (widen-Counted n m h)
    | inr (hash, e) ↦ elim (Option-cases (m k)) [
      | inl a ↦ rw (e, a, create) (put-Counted n k _ m h (λ c i. ground arith))
      | inr (d, a) ↦ rw (e, a, create) (widen-Counted n m h)
    ]
  ]

  leave-Counted : (k : String) → Counted (suc n) (leave k m).0
  unfolding leave
  leave-Counted k = elim (Option-cases (m k)) [
    | inl a ↦ rw (a, leave) (widen-Counted n m h)
    | inr (d, a) ↦
        rw (a, leave) (put-Counted n k (left d) m h (λ c i. left-counted n d c (h k d a) i))
  ]

  drop_entry-Counted : (k : String) → Counted (suc n) (drop_entry k m).0
  unfolding drop_entry
  drop_entry-Counted k = elim (Option-cases (m k)) [
    | inl a ↦ rw (a, drop_entry) (widen-Counted n m h)
    | inr (d, a) ↦ rw (a, drop_entry) (put-Counted n k none m h (λ c i. cc))
  ]

  step-Counted : (c : Call) → is_clean c ≡ false → Counted (suc n) (step b c m).0
  unfolding step
  step-Counted (adds salt k password upsert) e = join-Counted salt k password
  step-Counted (removes k) e = leave-Counted k
  step-Counted (creates salt k password) e = create-Counted salt k password
  step-Counted (deletes k) e = drop_entry-Counted k
  step-Counted cleans e = cc

run-Counted :
    (b : Bcrypt) (cs : List Call) (n t : ℕ) (m : Registry)
    → n + length cs ≡ t
    → t ≤ int_max
    → NoCleanup cs
    → Counted n m
    → Counted t (run b cs m).0
unfolding run
run-Counted b [] n t m e room quiet h =
    let same : n ≡ t = omega arith in subst (λ u. Counted u m) same h
run-Counted b (c ∷ cs) n t m e room quiet h =
    run-Counted b cs (suc n) t (step b c m).0 (omega arith) room quiet.1
      (step-Counted b n m (omega arith) h c quiet.0)

empty-Represents : Represents new_communities_persister (λ _. none)
unfolding find
empty-Represents = record { distinct = tt; agrees = λ j. refl }

-- In the memory store, after a history of at most 2^63 - 1 calls without `Cleanup` on a new store,
-- every community has a count between 0 and the number of calls, and only a persistent one has 0.
pub run_store-counted :
    (b : Bcrypt) (cs : List Call) (j : String) (c : Row)
    → length cs ≤ int_max
    → NoCleanup cs
    → find j (run_store b cs new_communities_persister).0 ≡ some c
    → is_counted (length cs) c.persistent c.clients ≡ true
run_store-counted b cs j c room quiet e =
    let h = run_store-refines b cs new_communities_persister (λ _. none) quiet empty-Represents in
    run-Counted b cs 0 (length cs) (λ _. none) (omega arith) room quiet (λ i d a. cc) j c
      (sym (h.0.agrees j) ∙ e)

-- For every history of calls without `Cleanup` on a new memory store, no ID is in two of its rows, and its calls
-- return what the calls on the empty registry return.
pub run_store-new :
    (b : Bcrypt) (cs : List Call)
    → NoCleanup cs
    → Distinct (run_store b cs new_communities_persister).0
      × ((run_store b cs new_communities_persister).1 ≡ (run b cs (λ _. none)).1)
run_store-new b cs quiet =
    let h = run_store-refines b cs new_communities_persister (λ _. none) quiet empty-Represents in
    (h.0.distinct, h.1)
