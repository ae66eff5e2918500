-- ===== src/Signaler/Close/Returned.antt =====
-- The signaler gives every client back to the memory store when it closes.
use weron.Prelude.{
  if◌then◌else◌, length, str_eq_refl, lookup, ok, ℕ, suc, ◌<◌, String, ◌≡◌, refl, Bool, true, false,
  Option, none, some, List, [], ◌∷◌, arith, eq_iff, str_eq,
}
use weron.Prelude.Int64.{pos, decrement, is_positive}
use weron.Persister.{Bcrypt}
use weron.Persister.Memory.{
  Row, Store, find, with_clients, set_clients, without, remove_client_from_community,
}
use weron.Signaler.Management.{memory_persister}
use weron.Signaler.Connections.{Connection, Connections}
use weron.Signaler.Close.{
  CloseError, canceled, redis_closed, broken, Closers, CloseFailure, closer_failed, unless_canceled,
  unless_closed, close_rest, remove_each, remove_all, close,
}
use weron.Persister.Memory.Finds.{find-set_clients, find-without}

unfoldable pub is_same : CloseError → CloseError → Bool
is_same canceled canceled = true
is_same redis_closed redis_closed = true
is_same broken broken = true
is_same _ _ = false

unfoldable pub is_meant : CloseError → List CloseError → Bool
unfolding is_same
is_meant e [] = false
is_meant e (x ∷ meant) = let rest = is_meant e meant in if is_same e x then true else rest

-- The first error that is not among those that are listed with it.
unfoldable pub first_unmeant : List (Option CloseError × List CloseError) → Option CloseFailure
unfolding is_meant
first_unmeant [] = none
first_unmeant ((none, meant) ∷ calls) = first_unmeant calls
first_unmeant ((some e, meant) ∷ calls) =
    let rest = first_unmeant calls in if is_meant e meant then rest else some (closer_failed e)

-- The calls in their order, each with the errors of an end that is meant.
abbrev pub closing_calls : Closers → List (Option CloseError × List CloseError)
closing_calls r =
    (r.kicks, canceled ∷ [])
    ∷ (r.broker, canceled ∷ redis_closed ∷ [])
    ∷ (r.server, canceled ∷ [])
    ∷ []

unless_canceled_first :
    (o : Option CloseError) (calls : List (Option CloseError × List CloseError))
    → elim (unless_canceled o) [ some e ↦ some (closer_failed e) | none ↦ first_unmeant calls ]
      ≡ first_unmeant ((o, canceled ∷ []) ∷ calls)
unfolding first_unmeant is_meant is_same
unless_canceled_first none calls = refl
unless_canceled_first (some canceled) calls = refl
unless_canceled_first (some redis_closed) calls = refl
unless_canceled_first (some broken) calls = refl

unless_closed_first :
    (o : Option CloseError) (calls : List (Option CloseError × List CloseError))
    → elim (unless_closed o) [ some e ↦ some (closer_failed e) | none ↦ first_unmeant calls ]
      ≡ first_unmeant ((o, canceled ∷ redis_closed ∷ []) ∷ calls)
unfolding first_unmeant is_meant is_same
unless_closed_first none calls = refl
unless_closed_first (some canceled) calls = refl
unless_closed_first (some redis_closed) calls = refl
unless_closed_first (some broken) calls = refl

close_rest-first_unmeant : (r : Closers) → close_rest r ≡ first_unmeant (closing_calls r)
unfolding close_rest first_unmeant
close_rest-first_unmeant r = ground (
  arith,
  unless_canceled_first r.kicks
      ((r.broker, canceled ∷ redis_closed ∷ []) ∷ (r.server, canceled ∷ []) ∷ []),
  unless_closed_first r.broker ((r.server, canceled ∷ []) ∷ []),
  unless_canceled_first r.server [],
)

-- A row without its clients: only a persistent one stays.
abbrev pub emptied : Option Row → Option Row
emptied none = none
emptied (some c) = if c.persistent then some (with_clients (pos 0) c) else none

-- The row of each community with connections counts them, and no community stands in the table twice.
abbrev pub Counted : Store → Connections → Type 0
Counted p [] = Unit
Counted p ((k, cs) ∷ s) =
    (lookup k s ≡ none)
    × (0 < length cs)
    × ((c : Row) × (find k p ≡ some c) × (c.clients ≡ pos (length cs)))
    × Counted p s

last_client :
    (k : String) (p : Store) (c : Row)
    → find k p ≡ some c
    → c.clients ≡ pos 1
    → remove_client_from_community k p
      ≡ (if c.persistent then set_clients k (pos 0) p else without k p, ok tt)
unfolding remove_client_from_community decrement is_positive
last_client k p c e n = rw (e, remove_client_from_community, n) (ground arith)

other_client :
    (k : String) (p : Store) (c : Row) (n : ℕ)
    → find k p ≡ some c
    → c.clients ≡ pos (suc (suc n))
    → remove_client_from_community k p ≡ (set_clients k (pos (suc n)) p, ok tt)
unfolding remove_client_from_community decrement is_positive
other_client k p c n e m = rw (e, remove_client_from_community, m) refl

find_last :
    (j k : String) (p : Store) (c : Row)
    → find k p ≡ some c
    → find j (if c.persistent then set_clients k (pos 0) p else without k p)
      ≡ (if str_eq k j then emptied (some c) else find j p)
find_last j k p c e = ground (arith, e, find-set_clients j k (pos 0) p, find-without j k p)

module _ (b : Bcrypt) where
  remove_each_lem :
      (k : String) (cs : List (String × Connection)) (p : Store) (c : Row)
      → find k p ≡ some c
      → c.clients ≡ pos (length cs)
      → 0 < length cs
      → (q : Store) × (remove_each (memory_persister b) k cs p ≡ (q, ok tt))
        × ((j : String) → find j q ≡ (if str_eq k j then emptied (some c) else find j p))
  unfolding remove_each
  remove_each_lem k [] p c e n h = absurd (omega (arith, h))
  remove_each_lem k (x ∷ []) p c e n h =
      (_, ground (arith, last_client k p c e n), λ j. find_last j k p c e)
  remove_each_lem k (x ∷ y ∷ cs) p c e n h =
      let p1 = set_clients k (pos (suc (length cs))) p in
      let c1 = with_clients (pos (suc (length cs))) c in
      let found = find-set_clients k k (pos (suc (length cs))) p in
      let (q, r, g) =
        remove_each_lem k (y ∷ cs) p1 c1 (ground (arith, found, e, str_eq_refl k)) refl
          (omega arith) in
      (
        q,
        ground (arith, other_client k p c (length cs) e n, r),
        λ j. ground (arith, g j, find-set_clients j k (pos (suc (length cs))) p),
      )

remove_each-Counted :
    (k : String) (x : Option Row) (p q : Store) (s : Connections)
    → lookup k s ≡ none
    → ((j : String) → find j q ≡ (if str_eq k j then x else find j p))
    → Counted p s
    → Counted q s
unfolding lookup
remove_each-Counted k x p q [] h g d = tt
remove_each-Counted k x p q ((j, cs) ∷ s) h g (a, l, (c, e, n), d) = (
  a,
  l,
  (c, ground (arith, g j, e, h, eq_iff k j, eq_iff j k), n),
  remove_each-Counted k x p q s (ground (arith, h)) g d,
)

module _ (b : Bcrypt) where
  remove_all_lem :
      (s : Connections) (p : Store)
      → Counted p s
      → (q : Store) × (remove_all (memory_persister b) s p ≡ (q, ok tt))
        × ((j : String)
            → find j q ≡ elim (lookup j s) [ none ↦ find j p | some cs ↦ emptied (find j p) ])
  unfolding remove_all lookup
  remove_all_lem [] p d = (p, refl, λ j. refl)
  remove_all_lem ((k, cs) ∷ s) p (a, l, (c, e, n), d) =
      let (q1, r, g) = remove_each_lem b k cs p c e n l in
      let (q, t, i) = remove_all_lem s q1 (remove_each-Counted k (emptied (some c)) p q1 s a g d) in
      (q, ground (arith, r, t), λ j. ground (arith, i j, g j, e, a, eq_iff k j))

  -- If every community with open connections has a row in the memory store that counts exactly
  -- these, closing the signaler meets no error of the store, and returns the first error of the
  -- subscription to kicks, the broker and the server, in this order, that is not one of a meant end: a
  -- canceled context, or for the broker also a closed connection to Redis. After that a persistent community has no clients
  -- and any other community with connections is gone, whereas every community with none is as it was.
  pub close_returns :
      (r : Closers) (s : Connections) (p : Store)
      → Counted p s
      → (q : Store) × (close (memory_persister b) r s p ≡ (q, first_unmeant (closing_calls r)))
        × ((j : String)
            → find j q ≡ elim (lookup j s) [ none ↦ find j p | some cs ↦ emptied (find j p) ])
  unfolding close
  close_returns r s p d =
      let (q, t, i) = remove_all_lem s p d in (q, ground (arith, t, close_rest-first_unmeant r), i)
