-- ===== src/Signaler/Tally.antt =====
-- The client counts of a registry against the sessions that are open, call by call.
pub mod Interleaving
use mathlib.Core.Path.{subst}
use weron.Prelude.{
  ltb, if◌then◌else◌, Bool-cases, Option-cases, ok, err, ◌>>=◌, ℕ, zero, suc, ◌<◌, String, ◌≡◌,
  refl, inl, inr, true, ◌||◌, Option, none, some, arith, eq_iff, str_eq,
}
use weron.Prelude.Int64.{pos, int_max, increment, decrement, is_positive, increment-pos}
use weron.Persister.{Error, Bcrypt}
use weron.Persister.Memory.{Row, with_clients}
use weron.Persister.Registry.{Registry, put, left, join, create, leave}

-- The registry of the store, and the number of sessions that each community has.
pub record System : Type 0 where
  pub registry : Registry
  pub sessions : String → ℕ

abbrev pub recount : String → ℕ → (String → ℕ) → String → ℕ
recount k n f = λ j. if str_eq k j then n else f j

-- The row of a community has as many clients as there are sessions; without a row there are none,
-- and without sessions only a persistent row stays.
abbrev pub Matches : Option Row → ℕ → Type 0
Matches none n = n ≡ 0
Matches (some c) n = (c.clients ≡ pos n) × ((c.persistent || ltb 0 n) ≡ true)

abbrev pub Tallied : System → Type 0
Tallied s = (j : String) → Matches (s.registry j) (s.sessions j)

-- A row and a number of sessions that are put under one ID.
put-Tallied :
    (s : System) (k : String) (r : Option Row) (n : ℕ)
    → Tallied s
    → Matches r n
    → Tallied (record { registry = put k r s.registry; sessions = recount k n s.sessions })
put-Tallied s k r n h g j = elim (Bool-cases (str_eq k j)) [ inl t ↦ rw t g | inr f ↦ rw f (h j) ]

join-Matches :
    (c : Row) (n : ℕ)
    → n < int_max
    → Matches (some c) n
    → Matches (some (with_clients (increment c.clients) c)) (suc n)
join-Matches c n h (e, z) = (rw (e, increment-pos n h), ground arith)

leave-Matches : (c : Row) (n : ℕ) → Matches (some c) (suc n) → Matches (left c) n
unfolding decrement is_positive
leave-Matches c zero (e, z) = elim (Bool-cases c.persistent) [
  | inl t ↦ rw (e, t) (refl, refl)
  | inr f ↦ rw (e, f) refl
]
leave-Matches c (suc n) (e, z) = rw e (refl, ground arith)

row-Matches :
    (s : System) (k : String) (r : Option Row)
    → Tallied s
    → s.registry k ≡ r
    → Matches r (s.sessions k)
row-Matches s k r h e = subst (λ q. Matches q (s.sessions k)) e (h k)

module _ (b : Bcrypt) (s : System) (h : Tallied s) where
  pub connect-Tallied :
      (salt : ℕ) (k password : String)
      → (join b salt k password s.registry).1 ≡ ok tt
      → s.sessions k < int_max
      → Tallied (record {
        registry = (join b salt k password s.registry).0;
        sessions = recount k (suc (s.sessions k)) s.sessions;
      })
  unfolding join
  connect-Tallied salt k password e room = elim (Option-cases (b.generate salt password)) [
    | inl g ↦ absurd (ground arith)
    | inr (hash, g) ↦ elim (Option-cases (s.registry k)) [
      | inl a ↦
          rw (g, a, join) (put-Tallied s k _ _ h (rw (row-Matches s k none h a) refl, ground arith))
      | inr (c, a) ↦ elim (Bool-cases (b.compare_ok c.password password)) [
        | inl t ↦
            rw (g, a, t, join)
              (put-Tallied s k _ _ h
                (join-Matches c (s.sessions k) room (row-Matches s k (some c) h a)))
        | inr f ↦ absurd (ground arith)
      ]
    ]
  ]

  pub refuse-Tallied :
      (salt : ℕ) (k password : String) (x : Error)
      → (join b salt k password s.registry).1 ≡ err x
      → Tallied (record { registry = (join b salt k password s.registry).0; sessions = s.sessions })
  unfolding join
  refuse-Tallied salt k password x e = elim (Option-cases (b.generate salt password)) [
    | inl g ↦ rw (g, join) h
    | inr (hash, g) ↦ elim (Option-cases (s.registry k)) [
      | inl a ↦ absurd (ground arith)
      | inr (c, a) ↦ elim (Bool-cases (b.compare_ok c.password password)) [
        | inl t ↦ absurd (ground arith)
        | inr f ↦ rw (g, a, f, join) h
      ]
    ]
  ]

  pub disconnect-Tallied :
      (k : String) (n : ℕ)
      → s.sessions k ≡ suc n
      → Tallied (record { registry = (leave k s.registry).0; sessions = recount k n s.sessions })
  unfolding leave
  disconnect-Tallied k n e = elim (Option-cases (s.registry k)) [
    | inl a ↦ let z : s.sessions k ≡ 0 = row-Matches s k none h a in absurd (omega arith)
    | inr (c, a) ↦
        rw (a, leave)
          (put-Tallied s k (left c) n h
            (leave-Matches c n (subst (Matches (some c)) e (row-Matches s k (some c) h a))))
  ]

  pub post-Tallied :
      (salt : ℕ) (k password : String)
      → Tallied
          (record { registry = (create b salt k password s.registry).0; sessions = s.sessions })
  unfolding create
  post-Tallied salt k password = elim (Option-cases (b.generate salt password)) [
    | inl g ↦ rw (g, create) h
    | inr (hash, g) ↦ elim (Option-cases (s.registry k)) [
      | inl a ↦
          rw (g, a, create)
            (λ j. elim (Bool-cases (str_eq k j)) [
              | inl t ↦
                  let same : k ≡ j = (eq_iff k j).0 t in
                  rw t (rw (← same, row-Matches s k none h a) (refl, refl))
              | inr f ↦ rw f (h j)
            ])
      | inr (c, a) ↦ rw (g, a, create) h
    ]
  ]
