-- ===== src/Signaler/Connections/Tables.antt =====
-- The table of connections, read by community and address, after each of its changes.
use weron.Prelude.{
  leb, if◌then◌else◌, Bool-cases, Option-cases, length, lookup, insert, delete, lookup-insert,
  lookup-delete, insert-ne-nil, String, ◌≡◌, refl, ap, ◌≢◌, inl, inr, true, false, ◌&&◌, Option,
  none, some, List, [], ◌∷◌, arith, eq_iff, str_eq,
}
use weron.Signaler.Connections.{Connection, Connections, in_community, register, unregister}

-- `s.connections[community][raddr]`.
unfoldable pub connection_at : String → String → Connections → Option Connection
connection_at community raddr s = lookup raddr (in_community community s)

-- A registered client is found open under its community and address, and every other connection
-- is what it was.
pub connection_at-register :
    (c d a b : String) (s : Connections)
    → connection_at d b (register c a s) ≡ (
        if str_eq c d && str_eq a b
        then some (record { is_closed = false })
        else connection_at d b s)
unfolding connection_at register
connection_at-register c d a b s = ground (
  arith,
  lookup-insert d c (insert a (record { is_closed = false }) (in_community c s)) s,
  lookup-insert b a (record { is_closed = false }) (in_community c s),
  eq_iff c d,
  eq_iff a b,
)

length-zero {ℓ} : {A : Type ℓ} (xs : List A) → leb (length xs) 0 ≡ true → xs ≡ []
length-zero [] h = refl
length-zero (x ∷ xs) h = ground arith

-- A client that has disconnected is found no more, and every other connection is what it was.
pub connection_at-unregister :
    (c d a b : String) (s : Connections)
    → connection_at d b (unregister c a s)
      ≡ (if str_eq c d && str_eq a b then none else connection_at d b s)
unfolding connection_at unregister lookup
connection_at-unregister c d a b s = elim (Option-cases (lookup c s)) [
  | inl n ↦ rw (n, unregister) (ground (arith, lookup-delete d c s, eq_iff c d))
  | inr (cs, e) ↦ elim (Bool-cases (leb (length (delete a cs)) 0)) [
    | inl t ↦
        rw (e, t, unregister)
          (ground (
            arith,
            lookup-delete d c s,
            lookup-delete b a cs,
            length-zero (delete a cs) t,
            eq_iff c d,
          ))
    | inr f ↦
        rw (e, f, unregister)
          (ground (arith, lookup-insert d c (delete a cs) s, lookup-delete b a cs, eq_iff c d))
  ]
]

-- No community has an entry without connections.
abbrev pub NoEmpty : Connections → Type 0
NoEmpty s = (c : String) → lookup c s ≢ some []

pub register-NoEmpty : (c a : String) (s : Connections) → NoEmpty s → NoEmpty (register c a s)
unfolding register
register-NoEmpty c a s h d = λ e. ground (
  arith,
  lookup-insert d c (insert a (record { is_closed = false }) (in_community c s)) s,
  h d,
  insert-ne-nil a (record { is_closed = false }) (in_community c s),
)

pub unregister-NoEmpty : (c a : String) (s : Connections) → NoEmpty s → NoEmpty (unregister c a s)
unfolding unregister
unregister-NoEmpty c a s h d = elim (Option-cases (lookup c s)) [
  | inl n ↦ rw (n, unregister) (λ e. ground (arith, lookup-delete d c s, h d))
  | inr (cs, e) ↦ elim (Bool-cases (leb (length (delete a cs)) 0)) [
    | inl t ↦ rw (e, t, unregister) (λ q. ground (arith, lookup-delete d c s, h d))
    | inr f ↦
        rw (e, f, unregister)
          (λ q.
            ground
              (arith, lookup-insert d c (delete a cs) s, h d, ap length {x = delete a cs} {y = []}))
  ]
]
