-- ===== src/Signaler/Connections/Kicks.antt =====
-- What a kick closes, and what a second one does.
use mathlib.Core.Path.{subst}
use weron.Prelude.{
  if◌then◌else◌, Option-cases, lookup, insert, lookup-insert, String, ◌≡◌, refl, ◌≢◌, inl, inr,
  true, false, none, some, List, [], ◌∷◌, map, arith, eq_iff, str_eq,
}
use weron.Signaler.Connections.{Connection, Connections, in_community, close_all, kick}

abbrev pub closed_entry : String × Connection → String × Connection
closed_entry (raddr, c) = (raddr, record { is_closed = true })

abbrev pub AllOpen : List (String × Connection) → Type 0
AllOpen [] = Unit
AllOpen (e ∷ cs) = (e.1.is_closed ≡ false) × AllOpen cs

close_all_open :
    (cs : List (String × Connection)) → AllOpen cs → close_all cs ≡ some (map closed_entry cs)
unfolding close_all
close_all_open [] h = refl
close_all_open ((a, c) ∷ cs) h = ground (arith, close_all_open cs)

-- A kick of a community whose connections are all open closes every one of them, and leaves the
-- connections of every other community as they are.
pub kick_open :
    (k d : String) (s : Connections)
    → AllOpen (in_community k s)
    → (s' : Connections) × (kick k s ≡ some s')
      × (in_community d s'
          ≡ (if str_eq k d then map closed_entry (in_community k s) else in_community d s))
unfolding kick
kick_open k d s h = elim (Option-cases (lookup k s)) [
  | inl n ↦ (s, rw (n, kick), rw (n, in_community) (ground (arith, n, eq_iff k d)))
  | inr (cs, e) ↦
      let same : in_community k s ≡ cs = rw (e, in_community) refl in
      let o : AllOpen cs = subst AllOpen same h in
      (
        insert k (map closed_entry cs) s,
        rw (e, close_all_open cs o, kick),
        rw (e, in_community) (ground (arith, lookup-insert d k (map closed_entry cs) s)),
      )
]

close_all_twice :
    (a : String) (c : Connection) (cs xs : List (String × Connection))
    → close_all ((a, c) ∷ cs) ≡ some xs
    → close_all xs ≡ none
unfolding close_all
close_all_twice a c cs xs e = elim (Option-cases (close_all cs)) [
  | inl n ↦ ground arith
  | inr (ys, s) ↦ elim (Option-cases (close_all ys)) [
    | inl n ↦
        let head : xs ≡ (a, record { is_closed = true }) ∷ ys = ground arith in
        rw (head, close_all, n) refl
    | inr (zs, t) ↦
        let head : xs ≡ (a, record { is_closed = true }) ∷ ys = ground arith in
        rw (head, close_all, t) refl
  ]
]

kick_twice_at :
    (k : String) (s s' : Connections) (cs : List (String × Connection))
    → lookup k s ≡ some cs
    → cs ≢ []
    → kick k s ≡ some s'
    → kick k s' ≡ none
unfolding kick
kick_twice_at k s s' [] l h e = absurd (h refl)
kick_twice_at k s s' ((a, c) ∷ cs) l h e = elim (Option-cases (close_all ((a, c) ∷ cs))) [
  | inl n ↦ ground arith
  | inr (xs, x) ↦
      let s'_is : s' ≡ insert k xs s = ground arith in
      let found : lookup k s' ≡ some xs = ground (arith, lookup-insert k k xs s, eq_iff k k) in
      rw (found, kick, close_all_twice a c cs xs x) refl
]

-- A second kick of a community before its connections are unregistered closes a channel twice, and
-- that panic ends the process: so whenever a first kick closed at least one connection.
pub kick_twice :
    (k : String) (s s' : Connections)
    → in_community k s ≢ []
    → kick k s ≡ some s'
    → kick k s' ≡ none
unfolding kick
kick_twice k s s' h e = elim (Option-cases (lookup k s)) [
  | inl n ↦ absurd (h (rw (n, in_community) refl))
  | inr (cs, l) ↦ kick_twice_at k s s' cs l (λ q. h (rw (l, in_community) q)) e
]
