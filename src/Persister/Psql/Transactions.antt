-- ===== src/Persister/Psql/Transactions.antt =====
-- Every transaction of the PostgreSQL store is ended once, and success means that it committed.
use weron.Prelude.{
  if◌then◌else◌, Option-cases, Result, ok, err, Result-cases, ℕ, String, ◌≡◌, refl, inl, inr, Bool,
  true, false, not, ◌&&◌, ◌||◌, none, some, List, [], ◌∷◌, arith,
}
use weron.Persister.{Error, no_rows, Bcrypt}
use weron.Persister.Psql.{
  Statement, begin_tx, commit, rollback, find_community, Answers, Sent, finish, roll_back,
  is_no_rows, add_hashed, add_clients_to_community, remove_found, remove_client_from_community,
  cleanup,
}
use weron.Persister.Memory.{Row}

-- One commit or rollback, and nothing behind it.
abbrev pub ends_once : List Statement → Bool
ends_once [] = false
ends_once (commit ∷ []) = true
ends_once (rollback ∷ []) = true
ends_once (commit ∷ s ∷ sent) = false
ends_once (rollback ∷ s ∷ sent) = false
ends_once (s ∷ sent) = ends_once sent

-- Nothing but the attempt to begin, or a transaction that is ended once.
abbrev pub is_settled : List Statement → Bool
is_settled (begin_tx ∷ []) = true
is_settled (begin_tx ∷ s ∷ sent) = ends_once (s ∷ sent)
is_settled _ = false

abbrev pub commits : List Statement → Bool
commits [] = false
commits (commit ∷ sent) = true
commits (s ∷ sent) = commits sent

abbrev pub is_ok : Result Error (Unit {0}) → Bool
is_ok (ok _) = true
is_ok (err e) = false

-- Settled, and committed if the caller is told that there was no error.
abbrev pub is_told : Sent (Unit {0}) → Bool
is_told (sent, r) = is_settled sent && (not (is_ok r) || commits sent)

module _ (b : Bcrypt) (db : Answers) where
  add_hashed-is_told :
      (hash community password : String) (upsert : Bool)
      → is_told (add_hashed b db hash community password upsert) ≡ true
  unfolding add_hashed
  add_hashed-is_told hash community password upsert = ground arith

  -- Whatever the database and bcrypt answer, `AddClientsToCommunity` ends a transaction that it
  -- began by one commit or rollback, sends nothing after that, and returns nil only if it
  -- committed.
  pub add_clients-is_told :
      (salt : ℕ) (community password : String) (upsert : Bool)
      → is_told (add_clients_to_community b db salt community password upsert) ≡ true
  unfolding add_clients_to_community roll_back
  add_clients-is_told salt community password upsert = elim (Option-cases db.begin_tx_error) [
    | inr (e, t) ↦ rw (t, add_clients_to_community) refl
    | inl t ↦ elim (Option-cases (b.generate salt password)) [
      | inl g ↦ rw (t, g, add_clients_to_community) (ground arith)
      | inr (hash, g) ↦
          rw (t, g, add_clients_to_community) (add_hashed-is_told hash community password upsert)
    ]
  ]

module _ (db : Answers) where
  remove_found-is_told :
      (community : String) (c : Row) → is_told (remove_found db community c) ≡ true
  unfolding remove_found
  remove_found-is_told community c = ground arith

  -- The code behind a failed lookup.
  abbrev missed : String → Error → Sent (Unit {0})
  missed community e =
      if is_no_rows e
      then (begin_tx ∷ find_community community ∷ rollback ∷ [], finish db.rollback_error tt)
      else roll_back db (begin_tx ∷ find_community community ∷ []) e

  -- The rollback behind a community that was not found succeeded.
  abbrev pub is_missed : Bool
  is_missed = elim db.found [
    | ok c ↦ false
    | err e ↦ is_no_rows e && elim db.rollback_error [ none ↦ true | some x ↦ false ]
  ]

  missed-is_settled :
      (community : String) (e : Error)
      → (is_settled (missed community e).0
          && (not (is_ok (missed community e).1)
              || is_no_rows e && elim db.rollback_error [ none ↦ true | some x ↦ false ]))
        ≡ true
  unfolding roll_back
  missed-is_settled community no_rows = ground arith
  missed-is_settled community _ = ground arith

  -- Whatever the database answers, `RemoveClientFromCommunity` ends a transaction that it began by
  -- one commit or rollback and sends nothing after that; it returns nil only if it committed, or
  -- if the community was not found and the rollback succeeded.
  pub remove_client-is_settled :
      (community : String)
      → let (sent, r) = remove_client_from_community db community in
        (is_settled sent && (not (is_ok r) || commits sent || is_missed)) ≡ true
  unfolding remove_client_from_community roll_back
  remove_client-is_settled community = elim (Option-cases db.begin_tx_error) [
    | inr (e, t) ↦ rw (t, remove_client_from_community) refl
    | inl t ↦ elim (Result-cases db.found) [
      | inl (c, f) ↦
          rw (t, f, remove_client_from_community) (ground (arith, remove_found-is_told community c))
      | inr (e, f) ↦
          rw (t, f, remove_client_from_community) (ground (arith, missed-is_settled community e))
    ]
  ]

  -- Whatever the database answers, `Cleanup` ends a transaction that it began by one commit or
  -- rollback and sends nothing after that, and returns nil only if it committed.
  pub cleanup-is_told : is_told (cleanup db) ≡ true
  unfolding cleanup
  cleanup-is_told = ground arith
