-- ===== src/Persister/Psql/Database.antt =====
-- PostgreSQL under the store: a table that the statements change, all those of a transaction at once
-- when it commits. A commit that fails commits nothing.
use weron.Prelude.{
  leb, if◌then◌else◌, Bool-cases, Option-cases, ok, err, Result-cases, ℕ, String, ◌≡◌, ap, ◌↔◌, ◌⊎◌,
  inl, inr, Bool, true, false, ◌&&◌, ◌||◌, Option, none, some, List, [], ◌∷◌, arith, eq_iff, str_eq,
}
use weron.Persister.{Error, no_rows, Bcrypt}
use weron.Persister.Registry.{
  Registry, put, swept, reset, join, create, leave, drop_entry, Call, adds, removes, creates,
  deletes, cleans, step,
}
use weron.Persister.Psql.{
  Statement, begin_tx, commit, insert_row, update_row, delete_row, delete_ephemeral,
  reset_persistent, delete_by_id, Answers, Sent, roll_back, commit_tx, is_no_rows, add_hashed,
  add_clients_to_community, create_persistent_community, remove_found, remove_client_from_community,
  cleanup, delete_community,
}
use weron.Persister.Memory.{Row}
use weron.Persister.Memory.Refines.{outcome}

abbrev pub write : Statement → Registry → Registry
write (insert_row c) t = put c.id (some c) t
write (update_row c) t = put c.id (some c) t
write (delete_row k) t = put k none t
write (delete_by_id k) t = put k none t
write delete_ephemeral t = λ j. swept (t j)
write reset_persistent t = λ j. reset (t j)
write _ t = t

abbrev pub write_all : List Statement → Registry → Registry
write_all [] t = t
write_all (s ∷ sent) t = write_all sent (write s t)

abbrev pub is_nil : Option Error → Bool
is_nil none = true
is_nil (some e) = false

-- Whether a transaction was committed.
abbrev pub is_committed : Answers → List Statement → Bool
is_committed db [] = false
is_committed db (commit ∷ sent) = is_nil db.commit_error
is_committed db (_ ∷ sent) = is_committed db sent

-- Whether the server was asked to commit.
abbrev pub has_commit : List Statement → Bool
has_commit [] = false
has_commit (commit ∷ sent) = true
has_commit (_ ∷ sent) = has_commit sent

-- What the code relies on in PostgreSQL: the table after the statements of one method, which run on
-- the only connection with nothing between them. A transaction takes effect at once when it commits,
-- and not at all if it is not asked to; a statement outside a transaction takes effect unless it
-- fails, and an insertion only if the ID is new. If the commit or such a statement returns an error,
-- the connection may have been lost after it: then it took effect in full, or not at all.
pub record Postgres : Type 0 where
  pub after : Answers → List Statement → Registry → Registry
  pub nothing_sent : (db : Answers) (t : Registry) → after db [] t ≡ t
  pub transaction_committed :
      (db : Answers) (sent : List Statement) (t : Registry)
      → is_committed db sent ≡ true
      → after db (begin_tx ∷ sent) t ≡ write_all sent t
  pub transaction_ended :
      (db : Answers) (sent : List Statement) (t : Registry)
      → has_commit sent ≡ false
      → after db (begin_tx ∷ sent) t ≡ t
  pub transaction_in_doubt :
      (db : Answers) (sent : List Statement) (t : Registry)
      → is_committed db sent ≡ false
      → has_commit sent ≡ true
      → (after db (begin_tx ∷ sent) t ≡ t) ⊎ (after db (begin_tx ∷ sent) t ≡ write_all sent t)
  pub row_inserted :
      (db : Answers) (c : Row) (t : Registry)
      → is_nil db.write_error ≡ true
      → after db (insert_row c ∷ []) t ≡ put c.id (some c) t
  pub row_in_doubt :
      (db : Answers) (c : Row) (t : Registry)
      → is_nil db.write_error ≡ false
      → (after db (insert_row c ∷ []) t ≡ t)
        ⊎ ((t c.id ≡ none) × (after db (insert_row c ∷ []) t ≡ put c.id (some c) t))
  pub row_deleted :
      (db : Answers) (k : String) (n : ℕ) (t : Registry)
      → db.deleted ≡ ok n
      → after db (delete_by_id k ∷ []) t ≡ put k none t
  pub deletion_in_doubt :
      (db : Answers) (k : String) (e : Error) (t : Registry)
      → db.deleted ≡ err e
      → (after db (delete_by_id k ∷ []) t ≡ t) ⊎ (after db (delete_by_id k ∷ []) t ≡ put k none t)

abbrev pub is_absent : Option Row → Bool
is_absent none = true
is_absent (some c) = false

-- These laws as a function on the statements that a method can send; `applied` says whether what
-- returned an error took effect nonetheless.
unfoldable pub effect : Bool → Answers → List Statement → Registry → Registry
effect applied db [] t = t
effect applied db (begin_tx ∷ sent) t =
    if is_committed db sent || (applied && has_commit sent) then write_all sent t else t
effect applied db (insert_row c ∷ sent) t =
    if is_nil db.write_error || (applied && is_absent (t c.id)) then put c.id (some c) t else t
effect applied db (delete_by_id k ∷ sent) t = elim db.deleted [
  | ok n ↦ put k none t
  | err e ↦ if applied then put k none t else t
]
effect applied db (_ ∷ sent) t = t

-- An error of a method that sent this may be one of a commit, or of a single statement.
abbrev pub is_in_doubt : List Statement → Bool
is_in_doubt [] = false
is_in_doubt (begin_tx ∷ sent) = has_commit sent
is_in_doubt (_ ∷ sent) = true

-- A transaction, or at most one statement.
abbrev pub is_one_unit : List Statement → Bool
is_one_unit [] = true
is_one_unit (begin_tx ∷ sent) = true
is_one_unit (insert_row c ∷ []) = true
is_one_unit (delete_by_id k ∷ []) = true
is_one_unit _ = false

-- A method of the PostgreSQL store, by its name in the registry.
unfoldable pub call_psql : Bcrypt → Call → Answers → Sent (Unit {0})
call_psql b (adds salt k password upsert) db = add_clients_to_community b db salt k password upsert
call_psql b (removes k) db = remove_client_from_community db k
call_psql b (creates salt k password) db =
    let (sent, r) = create_persistent_community b db salt k password in (sent, outcome r)
call_psql b (deletes k) db = delete_community db k
call_psql b cleans db = cleanup db

-- What a call is to do to the table, whatever it returns.
unfoldable pub intended : Bcrypt → Call → Registry → Registry
intended b c t = (step b c t).0

-- The row that is found is that of the table, or the search fails with another error.
abbrev pub Finds : Answers → String → Registry → Type 0
Finds db k t =
    (db.found ≡ elim (t k) [ none ↦ err no_rows | some c ↦ ok c ])
    ⊎ ((e : Error) × (db.found ≡ err e) × (is_no_rows e ≡ false))

-- The answers that a table gives, with any failures.
abbrev pub Answering : Answers → Call → Registry → Type 0
Answering db (adds salt k password upsert) t = Finds db k t
Answering db (removes k) t = Finds db k t
Answering db (creates salt k password) t = db.write_error ≡ none → t k ≡ none
Answering db (deletes k) t = (n : ℕ) → db.deleted ≡ ok n → (leb n 0 ≡ true) ↔ (t k ≡ none)
Answering db cleans t = Unit

-- Every row stands under its ID.
abbrev pub Keyed : Registry → Type 0
Keyed t = (k : String) (c : Row) → t k ≡ some c → c.id ≡ k

module _ (b : Bcrypt) (applied : Bool) (db : Answers) (t : Registry) where
  abbrev pub Atomic : Call → Type 0
  Atomic c =
      let (sent, r) = call_psql b c db in
      (j : String)
      → effect applied db sent t j ≡ elim r [
        | ok _ ↦ intended b c t j
        | err e ↦ if applied && is_in_doubt sent then intended b c t j else t j
      ]

  cleans-Atomic : Atomic cleans
  unfolding call_psql effect intended step cleanup roll_back commit_tx
  cleans-Atomic j = ground arith

  deletes-Atomic : (k : String) → Answering db (deletes k) t → Atomic (deletes k)
  unfolding call_psql effect intended delete_community step drop_entry
  deletes-Atomic k h j = elim (Result-cases db.deleted) [
    | inl (n, e) ↦ ground (arith, e, h n e, eq_iff k j)
    | inr (x, e) ↦ elim (Bool-cases (str_eq k j)) [
      | inl q ↦ ground (arith, e, q, ap t ((eq_iff k j).0 q))
      | inr q ↦ ground (arith, e, q)
    ]
  ]

  creates-Atomic :
      (salt : ℕ) (k password : String)
      → Answering db (creates salt k password) t
      → Atomic (creates salt k password)
  unfolding call_psql effect intended create_persistent_community step create
  creates-Atomic salt k password h j = ground (arith, h, eq_iff k j)

  removes-Atomic : (k : String) → Keyed t → Answering db (removes k) t → Atomic (removes k)
  unfolding call_psql effect intended remove_found roll_back commit_tx remove_client_from_community
      step leave
  removes-Atomic k w h j = elim h [
    | inl f ↦ elim (Option-cases (t k)) [
      | inl e ↦ ground (arith, f, e, eq_iff k j)
      | inr (c, e) ↦ ground (arith, f, e, w k c e, eq_iff k j, eq_iff c.id j)
    ]
    | inr (e, f, n) ↦ ground (arith, f, n)
  ]

  adds-Atomic :
      (salt : ℕ) (k password : String) (upsert : Bool)
      → Keyed t
      → Answering db (adds salt k password upsert) t
      → Atomic (adds salt k password upsert)
  unfolding call_psql effect intended add_hashed roll_back commit_tx add_clients_to_community step
      join
  adds-Atomic salt k password upsert w h j = elim h [
    | inl f ↦ elim (Option-cases (t k)) [
      | inl e ↦ ground (arith, f, e, eq_iff k j)
      | inr (c, e) ↦ ground (arith, f, e, w k c e, eq_iff k j, eq_iff c.id j)
    ]
    | inr (e, f, n) ↦ ground (arith, f, n)
  ]

  pub call_psql-Atomic : (c : Call) → Keyed t → Answering db c t → Atomic c
  call_psql-Atomic (adds salt k password upsert) w h = adds-Atomic salt k password upsert w h
  call_psql-Atomic (removes k) w h = removes-Atomic k w h
  call_psql-Atomic (creates salt k password) w h = creates-Atomic salt k password h
  call_psql-Atomic (deletes k) w h = deletes-Atomic k h
  call_psql-Atomic cleans w h = cleans-Atomic
