-- ===== src/Tests/Database.antt =====
-- A history of the PostgreSQL store with a failure.
use weron.Prelude.{
  Option-cases, ok, err, ℕ, String, ◌≡◌, refl, ◌⊎◌, inl, inr, Bool, true, false, none, some, List,
  [], ◌∷◌, arith,
}
use weron.Prelude.Int64.{pos, decrement, is_positive}
use weron.Persister.{Error, no_rows, failed}
use weron.Persister.Registry.{Registry, put, Call, adds, removes}
use weron.Persister.Memory.{Row, new_row}
use weron.Persister.Psql.{
  Statement, begin_tx, commit, rollback, find_community, insert_row, update_row, delete_row,
  delete_ephemeral, reset_persistent, select_all, delete_by_id, Answers,
}
use weron.Persister.Psql.Database.{
  write_all, is_nil, is_committed, has_commit, Postgres, effect, call_psql,
}
use weron.Persister.Psql.History.{run_psql, made, intended_all, run_psql-refines}
use weron.Persister.Psql
use weron.Tests.Stores.{plain}

-- The row is not found, and every statement succeeds.
abbrev first_answers : Answers
first_answers = record {
  begin_tx_error = none;
  commit_error = none;
  rollback_error = none;
  write_error = none;
  reset_error = none;
  found = err no_rows;
  all_rows = ok [];
  deleted = ok 0;
}

-- The row is found, and the commit fails.
abbrev second_answers : Answers
second_answers = record first_answers {
  commit_error = some (failed 1);
  found = ok (new_row "room" "p" (pos 1) false);
}

abbrev calls : List (Call × Answers)
calls =
    (adds 1 "room" "p" true, first_answers)
    ∷ (removes "room", second_answers)
    ∷ (removes "hall", first_answers)
    ∷ []

abbrev no_table : Registry
no_table j = none

-- The laws, met by the function where all that is in doubt takes effect.
module _ (db : Answers) (t : Registry) where
  committed_effect :
      (sent : List Statement)
      → is_committed db sent ≡ true
      → effect true db (begin_tx ∷ sent) t ≡ write_all sent t
  unfolding effect
  committed_effect sent e = rw e refl

  ended_effect :
      (sent : List Statement)
      → is_committed db sent ≡ false
      → has_commit sent ≡ false
      → effect true db (begin_tx ∷ sent) t ≡ t
  unfolding effect
  ended_effect sent e n = rw (e, n) refl

  in_doubt_effect :
      (sent : List Statement)
      → has_commit sent ≡ true
      → effect true db (begin_tx ∷ sent) t ≡ write_all sent t
  unfolding effect
  in_doubt_effect sent n = ground (arith, n)

  not_committed : (sent : List Statement) → has_commit sent ≡ false → is_committed db sent ≡ false
  not_committed [] n = refl
  not_committed (commit ∷ sent) n = cc
  not_committed (begin_tx ∷ sent) n = not_committed sent n
  not_committed (rollback ∷ sent) n = not_committed sent n
  not_committed (find_community k ∷ sent) n = not_committed sent n
  not_committed (insert_row c ∷ sent) n = not_committed sent n
  not_committed (update_row c ∷ sent) n = not_committed sent n
  not_committed (delete_row k ∷ sent) n = not_committed sent n
  not_committed (delete_ephemeral ∷ sent) n = not_committed sent n
  not_committed (reset_persistent ∷ sent) n = not_committed sent n
  not_committed (select_all ∷ sent) n = not_committed sent n
  not_committed (delete_by_id k ∷ sent) n = not_committed sent n

  row_effect :
      (c : Row)
      → is_nil db.write_error ≡ true
      → effect true db (insert_row c ∷ []) t ≡ put c.id (some c) t
  unfolding effect
  row_effect c e = rw e refl

  row_in_doubt_effect :
      (c : Row)
      → is_nil db.write_error ≡ false
      → (effect true db (insert_row c ∷ []) t ≡ t)
        ⊎ ((t c.id ≡ none) × (effect true db (insert_row c ∷ []) t ≡ put c.id (some c) t))
  unfolding effect
  row_in_doubt_effect c e = elim (Option-cases (t c.id)) [
    | inl n ↦ inr (n, rw (e, n) refl)
    | inr (d, f) ↦ inl (rw (e, f) refl)
  ]

  deleted_effect :
      (k : String) (n : ℕ)
      → db.deleted ≡ ok n
      → effect true db (delete_by_id k ∷ []) t ≡ put k none t
  unfolding effect
  deleted_effect k n e = rw e refl

  deletion_effect :
      (k : String) (x : Error)
      → db.deleted ≡ err x
      → effect true db (delete_by_id k ∷ []) t ≡ put k none t
  unfolding effect
  deletion_effect k x e = rw e refl

abbrev lawful : Postgres
unfolding effect
lawful = record {
  after = effect true;
  nothing_sent = λ db t. refl;
  transaction_committed = λ db sent t e. committed_effect db t sent e;
  transaction_ended = λ db sent t n. ended_effect db t sent (not_committed db t sent n) n;
  transaction_in_doubt = λ db sent t e n. inr (in_doubt_effect db t sent n);
  row_inserted = λ db c t e. row_effect db t c e;
  row_in_doubt = λ db c t e. row_in_doubt_effect db t c e;
  row_deleted = λ db k n t e. deleted_effect db t k n e;
  deletion_in_doubt = λ db k e t f. inr (deletion_effect db t k e f);
}

run_psql-refines_example :
    (marks : List Bool) × (run_psql lawful plain calls no_table
      ≡ intended_all plain (made plain marks calls) no_table)
unfolding effect call_psql Psql.add_clients_to_community Psql.remove_client_from_community
    is_positive decrement
run_psql-refines_example =
    run_psql-refines lawful plain calls no_table (λ k c e. cc)
      (inl refl, (inl refl, (inl refl, tt)))
