-- ===== src/Persister/Psql/History.antt =====
-- Histories of calls of the PostgreSQL store, with failures at any place.
use mathlib.Core.Path.{fun_ext, subst}
use weron.Prelude.{
  if◌then◌else◌, Bool-cases, Option-cases, ok, err, Result-cases, ℕ, String, ◌≡◌, refl, sym, ap,
  ◌∙◌, inl, inr, Bool, true, false, ◌&&◌, List, [], ◌∷◌, arith, eq_iff,
}
use weron.Persister.{Bcrypt}
use weron.Persister.Registry.{
  Registry, join, create, leave, drop_entry, Call, adds, removes, creates, deletes, cleans, step,
}
use weron.Persister.Psql.{
  Statement, begin_tx, commit, rollback, find_community, insert_row, update_row, delete_row,
  delete_ephemeral, reset_persistent, select_all, delete_by_id, Answers, roll_back, commit_tx,
  add_hashed, add_clients_to_community, create_persistent_community, remove_found,
  remove_client_from_community, cleanup, delete_community,
}
use weron.Persister.Psql.Database.{
  is_nil, is_committed, has_commit, Postgres, effect, is_in_doubt, is_one_unit, call_psql, intended,
  Answering, Keyed, call_psql-Atomic,
}

module _ (pg : Postgres) where
  -- Whatever the database does is `effect`, where what is in doubt took effect or not.
  after-effect :
      (db : Answers) (sent : List Statement) (t : Registry)
      → is_one_unit sent ≡ true
      → (applied : Bool) × (pg.after db sent t ≡ effect applied db sent t)
  unfolding effect
  after-effect db [] t u = (false, pg.nothing_sent db t)
  after-effect db (begin_tx ∷ sent) t u = elim (Bool-cases (is_committed db sent)) [
    | inl e ↦ (false, rw (pg.transaction_committed db sent t e, e) refl)
    | inr e ↦ elim (Bool-cases (has_commit sent)) [
      | inr n ↦ (false, rw (pg.transaction_ended db sent t n, e) refl)
      | inl n ↦ elim (pg.transaction_in_doubt db sent t e n) [
        | inl f ↦ (false, rw (f, e) refl)
        | inr f ↦ (true, rw (f, e, n) refl)
      ]
    ]
  ]
  after-effect db (insert_row c ∷ []) t u = elim (Bool-cases (is_nil db.write_error)) [
    | inl e ↦ (false, rw (pg.row_inserted db c t e, e) refl)
    | inr e ↦ elim (pg.row_in_doubt db c t e) [
      | inl f ↦ (false, rw (f, e) refl)
      | inr (n, f) ↦ (true, rw (f, e, n) refl)
    ]
  ]
  after-effect db (delete_by_id k ∷ []) t u = elim (Result-cases db.deleted) [
    | inl (n, e) ↦ (false, rw (pg.row_deleted db k n t e, e) refl)
    | inr (x, e) ↦ elim (pg.deletion_in_doubt db k x t e) [
      | inl f ↦ (false, rw (f, e) refl)
      | inr f ↦ (true, rw (f, e) refl)
    ]
  ]
  after-effect db (insert_row c ∷ x ∷ sent) t u = cc
  after-effect db (delete_by_id k ∷ x ∷ sent) t u = cc
  after-effect db (commit ∷ sent) t u = cc
  after-effect db (rollback ∷ sent) t u = cc
  after-effect db (find_community k ∷ sent) t u = cc
  after-effect db (update_row c ∷ sent) t u = cc
  after-effect db (delete_row k ∷ sent) t u = cc
  after-effect db (delete_ephemeral ∷ sent) t u = cc
  after-effect db (reset_persistent ∷ sent) t u = cc
  after-effect db (select_all ∷ sent) t u = cc

  -- The table after a history of calls, each with the answers that it gets.
  unfoldable pub run_psql : Bcrypt → List (Call × Answers) → Registry → Registry
  run_psql b [] t = t
  run_psql b ((c, db) ∷ cs) t = run_psql b cs (pg.after db (call_psql b c db).0 t)

  -- The answers to each call are those of the table at that time, with any failures.
  abbrev pub AllAnswering : Bcrypt → List (Call × Answers) → Registry → Type 0
  AllAnswering b [] t = Unit
  AllAnswering b ((c, db) ∷ cs) t =
      Answering db c t × AllAnswering b cs (pg.after db (call_psql b c db).0 t)

-- The calls that returned no error, and those of the others that are marked and may have failed by an
-- error of a commit or of a single statement.
unfoldable pub made : Bcrypt → List Bool → List (Call × Answers) → List Call
made b marks [] = []
made b [] ((c, db) ∷ cs) =
    let rest = made b [] cs in elim (call_psql b c db).1 [ ok _ ↦ c ∷ rest | err e ↦ rest ]
made b (mark ∷ marks) ((c, db) ∷ cs) =
    let rest = made b marks cs in
    let (sent, r) = call_psql b c db in
    elim r [ ok _ ↦ c ∷ rest | err e ↦ if mark && is_in_doubt sent then c ∷ rest else rest ]

unfoldable pub intended_all : Bcrypt → List Call → Registry → Registry
intended_all b [] t = t
intended_all b (c ∷ cs) t = intended_all b cs (intended b c t)

call_psql-is_one_unit :
    (b : Bcrypt) (c : Call) (db : Answers) → is_one_unit (call_psql b c db).0 ≡ true
unfolding call_psql add_clients_to_community add_hashed remove_client_from_community remove_found
    create_persistent_community delete_community cleanup roll_back commit_tx
call_psql-is_one_unit b (adds salt k password upsert) db = ground arith
call_psql-is_one_unit b (removes k) db = ground arith
call_psql-is_one_unit b (creates salt k password) db = ground arith
call_psql-is_one_unit b (deletes k) db = ground arith
call_psql-is_one_unit b cleans db = ground arith

module _ (b : Bcrypt) (t : Registry) (w : Keyed t) where
  adds-Keyed :
      (salt : ℕ) (k password : String) (upsert : Bool)
      → Keyed (intended b (adds salt k password upsert) t)
  unfolding intended step join
  adds-Keyed salt k password upsert j d e = elim (Option-cases (t k)) [
    | inl n ↦ ground (arith, e, n, w j d, eq_iff k j)
    | inr (c, f) ↦ ground (arith, e, f, w j d, w k c f, eq_iff k j)
  ]

  removes-Keyed : (k : String) → Keyed (intended b (removes k) t)
  unfolding intended step leave
  removes-Keyed k j d e = elim (Option-cases (t k)) [
    | inl n ↦ ground (arith, e, n, w j d, eq_iff k j)
    | inr (c, f) ↦ ground (arith, e, f, w j d, w k c f, eq_iff k j)
  ]

  creates-Keyed : (salt : ℕ) (k password : String) → Keyed (intended b (creates salt k password) t)
  unfolding intended step create
  creates-Keyed salt k password j d e = ground (arith, e, w j d, eq_iff k j)

  deletes-Keyed : (k : String) → Keyed (intended b (deletes k) t)
  unfolding intended step drop_entry
  deletes-Keyed k j d e = ground (arith, e, w j d, eq_iff k j)

  cleans-Keyed : Keyed (intended b cleans t)
  unfolding intended step
  cleans-Keyed j d e = elim (Option-cases (t j)) [
    | inl n ↦ ground (arith, e, n)
    | inr (c, f) ↦ ground (arith, e, f, w j c f)
  ]

  intended-Keyed : (c : Call) → Keyed (intended b c t)
  intended-Keyed (adds salt k password upsert) = adds-Keyed salt k password upsert
  intended-Keyed (removes k) = removes-Keyed k
  intended-Keyed (creates salt k password) = creates-Keyed salt k password
  intended-Keyed (deletes k) = deletes-Keyed k
  intended-Keyed cleans = cleans-Keyed

  -- One call with its answers: all of what it is to do, or nothing, and the latter only if it fails.
  call_psql_lem :
      (pg : Postgres) (c : Call) (db : Answers)
      → Answering db c t
      → (mark : Bool) × (pg.after db (call_psql b c db).0 t
          ≡ intended_all b (made b (mark ∷ []) ((c, db) ∷ [])) t)
  unfolding made intended_all
  call_psql_lem pg c db h =
      let (applied, same) =
        after-effect pg db (call_psql b c db).0 t (call_psql-is_one_unit b c db) in
      let atomic = call_psql-Atomic b applied db t c w h in
      elim (Result-cases (call_psql b c db).1) [
        | inl (x, e) ↦ (applied, same ∙ fun_ext (λ j. atomic j ∙ ground (arith, e)))
        | inr (x, e) ↦ (applied, same ∙ fun_ext (λ j. atomic j ∙ ground (arith, e)))
      ]

  made-Keyed :
      (mark : Bool) (c : Call) (db : Answers)
      → Keyed (intended_all b (made b (mark ∷ []) ((c, db) ∷ [])) t)
  unfolding made intended_all
  made-Keyed mark c db = elim (Result-cases (call_psql b c db).1) [
    | inl (x, e) ↦ rw (made, e, intended_all) (intended-Keyed c)
    | inr (x, e) ↦ elim (Bool-cases (mark && is_in_doubt (call_psql b c db).0)) [
      | inl m ↦ rw (made, e, m, intended_all) (intended-Keyed c)
      | inr m ↦ rw (made, e, m, intended_all) w
    ]
  ]

made_cons :
    (b : Bcrypt) (mark : Bool) (marks : List Bool) (x : Call × Answers) (cs : List (Call × Answers))
    (t : Registry)
    → intended_all b (made b (mark ∷ marks) (x ∷ cs)) t
      ≡ intended_all b (made b marks cs) (intended_all b (made b (mark ∷ []) (x ∷ [])) t)
unfolding made intended_all
made_cons b mark marks (c, db) cs t = ground arith

-- However the database fails, in any history of calls on a table with every row under its ID, where
-- the searches, insertions and deletions that do not fail find the table as it is at that time: the
-- table in the end is as if these calls had been made, each in full and in their order: all that
-- returned no error, and some of those whose commit, or whose only statement, may have returned one,
-- which took effect although the connection was lost. Nothing is done in part.
pub run_psql-refines :
    (pg : Postgres) (b : Bcrypt) (cs : List (Call × Answers)) (t : Registry)
    → Keyed t
    → AllAnswering pg b cs t
    → (marks : List Bool) × (run_psql pg b cs t ≡ intended_all b (made b marks cs) t)
unfolding run_psql intended_all made
run_psql-refines pg b [] t w h = ([], refl)
run_psql-refines pg b ((c, db) ∷ cs) t w (h, hs) =
    let (mark, f) = call_psql_lem b t w pg c db h in
    let t1 = intended_all b (made b (mark ∷ []) ((c, db) ∷ [])) t in
    let (marks, g) =
      run_psql-refines pg b cs t1 (made-Keyed b t w mark c db)
        (subst (AllAnswering pg b cs) f hs) in
    (mark ∷ marks, ap (run_psql pg b cs) f ∙ (g ∙ sym (made_cons b mark marks (c, db) cs t)))
