-- ===== src/Persister/Psql.antt =====
-- internal/persisters/psql/communities.go. PostgreSQL, the SQL driver and the generated models are
-- given by what they answer to the calls of one method; the model keeps the calls that it makes, in
-- order, and what it returns.
pub mod Transactions
pub mod Equivalence
pub mod Database
pub mod History
use weron.Prelude.{
  leb, if◌then◌else◌, Result, ok, err, ℕ, String, Bool, true, false, Option, none, some, List, [],
  ◌∷◌, ◌++◌, map,
}
use weron.Prelude.Int64.{ℤ, pos, increment, decrement, is_positive}
use weron.Persister.{
  Community, Error, wrong_password, ephemeral_communities_disabled, no_rows, failed, Bcrypt,
}
use weron.Persister.Memory.{Row, with_clients, new_row}

-- The statements that a method sends, with what they write.
pub data Statement : Type 0 where
  begin_tx commit rollback : Statement
  find_community : String → Statement
  insert_row : Row → Statement
  update_row : Row → Statement
  delete_row : String → Statement
  delete_ephemeral reset_persistent select_all : Statement
  delete_by_id : String → Statement

-- The answers: `none` is a nil error. No method sends one statement twice.
pub record Answers : Type 0 where
  pub begin_tx_error : Option Error
  pub commit_error : Option Error
  pub rollback_error : Option Error
  pub write_error : Option Error
  pub reset_error : Option Error
  pub found : Result Error Row
  pub all_rows : Result Error (List Row)
  pub deleted : Result Error ℕ

-- The statements sent, and the result.
abbrev pub Sent {ℓ} : Type ℓ → Type ℓ
Sent A = List Statement × Result Error A

abbrev pub finish {ℓ} : {A : Type ℓ} → Option Error → A → Result Error A
finish none a = ok a
finish (some e) a = err e

-- `if err := tx.Rollback(); err != nil { return err }; return err`.
unfoldable pub roll_back : Answers → List Statement → Error → Sent (Unit {0})
roll_back db sent e =
    (sent ++ rollback ∷ [], elim db.rollback_error [ none ↦ err e | some e' ↦ err e' ])

-- `return tx.Commit()`.
unfoldable pub commit_tx : Answers → List Statement → Sent (Unit {0})
commit_tx db sent = (sent ++ commit ∷ [], finish db.commit_error tt)

-- A write inside a transaction, then `k`, or a rollback if the write fails.
abbrev write_then : Answers → Option Error → List Statement → Sent (Unit {0}) → Sent (Unit {0})
write_then db none sent k = k
write_then db (some e) sent k = roll_back db sent e

abbrev pub is_no_rows : Error → Bool
is_no_rows no_rows = true
is_no_rows _ = false

module _ (b : Bcrypt) (db : Answers) where
  -- The part of `AddClientsToCommunity` behind the hash.
  unfoldable pub add_hashed : String → String → String → Bool → Sent (Unit {0})
  unfolding roll_back commit_tx
  add_hashed hash community password upsert =
      let sent = begin_tx ∷ find_community community ∷ [] in
      elim db.found [
        | ok c ↦
            if b.compare_ok c.password password
            then (let c' = with_clients (increment c.clients) c in
                let sent' = begin_tx ∷ find_community community ∷ update_row c' ∷ [] in
                write_then db db.write_error sent' (commit_tx db sent'))
            else roll_back db sent wrong_password
        | err e ↦
            if is_no_rows e
            then (if upsert
                then (let c = new_row community hash (pos 1) false in
                    let sent' = begin_tx ∷ find_community community ∷ insert_row c ∷ [] in
                    write_then db db.write_error sent' (commit_tx db sent'))
                else roll_back db sent ephemeral_communities_disabled)
            else roll_back db sent e
      ]

  unfoldable pub add_clients_to_community : ℕ → String → String → Bool → Sent (Unit {0})
  unfolding add_hashed
  add_clients_to_community salt community password upsert = elim db.begin_tx_error [
    | some e ↦ (begin_tx ∷ [], err e)
    | none ↦ elim (b.generate salt password) [
      | none ↦ roll_back db (begin_tx ∷ []) (failed salt)
      | some hash ↦ add_hashed hash community password upsert
    ]
  ]

  unfoldable pub create_persistent_community : ℕ → String → String → Sent Community
  create_persistent_community salt community password = elim (b.generate salt password) [
    | none ↦ ([], err (failed salt))
    | some hash ↦
        let c = new_row community hash (pos 0) true in
        (
          insert_row c ∷ [],
          finish db.write_error
              (record { id = c.id; clients = c.clients; persistent = c.persistent }),
        )
  ]

module _ (db : Answers) where
  -- The part of `RemoveClientFromCommunity` behind the row that was found.
  unfoldable pub remove_found : String → Row → Sent (Unit {0})
  unfolding roll_back commit_tx
  remove_found community c =
      let n = decrement c.clients in
      let gone = begin_tx ∷ find_community community ∷ delete_row c.id ∷ [] in
      let kept =
        λ (m : ℤ). begin_tx ∷ find_community community ∷ update_row (with_clients m c) ∷ [] in
      if is_positive n
      then write_then db db.write_error (kept n) (commit_tx db (kept n))
      else if c.persistent
      then write_then db db.write_error (kept (pos 0)) (commit_tx db (kept (pos 0)))
      else write_then db db.write_error gone (commit_tx db gone)

  unfoldable pub remove_client_from_community : String → Sent (Unit {0})
  unfolding remove_found
  remove_client_from_community community = elim db.begin_tx_error [
    | some e ↦ (begin_tx ∷ [], err e)
    | none ↦
        let sent = begin_tx ∷ find_community community ∷ [] in
        elim db.found [
          | ok c ↦ remove_found community c
          | err e ↦
              if is_no_rows e
              then (sent ++ rollback ∷ [], finish db.rollback_error tt)
              else roll_back db sent e
        ]
  ]

  unfoldable pub cleanup : Sent (Unit {0})
  unfolding roll_back commit_tx
  cleanup = elim db.begin_tx_error [
    | some e ↦ (begin_tx ∷ [], err e)
    | none ↦
        let first = begin_tx ∷ delete_ephemeral ∷ [] in
        let both = begin_tx ∷ delete_ephemeral ∷ reset_persistent ∷ [] in
        write_then db db.write_error first (write_then db db.reset_error both (commit_tx db both))
  ]

  unfoldable pub get_communities : Sent (List Community)
  get_communities = elim db.all_rows [
    | ok rows ↦ (
      select_all ∷ [],
      ok (map (λ c. record { id = c.id; clients = c.clients; persistent = c.persistent }) rows),
    )
    | err e ↦ (select_all ∷ [], err e)
  ]

  unfoldable pub delete_community : String → Sent (Unit {0})
  delete_community community = elim db.deleted [
    | ok n ↦ (delete_by_id community ∷ [], if leb n 0 then err no_rows else ok tt)
    | err e ↦ (delete_by_id community ∷ [], err e)
  ]
