-- ===== src/Persister/Psql/Equivalence.antt =====
-- The two stores side by side: where the database makes no error and finds what the memory store
-- finds, the methods return the same and write the row that the memory store then holds.
use weron.Prelude.{
  Bool-cases, Option-cases, str_eq_refl, Result, ok, err, ℕ, String, ◌≡◌, refl, sym, inl, inr, true,
  false, Option, none, some, List, [], ◌∷◌, ◌++◌, arith,
}
use weron.Persister.{Error, no_rows, Bcrypt}
use weron.Persister.Psql.{
  Statement, insert_row, update_row, Answers, add_hashed, add_clients_to_community, remove_found,
  remove_client_from_community,
}
use weron.Persister.Memory
use weron.Persister.Memory.{Row, Store, find, new_row}
use weron.Prelude.Int64.{pos, increment, decrement, is_positive}
use weron.Persister.Memory.Finds.{find-append, find-without}
use weron.Persister.Memory.Lifecycle.{find_set, find_single}

-- No error but a row that is missing, and the rows of a memory store.
pub record Mirrors (db : Answers) (k : String) (p : Store) : Type 0 where
  pub begins : db.begin_tx_error ≡ none
  pub commits : db.commit_error ≡ none
  pub rolls_back : db.rollback_error ≡ none
  pub writes : db.write_error ≡ none
  pub finds : db.found ≡ elim (find k p) [ none ↦ err no_rows | some c ↦ ok c ]

-- The row that the last insert or update writes.
abbrev pub written : List Statement → Option Row
written [] = none
written (insert_row c ∷ sent) = some c
written (update_row c ∷ sent) = some c
written (_ ∷ sent) = written sent

abbrev pub if_ok : Result Error (Unit {0}) → Option Row → Option Row
if_ok (ok _) r = r
if_ok (err e) r = none

module _ (db : Answers) (k : String) (p : Store) (h : Mirrors db k p) where
  open h use {begins, commits, rolls_back, writes, finds}

  module _ (b : Bcrypt) (salt : ℕ) (password : String) where
    -- With ephemeral communities enabled, no database error and the row of the memory store found,
    -- `AddClientsToCommunity` of the PostgreSQL store returns what that of the memory store
    -- returns; if that is nil, the row that it writes is the one that the memory store then has
    -- under the ID, and otherwise it writes none.
    pub add_clients-memory :
        let (sent, r) = add_clients_to_community b db salt k password true in
        let (p', r') = Memory.add_clients_to_community b salt k password true p in
        (r ≡ r') × (written sent ≡ if_ok r' (find k p'))
    unfolding add_clients_to_community Memory.add_clients_to_community
    add_clients-memory = elim (Option-cases (b.generate salt password)) [
      | inl g ↦
          rw (begins, g, rolls_back, add_clients_to_community, Memory.add_clients_to_community)
            (refl, refl)
      | inr (hash, g) ↦ elim (Option-cases (find k p)) [
        | inl n ↦
            let joined : Memory.add_clients_to_community b salt k password true p
                ≡ (p ++ new_row k hash (pos 1) false ∷ [], ok tt) =
              rw (g, n, Memory.add_clients_to_community) refl in
            rw (joined, begins, g, finds, n, writes, commits, add_clients_to_community, add_hashed)
              (
                refl,
                rw (find-append k p (new_row k hash (pos 1) false ∷ []), n)
                    (sym (find_single k hash)),
              )
        | inr (c, s) ↦ elim (Bool-cases (b.compare_ok c.password password)) [
          | inl t ↦
              rw
                (
                  begins, g, finds, s, writes, commits, t, add_clients_to_community, add_hashed,
                  Memory.add_clients_to_community,
                )
                (refl, sym (find_set k (increment c.clients) p c s))
          | inr f ↦
              rw
                (
                  begins, g, finds, s, rolls_back, f, add_clients_to_community, add_hashed,
                  Memory.add_clients_to_community,
                )
                (refl, refl)
        ]
      ]
    ]

  gone : find k (Memory.without k p) ≡ none
  gone = rw (find-without k k p, str_eq_refl k) refl

  -- Under the same conditions `RemoveClientFromCommunity` of both stores returns nil for a community
  -- that is found, and the row that PostgreSQL is left with, or that none is left, agrees with the
  -- memory store. For one that is not found the PostgreSQL store returns nil, and the memory store
  -- `sql.ErrNoRows`.
  pub remove_client-memory :
      let (sent, r) = remove_client_from_community db k in
      let (p', r') = Memory.remove_client_from_community k p in
      (r ≡ ok tt)
      × (r' ≡ elim (find k p) [ none ↦ err no_rows | some c ↦ ok tt ])
      × (written sent ≡ find k p')
  unfolding remove_client_from_community Memory.remove_client_from_community
  remove_client-memory = elim (Option-cases (find k p)) [
    | inl n ↦
        rw
          (
            begins, finds, n, rolls_back, remove_client_from_community,
            Memory.remove_client_from_community,
          )
          (refl, refl, sym n)
    | inr (c, s) ↦ elim (Bool-cases (is_positive (decrement c.clients))) [
      | inl t ↦
          rw
            (
              begins, finds, s, t, writes, commits, remove_client_from_community, remove_found,
              Memory.remove_client_from_community,
            )
            (refl, refl, sym (find_set k _ p c s))
      | inr f ↦ elim (Bool-cases c.persistent) [
        | inl t ↦
            rw
              (
                begins, finds, s, f, t, writes, commits, remove_client_from_community, remove_found,
                Memory.remove_client_from_community,
              )
              (refl, refl, ground (arith, find_set k (pos 0) p c s))
        | inr g ↦
            rw
              (
                begins, finds, s, f, g, writes, commits, remove_client_from_community, remove_found,
                Memory.remove_client_from_community,
              )
              (refl, refl, sym gone)
      ]
    ]
  ]
