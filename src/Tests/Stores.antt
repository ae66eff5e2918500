-- ===== src/Tests/Stores.antt =====
-- The stores of communities at concrete inputs, with a bcrypt that keeps the password as its hash.
use mathlib.Core.Path.{subst}
use weron.Prelude.{
  ok, ℕ, String, ◌≡◌, refl, true, false, none, some, List, [], ◌∷◌, arith, eq_iff, str_eq,
}
use weron.Prelude.Int64.{pos, increment, decrement, is_positive}
use weron.Persister.{Bcrypt}
use weron.Persister.Registry.{Call, adds, removes, creates, deletes, run, Represents}
use weron.Persister.Memory.{
  Row, Store, new_communities_persister, find, set_clients, without, new_row,
  add_clients_to_community, create_persistent_community, remove_client_from_community,
  delete_community,
}
use weron.Persister.Memory.Refines.{call_store, run_store, run_store-refines}
use weron.Persister.Memory.Lifecycle.{CanGrow, remove_client-add_clients}
use weron.Persister.Counts.{is_counted, run_store-counted}
use weron.Persister.Psql.{Answers}
use weron.Persister.Psql.Equivalence.{Mirrors}

pub plain_compare :
    (salt : ℕ) (password hash : String) → some password ≡ some hash → str_eq hash password ≡ true
plain_compare salt password hash e = ground (arith, e, eq_iff hash password)

abbrev pub plain : Bcrypt
plain = record {
  generate = λ salt password. some password;
  compare_ok = str_eq;
  compare_generated = plain_compare;
}

abbrev calls : List Call
calls =
    creates 0 "lobby" "p"
    ∷ adds 1 "lobby" "p" true
    ∷ adds 2 "lobby" "q" true
    ∷ adds 3 "room" "r" true
    ∷ removes "lobby"
    ∷ deletes "hall"
    ∷ []

empty_row : Represents new_communities_persister (λ _. none)
unfolding find
empty_row = record { distinct = tt; agrees = λ j. refl }

run_store-refines_example :
    Represents (run_store plain calls new_communities_persister).0 (run plain calls (λ _. none)).0
    × ((run_store plain calls new_communities_persister).1 ≡ (run plain calls (λ _. none)).1)
run_store-refines_example =
    run_store-refines plain calls new_communities_persister (λ _. none)
      (refl, (refl, (refl, (refl, (refl, (refl, tt)))))) empty_row

abbrev lobby : Row
lobby = new_row "lobby" "p" (pos 0) true

abbrev lobbies : Store
lobbies = lobby ∷ new_row "room" "r" (pos 2) false ∷ []

lobby_may_grow :
    (c : Row) → find "lobby" lobbies ≡ some c → (plain.compare_ok c.password "p" ≡ true) × CanGrow c
unfolding find
lobby_may_grow c e =
    let same : lobby ≡ c = ground (arith, e) in
    subst (λ d. (plain.compare_ok d.password "p" ≡ true) × CanGrow d) same
      (refl, (0, refl, omega arith, refl))

remove_client-add_clients_example :
    let (p', r) = add_clients_to_community plain 5 "lobby" "p" true lobbies in
    (r ≡ ok tt) × (remove_client_from_community "lobby" p' ≡ (lobbies, ok tt))
remove_client-add_clients_example =
    remove_client-add_clients plain 5 "lobby" "p" "p" true lobbies refl lobby_may_grow

run_store-counted_example : is_counted 6 true (pos 0) ≡ true
unfolding run_store call_store find add_clients_to_community remove_client_from_community
    create_persistent_community delete_community without set_clients increment decrement is_positive
run_store-counted_example =
    run_store-counted plain calls "lobby" lobby (omega arith)
      (refl, (refl, (refl, (refl, (refl, (refl, tt)))))) refl

abbrev answers : Answers
answers = record {
  begin_tx_error = none;
  commit_error = none;
  rollback_error = none;
  write_error = none;
  reset_error = none;
  found = ok lobby;
  all_rows = ok lobbies;
  deleted = ok 1;
}

answers-Mirrors : Mirrors answers "lobby" lobbies
unfolding find
answers-Mirrors = record {
  begins = refl;
  commits = refl;
  rolls_back = refl;
  writes = refl;
  finds = refl;
}
