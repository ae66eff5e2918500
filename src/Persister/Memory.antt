-- ===== src/Persister/Memory.antt =====
-- internal/persisters/memory/communities.go. The lock makes each method one step, so a method is
-- a function from the store to the store and its result.
pub mod Finds
pub mod Distinct
pub mod Refines
pub mod Lifecycle
use weron.Prelude.{
  leb, if◌then◌else◌, Result, ok, err, ℕ, suc, ◌*◌, String, Bool, true, false, Option, none, some,
  List, [], ◌∷◌, ◌++◌, str_eq,
}
use weron.Prelude.Int64.{ℤ, pos, increment, decrement, is_positive}
use weron.Persister.{
  Community, Error, wrong_password, no_rows, unique_constraint_violation, failed, Bcrypt,
}

-- `Community` of the memory store: the shared fields and the hashed password.
pub record Row : Type 0 where
  pub community : Community
  pub open community use *
  pub password : String

-- `CommunitiesPersister`: its communities, in order of creation.
abbrev pub Store : Type 0
Store = List Row

abbrev pub new_communities_persister : Store
new_communities_persister = []

-- The loops that look for the first candidate with the ID.
unfoldable pub find : String → Store → Option Row
find community [] = none
find community (c ∷ p) = if str_eq c.id community then some c else find community p

abbrev pub with_clients : ℤ → Row → Row
with_clients n c = record c { community = record c.community { clients = n } }

-- A write through the pointer that the loop found.
unfoldable pub set_clients : String → ℤ → Store → Store
set_clients community n [] = []
set_clients community n (c ∷ p) =
    if str_eq c.id community then with_clients n c ∷ p else c ∷ set_clients community n p

-- The loops that copy all candidates with another ID.
unfoldable pub without : String → Store → Store
without community [] = []
without community (c ∷ p) =
    if str_eq c.id community then without community p else c ∷ without community p

abbrev pub new_row : String → String → ℤ → Bool → Row
new_row community hash clients persistent = record {
  community = record { id = community; clients = clients; persistent = persistent };
  password = hash;
}

-- How many candidates `DeleteCommunity` leaves out.
unfoldable pub count_matching : String → Store → ℕ
count_matching community [] = 0
count_matching community (c ∷ p) =
    if str_eq c.id community then suc (count_matching community p) else count_matching community p

module _ (b : Bcrypt) where
  -- `upsert` is not read.
  unfoldable pub add_clients_to_community :
      ℕ → String → String → Bool → Store → Store × Result Error (Unit {0})
  add_clients_to_community salt community password upsert p = elim (b.generate salt password) [
    | none ↦ (p, err (failed salt))
    | some hash ↦ elim (find community p) [
      | none ↦ (p ++ new_row community hash (pos 1) false ∷ [], ok tt)
      | some c ↦
          if b.compare_ok c.password password
          then (set_clients community (increment c.clients) p, ok tt)
          else (p, err wrong_password)
    ]
  ]

  unfoldable pub create_persistent_community :
      ℕ → String → String → Store → Store × Result Error Community
  create_persistent_community salt community password p = elim (b.generate salt password) [
    | none ↦ (p, err (failed salt))
    | some hash ↦ elim (find community p) [
      | none ↦
          let c = new_row community hash (pos 0) true in
          (p ++ c ∷ [], ok (record { id = c.id; clients = c.clients; persistent = c.persistent }))
      | some c ↦ (p, err unique_constraint_violation)
    ]
  ]

unfoldable pub remove_client_from_community : String → Store → Store × Result Error (Unit {0})
remove_client_from_community community p = elim (find community p) [
  | none ↦ (p, err no_rows)
  | some c ↦
      let n = decrement c.clients in
      if is_positive n
      then (set_clients community n p, ok tt)
      else if c.persistent
      then (set_clients community (pos 0) p, ok tt)
      else (without community p, ok tt)
]

-- The loop of `Cleanup`: a persistent candidate is skipped, any other is kept with no clients.
unfoldable pub cleanup : Store → Store
cleanup [] = []
cleanup (c ∷ p) = if c.persistent then cleanup p else with_clients (pos 0) c ∷ cleanup p

unfoldable pub get_communities : Store → List Community
get_communities [] = []
get_communities (c ∷ p) =
    record { id = c.id; clients = c.clients; persistent = c.persistent } ∷ get_communities p

unfoldable pub delete_community : String → Store → Store × Result Error (Unit {0})
delete_community community p =
    (without community p, if leb (count_matching community p) 0 then err no_rows else ok tt)
