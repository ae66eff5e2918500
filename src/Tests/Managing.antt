-- ===== src/Tests/Managing.antt =====
-- A manager and a signaler at concrete inputs.
use weron.Tests.Stores.{plain}
use weron.Tests.Signaling.{config, env, rooms}
use weron.Signaler.Management.Roundtrip.{
  created, all_listed, deleted, creating, deleting, managed_round_trip,
}
use weron.Signaler.Management.{memory_persister, request_with, both, only, Web, Json}
use weron.Prelude.{
  if◌then◌else◌, is_space, blank, lookup, ok, String, ◌≡◌, refl, true, false, none, some, List, [],
  ◌∷◌, ◌++◌, arith, str_eq,
}
use weron.Prelude.Int64.{pos}
use weron.Persister.{Community}
use weron.Persister.Memory.{Store, find, new_row, get_communities}
use weron.Persister.Memory.Lifecycle.{listed}
use weron.Signaler.{management_api_enabled, Request}
use weron.Signaler.Connections.{Connections}
use weron.Signaler.Close.{canceled, redis_closed, broken, Closers, closer_failed, close}
use weron.Signaler.Close.Returned.{is_same, is_meant, first_unmeant, emptied, close_returns}
use weron.Manager.{HttpRequest, Manager}

abbrev manager : Manager
manager = record { url = "http://host"; username = "admin"; password = "secret" }

abbrev address : List (String × String) → String
address [] = "http://host"
address (v ∷ []) = "http://host?community"
address (v ∷ w ∷ rest) = "http://host?community&password"

-- The three addresses that the manager asks for, read back.
abbrev read_request : HttpRequest → Request
read_request r =
    request_with r.verb
      (if str_eq r.url "http://host"
        then []
        else if str_eq r.url "http://host?community"
        then only "new"
        else both "new" "p")
      manager

abbrev web : Web manager "new" "p"
web = record {
  with_query = λ u values. some (address values);
  valid_request = λ u. true;
  read_request = read_request;
  address = address;
  with_query-address = λ values. refl;
  valid-address = λ values. refl;
  reads_post = refl;
  reads_get = refl;
  reads_delete = refl;
}

abbrev new_community : Community
new_community = record { id = "new"; clients = pos 0; persistent = true }

abbrev after : Store
after = rooms ++ new_row "new" "p" (pos 0) true ∷ []

abbrev json : Json env new_community (get_communities after)
json = record {
  unmarshal_community = λ s. some new_community;
  unmarshal_communities = λ s. some (get_communities after);
  community_text = "new";
  list_text = "list";
  marshals_community = refl;
  marshals_list = refl;
  reads_community = refl;
  reads_list = refl;
}

managed_round_trip_example :
    (created plain config env manager "new" "p" "p" rooms web json rooms ≡ ok new_community)
    × ((creating plain config env manager "new" "p" "p" rooms web json rooms).store ≡ after)
    × (all_listed plain config env manager "new" "p" "p" rooms web json after
        ≡ ok (get_communities after))
    × (listed "new" (get_communities after) ≡ some new_community)
    × (deleted plain config env manager "new" "p" "p" rooms web json after ≡ ok tt)
    × ((deleting plain config env manager "new" "p" "p" rooms web json after).kicks
        ≡ record { community = "new" } ∷ [])
    × ((deleting plain config env manager "new" "p" "p" rooms web json after).store ≡ rooms)
unfolding blank is_space management_api_enabled find get_communities
managed_round_trip_example =
    managed_round_trip plain config env manager "new" "p" "p" rooms web json refl refl refl refl
      refl refl refl refl

abbrev one_open : Connections
one_open = ("room", ("1.2.3.4:5", record { is_closed = false }) ∷ []) ∷ []

abbrev ends : Closers
ends = record { kicks = some canceled; broker = some redis_closed; server = some broken }

close_returns_example :
    (q : Store) × (close (memory_persister plain) ends one_open rooms
      ≡ (q, some (closer_failed broken)))
    × ((j : String)
        → find j q
          ≡ elim (lookup j one_open) [ none ↦ find j rooms | some cs ↦ emptied (find j rooms) ])
unfolding first_unmeant is_meant is_same lookup find
close_returns_example =
    close_returns plain ends one_open rooms
      (refl, omega arith, (new_row "room" "p" (pos 1) false, refl, refl), tt)
