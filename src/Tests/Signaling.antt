-- ===== src/Tests/Signaling.antt =====
-- The signaler at concrete inputs.
use weron.Prelude.{
  is_space, blank, ok, String, ◌≡◌, refl, true, false, ◌&&◌, none, some, List, [], ◌∷◌, ◌++◌, arith,
  str_eq,
}
use weron.Prelude.Int64.{pos}
use weron.Persister.Memory.{Store, find, new_row, cleanup}
use weron.Persister.Memory
use weron.Signaler.Tally.Interleaving
use weron.Signaler.Tally.Interleaving.{Server, Reach, here, next, Balanced, Reach-Balanced}
use weron.Signaler.{
  SignalerConfig, management_api_enabled, Method, get, delete_method, Request, response_code,
}
use weron.Signaler.Tally.{recount}
use weron.Signaler.Handler.{
  Env, is_authorized, recover, join_community, handle, delete_community as handle_delete,
}
use weron.Signaler.Authorization.{handle_refused, handle_kicks, handle_joins}
use weron.Signaler.Session.{
  Event, closer_closed, relayed, ping_tick, returned, message, ping, serve, serve-frames,
}
use weron.Signaler.Connections.{Connections}
use weron.Signaler.Management.{memory_persister}
use weron.Tests.Stores.{plain}

abbrev pub config : SignalerConfig
config = record {
  cleanup = false;
  ephemeral_communities = true;
  api_username = "admin";
  api_password = "secret";
  oidc_issuer = "";
  oidc_client_id = "";
}

abbrev pub env : Env
env = record {
  salt = 1;
  validate = λ user password. str_eq user "admin" && str_eq password "secret";
  marshal_list = λ cc. some "list";
  marshal_community = λ c. some c.id;
  print_succeeds = true;
  publish_succeeds = true;
}

abbrev request : Method → String → Request
request verb secret = record {
  verb = verb;
  community = "room";
  password = "p";
  basic = some ("admin", secret);
}

abbrev pub rooms : Store
rooms = new_row "room" "p" (pos 1) false ∷ []

handle_refused_example :
    let a = handle (memory_persister plain) config env (request delete_method "wrong") rooms in
    (a.store ≡ rooms)
    × (a.kicks ≡ [])
    × (a.joined ≡ false)
    × (a.writer.body ≡ none)
    × (response_code a.writer ≡ 401)
unfolding management_api_enabled blank is_space
handle_refused_example =
    handle_refused (memory_persister plain) config env (request delete_method "wrong") rooms refl
      refl

handle_kicks_example :
    (delete_method ≡ delete_method)
    × (◌≡◌ {A = String} "room" "room")
    × ((management_api_enabled config && is_authorized env (request delete_method "secret")) ≡ true)
    × ((Memory.delete_community "room" rooms).1 ≡ ok tt)
    × ((handle (memory_persister plain) config env (request delete_method "secret") rooms).store
        ≡ (Memory.delete_community "room" rooms).0)
unfolding handle recover handle_delete Memory.delete_community Memory.count_matching
    management_api_enabled blank is_space
handle_kicks_example =
    handle_kicks (memory_persister plain) config env (request delete_method "secret") rooms
      (record { community = "room" }) refl

handle_joins_example :
    let (s', e) = Memory.add_clients_to_community plain 1 "room" "p" true rooms in
    (get ≡ get)
    × (blank "room" ≡ false)
    × (blank "p" ≡ false)
    × (e ≡ ok tt)
    × ((handle (memory_persister plain) config env (request get "secret") rooms).store ≡ s')
unfolding handle recover join_community Memory.add_clients_to_community find blank is_space
handle_joins_example =
    handle_joins (memory_persister plain) config env (request get "secret") rooms refl

abbrev heard : List Event
heard =
    relayed (record { raddr = "me"; message_type = 1; p = 7 ∷ [] }) true true
    ∷ relayed (record { raddr = "you"; message_type = 2; p = 8 ∷ [] }) true true
    ∷ ping_tick true true
    ∷ []

serve-frames_example :
    serve "me" (heard ++ closer_closed ∷ []) ≡ (message 2 (8 ∷ []) ∷ ping ∷ [], returned)
serve-frames_example = serve-frames "me" heard [] (refl, refl, (refl, refl, (refl, refl, tt)))

abbrev table : Connections
table =
    ("room", ("x", record { is_closed = false }) ∷ ("y", record { is_closed = false }) ∷ [])
    ∷ ("hall", ("z", record { is_closed = false }) ∷ [])
    ∷ []

abbrev kicked : Connections
kicked =
    ("room", ("x", record { is_closed = true }) ∷ ("y", record { is_closed = true }) ∷ [])
    ∷ ("hall", ("z", record { is_closed = false }) ∷ [])
    ∷ []

abbrev idle : Server
idle = record { store = []; sessions = λ _. 0 }

abbrev one_client : Server
one_client = record {
  store = (Memory.add_clients_to_community plain 1 "room" "p" true []).0;
  sessions = recount "room" 1 idle.sessions;
}

abbrev left_again : Server
left_again = record {
  store = (Memory.remove_client_from_community "room" one_client.store).0;
  sessions = recount "room" 0 one_client.sessions;
}

came_and_went : Reach plain idle left_again
unfolding Memory.add_clients_to_community find
came_and_went =
    next (next here (Interleaving.connect 1 "room" "p" true refl (omega arith)))
      (Interleaving.disconnect "room" 0 refl)

idle-Balanced : Balanced idle
unfolding find
idle-Balanced = (tt, λ j. refl)

Reach-Balanced_example : Balanced left_again
Reach-Balanced_example =
    Reach-Balanced plain {s = idle} {t = left_again} idle-Balanced came_and_went
