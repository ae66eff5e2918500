-- ===== src/Signaler/Management.antt =====
-- What stands between pkg/wrtcmgr and pkg/wrtcsgl, and the memory store in the server.
pub mod Roundtrip
use mathlib.Core.List.{append-nil}
use weron.Prelude.{lookup, ok, String, ◌≡◌, Bool, true, Option, none, some, List, [], ◌∷◌}
use weron.Persister.{Community, Bcrypt}
use weron.Persister.Memory.{
  Store, add_clients_to_community, create_persistent_community, remove_client_from_community,
  get_communities, delete_community,
}
use weron.Persister.Memory
use weron.Signaler.{CommunitiesPersister, Method, get, post, delete_method, Request}
use weron.Signaler.Handler
use weron.Signaler.Handler.{Env}
use weron.Manager
use weron.Manager.{HttpRequest, Manager}

-- The memory store as the interface that the handler takes.
abbrev pub memory_persister : Bcrypt → CommunitiesPersister
memory_persister b = record {
  Store = Store;
  add_clients_to_community = Memory.add_clients_to_community b;
  remove_client_from_community = Memory.remove_client_from_community;
  get_communities = λ p. ok (Memory.get_communities p);
  create_persistent_community = Memory.create_persistent_community b;
  delete_community = Memory.delete_community;
}

-- `q.Get` of net/url.
abbrev pub query_value : String → List (String × String) → String
query_value k values = elim (lookup k values) [ none ↦ "" | some v ↦ v ]

-- A request as the manager sends it.
abbrev pub http_request : Manager → Method → String → HttpRequest
http_request m verb url = record {
  verb = verb;
  url = url;
  username = m.username;
  password = m.password;
}

-- What a request of the manager with these values in its query is to the server.
abbrev pub request_with : Method → List (String × String) → Manager → Request
request_with verb values m = record {
  verb = verb;
  community = query_value "community" values;
  password = query_value "password" values;
  basic = some (m.username, m.password);
}

abbrev pub both : String → String → List (String × String)
both community password = ("community", community) ∷ ("password", password) ∷ []

abbrev pub only : String → List (String × String)
only community = ("community", community) ∷ []

-- net/http and net/url between the two: an address with values in its query is read back by the
-- server with these values, and the credentials of the request with it.
pub record Web (m : Manager) (community password : String) : Type 0 where
  pub with_query : String → List (String × String) → Option String
  pub valid_request : String → Bool
  pub read_request : HttpRequest → Request
  pub address : List (String × String) → String
  pub with_query-address :
      (values : List (String × String)) → with_query m.url values ≡ some (address values)
  pub valid-address : (values : List (String × String)) → valid_request (address values) ≡ true
  pub reads_post :
      read_request (http_request m post (address (both community password)))
      ≡ request_with post (both community password) m
  pub reads_get : read_request (http_request m get (address [])) ≡ request_with get [] m
  pub reads_delete :
      read_request (http_request m delete_method (address (only community)))
      ≡ request_with delete_method (only community) m

-- encoding/json between the two, on one community and on one list.
pub record Json (env : Env) (c : Community) (cc : List Community) : Type 0 where
  pub unmarshal_community : String → Option Community
  pub unmarshal_communities : String → Option (List Community)
  pub community_text : String
  pub list_text : String
  pub marshals_community : env.marshal_community c ≡ some community_text
  pub marshals_list : env.marshal_list cc ≡ some list_text
  pub reads_community : unmarshal_community community_text ≡ some c
  pub reads_list : unmarshal_communities list_text ≡ some cc
