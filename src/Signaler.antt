-- ===== src/Signaler.antt =====
-- pkg/wrtcsgl/wrtcsgl.go: configuration, requests, responses, and what a signaler keeps.
pub mod Connections
pub mod Handler
pub mod Tally
pub mod Close
pub mod Opening
pub mod Kicked
pub mod Management
pub mod Session
pub mod Authorization
use weron.Prelude.{
  if◌then◌else◌, blank, Result, ℕ, String, Bool, true, false, ◌&&◌, Option, none, some, List,
}
use weron.Persister.{Community, Error}

pub record SignalerConfig : Type 0 where
  pub cleanup : Bool
  pub ephemeral_communities : Bool
  pub api_username : String
  pub api_password : String
  pub oidc_issuer : String
  pub oidc_client_id : String

-- The three texts that select the API, the store and the broker are tested for blanks only.
unfoldable pub management_api_enabled : SignalerConfig → Bool
management_api_enabled config =
    if (blank config.oidc_issuer && blank config.oidc_client_id) && blank config.api_password
    then false
    else true

pub data StoreKind : Type 0 where
  memory_store psql_store : StoreKind

pub data BrokerKind : Type 0 where
  process_broker redis_broker : BrokerKind

pub data AuthKind : Type 0 where
  basic_auth : String → String → AuthKind
  oidc_auth : String → String → AuthKind

unfoldable pub select_store : String → StoreKind
select_store postgres_url = if blank postgres_url then memory_store else psql_store

unfoldable pub select_broker : String → BrokerKind
select_broker redis_url = if blank redis_url then process_broker else redis_broker

unfoldable pub select_auth : SignalerConfig → AuthKind
select_auth config =
    if blank config.oidc_issuer && blank config.oidc_client_id
    then basic_auth config.api_username config.api_password
    else oidc_auth config.oidc_issuer config.oidc_client_id

-- The interface of internal/persisters: each method takes the store to the store and its result.
-- The salt is what bcrypt draws.
pub record CommunitiesPersister : Type 1 where
  pub Store : Type 0
  pub add_clients_to_community :
      ℕ → String → String → Bool → Store → Store × Result Error (Unit {0})
  pub remove_client_from_community : String → Store → Store × Result Error (Unit {0})
  pub get_communities : Store → Result Error (List Community)
  pub create_persistent_community : ℕ → String → String → Store → Store × Result Error Community
  pub delete_community : String → Store → Store × Result Error (Unit {0})

pub data Method : Type 0 where
  get post delete_method other_method : Method

-- `basic` is what `r.BasicAuth` returns, `none` where its `ok` is false; a query value that is
-- missing is the empty text.
pub record Request : Type 0 where
  pub verb : Method
  pub community : String
  pub password : String
  pub basic : Option (String × String)

-- What the handler can panic with: all of them are errors, none is an `int`.
pub data PanicValue : Type 0 where
  status_error : ℕ → PanicValue
  missing_password missing_community : PanicValue
  store_error : Error → PanicValue
  io_error : PanicValue

-- `http.ResponseWriter`: the first status that is written counts.
pub record Writer : Type 0 where
  pub status : Option ℕ
  pub body : Option String

abbrev pub new_writer : Writer
new_writer = record { status = none; body = none }

unfoldable pub write_header : ℕ → Writer → Writer
write_header code w = elim w.status [ none ↦ record w { status = some code } | some _ ↦ w ]

-- A body without a status is sent with 200, and so is an empty response.
unfoldable pub response_code : Writer → ℕ
response_code w = elim w.status [ none ↦ 200 | some code ↦ code ]
