-- ===== src/Cmd/Serve.antt =====
-- cmd/weron/cmd/{signaler,root}.go: the configuration of the signaler from flags and environment, and
-- the level of the log.
use weron.Prelude.{
  ◌==◌, if◌then◌else◌, Result, ok, err, String, ◌≡◌, Bool, Option, none, some, arith, str_eq,
}
use weron.Prelude.Int64.{ℤ, pos, negsuc}
use weron.Signaler.{SignalerConfig}

-- The flags of the signaler command; an environment variable that is not set is the empty text.
pub record ServeFlags : Type 0 where
  pub laddr : String
  pub postgres_url : String
  pub redis_url : String
  pub cleanup : Bool
  pub ephemeral_communities : Bool
  pub api_username : String
  pub api_password : String
  pub oidc_issuer : String
  pub oidc_client_id : String

pub record Environment : Type 0 where
  pub api_username : String
  pub api_password : String
  pub database_url : String
  pub redis_url : String
  pub oidc_issuer : String
  pub oidc_client_id : String
  pub port : String

unfoldable pub override : String → String → String
override variable flag = if str_eq variable "" then flag else variable

-- `PreRunE` of the signaler command.
unfoldable pub pre_run : Environment → ServeFlags → ServeFlags
pre_run env f = record f {
  api_username = override env.api_username f.api_username;
  api_password = override env.api_password f.api_password;
  postgres_url = override env.database_url f.postgres_url;
  redis_url = override env.redis_url f.redis_url;
  oidc_issuer = override env.oidc_issuer f.oidc_issuer;
  oidc_client_id = override env.oidc_client_id f.oidc_client_id;
}

pub data ServeError : Type 0 where
  bad_address bad_port : ServeError

-- The arguments of `NewSignaler`.
pub record Serving : Type 0 where
  pub host : String
  pub port : ℤ
  pub postgres_url : String
  pub redis_url : String
  pub config : SignalerConfig

-- `RunE` up to `NewSignaler`: `resolve` is `net.ResolveTCPAddr`, `atoi` is `strconv.Atoi`.
module _ (resolve : String → Option (String × ℤ)) (atoi : String → Option ℤ) where
  unfoldable pub serving : String → ℤ → ServeFlags → Serving
  serving host port f = record {
    host = host;
    port = port;
    postgres_url = f.postgres_url;
    redis_url = f.redis_url;
    config = record {
      cleanup = f.cleanup;
      ephemeral_communities = f.ephemeral_communities;
      api_username = f.api_username;
      api_password = f.api_password;
      oidc_issuer = f.oidc_issuer;
      oidc_client_id = f.oidc_client_id;
    };
  }

  unfoldable pub run_signaler : Environment → ServeFlags → Result ServeError Serving
  run_signaler env f = elim (resolve f.laddr) [
    | none ↦ err bad_address
    | some (host, port) ↦
        if str_eq env.port ""
        then ok (serving host port f)
        else elim (atoi env.port) [ none ↦ err bad_port | some p ↦ ok (serving host p f) ]
  ]

pub data Level : Type 0 where
  disabled panic_level fatal_level error_level warn_level info_level debug_level trace_level : Level

-- The switch of the root command; a negative verbosity is in the default case.
unfoldable pub log_level : ℤ → Level
log_level (negsuc n) = trace_level
log_level (pos n) =
    if n == 0
    then disabled
    else if n == 1
    then panic_level
    else if n == 2
    then fatal_level
    else if n == 3
    then error_level
    else if n == 4
    then warn_level
    else if n == 5
    then info_level
    else if n == 6
    then debug_level
    else trace_level

-- A signaler that is started has the database of DATABASE_URL and the broker of REDIS_URL where the
-- variable is set, and those of the flags otherwise.
pub run_signaler-store :
    (resolve : String → Option (String × ℤ)) (atoi : String → Option ℤ) (env : Environment)
    (f : ServeFlags) (s : Serving)
    → run_signaler resolve atoi env (pre_run env f) ≡ ok s
    → (s.postgres_url ≡ override env.database_url f.postgres_url)
      × (s.redis_url ≡ override env.redis_url f.redis_url)
unfolding run_signaler pre_run serving
run_signaler-store resolve atoi env f s h = ground (arith, h)
