-- ===== src/Signaler/Handler.antt =====
-- pkg/wrtcsgl/wrtcsgl.go: the HTTP handler, up to the point where a connection is upgraded.
use weron.Prelude.{
  if◌then◌else◌, blank, ok, err, ℕ, String, Bool, true, false, not, Option, none, some, List, [],
  ◌∷◌,
}
use weron.Broker.{Kick}
use weron.Persister.{Community, Error, wrong_password, ephemeral_communities_disabled, no_rows}
use weron.Signaler.{
  SignalerConfig, management_api_enabled, CommunitiesPersister, Method, get, post, delete_method,
  other_method, Request, PanicValue, status_error, missing_password, missing_community, store_error,
  io_error, Writer, new_writer, write_header,
}

-- What the handler asks of JSON, of the network and of the authenticator: `validate` says that
-- `auth.Validate` returns nil.
pub record Env : Type 0 where
  pub salt : ℕ
  pub validate : String → String → Bool
  pub marshal_list : List Community → Option String
  pub marshal_community : Community → Option String
  pub print_succeeds : Bool
  pub publish_succeeds : Bool

-- `!ok || err != nil`, negated; without credentials both texts are empty.
abbrev pub is_authorized : Env → Request → Bool
is_authorized env r = elim r.basic [ none ↦ false | some (u, p) ↦ env.validate u p ]

-- How a request ends: answered, or a panic, which `recover` turns into a status.
pub record Reply (S : Type 0) : Type 0 where
  pub store : S
  pub writer : Writer
  pub kicks : List Kick
  pub joined : Bool
  pub panicked : Option PanicValue

abbrev pub panics_with : {S : Type 0} → S → Writer → PanicValue → Reply S
panics_with s w e = record { store = s; writer = w; kicks = []; joined = false; panicked = some e }

-- `rw.WriteHeader(code); panic(fmt.Errorf("%v", code))`.
abbrev pub refuses : {S : Type 0} → S → ℕ → Reply S
refuses s code = panics_with s (write_header code new_writer) (status_error code)

-- `json.Marshal`, then `fmt.Fprint`.
abbrev pub prints : {S : Type 0} → Env → S → Option String → Reply S
prints env s none = panics_with s new_writer io_error
prints env s (some j) =
    if env.print_succeeds
    then record {
      store = s;
      writer = record { status = none; body = some j };
      kicks = [];
      joined = false;
      panicked = none;
    }
    else panics_with s new_writer io_error

-- The deferred function: its `case`s are `int`s, so an error always gets to `default`.
unfoldable pub recover : {S : Type 0} → Reply S → Reply S
recover r = elim r.panicked [ none ↦ r | some e ↦ record r { writer = write_header 500 r.writer } ]

module _ (db : CommunitiesPersister) (config : SignalerConfig) (env : Env) where
  open db use {Store}

  unfoldable pub list_communities : Request → Store → Reply Store
  unfolding write_header
  list_communities r s =
      if not (management_api_enabled config)
      then refuses s 501
      else if not (is_authorized env r)
      then refuses s 401
      else elim (db.get_communities s) [
        | err e ↦ panics_with s new_writer (store_error e)
        | ok pc ↦ prints env s (env.marshal_list pc)
      ]

  abbrev pub is_unauthorized : Error → Bool
  is_unauthorized wrong_password = true
  is_unauthorized ephemeral_communities_disabled = true
  is_unauthorized _ = false

  -- A client joins: `joined` leads to the upgrade and the session.
  unfoldable pub join_community : Request → Store → Reply Store
  unfolding write_header
  join_community r s =
      if blank r.password
      then panics_with s new_writer missing_password
      else (let (s', e) =
            db.add_clients_to_community env.salt r.community r.password config.ephemeral_communities
              s in
          elim e [
            | ok _ ↦ record {
              store = s';
              writer = new_writer;
              kicks = [];
              joined = true;
              panicked = none;
            }
            | err x ↦
                if is_unauthorized x
                then refuses s' 401
                else panics_with s' new_writer (store_error x)
          ])

  unfoldable pub create_community : Request → Store → Reply Store
  unfolding write_header
  create_community r s =
      if not (management_api_enabled config)
      then refuses s 501
      else if not (is_authorized env r)
      then refuses s 401
      else if blank r.password
      then panics_with s new_writer missing_password
      else if blank r.community
      then panics_with s new_writer missing_community
      else (let (s', e) = db.create_persistent_community env.salt r.community r.password s in
          elim e [
            | err x ↦ panics_with s' new_writer (store_error x)
            | ok c ↦ prints env s' (
                env.marshal_community
                  (record { id = c.id; clients = c.clients; persistent = c.persistent }))
          ])

  abbrev pub is_missing : Error → Bool
  is_missing no_rows = true
  is_missing _ = false

  unfoldable pub delete_community : Request → Store → Reply Store
  unfolding write_header
  delete_community r s =
      if not (management_api_enabled config)
      then refuses s 501
      else if not (is_authorized env r)
      then refuses s 401
      else if blank r.community
      then panics_with s new_writer missing_community
      else (let (s', e) = db.delete_community r.community s in
          elim e [
            | err x ↦
                if is_missing x then refuses s' 404 else panics_with s' new_writer (store_error x)
            | ok _ ↦
                if env.publish_succeeds
                then record {
                  store = s';
                  writer = new_writer;
                  kicks = record { community = r.community } ∷ [];
                  joined = false;
                  panicked = none;
                }
                else panics_with s' new_writer io_error
          ])

  abbrev pub dispatch : Method → Request → Store → Reply Store
  dispatch get r s = if blank r.community then list_communities r s else join_community r s
  dispatch post r s = create_community r s
  dispatch delete_method r s = delete_community r s
  dispatch other_method r s = refuses s 501

  unfoldable pub handle : Request → Store → Reply Store
  unfolding recover list_communities join_community create_community delete_community
  handle r s = recover (dispatch r.verb r s)
