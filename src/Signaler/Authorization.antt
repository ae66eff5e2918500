-- ===== src/Signaler/Authorization.antt =====
-- Who may manage communities, and which status each refusal has.
use weron.Prelude.{
  if◌then◌else◌, blank, ok, err, ◌≡◌, refl, sym, ◌∙◌, Bool, true, false, ◌&&◌, none, some, [], ◌∷◌,
  arith,
}
use weron.Broker.{Kick}
use weron.Signaler.{
  SignalerConfig, management_api_enabled, CommunitiesPersister, Method, get, post, delete_method,
  other_method, Request, write_header, response_code,
}
use weron.Signaler.Handler.{
  Env, is_authorized, refuses, recover, list_communities, is_unauthorized, join_community,
  create_community, is_missing, delete_community, dispatch, handle,
}

-- The requests of the management API: all but a GET that names a community.
abbrev pub is_management : Request → Bool
is_management r = elim r.verb [
  | get ↦ blank r.community
  | post ↦ true
  | delete_method ↦ true
  | other_method ↦ false
]

module _ (db : CommunitiesPersister) (config : SignalerConfig) (env : Env) (r : Request)
    (s : db.Store) where
  dispatch_refused :
      (m : Method)
      → is_management (record r { verb = m }) ≡ true
      → (management_api_enabled config && is_authorized env r) ≡ false
      → dispatch db config env m r s
        ≡ refuses s (if management_api_enabled config then 401 else 501)
  unfolding list_communities create_community delete_community
  dispatch_refused get m h = ground arith
  dispatch_refused post m h = ground arith
  dispatch_refused delete_method m h = ground arith
  dispatch_refused other_method m h = cc

  -- A management request is refused unless the management API is enabled and its credentials are
  -- valid: the store is as before, no kick is published, no body is sent, and the status is 501 if
  -- the API is disabled and 401 otherwise, not the 500 of the deferred function.
  pub handle_refused :
      is_management r ≡ true
      → (management_api_enabled config && is_authorized env r) ≡ false
      → let a = handle db config env r s in
        (a.store ≡ s)
        × (a.kicks ≡ [])
        × (a.joined ≡ false)
        × (a.writer.body ≡ none)
        × (response_code a.writer ≡ (if management_api_enabled config then 401 else 501))
  unfolding handle recover response_code write_header
  handle_refused m h = rw (handle, dispatch_refused r.verb m h) (refl, refl, refl, refl, refl)

  handle-kicks : (handle db config env r s).kicks ≡ (dispatch db config env r.verb r s).kicks
  unfolding handle recover
  handle-kicks = ground arith

  handle-store : (handle db config env r s).store ≡ (dispatch db config env r.verb r s).store
  unfolding handle recover
  handle-store = ground arith

  handle-joined : (handle db config env r s).joined ≡ (dispatch db config env r.verb r s).joined
  unfolding handle recover
  handle-joined = ground arith

  kicks_lem :
      (m : Method) (k : Kick)
      → (dispatch db config env m r s).kicks ≡ k ∷ []
      → (m ≡ delete_method)
        × (k.community ≡ r.community)
        × ((management_api_enabled config && is_authorized env r) ≡ true)
        × ((db.delete_community r.community s).1 ≡ ok tt)
        × ((dispatch db config env m r s).store ≡ (db.delete_community r.community s).0)
  unfolding list_communities create_community delete_community join_community
  kicks_lem get k e = ground arith
  kicks_lem post k e = ground arith
  kicks_lem delete_method k e = ground arith
  kicks_lem other_method k e = ground arith

  -- A kick is published only by an authorized DELETE, for the community that it names, after the
  -- store has deleted that community without an error, and the store is then the one after that.
  pub handle_kicks :
      (k : Kick)
      → (handle db config env r s).kicks ≡ k ∷ []
      → (r.verb ≡ delete_method)
        × (k.community ≡ r.community)
        × ((management_api_enabled config && is_authorized env r) ≡ true)
        × ((db.delete_community r.community s).1 ≡ ok tt)
        × ((handle db config env r s).store ≡ (db.delete_community r.community s).0)
  handle_kicks k e =
      let (a, b, c, d, f) = kicks_lem r.verb k (sym handle-kicks ∙ e) in
      (a, b, c, d, handle-store ∙ f)

  joined_lem :
      (m : Method)
      → (dispatch db config env m r s).joined ≡ true
      → let (s', e) =
          db.add_clients_to_community env.salt r.community r.password config.ephemeral_communities
            s in
        (m ≡ get)
        × (blank r.community ≡ false)
        × (blank r.password ≡ false)
        × (e ≡ ok tt)
        × ((dispatch db config env m r s).store ≡ s')
  unfolding list_communities create_community delete_community join_community
  joined_lem get e = ground arith
  joined_lem post e = ground arith
  joined_lem delete_method e = ground arith
  joined_lem other_method e = ground arith

  -- A client gets a session only by a GET with a community and a password that are not blank, for
  -- which the store adds a client without an error, and the store is then the one after that.
  pub handle_joins :
      (handle db config env r s).joined ≡ true
      → let (s', e) =
          db.add_clients_to_community env.salt r.community r.password config.ephemeral_communities
            s in
        (r.verb ≡ get)
        × (blank r.community ≡ false)
        × (blank r.password ≡ false)
        × (e ≡ ok tt)
        × ((handle db config env r s).store ≡ s')
  handle_joins e =
      let (a, b, c, d, f) = joined_lem r.verb (sym handle-joined ∙ e) in
      (a, b, c, d, handle-store ∙ f)

  -- The status of an authorized DELETE that names a community, if the kick can be published: 200 if
  -- the store deleted it, 404 if it had no such row, and 500 on any other error; a kick is published
  -- in the first case only.
  pub handle_delete_status :
      r.verb ≡ delete_method
      → (management_api_enabled config && is_authorized env r) ≡ true
      → blank r.community ≡ false
      → env.publish_succeeds ≡ true
      → let a = handle db config env r s in
        let e = (db.delete_community r.community s).1 in
        (response_code a.writer
          ≡ elim e [ ok _ ↦ 200 | err x ↦ if is_missing db config env x then 404 else 500 ])
        × (a.kicks ≡ elim e [ ok _ ↦ record { community = r.community } ∷ [] | err x ↦ [] ])
  unfolding handle recover response_code write_header delete_community
  handle_delete_status v h c p = (ground arith, ground arith)

  -- The status of a GET that names a community and a password: 401 for a wrong password or disabled
  -- ephemeral communities, 500 on any other error of the store, and none, so that the upgrade can
  -- follow, if the client was added.
  pub handle_join_status :
      r.verb ≡ get
      → blank r.community ≡ false
      → blank r.password ≡ false
      → let a = handle db config env r s in
        let e =
          (db.add_clients_to_community env.salt r.community r.password config.ephemeral_communities
            s).1 in
        a.writer.status ≡ elim e [
          | ok _ ↦ none
          | err x ↦ if is_unauthorized db config env x then some 401 else some 500
        ]
  unfolding handle recover write_header join_community
  handle_join_status v c p = ground arith
