-- ===== src/Signaler/Management/Roundtrip.antt =====
-- pkg/wrtcmgr against pkg/wrtcsgl with the memory store: what a manager gets back for its requests.
use mathlib.Core.List.{append-nil}
use weron.Persister.Memory.Lifecycle.{listed, listed-get_communities}
use weron.Prelude.{
  leb, blank, str_eq_refl, lookup, Result, ok, String, ◌≡◌, ap, true, false, Option, none, some,
  List, [], ◌∷◌, ◌++◌, arith,
}
use weron.Persister.{Community, Bcrypt}
use weron.Persister.Memory.{Row, Store, find, without, new_row, count_matching}
use weron.Persister.Memory
use weron.Signaler.{SignalerConfig, management_api_enabled, get, post, delete_method, response_code}
use weron.Signaler.Handler
use weron.Signaler.Handler.{Env, Reply, recover, list_communities, create_community, handle}
use weron.Manager
use weron.Manager.{HttpRequest, HttpResponse, ManagerError, Manager}
use weron.Prelude.Int64.{pos}
use weron.Persister.Memory.Finds.{find-append, without_absent, without-append, count_matching-find}
use weron.Signaler.Management.{memory_persister, http_request, both, only, Web, Json}

-- A managed server with the store `p`, and a manager whose credentials it takes.
module _ (b : Bcrypt) (config : SignalerConfig) (env : Env) (m : Manager)
    (community password hash : String) (p : Store) (web : Web m community password)
    (json : Json env
      (new_row community hash (pos 0) true).community
      (Memory.get_communities (p ++ new_row community hash (pos 0) true ∷ []))) where
  abbrev pub reply : HttpRequest → Store → Reply Store
  reply r q = handle (memory_persister b) config env (web.read_request r) q

  -- The response as the client gets it.
  abbrev pub respond_of : Reply Store → Option HttpResponse
  respond_of r = some (record {
    status = response_code r.writer;
    body = some (elim r.writer.body [ none ↦ "" | some j ↦ j ]);
  })

  abbrev pub respond : Store → HttpRequest → Option HttpResponse
  respond q r = respond_of (reply r q)

  -- The three operations of the manager on a server with the store `q`.
  abbrev pub created : Store → Result ManagerError Community
  created q =
      Manager.create_persistent_community web.with_query web.valid_request (respond q)
        json.unmarshal_community json.unmarshal_communities m community password

  abbrev pub all_listed : Store → Result ManagerError (List Community)
  all_listed q =
      Manager.list_communities web.with_query web.valid_request (respond q) json.unmarshal_community
        json.unmarshal_communities m

  abbrev pub deleted : Store → Result ManagerError (Unit {0})
  deleted q =
      Manager.delete_community web.with_query web.valid_request (respond q) json.unmarshal_community
        json.unmarshal_communities m community

  -- What the server does for them.
  abbrev pub creating : Store → Reply Store
  creating q = reply (http_request m post (web.address (both community password))) q

  abbrev pub deleting : Store → Reply Store
  deleting q = reply (http_request m delete_method (web.address (only community))) q

  abbrev pub row : Row
  row = new_row community hash (pos 0) true

  module _ (enabled : management_api_enabled config ≡ true)
      (valid : env.validate m.username m.password ≡ true) (prints_ok : env.print_succeeds ≡ true)
      (publishes : env.publish_succeeds ≡ true) (named : blank community ≡ false)
      (secret : blank password ≡ false) (hashed : b.generate env.salt password ≡ some hash)
      (n : find community p ≡ none) where
    posted : creating p ≡ record {
      store = p ++ row ∷ [];
      writer = record { status = none; body = some json.community_text };
      kicks = [];
      joined = false;
      panicked = none;
    }
    unfolding handle recover create_community Memory.create_persistent_community lookup
    posted = rw web.reads_post (
        ground
          (arith, enabled, valid, prints_ok, named, secret, hashed, n, json.marshals_community))

    listed_reply : reply (http_request m get (web.address [])) (p ++ row ∷ []) ≡ record {
      store = p ++ row ∷ [];
      writer = record { status = none; body = some json.list_text };
      kicks = [];
      joined = false;
      panicked = none;
    }
    unfolding handle recover list_communities lookup blank
    listed_reply = rw web.reads_get (ground (arith, enabled, valid, prints_ok, json.marshals_list))

    without_created : without community (p ++ row ∷ []) ≡ p
    unfolding without
    without_created =
        rw (without-append community p (row ∷ []), without_absent community p n)
          (ground (arith, str_eq_refl community, append-nil p))

    find_created : find community (p ++ row ∷ []) ≡ some row
    unfolding find
    find_created = ground (arith, find-append community p (row ∷ []), str_eq_refl community)

    counted_created : leb (count_matching community (p ++ row ∷ [])) 0 ≡ false
    counted_created = rw (count_matching-find community (p ++ row ∷ []), find_created)

    deleted_reply : deleting (p ++ row ∷ []) ≡ record {
      store = p;
      writer = record { status = none; body = none };
      kicks = record { community = community } ∷ [];
      joined = false;
      panicked = none;
    }
    unfolding handle recover Handler.delete_community Memory.delete_community lookup
    deleted_reply =
        rw web.reads_delete
          (ground (arith, enabled, valid, publishes, named, without_created, counted_created))

    -- Management from end to end, on a managed server with the credentials of the manager and a
    -- community that is not stored, where the hash is made, the answers are written and the kick is
    -- published: creating it gives the manager the community, persistent and with no clients, and
    -- appends its row to the store; a list then holds it as it was created, among those that were
    -- there; and deleting it succeeds, publishes exactly one kick, which names that community, and gives
    -- back the store as it was.
    pub managed_round_trip :
        let p1 = p ++ row ∷ [] in
        (created p ≡ ok row.community)
        × ((creating p).store ≡ p1)
        × (all_listed p1 ≡ ok (Memory.get_communities p1))
        × (listed community (Memory.get_communities p1) ≡ some row.community)
        × (deleted p1 ≡ ok tt)
        × ((deleting p1).kicks ≡ record { community = community } ∷ [])
        × ((deleting p1).store ≡ p)
    unfolding response_code
    managed_round_trip = (
      Manager.create_accepted web.with_query web.valid_request (respond p) json.unmarshal_community
          json.unmarshal_communities m community password (web.address (both community password))
          json.community_text row.community (web.with_query-address (both community password))
          (web.valid-address (both community password)) (ap respond_of posted) json.reads_community,
      ap (λ r. r.store) posted,
      Manager.list_accepted web.with_query web.valid_request (respond (p ++ row ∷ []))
          json.unmarshal_community json.unmarshal_communities m (web.address []) json.list_text
          (Memory.get_communities (p ++ row ∷ [])) (web.with_query-address [])
          (web.valid-address []) (ap respond_of listed_reply) json.reads_list,
      rw (listed-get_communities community (p ++ row ∷ []), find_created),
      Manager.delete_accepted web.with_query web.valid_request (respond (p ++ row ∷ []))
          json.unmarshal_community json.unmarshal_communities m community
          (web.address (only community)) (some "") (web.with_query-address (only community))
          (web.valid-address (only community)) (ap respond_of deleted_reply),
      ap (λ r. r.kicks) deleted_reply,
      ap (λ r. r.store) deleted_reply,
    )
