-- ===== src/Signaler/Tally/Interleaving.antt =====
-- pkg/wrtcsgl/wrtcsgl.go with the memory store: sessions that come and go in any order.
use mathlib.Core.Path.{subst}
use weron.Prelude.{ok, err, ℕ, suc, ◌<◌, String, ◌≡◌, refl, sym, ◌∙◌, Bool}
use weron.Prelude.Int64.{int_max}
use weron.Persister.{Error, Bcrypt}
use weron.Persister.Registry.{Registry, adds, removes, creates, step, Distinct, Represents}
use weron.Persister.Memory.{
  Store, find, add_clients_to_community, create_persistent_community, remove_client_from_community,
}
use weron.Persister.Memory.Refines.{call_store, call_store-Agree}
use weron.Signaler.Tally.{
  System, recount, Matches, Tallied, connect-Tallied, refuse-Tallied, disconnect-Tallied,
  post-Tallied,
}

-- The store, and the number of sessions that each community has.
pub record Server : Type 0 where
  pub store : Store
  pub sessions : String → ℕ

-- One step of the handlers: a join that the store accepts or refuses, the deferred call when a
-- session ends, and the creation of a community.
pub data Step (b : Bcrypt) (s : Server) : Server → Type 0 where
  connect :
      (salt : ℕ) (k password : String) (upsert : Bool)
      → (add_clients_to_community b salt k password upsert s.store).1 ≡ ok tt
      → s.sessions k < int_max
      → Step b s (record {
        store = (add_clients_to_community b salt k password upsert s.store).0;
        sessions = recount k (suc (s.sessions k)) s.sessions;
      })
  refuse :
      (salt : ℕ) (k password : String) (upsert : Bool) (e : Error)
      → (add_clients_to_community b salt k password upsert s.store).1 ≡ err e
      → Step b s (record {
        store = (add_clients_to_community b salt k password upsert s.store).0;
        sessions = s.sessions;
      })
  disconnect :
      (k : String) (n : ℕ)
      → s.sessions k ≡ suc n
      → Step b s (record {
        store = (remove_client_from_community k s.store).0;
        sessions = recount k n s.sessions;
      })
  post_community :
      (salt : ℕ) (k password : String)
      → Step b s (record {
        store = (create_persistent_community b salt k password s.store).0;
        sessions = s.sessions;
      })

pub data Reach (b : Bcrypt) (s : Server) : Server → Type 0 where
  here : Reach b s s
  next : {t u : Server} → Reach b s t → Step b t u → Reach b s u

-- No community is stored twice, and the row of each has as many clients as it has sessions.
abbrev pub Balanced : Server → Type 0
Balanced s = Distinct s.store × ((j : String) → Matches (find j s.store) (s.sessions j))

abbrev system_of : Server → System
system_of s = record { registry = λ j. find j s.store; sessions = s.sessions }

own_registry : (p : Store) → Distinct p → Represents p (λ j. find j p)
own_registry p d = record { distinct = d; agrees = λ j. refl }

-- A store with the rows of a registry that is tallied.
represented :
    (p : Store) (m : Registry) (sessions : String → ℕ)
    → Represents p m
    → Tallied (record { registry = m; sessions = sessions })
    → Balanced (record { store = p; sessions = sessions })
represented p m sessions h t =
    (h.distinct, λ j. subst (λ r. Matches r (sessions j)) (sym (h.agrees j)) (t j))

Step-Balanced : (b : Bcrypt) {s t : Server} → Balanced s → Step b s t → Balanced t
unfolding call_store step
Step-Balanced b {s} (d, h) (connect salt k password upsert e room) =
    let a = call_store-Agree (own_registry s.store d) b (adds salt k password upsert) refl in
    represented _ _ _ a.0 (connect-Tallied b (system_of s) h salt k password (sym a.1 ∙ e) room)
Step-Balanced b {s} (d, h) (refuse salt k password upsert x e) =
    let a = call_store-Agree (own_registry s.store d) b (adds salt k password upsert) refl in
    represented _ _ _ a.0 (refuse-Tallied b (system_of s) h salt k password x (sym a.1 ∙ e))
Step-Balanced b {s} (d, h) (disconnect k n e) =
    let a = call_store-Agree (own_registry s.store d) b (removes k) refl in
    represented _ _ _ a.0 (disconnect-Tallied b (system_of s) h k n e)
Step-Balanced b {s} (d, h) (post_community salt k password) =
    let a = call_store-Agree (own_registry s.store d) b (creates salt k password) refl in
    represented _ _ _ a.0 (post-Tallied b (system_of s) h salt k password)

-- However joins, refused joins, ends of sessions and creations of communities interleave, as long as
-- no community is deleted and no cleanup runs: from a server whose store has no community twice and
-- in which every community has as many clients as sessions, and only a persistent one has none, only
-- such servers are reached.
pub Reach-Balanced : (b : Bcrypt) {s t : Server} → Balanced s → Reach b s t → Balanced t
Reach-Balanced b h here = h
Reach-Balanced b h (next r st) = Step-Balanced b (Reach-Balanced b h r) st
