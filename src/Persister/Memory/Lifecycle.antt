-- ===== src/Persister/Memory/Lifecycle.antt =====
-- A client that joins and leaves, and the list of communities.
use mathlib.Core.List.{append-nil}
use weron.Persister.{Community, Bcrypt}
use weron.Persister.Memory.Finds.{
  find-append, find-set_clients, find-without, without_absent, without-append, set_clients_twice,
  set_clients_same, count_matching-find,
}
use mathlib.Core.Option
use weron.Persister.Memory.Distinct.{find-cleanup}
use weron.Persister.Registry.{left, Distinct}
use weron.Prelude.{
  ltb, if◌then◌else◌, Option-cases, str_eq_refl, ok, ℕ, zero, suc, ◌≤◌, String, ◌≡◌, refl, ap, inl,
  inr, Bool, true, false, ◌||◌, Option, none, some, List, [], ◌∷◌, ◌++◌, arith, eq_iff, str_eq,
}
use weron.Prelude.Int64.{ℤ, pos, int_max, increment, decrement, is_positive, increment-pos}
use weron.Persister.Memory.{
  Row, Store, find, with_clients, set_clients, without, new_row, add_clients_to_community,
  remove_client_from_community, cleanup, get_communities, delete_community,
}

-- A count that a client can be added to.
abbrev pub CanGrow : Row → Type 0
CanGrow c = (n : ℕ) × (c.clients ≡ pos n) × (suc n ≤ int_max) × ((c.persistent || ltb 0 n) ≡ true)

pub find_set :
    (k : String) (n : ℤ) (p : Store) (c : Row)
    → find k p ≡ some c
    → find k (set_clients k n p) ≡ some (with_clients n c)
find_set k n p c e = ground (arith, find-set_clients k k n p, eq_iff k k)

rejoin_counts :
    (k : String) (p : Store) (c : Row) (n : ℕ)
    → find k p ≡ some c
    → c.clients ≡ pos n
    → suc n ≤ int_max
    → ((c.persistent || ltb 0 n) ≡ true)
    → remove_client_from_community k (set_clients k (pos (suc n)) p)
      ≡ (set_clients k (pos n) (set_clients k (pos (suc n)) p), ok tt)
unfolding remove_client_from_community decrement is_positive
rejoin_counts k p c zero e g h z =
    rw (find_set k (pos 1) p c e, remove_client_from_community) (ground (arith, z))
rejoin_counts k p c (suc n) e g h z =
    rw (find_set k (pos (suc (suc n))) p c e, remove_client_from_community) refl

rejoin_known :
    (k : String) (p : Store) (c : Row)
    → find k p ≡ some c
    → CanGrow c
    → remove_client_from_community k (set_clients k (increment c.clients) p) ≡ (p, ok tt)
rejoin_known k p c e (n, g, h, z) =
    rw
      (
        g,
        increment-pos n h,
        rejoin_counts k p c n e g h z,
        set_clients_twice k (pos (suc n)) (pos n) p,
      )
      (ground (arith, set_clients_same k p c e))

pub find_single :
    (k hash : String)
    → find k (new_row k hash (pos 1) false ∷ []) ≡ some (new_row k hash (pos 1) false)
unfolding find
find_single k hash = ground (arith, eq_iff k k)

without_single : (k hash : String) → without k (new_row k hash (pos 1) false ∷ []) ≡ []
unfolding without
without_single k hash = ground (arith, eq_iff k k)

rejoin_new :
    (k hash : String) (p : Store)
    → find k p ≡ none
    → remove_client_from_community k (p ++ new_row k hash (pos 1) false ∷ []) ≡ (p, ok tt)
unfolding remove_client_from_community decrement is_positive
rejoin_new k hash p e =
    rw
      (
        find-append k p (new_row k hash (pos 1) false ∷ []),
        e,
        find_single k hash,
        remove_client_from_community,
        without-append k p (new_row k hash (pos 1) false ∷ []),
        without_single k hash,
        without_absent k p e,
        append-nil,
      )
      refl

-- A client that joins a community, new or known, and leaves it again takes both steps without an
-- error and leaves the store as it was, if a hash is at hand, and for a known community the
-- password matches and its row has a count below the greatest `int`, 0 for a persistent one only.
-- That is so for either value of `upsert`, which the memory store does not read: where ephemeral
-- communities are disabled, a new one is created all the same, contrary to the flag's description.
pub remove_client-add_clients :
    (b : Bcrypt) (salt : ℕ) (k password hash : String) (upsert : Bool) (p : Store)
    → b.generate salt password ≡ some hash
    → ((c : Row) → find k p ≡ some c → (b.compare_ok c.password password ≡ true) × CanGrow c)
    → let (p', r) = add_clients_to_community b salt k password upsert p in
      (r ≡ ok tt) × (remove_client_from_community k p' ≡ (p, ok tt))
unfolding add_clients_to_community
remove_client-add_clients b salt k password hash upsert p e may = elim (Option-cases (find k p)) [
  | inl n ↦ rw (e, n, add_clients_to_community) (refl, rejoin_new k hash p n)
  | inr (c, s) ↦
      let (t, g) = may c s in rw (e, s, t, add_clients_to_community) (refl, rejoin_known k p c s g)
]

-- The first listed community with an ID.
unfoldable pub listed : String → List Community → Option Community
listed k [] = none
listed k (c ∷ cc) = if str_eq c.id k then some c else listed k cc

-- `GetCommunities` lists the store: under each ID, the community of the row that is found for it,
-- with its own count and flag, and nothing under any other ID.
pub listed-get_communities :
    (k : String) (p : Store)
    → listed k (get_communities p) ≡ Option.map (λ c. c.community) (find k p)
unfolding listed get_communities find
listed-get_communities k [] = refl
listed-get_communities k (c ∷ p) = ground (arith, listed-get_communities k p)

-- After the memory store's `Cleanup` of a store with no ID twice, a persistent community is gone,
-- and an ephemeral one is still there with its password and no clients, which is the opposite of
-- what the comments in it and the `--cleanup` flag promise.
pub find-cleanup_inverted :
    (k : String) (p : Store) (c : Row)
    → Distinct p
    → find k p ≡ some c
    → find k (cleanup p) ≡ (if c.persistent then none else some (with_clients (pos 0) c))
find-cleanup_inverted k p c d e = rw (find-cleanup k p d, e)

gone : (k : String) (p : Store) → find k (without k p) ≡ none
gone k p = rw (find-without k k p, str_eq_refl k) refl

joined_anew :
    (b : Bcrypt) (salt : ℕ) (k password hash : String) (upsert : Bool) (p : Store)
    → b.generate salt password ≡ some hash
    → find k p ≡ none
    → Option.map (λ d. d.clients) (find k (add_clients_to_community b salt k password upsert p).0)
      ≡ some (pos 1)
unfolding add_clients_to_community
joined_anew b salt k password hash upsert p g n =
    rw
      (
        g,
        n,
        add_clients_to_community,
        find-append k p (new_row k hash (pos 1) false ∷ []),
        n,
        find_single k hash,
      )
      refl

-- Deleting a community does not end its sessions at once, and the `RemoveClientFromCommunity` of a
-- session that ends later acts on a new community of that name: if a community is deleted and a
-- client joins one of the same name, which then has one client, that call returns nil and the new
-- community is gone, although its client is still connected.
pub remove_client-recreated :
    (b : Bcrypt) (salt : ℕ) (k password hash : String) (upsert : Bool) (p : Store) (c : Row)
    → find k p ≡ some c
    → b.generate salt password ≡ some hash
    → let (p1, deleted) = delete_community k p in
      let (p2, joined) = add_clients_to_community b salt k password upsert p1 in
      let (p3, left) = remove_client_from_community k p2 in
      (deleted ≡ ok tt)
      × (joined ≡ ok tt)
      × (Option.map (λ d. d.clients) (find k p2) ≡ some (pos 1))
      × (left ≡ ok tt)
      × (find k p3 ≡ none)
unfolding delete_community
remove_client-recreated b salt k password hash upsert p c e g =
    let back =
      remove_client-add_clients b salt k password hash upsert (without k p) g
        (λ d f. absurd (ground (arith, f, gone k p))) in
    (
      rw (count_matching-find k p, e) refl,
      back.0,
      joined_anew b salt k password hash upsert (without k p) g (gone k p),
      ap (λ x. x.1) back.1,
      rw back.1 (gone k p),
    )
