-- ===== src/Conn/Named/Tables.antt =====
-- The table of peers: who is found under which name, and what the maps hold.
use mathlib.Core.List.{map-append}
use weron.Prelude.{
  if◌then◌else◌, str_eq_refl, contains, lookup, insert, delete, String, ◌≡◌, refl, sym, ◌∙◌, Bool,
  true, false, not, ◌&&◌, none, List, [], ◌∷◌, ◌++◌, map, arith, eq_iff, str_eq,
}
use weron.Conn.Named.{Link, Links, Named, has_peer, candidate_of, copy_links, accept, hand_on}

-- Data channels that are accepted one after the other.
unfoldable pub accept_all : String → List Link → Named → Named × List Link
accept_all id_channel [] peers = (peers, [])
accept_all id_channel (l ∷ ls) peers =
    let (t, out) = accept id_channel l peers in
    let (u, more) = accept_all id_channel ls t in (u, out ++ more)

-- All of them but the ID channels, under the name.
unfoldable pub renamed : String → String → List Link → List Link
renamed id_channel rid [] = []
renamed id_channel rid (l ∷ ls) =
    let rest = renamed id_channel rid ls in
    if str_eq l.channel_id id_channel then rest else record l { peer_id = rid } ∷ rest

abbrev pub entries : List Link → Links
entries = map (λ l. (l.channel_id, l))

-- No channel stands in the list twice, nor in the one before it.
unfoldable pub is_distinct : List Link → List Link → Bool
is_distinct before [] = true
is_distinct before (l ∷ ls) =
    not (contains l.channel_id (map (λ x. x.channel_id) before))
    && is_distinct (before ++ l ∷ []) ls

abbrev pub AllOf : String → List Link → Type 0
AllOf q [] = Unit
AllOf q (l ∷ ls) = (l.peer_id ≡ q) × AllOf q ls

-- No channel of the peer stands in the table, under any name.
abbrev pub Unknown : String → Named → Type 0
Unknown q [] = Unit
Unknown q ((k, p) ∷ t) = (has_peer q p ≡ false) × Unknown q t

pub candidate_of-Unknown :
    (q : String) (t : Named) (rid : String) → Unknown q t → candidate_of q t rid ≡ rid
unfolding candidate_of
candidate_of-Unknown q [] rid h = refl
candidate_of-Unknown q ((k, p) ∷ t) rid h = ground (arith, candidate_of-Unknown q t rid)

pub candidate_insert :
    (q k : String) (p : Links) (t : Named) (rid : String)
    → Unknown q t
    → candidate_of q (insert k p t) rid ≡ (if has_peer q p then k else rid)
unfolding candidate_of insert
candidate_insert q k p [] rid h = refl
candidate_insert q k p ((j, r) ∷ t) rid h =
    ground (
      arith,
      candidate_of-Unknown q t k,
      candidate_of-Unknown q t rid,
      candidate_insert q k p t rid,
    )

pub insert_twice {ℓ} :
    {V : Type ℓ} (k : String) (v w : V) (t : List (String × V))
    → insert k v (insert k w t) ≡ insert k v t
unfolding insert
insert_twice k v w [] = ground (arith, str_eq_refl k)
insert_twice k v w ((j, u) ∷ t) = ground (arith, str_eq_refl k, insert_twice k v w t)

pub insert_fresh :
    (k : String) (v : Link) (t : Links) → lookup k t ≡ none → insert k v t ≡ t ++ (k, v) ∷ []
unfolding insert lookup
insert_fresh k v [] h = refl
insert_fresh k v ((j, u) ∷ t) h = ground (arith, insert_fresh k v t)

pub lookup-entries :
    (k : String) (ls : List Link)
    → contains k (map (λ x. x.channel_id) ls) ≡ false
    → lookup k (entries ls) ≡ none
unfolding lookup contains
lookup-entries k [] h = refl
lookup-entries k (l ∷ ls) h = ground (arith, lookup-entries k ls)

pub delete-insert :
    (q : String) (p : Links) (t : Named) → lookup q t ≡ none → delete q (insert q p t) ≡ t
unfolding delete insert lookup
delete-insert q p [] h = ground (arith, str_eq_refl q)
delete-insert q p ((j, u) ∷ t) h = ground (arith, delete-insert q p t)

-- The name replaces the ID.
pub delete-insert-insert :
    (q k : String) (p r : Links) (t : Named)
    → lookup q t ≡ none
    → str_eq q k ≡ false
    → delete q (insert k r (insert q p t)) ≡ insert k r t
unfolding delete insert lookup
delete-insert-insert q k p r [] h n = ground (arith, str_eq_refl q, eq_iff q k, eq_iff k q)
delete-insert-insert q k p r ((j, u) ∷ t) h n = ground (
  arith,
  eq_iff j q,
  eq_iff j k,
  eq_iff q k,
  eq_iff k q,
  delete-insert q p t,
  delete-insert-insert q k p r t,
)

pub hand_on-entries :
    (id_channel rid : String) (ls : List Link)
    → hand_on id_channel rid (entries ls) ≡ renamed id_channel rid ls
unfolding hand_on renamed
hand_on-entries id_channel rid [] = refl
hand_on-entries id_channel rid (l ∷ ls) = ground (arith, hand_on-entries id_channel rid ls)

pub renamed-append :
    (id_channel rid : String) (xs ys : List Link)
    → renamed id_channel rid (xs ++ ys) ≡ renamed id_channel rid xs ++ renamed id_channel rid ys
unfolding renamed
renamed-append id_channel rid [] ys = refl
renamed-append id_channel rid (l ∷ ls) ys = ground (arith, renamed-append id_channel rid ls ys)

pub has_peer-insert :
    (q k : String) (l : Link) (p : Links) → l.peer_id ≡ q → has_peer q (insert k l p) ≡ true
unfolding has_peer insert
has_peer-insert q k l [] e = ground (arith, e, str_eq_refl q)
has_peer-insert q k l ((j, m) ∷ p) e = ground (arith, e, str_eq_refl q, has_peer-insert q k l p)

pub has_peer-copy_links :
    (q : String) (ls : List Link) (p : Links)
    → AllOf q ls
    → has_peer q p ≡ true
    → has_peer q (copy_links (entries ls) p) ≡ true
unfolding copy_links
has_peer-copy_links q [] p a h = h
has_peer-copy_links q (l ∷ ls) p a h =
    has_peer-copy_links q ls (insert l.channel_id l p) a.1 (has_peer-insert q l.channel_id l p a.0)

pub has_peer-copied :
    (q : String) (l : Link) (ls : List Link) (p : Links)
    → AllOf q (l ∷ ls)
    → has_peer q (copy_links (entries (l ∷ ls)) p) ≡ true
unfolding copy_links
has_peer-copied q l ls p a =
    has_peer-copy_links q ls (insert l.channel_id l p) a.1 (has_peer-insert q l.channel_id l p a.0)

pub insert-entries :
    (l : Link) (before : List Link)
    → contains l.channel_id (map (λ x. x.channel_id) before) ≡ false
    → insert l.channel_id l (entries before) ≡ entries (before ++ l ∷ [])
insert-entries l before h =
    insert_fresh l.channel_id l (entries before) (lookup-entries l.channel_id before h)
    ∙ sym (map-append (λ (x : Link). (x.channel_id, x)) before (l ∷ []))
