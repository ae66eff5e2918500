-- ===== src/Conn/Named/Delivery.antt =====
-- What is sent on `namedPeers` of the data channels of one peer.
use mathlib.Core.List.{append-nil, append_assoc}
use weron.Prelude.{
  str_eq_refl, contains, lookup, insert, lookup-insert, String, ◌≡◌, refl, true, false, none, List,
  [], ◌∷◌, ◌++◌, map, arith, eq_iff, str_eq,
}
use weron.Conn.Named.{Link, Links, Named, links_at, has_peer, copy_links, accept, claim}
use weron.Conn.Named.Tables.{
  accept_all, renamed, entries, is_distinct, AllOf, Unknown, candidate_of-Unknown, candidate_insert,
  insert_twice, delete-insert-insert, hand_on-entries, renamed-append, has_peer-insert,
  has_peer-copied, insert-entries,
}

module _ (id_channel q : String) (t : Named) (u : Unknown q t) where
  -- Before the name is claimed, the channels gather under the ID.
  accept_known :
      (l : Link) (ls : Links)
      → l.peer_id ≡ q
      → accept id_channel l (insert q ls t) ≡ (insert q (insert l.channel_id l ls) t, [])
  unfolding accept
  accept_known l ls e = ground (
    arith,
    e,
    candidate_insert q q ls t q,
    lookup-insert q q ls t,
    str_eq_refl q,
    insert_twice q (insert l.channel_id l ls) ls t,
  )

  pub accept_first :
      (l : Link)
      → l.peer_id ≡ q
      → lookup q t ≡ none
      → accept id_channel l t ≡ (insert q ((l.channel_id, l) ∷ []) t, [])
  unfolding accept insert
  accept_first l e n = ground (arith, e, n, candidate_of-Unknown q t q, str_eq_refl q)

  gathered :
      (before ls : List Link)
      → AllOf q ls
      → is_distinct before ls ≡ true
      → accept_all id_channel ls (insert q (entries before) t)
        ≡ (insert q (entries (before ++ ls)) t, [])
  unfolding accept_all is_distinct
  gathered before [] a d = rw append-nil refl
  gathered before (l ∷ ls) a d =
      let is_new : contains l.channel_id (map (λ x. x.channel_id) before) ≡ false =
        ground (arith, d) in
      let rest : is_distinct (before ++ l ∷ []) ls ≡ true = ground (arith, d) in
      let one : accept id_channel l (insert q (entries before) t)
          ≡ (insert q (entries (before ++ l ∷ [])) t, []) =
        rw (← insert-entries l before is_new) (accept_known l (entries before) a.0) in
      rw (one, gathered (before ++ l ∷ []) ls a.1 rest, append_assoc) refl

  pub all_gathered :
      (l : Link) (ls : List Link)
      → AllOf q (l ∷ ls)
      → lookup q t ≡ none
      → is_distinct [] (l ∷ ls) ≡ true
      → accept_all id_channel (l ∷ ls) t ≡ (insert q (entries (l ∷ ls)) t, [])
  unfolding accept_all is_distinct contains
  all_gathered l ls a h d = rw (accept_first l a.0 h, gathered (l ∷ []) ls a.1 d) refl

  -- After it, each of them is sent at once.
  accept_named :
      (n : String) (l : Link) (p : Links)
      → l.peer_id ≡ q
      → has_peer q p ≡ true
      → str_eq n q ≡ false
      → accept id_channel l (insert n p t)
        ≡ (insert n (insert l.channel_id l p) t, renamed id_channel n (l ∷ []))
  unfolding accept renamed
  accept_named n l p e h ne = ground (
    arith,
    e,
    h,
    ne,
    candidate_insert q n p t q,
    lookup-insert n n p t,
    str_eq_refl n,
    insert_twice n (insert l.channel_id l p) p t,
  )

  all_named :
      (n : String) (ls : List Link) (p : Links)
      → AllOf q ls
      → has_peer q p ≡ true
      → str_eq n q ≡ false
      → (accept_all id_channel ls (insert n p t)).1 ≡ renamed id_channel n ls
  unfolding accept_all renamed
  all_named n [] p a h ne = refl
  all_named n (l ∷ ls) p a h ne =
      let ih =
        all_named n ls (insert l.channel_id l p) a.1 (has_peer-insert q l.channel_id l p a.0) ne in
      rw (accept_named n l p a.0 h ne) (ground (arith, ih))

  pub claim-gathered :
      (n : String) (ls : List Link)
      → lookup q t ≡ none
      → str_eq q n ≡ false
      → claim id_channel q n (insert q (entries ls) t)
        ≡ (insert n (copy_links (entries ls) (links_at n t)) t, renamed id_channel n ls)
  unfolding claim
  claim-gathered n ls h ne =
      let own : links_at q (insert q (entries ls) t) ≡ entries ls =
        ground (arith, lookup-insert q q (entries ls) t, str_eq_refl q) in
      let theirs : links_at n (insert q (entries ls) t) ≡ links_at n t =
        ground (arith, lookup-insert n q (entries ls) t, ne) in
      let r = copy_links (entries ls) (links_at n t) in
      rw
        (
          own,
          theirs,
          delete-insert-insert q n (entries ls) r t h ne,
          hand_on-entries id_channel n ls,
        )
        refl

-- What is sent on `namedPeers` of the data channels of a peer that come before and after it claims its
-- name: each but the ID channel under that name, once and in the order in which they came, if the
-- peer was not in the table before, its ID is not the name, at least one channel comes before the
-- claim and no two of those are the same. Whether these sends are received is said in Loop/.
pub claimed_delivery :
    (id_channel q n : String) (l : Link) (ls later : List Link) (t : Named)
    → Unknown q t
    → lookup q t ≡ none
    → str_eq q n ≡ false
    → AllOf q (l ∷ ls)
    → AllOf q later
    → is_distinct [] (l ∷ ls) ≡ true
    → let (t1, before) = accept_all id_channel (l ∷ ls) t in
      let (t2, at_claim) = claim id_channel q n t1 in
      let (t3, after) = accept_all id_channel later t2 in
      before ++ (at_claim ++ after) ≡ renamed id_channel n ((l ∷ ls) ++ later)
claimed_delivery id_channel q n l ls later t u h ne a b d =
    let first : accept_all id_channel (l ∷ ls) t ≡ (insert q (entries (l ∷ ls)) t, []) =
      all_gathered id_channel q t u l ls a h d in
    let r = copy_links (entries (l ∷ ls)) (links_at n t) in
    let known : has_peer q r ≡ true = has_peer-copied q l ls (links_at n t) a in
    let ne' : str_eq n q ≡ false = ground (arith, ne, eq_iff n q, eq_iff q n) in
    rw
      (
        first,
        claim-gathered id_channel q t u n (l ∷ ls) h ne,
        all_named id_channel q t u n later r b known ne',
        renamed-append id_channel n (l ∷ ls) later,
      )
      refl
