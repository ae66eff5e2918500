-- ===== src/Conn/Named/Loop/Delivered.antt =====
-- What the named adapter hands to its user of the data channels of a peer.
use mathlib.Core.Path.{subst}
use mathlib.Core.List.{append-nil, append_assoc}
use weron.Prelude.{
  Bool-cases, str_eq_refl, contains, lookup, insert, String, ◌≡◌, refl, sym, ap, inl, inr, true,
  false, none, List, [], ◌∷◌, ◌++◌, map, arith, str_eq,
}
use weron.Conn.Negotiation.{NamedAdapterConfig, is_unnamed}
use weron.Conn.Named.{Link, Links, Named, links_at, copy_links, accept, claim}
use weron.Conn.Named.Tables.{accept_all, renamed, entries, is_distinct, AllOf, Unknown}
use weron.Conn.Named.Loop.{
  idle, free, by_claim, Hub, is_of, is_served, receives, takes, hands, claims, releases, finds_name,
  Reach, here, next,
}
use weron.Conn.Named.Delivery.{all_gathered, claim-gathered}

-- A hub whose loop and lock are free.
abbrev pub at_rest : Hub → Named → List Link → Hub
at_rest s peers accepted = record s {
  peers = peers;
  position = idle;
  holder = free;
  accepted = accepted;
}

both_empty : {A : Type 0} → (xs ys : List A) → xs ++ ys ≡ [] → (xs ≡ []) × (ys ≡ [])
both_empty [] ys e = (refl, e)
both_empty (x ∷ xs) ys e = cc

module _ (id_channel : String) (config : NamedAdapterConfig) where
  Reach_trans :
      {s t u : Hub}
      → Reach id_channel config s t
      → Reach id_channel config t u
      → Reach id_channel config s u
  Reach_trans r here = r
  Reach_trans r (next q st) = next (Reach_trans r q) st

  -- The loop takes data channels of which none is to be handed over.
  receives_all :
      (ls : List Link) (s : Hub) (t : Named) (a : List Link)
      → (accept_all id_channel ls t).1 ≡ []
      → Reach id_channel config (at_rest s t a) (at_rest s (accept_all id_channel ls t).0 a)
  unfolding accept_all
  receives_all [] s t a e = here
  receives_all (l ∷ ls) s t a e =
      let (none_now, none_later) = both_empty (accept id_channel l t).1 _ e in
      let taken : Reach id_channel config (at_rest s t a) (at_rest s (accept id_channel l t).0 a) =
        next (next here (receives l refl)) (takes l refl refl none_now) in
      Reach_trans taken (receives_all ls s (accept id_channel l t).0 a none_later)

  -- With a name, each peer that a goroutine sends on `namedPeers` is sent on `acceptedPeers`.
  sends_all :
      (xs : List Link) (s : Hub) (t : Named) (a : List Link)
      → is_unnamed s.own ≡ false
      → Reach id_channel config
          (record (at_rest s t a) { holder = by_claim xs })
          (record (at_rest s t (a ++ xs)) { holder = by_claim [] })
  sends_all [] s t a n =
      subst
        (λ b.
          Reach id_channel config (record (at_rest s t a) { holder = by_claim [] })
            (record (at_rest s t b) { holder = by_claim [] }))
        (sym (append-nil a)) here
  sends_all (x ∷ xs) s t a n =
      let one = next (next here (hands x xs refl refl)) (finds_name [] x s.spawned refl n) in
      subst
        (λ b.
          Reach id_channel config (record (at_rest s t a) { holder = by_claim (x ∷ xs) })
            (record (at_rest s t b) { holder = by_claim [] }))
        (append_assoc a (x ∷ []) xs) (Reach_trans one (sends_all xs s t (a ++ x ∷ []) n))

  is_served-insert :
      (q k : String) (p : Links) (t : Named)
      → is_of id_channel q (lookup id_channel p) ≡ true
      → is_served id_channel q (insert k p t) ≡ true
  unfolding is_served insert
  is_served-insert q k p [] e = ground (arith, e)
  is_served-insert q k p ((j, v) ∷ t) e = ground (arith, e, is_served-insert q k p t e)

  is_of-entries :
      (q : String) (ls : List Link)
      → AllOf q ls
      → contains id_channel (map (λ x. x.channel_id) ls) ≡ true
      → is_of id_channel q (lookup id_channel (entries ls)) ≡ true
  unfolding lookup contains
  is_of-entries q [] a h = ground (arith, h)
  is_of-entries q (l ∷ ls) a h = elim (Bool-cases (str_eq l.channel_id id_channel)) [
    | inl t ↦ rw (t, a.0) (str_eq_refl q)
    | inr t ↦ rw t (is_of-entries q ls a.1 (ground (arith, h, t)))
  ]

  -- However many data channels of a peer come before the peer claims its name, with any other peers
  -- in the table: there is a schedule by which an adapter that has a name comes to a state in which its
  -- loop and its lock are free and each of these channels but the ID channel is accepted under the
  -- name of the peer, exactly once, if the peer was not in the table before, its ID is not the name,
  -- no two of the channels are the same, and one of them is the ID channel. The schedule handles one
  -- thing after the other and takes the channels of a peer in the order of the list in the model, where
  -- Go goes through a map in any order; by other schedules the adapter can deadlock.
  pub claimed_accepted :
      (q n : String) (l : Link) (ls : List Link) (s : Hub) (t : Named) (a : List Link)
      → is_unnamed s.own ≡ false
      → Unknown q t
      → lookup q t ≡ none
      → str_eq q n ≡ false
      → AllOf q (l ∷ ls)
      → is_distinct [] (l ∷ ls) ≡ true
      → contains id_channel (map (λ x. x.channel_id) (l ∷ ls)) ≡ true
      → (u : Named) × Reach id_channel config
          (at_rest s t a)
          (at_rest s u (a ++ renamed id_channel n (l ∷ ls)))
  claimed_accepted q n l ls s t a named u h ne of d own =
      let xs = renamed id_channel n (l ∷ ls) in
      let table = copy_links (entries (l ∷ ls)) (links_at n t) in
      let gathered_all = all_gathered id_channel q t u l ls of h d in
      let claimed_all : claim id_channel q n (accept_all id_channel (l ∷ ls) t).0
          ≡ (insert n table t, xs) =
        rw gathered_all (claim-gathered id_channel q t u n (l ∷ ls) h ne) in
      let received = receives_all (l ∷ ls) s t a (ap (λ r. r.1) gathered_all) in
      let served : is_served id_channel q (accept_all id_channel (l ∷ ls) t).0 ≡ true =
        rw gathered_all
          (is_served-insert q q (entries (l ∷ ls)) t (is_of-entries q (l ∷ ls) of own)) in
      let sending_all : Reach id_channel config (at_rest s t a)
          (record (at_rest s (insert n table t) a) { holder = by_claim xs }) =
        subst
          (λ r.
            Reach id_channel config (at_rest s t a)
              (record (at_rest s r.0 a) { holder = by_claim r.1 }))
          claimed_all (next received (claims q n served refl)) in
      (
        insert n table t,
        next (Reach_trans sending_all (sends_all xs s (insert n table t) a named)) (releases refl),
      )
