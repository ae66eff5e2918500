-- ===== src/Ip/Device/Reaching.antt =====
-- A packet for an address of a peer reaches that peer.
use mathlib.Core.Path.{subst}
use weron.Prelude.{
  Bool-cases, Option-cases, str_eq_refl, contains, lookup, insert, lookup-insert, ℕ, String, ◌≡◌,
  refl, sym, ap, ◌∙◌, inl, inr, true, Option, some, List, [], ◌∷◌, arith, eq_iff, str_eq,
}
use weron.Encryption.{Bytes}
use weron.Ip.Routing.{ip_equal, Peer, Cidr, add_peers}
use weron.Conn.Signaling.{is_member}
use weron.Ip.Device.Broadcast.{
  forward_packet-lookup, AllBroadcast, forward_packet-some, entry, is_recipient_own, AllPlain,
  add_peers_skip, add_peers_next, add_peers-AllBroadcast,
}
use weron.Ip.Device.{is_any_valid, join_peer, destination, route}

-- The text of an address says which address it is.
abbrev pub SameAddress : (String → Option Cidr) → Type 0
SameAddress parse_cidr =
    (x y : String) (c d : Cidr)
    → parse_cidr x ≡ some c
    → parse_cidr y ≡ some d
    → c.ip_string ≡ d.ip_string
    → c.ip ≡ d.ip

-- An entry of the connection for the address.
abbrev pub Stands : ℕ → Cidr → List (String × Peer) → Type 0
Stands conn c peers =
    (q : Peer) × (lookup c.ip_string peers ≡ some q) × (q.conn ≡ conn) × (q.ip ≡ c.ip)

module _ (parse_cidr : String → Option Cidr) (law : SameAddress parse_cidr) (conn : ℕ)
    (raw : String) (c : Cidr) (r : parse_cidr raw ≡ some c) where
  insert-Stands :
      (x : String) (d : Cidr) (peers : List (String × Peer))
      → parse_cidr x ≡ some d
      → Stands conn c peers
      → Stands conn c (insert d.ip_string (entry conn d) peers)
  insert-Stands x d peers e (p, f, a, b) = elim (Bool-cases (str_eq d.ip_string c.ip_string)) [
    | inl t ↦ (
      entry conn d,
      ground (arith, t, lookup-insert c.ip_string d.ip_string (entry conn d) peers),
      refl,
      law x raw d c e r ((eq_iff d.ip_string c.ip_string).0 t),
    )
    | inr t ↦
        (p, ground (arith, t, f, lookup-insert c.ip_string d.ip_string (entry conn d) peers), a, b)
  ]

  -- Once it is there, it stays while the loop goes on.
  add_peers-kept :
      (ips : List String) (peers : List (String × Peer))
      → Stands conn c peers
      → Stands conn c (add_peers parse_cidr conn ips peers)
  unfolding add_peers
  add_peers-kept [] peers h = h
  add_peers-kept (x ∷ ips) peers h = elim (Option-cases (parse_cidr x)) [
    | inl n ↦
        subst (Stands conn c) (sym (add_peers_skip parse_cidr conn x ips peers n))
          (add_peers-kept ips peers h)
    | inr (d, e) ↦
        subst (Stands conn c) (sym (add_peers_next parse_cidr conn x d ips peers e)) (
          add_peers-kept ips (insert d.ip_string (entry conn d) peers)
            (insert-Stands x d peers e h))
  ]

  insert_own :
      (peers : List (String × Peer)) → Stands conn c (insert c.ip_string (entry conn c) peers)
  insert_own peers = (
    entry conn c,
    ground (
      arith,
      lookup-insert c.ip_string c.ip_string (entry conn c) peers,
      str_eq_refl c.ip_string,
    ),
    refl,
    refl,
  )

  pub add_peers-Stands :
      (ips : List String) (peers : List (String × Peer))
      → contains raw ips ≡ true
      → Stands conn c (add_peers parse_cidr conn ips peers)
  unfolding contains
  add_peers-Stands [] peers h = cc
  add_peers-Stands (x ∷ ips) peers h = elim (Bool-cases (str_eq x raw)) [
    | inl t ↦
        let same : parse_cidr x ≡ some c = ap parse_cidr ((eq_iff x raw).0 t) ∙ r in
        subst (Stands conn c) (sym (add_peers_next parse_cidr conn x c ips peers same))
          (add_peers-kept ips (insert c.ip_string (entry conn c) peers) (insert_own peers))
    | inr t ↦ elim (Option-cases (parse_cidr x)) [
      | inl n ↦
          subst (Stands conn c) (sym (add_peers_skip parse_cidr conn x ips peers n))
            (add_peers-Stands ips peers (ground (arith, h, t)))
      | inr (d, e) ↦
          subst (Stands conn c) (sym (add_peers_next parse_cidr conn x d ips peers e))
            (add_peers-Stands ips (insert d.ip_string (entry conn d) peers) (ground (arith, h, t)))
    ]
  ]

pub is_any_valid-contains :
    (parse_cidr : String → Option Cidr) (unmarshal : String → Option (List String)) (raw : String)
    (c : Cidr) (ips : List String)
    → parse_cidr raw ≡ some c
    → contains raw ips ≡ true
    → is_any_valid parse_cidr unmarshal ips ≡ true
unfolding is_any_valid contains
is_any_valid-contains parse_cidr unmarshal raw c [] r h = cc
is_any_valid-contains parse_cidr unmarshal raw c (x ∷ ips) r h = elim (Bool-cases (str_eq x raw)) [
  | inl t ↦ ground (arith, r, ap parse_cidr ((eq_iff x raw).0 t))
  | inr t ↦ ground (arith, t, h, is_any_valid-contains parse_cidr unmarshal raw c ips r)
]

-- A peer that joins under a name with a valid address: its packets are read, and a packet of the
-- device to that address, in 4 or in 16 bytes, is sent to it, whatever peers were there before, if the
-- network of each peer with an IPv4 address, and of each such address of the name, has an address and
-- a mask in four bytes, that is, none is mapped into IPv6; and if texts of addresses are equal for
-- equal addresses only.
pub route-join_peer :
    (parse_cidr : String → Option Cidr) (unmarshal : String → Option (List String))
    (decode_v4 decode_v6 : Bytes → Option Bytes) (conn : ℕ) (peer_id raw : String)
    (ips : List String) (c : Cidr) (buf dst : Bytes) (peers : List (String × Peer))
    → SameAddress parse_cidr
    → AllPlain parse_cidr conn ips
    → AllBroadcast peers
    → unmarshal peer_id ≡ some ips
    → contains raw ips ≡ true
    → parse_cidr raw ≡ some c
    → destination decode_v4 decode_v6 buf ≡ some dst
    → ip_equal dst c.ip ≡ true
    → let (joined, reads) = join_peer parse_cidr unmarshal conn peer_id peers in
      (reads ≡ true)
      × ((conns : List ℕ) × (route decode_v4 decode_v6 buf joined ≡ some conns)
          × (is_member conn conns ≡ true))
unfolding join_peer route
route-join_peer parse_cidr unmarshal decode_v4 decode_v6 conn peer_id raw ips c buf dst peers law
      plain all u h r d same =
    let (q, f, a, b) = add_peers-Stands parse_cidr law conn raw c r ips peers h in
    let (conns, sends) =
      forward_packet-some dst (add_peers parse_cidr conn ips peers)
        (add_peers-AllBroadcast parse_cidr conn ips peers plain all) in
    let there =
      forward_packet-lookup dst c.ip_string q (add_peers parse_cidr conn ips peers) conns f
        (is_recipient_own dst c.ip q same b) sends in
    (
      ground (arith, u, is_any_valid-contains parse_cidr unmarshal raw c ips r h),
      (conns, ground (arith, u, d, sends), ground (arith, there, a)),
    )
