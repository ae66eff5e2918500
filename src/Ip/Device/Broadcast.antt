-- ===== src/Ip/Device/Broadcast.antt =====
-- When a packet of the device can be sent without a panic of `getBroadcastAddr`.
use mathlib.Core.Path.{}
use mathlib.Core.Path.{subst}
use weron.Prelude.{
  if◌then◌else◌, Bool-cases, Option-cases, All, lookup, insert, ℕ, String, ◌≡◌, refl, sym, ap, ◌∙◌,
  ◌≢◌, inl, inr, Bool, true, Option, none, some, List, [], ◌∷◌, arith, str_eq,
}
use weron.Encryption.{Bytes}
use weron.Ip.Routing.{
  to4, ip_equal, get_broadcast_addr, Peer, is_recipient, forward_packet, Cidr, add_peers,
}
use weron.Conn.Signaling.{is_member}

pub forward_packet-lookup :
    (dst : Bytes) (key : String) (p : Peer) (peers : List (String × Peer)) (conns : List ℕ)
    → lookup key peers ≡ some p
    → is_recipient dst p ≡ some true
    → forward_packet dst peers ≡ some conns
    → is_member p.conn conns ≡ true
unfolding forward_packet lookup is_member
forward_packet-lookup dst key p [] conns e r f = ground (arith, e)
forward_packet-lookup dst key p ((k, q) ∷ peers) conns e r f =
    elim (Option-cases (forward_packet dst peers)) [
      | inl n ↦ absurd (ground (arith, f, n))
      | inr (rest, g) ↦ ground (arith, e, r, f, g, forward_packet-lookup dst key p peers rest)
    ]

pub forward_packet-none :
    (dst : Bytes) (key : String) (p : Peer) (peers : List (String × Peer))
    → lookup key peers ≡ some p
    → is_recipient dst p ≡ none
    → forward_packet dst peers ≡ none
unfolding forward_packet lookup
forward_packet-none dst key p [] e r = ground (arith, e)
forward_packet-none dst key p ((k, q) ∷ peers) e r =
    ground (arith, e, r, forward_packet-none dst key p peers)

-- The network of a peer has a broadcast address, if its address is one of IPv4.
abbrev pub HasBroadcast : Peer → Type 0
HasBroadcast p = (to4 p.ip ≢ none) → get_broadcast_addr p.net_ip p.net_mask ≢ none

abbrev pub AllBroadcast : List (String × Peer) → Type 0
AllBroadcast = All (λ x. HasBroadcast x.1)

is_recipient-some :
    (dst : Bytes) (p : Peer) → HasBroadcast p → (b : Bool) × (is_recipient dst p ≡ some b)
unfolding is_recipient
is_recipient-some dst p h = elim (Option-cases (is_recipient dst p)) [
  | inr (b, e) ↦ (b, e)
  | inl n ↦ elim (Option-cases (to4 p.ip)) [
    | inl m ↦ absurd (ground (arith, n, m))
    | inr (v, e) ↦ elim (Option-cases (get_broadcast_addr p.net_ip p.net_mask)) [
      | inl m ↦ absurd (h (λ z. ground (arith, e, z)) m)
      | inr (w, f) ↦ absurd (ground (arith, n, e, f))
    ]
  ]
]

pub forward_packet-some :
    (dst : Bytes) (peers : List (String × Peer))
    → AllBroadcast peers
    → (conns : List ℕ) × (forward_packet dst peers ≡ some conns)
unfolding forward_packet
forward_packet-some dst [] h = ([], refl)
forward_packet-some dst ((k, p) ∷ peers) h =
    let (b, r) = is_recipient-some dst p h.0 in
    let (conns, f) = forward_packet-some dst peers h.1 in
    (if b then p.conn ∷ conns else conns, ground (arith, r, f))

insert-AllBroadcast :
    (k : String) (p : Peer) (peers : List (String × Peer))
    → HasBroadcast p
    → AllBroadcast peers
    → AllBroadcast (insert k p peers)
unfolding insert
insert-AllBroadcast k p [] h a = (h, tt)
insert-AllBroadcast k p ((j, q) ∷ peers) h a = elim (Bool-cases (str_eq j k)) [
  | inl t ↦ rw t (h, a.1)
  | inr t ↦ rw t (a.0, insert-AllBroadcast k p peers h a.1)
]

-- The entry that a peer gets for an address.
abbrev pub entry : ℕ → Cidr → Peer
entry conn c = record { conn = conn; ip = c.ip; net_ip = c.net_ip; net_mask = c.net_mask }

pub is_recipient_own :
    (dst ip : Bytes) (p : Peer)
    → ip_equal dst ip ≡ true
    → p.ip ≡ ip
    → is_recipient dst p ≡ some true
unfolding is_recipient
is_recipient_own dst ip p h e =
    let same : ip_equal dst p.ip ≡ true = ap (ip_equal dst) e ∙ h in ground (arith, same)

-- So do the networks of all valid texts of a name. What `net.ParseCIDR` reads in the notation of IPv4
-- has a mask of four bytes; an IPv4 address that is mapped into IPv6 has one of 16.
abbrev pub AllPlain : (String → Option Cidr) → ℕ → List String → Type 0
AllPlain parse_cidr conn =
    All (λ x. (d : Cidr) → parse_cidr x ≡ some d → HasBroadcast (entry conn d))

module _ (parse_cidr : String → Option Cidr) (conn : ℕ) where
  pub add_peers_skip :
      (x : String) (ips : List String) (peers : List (String × Peer))
      → parse_cidr x ≡ none
      → add_peers parse_cidr conn (x ∷ ips) peers ≡ add_peers parse_cidr conn ips peers
  unfolding add_peers
  add_peers_skip x ips peers n = ground (arith, n)

  pub add_peers_next :
      (x : String) (d : Cidr) (ips : List String) (peers : List (String × Peer))
      → parse_cidr x ≡ some d
      → add_peers parse_cidr conn (x ∷ ips) peers
        ≡ add_peers parse_cidr conn ips (insert d.ip_string (entry conn d) peers)
  unfolding add_peers
  add_peers_next x d ips peers e = ground (arith, e)

pub add_peers-AllBroadcast :
    (parse_cidr : String → Option Cidr) (conn : ℕ) (ips : List String)
    (peers : List (String × Peer))
    → AllPlain parse_cidr conn ips
    → AllBroadcast peers
    → AllBroadcast (add_peers parse_cidr conn ips peers)
unfolding add_peers
add_peers-AllBroadcast parse_cidr conn [] peers p a = a
add_peers-AllBroadcast parse_cidr conn (x ∷ ips) peers p a = elim (Option-cases (parse_cidr x)) [
  | inl n ↦
      subst AllBroadcast (sym (add_peers_skip parse_cidr conn x ips peers n))
        (add_peers-AllBroadcast parse_cidr conn ips peers p.1 a)
  | inr (d, e) ↦ subst AllBroadcast (sym (add_peers_next parse_cidr conn x d ips peers e)) (
      add_peers-AllBroadcast parse_cidr conn ips (insert d.ip_string (entry conn d) peers) p.1
        (insert-AllBroadcast d.ip_string (entry conn d) peers (p.0 d e) a))
]
