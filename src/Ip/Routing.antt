-- ===== src/Ip/Routing.antt =====
-- pkg/wrtcip/wrtcip.go: which peers a packet of the TUN device is sent to, the test for a claimed
-- name, and the table of peers.
use Prim.Native.Nat.{bit_or}
use weron.Prelude.{
  ◌==◌, if◌then◌else◌, Bool-cases, Option-cases, length, get_elem?, take, drop, All, contains,
  lookup, insert, delete, lookup-delete, ℕ, ◌-◌, ◌/◌, ◌%◌, String, ◌≡◌, refl, ◌≢◌, ◌⊎◌, inl, inr,
  Bool, true, false, ◌&&◌, ◌||◌, Option, none, some, List, [], ◌∷◌, arith, eq_iff, str_eq,
}
use weron.Encryption.{Bytes}

abbrev pub same_bytes : Bytes → Bytes → Bool
same_bytes [] [] = true
same_bytes (a ∷ as') (b ∷ bs) = a == b && same_bytes as' bs
same_bytes _ _ = false

-- The first twelve bytes of an IPv4 address in 16 bytes.
abbrev pub v4_in_v6_prefix : Bytes
v4_in_v6_prefix = 0 ∷ 0 ∷ 0 ∷ 0 ∷ 0 ∷ 0 ∷ 0 ∷ 0 ∷ 0 ∷ 0 ∷ 0xff ∷ 0xff ∷ []

-- `net.IP.To4`: four bytes, or the last four of an address mapped into IPv6.
unfoldable pub to4 : Bytes → Option Bytes
to4 ip =
    if length ip == 4
    then some ip
    else if length ip == 16 && same_bytes (take 12 ip) v4_in_v6_prefix
    then some (drop 12 ip)
    else none

-- `net.IP.Equal`: an IPv4 address and its mapping into IPv6 are equal.
unfoldable pub ip_equal : Bytes → Bytes → Bool
unfolding to4
ip_equal a b =
    if length a == length b
    then same_bytes a b
    else if length a == 4 && length b == 16
    then same_bytes (take 12 b) v4_in_v6_prefix && same_bytes a (drop 12 b)
    else if length a == 16 && length b == 4
    then same_bytes (take 12 a) v4_in_v6_prefix && same_bytes (drop 12 a) b
    else false

abbrev pub byte_at : Bytes → ℕ → ℕ
byte_at ip i = elim (get_elem? ip i) [ none ↦ 0 | some b ↦ b ]

-- `net.IP.IsMulticast`: 224.0.0.0/4 or ff00::/8.
unfoldable pub is_multicast : Bytes → Bool
unfolding to4
is_multicast ip = elim (to4 ip) [
  | some ip4 ↦ byte_at ip4 0 / 16 == 0xe
  | none ↦ length ip == 16 && byte_at ip 0 == 0xff
]

-- `net.IP.IsInterfaceLocalMulticast`: ff01::/16 up to the flags.
unfoldable pub is_interface_local_multicast : Bytes → Bool
is_interface_local_multicast ip = length ip == 16 && byte_at ip 0 == 0xff && byte_at ip 1 % 16 == 1

-- The bytes of a network with all bits set that the mask leaves open.
unfoldable pub set_open_bits : Bytes → Bytes → Bytes
set_open_bits [] mask = []
set_open_bits (a ∷ ip) [] = a ∷ set_open_bits ip []
set_open_bits (a ∷ ip) (m ∷ mask) = bit_or a (255 - m) ∷ set_open_bits ip mask

-- `getBroadcastAddr`; `none` is the panic of `Uint32` where the address of the network or the mask is
-- not one of four bytes.
unfoldable pub get_broadcast_addr : Bytes → Bytes → Option Bytes
unfolding to4 set_open_bits
get_broadcast_addr ip mask = elim (to4 ip) [
  | none ↦ none
  | some ip4 ↦ elim (to4 mask) [ none ↦ none | some mask4 ↦ some (set_open_bits ip4 mask4) ]
]

-- `peerWithIP`: the connection, the address, and the address and the mask of the network.
pub record Peer : Type 0 where
  pub conn : ℕ
  pub ip : Bytes
  pub net_ip : Bytes
  pub net_mask : Bytes

-- The test in the loop over the peers; `none` is a panic.
unfoldable pub is_recipient : Bytes → Peer → Option Bool
is_recipient dst peer =
    if ip_equal dst peer.ip
    then some true
    else if (is_multicast dst
          || is_interface_local_multicast dst
          || is_interface_local_multicast dst)
        && length dst == length peer.ip
    then some true
    else elim (to4 peer.ip) [
      | none ↦ some false
      | some _ ↦ elim (get_broadcast_addr peer.net_ip peer.net_mask) [
        | none ↦ none
        | some broadcast ↦ some (ip_equal dst broadcast)
      ]
    ]

-- The connections that one packet is written to; `none` is a panic, which ends the process, whatever
-- was written before it.
unfoldable pub forward_packet : Bytes → List (String × Peer) → Option (List ℕ)
forward_packet dst [] = some []
forward_packet dst ((key, peer) ∷ peers) =
    let rest = forward_packet dst peers in
    elim (is_recipient dst peer) [
      | none ↦ none
      | some sends ↦ elim rest [
        | none ↦ none
        | some conns ↦ some (if sends then peer.conn ∷ conns else conns)
      ]
    ]

-- What `net.ParseCIDR` and `ip.String()` give for a text; `none` is an error.
pub record Cidr : Type 0 where
  pub ip_string : String
  pub ip : Bytes
  pub net_ip : Bytes
  pub net_mask : Bytes

module _ (parse_cidr : String → Option Cidr) where
  -- The loop over the addresses in the name of a peer: the table, and whether any was valid.
  unfoldable pub add_peers : ℕ → List String → List (String × Peer) → List (String × Peer)
  add_peers conn [] peers = peers
  add_peers conn (raw_ip ∷ ips) peers =
      let rest = λ (t : List (String × Peer)). add_peers conn ips t in
      elim (parse_cidr raw_ip) [
        | none ↦ rest peers
        | some c ↦ rest (
            insert c.ip_string
              (record { conn = conn; ip = c.ip; net_ip = c.net_ip; net_mask = c.net_mask }) peers)
      ]

  -- The deferred loop when the connection ends: it deletes the texts of the name, not the addresses.
  unfoldable pub drop_peers : List String → List (String × Peer) → List (String × Peer)
  drop_peers [] peers = peers
  drop_peers (ip ∷ ips) peers = drop_peers ips (delete ip peers)

  abbrev pub equals_ours : String → List String → Bool
  equals_ours their_raw_ip [] = false
  equals_ours their_raw_ip (our_raw_ip ∷ ours) = elim (parse_cidr their_raw_ip) [
    | none ↦ true
    | some their_ip ↦ elim (parse_cidr our_raw_ip) [
      | none ↦ true
      | some our_ip ↦ ip_equal their_ip.ip our_ip.ip || equals_ours their_raw_ip ours
    ]
  ]

  abbrev pub equals_any : List String → List String → Bool
  equals_any [] ours = false
  equals_any (their_raw_ip ∷ theirs) ours = equals_ours their_raw_ip ours || equals_any theirs ours

  -- `IsIDClaimed` of the IP adapter; `unmarshal` reads a name as a JSON list of texts.
  unfoldable pub is_id_claimed : (String → Option (List String)) → List String → String → Bool
  is_id_claimed unmarshal their_raw_ips s = elim (unmarshal s) [
    | none ↦ true
    | some our_ips ↦ equals_any their_raw_ips our_ips
  ]

  -- A greeting carries whole names, which are JSON lists and no addresses: so an adapter that has a
  -- name with an address in it takes every name for claimed, whatever addresses it holds.
  pub is_id_claimed_always :
      (unmarshal : String → Option (List String)) (their our : String) (ours rest : List String)
      (s : String)
      → parse_cidr their ≡ none
      → unmarshal s ≡ some (our ∷ ours)
      → is_id_claimed unmarshal (their ∷ rest) s ≡ true
  unfolding is_id_claimed
  is_id_claimed_always unmarshal their our ours rest s n u = ground (arith, n, u)

  lookup-drop_peers :
      (ips : List String) (peers : List (String × Peer)) (key : String)
      → contains key ips ≡ false
      → lookup key (drop_peers ips peers) ≡ lookup key peers
  unfolding drop_peers contains
  lookup-drop_peers [] peers key h = refl
  lookup-drop_peers (ip ∷ ips) peers key h = ground (
    arith,
    lookup-drop_peers ips (delete ip peers) key,
    lookup-delete key ip peers,
    eq_iff ip key,
  )

  contains-parse :
      (ips : List String) (key : String)
      → parse_cidr key ≡ none
      → All (λ x. parse_cidr x ≢ none) ips
      → contains key ips ≡ false
  unfolding contains
  contains-parse [] key n h = refl
  contains-parse (ip ∷ ips) key n h = elim (Bool-cases (str_eq ip key)) [
    | inl e ↦ absurd (h.0 (rw ((eq_iff ip key).0 e) n))
    | inr e ↦ rw (e, contains-parse ips key n h.1)
  ]

  -- When a peer's connection ends, its entry stays in the table: an address under which it was added
  -- is not one of the texts that are deleted, since these carry the length of the prefix.
  pub drop_peers_keeps :
      (ips : List String) (peers : List (String × Peer)) (raw : String) (c : Cidr)
      → ((x : String) (d : Cidr) → parse_cidr x ≡ some d → parse_cidr d.ip_string ≡ none)
      → parse_cidr raw ≡ some c
      → All (λ x. parse_cidr x ≢ none) ips
      → lookup c.ip_string (drop_peers ips peers) ≡ lookup c.ip_string peers
  drop_peers_keeps ips peers raw c law p h =
      lookup-drop_peers ips peers c.ip_string (contains-parse ips c.ip_string (law raw c p) h)

-- IPv4 multicast is not flooded: the address in a packet has 4 bytes and that of a peer 16, so such a
-- packet goes to a peer only if it is equal to its address or its broadcast address.
pub is_recipient_multicast :
    (dst : Bytes) (peer : Peer)
    → length dst ≡ 4
    → length peer.ip ≡ 16
    → is_recipient dst peer ≡ some true
    → (ip_equal dst peer.ip ≡ true)
      ⊎ ((b : Bytes) × (get_broadcast_addr peer.net_ip peer.net_mask ≡ some b)
          × (ip_equal dst b ≡ true))
unfolding is_recipient
is_recipient_multicast dst peer h k r =
    elim (Option-cases (get_broadcast_addr peer.net_ip peer.net_mask)) [
      | inl n ↦ inl (ground (arith, h, k, r, n))
      | inr (b, e) ↦ elim (Bool-cases (ip_equal dst peer.ip)) [
        | inl t ↦ inl t
        | inr t ↦ inr (b, e, ground (arith, h, k, r, e, t))
      ]
    ]
