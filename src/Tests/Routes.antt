-- ===== src/Tests/Routes.antt =====
-- A packet for a peer of the IP overlay.
use mathlib.Core.Path.{subst}
use weron.Prelude.{
  if◌then◌else◌, All, contains, insert, delete, ℕ, String, ◌≡◌, refl, ap, ◌≢◌, true, Option, none,
  some, List, [], ◌∷◌, ◌++◌, arith, str_eq,
}
use weron.Encryption.{Bytes}
use weron.Ip.Routing.{
  v4_in_v6_prefix, to4, ip_equal, get_broadcast_addr, Cidr, add_peers, drop_peers,
}
use weron.Ip.Wait.Panics.{next_packet_panics}
use weron.Ip.Wait.{accepted, ended, packet_read, Waiting, panics, step, run}
use weron.Ip.Wait.Entries.{is_known, BareAddress, ValidName, joined_entry_stays}
use weron.Ip.Device.Broadcast.{HasBroadcast, entry}
use weron.Ip.Device.{join_peer, destination, route}
use weron.Ip.Device.Reaching.{SameAddress, route-join_peer}
use weron.Conn.Signaling.{is_member}

abbrev pub host : Bytes
host = 10 ∷ 0 ∷ 0 ∷ 1 ∷ []

abbrev pub host_cidr : Cidr
host_cidr = record {
  ip_string = "10.0.0.1";
  ip = v4_in_v6_prefix ++ host;
  net_ip = 10 ∷ 0 ∷ 0 ∷ 0 ∷ [];
  net_mask = 255 ∷ 255 ∷ 255 ∷ 0 ∷ [];
}

abbrev pub parse_one : String → Option Cidr
parse_one s = if str_eq s "10.0.0.1/24" then some host_cidr else none

abbrev pub name_of_one : String → Option (List String)
name_of_one s = some ("bad" ∷ "10.0.0.1/24" ∷ [])

pub one_address : SameAddress parse_one
one_address x y c d e f g = ground (arith, e, f)

parse_one-host_cidr : (x : String) (d : Cidr) → parse_one x ≡ some d → host_cidr ≡ d
parse_one-host_cidr x d e = ground (arith, e)

host_broadcast : HasBroadcast (entry 3 host_cidr)
unfolding get_broadcast_addr
host_broadcast v e = cc

plain_text : (x : String) (d : Cidr) → parse_one x ≡ some d → HasBroadcast (entry 3 d)
plain_text x d e = subst (λ h. HasBroadcast (entry 3 h)) (parse_one-host_cidr x d e) host_broadcast

route-join_peer_example :
    ((join_peer parse_one name_of_one 3 "name" []).1 ≡ true)
    × ((conns : List ℕ) × (route
            (λ buf. none)
            (λ buf. some host)
            []
            (join_peer parse_one name_of_one 3 "name" []).0
          ≡ some conns)
        × (is_member 3 conns ≡ true))
unfolding contains destination ip_equal
route-join_peer_example =
    route-join_peer parse_one name_of_one (λ buf. none) (λ buf. some host) 3 "name" "10.0.0.1/24"
      ("bad" ∷ "10.0.0.1/24" ∷ []) host_cidr [] host [] one_address
      (plain_text "bad", (plain_text "10.0.0.1/24", tt)) tt refl refl refl refl refl

abbrev list_of_one : String → Option (List String)
list_of_one s = some ("10.0.0.1/24" ∷ [])

bare_address : BareAddress parse_one list_of_one (λ buf. none) (λ buf. none)
bare_address x d e = subst (λ h. parse_one h.ip_string ≡ none) (parse_one-host_cidr x d e) refl

abbrev listed : Option (List String) → List String
listed none = []
listed (some ips) = ips

valid_list : (x : String) → ValidName parse_one list_of_one (λ buf. none) (λ buf. none) x
valid_list x ips e =
    subst (All (λ y. parse_one y ≢ none)) (ap listed e) ((λ z. ground (arith, z)), tt)

abbrev empty_wait : Waiting
empty_wait = record {
  peers = [];
  addresses = [];
  sent = [];
  tun = [];
  connects = [];
  disconnects = [];
}

abbrev left : Waiting
left = record empty_wait {
  peers =
      (
        "10.0.0.1",
        record {
          conn = 3;
          ip = host_cidr.ip;
          net_ip = host_cidr.net_ip;
          net_mask = host_cidr.net_mask;
        },
      )
      ∷ [];
  connects = "name" ∷ [];
  disconnects = "name" ∷ [];
}

joined_entry_stays_example : is_known "10.0.0.1" left.peers ≡ true
unfolding contains run step drop_peers join_peer delete add_peers insert
joined_entry_stays_example =
    joined_entry_stays parse_one list_of_one (λ buf. none) (λ buf. none) "10.0.0.1/24" "name"
      host_cidr ("10.0.0.1/24" ∷ []) 3 (ended "name" ∷ []) empty_wait left bare_address one_address
      refl refl refl (valid_list "name", tt) refl

-- `::ffff:10.0.0.1/120`.
abbrev mapped_cidr : Cidr
mapped_cidr = record {
  ip_string = "10.0.0.1";
  ip = v4_in_v6_prefix ++ host;
  net_ip = v4_in_v6_prefix ++ 10 ∷ 0 ∷ 0 ∷ 0 ∷ [];
  net_mask =
      255 ∷ 255 ∷ 255 ∷ 255 ∷ 255 ∷ 255 ∷ 255 ∷ 255 ∷ 255 ∷ 255 ∷ 255 ∷ 255 ∷ 255 ∷ 255 ∷ 255 ∷ 0
      ∷ [];
}

abbrev parse_mapped : String → Option Cidr
parse_mapped s = if str_eq s "::ffff:10.0.0.1/120" then some mapped_cidr else none

next_packet_panics_example :
    run parse_mapped
      (λ s. some ("::ffff:10.0.0.1/120" ∷ []))
      (λ buf. some (10 ∷ 0 ∷ 0 ∷ 2 ∷ []))
      (λ buf. none)
      left
      (accepted "mapped" 4 ∷ packet_read [] (λ conn. true) ∷ [])
    ≡ panics
unfolding to4 destination ip_equal
next_packet_panics_example =
    next_packet_panics parse_mapped (λ s. some ("::ffff:10.0.0.1/120" ∷ []))
      (λ buf. some (10 ∷ 0 ∷ 0 ∷ 2 ∷ [])) (λ buf. none) "::ffff:10.0.0.1/120" "mapped" mapped_cidr 4
      [] (10 ∷ 0 ∷ 0 ∷ 2 ∷ []) (λ conn. true) [] left refl refl refl (λ e. cc) refl refl refl refl
