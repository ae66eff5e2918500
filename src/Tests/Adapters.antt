-- ===== src/Tests/Adapters.antt =====
-- The adapters at concrete inputs.
use weron.Prelude.{
  if◌then◌else◌, length, All, contains, ℕ, ◌+◌, ◌*◌, ◌/◌, ◌≤◌, String, ◌≡◌, refl, ◌≢◌, true, false,
  ◌||◌, Option, none, some, List, [], ◌∷◌, ◌++◌, map, arith, eq_iff, str_eq,
}
use weron.Conn.Negotiation.{
  greeting, kick, Negotiator, NamedAdapterConfig, default_is_id_claimed, ready, receive,
}
use weron.Conn.Negotiation.Conflicts.{kick_excludes}
use weron.Latency.{start, Totals, totals, RoundTrip, read_failed, acknowledged, client_loop}
use weron.Latency.Summary.{sum, latencies, totals_describe}
use weron.Ip.Names.{Prefix, in_prefix, offered, offered-in_prefix}
use weron.Ip.Routing.{v4_in_v6_prefix, Peer, Cidr}
use weron.Ethernet
use weron.Ethernet.{
  mac_string, broadcast_mac, is_second_odd, forward_frame, connections_of, forward_frame-by_second,
}
use weron.Throughput.Rounds.{bytes_written, rounds_exact}
use weron.Throughput.{moved, failed, run_server, run_client, completed, server_start, client_start}

-- The candidates in their order.
abbrev pub pick_first : List String → Option String
pick_first [] = none
pick_first (x ∷ xs) = some x

pub pick_first-contains :
    (xs : List String) (x : String) → pick_first xs ≡ some x → contains x xs ≡ true
unfolding contains
pick_first-contains [] x e = ground (arith, e)
pick_first-contains (y ∷ xs) x e = ground (arith, e, eq_iff y x)

pub pick_first-cons : (x : String) (xs : List String) → pick_first (x ∷ xs) ≢ none
pick_first-cons x xs e = ground (arith, e)

abbrev pub two_names : NamedAdapterConfig
two_names = record {
  names = "alice" ∷ "bob" ∷ [];
  is_id_claimed = default_is_id_claimed;
  pick = pick_first;
  pick-contains = pick_first-contains;
  pick-nil = refl;
  pick-cons = pick_first-cons;
}

abbrev pub fresh : ℕ → Negotiator
fresh timestamp = record { candidates = "alice" ∷ "bob" ∷ []; id = ""; timestamp = timestamp }

abbrev pub alice : Negotiator
alice = record { candidates = []; id = "alice"; timestamp = 3 }

kick_excludes_example :
    let (_, replies) = receive two_names alice (greeting ("alice" ∷ "bob" ∷ []) 4) in
    let (s', _) = receive two_names (fresh 4) (kick "alice") in
    (replies ≡ kick "alice" ∷ [])
    × ((ready two_names s').0.id ≢ "alice")
    × (contains "bob" s'.candidates
        ≡ (if str_eq "alice" "bob" then false else contains "bob" (fresh 4).candidates))
unfolding contains
kick_excludes_example =
    kick_excludes two_names alice (fresh 4) "bob" (λ ids id. refl) refl refl refl

abbrev servers_text : List String
servers_text = "stun:a" ∷ " " ∷ "u:p@turn:b" ∷ []

abbrev rounds : List RoundTrip
rounds = acknowledged 30 ∷ acknowledged 10 ∷ read_failed ∷ acknowledged 1 ∷ []

totals_describe_example :
    (t : Totals) × (totals (client_loop start rounds) ≡ some t)
    × (t.packets_written ≡ length (latencies rounds))
    × (t.latency_average ≡ sum (latencies rounds) / length (latencies rounds))
    × (t.latency_min ≤ t.latency_average)
    × (t.latency_average ≤ t.latency_max)
    × All (λ x. (t.latency_min ≤ x) × (x ≤ t.latency_max)) (latencies rounds)
unfolding latencies sum
totals_describe_example = totals_describe rounds 30 (10 ∷ []) refl (omega arith) (omega arith)

-- 10.0.0.1/29 and 10.0.0.1/30.
abbrev narrow : ℕ → Prefix
narrow bits = record { is4 = true; addr = 167772161; bits = bits }

offered-in_prefix_example :
    All (λ x. (in_prefix (narrow 29) x ≡ true) × ((narrow 29).addr ≤ x)) (offered 4 (narrow 29))
    × (length (offered 4 (narrow 29)) ≤ 4)
offered-in_prefix_example = offered-in_prefix 4 (narrow 29)

abbrev flooded : Ethernet.Peers
flooded = ("00:00:00:00:00:01", 1) ∷ ("00:00:00:00:00:02", 2) ∷ []

forward_frame-by_second_example : forward_frame (0 ∷ 0 ∷ 0 ∷ 0 ∷ 0 ∷ 2 ∷ []) flooded ≡ (
    if is_second_odd (0 ∷ 0 ∷ 0 ∷ 0 ∷ 0 ∷ 2 ∷ [])
      || str_eq (mac_string (0 ∷ 0 ∷ 0 ∷ 0 ∷ 0 ∷ 2 ∷ [])) broadcast_mac
    then map (λ e. e.1) flooded
    else connections_of (mac_string (0 ∷ 0 ∷ 0 ∷ 0 ∷ 0 ∷ 2 ∷ [])) flooded)
forward_frame-by_second_example = forward_frame-by_second (0 ∷ 0 ∷ 0 ∷ 0 ∷ 0 ∷ 2 ∷ []) flooded

-- 10.0.0.2/24 with its mapped address of 16 bytes.
abbrev peer_two : Peer
peer_two = record {
  conn = 2;
  ip = v4_in_v6_prefix ++ (10 ∷ 0 ∷ 0 ∷ 2 ∷ []);
  net_ip = 10 ∷ 0 ∷ 0 ∷ 0 ∷ [];
  net_mask = 255 ∷ 255 ∷ 255 ∷ 0 ∷ [];
}

abbrev pub parse_one : String → Option Cidr
parse_one s =
    if str_eq s "10.0.0.2/24"
    then some (record {
      ip_string = "10.0.0.2";
      ip = peer_two.ip;
      net_ip = peer_two.net_ip;
      net_mask = peer_two.net_mask;
    })
    else none

parse_one-law : (x : String) (d : Cidr) → parse_one x ≡ some d → parse_one d.ip_string ≡ none
parse_one-law x d e = let at : d.ip_string ≡ "10.0.0.2" = ground (arith, e) in rw at refl

rounds_exact_example :
    let s = run_server 2 server_start (moved 5 ∷ moved 5 ∷ moved 100 ∷ moved 5 ∷ []) in
    let c = run_client 2 client_start (moved 4 ∷ moved 6 ∷ moved 100 ∷ moved 5 ∷ failed ∷ []) in
    (s.acknowledged * 3 + s.i ≡ 4)
    × (s.i ≤ 2)
    × (length c.acknowledgements * 3 + c.i ≡ 4)
    × (c.i ≤ 2)
    × (c.total_transferred + c.written ≡ 15)
unfolding completed bytes_written
rounds_exact_example =
    rounds_exact 2 (moved 5 ∷ moved 5 ∷ moved 100 ∷ moved 5 ∷ [])
      (moved 4 ∷ moved 6 ∷ moved 100 ∷ moved 5 ∷ failed ∷ []) (omega arith)
