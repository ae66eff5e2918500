-- ===== src/Ethernet/Wait.antt =====
-- pkg/wrtceth/wrtceth.go: `Open`, and the loop of `Wait` with its goroutines, as a sequence of events.
use weron.Prelude.{
  if◌then◌else◌, lookup, lookup-insert, lookup-delete, Result, ok, ◌>>=◌, guard, require, ℕ, String,
  ◌≡◌, refl, Bool, true, false, ◌&&◌, Option, none, some, List, [], ◌∷◌, ◌++◌, arith, str_eq,
}
use weron.Encryption.{Bytes}
use weron.Ethernet.{Peers, peer_connected, peer_disconnected, forward_frame}

-- What can end `Open` and `Wait`.
pub data OpenError : Type 0 where
  device_failed mac_failed adapter_failed mtu_failed link_failed : OpenError

-- The calls of the operating system and of the adapter below: whether they succeed, the address that
-- the device has after `setMACAddress`, and its MTU.
pub record System : Type 0 where
  pub creates_tap : Bool
  pub mac_address : String → Option String
  pub opens_adapter : Bool
  pub mtu : Option ℕ

-- The ID of the adapter below, and the MTU; the error carries nothing else.
unfoldable pub open_adapter : System → String → Result OpenError (String × ℕ)
open_adapter sys mac = do
  _ ← guard sys.creates_tap device_failed
  id ← require (sys.mac_address mac) mac_failed
  _ ← guard sys.opens_adapter adapter_failed
  mtu ← require sys.mtu mtu_failed
  ok (id, mtu)

-- `Close`: the device first, and the adapter below only if that succeeds.
pub data CloseError : Type 0 where
  tap_failed adapter_close_failed : CloseError

unfoldable pub close : Bool → Bool → Option CloseError
close closes_tap closes_adapter =
    if closes_tap
    then if closes_adapter then none else some adapter_close_failed
    else some tap_failed

-- What happens to `Wait`: the context ends, by a deadline or not; an ID of the signaler, and
-- whether the link is set up; a peer and its connection; the end of a connection; a frame from the
-- device, `none` if it cannot be decoded, and the connections to which it can be written; a packet
-- of a peer, and whether the device takes it.
pub data Event : Type 0 where
  cancelled : Bool → Event
  got_id : String → Bool → Event
  accepted : String → ℕ → Event
  ended : String → ℕ → Event
  frame_read : Option Bytes → Bytes → (ℕ → Bool) → Event
  packet_read : Bytes → Bool → Event

-- The table, what was written to the peers and to the device, and the callbacks.
pub record Waiting : Type 0 where
  pub peers : Peers
  pub sent : List (ℕ × Bytes)
  pub tap : List Bytes
  pub connects : List String
  pub disconnects : List String

abbrev pub new_waiting : Waiting
new_waiting = record { peers = []; sent = []; tap = []; connects = []; disconnects = [] }

-- Whether `Wait` goes on; it returns the error of a context that ended by a deadline, and else nil.
pub data Turn : Type 0 where
  goes_on : Waiting → Turn
  fails : OpenError → Turn
  returns : Bool → Turn

-- The writes of one frame; one that fails is skipped.
unfoldable pub write_all : Bytes → (ℕ → Bool) → List ℕ → List (ℕ × Bytes)
write_all buf writes [] = []
write_all buf writes (conn ∷ conns) =
    let rest = write_all buf writes conns in if writes conn then (conn, buf) ∷ rest else rest

unfoldable pub step : Waiting → Event → Turn
unfolding forward_frame peer_connected peer_disconnected write_all
step s (cancelled by_deadline) = returns by_deadline
step s (got_id id links) = if links then goes_on s else fails link_failed
step s (accepted peer_id conn) = goes_on (record s {
  peers = peer_connected peer_id conn s.peers;
  connects = s.connects ++ peer_id ∷ [];
})
step s (ended peer_id conn) = goes_on (record s {
  peers = peer_disconnected peer_id s.peers;
  disconnects = s.disconnects ++ peer_id ∷ [];
})
step s (frame_read none buf writes) = goes_on s
step s (frame_read (some dst) buf writes) =
    goes_on (record s { sent = s.sent ++ write_all buf writes (forward_frame dst s.peers) })
step s (packet_read buf takes) =
    if takes then goes_on (record s { tap = s.tap ++ buf ∷ [] }) else goes_on s

unfoldable pub run : Waiting → List Event → Turn
run s [] = goes_on s
run s (e ∷ es) =
    let rest = λ (t : Waiting). run t es in
    elim (step s e) [ goes_on t ↦ rest t | fails e ↦ fails e | returns d ↦ returns d ]

-- What the last event of a peer says: its connection, or none.
unfoldable pub last_conn : String → Option ℕ → List Event → Option ℕ
last_conn k c [] = c
last_conn k c (cancelled by_deadline ∷ es) = last_conn k c es
last_conn k c (got_id id links ∷ es) = last_conn k c es
last_conn k c (accepted peer_id conn ∷ es) =
    last_conn k (if str_eq peer_id k then some conn else c) es
last_conn k c (ended peer_id conn ∷ es) = last_conn k (if str_eq peer_id k then none else c) es
last_conn k c (frame_read dst buf writes ∷ es) = last_conn k c es
last_conn k c (packet_read buf takes ∷ es) = last_conn k c es

-- The context does not end, and every ID finds the link of the device up.
unfoldable pub lasts : List Event → Bool
lasts [] = true
lasts (cancelled by_deadline ∷ es) = false
lasts (got_id id links ∷ es) = links && lasts es
lasts (_ ∷ es) = lasts es

-- However events come: `Wait` goes on as long as the context does and the link is set up, and then
-- the table holds for every peer what its last event says. So the end of an old connection of a peer
-- that has connected again takes the new connection out of the table.
pub run-last_conn :
    (k : String) (es : List Event) (s : Waiting)
    → lasts es ≡ true
    → (t : Waiting) × (run s es ≡ goes_on t)
      × (lookup k t.peers ≡ last_conn k (lookup k s.peers) es)
unfolding run step last_conn lasts peer_connected peer_disconnected
run-last_conn k [] s e = (s, refl, refl)
run-last_conn k (cancelled by_deadline ∷ es) s e = absurd (ground (arith, e))
run-last_conn k (got_id id true ∷ es) s e = run-last_conn k es s e
run-last_conn k (got_id id false ∷ es) s e = absurd (ground (arith, e))
run-last_conn k (accepted peer_id conn ∷ es) s e =
    rw (← lookup-insert k peer_id conn s.peers) (run-last_conn k es _ e)
run-last_conn k (ended peer_id conn ∷ es) s e =
    rw (← lookup-delete k peer_id s.peers) (run-last_conn k es _ e)
run-last_conn k (frame_read none buf writes ∷ es) s e = run-last_conn k es s e
run-last_conn k (frame_read (some dst) buf writes ∷ es) s e = run-last_conn k es _ e
run-last_conn k (packet_read buf true ∷ es) s e = run-last_conn k es _ e
run-last_conn k (packet_read buf false ∷ es) s e = run-last_conn k es s e
