-- ===== src/Ethernet.antt =====
-- pkg/wrtceth/wrtceth.go: which peers a frame of the TAP device is sent to.
pub mod Wait
use Prim.Native.Char.{code}
use weron.Prelude.{
  ◌==◌, if◌then◌else◌, Bool-cases, get_elem?, insert, delete, ℕ, ◌/◌, ◌%◌, String, ◌≡◌, refl, ap,
  ◌∙◌, inl, inr, Bool, false, ◌||◌, none, some, List, [], ◌∷◌, map, arith, eq_iff, str_eq,
}
use weron.Encryption.{Bytes}
use weron.Broker.Redis.{concat}

abbrev hex_digits : List String
hex_digits =
    "0" ∷ "1" ∷ "2" ∷ "3" ∷ "4" ∷ "5" ∷ "6" ∷ "7" ∷ "8" ∷ "9" ∷ "a" ∷ "b" ∷ "c" ∷ "d" ∷ "e" ∷ "f"
    ∷ []

abbrev hex_digit : ℕ → String
hex_digit d = elim (get_elem? hex_digits d) [ none ↦ "" | some s ↦ s ]

-- `net.HardwareAddr.String`.
unfoldable pub mac_string : Bytes → String
unfolding concat
mac_string [] = ""
mac_string (b ∷ []) = concat (hex_digit (b / 16)) (hex_digit (b % 16))
mac_string (b ∷ c ∷ bs) =
    concat (hex_digit (b / 16)) (concat (hex_digit (b % 16)) (concat ":" (mac_string (c ∷ bs))))

abbrev pub broadcast_mac : String
broadcast_mac = "ff:ff:ff:ff:ff:ff"

-- `frame.DstMAC[1]&0b01 == 1`; the six bytes of an address are always there.
unfoldable pub is_second_odd : Bytes → Bool
is_second_odd mac = elim (get_elem? mac 1) [ none ↦ false | some b ↦ b % 2 == 1 ]

unfoldable pub is_recipient : Bytes → String → Bool
unfolding mac_string is_second_odd
is_recipient dst peer_id =
    str_eq (mac_string dst) peer_id || is_second_odd dst || str_eq (mac_string dst) broadcast_mac

-- `peers[peer.PeerID] = peer` when a peer connects, and `delete` when its connection ends; the value
-- stands for the connection.
abbrev pub Peers : Type 0
Peers = List (String × ℕ)

unfoldable pub peer_connected : String → ℕ → Peers → Peers
peer_connected peer_id conn peers = insert peer_id conn peers

unfoldable pub peer_disconnected : String → Peers → Peers
peer_disconnected peer_id peers = delete peer_id peers

-- The connections that one frame is written to.
unfoldable pub forward_frame : Bytes → Peers → List ℕ
forward_frame dst [] = []
forward_frame dst ((peer_id, conn) ∷ peers) =
    if is_recipient dst peer_id then conn ∷ forward_frame dst peers else forward_frame dst peers

-- The connections of the peers with one ID.
unfoldable pub connections_of : String → Peers → List ℕ
connections_of k [] = []
connections_of k ((peer_id, conn) ∷ peers) =
    if str_eq k peer_id then conn ∷ connections_of k peers else connections_of k peers

-- A frame goes to all peers if the second byte of its destination is odd or it is the broadcast
-- address, and otherwise to the peer with that address alone, whatever the first byte says.
pub forward_frame-by_second :
    (dst : Bytes) (peers : Peers)
    → forward_frame dst peers ≡ (
        if is_second_odd dst || str_eq (mac_string dst) broadcast_mac
        then map (λ e. e.1) peers
        else connections_of (mac_string dst) peers)
unfolding forward_frame is_recipient connections_of
forward_frame-by_second dst [] = ground arith
forward_frame-by_second dst ((p, c) ∷ peers) = ground (arith, forward_frame-by_second dst peers)

abbrev first_code : String → ℕ
first_code String.[] = 0
first_code (String.◌∷◌ c s) = code c

multicast-ne-broadcast :
    (a b c : ℕ) → str_eq (mac_string (0x01 ∷ 0x00 ∷ 0x5e ∷ a ∷ b ∷ c ∷ [])) broadcast_mac ≡ false
unfolding mac_string
multicast-ne-broadcast a b c = elim (Bool-cases (str_eq mac broadcast_mac)) [
  | inl t ↦
      let e : ◌≡◌ {A = ℕ} b'0' b'f' = ap first_code ((eq_iff mac broadcast_mac).0 t) in
      absurd (omega arith)
  | inr f ↦ f
]
  where
    mac : String
    mac = mac_string (0x01 ∷ 0x00 ∷ 0x5e ∷ a ∷ b ∷ c ∷ [])

-- IPv4 multicast, 01:00:5e:…, is therefore not flooded: such a frame goes only to a peer whose own
-- address is that group address.
pub forward_frame_multicast :
    (a b c : ℕ) (peers : Peers)
    → forward_frame (0x01 ∷ 0x00 ∷ 0x5e ∷ a ∷ b ∷ c ∷ []) peers
      ≡ connections_of (mac_string (0x01 ∷ 0x00 ∷ 0x5e ∷ a ∷ b ∷ c ∷ [])) peers
unfolding is_second_odd
forward_frame_multicast a b c peers =
    forward_frame-by_second (0x01 ∷ 0x00 ∷ 0x5e ∷ a ∷ b ∷ c ∷ []) peers
    ∙ rw (multicast-ne-broadcast a b c) refl
