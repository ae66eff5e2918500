-- ===== src/Conn/Reconnecting.antt =====
-- pkg/wrtcconn/adapter.go: the loop of the goroutine of `Open` over what wakes it up while it is
-- connected to the signaler. Deadlines and delays are left out.
pub mod Closed
use weron.Prelude.{if◌then◌else◌, ℕ, String, Bool, ◌&&◌, Option, List, [], ◌∷◌, ◌++◌}
use weron.Encryption.{Bytes, Crypto, value, failure, panic}
use weron.Conn.Signaling.{Session, Webrtc}
use weron.Conn.Signaling.Events.{Event, Life, alive, ended, stuck, crashed, of_turn, happen}
use weron.Conn.Signaling.Wire.{Format, write_line, receive_input}

-- A turn of the loop. A line is `none` if the channel of lines is closed; with it go the random bytes,
-- whether it is written and whether the deadline is set. A ping sets the deadline first. `callback`
-- is a callback of pion, which runs between two turns.
pub data Wakeup : Type 0 where
  read_failed : Wakeup
  input : Webrtc → Bytes → ℕ → Wakeup
  line : Option Bytes → Option Bytes → Bool → Bool → Wakeup
  ping : Bool → Bool → Wakeup
  callback : Event → Wakeup

-- What is written to the signaler.
pub data Sent : Type 0 where
  text : Bytes → Sent
  ping_frame : Sent

module _ (c : Crypto) (json : Format) (key : Bytes) (channels : List String) where
  unfoldable pub wake : String → Session → Wakeup → Life × List Sent
  wake id s read_failed = (ended s, [])
  wake id s (input w p iid) = (of_turn (receive_input c json key id channels w p iid s), [])
  wake id s (line l random wrote sets) = elim (write_line c json key random l) [
    | value p ↦
        if wrote
        then (if sets then (alive s, text p ∷ []) else (ended s, text p ∷ []))
        else (ended s, [])
    | failure ↦ (ended s, [])
    | panic ↦ (ended s, [])
  ]
  wake id s (ping sets wrote) = if sets && wrote then (alive s, ping_frame ∷ []) else (ended s, [])
  wake id s (callback e) = (happen id channels s e, [])

  -- The loop; it goes on while it is alive.
  unfoldable pub listen : String → Session → List Wakeup → Life × List Sent
  listen id s [] = (alive s, [])
  listen id s (w ∷ ws) =
      let rest = λ (t : Session). listen id t ws in
      let (life, sent) = wake id s w in
      elim life [
        | alive t ↦ ((rest t).0, sent ++ (rest t).1)
        | ended t ↦ (ended t, sent)
        | stuck t ↦ (stuck t, sent)
        | crashed ↦ (crashed, sent)
      ]
