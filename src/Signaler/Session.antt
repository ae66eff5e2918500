-- ===== src/Signaler/Session.antt =====
-- pkg/wrtcsgl/wrtcsgl.go: the loops of one upgraded connection.
use weron.Prelude.{
  if◌then◌else◌, ℕ, String, ◌≡◌, refl, Bool, true, false, List, [], ◌∷◌, ◌++◌, map, arith, eq_iff,
  str_eq,
}
use weron.Encryption.{Bytes}
use weron.Broker.{Input}

-- What the `select` of the handler's loop receives, with what the writes to the client return: the
-- Booleans say that `WriteMessage` and `SetWriteDeadline` return nil.
pub data Event : Type 0 where
  closer_closed loop_error : Event
  relayed : Input → Bool → Bool → Event
  ping_tick : Bool → Bool → Event

pub data Exit : Type 0 where
  running returned panicked : Exit

-- What is sent to the client.
pub data Frame : Type 0 where
  message : ℕ → Bytes → Frame
  ping : Frame

-- The rest of the loop after a write: a failure of either call is a panic.
abbrev pub after_write : Frame → Bool → Bool → List Frame × Exit → List Frame × Exit
after_write f false deadline_ok rest = ([], panicked)
after_write f true false rest = (f ∷ [], panicked)
after_write f true true (fs, x) = (f ∷ fs, x)

unfoldable pub serve : String → List Event → List Frame × Exit
serve raddr [] = ([], running)
serve raddr (closer_closed ∷ events) = ([], returned)
serve raddr (loop_error ∷ events) = ([], panicked)
serve raddr (relayed input write_ok deadline_ok ∷ events) =
    let rest = serve raddr events in
    if str_eq input.raddr raddr
    then rest
    else after_write (message input.message_type input.p) write_ok deadline_ok rest
serve raddr (ping_tick write_ok deadline_ok ∷ events) =
    let rest = serve raddr events in after_write ping write_ok deadline_ok rest

-- The goroutine that reads from the client: every frame is published under the address of the
-- client, until a read or a publication fails.
pub data ReadEvent : Type 0 where
  frame_read : ℕ → Bytes → Bool → ReadEvent
  read_failed : ReadEvent

unfoldable pub read_loop : String → List ReadEvent → List Input
read_loop raddr [] = []
read_loop raddr (read_failed ∷ events) = []
read_loop raddr (frame_read message_type p publish_ok ∷ events) =
    let rest = read_loop raddr events in
    if publish_ok then record { raddr = raddr; message_type = message_type; p = p } ∷ rest else []

-- Every write of the events succeeds, and none ends the loop.
abbrev pub AllWritten : List Event → Type 0
AllWritten [] = Unit
AllWritten (closer_closed ∷ events) = ⊥
AllWritten (loop_error ∷ events) = ⊥
AllWritten (relayed i w d ∷ events) = (w ≡ true) × (d ≡ true) × AllWritten events
AllWritten (ping_tick w d ∷ events) = (w ≡ true) × (d ≡ true) × AllWritten events

-- The messages of others, and the pings, in order.
abbrev pub frames_for : String → List Event → List Frame
frames_for raddr [] = []
frames_for raddr (relayed i w d ∷ events) =
    if str_eq i.raddr raddr
    then frames_for raddr events
    else message i.message_type i.p ∷ frames_for raddr events
frames_for raddr (ping_tick w d ∷ events) = ping ∷ frames_for raddr events
frames_for raddr (_ ∷ events) = frames_for raddr events

-- While every write succeeds, a client is sent all messages of others and all pings, in order, and
-- none of its own messages; once its closer is closed the loop returns and sends nothing more.
pub serve-frames :
    (raddr : String) (events later : List Event)
    → AllWritten events
    → serve raddr (events ++ closer_closed ∷ later) ≡ (frames_for raddr events, returned)
unfolding serve
serve-frames raddr [] later h = refl
serve-frames raddr (closer_closed ∷ events) later h = absurd h
serve-frames raddr (loop_error ∷ events) later h = absurd h
serve-frames raddr (relayed i w d ∷ events) later h =
    ground (arith, serve-frames raddr events later h.2)
serve-frames raddr (ping_tick w d ∷ events) later h =
    ground (arith, serve-frames raddr events later h.2)

-- Only clients with other addresses hear what the read loop of a client publishes: to itself it
-- sends nothing, whatever it reads and however its writes would end.
pub serve-own :
    (raddr : String) (reads : List ReadEvent) (write_ok deadline_ok : Bool)
    → serve raddr (map (λ i. relayed i write_ok deadline_ok) (read_loop raddr reads))
      ≡ ([], running)
unfolding serve read_loop
serve-own raddr [] w d = refl
serve-own raddr (read_failed ∷ reads) w d = refl
serve-own raddr (frame_read t p q ∷ reads) w d =
    ground (arith, serve-own raddr reads w d, eq_iff raddr raddr)
