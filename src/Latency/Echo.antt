-- ===== src/Latency/Echo.antt =====
-- pkg/wrtcltc/wrtcltc.go: the server, which sends every packet back, and a client that measures it.
use weron.Prelude.{
  if◌then◌else◌, length, replicate, All, ℕ, ◌-◌, ◌≤◌, ◌<◌, ◌≡◌, refl, Bool, true, Option, none,
  some, List, [], ◌∷◌, ◌++◌, map, arith,
}
use weron.Encryption.{Bytes}
use weron.Latency.{RoundTrip, read_failed, acknowledged}

-- `Read` of a data channel into a buffer of zeros: what the buffer then holds, or `none` for
-- `io.ErrShortBuffer`, which a message that is longer than the buffer gives.
pub record Channel : Type 0 where
  pub read_into : ℕ → Bytes → Option Bytes
  pub read-fits :
      (n : ℕ) (message : Bytes)
      → length message ≤ n
      → read_into n message ≡ some (message ++ replicate (n - length message) 0)
  pub read-short : (n : ℕ) (message : Bytes) → n < length message → read_into n message ≡ none

module _ (channel : Channel) where
  -- The loop of the server: the messages that arrive, and whether each answer can be written. The
  -- whole buffer is sent back.
  unfoldable pub serve_echo : ℕ → List (Bytes × Bool) → List Bytes
  serve_echo packet_length [] = []
  serve_echo packet_length ((message, writes) ∷ arrivals) =
      let rest = serve_echo packet_length arrivals in
      elim (channel.read_into packet_length message) [
        | none ↦ []
        | some buf ↦ if writes then buf ∷ rest else []
      ]

  -- A round of the client with the server: the packet it writes, the answer, and the latency.
  unfoldable pub echo_round : ℕ → ℕ → Bytes → ℕ → RoundTrip
  unfolding serve_echo
  echo_round server_length client_length packet latency =
      elim (serve_echo server_length ((packet, true) ∷ [])) [
        | [] ↦ read_failed
        | answer ∷ _ ↦ elim (channel.read_into client_length answer) [
          | none ↦ read_failed
          | some buf ↦ acknowledged latency
        ]
      ]

  unfoldable pub echo_rounds : ℕ → ℕ → List (Bytes × ℕ) → List RoundTrip
  unfolding echo_round
  echo_rounds server_length client_length [] = []
  echo_rounds server_length client_length ((packet, latency) ∷ rounds) =
      echo_round server_length client_length packet latency
      ∷ echo_rounds server_length client_length rounds

  -- The server sends back what fits its buffer, filled up with zeros to the length of the buffer, one
  -- answer for each packet and in their order.
  serve_echo-fits :
      (n : ℕ) (packets : List Bytes)
      → All (λ p. length p ≤ n) packets
      → serve_echo n (map (λ p. (p, true)) packets)
        ≡ map (λ p. p ++ replicate (n - length p) 0) packets
  unfolding serve_echo
  serve_echo-fits n [] h = refl
  serve_echo-fits n (p ∷ packets) h =
      ground (arith, channel.read-fits n p h.0, serve_echo-fits n packets h.1)
