-- ===== src/Throughput.antt =====
-- pkg/wrtcthr/wrtcthr.go: the rounds of packets and acknowledgements of both sides. An `int` is its
-- bit pattern below 2^64, as on the platforms of 64 bits.
pub mod Rounds
use weron.Latency.{two_63, two_64, divide}
use weron.Prelude.{
  ltb, leb, if◌then◌else◌, Bool-cases, length, length-append, ℕ, suc, ◌+◌, ◌%◌, ◌≡◌, refl, sym, ap,
  inl, inr, true, false, ◌&&◌, Option, none, some, List, [], ◌∷◌, ◌++◌, arith,
}

-- The result of reading or writing once: the number of bytes, or an error.
pub data Transfer : Type 0 where
  moved : ℕ → Transfer
  failed : Transfer

-- The server's variables, and how often it has acknowledged.
pub record ServerRound : Type 0 where
  pub i : ℕ
  pub read : ℕ
  pub acknowledged : ℕ

-- `i` counts to `PacketCount`, then the acknowledgement is written; `none` is the return on an error.
unfoldable pub server_step : ℕ → ServerRound → Transfer → Option ServerRound
server_step packet_count s failed = none
server_step packet_count s (moved n) =
    if ltb s.i packet_count
    then some (record s { i = suc s.i; read = (s.read + n) % two_64 })
    else some (record { i = 0; read = 0; acknowledged = suc s.acknowledged })

-- The client's variables, and what it sends on the channel of acknowledgements.
pub record ClientRound : Type 0 where
  pub i : ℕ
  pub written : ℕ
  pub total_transferred : ℕ
  pub acknowledgements : List ℕ

-- What the client sends when it has read the acknowledgement, and after that how it adds the bytes of
-- the round to the total. Until it does, `printTotals` of the other goroutine finds the old total.
abbrev pub send_acknowledgement : ClientRound → ClientRound
send_acknowledgement s = record s {
  acknowledgements = s.acknowledgements ++ (divide s.written 1000000 ∷ []);
}

abbrev pub add_to_total : ClientRound → ClientRound
add_to_total s = record s {
  i = 0;
  written = 0;
  total_transferred = (s.total_transferred + s.written) % two_64;
}

unfoldable pub client_step : ℕ → ClientRound → Transfer → Option ClientRound
client_step packet_count s failed = none
client_step packet_count s (moved n) =
    if ltb s.i packet_count
    then some (record s { i = suc s.i; written = (s.written + n) % two_64 })
    else some (add_to_total (send_acknowledgement s))

-- The state at the end of a sequence of transfers; the loop returns at the first error.
unfoldable pub run_server : ℕ → ServerRound → List Transfer → ServerRound
run_server packet_count s [] = s
run_server packet_count s (t ∷ ts) = elim (server_step packet_count s t) [
  | none ↦ s
  | some s2 ↦ run_server packet_count s2 ts
]

unfoldable pub run_client : ℕ → ClientRound → List Transfer → ClientRound
run_client packet_count s [] = s
run_client packet_count s (t ∷ ts) = elim (client_step packet_count s t) [
  | none ↦ s
  | some s2 ↦ run_client packet_count s2 ts
]

-- `printTotals` sends the megabytes of the whole if anything was transferred; `totalTransferred >= 1`
-- is a comparison of signed numbers.
unfoldable pub total_transferred : ClientRound → Option ℕ
total_transferred s =
    if leb 1 s.total_transferred && ltb s.total_transferred two_63
    then some (divide s.total_transferred 1000000)
    else none

-- The transfers before the first error.
unfoldable pub completed : List Transfer → ℕ
completed [] = 0
completed (failed ∷ ts) = 0
completed (moved n ∷ ts) = suc (completed ts)

abbrev pub reported : ClientRound → ClientRound
reported c = add_to_total (send_acknowledgement c)

module _ (packet_count : ℕ) where
  pub server-reads :
      (s : ServerRound) (n : ℕ) (ts : List Transfer)
      → ltb s.i packet_count ≡ true
      → run_server packet_count s (moved n ∷ ts)
        ≡ run_server packet_count (record s { i = suc s.i; read = (s.read + n) % two_64 }) ts
  unfolding run_server server_step
  server-reads s n ts t = ground (arith, t)

  pub server-acknowledges :
      (s : ServerRound) (n : ℕ) (ts : List Transfer)
      → ltb s.i packet_count ≡ false
      → run_server packet_count s (moved n ∷ ts)
        ≡ run_server packet_count (record { i = 0; read = 0; acknowledged = suc s.acknowledged }) ts
  unfolding run_server server_step
  server-acknowledges s n ts t = ground (arith, t)

  pub client-writes :
      (c : ClientRound) (n : ℕ) (ts : List Transfer)
      → ltb c.i packet_count ≡ true
      → run_client packet_count c (moved n ∷ ts)
        ≡ run_client packet_count (record c { i = suc c.i; written = (c.written + n) % two_64 }) ts
  unfolding run_client client_step
  client-writes c n ts t = ground (arith, t)

  pub client-reports :
      (c : ClientRound) (n : ℕ) (ts : List Transfer)
      → ltb c.i packet_count ≡ false
      → run_client packet_count c (moved n ∷ ts) ≡ run_client packet_count (reported c) ts
  unfolding run_client client_step
  client-reports c n ts t = ground (arith, t)

-- Both sides advance together.
run-lockstep-from :
    (packet_count : ℕ) (s : ServerRound) (c : ClientRound) (at_server at_client : List Transfer)
    → s.i ≡ c.i
    → s.acknowledged ≡ length c.acknowledgements
    → completed at_server ≡ completed at_client
    → let s2 = run_server packet_count s at_server in
      let c2 = run_client packet_count c at_client in
      (s2.i ≡ c2.i) × (s2.acknowledged ≡ length c2.acknowledgements)
unfolding run_server run_client server_step client_step completed
run-lockstep-from packet_count s c [] [] e k q = (e, k)
run-lockstep-from packet_count s c [] (failed ∷ ds) e k q = (e, k)
run-lockstep-from packet_count s c [] (moved n ∷ ds) e k q = absurd (omega (arith, q))
run-lockstep-from packet_count s c (failed ∷ ts) [] e k q = (e, k)
run-lockstep-from packet_count s c (failed ∷ ts) (failed ∷ ds) e k q = (e, k)
run-lockstep-from packet_count s c (failed ∷ ts) (moved n ∷ ds) e k q = absurd (omega (arith, q))
run-lockstep-from packet_count s c (moved n ∷ ts) [] e k q = absurd (omega (arith, q))
run-lockstep-from packet_count s c (moved n ∷ ts) (failed ∷ ds) e k q = absurd (omega (arith, q))
run-lockstep-from packet_count s c (moved n ∷ ts) (moved m ∷ ds) e k q =
    elim (Bool-cases (ltb s.i packet_count)) [
      | inl t ↦
          let u : ltb c.i packet_count ≡ true = rw (sym e) t in
          rw (server-reads packet_count s n ts t, client-writes packet_count c m ds u)
            (run-lockstep-from packet_count (record s { i = suc s.i; read = (s.read + n) % two_64 })
              (record c { i = suc c.i; written = (c.written + m) % two_64 }) ts ds (ap suc e) k
              (omega (arith, q)))
      | inr t ↦
          let u : ltb c.i packet_count ≡ false = rw (sym e) t in
          rw (server-acknowledges packet_count s n ts t, client-reports packet_count c m ds u)
            (run-lockstep-from packet_count
              (record { i = 0; read = 0; acknowledged = suc s.acknowledged }) (reported c) ts ds
              refl
              (omega (arith, k, length-append c.acknowledgements (divide c.written 1000000 ∷ [])))
              (omega (arith, q)))
    ]

abbrev pub server_start : ServerRound
server_start = record { i = 0; read = 0; acknowledged = 0 }

abbrev pub client_start : ClientRound
client_start = record { i = 0; written = 0; total_transferred = 0; acknowledgements = [] }

-- A server and a client with the same `PacketCount` that have completed as many transfers have
-- come as far in their rounds: the server has acknowledged exactly as often as the client has
-- reported an acknowledgement, and both wait for the same packet of the round.
pub run-lockstep :
    (packet_count : ℕ) (at_server at_client : List Transfer)
    → completed at_server ≡ completed at_client
    → let s = run_server packet_count server_start at_server in
      let c = run_client packet_count client_start at_client in
      (s.i ≡ c.i) × (s.acknowledged ≡ length c.acknowledgements)
run-lockstep packet_count at_server at_client q =
    run-lockstep-from packet_count server_start client_start at_server at_client refl refl q
