-- ===== src/Cmd/Interrupt.antt =====
-- cmd/weron/cmd: how a command ends by an interrupt, with `addInterruptHandler` of chat.go and the
-- functions that utility_latency.go and utility_throughput.go run before the adapter is closed.
use mathlib.Core.List.{append-nil}
use weron.Prelude.{
  if◌then◌else◌, length, ℕ, suc, ◌+◌, ◌*◌, ◌≤◌, ◌<◌, ◌≡◌, refl, sym, ap, ◌∙◌, Bool, true, false,
  not, ◌&&◌, ◌||◌, none, some, List, [], ◌∷◌, map, arith,
}
use weron.Latency.{two_63, Measurement, start, measure_all, totals}
use weron.Latency.Gathering.{
  Client, new_client, print_totals, notified, run, all_rounds, measured, run-rounds,
}
use weron.Throughput.{Transfer, ClientRound, run_client, total_transferred, completed, client_start}
use weron.Latency.Summary.{sum, measure_all-sums}
use weron.Throughput.Rounds.{bytes_written, rounds_exact}

-- What `Close` of the adapter does, once it is called.
pub data Closing : Type 0 where
  closes_nil closes_error hangs : Closing

-- `blocked`: the handler waits in the function before the end, and no further signal is received.
pub data Ending : Type 0 where
  runs blocked forced closed panicked closing : Ending

-- The handler: whether a signal is received, whether the function before the end returns, whether
-- another signal comes before `Close` returns, and what `Close` does.
unfoldable pub add_interrupt_handler : Bool → Bool → Bool → Closing → Ending
add_interrupt_handler false before second close = runs
add_interrupt_handler true false second close = blocked
add_interrupt_handler true true true close = forced
add_interrupt_handler true true false closes_nil = closed
add_interrupt_handler true true false closes_error = panicked
add_interrupt_handler true true false hangs = closing

abbrev pub is_nil {ℓ} : {A : Type ℓ} → List A → Bool
is_nil [] = true
is_nil (x ∷ xs) = false

-- The function of the utilities returns: a client that has printed an acknowledgement waits until it
-- is told of totals. Whether `Broadcast`, which does not wait, finds the function at its receive when
-- the totals come is `is_received`; it is called once for the totals, and what it misses is lost.
unfoldable pub before_returns : Bool → Bool → Bool → Bool → Bool
before_returns is_server acked totals_come is_received =
    is_server || not acked || (totals_come && is_received)

-- utility_latency.go for one peer: `acked`, and the totals that come of `GatherTotals`.
unfoldable pub interrupt_latency : Bool → Client → Bool → Bool → Closing → Ending
unfolding before_returns add_interrupt_handler
interrupt_latency is_server c is_received second close =
    let acked = not (is_nil c.acknowledgements) in
    let totals_come = not (is_nil (notified c).totals_sent) in
    add_interrupt_handler true (before_returns is_server acked totals_come is_received) second close

-- utility_throughput.go for one peer.
unfoldable pub interrupt_throughput : Bool → ClientRound → Bool → Bool → Closing → Ending
unfolding before_returns add_interrupt_handler
interrupt_throughput is_server c is_received second close =
    let acked = not (is_nil c.acknowledgements) in
    let totals_come : Bool = elim (total_transferred c) [ none ↦ false | some t ↦ true ] in
    add_interrupt_handler true (before_returns is_server acked totals_come is_received) second close

print_totals_some :
    (m : Measurement)
    → 1 ≤ m.packets_written
    → m.packets_written < two_63
    → is_nil (print_totals m) ≡ false
unfolding print_totals totals
print_totals_some m h k = ground (arith, h, k)

-- How a process ends whose handler calls `Close`.
unfoldable pub after_close : Bool → Closing → Ending
after_close second close =
    if second
    then forced
    else elim close [ closes_nil ↦ closed | closes_error ↦ panicked | hangs ↦ closing ]

add_interrupt_handler_returns :
    (second : Bool) (close : Closing)
    → add_interrupt_handler true true second close ≡ after_close second close
unfolding add_interrupt_handler after_close
add_interrupt_handler_returns true close = refl
add_interrupt_handler_returns false closes_nil = refl
add_interrupt_handler_returns false closes_error = refl
add_interrupt_handler_returns false hangs = refl

all_measured : (rs : List (ℕ × ℕ)) → run new_client (all_rounds rs) ≡ measured rs new_client
unfolding run
all_measured rs =
    ap (run new_client) (sym (append-nil (all_rounds rs))) ∙ run-rounds rs [] new_client refl

gathered_some :
    (r : ℕ × ℕ) (rs : List (ℕ × ℕ))
    → sum (map (λ x. x.1) (r ∷ rs)) < two_63
    → length (map (λ x. x.1) (r ∷ rs)) < two_63
    → is_nil (notified (measured (r ∷ rs) new_client)).totals_sent ≡ false
unfolding notified
gathered_some r rs h k =
    let ls = map (λ x. x.1) (r ∷ rs) in
    let (total, packets) = measure_all-sums start ls (omega (arith, h)) (omega (arith, k)) in
    print_totals_some (measure_all start ls) (omega (arith, packets)) (omega (arith, packets, k))

-- After an interrupt, a client of the latency utility, or a server, always comes to close its adapter,
-- after any number of rounds that are all acknowledged: it does not wait for totals that are never
-- sent. Then another interrupt forces the end with an error, or the process ends without one if
-- `Close` returns nil, panics if it returns an error, and stays if it never returns. That is so if the
-- sum of the latencies and their number are below 2^63, and if the handler is at its receive when the
-- totals are broadcast, since `Broadcast` does not wait for it.
pub latency_interrupt_closes :
    (is_server : Bool) (rs : List (ℕ × ℕ)) (second : Bool) (close : Closing)
    → sum (map (λ r. r.1) rs) < two_63
    → length (map (λ r. r.1) rs) < two_63
    → interrupt_latency is_server (run new_client (all_rounds rs)) true second close
      ≡ after_close second close
unfolding interrupt_latency before_returns
latency_interrupt_closes true [] second close h k = add_interrupt_handler_returns second close
latency_interrupt_closes false [] second close h k =
    rw (all_measured []) (add_interrupt_handler_returns second close)
latency_interrupt_closes true (r ∷ rs) second close h k = add_interrupt_handler_returns second close
latency_interrupt_closes false (r ∷ rs) second close h k =
    rw (all_measured (r ∷ rs), gathered_some r rs h k) (add_interrupt_handler_returns second close)

some_round :
    (xs : List ℕ) (p i m : ℕ) → length xs * suc p + i ≡ m → i ≤ p → p < m → is_nil xs ≡ false
some_round [] p i m e h k = absurd (omega (arith, e, h, k))
some_round (x ∷ xs) p i m e h k = refl

no_totals : (c : ClientRound) → c.total_transferred ≡ 0 → total_transferred c ≡ none
unfolding total_transferred
no_totals c e = ground (arith, e)

-- An interrupt of a client of the throughput utility that has completed a round without any bytes, as
-- it does where `PacketLength` is 0: an acknowledgement was printed, no totals come, and the handler
-- waits for them, without receiving any further signal.
pub throughput_interrupt_blocks :
    (packet_count : ℕ) (ts : List Transfer) (is_received second : Bool) (close : Closing)
    → packet_count < completed ts
    → bytes_written packet_count 0 ts ≡ 0
    → interrupt_throughput false (run_client packet_count client_start ts) is_received second close
      ≡ blocked
unfolding interrupt_throughput before_returns add_interrupt_handler
throughput_interrupt_blocks packet_count ts is_received second close h z =
    let c : ClientRound = run_client packet_count client_start ts in
    let (s, bound, e, i, total) = rounds_exact packet_count [] ts (omega (arith, z)) in
    let acked = some_round c.acknowledgements packet_count c.i (completed ts) e i h in
    let nothing = no_totals c (omega (arith, total, z)) in rw (acked, nothing) refl
