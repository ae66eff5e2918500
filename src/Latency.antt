-- ===== src/Latency.antt =====
-- pkg/wrtcltc/wrtcltc.go: the measurement loop of the client. An `int64` is its bit pattern below
-- 2^64; a latency is what `time.Since` returns on the monotonic clock, below 2^63.
pub mod Summary
pub mod Echo
pub mod Gathering
use weron.Prelude.{
  ltb, leb, if◌then◌else◌, ℕ, ◌+◌, ◌-◌, ◌/◌, ◌%◌, ◌&&◌, Option, none, some, List, [], ◌∷◌,
}

abbrev pub two_63 : ℕ
two_63 = 9223372036854775808

abbrev pub two_64 : ℕ
two_64 = 18446744073709551616

-- The variables of the goroutine; `min_latency` starts at `math.MaxInt64`.
pub record Measurement : Type 0 where
  pub packets_written : ℕ
  pub total_latency : ℕ
  pub min_latency : ℕ
  pub max_latency : ℕ

abbrev pub start : Measurement
start = record { packets_written = 0; total_latency = 0; min_latency = two_63 - 1; max_latency = 0 }

-- The part of a round behind `latency := time.Since(start)`, with the wrap-around of `+=` and `++`.
unfoldable pub measure : Measurement → ℕ → Measurement
measure m latency = record {
  packets_written = (m.packets_written + 1) % two_64;
  total_latency = (m.total_latency + latency) % two_64;
  min_latency = if ltb latency m.min_latency then latency else m.min_latency;
  max_latency = if ltb m.max_latency latency then latency else m.max_latency;
}

unfoldable pub measure_all : Measurement → List ℕ → Measurement
measure_all m [] = m
measure_all m (latency ∷ ls) = measure_all (measure m latency) ls

-- Go's `/` on `int64` for a positive divisor: it truncates towards 0.
unfoldable pub divide : ℕ → ℕ → ℕ
divide a n = if ltb a two_63 then a / n else (two_64 - (two_64 - a) / n) % two_64

pub record Totals : Type 0 where
  pub latency_average : ℕ
  pub latency_min : ℕ
  pub latency_max : ℕ
  pub packets_written : ℕ

-- `printTotals`: `packetsWritten >= 1` is a comparison of signed numbers.
unfoldable pub totals : Measurement → Option Totals
unfolding divide
totals m =
    if leb 1 m.packets_written && ltb m.packets_written two_63
    then some (record {
      latency_average = divide m.total_latency m.packets_written;
      latency_min = m.min_latency;
      latency_max = m.max_latency;
      packets_written = m.packets_written;
    })
    else none

-- A round trip of the client: the writing and the reading of one packet.
pub data RoundTrip : Type 0 where
  random_failed write_failed read_failed : RoundTrip
  acknowledged : ℕ → RoundTrip

-- The loop: it ends at the first failure; then the deferred function prints the totals.
unfoldable pub client_loop : Measurement → List RoundTrip → Measurement
client_loop m [] = m
client_loop m (acknowledged latency ∷ rounds) = client_loop (measure m latency) rounds
client_loop m (_ ∷ rounds) = m
