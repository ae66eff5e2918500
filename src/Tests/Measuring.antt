-- ===== src/Tests/Measuring.antt =====
-- The latency of a client with a server at concrete inputs.
use weron.Prelude.{
  leb, if◌then◌else◌, length, replicate, ℕ, ◌-◌, ◌≤◌, ◌<◌, ◌≡◌, refl, Option, none, some, [], ◌∷◌,
  ◌++◌, arith,
}
use weron.Encryption.{Bytes}
use weron.Latency.{measure, measure_all, divide, totals}
use weron.Latency.Gathering.{
  gathers, closes, new_client, print_totals, run, all_rounds, goes_on, gathered_once,
}
use weron.Latency.Echo.{Channel}

abbrev read_padded : ℕ → Bytes → Option Bytes
read_padded n message =
    if leb (length message) n then some (message ++ replicate (n - length message) 0) else none

read_padded_fits :
    (n : ℕ) (message : Bytes)
    → length message ≤ n
    → read_padded n message ≡ some (message ++ replicate (n - length message) 0)
read_padded_fits n message h = ground (arith, h)

read_padded_short : (n : ℕ) (message : Bytes) → n < length message → read_padded n message ≡ none
read_padded_short n message h = ground (arith, h)

abbrev padded : Channel
padded = record {
  read_into = read_padded;
  read-fits = read_padded_fits;
  read-short = read_padded_short;
}

gathered_once_example :
    ((run new_client
        (all_rounds ((2, 10) ∷ (2, 20) ∷ []) ++ gathers ∷ gathers ∷ closes ∷ [])).totals_sent
      ≡ record { latency_average = 15; latency_min = 10; latency_max = 20; packets_written = 2 }
        ∷ [])
    × ((run new_client (all_rounds ((2, 10) ∷ (2, 20) ∷ []) ++ gathers ∷ [])).acknowledgements
        ≡ (2, 10) ∷ (2, 20) ∷ [])
unfolding print_totals measure_all totals measure divide goes_on
gathered_once_example = gathered_once ((2, 10) ∷ (2, 20) ∷ []) (gathers ∷ closes ∷ []) refl
