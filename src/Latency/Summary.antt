-- ===== src/Latency/Summary.antt =====
-- The totals describe the latencies that were measured.
use weron.Prelude.{
  length, All, ℕ, ◌+◌, ◌*◌, ◌/◌, ◌≤◌, ◌<◌, ◌≡◌, refl, ap, some, List, [], ◌∷◌, arith,
}
use weron.Latency.{
  two_63, Measurement, start, measure, measure_all, Totals, totals, RoundTrip, acknowledged,
  client_loop,
}

unfoldable pub sum : List ℕ → ℕ
sum [] = 0
sum (x ∷ xs) = x + sum xs

-- The latencies before the first failure.
unfoldable pub latencies : List RoundTrip → List ℕ
latencies [] = []
latencies (acknowledged latency ∷ rounds) = latency ∷ latencies rounds
latencies (_ ∷ rounds) = []

pub loop-measure :
    (m : Measurement) (rounds : List RoundTrip)
    → client_loop m rounds ≡ measure_all m (latencies rounds)
unfolding client_loop measure_all latencies
loop-measure m [] = refl
loop-measure m (acknowledged latency ∷ rounds) = loop-measure (measure m latency) rounds
loop-measure m (_ ∷ rounds) = refl

-- The bounds only get wider.
measure_all-widens :
    (m : Measurement) (ls : List ℕ)
    → ((measure_all m ls).min_latency ≤ m.min_latency)
      × (m.max_latency ≤ (measure_all m ls).max_latency)
unfolding measure_all measure
measure_all-widens m [] = omega arith
measure_all-widens m (l ∷ ls) = ground (arith, measure_all-widens (measure m l) ls)

measure_all-bounds :
    (m : Measurement) (ls : List ℕ)
    → All (λ l. ((measure_all m ls).min_latency ≤ l) × (l ≤ (measure_all m ls).max_latency)) ls
unfolding measure_all measure
measure_all-bounds m [] = tt
measure_all-bounds m (l ∷ ls) =
    (ground (arith, measure_all-widens (measure m l) ls), measure_all-bounds (measure m l) ls)

pub measure_all-sums :
    (m : Measurement) (ls : List ℕ)
    → m.total_latency + sum ls < two_63
    → m.packets_written + length ls < two_63
    → ((measure_all m ls).total_latency ≡ m.total_latency + sum ls)
      × ((measure_all m ls).packets_written ≡ m.packets_written + length ls)
unfolding measure_all measure sum
measure_all-sums m [] h k = omega arith
measure_all-sums m (l ∷ ls) h k =
    let ih = measure_all-sums (measure m l) ls (omega arith) (omega arith) in omega (arith, ih)

-- A sum lies between as many times the least and the greatest number.
sum-between :
    (lo hi : ℕ) (ls : List ℕ)
    → All (λ l. (lo ≤ l) × (l ≤ hi)) ls
    → (length ls * lo ≤ sum ls) × (sum ls ≤ length ls * hi)
unfolding sum
sum-between lo hi [] h = omega arith
sum-between lo hi (l ∷ ls) h =
    let ih = sum-between lo hi ls h.1 in (omega (arith, ih.0, h.0.0), omega (arith, ih.1, h.0.1))

mean-between : (n s lo hi : ℕ) → 0 < n → n * lo ≤ s → s ≤ n * hi → (lo ≤ s / n) × (s / n ≤ hi)
mean-between n s lo hi p a b = (grind arith, grind arith)

-- If at least one packet was acknowledged before the first failure, and the latencies add up to less
-- than 2^63, the totals are sent: they count those packets, their average is the quotient of the sum
-- by the count, the minimum is at most the average and the average at most the maximum, and every
-- latency lies between the minimum and the maximum.
pub totals_describe :
    (rounds : List RoundTrip) (l : ℕ) (ls : List ℕ)
    → latencies rounds ≡ l ∷ ls
    → sum (latencies rounds) < two_63
    → length (latencies rounds) < two_63
    → (t : Totals) × (totals (client_loop start rounds) ≡ some t)
      × (t.packets_written ≡ length (latencies rounds))
      × (t.latency_average ≡ sum (latencies rounds) / length (latencies rounds))
      × (t.latency_min ≤ t.latency_average)
      × (t.latency_average ≤ t.latency_max)
      × All (λ x. (t.latency_min ≤ x) × (x ≤ t.latency_max)) (latencies rounds)
unfolding totals
totals_describe rounds l ls e h k =
    let m = measure_all start (latencies rounds) in
    let all = measure_all-bounds start (latencies rounds) in
    let sums = measure_all-sums start (latencies rounds) (omega arith) (omega arith) in
    let between = sum-between m.min_latency m.max_latency (latencies rounds) all in
    let n = length (latencies rounds) in
    let some_packet : 0 < n = omega (arith, ap length e) in
    let mean =
      mean-between n (sum (latencies rounds)) m.min_latency m.max_latency some_packet between.0
        between.1 in
    (
      record {
        latency_average = sum (latencies rounds) / n;
        latency_min = m.min_latency;
        latency_max = m.max_latency;
        packets_written = n;
      },
      rw (loop-measure start rounds) (ground (arith, sums)),
      refl,
      refl,
      mean.0,
      mean.1,
      all,
    )
