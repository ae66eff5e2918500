-- ===== src/Latency/Gathering.antt =====
-- pkg/wrtcltc/wrtcltc.go: the goroutines of a client for one peer, `GatherTotals` and `Close`: when
-- totals and acknowledgements are sent.
use mathlib.Core.List.{append-nil, append_assoc}
use weron.Prelude.{
  if◌then◌else◌, ℕ, ◌≡◌, refl, ap, ◌∙◌, Bool, true, false, none, some, List, [], ◌∷◌, ◌++◌, map,
  arith,
}
use weron.Latency.{
  Measurement, start, measure, measure_all, Totals, totals, RoundTrip, random_failed, write_failed,
  read_failed, acknowledged,
}

-- A round of the loop with the number of bytes written, a call of `GatherTotals`, or of `Close`.
pub data Event : Type 0 where
  round : ℕ → RoundTrip → Event
  gathers closes : Event

-- `is_listening`: the goroutine that waits for the closer, once, has not returned. `fails`: an error
-- is sent, with which `Wait` returns. `totals_sent` and `acknowledgements` are the two channels.
pub record Client : Type 0 where
  pub measurement : Measurement
  pub is_running : Bool
  pub is_listening : Bool
  pub fails : Bool
  pub totals_sent : List Totals
  pub acknowledgements : List (ℕ × ℕ)

abbrev pub new_client : Client
new_client = record {
  measurement = start;
  is_running = true;
  is_listening = true;
  fails = false;
  totals_sent = [];
  acknowledgements = [];
}

-- `printTotals`.
unfoldable pub print_totals : Measurement → List Totals
print_totals m = elim (totals m) [ none ↦ [] | some t ↦ t ∷ [] ]

-- The loop ends, and its deferred function prints the totals.
unfoldable pub ends : Bool → Client → Client
unfolding print_totals
ends fails c = record c {
  is_running = false;
  fails = fails;
  totals_sent = c.totals_sent ++ print_totals c.measurement;
}

-- The closer wakes up the goroutine that waits for it.
unfoldable pub notified : Client → Client
unfolding print_totals
notified c =
    if c.is_listening
    then record c {
      is_listening = false;
      totals_sent = c.totals_sent ++ print_totals c.measurement;
    }
    else c

unfoldable pub run_round : ℕ → RoundTrip → Client → Client
unfolding ends
run_round written random_failed c = ends true c
run_round written write_failed c = ends c.fails c
run_round written read_failed c = ends c.fails c
run_round written (acknowledged latency) c = record c {
  measurement = measure c.measurement latency;
  acknowledgements = c.acknowledgements ++ (written, latency) ∷ [];
}

unfoldable pub step : Client → Event → Client
unfolding notified run_round
step c (round written r) = if c.is_running then run_round written r c else c
step c gathers = notified c
step c closes = notified c

unfoldable pub run : Client → List Event → Client
run c [] = c
run c (e ∷ es) = run (step c e) es

-- Rounds that are acknowledged, with as many bytes.
abbrev pub all_rounds : List (ℕ × ℕ) → List Event
all_rounds = map (λ r. round r.0 (acknowledged r.1))

-- The loop of the client does not end.
unfoldable pub goes_on : List Event → Bool
goes_on [] = true
goes_on (round written (acknowledged latency) ∷ es) = goes_on es
goes_on (round written _ ∷ es) = false
goes_on (gathers ∷ es) = goes_on es
goes_on (closes ∷ es) = goes_on es

step_acknowledged :
    (c : Client) (written latency : ℕ)
    → c.is_running ≡ true
    → step c (round written (acknowledged latency)) ≡ record c {
      measurement = measure c.measurement latency;
      acknowledgements = c.acknowledgements ++ (written, latency) ∷ [];
    }
unfolding step run_round
step_acknowledged c written latency h = rw h refl

notified_again : (c : Client) → c.is_listening ≡ false → notified c ≡ c
unfolding notified
notified_again c h = rw h refl

-- What a client is after rounds that are all acknowledged.
abbrev pub measured : List (ℕ × ℕ) → Client → Client
measured rs c = record c {
  measurement = measure_all c.measurement (map (λ r. r.1) rs);
  acknowledgements = c.acknowledgements ++ rs;
}

pub run-rounds :
    (rs : List (ℕ × ℕ)) (es : List Event) (c : Client)
    → c.is_running ≡ true
    → run c (all_rounds rs ++ es) ≡ run (measured rs c) es
unfolding run measure_all
run-rounds [] es c h = rw (append-nil c.acknowledgements) refl
run-rounds (r ∷ rs) es c h =
    let one : Client = measured (r ∷ []) c in
    ap (λ d. run d (all_rounds rs ++ es)) (step_acknowledged c r.0 r.1 h)
    ∙ run-rounds rs es one h
    ∙ rw (append_assoc c.acknowledgements (r ∷ []) rs) refl

-- Once the totals were gathered, nothing more is sent until the loop ends.
run-silent :
    (es : List Event) (c : Client)
    → c.is_running ≡ true
    → c.is_listening ≡ false
    → goes_on es ≡ true
    → (run c es).totals_sent ≡ c.totals_sent
unfolding run goes_on step measure measure_all
run-silent [] c h l g = refl
run-silent (round written (acknowledged latency) ∷ es) c h l g =
    ap (λ d. (run d es).totals_sent) (step_acknowledged c written latency h)
    ∙ run-silent es (measured ((written, latency) ∷ []) c) h l g
run-silent (round written random_failed ∷ es) c h l g = absurd (ground (arith, g))
run-silent (round written write_failed ∷ es) c h l g = absurd (ground (arith, g))
run-silent (round written read_failed ∷ es) c h l g = absurd (ground (arith, g))
run-silent (gathers ∷ es) c h l g =
    ap (λ d. (run d es).totals_sent) (notified_again c l) ∙ run-silent es c h l g
run-silent (closes ∷ es) c h l g =
    ap (λ d. (run d es).totals_sent) (notified_again c l) ∙ run-silent es c h l g

gather-first :
    (c : Client) (es : List Event)
    → c.is_listening ≡ true
    → run c (gathers ∷ es)
      ≡ run
          (record c {
            is_listening = false;
            totals_sent = c.totals_sent ++ print_totals c.measurement;
          })
          es
unfolding run step notified
gather-first c es h = rw h refl

-- The first call of `GatherTotals` yields the totals of all rounds that were acknowledged before it,
-- and each of these rounds is acknowledged to the user, in their order; until the loop ends, no later
-- call of `GatherTotals` or of `Close` yields any totals, however many rounds there are in between.
pub gathered_once :
    (rs : List (ℕ × ℕ)) (more : List Event)
    → goes_on more ≡ true
    → ((run new_client (all_rounds rs ++ gathers ∷ more)).totals_sent
        ≡ print_totals (measure_all start (map (λ r. r.1) rs)))
      × ((run new_client (all_rounds rs ++ gathers ∷ [])).acknowledgements ≡ rs)
unfolding run
gathered_once rs more g =
    let c : Client = measured rs new_client in
    let d : Client = record c {
      is_listening = false;
      totals_sent = print_totals (measure_all start (map (λ r. r.1) rs));
    } in
    let reach =
      λ (es : List Event). run-rounds rs (gathers ∷ es) new_client refl ∙ gather-first c es refl in
    (
      ap (λ x. x.totals_sent) (reach more) ∙ run-silent more d refl refl g,
      ap (λ x. x.acknowledgements) (reach []),
    )
