-- ===== src/Tests/Overlays.antt =====
-- The Ethernet overlay at concrete inputs.
use weron.Prelude.{lookup, ◌≡◌, refl, none, List, [], ◌∷◌}
use weron.Ethernet.Wait.{
  Event, accepted, ended, Waiting, new_waiting, goes_on, run, last_conn, lasts, run-last_conn,
}

-- A peer connects again before its first connection ends.
abbrev rejoining : List Event
rejoining = accepted "a" 1 ∷ accepted "a" 2 ∷ ended "a" 1 ∷ []

run-last_conn_example :
    (t : Waiting) × (run new_waiting rejoining ≡ goes_on t) × (lookup "a" t.peers ≡ none)
unfolding lasts last_conn
run-last_conn_example = run-last_conn "a" rejoining new_waiting refl
