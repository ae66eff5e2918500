-- ===== src/Conn/Negotiation/Claims.antt =====
-- Which name an adapter can end up with.
use weron.Prelude.{
  Option-cases, str_eq_refl, contains, remove, contains-remove, ℕ, String, ◌≡◌, refl, ◌≢◌, ◌⊎◌, inl,
  inr, true, false, not, ◌||◌, List, [], ◌∷◌, arith,
}
use weron.Conn.Negotiation.Conflicts.{named_other}
use weron.Conn.Negotiation.{
  Message, greeting, kick, backoff, claimed, unknown, Negotiator, NamedAdapterConfig, is_unnamed,
  connected, ready, receive,
}

-- What happens to one adapter: a new connection to the signaler, the timer, a message of any peer.
pub data Happening : Type 0 where
  connects readies : Happening
  receives : Message → Happening

module _ (config : NamedAdapterConfig) where
  unfoldable pub happen : Negotiator → Happening → Negotiator
  happen s connects = connected config s
  happen s readies = (ready config s).0
  happen s (receives m) = (receive config s m).0

  unfoldable pub run : Negotiator → List Happening → Negotiator
  run s [] = s
  run s (h ∷ hs) = run (happen s h) hs

  -- The candidates are configured names, and so is the name, once there is one.
  pub record Owns (s : Negotiator) : Type 0 where
    pub candidates : (x : String) → contains x s.candidates ≡ true → contains x config.names ≡ true
    pub name : (is_unnamed s ≡ true) ⊎ (contains s.id config.names ≡ true)

  happen-Owns : (s : Negotiator) (h : Happening) → Owns s → Owns (happen s h)
  unfolding happen connected ready receive contains
  happen-Owns s connects o = record { candidates = λ x h. h; name = inl refl }
  happen-Owns s readies o = elim (Option-cases (config.pick s.candidates)) [
    | inl p ↦ record { candidates = λ x h. ground arith; name = ground arith }
    | inr (y, p) ↦ record {
      candidates = λ x h. ground arith;
      name = ground (arith, o.candidates y, config.pick-contains s.candidates y p);
    }
  ]
  happen-Owns s (receives (kick x)) o = record {
    candidates = λ y h. ground (arith, contains-remove y x s.candidates, o.candidates y);
    name = o.name;
  }
  happen-Owns s (receives _) o = o

  abbrev pub opened : ℕ → Negotiator
  opened timestamp = record { candidates = []; id = ""; timestamp = timestamp }

  run-Owns : (s : Negotiator) (hs : List Happening) → Owns s → Owns (run s hs)
  unfolding run
  run-Owns s [] o = o
  run-Owns s (h ∷ hs) o = run-Owns (happen s h) hs (happen-Owns s h o)

  opened-Owns : (timestamp : ℕ) → Owns (opened timestamp)
  unfolding contains
  opened-Owns timestamp = record { candidates = λ x h. ground arith; name = inl refl }

  -- Whatever connections, timeouts and messages follow the opening of an adapter, in any order, its
  -- name is not set or one of the configured names, and all its candidates are configured names.
  pub run-opened :
      (timestamp : ℕ) (hs : List Happening) (x : String)
      → let s = run (opened timestamp) hs in
        ((is_unnamed s ≡ true) ⊎ (contains s.id config.names ≡ true))
        × ((not (contains x s.candidates) || contains x config.names) ≡ true)
  run-opened timestamp hs x =
      let o = run-Owns (opened timestamp) hs (opened-Owns timestamp) in
      (o.name, ground (arith, o.candidates x))

  abbrev NoReconnect : List Happening → Type 0
  NoReconnect [] = Unit
  NoReconnect (connects ∷ hs) = ⊥
  NoReconnect (_ ∷ hs) = NoReconnect hs

  abbrev Excluded : String → Negotiator → Type 0
  Excluded x s = (contains x s.candidates ≡ false) × (s.id ≢ x)

  readies-Excluded : (x : String) (s : Negotiator) → Excluded x s → Excluded x (ready config s).0
  unfolding ready contains
  readies-Excluded x s (c, n) = (ground arith, named_other config s x c n)

  run-Excluded :
      (x : String) (s : Negotiator) (hs : List Happening)
      → NoReconnect hs
      → Excluded x s
      → Excluded x (run s hs)
  unfolding run happen receive
  run-Excluded x s [] q e = e
  run-Excluded x s (connects ∷ hs) q e = absurd q
  run-Excluded x s (readies ∷ hs) q e =
      run-Excluded x (ready config s).0 hs q (readies-Excluded x s e)
  run-Excluded x s (receives (kick y) ∷ hs) q (c, n) =
      run-Excluded x (record s { candidates = remove y s.candidates }) hs q
        (ground (arith, contains-remove x y s.candidates), n)
  run-Excluded x s (receives (greeting ids t) ∷ hs) q e = run-Excluded x s hs q e
  run-Excluded x s (receives backoff ∷ hs) q e = run-Excluded x s hs q e
  run-Excluded x s (receives (claimed y) ∷ hs) q e = run-Excluded x s hs q e
  run-Excluded x s (receives (unknown y) ∷ hs) q e = run-Excluded x s hs q e

  -- A name for which an adapter that does not have it receives a kick is never its name afterwards,
  -- whatever messages and timeouts follow, unless it connects to the signaler anew.
  pub run-kicked :
      (x : String) (s : Negotiator) (hs : List Happening)
      → s.id ≢ x
      → NoReconnect hs
      → (run (receive config s (kick x)).0 hs).id ≢ x
  unfolding receive
  run-kicked x s hs n q =
      (run-Excluded x (record s { candidates = remove x s.candidates }) hs q
        (rw (contains-remove x x s.candidates, str_eq_refl x) refl, n)).1
