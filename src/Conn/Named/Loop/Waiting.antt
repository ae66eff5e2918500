-- ===== src/Conn/Named/Loop/Waiting.antt =====
-- Who is accepted before the named adapter has chosen a name.
use weron.Prelude.{ℕ, suc, String, ◌≡◌, refl, ◌≢◌, true, none, [], arith}
use weron.Conn.Negotiation.{
  Message, greeting, kick, backoff, claimed, unknown, Negotiator, NamedAdapterConfig, is_unnamed,
  connected, ready, receive,
}
use weron.Conn.Named.Loop.{
  naming, Hub, assigns, refuses, names, broadcasts, announces, panics, receives, takes, sends,
  hands, hears, claims, releases, ends, finds_name, finds_none, waits, Reach, here, next,
}

-- No name is chosen yet, and none is being sent.
abbrev pub Unnamed : Hub → Type 0
Unnamed s = (is_unnamed s.own ≡ true) × (s.accepted ≡ []) × (s.position ≢ naming)

module _ (id_channel : String) (config : NamedAdapterConfig) where
  -- How often a name is chosen.
  unfoldable pub names_in : {s t : Hub} → Reach id_channel config s t → ℕ
  names_in here = 0
  names_in (next r (names ms e f)) = suc (names_in r)
  names_in (next r _) = names_in r

  receive_id : (n : Negotiator) (m : Message) → (receive config n m).0.id ≡ n.id
  unfolding receive
  receive_id n (greeting ids stamp) = refl
  receive_id n (kick id) = refl
  receive_id n backoff = refl
  receive_id n (claimed id) = refl
  receive_id n (unknown type) = refl

  connected-is_unnamed : (n : Negotiator) → is_unnamed (connected config n) ≡ true
  unfolding connected
  connected-is_unnamed n = refl

  ready-is_unnamed :
      (n : Negotiator) → (ready config n).1 ≡ none → is_unnamed (ready config n).0 ≡ true
  unfolding ready
  ready-is_unnamed n e = ground (arith, e)

  -- Whatever the peers and the signaler send: an adapter that has no name, has accepted no peer and
  -- is not sending a name has accepted none, and has none, as long as it chooses none.
  pub none_accepted :
      {s t : Hub} (r : Reach id_channel config s t) → names_in r ≡ 0 → Unnamed s → Unnamed t
  unfolding names_in
  none_accepted here e i = i
  none_accepted (next {t} r (assigns p)) e i =
      let (n, a, k) = none_accepted r e i in (connected-is_unnamed t.own, a, k)
  none_accepted (next {t} r (refuses p q)) e i =
      let (n, a, k) = none_accepted r e i in (ready-is_unnamed t.own q, a, λ z. cc)
  none_accepted (next r (names ms p q)) e i = absurd (omega (arith, e))
  none_accepted (next r (broadcasts p)) e i = let (n, a, k) = none_accepted r e i in absurd (k p)
  none_accepted (next r (announces ls p h q)) e i =
      let (n, a, k) = none_accepted r e i in (n, a, λ z. cc)
  none_accepted (next r (panics p h q)) e i = let (n, a, k) = none_accepted r e i in (n, a, λ z. cc)
  none_accepted (next r (receives l p)) e i = let (n, a, k) = none_accepted r e i in (n, a, λ z. cc)
  none_accepted (next r (takes l p h q)) e i =
      let (n, a, k) = none_accepted r e i in (n, a, λ z. cc)
  none_accepted (next r (sends l x p h q)) e i =
      let (n, a, k) = none_accepted r e i in (n, a, λ z. cc)
  none_accepted (next r (hands x xs p h)) e i = none_accepted r e i
  none_accepted (next {t} r (hears m)) e i =
      let (n, a, k) = none_accepted r e i in (rw (receive_id t.own m) n, a, k)
  none_accepted (next r (claims peer_id rid v h)) e i = none_accepted r e i
  none_accepted (next r (releases h)) e i = none_accepted r e i
  none_accepted (next r (ends rid h)) e i = none_accepted r e i
  none_accepted (next r (finds_name before l after q f)) e i =
      let (n, a, k) = none_accepted r e i in absurd (ground (arith, n, f))
  none_accepted (next r (finds_none before l after q f)) e i = none_accepted r e i
  none_accepted (next r (waits before l after q)) e i = none_accepted r e i
