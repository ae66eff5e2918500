-- ===== src/Conn/Named/Loop/Naming.antt =====
-- The loop of the named adapter when it chooses a name: who waits for it, and who is told.
use weron.Prelude.{
  lookup, insert, ℕ, suc, String, ◌≡◌, refl, ap, false, none, some, List, [], ◌∷◌, ◌++◌, arith,
  str_eq,
}
use weron.Conn.Negotiation.{Message, Negotiator, NamedAdapterConfig, is_unnamed, ready}
use weron.Conn.Named.{Link, Links, Named, accept}
use weron.Conn.Named.Delivery.{accept_first}
use weron.Conn.Named.Loop.{
  idle, panicked, free, Hub, announce, assigns, refuses, names, broadcasts, announces, panics,
  receives, takes, sends, hands, hears, claims, releases, ends, finds_name, finds_none, waits,
  Reach, here, next,
}
use weron.Conn.Named.Tables.{Unknown}
use weron.Conn.Named.Loop.Delivered.{at_rest}

module _ (id_channel : String) (config : NamedAdapterConfig) where
  -- How often the steps wake up those who wait.
  unfoldable pub broadcasts_in : {s t : Hub} → Reach id_channel config s t → ℕ
  broadcasts_in here = 0
  broadcasts_in (next r (broadcasts e)) = suc (broadcasts_in r)
  broadcasts_in (next r _) = broadcasts_in r

  ready_named :
      (n : Negotiator) (ms : List Message)
      → (ready config n).1 ≡ some ms
      → is_unnamed (ready config n).0 ≡ false
  unfolding ready
  ready_named n ms e = ground (arith, e)

  -- A goroutine that is spawned without a name waits for the next broadcast at the least.
  pub blocked_stays :
      {s t : Hub} (r : Reach id_channel config s t)
      → broadcasts_in r ≡ 0
      → (more : List Link) × (t.blocked ≡ more ++ s.blocked)
  unfolding broadcasts_in
  blocked_stays here e = ([], refl)
  blocked_stays (next r (assigns p)) e = blocked_stays r e
  blocked_stays (next r (refuses p q)) e = blocked_stays r e
  blocked_stays (next r (names ms p q)) e = blocked_stays r e
  blocked_stays (next r (broadcasts p)) e = absurd (omega (arith, e))
  blocked_stays (next r (announces ls p h q)) e = blocked_stays r e
  blocked_stays (next r (panics p h q)) e = blocked_stays r e
  blocked_stays (next r (receives l p)) e = blocked_stays r e
  blocked_stays (next r (takes l p h q)) e = blocked_stays r e
  blocked_stays (next r (sends l x p h q)) e = blocked_stays r e
  blocked_stays (next r (hands x xs p h)) e = blocked_stays r e
  blocked_stays (next r (hears m)) e = blocked_stays r e
  blocked_stays (next r (claims peer_id rid v h)) e = blocked_stays r e
  blocked_stays (next r (releases h)) e = blocked_stays r e
  blocked_stays (next r (ends rid h)) e = blocked_stays r e
  blocked_stays (next r (finds_name before l after q n)) e = blocked_stays r e
  blocked_stays (next r (finds_none before l after q n)) e = blocked_stays r e
  blocked_stays (next r (waits before l after q)) e =
      let (more, m) = blocked_stays r e in (l ∷ more, ap (◌∷◌ l) m)

  -- The peer of a goroutine that has read the empty ID but does not wait yet when the name is chosen
  -- is missed: a state is reached in which the adapter has its name and its loop and its lock are
  -- free, and that peer waits in every state that is reached from there without another broadcast.
  pub missed_broadcast :
      (s : Hub) (t : Named) (a : List Link) (l : Link) (ms : List Message) (told : List Link)
      → s.locking ≡ l ∷ []
      → (ready config s.own).1 ≡ some ms
      → announce id_channel t ≡ some told
      → (u : Hub) × Reach id_channel config (at_rest s t a) u
        × (is_unnamed u.own ≡ false)
        × (u.position ≡ idle)
        × (u.holder ≡ free)
        × ((v : Hub) (r : Reach id_channel config u v)
            → broadcasts_in r ≡ 0
            → (more : List Link) × (v.blocked ≡ more ++ l ∷ []))
  missed_broadcast s t a l ms told e q w =
      let named = next (next here (names ms refl q)) (broadcasts refl) in
      let late = next (next named (waits [] l [] e)) (announces told refl refl w) in
      (_, late, ready_named s.own ms q, refl, refl, λ v r z. blocked_stays r z)

  announce-insert :
      (q : String) (p : Links) (t : Named)
      → lookup id_channel p ≡ none
      → announce id_channel (insert q p t) ≡ none
  unfolding announce insert
  announce-insert q p [] e = ground (arith, e)
  announce-insert q p ((k, v) ∷ t) e = ground (arith, e, announce-insert q p t e)

  lookup_other :
      (l : Link)
      → str_eq l.channel_id id_channel ≡ false
      → lookup id_channel ((l.channel_id, l) ∷ []) ≡ none
  unfolding lookup
  lookup_other l c = rw c refl

  -- A name is chosen while the table has no ID channel of a peer, of which another data channel
  -- has been accepted: a state is reached in which the loop has ended by a nil dereference.
  pub early_name_panics :
      (s : Hub) (t : Named) (a : List Link) (l : Link) (ms : List Message)
      → Unknown l.peer_id t
      → lookup l.peer_id t ≡ none
      → str_eq l.channel_id id_channel ≡ false
      → (ready config s.own).1 ≡ some ms
      → (u : Hub) × Reach id_channel config (at_rest s t a) u × (u.position ≡ panicked)
  early_name_panics s t a l ms k n c q =
      let first = accept_first id_channel l.peer_id t k l refl n in
      let taken = next (next here (receives l refl)) (takes l refl refl (ap (λ r. r.1) first)) in
      let named = next (next taken (names ms refl q)) (broadcasts refl) in
      let untold : announce id_channel (accept id_channel l t).0 ≡ none =
        rw first (announce-insert l.peer_id ((l.channel_id, l) ∷ []) t (lookup_other l c)) in
      (_, next named (panics refl refl untold), refl)
