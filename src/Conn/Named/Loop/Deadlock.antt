-- ===== src/Conn/Named/Loop/Deadlock.antt =====
-- Where the loop of the named adapter stops for good.
use weron.Prelude.{
  length, length-append, ℕ, suc, ◌+◌, String, ◌≡◌, refl, ◌∙◌, ◌≢◌, false, List, [], ◌∷◌, ◌++◌,
  arith, str_eq,
}
use weron.Conn.Negotiation.{NamedAdapterConfig}
use weron.Conn.Named.{Link, Named, candidate_of, accept}
use weron.Conn.Named.Loop.{
  idle, naming, announcing, taking, sending, free, by_loop, by_claim, Hub, Step, assigns, refuses,
  names, broadcasts, announces, panics, receives, takes, sends, hands, hears, claims, releases,
  ends, finds_name, finds_none, waits, Reach, here, next,
}

-- The loop waits for itself, or for a goroutine that waits for the loop.
pub data IsDeadlocked (s : Hub) : Type 0 where
  on_itself : (x : Link) → s.position ≡ sending x → s.holder ≡ by_loop → IsDeadlocked s
  on_taking :
      (l x : Link) (xs : List Link)
      → s.position ≡ taking l
      → s.holder ≡ by_claim (x ∷ xs)
      → IsDeadlocked s
  on_announcing :
      (x : Link) (xs : List Link)
      → s.position ≡ announcing
      → s.holder ≡ by_claim (x ∷ xs)
      → IsDeadlocked s

-- No step of the loop is one of a deadlocked hub, nor one for which the lock must be free.
not_idle : {s : Hub} → IsDeadlocked s → s.position ≢ idle
not_idle (on_itself x p h) e = cc
not_idle (on_taking l x xs p h) e = cc
not_idle (on_announcing x xs p h) e = cc

not_naming : {s : Hub} → IsDeadlocked s → s.position ≢ naming
not_naming (on_itself x p h) e = cc
not_naming (on_taking l x xs p h) e = cc
not_naming (on_announcing x xs p h) e = cc

not_free : {s : Hub} → IsDeadlocked s → s.holder ≢ free
not_free (on_itself x p h) e = cc
not_free (on_taking l x xs p h) e = cc
not_free (on_announcing x xs p h) e = cc

not_done : {s : Hub} → IsDeadlocked s → s.holder ≢ by_claim []
not_done (on_itself x p h) e = cc
not_done (on_taking l x xs p h) e = cc
not_done (on_announcing x xs p h) e = cc

-- The peers that have been handed over.
abbrev pub handed : Hub → ℕ
handed s = length s.spawned + length s.locking + length s.blocked + length s.accepted

moved :
    (before : List Link) (l : Link) (after xs : List Link)
    → xs ≡ before ++ l ∷ after
    → length xs ≡ suc (length (before ++ after))
moved before l after xs e =
    rw e (omega (arith, length-append before (l ∷ after), length-append before after))

module _ (id_channel : String) (config : NamedAdapterConfig) where
  Step-IsDeadlocked :
      {s t : Hub}
      → IsDeadlocked s
      → Step id_channel config s t
      → (t.position ≡ s.position)
        × (t.holder ≡ s.holder)
        × (t.peers ≡ s.peers)
        × (handed t ≡ handed s)
  Step-IsDeadlocked {s} d (assigns e) = absurd (not_idle d e)
  Step-IsDeadlocked {s} d (refuses e r) = absurd (not_idle d e)
  Step-IsDeadlocked {s} d (names ms e r) = absurd (not_idle d e)
  Step-IsDeadlocked {s} d (broadcasts e) = absurd (not_naming d e)
  Step-IsDeadlocked {s} d (announces ls e h r) = absurd (not_free d h)
  Step-IsDeadlocked {s} d (panics e h r) = absurd (not_free d h)
  Step-IsDeadlocked {s} d (receives l e) = absurd (not_idle d e)
  Step-IsDeadlocked {s} d (takes l e h r) = absurd (not_free d h)
  Step-IsDeadlocked {s} d (sends l x e h r) = absurd (not_free d h)
  Step-IsDeadlocked {s} d (hands x xs e h) = absurd (not_idle d e)
  Step-IsDeadlocked {s} d (hears m) = (refl, refl, refl, refl)
  Step-IsDeadlocked {s} d (claims peer_id rid v h) = absurd (not_free d h)
  Step-IsDeadlocked {s} d (releases h) = absurd (not_done d h)
  Step-IsDeadlocked {s} d (ends rid h) = absurd (not_free d h)
  Step-IsDeadlocked {s} d (finds_name before l after e n) =
      let m = moved before l after s.spawned e in
      (refl, refl, refl, omega (arith, m, length-append s.accepted (l ∷ [])))
  Step-IsDeadlocked {s} d (finds_none before l after e n) =
      let m = moved before l after s.spawned e in (refl, refl, refl, omega (arith, m))
  Step-IsDeadlocked {s} d (waits before l after e) =
      let m = moved before l after s.locking e in (refl, refl, refl, omega (arith, m))

  stays :
      {s t : Hub} → IsDeadlocked s → t.position ≡ s.position → t.holder ≡ s.holder → IsDeadlocked t
  stays (on_itself x p h) e f = on_itself x (e ∙ p) (f ∙ h)
  stays (on_taking l x xs p h) e f = on_taking l x xs (e ∙ p) (f ∙ h)
  stays (on_announcing x xs p h) e f = on_announcing x xs (e ∙ p) (f ∙ h)

  -- Once the loop waits on `namedPeers` for itself, or for the lock of a goroutine that waits on
  -- `namedPeers` for the loop, it does so in every state that is reached: no data channel is entered
  -- into the table and no peer is handed over any more, whatever the peers and the signaler send.
  pub Reach-IsDeadlocked :
      {s t : Hub}
      → IsDeadlocked s
      → Reach id_channel config s t
      → IsDeadlocked t × (t.position ≡ s.position) × (t.peers ≡ s.peers) × (handed t ≡ handed s)
  Reach-IsDeadlocked d here = (d, refl, refl, refl)
  Reach-IsDeadlocked d (next r st) =
      let (dt, p, q, n) = Reach-IsDeadlocked d r in
      let (p2, h2, q2, n2) = Step-IsDeadlocked dt st in (stays dt p2 h2, p2 ∙ p, q2 ∙ q, n2 ∙ n)

  accept_sent :
      (l : Link) (peers : Named)
      → str_eq (candidate_of l.peer_id peers l.peer_id) l.peer_id ≡ false
      → str_eq l.channel_id id_channel ≡ false
      → (accept id_channel l peers).1
        ≡ record l { peer_id = candidate_of l.peer_id peers l.peer_id } ∷ []
  unfolding accept
  accept_sent l peers n c = rw (n, c) refl

  -- A data channel other than the ID channel, of a peer that stands in the table under another name
  -- than its ID: once the loop has it and the lock is free, a state is reached in which the channel is
  -- in the table and from which the loop never goes on: it stays where it is in every state that is
  -- reached from there, the table stays as it is, and no peer is handed over any more.
  pub named_channel_deadlocks :
      (s : Hub) (l : Link)
      → s.position ≡ taking l
      → s.holder ≡ free
      → str_eq (candidate_of l.peer_id s.peers l.peer_id) l.peer_id ≡ false
      → str_eq l.channel_id id_channel ≡ false
      → (u : Hub) × Reach id_channel config s u
        × (u.peers ≡ (accept id_channel l s.peers).0)
        × ((t : Hub)
            → Reach id_channel config u t
            → (t.position ≡ u.position) × (t.peers ≡ u.peers) × (handed t ≡ handed s))
  named_channel_deadlocks s l p h n c =
      let x : Link = record l { peer_id = candidate_of l.peer_id s.peers l.peer_id } in
      let u : Hub = record s {
        peers = (accept id_channel l s.peers).0;
        position = sending x;
        holder = by_loop;
      } in
      let step : Step id_channel config s u = sends l x p h (accept_sent l s.peers n c) in
      (
        u,
        next here step,
        refl,
        λ t r. let (d, a, b, e) = Reach-IsDeadlocked (on_itself x refl refl) r in (a, b, e),
      )
