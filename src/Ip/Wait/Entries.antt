-- ===== src/Ip/Wait/Entries.antt =====
-- Which entries the table of peers keeps while `Wait` runs.
use weron.Prelude.{
  Bool-cases, Option-cases, All, contains, lookup, insert, lookup-insert, ℕ, String, ◌≡◌, refl, ◌∙◌,
  ◌≢◌, ◌⊎◌, inl, inr, Bool, true, false, Option, none, some, List, [], ◌∷◌, arith,
}
use weron.Encryption.{Bytes}
use weron.Ip.Routing.{Peer, Cidr, add_peers, drop_peers, drop_peers_keeps}
use weron.Ip.Wait.{
  Event, got_id, cancelled, adapter_ended, accepted, ended, packet_read, peer_read, Waiting, Turn,
  goes_on, fails, names_claimed, panics, returns, leave, join, step, run,
}
use weron.Ip.Device.Broadcast.{entry}
use weron.Ip.Device.{WaitError, is_any_valid, join_peer}
use weron.Ip.Device.Reaching.{SameAddress, add_peers-Stands, is_any_valid-contains}

-- There is an entry for the text of an address.
unfoldable pub is_known : String → List (String × Peer) → Bool
is_known k peers = elim (lookup k peers) [ none ↦ false | some p ↦ true ]

Turn-cases :
    (x : Turn)
    → ((u : Waiting) × (x ≡ goes_on u))
      ⊎ (((y : WaitError) × (x ≡ fails y))
          ⊎ ((x ≡ names_claimed) ⊎ ((x ≡ panics) ⊎ ((d : Bool) × (x ≡ returns d)))))
Turn-cases (goes_on u) = inl (u, refl)
Turn-cases (fails y) = inr (inl (y, refl))
Turn-cases names_claimed = inr (inr (inl refl))
Turn-cases panics = inr (inr (inr (inl refl)))
Turn-cases (returns d) = inr (inr (inr (inr (d, refl))))

module _ (parse_cidr : String → Option Cidr) (unmarshal : String → Option (List String))
    (decode_v4 decode_v6 : Bytes → Option Bytes) where
  -- The text of an address has no length of a prefix.
  abbrev pub BareAddress : Type 0
  BareAddress = (x : String) (d : Cidr) → parse_cidr x ≡ some d → parse_cidr d.ip_string ≡ none

  -- Every text in the name of the peer is an address with the length of a prefix.
  abbrev pub ValidName : String → Type 0
  ValidName peer_id =
      (ips : List String) → unmarshal peer_id ≡ some ips → All (λ x. parse_cidr x ≢ none) ips

  abbrev pub ValidNames : List Event → Type 0
  ValidNames [] = Unit
  ValidNames (accepted peer_id conn ∷ es) = ValidName peer_id × ValidNames es
  ValidNames (ended peer_id ∷ es) = ValidName peer_id × ValidNames es
  ValidNames (_ ∷ es) = ValidNames es

  is_known-insert :
      (k j : String) (p : Peer) (peers : List (String × Peer))
      → is_known k peers ≡ true
      → is_known k (insert j p peers) ≡ true
  unfolding is_known
  is_known-insert k j p peers h = ground (arith, h, lookup-insert k j p peers)

  is_known-add_peers :
      (k : String) (conn : ℕ) (ips : List String) (peers : List (String × Peer))
      → is_known k peers ≡ true
      → is_known k (add_peers parse_cidr conn ips peers) ≡ true
  unfolding add_peers
  is_known-add_peers k conn [] peers h = h
  is_known-add_peers k conn (x ∷ ips) peers h = elim (Option-cases (parse_cidr x)) [
    | inl n ↦ ground (arith, n, is_known-add_peers k conn ips peers h)
    | inr (d, e) ↦
        let ih =
          is_known-add_peers k conn ips (insert d.ip_string (entry conn d) peers)
            (is_known-insert k d.ip_string (entry conn d) peers h) in
        ground (arith, e, ih)
  ]

  is_known-drop_peers :
      (law : BareAddress) (raw : String) (c : Cidr) (ips : List String)
      (peers : List (String × Peer))
      → parse_cidr raw ≡ some c
      → All (λ x. parse_cidr x ≢ none) ips
      → is_known c.ip_string (drop_peers parse_cidr ips peers) ≡ is_known c.ip_string peers
  unfolding is_known
  is_known-drop_peers law raw c ips peers p v =
      ground (arith, drop_peers_keeps parse_cidr ips peers raw c law p v)

  module _ (law : BareAddress) (raw : String) (c : Cidr) (r : parse_cidr raw ≡ some c) where
    is_known-leave :
        (peer_id : String) (ips : List String) (s : Waiting)
        → All (λ x. parse_cidr x ≢ none) ips
        → is_known c.ip_string s.peers ≡ true
        → is_known c.ip_string (leave parse_cidr unmarshal decode_v4 decode_v6 peer_id ips s).peers
          ≡ true
    unfolding leave
    is_known-leave peer_id ips s v h = is_known-drop_peers law raw c ips s.peers r v ∙ h

    is_known-join :
        (peer_id : String) (conn : ℕ) (s : Waiting)
        → ValidName peer_id
        → is_known c.ip_string s.peers ≡ true
        → is_known c.ip_string (join parse_cidr unmarshal decode_v4 decode_v6 peer_id conn s).peers
          ≡ true
    unfolding join join_peer leave
    is_known-join peer_id conn s v h = elim (Option-cases (unmarshal peer_id)) [
      | inl n ↦ ground (arith, n, h)
      | inr (ips, e) ↦
          let joined = add_peers parse_cidr conn ips s.peers in
          let known = is_known-add_peers c.ip_string conn ips s.peers h in
          let left = is_known-drop_peers law raw c ips joined r (v ips e) in
          elim (Bool-cases (is_any_valid parse_cidr unmarshal ips)) [
            | inl t ↦ ground (arith, e, t, known)
            | inr t ↦ ground (arith, e, t, known, left)
          ]
    ]

    step-is_known :
        (s t : Waiting) (e : Event)
        → ValidNames (e ∷ [])
        → step parse_cidr unmarshal decode_v4 decode_v6 s e ≡ goes_on t
        → is_known c.ip_string s.peers ≡ true
        → is_known c.ip_string t.peers ≡ true
    unfolding step
    step-is_known s t (got_id id d) v e h = ground (arith, e, h)
    step-is_known s t (cancelled d) v e h = ground (arith, e)
    step-is_known s t adapter_ended v e h = ground (arith, e)
    step-is_known s t (accepted peer_id conn) v e h =
        let k = is_known-join peer_id conn s v.0 h in ground (arith, e, k)
    step-is_known s t (ended peer_id) v e h = elim (Option-cases (unmarshal peer_id)) [
      | inl n ↦ ground (arith, n, e, h)
      | inr (ips, u) ↦ let k = is_known-leave peer_id ips s (v.0 ips u) h in ground (arith, u, e, k)
    ]
    step-is_known s t (packet_read buf writes) v e h = ground (arith, e, h)
    step-is_known s t (peer_read buf takes) v e h = ground (arith, e, h)

    split-ValidNames :
        (e : Event) (es : List Event) → ValidNames (e ∷ es) → ValidNames (e ∷ []) × ValidNames es
    split-ValidNames (got_id id d) es v = (tt, v)
    split-ValidNames (cancelled d) es v = (tt, v)
    split-ValidNames adapter_ended es v = (tt, v)
    split-ValidNames (accepted peer_id conn) es v = ((v.0, tt), v.1)
    split-ValidNames (ended peer_id) es v = ((v.0, tt), v.1)
    split-ValidNames (packet_read buf writes) es v = (tt, v)
    split-ValidNames (peer_read buf takes) es v = (tt, v)

    run-is_known :
        (es : List Event) (s t : Waiting)
        → ValidNames es
        → run parse_cidr unmarshal decode_v4 decode_v6 s es ≡ goes_on t
        → is_known c.ip_string s.peers ≡ true
        → is_known c.ip_string t.peers ≡ true
    unfolding run
    run-is_known [] s t v g h = ground (arith, g, h)
    run-is_known (e ∷ es) s t v g h =
        let (ve, ves) = split-ValidNames e es v in
        elim (Turn-cases (step parse_cidr unmarshal decode_v4 decode_v6 s e)) [
          | inl (u, q) ↦
              let g2 : run parse_cidr unmarshal decode_v4 decode_v6 u es ≡ goes_on t =
                ground (arith, q, g) in
              run-is_known es u t ves g2 (step-is_known s u e ve q h)
          | inr (inl (y, q)) ↦ ground (arith, q, g)
          | inr (inr (inl q)) ↦ ground (arith, q, g)
          | inr (inr (inr (inl q))) ↦ ground (arith, q, g)
          | inr (inr (inr (inr (d, q)))) ↦ ground (arith, q, g)
        ]

  joined-is_known :
      (same : SameAddress parse_cidr) (raw peer_id : String) (c : Cidr) (ips : List String)
      (conn : ℕ) (s : Waiting)
      → unmarshal peer_id ≡ some ips
      → contains raw ips ≡ true
      → parse_cidr raw ≡ some c
      → is_known c.ip_string (join parse_cidr unmarshal decode_v4 decode_v6 peer_id conn s).peers
        ≡ true
  unfolding join join_peer is_known
  joined-is_known same raw peer_id c ips conn s u h r =
      let (q, f, a, b) = add_peers-Stands parse_cidr same conn raw c r ips s.peers h in
      ground (arith, u, is_any_valid-contains parse_cidr unmarshal raw c ips r h, f)

  -- Once a peer has joined under a name with a valid address, there is an entry for that address for
  -- as long as `Wait` goes on, whatever happens: also after that peer has left, if the names of all
  -- peers that join and leave are lists of addresses with the length of a prefix, and if the text of
  -- an address has none and says which address it is.
  pub joined_entry_stays :
      (raw peer_id : String) (c : Cidr) (ips : List String) (conn : ℕ) (es : List Event)
      (s t : Waiting)
      → BareAddress
      → SameAddress parse_cidr
      → unmarshal peer_id ≡ some ips
      → contains raw ips ≡ true
      → parse_cidr raw ≡ some c
      → ValidNames es
      → run parse_cidr unmarshal decode_v4 decode_v6 s (accepted peer_id conn ∷ es) ≡ goes_on t
      → is_known c.ip_string t.peers ≡ true
  unfolding run step
  joined_entry_stays raw peer_id c ips conn es s t law same u h r v g =
      run-is_known law raw c r es (join parse_cidr unmarshal decode_v4 decode_v6 peer_id conn s) t v
        g (joined-is_known same raw peer_id c ips conn s u h r)
