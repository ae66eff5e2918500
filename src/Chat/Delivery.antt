-- ===== src/Chat/Delivery.antt =====
-- Who gets which messages.
use mathlib.Core.List.{append_assoc, append-nil}
use weron.Prelude.{
  ◌==◌, if◌then◌else◌, Bool-cases, Option-cases, length, ℕ, String, ◌≡◌, refl, sym, ap, ◌∙◌, inl,
  inr, Bool, true, false, some, List, [], ◌∷◌, ◌++◌, arith,
}
use weron.Encryption.{Bytes}
use weron.Chat.Members.{
  member_at-deliver, listeners, listeners-deliver, all_read-new_member, all_read-update_at,
  member_at-update_at, member_at-append, member_at-last,
}
use weron.Chat.{
  Callback, signaler_connected, peer_connected, peer_disconnected, on_message, Handlers, Member,
  Chat, Event, connected, accepted, sent, scanned, scan_ended, write_failed, call_if, member_at,
  update_at, all_read, Relay, write_to, send_message, new_member, accept, read_line, end_lines,
  step, run,
}

-- What is sent until the lines of the n-th peer end.
unfoldable pub sent_while : ℕ → List Event → List Bytes
sent_while n [] = []
sent_while n (sent body ∷ es) = body ∷ sent_while n es
sent_while n (scan_ended m ∷ es) = let rest = sent_while n es in if m == n then [] else rest
sent_while n (_ ∷ es) = sent_while n es

-- No write to any peer fails.
unfoldable pub writes_succeed : List Event → Bool
writes_succeed [] = true
writes_succeed (write_failed n ∷ es) = false
writes_succeed (_ ∷ es) = writes_succeed es

-- What an event makes of the n-th peer.
abbrev next_member : ℕ → Event → Member → Member
next_member n (connected id) m = m
next_member n (accepted p ch) m = m
next_member n (sent body) m = write_to body true m
next_member n (scanned k body) m = m
next_member n (scan_ended k) m = if k == n then record m { listening = false } else m
next_member n (write_failed k) m = if k == n then record m { writing = false } else m

call_if-members : (b : Bool) (k : Callback) (c : Chat) → (call_if b k c).members ≡ c.members
call_if-members true k c = refl
call_if-members false k c = refl

abbrev stopped : Member → Member
stopped m = record m { listening = false }

stopped_same : (m : Member) → m.listening ≡ false → stopped m ≡ m
stopped_same m e = ap (λ b. record m { listening = b }) (sym e)

next_member_same :
    (n : ℕ) (e : Event) (m : Member)
    → ((next_member n e m).peer_id ≡ m.peer_id) × ((next_member n e m).channel_id ≡ m.channel_id)
next_member_same n (connected id) m = (refl, refl)
next_member_same n (accepted p ch) m = (refl, refl)
next_member_same n (sent body) m = (ground arith, ground arith)
next_member_same n (scanned k body) m = (refl, refl)
next_member_same n (scan_ended k) m = (ground arith, ground arith)
next_member_same n (write_failed k) m = (ground arith, ground arith)

-- What is written to a peer in the end, if nothing but these events is to come.
abbrev to_write : ℕ → List Event → Member → List Bytes
to_write n es m = m.written ++ (if m.listening then sent_while n es else [])

next_member-to_write :
    (n : ℕ) (e : Event) (es : List Event) (m : Member)
    → writes_succeed (e ∷ es) ≡ true
    → m.writing ≡ true
    → to_write n es (next_member n e m) ≡ to_write n (e ∷ es) m
unfolding sent_while writes_succeed
next_member-to_write n (connected id) es m h w = refl
next_member-to_write n (accepted p ch) es m h w = refl
next_member-to_write n (sent body) es m h w =
    ground (arith, w, append_assoc m.written (body ∷ []) (sent_while n es))
next_member-to_write n (scanned k body) es m h w = refl
next_member-to_write n (scan_ended k) es m h w = ground (arith, w)
next_member-to_write n (write_failed k) es m h w = absurd (ground (arith, h))

next_member-writing :
    (n : ℕ) (e : Event) (es : List Event) (m : Member)
    → writes_succeed (e ∷ es) ≡ true
    → m.writing ≡ true
    → ((next_member n e m).writing ≡ true) × (writes_succeed es ≡ true)
unfolding writes_succeed
next_member-writing n (connected id) es m h w = (w, h)
next_member-writing n (accepted p ch) es m h w = (w, h)
next_member-writing n (sent body) es m h w = (ground (arith, w), h)
next_member-writing n (scanned k body) es m h w = (w, h)
next_member-writing n (scan_ended k) es m h w = (ground (arith, w), h)
next_member-writing n (write_failed k) es m h w = absurd (ground (arith, h))

module _ (relay : Relay) (h : Handlers) where
  accept-members :
      (p ch : String) (c : Chat) → (accept h p ch c).members ≡ c.members ++ new_member p ch ∷ []
  accept-members p ch c =
      call_if-members h.on_peer_connect (peer_connected p ch)
        (record c { members = c.members ++ new_member p ch ∷ [] })

  end_lines-member_at :
      (n k : ℕ) (c : Chat) (m : Member)
      → member_at n c.members ≡ some m
      → member_at n (end_lines h k c).members ≡ some (if k == n then stopped m else m)
  end_lines-member_at n k c m g = elim (Option-cases (member_at k c.members)) [
    | inl e ↦ ground (arith, g, e)
    | inr (x, e) ↦ elim (Bool-cases x.listening) [
      | inl t ↦ ground (
        arith,
        g,
        e,
        t,
        call_if-members h.on_peer_disconnected (peer_disconnected x.peer_id x.channel_id)
            (record c { members = update_at k stopped c.members }),
        member_at-update_at n k stopped c.members,
      )
      | inr t ↦ ground (arith, g, e, t, stopped_same x t)
    ]
  ]

  read_line-members : (k : ℕ) (body : Bytes) (c : Chat) → (read_line k body c).members ≡ c.members
  read_line-members k body c = elim (Option-cases (member_at k c.members)) [
    | inl e ↦ ground (arith, e)
    | inr (x, e) ↦
        ground (arith, e, call_if-members x.listening (on_message x.peer_id x.channel_id body) c)
  ]

  end_lines-all_read :
      (k : ℕ) (c : Chat)
      → all_read (listeners c.members) ≡ true
      → all_read (listeners (end_lines h k c).members) ≡ true
  end_lines-all_read k c r = elim (Option-cases (member_at k c.members)) [
    | inl e ↦ ground (arith, r, e)
    | inr (x, e) ↦ elim (Bool-cases x.listening) [
      | inl t ↦ ground (
        arith,
        r,
        e,
        t,
        call_if-members h.on_peer_disconnected (peer_disconnected x.peer_id x.channel_id)
            (record c { members = update_at k stopped c.members }),
        all_read-update_at k c.members,
      )
      | inr t ↦ ground (arith, r, e, t)
    ]
  ]

  step-all_read :
      (e : Event) (es : List Event) (c : Chat)
      → writes_succeed (e ∷ es) ≡ true
      → all_read (listeners c.members) ≡ true
      → all_read (listeners (step relay h e c).members) ≡ true
  unfolding step send_message writes_succeed
  step-all_read (connected id) es c w r =
      rw (call_if-members h.on_signaler_connect (signaler_connected id) c) r
  step-all_read (accepted p ch) es c w r =
      rw (accept-members p ch c) (all_read-new_member p ch c.members r)
  step-all_read (sent body) es c w r =
      rw (listeners-deliver body (relay.notify (listeners c.members)) c.members) r
  step-all_read (scanned k body) es c w r = rw (read_line-members k body c) r
  step-all_read (scan_ended k) es c w r = end_lines-all_read k c r
  step-all_read (write_failed k) es c w r = absurd (ground (arith, w))

  step-member_at :
      (n : ℕ) (e : Event) (c : Chat) (m : Member)
      → all_read (listeners c.members) ≡ true
      → member_at n c.members ≡ some m
      → member_at n (step relay h e c).members ≡ some (next_member n e m)
  unfolding step send_message
  step-member_at n (connected id) c m r g =
      rw (call_if-members h.on_signaler_connect (signaler_connected id) c) g
  step-member_at n (accepted p ch) c m r g =
      rw (accept-members p ch c) (member_at-append n c.members (new_member p ch) m g)
  step-member_at n (sent body) c m r g =
      rw
        (
          member_at-deliver n body (relay.notify (listeners c.members)) c.members,
          g,
          relay.notify-all (listeners c.members) n r,
        )
        refl
  step-member_at n (scanned k body) c m r g = rw (read_line-members k body c) g
  step-member_at n (scan_ended k) c m r g = end_lines-member_at n k c m g
  step-member_at n (write_failed k) c m r g =
      ground (arith, g, member_at-update_at n k (λ m. record m { writing = false }) c.members)

  run-member_at :
      (n : ℕ) (es : List Event) (c : Chat) (m : Member)
      → writes_succeed es ≡ true
      → all_read (listeners c.members) ≡ true
      → m.writing ≡ true
      → member_at n c.members ≡ some m
      → (x : Member) × (member_at n (run relay h es c).members ≡ some x)
        × (x.peer_id ≡ m.peer_id)
        × (x.channel_id ≡ m.channel_id)
        × (x.written ≡ to_write n es m)
  unfolding run sent_while
  run-member_at n [] c m w r i g = (m, g, refl, refl, ground (arith, append-nil m.written))
  run-member_at n (e ∷ es) c m w r i g =
      let (writing, succeed) = next_member-writing n e es m w i in
      let (x, f, p, ch, o) =
        run-member_at n es (step relay h e c) (next_member n e m) succeed (step-all_read e es c w r)
          writing (step-member_at n e c m r g) in
      let (a, b) = next_member_same n e m in
      (x, f, p ∙ a, ch ∙ b, o ∙ next_member-to_write n e es m w i)

-- A peer that is accepted, with whatever other peers, is written the messages that are sent after
-- that, each once and in their order, until its lines end, if no write to any peer has failed or
-- fails: a listener that is open and no longer read from may hold up the messages to all peers.
pub accepted_delivery :
    (relay : Relay) (h : Handlers) (p ch : String) (es : List Event) (c : Chat)
    → all_read (listeners c.members) ≡ true
    → writes_succeed es ≡ true
    → let n = length c.members in
      (x : Member) × (member_at n (run relay h (accepted p ch ∷ es) c).members ≡ some x)
      × (x.peer_id ≡ p)
      × (x.channel_id ≡ ch)
      × (x.written ≡ sent_while n es)
unfolding run step
accepted_delivery relay h p ch es c r w =
    run-member_at relay h (length c.members) es (accept h p ch c) (new_member p ch) w
      (rw (accept-members relay h p ch c) (all_read-new_member p ch c.members r)) refl
      (rw (accept-members relay h p ch c) (member_at-last c.members (new_member p ch)))
