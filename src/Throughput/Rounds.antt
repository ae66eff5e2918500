-- ===== src/Throughput/Rounds.antt =====
-- How many rounds a number of transfers makes.
use weron.Latency.{two_63, two_64, divide}
use weron.Prelude.{
  ltb, if◌then◌else◌, Bool-cases, length, length-append, ℕ, suc, ◌+◌, ◌*◌, ◌%◌, ◌≤◌, ◌<◌, ◌≡◌, sym,
  ◌∙◌, inl, inr, true, false, List, [], ◌∷◌, ◌++◌, arith,
}
use weron.Throughput.{
  Transfer, moved, failed, ServerRound, server_step, ClientRound, client_step, run_server,
  run_client, completed, reported, server-reads, server-acknowledges, client-writes, client-reports,
  server_start, client_start,
}

-- The bytes that the client writes, where it reads an acknowledgement after every `PacketCount`
-- packets.
unfoldable pub bytes_written : ℕ → ℕ → List Transfer → ℕ
bytes_written packet_count i [] = 0
bytes_written packet_count i (failed ∷ ts) = 0
bytes_written packet_count i (moved n ∷ ts) =
    let more = bytes_written packet_count (suc i) ts in
    let again = bytes_written packet_count 0 ts in if ltb i packet_count then n + more else again

length_snoc : (xs : List ℕ) (x : ℕ) → length (xs ++ x ∷ []) ≡ suc (length xs)
length_snoc xs x = omega (arith, length-append xs (x ∷ []))

next_round : (a p i m : ℕ) → i ≡ p → suc a * suc p + 0 + m ≡ a * suc p + i + suc m
next_round a p i m e = omega (arith, e)

mod_small : (n : ℕ) → n < two_64 → n % two_64 ≡ n
mod_small n h = omega (arith, h)

module _ (packet_count : ℕ) where
  bytes-more :
      (n : ℕ) (ts : List Transfer) (i : ℕ)
      → ltb i packet_count ≡ true
      → bytes_written packet_count i (moved n ∷ ts) ≡ n + bytes_written packet_count (suc i) ts
  unfolding bytes_written
  bytes-more n ts i e = ground (arith, e)

  bytes-again :
      (n : ℕ) (ts : List Transfer) (i : ℕ)
      → ltb i packet_count ≡ false
      → bytes_written packet_count i (moved n ∷ ts) ≡ bytes_written packet_count 0 ts
  unfolding bytes_written
  bytes-again n ts i e = ground (arith, e)

  server-rounds :
      (ts : List Transfer) (s : ServerRound)
      → s.i ≤ packet_count
      → let t = run_server packet_count s ts in
        (t.acknowledged * suc packet_count + t.i
          ≡ s.acknowledged * suc packet_count + s.i + completed ts)
        × (t.i ≤ packet_count)
  unfolding run_server server_step completed
  server-rounds [] s h = (omega arith, h)
  server-rounds (failed ∷ ts) s h = (omega arith, h)
  server-rounds (moved n ∷ ts) s h = elim (Bool-cases (ltb s.i packet_count)) [
    | inl e ↦
        let ih =
          server-rounds ts (record s { i = suc s.i; read = (s.read + n) % two_64 })
            (ground (arith, e)) in
        rw (server-reads packet_count s n ts e) (omega (arith, ih.0), ih.1)
    | inr e ↦
        let a : ServerRound = record { i = 0; read = 0; acknowledged = suc s.acknowledged } in
        let ih = server-rounds ts a (omega arith) in
        let full : s.i ≡ packet_count = ground (arith, e, h) in
        rw (server-acknowledges packet_count s n ts e)
          (ih.0 ∙ next_round s.acknowledged packet_count s.i (completed ts) full, ih.1)
  ]

  client-rounds :
      (ts : List Transfer) (c : ClientRound)
      → c.i ≤ packet_count
      → let t = run_client packet_count c ts in
        (length t.acknowledgements * suc packet_count + t.i
          ≡ length c.acknowledgements * suc packet_count + c.i + completed ts)
        × (t.i ≤ packet_count)
  unfolding run_client client_step completed
  client-rounds [] c h = (omega arith, h)
  client-rounds (failed ∷ ts) c h = (omega arith, h)
  client-rounds (moved n ∷ ts) c h = elim (Bool-cases (ltb c.i packet_count)) [
    | inl e ↦
        let d : ClientRound = record c { i = suc c.i; written = (c.written + n) % two_64 } in
        let ih = client-rounds ts d (ground (arith, e)) in
        rw (client-writes packet_count c n ts e) (omega (arith, ih.0), ih.1)
    | inr e ↦
        let ih = client-rounds ts (reported c) (omega arith) in
        let full : c.i ≡ packet_count = ground (arith, e, h) in
        let longer = length_snoc c.acknowledgements (divide c.written 1000000) in
        rw (client-reports packet_count c n ts e)
          (ih.0 ∙ rw longer (next_round (length c.acknowledgements) packet_count c.i _ full), ih.1)
  ]

  -- No variable of the client wraps around as long as the bytes that it writes do not.
  client-bytes :
      (ts : List Transfer) (c : ClientRound)
      → c.total_transferred + c.written + bytes_written packet_count c.i ts < two_64
      → let t = run_client packet_count c ts in
        t.total_transferred + t.written
        ≡ c.total_transferred + c.written + bytes_written packet_count c.i ts
  unfolding run_client client_step bytes_written
  client-bytes [] c b = omega arith
  client-bytes (failed ∷ ts) c b = omega arith
  client-bytes (moved n ∷ ts) c b = elim (Bool-cases (ltb c.i packet_count)) [
    | inl e ↦
        let more = bytes_written packet_count (suc c.i) ts in
        let all : c.total_transferred + c.written + (n + more) < two_64 =
          rw (sym (bytes-more n ts c.i e)) b in
        let small = mod_small (c.written + n) (omega (arith, all)) in
        let d : ClientRound = record c { i = suc c.i; written = (c.written + n) % two_64 } in
        let ih = client-bytes ts d (omega (arith, all, small)) in
        rw (client-writes packet_count c n ts e, bytes-more n ts c.i e) (omega (arith, ih, small))
    | inr e ↦
        let again = bytes_written packet_count 0 ts in
        let all : c.total_transferred + c.written + again < two_64 =
          rw (sym (bytes-again n ts c.i e)) b in
        let small = mod_small (c.total_transferred + c.written) (omega (arith, all)) in
        let ih = client-bytes ts (reported c) (omega (arith, all, small)) in
        rw (client-reports packet_count c n ts e, bytes-again n ts c.i e) (omega (arith, ih, small))
  ]

  -- Each `PacketCount` packets and one acknowledgement make a round, on either side: after any
  -- transfers, of which the first that fails is the last, the server has acknowledged, and the client
  -- has reported, as many rounds as the transfers fill, and the rest of them stands in the current
  -- round; and the total of the client with what is written in the current round is the number of
  -- bytes that it has written, if this is below 2^63. So if as many transfers succeed on both sides,
  -- both are as far.
  pub rounds_exact :
      (at_server at_client : List Transfer)
      → bytes_written packet_count 0 at_client < two_63
      → let s = run_server packet_count server_start at_server in
        let c = run_client packet_count client_start at_client in
        (s.acknowledged * suc packet_count + s.i ≡ completed at_server)
        × (s.i ≤ packet_count)
        × (length c.acknowledgements * suc packet_count + c.i ≡ completed at_client)
        × (c.i ≤ packet_count)
        × (c.total_transferred + c.written ≡ bytes_written packet_count 0 at_client)
  rounds_exact at_server at_client b =
      let s = server-rounds at_server server_start (omega arith) in
      let c = client-rounds at_client client_start (omega arith) in
      let bytes = client-bytes at_client client_start (omega (arith, b)) in
      (omega (arith, s.0), s.1, omega (arith, c.0), c.1, omega (arith, bytes))
