-- ===== src/Conn/Reconnecting/Closed.antt =====
-- What the loop does when the channel of lines is closed.
use weron.Prelude.{
  length, All, suc, String, ◌≡◌, refl, ap, ◌∙◌, true, none, some, List, [], ◌∷◌, ◌++◌, map, arith,
}
use weron.Encryption.{Bytes, Crypto, nonce_size, value, decrypt}
use weron.Encryption.Roundtrip.{decrypt-encrypt}
use weron.Conn.Signaling.{Session}
use weron.Conn.Signaling.Events.{alive}
use weron.Conn.Signaling.Wire.{Format, write_line}
use weron.Conn.Reconnecting.{Wakeup, line, Sent, text, wake, listen}

module _ (c : Crypto) (json : Format) (key : Bytes) (channels : List String) where
  wake_closed :
      (id : String) (s : Session) (nonce : Bytes)
      → length nonce ≡ nonce_size
      → (p : Bytes) × (wake c json key channels id s (line none (some nonce) true true)
          ≡ (alive s, text p ∷ []))
        × (decrypt c p key ≡ value [])
  unfolding wake write_line
  wake_closed id s nonce n =
      let (sealed, enc, dec) = decrypt-encrypt c nonce [] key n in
      (sealed, rw (wake, write_line, enc) refl, dec)

  listen_alive :
      (id : String) (s t : Session) (w : Wakeup) (ws : List Wakeup) (sent : List Sent)
      → wake c json key channels id s w ≡ (alive t, sent)
      → listen c json key channels id s (w ∷ ws)
        ≡ ((listen c json key channels id t ws).0, sent ++ (listen c json key channels id t ws).1)
  unfolding listen
  listen_alive id s t w ws sent e = ground (arith, e)

  -- After `Close`, the channel of lines is closed, but the connection is not: each turn of the loop
  -- for that channel writes an encrypted empty message to the signaler, any number of them, and the
  -- loop goes on, if the writes succeed and 12 random bytes are drawn for each.
  pub closed_lines_flood :
      (id : String) (s : Session) (nonces : List Bytes)
      → All (λ n. length n ≡ nonce_size) nonces
      → (ps : List Bytes) × (listen c json key channels id s
            (map (λ n. line none (some n) true true) nonces)
          ≡ (alive s, map text ps))
        × (length ps ≡ length nonces)
        × All (λ p. decrypt c p key ≡ value []) ps
  unfolding listen
  closed_lines_flood id s [] a = ([], refl, refl, tt)
  closed_lines_flood id s (n ∷ nonces) a =
      let (p, w, dec) = wake_closed id s n a.0 in
      let (ps, l, k, all) = closed_lines_flood id s nonces a.1 in
      (p ∷ ps, listen_alive id s s _ _ (text p ∷ []) w ∙ rw l refl, ap suc k, (dec, all))
