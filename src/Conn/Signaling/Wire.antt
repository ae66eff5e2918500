-- ===== src/Conn/Signaling/Wire.antt =====
-- pkg/wrtcconn/adapter.go: the messages as they go through the signaler, encrypted under the key of
-- the community.
use weron.Prelude.{length, ℕ, ◌<◌, String, ◌≡◌, Option, none, some, List, [], arith}
use weron.Encryption.{Bytes, Crypto, nonce_size, Outcome, value, failure, panic, encrypt, decrypt}
use weron.Encryption.Roundtrip.{decrypt-encrypt, decrypt_panics}
use weron.Conn.Signaling.{Signal, Session, Webrtc, Turn, next, panics, receive}

-- encoding/json on the messages; `marshal` is `none` on an error.
pub record Format : Type 0 where
  pub marshal : Signal → Option Bytes
  pub unmarshal : Bytes → Option Signal
  pub unmarshal-marshal :
      (m : Signal) (line : Bytes) → marshal m ≡ some line → unmarshal line ≡ some m

module _ (c : Crypto) (json : Format) (key : Bytes) where
  -- The case of the loop for a line: what is written to the signaler. The channel of lines gives
  -- `none` once it is closed, and that is encrypted like an empty line.
  unfoldable pub write_line : Option Bytes → Option Bytes → Outcome
  write_line random line = elim line [
    | none ↦ encrypt c random [] key
    | some l ↦ encrypt c random l key
  ]

  -- The case of the loop for an input: what cannot be decrypted or is no JSON is skipped.
  unfoldable pub receive_input : String → List String → Webrtc → Bytes → ℕ → Session → Turn
  receive_input id channels w input iid s = elim (decrypt c input key) [
    | panic ↦ panics s
    | failure ↦ next s
    | value plain ↦ elim (json.unmarshal plain) [
      | none ↦ next s
      | some m ↦ receive id channels w m iid s
    ]
  ]

  -- A line that one adapter writes, with 12 random bytes, is to every adapter with the same key the
  -- message that was sent: it does what the message does.
  pub receive_input-write_line :
      (id : String) (channels : List String) (w : Webrtc) (m : Signal) (line nonce : Bytes)
      (iid : ℕ) (s : Session)
      → length nonce ≡ nonce_size
      → json.marshal m ≡ some line
      → (sealed : Bytes) × (write_line (some nonce) (json.marshal m) ≡ value sealed)
        × (receive_input id channels w sealed iid s ≡ receive id channels w m iid s)
  unfolding write_line receive_input
  receive_input-write_line id channels w m line nonce iid s n e =
      let (sealed, enc, dec) = decrypt-encrypt c nonce line key n in
      (sealed, rw (e, write_line) enc, ground (arith, dec, json.unmarshal-marshal m line e))

  -- A message of fewer than 12 bytes that anyone in the community sends ends the connection of every
  -- other adapter to the signaler, whatever its key.
  pub receive_input_short :
      (id : String) (channels : List String) (w : Webrtc) (input : Bytes) (iid : ℕ) (s : Session)
      → length input < nonce_size
      → receive_input id channels w input iid s ≡ panics s
  unfolding receive_input
  receive_input_short id channels w input iid s h = ground (arith, (decrypt_panics c input key).1 h)
