-- ===== src/Tests/Reconnecting.antt =====
-- The connections to the signaler at concrete inputs.
use weron.Prelude.{length, All, ◌≡◌, refl, true, none, some, List, [], ◌∷◌, map}
use weron.Encryption.{Bytes, value, decrypt}
use weron.Conn.Signaling.{new_session}
use weron.Conn.Signaling.Events.{alive}
use weron.Conn.Reconnecting.{line, text, listen}
use weron.Conn.Reconnecting.Closed.{closed_lines_flood}
use weron.Tests.Connecting.{format}
use weron.Tests.Messages.{prefixing, nonce}

closed_lines_flood_example :
    (ps : List Bytes) × (listen prefixing format
        (9 ∷ [])
        ("chat" ∷ [])
        "b"
        new_session
        (line none (some nonce) true true ∷ line none (some nonce) true true ∷ [])
      ≡ (alive new_session, map text ps))
    × (length ps ≡ 2)
    × All (λ p. decrypt prefixing p (9 ∷ []) ≡ value []) ps
closed_lines_flood_example =
    closed_lines_flood prefixing format (9 ∷ []) ("chat" ∷ []) "b" new_session (nonce ∷ nonce ∷ [])
      (refl, (refl, tt))
