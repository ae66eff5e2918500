-- ===== src/Relay/Delivered.antt =====
-- Every adapter of a community handles exactly what the others have sent.
use mathlib.Core.Path.{fun_ext}
use weron.Prelude.{
  Bool-cases, length, ℕ, suc, String, ◌≡◌, refl, ap, inl, inr, true, false, not, ◌&&◌, some, List,
  [], ◌∷◌, map, arith, str_eq,
}
use weron.Encryption.{Bytes, Crypto, nonce_size, value, decrypt}
use weron.Encryption.Roundtrip.{decrypt-encrypt}
use weron.Broker.{Input, Delivery}
use weron.Broker.Redis
use weron.Broker.Isolation.{inputs_of, redis_log, AllMarshal, redis_inputs_isolated}
use weron.Signaler.Session.{Event, relayed, Frame, message, serve, read_loop}
use weron.Conn.Signaling.{Signal, Session, Webrtc, Turn, receive}
use weron.Conn.Signaling.Wire.{Format, write_line, receive_input}
use weron.Relay.{
  Post, and_then, published, publications, handle_frames, handle_signals, signals_for,
}
use weron.Broker.Redis.{Codec, forward}

-- A message that can be sent: it has a JSON text, and 12 random bytes are drawn.
abbrev pub AllSendable : Format → List Post → Type 0
AllSendable json [] = Unit
AllSendable json (p ∷ posts) =
    (length p.nonce ≡ nonce_size)
    × ((line : Bytes) × (json.marshal p.signal ≡ some line))
    × AllSendable json posts

abbrev pub written : List Input → List Event
written = map (λ i. relayed i true true)

module _ (c : Crypto) (json : Format) (key : Bytes) (id : String) (channels : List String)
    (w : Webrtc) (draw : ℕ → ℕ) (community raddr : String) where
  -- What the adapter is sent and does, if `inputs` is what the broker hands to its session.
  abbrev pub hears : ℕ → List Input → Session → Turn
  hears n inputs s =
      handle_frames c json key id channels w draw n (serve raddr (written inputs)).0 s

  published_lem :
      (p : Post) (line : Bytes)
      → length p.nonce ≡ nonce_size
      → json.marshal p.signal ≡ some line
      → (sealed : Bytes) × (published c json key p
          ≡ record { raddr = p.raddr; message_type = 1; p = sealed } ∷ [])
        × (decrypt c sealed key ≡ value line)
  unfolding published read_loop write_line
  published_lem p line n e =
      let (sealed, enc, dec) = decrypt-encrypt c p.nonce line key n in
      (sealed, ground (arith, e, enc), dec)

  serve_other :
      (i : Input) (inputs : List Input)
      → str_eq i.raddr raddr ≡ false
      → (serve raddr (written (i ∷ inputs))).0
        ≡ message i.message_type i.p ∷ (serve raddr (written inputs)).0
  unfolding serve
  serve_other i inputs r = ground (arith, r)

  serve_own :
      (i : Input) (inputs : List Input)
      → str_eq i.raddr raddr ≡ true
      → (serve raddr (written (i ∷ inputs))).0 ≡ (serve raddr (written inputs)).0
  unfolding serve
  serve_own i inputs r = ground (arith, r)

  receive_input_known :
      (p line : Bytes) (m : Signal) (n : ℕ) (s : Session)
      → decrypt c p key ≡ value line
      → json.unmarshal line ≡ some m
      → receive_input c json key id channels w p n s ≡ receive id channels w m n s
  unfolding receive_input
  receive_input_known p line m n s d u = ground (arith, d, u)

  -- One message in front of the rest.
  handle_frames_one :
      (n t : ℕ) (p line : Bytes) (frames : List Frame) (m : Signal) (signals : List Signal)
      (s : Session)
      → decrypt c p key ≡ value line
      → json.unmarshal line ≡ some m
      → ((k : ℕ) (u : Session)
          → handle_frames c json key id channels w draw k frames u
            ≡ handle_signals id channels w draw k signals u)
      → handle_frames c json key id channels w draw n (message t p ∷ frames) s
        ≡ handle_signals id channels w draw n (m ∷ signals) s
  unfolding handle_frames handle_signals
  handle_frames_one n t p line frames m signals s d u ih =
      rw (receive_input_known p line m (draw n) s d u)
        (ap (and_then (receive id channels w m (draw n) s)) (fun_ext (ih (suc n))))

  publications_one :
      (p : Post) (posts : List Post) (i : Input)
      → published c json key p ≡ i ∷ []
      → publications c json key (p ∷ posts) ≡ (p.community, i) ∷ publications c json key posts
  unfolding publications
  publications_one p posts i e = rw e refl

  inputs_of_other :
      (d : String) (i : Input) (log : List (String × Input))
      → str_eq d community ≡ false
      → inputs_of community ((d, i) ∷ log) ≡ inputs_of community log
  unfolding inputs_of
  inputs_of_other d i log e = rw e refl

  inputs_of_same :
      (d : String) (i : Input) (log : List (String × Input))
      → str_eq d community ≡ true
      → inputs_of community ((d, i) ∷ log) ≡ i ∷ inputs_of community log
  unfolding inputs_of
  inputs_of_same d i log e = rw e refl

  signals_for_none :
      (p : Post) (posts : List Post)
      → (str_eq p.community community && not (str_eq p.raddr raddr)) ≡ false
      → signals_for community raddr (p ∷ posts) ≡ signals_for community raddr posts
  unfolding signals_for
  signals_for_none p posts e = rw e refl

  signals_for_one :
      (p : Post) (posts : List Post)
      → (str_eq p.community community && not (str_eq p.raddr raddr)) ≡ true
      → signals_for community raddr (p ∷ posts) ≡ p.signal ∷ signals_for community raddr posts
  unfolding signals_for
  signals_for_one p posts e = rw e refl

  hears_none :
      (n : ℕ) (s : Session)
      → hears n (inputs_of community (publications c json key [])) s
        ≡ handle_signals id channels w draw n (signals_for community raddr []) s
  unfolding publications inputs_of serve handle_frames handle_signals signals_for
  hears_none n s = refl

  hears_all :
      (posts : List Post) (n : ℕ) (s : Session)
      → AllSendable json posts
      → hears n (inputs_of community (publications c json key posts)) s
        ≡ handle_signals id channels w draw n (signals_for community raddr posts) s
  hears_all [] n s a = hears_none n s
  hears_all (p ∷ posts) n s a =
      let (sealed, pub_one, dec) = published_lem p a.1.0 a.0 a.1.1 in
      let own : Input = record { raddr = p.raddr; message_type = 1; p = sealed } in
      let log = publications c json key posts in
      let rest = inputs_of community log in
      rw (publications_one p posts own pub_one) (elim (Bool-cases (str_eq p.community community)) [
        | inl e ↦ elim (Bool-cases (str_eq p.raddr raddr)) [
          | inl f ↦
              rw
                (
                  inputs_of_same p.community own log e,
                  signals_for_none p posts (ground (arith, e, f)),
                  serve_own own rest f,
                )
                (hears_all posts n s a.2)
          | inr f ↦
              rw
                (
                  inputs_of_same p.community own log e,
                  signals_for_one p posts (ground (arith, e, f)),
                  serve_other own rest f,
                )
                (handle_frames_one n 1 sealed a.1.0 (serve raddr (written rest)).0 p.signal
                  (signals_for community raddr posts) s dec
                  (json.unmarshal-marshal p.signal a.1.0 a.1.1) (λ k u. hears_all posts k u a.2))
        ]
        | inr e ↦
            rw (inputs_of_other p.community own log e, signals_for_none p posts (ground (arith, e)))
              (hears_all posts n s a.2)
      ])

-- Through Redis: what an adapter does with all that its connection is sent is what it does with the
-- messages themselves that the other connections of its community have sent, in the order in which
-- they were published and with no others, however many of any communities are published, if each has
-- a JSON text and 12 random bytes, `Marshal` fails on none of the inputs, the server delivers to the
-- subscriber of a topic what is published on that topic, all use the one key and every write succeeds.
pub delivered_to_others :
    (c : Crypto) (json : Format) (key : Bytes) (id : String) (channels : List String) (w : Webrtc)
    (draw : ℕ → ℕ) (community raddr : String) (server : Delivery String) (rj : Codec Input)
    (posts : List Post) (s : Session)
    → AllSendable json posts
    → AllMarshal rj (publications c json key posts)
    → let log = publications c json key posts in
      let topic = Redis.subscribe_to_inputs community in
      let (inputs, state) = forward rj (map some (server.received topic (redis_log rj log))) in
      hears c json key id channels w draw community raddr 0 inputs s
      ≡ handle_signals id channels w draw 0 (signals_for community raddr posts) s
delivered_to_others c json key id channels w draw community raddr server rj posts s a m =
    rw (redis_inputs_isolated server rj community (publications c json key posts) m)
      (hears_all c json key id channels w draw community raddr posts 0 s a)
