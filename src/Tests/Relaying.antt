-- ===== src/Tests/Relaying.antt =====
-- Three messages of three adapters through a signaler with Redis, at concrete inputs.
use weron.Prelude.{
  ◌==◌, if◌then◌else◌, String, ◌≡◌, refl, true, ◌&&◌, Option, none, some, List, [], ◌∷◌, map, arith,
}
use weron.Encryption.{Bytes, value, failure, panic, derive_key, encrypt}
use weron.Broker.{Input}
use weron.Broker.Redis
use weron.Broker.Isolation.{redis_log}
use weron.Relay.Delivered.{hears, delivered_to_others}
use weron.Signaler.Session.{read_loop}
use weron.Broker.Redis.{Codec, forward}
use weron.Conn.Signaling.{introduction, new_session}
use weron.Conn.Signaling.Wire.{write_line}
use weron.Relay.{Post, published, publications, handle_signals, signals_for}
use weron.Tests.Connecting.{pion, format}
use weron.Tests.Messages.{same_list, prefixing, nonce, in_order}

abbrev post : String → String → Post
post community raddr = record {
  community = community;
  raddr = raddr;
  signal = introduction "a";
  nonce = nonce;
}

abbrev posts : List Post
posts = post "x" "1" ∷ post "y" "2" ∷ post "x" "3" ∷ []

-- The bytes of each of them.
abbrev sealed : Bytes
sealed = elim (write_line prefixing format (9 ∷ []) (some nonce) (some (5 ∷ []))) [
  | value p ↦ p
  | failure ↦ []
  | panic ↦ []
]

same_list-sym : (xs ys : Bytes) → same_list xs ys ≡ true → ys ≡ xs
same_list-sym [] [] e = refl
same_list-sym (x ∷ xs) (y ∷ ys) e = grind (arith, same_list-sym xs ys)
same_list-sym [] (y ∷ ys) e = ground (arith, e)
same_list-sym (x ∷ xs) [] e = ground (arith, e)

abbrev read_sealed : String → Option Input
read_sealed s = some (record { raddr = s; message_type = 1; p = sealed })

abbrev write_sealed : Input → Option String
write_sealed i = if i.message_type == 1 && same_list i.p sealed then some i.raddr else none

read_sealed-write_sealed :
    (i : Input) (s : String) → write_sealed i ≡ some s → read_sealed s ≡ some i
read_sealed-write_sealed i s e = ground (arith, e, same_list-sym i.p sealed)

abbrev inputs_format : Codec Input
inputs_format = record {
  marshal = write_sealed;
  unmarshal = read_sealed;
  unmarshal-marshal = read_sealed-write_sealed;
}

delivered_to_others_example :
    let log = publications prefixing format (9 ∷ []) posts in
    let topic = Redis.subscribe_to_inputs "x" in
    let raw = map some (in_order.received topic (redis_log inputs_format log)) in
    let (inputs, state) = forward inputs_format raw in
    hears prefixing format (9 ∷ []) "b" ("chat" ∷ []) pion (λ n. n) "x" "1" 0 inputs new_session
    ≡ handle_signals "b" ("chat" ∷ []) pion (λ n. n) 0 (introduction "a" ∷ []) new_session
unfolding signals_for publications published read_loop write_line encrypt derive_key
delivered_to_others_example =
    delivered_to_others prefixing format (9 ∷ []) "b" ("chat" ∷ []) pion (λ n. n) "x" "1" in_order
      inputs_format posts new_session
      (refl, (5 ∷ [], refl), (refl, (5 ∷ [], refl), (refl, (5 ∷ [], refl), tt)))
      (("1", refl), (("2", refl), (("3", refl), tt)))
