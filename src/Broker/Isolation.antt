-- ===== src/Broker/Isolation.antt =====
-- Whose messages a client of a community gets.
use weron.Prelude.{
  if◌then◌else◌, Bool-cases, String, ◌≡◌, refl, ap, inl, inr, Option, none, some, List, [], ◌∷◌,
  map, arith, eq_iff, str_eq,
}
use weron.Broker.{Input, Topic, inputs_relay, redis_topic, is_topic, Delivery, waiting}
use weron.Broker.Redis.{Codec, concat, topic_messages_prefix, forward}
use weron.Broker.Process
use weron.Broker.Redis

-- The inputs of a community among all that were published, in order.
unfoldable pub inputs_of : String → List (String × Input) → List Input
inputs_of community [] = []
inputs_of community ((c, i) ∷ log) =
    if str_eq c community then i ∷ inputs_of community log else inputs_of community log

-- What Redis holds once the inputs are published, where `Marshal` fails on none of them.
unfoldable pub redis_log : Codec Input → List (String × Input) → List (Topic × String)
redis_log json [] = []
redis_log json ((c, i) ∷ log) = elim (Redis.publish_input json i c) [
  | none ↦ redis_log json log
  | some m ↦ m ∷ redis_log json log
]

unfoldable pub process_log : List (String × Input) → List (Topic × Input)
process_log [] = []
process_log ((c, i) ∷ log) = Process.publish_input i c ∷ process_log log

abbrev pub AllMarshal : Codec Input → List (String × Input) → Type 0
AllMarshal json [] = Unit
AllMarshal json ((c, i) ∷ log) = ((s : String) × (json.marshal i ≡ some s)) × AllMarshal json log

-- A topic determines its community.
str_eq-prefix :
    (c d : String)
    → str_eq (concat topic_messages_prefix c) (concat topic_messages_prefix d) ≡ str_eq c d
unfolding concat
str_eq-prefix c d =
    ground
      (arith, eq_iff (concat topic_messages_prefix c) (concat topic_messages_prefix d), eq_iff c d)

forward_known :
    (json : Codec Input) (s : String) (i : Input) (raw : List (Option String)) (is : List Input)
    → json.unmarshal s ≡ some i
    → forward json raw ≡ (is, waiting)
    → forward json (some s ∷ raw) ≡ (i ∷ is, waiting)
unfolding forward
forward_known json s i raw is u h = ground (arith, u, h)

-- Redis: every subscriber of a community gets the inputs published to that community, all of them
-- and no others, in order, if `Marshal` fails on none and the server delivers to the subscriber of a
-- topic what is published on that topic.
pub redis_inputs_isolated :
    (server : Delivery String) (json : Codec Input) (community : String)
    (log : List (String × Input))
    → AllMarshal json log
    → forward json
        (map some (server.received (Redis.subscribe_to_inputs community) (redis_log json log)))
      ≡ (inputs_of community log, waiting)
unfolding forward redis_log inputs_of Redis.publish_input Redis.subscribe_to_inputs is_topic
redis_inputs_isolated server json community [] h =
    ground (arith, server.received-nil (Redis.subscribe_to_inputs community))
redis_inputs_isolated server json community ((c, i) ∷ log) h =
    let (s, e) = h.0 in
    let topic = Redis.subscribe_to_inputs community in
    let own = redis_topic (concat topic_messages_prefix c) in
    let step : redis_log json ((c, i) ∷ log) ≡ (own, s) ∷ redis_log json log = ground (arith, e) in
    rw (step, server.received-cons topic own s (redis_log json log), str_eq-prefix c community)
      (elim (Bool-cases (str_eq c community)) [
        | inl t ↦ rw t (
            forward_known json s i _ _ (json.unmarshal-marshal i s e)
              (redis_inputs_isolated server json community log h.1))
        | inr f ↦ rw f (redis_inputs_isolated server json community log h.1)
      ])

-- In process: every subscriber of any community gets the inputs of all communities.
pub process_inputs_shared :
    (relay : Delivery Input) (community : String) (log : List (String × Input))
    → Process.forward (relay.received (Process.subscribe_to_inputs community) (process_log log))
      ≡ map (λ e. e.1) log
unfolding process_log Process.publish_input Process.subscribe_to_inputs is_topic Process.forward
process_inputs_shared relay community [] = rw (relay.received-nil inputs_relay) refl
process_inputs_shared relay community ((c, i) ∷ log) =
    rw (relay.received-cons inputs_relay inputs_relay i (process_log log))
      (ap (◌∷◌ i) (process_inputs_shared relay community log))
