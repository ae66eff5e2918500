-- ===== src/Broker/Redis.antt =====
-- internal/brokers/redis/communities.go. JSON is a parameter: what `Marshal` and `Unmarshal` do on
-- the messages of the broker.
use weron.Prelude.{String, ◌≡◌, Option, none, some, List, [], ◌∷◌}
use weron.Broker.{Kick, Input, Topic, redis_topic, Ending, waiting, closed, failed}

pub record Codec {ℓ} (A : Type ℓ) : Type ℓ where
  pub marshal : A → Option String
  pub unmarshal : String → Option A
  pub unmarshal-marshal : (a : A) (s : String) → marshal a ≡ some s → unmarshal s ≡ some a

-- Go's `+` on strings.
unfoldable pub concat : String → String → String
concat String.[] t = t
concat (String.◌∷◌ c s) t = String.◌∷◌ c (concat s t)

abbrev pub topic_kick : String
topic_kick = "kick"

abbrev pub topic_messages_prefix : String
topic_messages_prefix = "messages."

abbrev pub subscribe_to_kicks : Topic
subscribe_to_kicks = redis_topic topic_kick

unfoldable pub subscribe_to_inputs : String → Topic
unfolding concat
subscribe_to_inputs community = redis_topic (concat topic_messages_prefix community)

-- `none` is an error of `Marshal`.
unfoldable pub publish_input : Codec Input → Input → String → Option (Topic × String)
unfolding concat
publish_input json input community = elim (json.marshal input) [
  | none ↦ none
  | some j ↦ some (redis_topic (concat topic_messages_prefix community), j)
]

unfoldable pub publish_kick : Codec Kick → Kick → Option (Topic × String)
publish_kick json kick = elim (json.marshal kick) [
  | none ↦ none
  | some j ↦ some (redis_topic topic_kick, j)
]

module _ {ℓ} {A : Type ℓ} (json : Codec A) where
  -- One more message handed on before the rest.
  abbrev pub hand_on : A → List A × Ending String → List A × Ending String
  hand_on a (xs, e) = (a ∷ xs, e)

  -- The goroutine of `SubscribeToKicks` and `SubscribeToInputs`: `none` is the nil message of a
  -- closed channel, and a message that is no JSON ends it with the error.
  unfoldable pub forward : List (Option String) → List A × Ending String
  forward [] = ([], waiting)
  forward (none ∷ raw) = ([], closed)
  forward (some j ∷ raw) =
      let rest = forward raw in
      elim (json.unmarshal j) [ none ↦ ([], failed j) | some a ↦ hand_on a rest ]
