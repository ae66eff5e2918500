-- ===== src/Broker.antt =====
-- internal/brokers/communities.go: the messages that the signalers exchange. A broker is what it
-- publishes and on which topic; a subscriber of a topic gets what is published on it, in order.
pub mod Process
pub mod Redis
pub mod Isolation
use weron.Prelude.{if◌then◌else◌, ℕ, String, ◌≡◌, Bool, true, false, List, [], ◌∷◌, str_eq}
use weron.Encryption.{Bytes}

pub record Kick : Type 0 where
  pub community : String

pub record Input : Type 0 where
  pub raddr : String
  pub message_type : ℕ
  pub p : Bytes

-- The two relays of the in-process broker, and the topics of Redis.
pub data Topic : Type 0 where
  kicks_relay inputs_relay : Topic
  redis_topic : String → Topic

unfoldable pub is_topic : Topic → Topic → Bool
is_topic kicks_relay kicks_relay = true
is_topic inputs_relay inputs_relay = true
is_topic (redis_topic s) (redis_topic t) = str_eq s t
is_topic _ _ = false

-- teivah/broadcast and the Redis server: what a subscriber of a topic gets of what was published
-- while it was subscribed. Both document that it is all that was published on that topic, in order.
pub record Delivery {ℓ} (A : Type ℓ) : Type ℓ where
  pub received : Topic → List (Topic × A) → List A
  pub received-nil : (topic : Topic) → received topic [] ≡ []
  pub received-cons :
      (topic t : Topic) (a : A) (log : List (Topic × A))
      → received topic ((t, a) ∷ log)
        ≡ (if is_topic t topic then a ∷ received topic log else received topic log)

-- What the goroutine behind a subscription hands to the signaler, and whether it ended with an
-- error, was closed, or still waits.
pub data Ending {ℓ} (E : Type ℓ) : Type ℓ where
  waiting closed : Ending E
  failed : E → Ending E
