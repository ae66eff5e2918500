-- ===== src/Broker/Process.antt =====
-- internal/brokers/process/communities.go. The community of an input is not looked at.
use weron.Prelude.{String, List, [], ◌∷◌}
use weron.Broker.{Kick, Input, Topic, kicks_relay, inputs_relay}

abbrev pub subscribe_to_kicks : Topic
subscribe_to_kicks = kicks_relay

unfoldable pub subscribe_to_inputs : String → Topic
subscribe_to_inputs community = inputs_relay

unfoldable pub publish_input : Input → String → Topic × Input
publish_input input community = (inputs_relay, input)

unfoldable pub publish_kick : Kick → Topic × Kick
publish_kick kick = (kicks_relay, kick)

-- The goroutine of `SubscribeToInputs`, and in the same way that of `SubscribeToKicks`: it passes on
-- what the relay gives it.
unfoldable pub forward {ℓ} : {A : Type ℓ} → List A → List A
forward [] = []
forward (x ∷ raw) = x ∷ forward raw
