-- ===== src/Tests/Opening.antt =====
-- A signaler that cannot open its broker.
use weron.Prelude.{◌≡◌, ◌⊎◌, Bool, true, false, none, some, List, [], ◌∷◌, ◌++◌}
use weron.Signaler.Opening.{
  Call, open_broker, subscribe_to_kicks, listen, Settings, open_signaler, AllSucceed, plan,
  opens_or_fails,
}
use weron.Tests.Signaling.{config}

abbrev settings : Settings
settings = record { laddr = ":1337"; postgres_url = ""; redis_url = ""; config = config }

abbrev all_but_broker : Call → Bool
all_but_broker (open_broker kind url) = false
all_but_broker _ = true

opens_or_fails_example :
    (AllSucceed all_but_broker (plan settings)
      × (open_signaler all_but_broker settings
          ≡ (plan settings ++ subscribe_to_kicks ∷ listen ∷ [], none)))
    ⊎ ((before : List Call) × (c : Call) × (after : List Call) × (plan settings
          ≡ before ++ c ∷ after)
        × AllSucceed all_but_broker before
        × (all_but_broker c ≡ false)
        × (open_signaler all_but_broker settings ≡ (before ++ c ∷ [], some c)))
opens_or_fails_example = opens_or_fails all_but_broker settings
