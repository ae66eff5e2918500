-- ===== src/Conn/Negotiation.antt =====
-- pkg/wrtcconn/adapter_named.go and pkg/api/webrtc/v1: how an adapter claims one of its names. The
-- set of candidates is a list without regard to order.
pub mod Claims
pub mod Conflicts
use weron.Prelude.{
  ltb, if◌then◌else◌, contains, remove, ℕ, String, ◌≡◌, ◌≢◌, Bool, true, false, ◌&&◌, ◌||◌, Option,
  none, some, List, [], ◌∷◌, str_eq,
}

-- The messages of pkg/api/webrtc/v1; `unknown` is any other type.
pub data Message : Type 0 where
  greeting : List String → ℕ → Message
  kick : String → Message
  backoff : Message
  claimed : String → Message
  unknown : String → Message

-- What `Open` shares with its goroutines; the timestamp is `time.Now().UnixNano()`.
pub record Negotiator : Type 0 where
  pub candidates : List String
  pub id : String
  pub timestamp : ℕ

-- The configuration that the negotiation reads. `pick` is the key that ranging over the candidates
-- yields first.
pub record NamedAdapterConfig : Type 0 where
  pub names : List String
  pub is_id_claimed : List String → String → Bool
  pub pick : List String → Option String
  pub pick-contains : (xs : List String) (x : String) → pick xs ≡ some x → contains x xs ≡ true
  pub pick-nil : pick [] ≡ none
  pub pick-cons : (x : String) (xs : List String) → pick (x ∷ xs) ≢ none

-- The default of `IsIDClaimed`.
unfoldable pub default_is_id_claimed : List String → String → Bool
default_is_id_claimed ids id = contains id ids

abbrev pub is_unnamed : Negotiator → Bool
is_unnamed s = str_eq s.id ""

unfoldable pub greet : Negotiator → List Message
greet s =
    if is_unnamed s
    then greeting s.candidates s.timestamp ∷ []
    else greeting (s.id ∷ []) s.timestamp ∷ claimed s.id ∷ []

-- The loop over the IDs of a greeting: whether a backoff is sent.
unfoldable pub backs_off : Negotiator → List String → ℕ → Bool
backs_off s [] their_timestamp = false
backs_off s (gng_id ∷ ids) their_timestamp =
    is_unnamed s && contains gng_id s.candidates && ltb s.timestamp their_timestamp
    || backs_off s ids their_timestamp

module _ (config : NamedAdapterConfig) where
  -- The signaler has assigned an ID: all names are candidates again.
  unfoldable pub connected : Negotiator → Negotiator
  connected s = record s { candidates = config.names; id = "" }

  -- The timer is up. `none` is `ErrAllNamesClaimed`; otherwise the name is announced to each peer.
  unfoldable pub ready : Negotiator → Negotiator × Option (List Message)
  ready s =
      let id : String = elim (config.pick s.candidates) [
        | none ↦ s.id
        | some username ↦ username
      ] in
      let s' = record s { candidates = []; id = id } in
      if str_eq id "" then (s', none) else (s', some (claimed id ∷ []))

  unfoldable pub receive_greeting : Negotiator → List String → ℕ → List Message
  receive_greeting s ids their_timestamp =
      if backs_off s ids their_timestamp
      then backoff ∷ []
      else if config.is_id_claimed ids s.id
      then kick s.id ∷ []
      else []

  -- One message of a peer: the new state, and what is sent back to that peer.
  unfoldable pub receive : Negotiator → Message → Negotiator × List Message
  unfolding greet receive_greeting
  receive s (greeting ids their_timestamp) = (s, receive_greeting s ids their_timestamp)
  receive s (kick id) = (record s { candidates = remove id s.candidates }, [])
  receive s backoff = (s, greet s)
  receive s (claimed id) = (s, [])
  receive s (unknown type) = (s, [])
