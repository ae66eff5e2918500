-- ===== src/Signaler/Opening.antt =====
-- pkg/wrtcsgl/wrtcsgl.go: how the signaler opens. A community that the last run has left behind is
-- cleaned up before any request is served.
use weron.Prelude.{
  if◌then◌else◌, Bool-cases, All, String, ◌≡◌, refl, ap, ◌⊎◌, inl, inr, Bool, true, false, Option,
  none, some, List, [], ◌∷◌, ◌++◌, arith,
}
use weron.Signaler.{
  SignalerConfig, StoreKind, BrokerKind, AuthKind, select_store, select_broker, select_auth,
}

-- What `Open` calls, up to the goroutines that receive kicks and listen.
pub data Call : Type 0 where
  resolve_address : String → Call
  open_store : StoreKind → String → Call
  cleanup_store : Call
  open_broker : BrokerKind → String → Call
  open_auth : AuthKind → Call
  subscribe_to_kicks listen : Call

-- `NewSignaler`: the address, the URLs and the configuration.
pub record Settings : Type 0 where
  pub laddr : String
  pub postgres_url : String
  pub redis_url : String
  pub config : SignalerConfig

-- The calls that were made, and the one whose error is returned.
abbrev pub Opened : Type 0
Opened = List Call × Option Call

-- `if err := …; err != nil { return err }`.
abbrev pub call_then : (Call → Bool) → Call → Opened → Opened
call_then succeeds call (calls, e) =
    if succeeds call then (call ∷ calls, e) else (call ∷ [], some call)

module _ (succeeds : Call → Bool) where
  unfoldable pub open_signaler : Settings → Opened
  open_signaler s =
      let rest = call_then succeeds (open_broker (select_broker s.redis_url) s.redis_url) (
        call_then succeeds (open_auth (select_auth s.config))
          (subscribe_to_kicks ∷ listen ∷ [], none)) in
      let cleaned = if s.config.cleanup then call_then succeeds cleanup_store rest else rest in
      call_then succeeds (resolve_address s.laddr)
        (call_then succeeds (open_store (select_store s.postgres_url) s.postgres_url) cleaned)

abbrev pub AllSucceed : (Call → Bool) → List Call → Type 0
AllSucceed succeeds = All (λ c. succeeds c ≡ true)

abbrev pub plan : Settings → List Call
plan s =
    resolve_address s.laddr
      ∷ open_store (select_store s.postgres_url) s.postgres_url
      ∷ (if s.config.cleanup then cleanup_store ∷ [] else [])
    ++ open_broker (select_broker s.redis_url) s.redis_url ∷ open_auth (select_auth s.config) ∷ []

-- The plan up to and with the first call that fails.
unfoldable pub until_failure : (Call → Bool) → List Call → Opened
until_failure succeeds [] = (subscribe_to_kicks ∷ listen ∷ [], none)
until_failure succeeds (c ∷ cs) =
    let (made, e) = until_failure succeeds cs in
    if succeeds c then (c ∷ made, e) else (c ∷ [], some c)

open_signaler-plan :
    (succeeds : Call → Bool) (s : Settings)
    → open_signaler succeeds s ≡ until_failure succeeds (plan s)
unfolding open_signaler until_failure
open_signaler-plan succeeds s = ground arith

-- All succeed, or one of them is the first that fails.
until_failure-cases :
    (succeeds : Call → Bool) (cs : List Call)
    → (AllSucceed succeeds cs
        × (until_failure succeeds cs ≡ (cs ++ subscribe_to_kicks ∷ listen ∷ [], none)))
      ⊎ ((before : List Call) × (c : Call) × (after : List Call) × (cs ≡ before ++ c ∷ after)
          × AllSucceed succeeds before
          × (succeeds c ≡ false)
          × (until_failure succeeds cs ≡ (before ++ c ∷ [], some c)))
unfolding until_failure
until_failure-cases succeeds [] = inl (tt, refl)
until_failure-cases succeeds (c ∷ cs) = elim (Bool-cases (succeeds c)) [
  | inl t ↦ elim (until_failure-cases succeeds cs) [
    | inl (all, e) ↦ inl ((t, all), rw (t, e) refl)
    | inr (before, x, after, p, all, f, e) ↦
        inr (c ∷ before, x, after, ap (◌∷◌ c) p, (t, all), f, rw (t, e) refl)
  ]
  | inr f ↦ inr ([], c, cs, refl, tt, f, rw f refl)
]

-- Either every call of the plan succeeds, which is to resolve the address, to open the store, to clean
-- it up where that is configured, to open the broker and the authentication, and then the signaler
-- subscribes to the kicks and listens; or one of them is the first that fails: its error is returned,
-- exactly the calls before it have been made, and the signaler does not listen.
pub opens_or_fails :
    (succeeds : Call → Bool) (s : Settings)
    → (AllSucceed succeeds (plan s)
        × (open_signaler succeeds s ≡ (plan s ++ subscribe_to_kicks ∷ listen ∷ [], none)))
      ⊎ ((before : List Call) × (c : Call) × (after : List Call) × (plan s ≡ before ++ c ∷ after)
          × AllSucceed succeeds before
          × (succeeds c ≡ false)
          × (open_signaler succeeds s ≡ (before ++ c ∷ [], some c)))
opens_or_fails succeeds s =
    rw (open_signaler-plan succeeds s) (until_failure-cases succeeds (plan s))
