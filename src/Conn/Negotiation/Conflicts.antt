-- ===== src/Conn/Negotiation/Conflicts.antt =====
-- Two adapters that want the same name.
use weron.Prelude.{
  ltb, if◌then◌else◌, Option-cases, str_eq_refl, contains, remove, contains-remove, ℕ, String, ◌≡◌,
  refl, sym, ◌≢◌, inl, inr, Bool, true, false, ◌&&◌, ◌||◌, some, List, [], ◌∷◌, arith, eq_iff,
  str_eq,
}
use weron.Conn.Negotiation.{
  greeting, kick, Negotiator, NamedAdapterConfig, default_is_id_claimed, is_unnamed, backs_off,
  ready, receive,
}

-- Two sets of names that have one in common.
unfoldable pub overlaps : List String → List String → Bool
overlaps [] ys = false
overlaps (x ∷ xs) ys = contains x ys || overlaps xs ys

overlaps-nil : (xs : List String) → overlaps xs [] ≡ false
unfolding overlaps contains
overlaps-nil [] = refl
overlaps-nil (x ∷ xs) = overlaps-nil xs

overlaps-cons :
    (xs : List String) (y : String) (ys : List String)
    → overlaps xs (y ∷ ys) ≡ (contains y xs || overlaps xs ys)
unfolding overlaps contains
overlaps-cons [] y ys = refl
overlaps-cons (x ∷ xs) y ys = ground (arith, overlaps-cons xs y ys, eq_iff x y, eq_iff y x)

overlaps_symm : (xs ys : List String) → overlaps xs ys ≡ overlaps ys xs
unfolding overlaps
overlaps_symm [] ys = sym (overlaps-nil ys)
overlaps_symm (x ∷ xs) ys = ground (arith, overlaps-cons ys x xs, overlaps_symm xs ys)

pub backs_off-overlaps :
    (s : Negotiator) (ids : List String) (t : ℕ)
    → backs_off s ids t ≡ (is_unnamed s && overlaps ids s.candidates && ltb s.timestamp t)
unfolding backs_off overlaps
backs_off-overlaps s [] t = ground arith
backs_off-overlaps s (x ∷ ids) t = ground (arith, backs_off-overlaps s ids t)

-- Of two adapters without a name that greet each other with a candidate in common, the one with the
-- earlier timestamp, and it alone, asks the other to back off; with equal timestamps neither does.
pub backs_off_once :
    (s t : Negotiator)
    → is_unnamed s ≡ true
    → is_unnamed t ≡ true
    → overlaps s.candidates t.candidates ≡ true
    → (backs_off s t.candidates t.timestamp ≡ ltb s.timestamp t.timestamp)
      × (backs_off t s.candidates s.timestamp ≡ ltb t.timestamp s.timestamp)
backs_off_once s t hs ht o = (
  ground (
    arith,
    backs_off-overlaps s t.candidates t.timestamp,
    overlaps_symm s.candidates t.candidates,
  ),
  ground (arith, backs_off-overlaps t s.candidates s.timestamp),
)

module _ (config : NamedAdapterConfig) where
  pick-ne : (xs : List String) (x : String) → contains x xs ≡ false → config.pick xs ≢ some x
  pick-ne xs x h e = ground (arith, config.pick-contains xs x e)

  -- The timer gives no name that is neither a candidate nor the name before.
  pub named_other :
      (s : Negotiator) (x : String)
      → contains x s.candidates ≡ false
      → s.id ≢ x
      → (ready config s).0.id ≢ x
  unfolding ready
  named_other s x h n e = elim (Option-cases (config.pick s.candidates)) [
    | inl p ↦ ground arith
    | inr (y, p) ↦ pick-ne s.candidates x h (ground arith)
  ]

  -- An adapter that has a name answers the greeting of one that has no name yet, and has that name
  -- among its candidates, by a kick, where the default test is used; and once that kick is handled,
  -- the other adapter cannot end up with the name when its timer is up, though it keeps every other
  -- candidate.
  pub kick_excludes :
      (holder s : Negotiator) (x : String)
      → ((ids : List String) (id : String)
          → config.is_id_claimed ids id ≡ default_is_id_claimed ids id)
      → is_unnamed holder ≡ false
      → is_unnamed s ≡ true
      → contains holder.id s.candidates ≡ true
      → let (_, replies) = receive config holder (greeting s.candidates s.timestamp) in
        let (s', _) = receive config s (kick holder.id) in
        (replies ≡ kick holder.id ∷ [])
        × ((ready config s').0.id ≢ holder.id)
        × (contains x s'.candidates
            ≡ (if str_eq holder.id x then false else contains x s.candidates))
  unfolding receive ready default_is_id_claimed
  kick_excludes holder s x d hn sn c = (
    ground (arith, d s.candidates holder.id, backs_off-overlaps holder s.candidates s.timestamp),
    λ e.
        named_other (record s { candidates = remove holder.id s.candidates }) holder.id
          (rw (contains-remove holder.id holder.id s.candidates, str_eq_refl holder.id) refl)
          (λ q. ground arith) e,
    contains-remove x holder.id s.candidates,
  )
