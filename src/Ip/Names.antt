-- ===== src/Ip/Names.antt =====
-- pkg/wrtcip/wrtcip.go: the names made from the networks, and the test for a claimed name.
use native.Mathlib.Nat.{zero-add}
use weron.Prelude.{
  ltb, ◌==◌, if◌then◌else◌, Bool-cases, length, get_elem?, take, drop, All, length-take, All-map,
  All-take, All-drop, ℕ, zero, suc, ◌+◌, ◌-◌, ◌/◌, ◌^◌, ◌≤◌, ◌<◌, ◌≡◌, refl, ap, ◌∙◌, inl, inr,
  Bool, true, ◌&&◌, none, some, List, [], ◌∷◌, arith,
}

-- `netip.Prefix`: an address as a number, of 32 or 128 bits, and the length of the prefix.
pub record Prefix : Type 0 where
  pub is4 : Bool
  pub addr : ℕ
  pub bits : ℕ

abbrev pub width : Prefix → ℕ
width p = if p.is4 then 32 else 128

-- `prefix.Contains(addr)`: the same leading bits.
unfoldable pub in_prefix : Prefix → ℕ → Bool
in_prefix p a = a / 2 ^ (width p - p.bits) == p.addr / 2 ^ (width p - p.bits)

-- The loop over the addresses from the one in the prefix on, at most `fuel` = `MaxRetries+2` of them;
-- behind the last address of all, `Next` gives one that no prefix contains.
unfoldable pub walk : Prefix → ℕ → ℕ → List ℕ
walk p zero a = []
walk p (suc fuel) a =
    let rest = walk p fuel (a + 1) in if ltb a (2 ^ width p) && in_prefix p a then a ∷ rest else []

-- `cidrIPs[1 : len(cidrIPs)-1]`.
abbrev pub without_ends : List ℕ → List ℕ
without_ends ips = take (length ips - 2) (drop 1 ips)

-- The addresses of one network that are offered, in order.
unfoldable pub offered : ℕ → Prefix → List ℕ
unfolding walk
offered max_retries p =
    let cidr_ips = walk p (max_retries + 2) p.addr in
    take max_retries (if p.is4 && ltb 2 (length cidr_ips) then without_ends cidr_ips else cidr_ips)

-- `rawNames[i]`: the i-th address of every network that offers so many.
unfoldable pub raw_name : ℕ → ℕ → List Prefix → List (ℕ × ℕ)
raw_name max_retries i [] = []
raw_name max_retries i (p ∷ cidrs) =
    let rest = raw_name max_retries i cidrs in
    elim (get_elem? (offered max_retries p) i) [ none ↦ rest | some a ↦ (a, p.bits) ∷ rest ]

unfoldable pub names_from : ℕ → ℕ → ℕ → List Prefix → List (List (ℕ × ℕ))
names_from max_retries zero i cidrs = []
names_from max_retries (suc n) i cidrs =
    raw_name max_retries i cidrs ∷ names_from max_retries n (suc i) cidrs

-- The names before `json.Marshal`: `MaxRetries` of them, each a list of addresses with their bits.
unfoldable pub names : ℕ → List Prefix → List (List (ℕ × ℕ))
names max_retries cidrs = names_from max_retries max_retries 0 cidrs

walk-in_prefix :
    (p : Prefix) (fuel a : ℕ) → All (λ x. (in_prefix p x ≡ true) × (a ≤ x)) (walk p fuel a)
unfolding walk
walk-in_prefix p zero a = tt
walk-in_prefix p (suc fuel) a = elim (Bool-cases (ltb a (2 ^ width p) && in_prefix p a)) [
  | inl t ↦ rw t (
    (ground arith, omega arith),
    All-map (λ x. (in_prefix p x ≡ true) × (a + 1 ≤ x)) _ (walk p fuel (a + 1))
        (λ x h. (h.0, omega (arith, h.1))) (walk-in_prefix p fuel (a + 1)),
  )
  | inr f ↦ rw f tt
]

-- Every address that a network offers lies in the network, at or behind the address it was given
-- with, and no network offers more than `MaxRetries` of them.
pub offered-in_prefix :
    (max_retries : ℕ) (p : Prefix)
    → All (λ x. (in_prefix p x ≡ true) × (p.addr ≤ x)) (offered max_retries p)
      × (length (offered max_retries p) ≤ max_retries)
unfolding offered
offered-in_prefix max_retries p =
    let ips = walk p (max_retries + 2) p.addr in
    let all = walk-in_prefix p (max_retries + 2) p.addr in
    elim (Bool-cases (p.is4 && ltb 2 (length ips))) [
      | inl t ↦ rw t (
        All-take Offerable max_retries (without_ends ips)
            (All-take Offerable (length ips - 2) (drop 1 ips) (All-drop Offerable 1 ips all)),
        omega (arith, length-take max_retries (without_ends ips)),
      )
      | inr f ↦
          rw f (All-take Offerable max_retries ips all, omega (arith, length-take max_retries ips))
    ]
  where
    Offerable : ℕ → Type 0
    Offerable x = (in_prefix p x ≡ true) × (p.addr ≤ x)

names_from-get :
    (max_retries n i j : ℕ) (cidrs : List Prefix)
    → j < n
    → get_elem? (names_from max_retries n i cidrs) j ≡ some (raw_name max_retries (i + j) cidrs)
unfolding names_from
names_from-get max_retries zero i j cidrs h = absurd (omega arith)
names_from-get max_retries (suc n) i zero cidrs h = ground arith
names_from-get max_retries (suc n) i (suc j) cidrs h =
    let same : suc i + j ≡ i + suc j = omega arith in
    names_from-get max_retries n (suc i) j cidrs (omega arith)
    ∙ ap (λ k. some (raw_name max_retries k cidrs)) same

get_elem?_past {ℓ} : {A : Type ℓ} (xs : List A) (i : ℕ) → length xs ≤ i → get_elem? xs i ≡ none
get_elem?_past [] i h = refl
get_elem?_past (x ∷ xs) zero h = absurd (omega arith)
get_elem?_past (x ∷ xs) (suc i) h = get_elem?_past xs i (omega arith)

raw_name-nil :
    (max_retries i : ℕ) (cidrs : List Prefix)
    → All (λ p. length (offered max_retries p) ≤ i) cidrs
    → raw_name max_retries i cidrs ≡ []
unfolding raw_name
raw_name-nil max_retries i [] h = refl
raw_name-nil max_retries i (p ∷ cidrs) h =
    rw
      (raw_name, get_elem?_past (offered max_retries p) i h.0, raw_name-nil max_retries i cidrs h.1)
      refl

-- Below `MaxRetries`, a name with an index that no network has an offer for holds no address: an
-- adapter in small networks can claim the name of nobody, and then has no address.
pub names_without_address :
    (max_retries i : ℕ) (cidrs : List Prefix)
    → i < max_retries
    → All (λ p. length (offered max_retries p) ≤ i) cidrs
    → get_elem? (names max_retries cidrs) i ≡ some []
unfolding names
names_without_address max_retries i cidrs h few =
    names_from-get max_retries max_retries 0 i cidrs h
    ∙ rw (zero-add i, raw_name-nil max_retries i cidrs few) refl
