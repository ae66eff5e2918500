-- ===== src/Conn/Ice.antt =====
-- pkg/wrtcconn/adapter.go: how `Open` reads the list of STUN and TURN servers.
use Prim.Native.Char.{code}
use weron.Prelude.{
  ltb, ◌==◌, if◌then◌else◌, Bool-cases, length, get_elem?, blank, ℕ, suc, String, ◌≡◌, refl, ap,
  ◌∙◌, ◌≢◌, inl, inr, Bool, true, false, not, ◌&&◌, ◌||◌, none, some, List, [], ◌∷◌, arith,
}

pub data IceServer : Type 0 where
  stun : String → IceServer
  turn : String → String → String → IceServer

pub data IceError : Type 0 where
  invalid_turn_server_addr missing_turn_credentials missing_forced_turn_server : IceError

-- A value, an error, or a panic by an index out of range.
pub data Opened {ℓ} (A : Type ℓ) : Type ℓ where
  opened : A → Opened A
  refused : IceError → Opened A
  index_panic : Opened A

-- `strings.HasPrefix` and `strings.Contains`.
unfoldable pub has_prefix : String → String → Bool
has_prefix String.[] s = true
has_prefix (String.◌∷◌ c p) String.[] = false
has_prefix (String.◌∷◌ c p) (String.◌∷◌ d s) = code c == code d && has_prefix p s

unfoldable pub has_substring : String → String → Bool
unfolding has_prefix
has_substring p String.[] = has_prefix p String.[]
has_substring p (String.◌∷◌ c s) = has_prefix p (String.◌∷◌ c s) || has_substring p s

-- `strings.Split` at a separator of one character.
abbrev pub push_head : String → List String → List String
push_head c [] = c ∷ []
push_head String.[] (part ∷ parts) = part ∷ parts
push_head (String.◌∷◌ c _) (part ∷ parts) = String.◌∷◌ c part ∷ parts

unfoldable pub split_at : ℕ → String → List String
split_at sep String.[] = "" ∷ []
split_at sep (String.◌∷◌ c s) =
    let rest = split_at sep s in
    if code c == sep then "" ∷ rest else push_head (String.◌∷◌ c String.[]) rest

-- The branch for a TURN server: the second test looks at `addrParts` once more, not at `authParts`.
unfoldable pub parse_turn : String → Opened IceServer
unfolding split_at
parse_turn ice =
    let addr_parts = split_at b'@' ice in
    if ltb (length addr_parts) 2
    then refused invalid_turn_server_addr
    else elim (get_elem? addr_parts 0) [
      | none ↦ index_panic
      | some credentials ↦
          let auth_parts = split_at b':' credentials in
          if ltb (length addr_parts) 2
          then refused missing_turn_credentials
          else elim (get_elem? addr_parts 1) [
            | none ↦ index_panic
            | some url ↦ elim (get_elem? auth_parts 0) [
              | none ↦ index_panic
              | some username ↦ elim (get_elem? auth_parts 1) [
                | none ↦ index_panic
                | some credential ↦ opened (turn url username credential)
              ]
            ]
          ]
    ]

unfoldable pub is_stun : String → Bool
unfolding has_substring
is_stun ice = has_substring "stun:" ice

abbrev pub with_server : IceServer → Opened (List IceServer) → Opened (List IceServer)
with_server s (opened servers) = opened (s ∷ servers)
with_server s (refused e) = refused e
with_server s index_panic = index_panic

-- The loop over the list; blank entries are skipped, and the first failure ends it.
unfoldable pub parse_all : List String → Opened (List IceServer)
unfolding parse_turn is_stun
parse_all [] = opened []
parse_all (ice ∷ rest) =
    let servers = parse_all rest in
    if blank ice
    then servers
    else if is_stun ice
    then with_server (stun ice) servers
    else elim (parse_turn ice) [
      | opened s ↦ with_server s servers
      | refused e ↦ refused e
      | index_panic ↦ index_panic
    ]

-- `containsTURN`.
unfoldable pub contains_turn : List IceServer → Bool
contains_turn [] = false
contains_turn (stun url ∷ servers) = contains_turn servers
contains_turn (turn url username credential ∷ servers) = true

unfoldable pub open_ice : Bool → List String → Opened (List IceServer)
unfolding parse_all contains_turn
open_ice force_relay ice = elim (parse_all ice) [
  | opened servers ↦
      if force_relay && not (contains_turn servers)
      then refused missing_forced_turn_server
      else opened servers
  | refused e ↦ refused e
  | index_panic ↦ index_panic
]

-- The entries that are not blank.
unfoldable pub count_used : List String → ℕ
count_used [] = 0
count_used (ice ∷ rest) = if blank ice then count_used rest else suc (count_used rest)

with_server-opened :
    (s : IceServer) (o : Opened (List IceServer)) (servers : List IceServer)
    → with_server s o ≡ opened servers
    → (rest : List IceServer) × (o ≡ opened rest) × (servers ≡ s ∷ rest)
with_server-opened s (opened rest) servers e = (rest, refl, ground arith)
with_server-opened s (refused x) servers e = cc
with_server-opened s index_panic servers e = cc

used_server :
    (ice : String) (rest : List String) (servers : List IceServer)
    → blank ice ≡ false
    → parse_all (ice ∷ rest) ≡ opened servers
    → (s : IceServer) × (with_server s (parse_all rest) ≡ opened servers)
unfolding parse_all
used_server ice rest servers b e = elim (Bool-cases (is_stun ice)) [
  | inl t ↦ (stun ice, ground arith)
  | inr f ↦ used_turn (parse_turn ice) (ground arith)
]
  where
    used_turn :
        (o : Opened IceServer)
        → elim o [
          | opened s ↦ with_server s (parse_all rest)
          | refused x ↦ refused x
          | index_panic ↦ index_panic
        ]
          ≡ opened servers
        → (s : IceServer) × (with_server s (parse_all rest) ≡ opened servers)
    used_turn (opened s) q = (s, q)
    used_turn (refused x) q = cc
    used_turn index_panic q = cc

used_length :
    (ice : String) (rest : List String) (servers : List IceServer)
    → blank ice ≡ false
    → ((ss : List IceServer) → parse_all rest ≡ opened ss → length ss ≡ count_used rest)
    → parse_all (ice ∷ rest) ≡ opened servers
    → length servers ≡ suc (count_used rest)
used_length ice rest servers b ih e =
    let (s, w) = used_server ice rest servers b e in
    let (ss, o, q) = with_server-opened s (parse_all rest) servers w in
    ap length q ∙ ap suc (ih ss o)

parse_all-length :
    (ice : List String) (servers : List IceServer)
    → parse_all ice ≡ opened servers
    → length servers ≡ count_used ice
unfolding parse_all count_used
parse_all-length [] servers e = ground arith
parse_all-length (ice ∷ rest) servers e = elim (Bool-cases (blank ice)) [
  | inl b ↦ rw b (parse_all-length rest servers (ground arith))
  | inr b ↦ rw b (used_length ice rest servers b (parse_all-length rest) e)
]

-- If `Open` accepts the list, every entry that is not blank gives one server, and if TURN is forced,
-- one of them at least is a TURN server.
pub open_ice_servers :
    (force_relay : Bool) (ice : List String) (servers : List IceServer)
    → open_ice force_relay ice ≡ opened servers
    → (length servers ≡ count_used ice) × ((not force_relay || contains_turn servers) ≡ true)
unfolding open_ice
open_ice_servers force_relay ice servers e =
    (parse_all-length ice servers (ground arith), ground arith)

parse_turn_panics :
    (ice credentials url : String) (parts : List String)
    → split_at b'@' ice ≡ credentials ∷ url ∷ parts
    → split_at b':' credentials ≡ credentials ∷ []
    → parse_turn ice ≡ index_panic
unfolding parse_turn
parse_turn_panics ice credentials url parts at colon = ground (arith, at, colon)

-- A TURN server whose credentials have no colon is not refused as missing its credentials: wherever
-- it stands first in a list, `Open` panics. The error for that case is never returned.
pub open_ice_panics :
    (force_relay : Bool) (ice credentials url : String) (parts rest : List String)
    → blank ice ≡ false
    → is_stun ice ≡ false
    → split_at b'@' ice ≡ credentials ∷ url ∷ parts
    → split_at b':' credentials ≡ credentials ∷ []
    → open_ice force_relay (ice ∷ rest) ≡ index_panic
unfolding open_ice
open_ice_panics force_relay ice credentials url parts rest nb ns at colon =
    let p = parse_turn_panics ice credentials url parts at colon in ground (arith, nb, ns, p)

parse_turn-ne-missing : (ice : String) → parse_turn ice ≢ refused missing_turn_credentials
unfolding parse_turn
parse_turn-ne-missing ice = λ e. ground arith
