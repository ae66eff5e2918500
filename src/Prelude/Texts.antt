-- ===== src/Prelude/Texts.antt =====
-- Texts: the blank test `strings.TrimSpace(s) == ""`, and membership in a list of texts.
use Prim.Native.Nat.{ℕ}
use Prim.Native.Char.{code}
use Prim.Native.String.{String}
use mathlib.Core.Path.{◌≡◌, refl}
use mathlib.Core.Bool.{Bool, true, false, ◌&&◌, ◌||◌}
use mathlib.Core.List.{List, [], ◌∷◌}
use native.Mathlib.Omega.{arith}
use text.Mathlib.Text.{◌==◌ as str_eq}
use text.Mathlib.TextEquality.{eq_iff}
use weron.Prelude.Tests.{leb, ◌==◌, if◌then◌else◌}

-- The code points with the property White_Space.
unfoldable pub is_space : ℕ → Bool
is_space c =
    leb 0x9 c && leb c 0xd
    || c == 0x20
    || c == 0x85
    || c == 0xa0
    || c == 0x1680
    || leb 0x2000 c && leb c 0x200a
    || c == 0x2028
    || c == 0x2029
    || c == 0x202f
    || c == 0x205f
    || c == 0x3000

-- What `TrimSpace` leaves is empty exactly if every character is a space.
unfoldable pub blank : String → Bool
unfolding is_space
blank String.[] = true
blank (String.◌∷◌ c s) = is_space (code c) && blank s

pub blank-empty : blank "" ≡ true
unfolding blank
blank-empty = refl

pub str_eq_refl : (s : String) → str_eq s s ≡ true
str_eq_refl s = (eq_iff s s).1 refl

-- The keys of a Go `map[string]struct{}`: a list without regard to order.
unfoldable pub contains : String → List String → Bool
contains k [] = false
contains k (x ∷ xs) = str_eq x k || contains k xs

unfoldable pub remove : String → List String → List String
remove k [] = []
remove k (x ∷ xs) = if str_eq x k then remove k xs else x ∷ remove k xs

pub contains-remove :
    (j k : String) (xs : List String)
    → contains j (remove k xs) ≡ (if str_eq k j then false else contains j xs)
unfolding contains remove
contains-remove j k [] = ground arith
contains-remove j k (x ∷ xs) =
    ground (arith, eq_iff x k, eq_iff x j, eq_iff k j, contains-remove j k xs)
