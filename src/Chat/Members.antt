-- ===== src/Chat/Members.antt =====
-- The list of the peers of a chat: what stands at a place in it, and whether all listeners are read from.
use mathlib.Core.List.{}
use weron.Prelude.{
  ◌==◌, if◌then◌else◌, length, ℕ, zero, suc, String, ◌≡◌, refl, Bool, true, false, none, some, List,
  [], ◌∷◌, ◌++◌, map, arith,
}
use weron.Encryption.{Bytes}
use weron.Chat.{Member, member_at, update_at, all_read, listener_of, write_to, deliver, new_member}

pub member_at-deliver :
    (n : ℕ) (body : Bytes) (received : ℕ → Bool) (ms : List Member)
    → member_at n (deliver body received ms)
      ≡ elim (member_at n ms) [ none ↦ none | some m ↦ some (write_to body (received n) m) ]
unfolding member_at deliver
member_at-deliver n body received [] = refl
member_at-deliver zero body received (m ∷ ms) = refl
member_at-deliver (suc n) body received (m ∷ ms) =
    member_at-deliver n body (λ k. received (suc k)) ms

-- The listeners of peers.
abbrev pub listeners : List Member → List (Bool × Bool)
listeners = map listener_of

pub listeners-deliver :
    (body : Bytes) (received : ℕ → Bool) (ms : List Member)
    → listeners (deliver body received ms) ≡ listeners ms
unfolding deliver
listeners-deliver body received [] = refl
listeners-deliver body received (m ∷ ms) =
    ground (arith, listeners-deliver body (λ k. received (suc k)) ms)

pub all_read-new_member :
    (p ch : String) (ms : List Member)
    → all_read (listeners ms) ≡ true
    → all_read (listeners (ms ++ new_member p ch ∷ [])) ≡ true
unfolding all_read
all_read-new_member p ch [] h = refl
all_read-new_member p ch (m ∷ ms) h = ground (arith, h, all_read-new_member p ch ms)

pub all_read-update_at :
    (k : ℕ) (ms : List Member)
    → all_read (listeners ms) ≡ true
    → all_read (listeners (update_at k (λ m. record m { listening = false }) ms)) ≡ true
unfolding all_read update_at
all_read-update_at k [] h = refl
all_read-update_at zero (m ∷ ms) h = ground (arith, h)
all_read-update_at (suc k) (m ∷ ms) h = ground (arith, h, all_read-update_at k ms)

pub member_at-update_at :
    (n k : ℕ) (f : Member → Member) (ms : List Member)
    → member_at n (update_at k f ms)
      ≡ elim (member_at n ms) [ none ↦ none | some m ↦ some (if k == n then f m else m) ]
unfolding member_at update_at
member_at-update_at n k f [] = refl
member_at-update_at zero zero f (m ∷ ms) = ground arith
member_at-update_at zero (suc k) f (m ∷ ms) = ground arith
member_at-update_at (suc n) zero f (m ∷ ms) = ground arith
member_at-update_at (suc n) (suc k) f (m ∷ ms) = ground (arith, member_at-update_at n k f ms)

pub member_at-append :
    (n : ℕ) (ms : List Member) (x m : Member)
    → member_at n ms ≡ some m
    → member_at n (ms ++ x ∷ []) ≡ some m
unfolding member_at
member_at-append n [] x m e = cc
member_at-append zero (y ∷ ms) x m e = e
member_at-append (suc n) (y ∷ ms) x m e = member_at-append n ms x m e

pub member_at-last : (ms : List Member) (x : Member) → member_at (length ms) (ms ++ x ∷ []) ≡ some x
unfolding member_at
member_at-last [] x = refl
member_at-last (y ∷ ms) x = member_at-last ms x
