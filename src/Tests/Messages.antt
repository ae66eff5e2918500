-- ===== src/Tests/Messages.antt =====
-- Encryption and the brokers at concrete inputs, with a cipher that puts the key in front of the text.
use weron.Prelude.{
  ◌==◌, if◌then◌else◌, length, take, drop, replicate, take-append, drop-append, ℕ, String, ◌≡◌,
  refl, Bool, true, false, ◌&&◌, Option, none, some, List, [], ◌∷◌, ◌++◌, arith,
}
use weron.Encryption.{Bytes, Crypto, value, encrypt, decrypt}
use weron.Encryption.Roundtrip.{decrypt-encrypt}
use weron.Broker.{Input, Topic, is_topic, Delivery}
use weron.Broker.Redis.{Codec}

abbrev pub same_list : Bytes → Bytes → Bool
same_list [] [] = true
same_list (a ∷ as') (b ∷ bs) = a == b && same_list as' bs
same_list _ _ = false

pub same_list_refl : (xs : Bytes) → same_list xs xs ≡ true
same_list_refl [] = refl
same_list_refl (x ∷ xs) = ground (arith, same_list_refl xs)

abbrev pub open_prefixed : Bytes → Bytes → Bytes → Option Bytes
open_prefixed key nonce ct =
    if same_list (take (length key) ct) key then some (drop (length key) ct) else none

pub open_prefixed-append :
    (key nonce plaintext : Bytes) → open_prefixed key nonce (key ++ plaintext) ≡ some plaintext
open_prefixed-append key nonce plaintext =
    rw (take-append key plaintext, drop-append key plaintext, same_list_refl key) refl

abbrev pub prefixing : Crypto
prefixing = record {
  empty_digest = replicate 28 7;
  seal_with = λ key nonce plaintext. key ++ plaintext;
  open_with = open_prefixed;
  length-empty_digest = refl;
  open-seal = open_prefixed-append;
}

abbrev pub nonce : Bytes
nonce = replicate 12 9

abbrev long_password : ℕ → Bytes
long_password last = replicate 32 5 ++ last ∷ []

decrypt-encrypt_example :
    (sealed : Bytes) × (encrypt prefixing (some nonce) (1 ∷ 2 ∷ []) (3 ∷ []) ≡ value sealed)
    × (decrypt prefixing sealed (3 ∷ []) ≡ value (1 ∷ 2 ∷ []))
decrypt-encrypt_example = decrypt-encrypt prefixing nonce (1 ∷ 2 ∷ []) (3 ∷ []) refl

-- A format with the address alone.
abbrev pub read_input : String → Option Input
read_input s = some (record { raddr = s; message_type = 1; p = [] })

abbrev pub write_input : Input → Option String
write_input i = if i.message_type == 1 then elim i.p [ [] ↦ some i.raddr | _ ∷ _ ↦ none ] else none

pub read_input-write_input :
    (i : Input) (s : String) → write_input i ≡ some s → read_input s ≡ some i
read_input-write_input i s e = ground (arith, e)

abbrev pub format : Codec Input
format = record {
  marshal = write_input;
  unmarshal = read_input;
  unmarshal-marshal = read_input-write_input;
}

abbrev log : List (String × Input)
log =
    ("a", record { raddr = "x"; message_type = 1; p = [] })
    ∷ ("b", record { raddr = "y"; message_type = 1; p = [] })
    ∷ []

abbrev pub on_topic : Topic → List (Topic × String) → List String
on_topic topic [] = []
on_topic topic ((t, a) ∷ log) =
    let rest = on_topic topic log in if is_topic t topic then a ∷ rest else rest

abbrev pub in_order : Delivery String
in_order = record {
  received = on_topic;
  received-nil = λ topic. refl;
  received-cons = λ topic t a log. refl;
}
