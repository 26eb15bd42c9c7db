-- ===== src/Auth/Validate.antt =====
-- internal/crypto/auth/x25519.go, the server: `Validate`. Every failure is `ErrAuthFailed`. The time
-- in seconds is an argument; an `int64` is the number below 2^64 that has its bits.
use nightveil.Prelude.{
  Bool, Bytes, List, Option, [], codes, drop, false, get_or, if◌then◌else◌, length, ltb, ltb_ℤ,
  negsuc, none, not, pos, replicate, some, take, true, ℕ, ℤ, ◌%◌, ◌&&◌, ◌+◌, ◌-◌, ◌/◌, ◌==◌, ◌^◌,
  ◌||◌, ◌∷◌,
}
use nightveil.Prelude.Steps.{◌>>=◌, ◌>>◌, check}
use nightveil.Auth.Crypto.{Crypto, Token, combine, derive_key, info_v2, get_be64, copy_to}

pub record UserEntry : Type 0 where
  pub public_key : Bytes
  pub name : Bytes

-- `Users` is an association list by the hexadecimal short identifier.
pub record ServerX25519 : Type 0 where
  pub private_key : Bytes
  pub users : List (Bytes × UserEntry)
  pub max_time_diff : ℤ
  pub token_header : Bytes

-- The cookies and headers of a request; a header that is missing is empty.
pub record HttpRequest : Type 0 where
  pub cookie : Bytes → Option Bytes
  pub header : Bytes → Bytes

abbrev pub is_empty : Bytes → Bool
is_empty [] = true
is_empty (c ∷ s) = false

abbrev pub get_value : Option Bytes → Bytes
get_value none = []
get_value (some v) = v

unfoldable pub extract_token : HttpRequest → Bytes → Bytes
extract_token r name =
    let key = if is_empty name then codes "nv_token" else name in
    let value = get_value (r.cookie key) in if not (is_empty value) then value else r.header key

-- `%x` of bytes.
abbrev pub hex_digit : ℕ → ℕ
hex_digit n = if ltb n 10 then b'0' + n else b'a' + (n - 10)

unfoldable pub hex : Bytes → Bytes
hex [] = []
hex (b ∷ s) = hex_digit (b / 16) ∷ hex_digit (b % 16) ∷ hex s

abbrev pub same_bytes : Bytes → Bytes → Bool
same_bytes [] [] = true
same_bytes [] (y ∷ ys) = false
same_bytes (x ∷ xs) [] = false
same_bytes (x ∷ xs) (y ∷ ys) = x == y && same_bytes xs ys

unfoldable pub find_user : Bytes → List (Bytes × UserEntry) → Option UserEntry
find_user k [] = none
find_user k ((j, u) ∷ m) = let rest = find_user k m in if same_bytes k j then some u else rest

-- The signed value of 64 bits.
abbrev pub to_int64 : ℕ → ℤ
to_int64 v = if ltb v (2 ^ 63) then pos v else negsuc (2 ^ 64 - 1 - v)

-- `diff := now - timestamp; if diff < 0 { diff = -diff }`, with the wrap-around of `int64`.
unfoldable pub time_diff : ℕ → ℕ → ℕ
time_diff now timestamp =
    let diff = (now + 2 ^ 64 - timestamp) % 2 ^ 64 in
    if ltb_ℤ (to_int64 diff) (pos 0) then (2 ^ 64 - diff) % 2 ^ 64 else diff

-- The parts of a token whose short identifier has `n` bytes.
unfoldable pub split_token : ℕ → Bytes → Token
split_token n s =
    let body = drop 65 s in
    record {
      eph_pub = take 32 s;
      user_pub = take 32 (drop 32 s);
      short_id = take n body;
      timestamp = take 8 (drop n body);
      nonce = take 12 (drop 8 (drop n body));
      ciphertext = drop 12 (drop 8 (drop n body));
    }

unfoldable pub parse_token : Bytes → Option Token
parse_token s =
    let n = get_or s 64 0 in
    do
      check (not (ltb (length s) (32 + 32 + 1 + 0 + 8 + 12 + 16)))
      check (not (ltb 8 n || ltb (length s) (65 + n + 8 + 12 + 32)))
      some (split_token n s)

-- `user.PublicKey != [32]byte{} && userPubKey != user.PublicKey`, negated.
abbrev pub key_matches : Bytes → Bytes → Bool
key_matches registered sent =
    same_bytes registered (replicate 32 0) || same_bytes (copy_to 32 sent) registered

-- What follows the look-up of the user.
unfoldable pub open_token : Crypto → ServerX25519 → Token → Option Bytes
open_token C s t = do
  shared_eph ← C.x25519 s.private_key t.eph_pub
  shared_user ← C.x25519 s.private_key t.user_pub
  auth_key ← derive_key C (combine shared_eph shared_user) t.short_id t.timestamp info_v2
  plaintext ← C.unseal auth_key t.nonce t.ciphertext
  check (length plaintext == 16)
  some plaintext

unfoldable pub check_token : Crypto → ServerX25519 → ℕ → Token → Option Bytes
check_token C s now t = do
  user ← find_user (hex t.short_id) s.users
  check (key_matches user.public_key t.user_pub)
  check (not (ltb_ℤ s.max_time_diff (to_int64 (time_diff now (get_be64 t.timestamp)))))
  open_token C s t

unfoldable pub validate : Crypto → ServerX25519 → ℕ → HttpRequest → Option Bytes
validate C s now r = do
  let text = extract_token r s.token_header
  check (not (is_empty text))
  bytes ← C.decode64 text
  t ← parse_token bytes
  check_token C s now t
