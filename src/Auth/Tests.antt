-- ===== src/Auth/Tests.antt =====
-- Tokens under a toy cryptography: a key is known by its first byte, a point is a sum, sealing
-- appends sixteen zeros, and base64 puts a byte in front.
use nightveil.Auth.RoundTrip.{validate-generate_token, AreKnown, validate-generate_token}
use nightveil.Auth.Accepted.{IsAccepted, validate-IsAccepted}
use nightveil.Auth.Validate.{
  ServerX25519, HttpRequest, find_user, validate, hex, extract_token, parse_token, check_token,
  split_token, time_diff, open_token,
}
use nightveil.Auth.Token.{ClientX25519, generate_token}
use nightveil.Prelude.{
  Bytes, Option, [], ap, arith, get_or, length, length-append, none, refl, replicate, some, sym,
  take, take-append_of, ◌++◌, ◌+◌, ◌-◌, ◌∙◌, ◌∷◌, ◌≡◌, All, Bool, Bool-cases, Result, codes,
  if◌then◌else◌, inl, inr, ltb, pos, true, ◌&&◌, ◌<◌, ok, err,
}
use nightveil.Auth.Crypto.{Crypto, Laws, derive_key, put_be64, token_bytes, get_be64}

abbrev toy_point : Bytes → Bytes → Option Bytes
toy_point k p = some (replicate 32 (get_or k 0 0 + get_or p 0 0))

abbrev toy_decode : Bytes → Option Bytes
toy_decode [] = none
toy_decode (c ∷ s) = some s

abbrev toy : Crypto
toy = record {
  x25519 = toy_point;
  basepoint = replicate 32 0;
  hkdf = λ secret salt info. some (take 32 secret);
  seal = λ k n m. m ++ replicate 16 0;
  unseal = λ k n c. some (take (length c - 16) c);
  encode64 = λ m. 65 ∷ m;
  decode64 = toy_decode;
}

toy_point-agree :
    (a b : Bytes) {A B : Bytes}
    → toy_point a (replicate 32 0) ≡ some A
    → toy_point b (replicate 32 0) ≡ some B
    → toy_point a B ≡ toy_point b A
toy_point-agree a b {A} {B} p q =
    let p' : replicate 32 (get_or a 0 0 + 0) ≡ A = cc p in
    let q' : replicate 32 (get_or b 0 0 + 0) ≡ B = cc q in
    let e : get_or a 0 0 + (get_or b 0 0 + 0) ≡ get_or b 0 0 + (get_or a 0 0 + 0) = omega arith in
    ap (toy_point a) (sym q') ∙ ap (λ x. some (replicate 32 x)) e ∙ ap (toy_point b) p'

toy_point-size : (k p : Bytes) {q : Bytes} → toy_point k p ≡ some q → length q ≡ 32
toy_point-size k p h =
    let e : replicate 32 (get_or k 0 0 + get_or p 0 0) ≡ _ = cc h in sym (ap length e)

unseal-seal_toy : (m : Bytes) → take (length (m ++ replicate 16 0) - 16) (m ++ replicate 16 0) ≡ m
unseal-seal_toy m =
    take-append_of _ m (replicate 16 0) (omega (arith, length-append m (replicate 16 0)))

toy-Laws : Laws toy
toy-Laws = record {
  point_size = toy_point-size;
  agree = toy_point-agree;
  seal_size = λ k n m. length-append m (replicate 16 0);
  unseal-seal = λ k n m. ap some (unseal-seal_toy m);
  decode64-encode64 = λ m. refl;
  encode64-nonempty = λ m h. omega arith;
}

abbrev client : ClientX25519
client = record {
  server_public_key = replicate 32 5;
  user_private_key = 7 ∷ [];
  user_public_key = replicate 32 7;
  short_id = 1 ∷ [];
}

abbrev server : ServerX25519
server = record {
  private_key = 5 ∷ [];
  users = (codes "01", record { public_key = replicate 32 7; name = codes "me" }) ∷ [];
  max_time_diff = pos 30;
  token_header = [];
}

abbrev id : Bytes
id = replicate 16 9

abbrev nonce : Bytes
nonce = replicate 12 4

abbrev from_ok : {E : Type 0} → Result E Bytes → Bytes
from_ok (ok b) = b
from_ok (err e) = []

token : Bytes
token = from_ok (generate_token toy client (3 ∷ []) nonce 1000 id)

abbrev request : HttpRequest
request = record { cookie = λ name. some (65 ∷ token); header = λ name. [] }

client-AreKnown : AreKnown toy client server
unfolding find_user hex
client-AreKnown = record {
  server_key = refl;
  user_key = refl;
  short = omega arith;
  entry = record { public_key = replicate 32 7; name = codes "me" };
  found = refl;
  registered = refl;
}

validate-generate_token_example : validate toy server 1010 request ≡ some id
unfolding token generate_token derive_key put_be64 token_bytes extract_token
validate-generate_token_example =
    validate-generate_token toy toy-Laws client server client-AreKnown request (3 ∷ []) nonce 1000
      1010 id {bytes = token} {most = 30} refl refl refl refl (omega arith) (omega arith) refl
      (omega arith)

-- A decoder that refuses what are no bytes.
abbrev all_bytes : Bytes → Bool
all_bytes [] = true
all_bytes (b ∷ s) = ltb b 256 && all_bytes s

abbrev strict_decode : Bytes → Option Bytes
strict_decode [] = none
strict_decode (c ∷ s) = if all_bytes s then some s else none

all_bytes-All : (s : Bytes) → all_bytes s ≡ true → All (λ x. x < 256) s
all_bytes-All [] h = tt
all_bytes-All (b ∷ s) h =
    let t : all_bytes s ≡ true = ground arith in (ground arith, all_bytes-All s t)

strict_decode-All : (m b : Bytes) → strict_decode m ≡ some b → All (λ x. x < 256) b
strict_decode-All [] b h = cc
strict_decode-All (c ∷ s) b h = elim (Bool-cases (all_bytes s)) [
  | inl e ↦
      let h' : some s ≡ some b = rw e at h in
      let same : s ≡ b = cc h' in rw same at (all_bytes-All s e)
  | inr e ↦ let h' : none ≡ some b = rw e at h in cc h'
]

abbrev strict : Crypto
strict = record toy { decode64 = strict_decode }

validate_accepts : validate strict server 1010 request ≡ some id
unfolding validate token generate_token derive_key put_be64 token_bytes extract_token parse_token
    check_token find_user hex split_token time_diff get_be64 open_token
validate_accepts = refl

validate-IsAccepted_example : IsAccepted strict server 30 1010 request id
validate-IsAccepted_example =
    validate-IsAccepted strict server 30 1010 request strict_decode-All refl (omega arith)
      (omega arith) validate_accepts
