-- ===== src/Auth/Accepted.antt =====
-- What a request that is accepted must have shown.
use nightveil.Prelude.{
  Bytes, [], ap, ap₂, arith, false, length, ltb_ℤ, pos, refl, some, sym, true, ℕ, ◌+◌, ◌-◌, ◌<◌,
  ◌==◌, ◌^◌, ◌∙◌, ◌∷◌, ◌≡◌, ◌≤◌, ◌⊎◌, All, All-drop, All-take, Bool, Bool-cases, drop, get_or, inl,
  inr, ltb, not, replicate, take, ◌||◌, ℤ,
}
use nightveil.Prelude.Steps.{>>=-eq-some, >>-eq-some}
use nightveil.Auth.Crypto.{
  get_be64-lt, Crypto, Token, derive_key, combine, info_v2, copy_to, get_be64,
}
use nightveil.Auth.Validate.{
  ServerX25519, same_bytes, to_int64, time_diff, open_token, HttpRequest, key_matches, parse_token,
  validate, UserEntry, split_token, check_token, extract_token, is_empty, find_user, hex,
}

eq_of_same_bytes : (xs ys : Bytes) → same_bytes xs ys ≡ true → xs ≡ ys
eq_of_same_bytes [] [] h = refl
eq_of_same_bytes [] (y ∷ ys) h = cc
eq_of_same_bytes (x ∷ xs) [] h = cc
eq_of_same_bytes (x ∷ xs) (y ∷ ys) h =
    let ih = eq_of_same_bytes xs ys in
    let e : x ≡ y = ground arith in
    let t : same_bytes xs ys ≡ true = ground arith in ap₂ (λ a s. a ∷ s) e (ih t)

-- The key that a token was sealed with, and that it opens to the session.
pub record IsOpened (C : Crypto) (s : ServerX25519) (t : Token) (id : Bytes) : Type 0 where
  pub shared_eph : Bytes
  pub shared_user : Bytes
  pub auth_key : Bytes
  pub with_eph : C.x25519 s.private_key t.eph_pub ≡ some shared_eph
  pub with_user : C.x25519 s.private_key t.user_pub ≡ some shared_user
  pub derived :
      derive_key C (combine shared_eph shared_user) t.short_id t.timestamp info_v2 ≡ some auth_key
  pub opened : C.unseal auth_key t.nonce t.ciphertext ≡ some id
  pub size : length id ≡ 16

open_token-IsOpened :
    (C : Crypto) (s : ServerX25519) (t : Token) {id : Bytes}
    → open_token C s t ≡ some id
    → IsOpened C s t id
unfolding open_token
open_token-IsOpened C s t {id} h =
    let (eph, p, h₁) = >>=-eq-some (C.x25519 s.private_key t.eph_pub) _ h in
    let (user, q, h₂) = >>=-eq-some (C.x25519 s.private_key t.user_pub) _ h₁ in
    let (key, d, h₃) =
      >>=-eq-some (derive_key C (combine eph user) t.short_id t.timestamp info_v2) _ h₂ in
    let (text, o, h₄) = >>=-eq-some (C.unseal key t.nonce t.ciphertext) _ h₃ in
    let (long, e) = >>-eq-some (length text == 16) (some text) h₄ in
    let same : text ≡ id = cc e in
    record {
      shared_eph = eph;
      shared_user = user;
      auth_key = key;
      with_eph = p;
      with_user = q;
      derived = d;
      opened = o ∙ ap some same;
      size = sym (ap length same) ∙ ground arith;
    }

-- A time stamp, as the number with its 64 bits, that is in the window; or that is 2^63 seconds off,
-- where the difference wraps round to a negative number.
abbrev pub IsNear : ℕ → ℕ → ℕ → Type 0
IsNear most now stamp = ((now - stamp) + (stamp - now) ≤ most) ⊎ (stamp ≡ now + 2 ^ 63)

time_diff-IsNear :
    (limit : ℤ) (most now stamp : ℕ)
    → limit ≡ pos most
    → now < 2 ^ 62
    → most ≤ now
    → stamp < 2 ^ 64
    → ltb_ℤ limit (to_int64 (time_diff now stamp)) ≡ false
    → IsNear most now stamp
unfolding time_diff
time_diff-IsNear limit most now stamp m h k l e =
    let e' : ltb_ℤ (pos most) (to_int64 (time_diff now stamp)) ≡ false = rw m at e in ground arith

-- What `Validate` has seen of a request that it accepts as the session `id`.
pub record IsAccepted (C : Crypto) (s : ServerX25519) (most now : ℕ) (r : HttpRequest) (id : Bytes)
    : Type 0 where
  pub bytes : Bytes
  pub token : Token
  pub user : UserEntry
  pub carried : C.decode64 (extract_token r s.token_header) ≡ some bytes
  pub parsed : parse_token bytes ≡ some token
  pub found : find_user (hex token.short_id) s.users ≡ some user
  pub key : (user.public_key ≡ replicate 32 0) ⊎ (copy_to 32 token.user_pub ≡ user.public_key)
  pub near : IsNear most now (get_be64 token.timestamp)
  pub opened : IsOpened C s token id

key_matches-cases :
    (registered sent : Bytes)
    → key_matches registered sent ≡ true
    → (registered ≡ replicate 32 0) ⊎ (copy_to 32 sent ≡ registered)
key_matches-cases registered sent h = elim (Bool-cases (same_bytes registered (replicate 32 0))) [
  | inl zeros ↦ inl (eq_of_same_bytes registered (replicate 32 0) zeros)
  | inr other ↦
      let same : same_bytes (copy_to 32 sent) registered ≡ true = rw other at h in
      inr (eq_of_same_bytes (copy_to 32 sent) registered same)
]

not-eq-true : (b : Bool) → not b ≡ true → b ≡ false
not-eq-true true h = cc
not-eq-true false h = refl

timestamp-lt :
    (s : Bytes) {t : Token}
    → All (λ b. b < 256) s
    → parse_token s ≡ some t
    → get_be64 t.timestamp < 2 ^ 64
unfolding parse_token split_token
timestamp-lt s {t} a h =
    let n = get_or s 64 0 in
    let (_, h₁) = >>-eq-some (not (ltb (length s) 101)) _ h in
    let (_, h₂) = >>-eq-some (not (ltb 8 n || ltb (length s) (65 + n + 8 + 12 + 32))) _ h₁ in
    let same : split_token n s ≡ t = cc h₂ in
    let bound = get_be64-lt (take 8 (drop n (drop 65 s))) (
      All-take (λ b. b < 256) 8 (drop n (drop 65 s))
        (All-drop (λ b. b < 256) n (drop 65 s) (All-drop (λ b. b < 256) 65 s a))) in
    let e : take 8 (drop n (drop 65 s)) ≡ t.timestamp = ap (λ x. x.timestamp) same in rw e at bound

-- A request is accepted as a session only with a token that names a registered user, carries this
-- user's public key (any, if the registered key is all zeros), bears a time in the window, and opens
-- to the session under the key derived from the server's private key, the two public keys, the
-- short identifier and the time that it carries. For a window that is shorter than the time since
-- 1970, and a base64 decoder that gives bytes. The one time stamp outside the window that passes is 2^63 seconds ahead.
pub validate-IsAccepted :
    (C : Crypto) (s : ServerX25519) (most now : ℕ) (r : HttpRequest) {id : Bytes}
    → ((m : Bytes) (b : Bytes) → C.decode64 m ≡ some b → All (λ x. x < 256) b)
    → s.max_time_diff ≡ pos most
    → most ≤ now
    → now < 2 ^ 62
    → validate C s now r ≡ some id
    → IsAccepted C s most now r id
unfolding validate check_token
validate-IsAccepted C s most now r decoded m short late h =
    let (_, h₁) = >>-eq-some (not (is_empty (extract_token r s.token_header))) _ h in
    let (bytes, d, h₂) = >>=-eq-some (C.decode64 (extract_token r s.token_header)) _ h₁ in
    let (t, p, h₃) = >>=-eq-some (parse_token bytes) _ h₂ in
    let (user, f, h₄) = >>=-eq-some (find_user (hex t.short_id) s.users) _ h₃ in
    let (k, h₅) = >>-eq-some (key_matches user.public_key t.user_pub) _ h₄ in
    let stamp = get_be64 t.timestamp in
    let (w, h₆) = >>-eq-some (not (ltb_ℤ s.max_time_diff (to_int64 (time_diff now stamp)))) _ h₅ in
    let near = not-eq-true _ w in
    record {
      bytes = bytes;
      token = t;
      user = user;
      carried = d;
      parsed = p;
      found = f;
      key = key_matches-cases user.public_key t.user_pub k;
      near =
          time_diff-IsNear s.max_time_diff most now stamp m late short
            (timestamp-lt bytes (decoded (extract_token r s.token_header) bytes d) p) near;
      opened = open_token-IsOpened C s t h₆;
    }
