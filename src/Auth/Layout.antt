-- ===== src/Auth/Layout.antt =====
-- A token's bytes are parsed into its parts.
use nightveil.Prelude.{
  Bytes, ap, append_assoc, arith, byte, drop, drop-append_of, drop-append_self, drop-drop, get_or,
  get_or-append_of, length, length-append, refl, some, sym, take, take-append_of, take-append_self,
  ℕ, ◌++◌, ◌+◌, ◌∙◌, ◌∷◌, ◌≡◌, ◌≤◌,
}
use nightveil.Auth.Crypto.{Token, token_bytes}
use nightveil.Auth.Validate.{split_token, parse_token}

-- The sizes of a token's parts.
pub record IsSized (t : Token) : Type 0 where
  pub eph : length t.eph_pub ≡ 32
  pub user : length t.user_pub ≡ 32
  pub short : length t.short_id ≤ 8
  pub time : length t.timestamp ≡ 8
  pub once : length t.nonce ≡ 12
  pub sealed : 32 ≤ length t.ciphertext

module _ (t : Token) (v : IsSized t) where
  open v use {eph, user, short, time, once, sealed}

  abbrev n : ℕ
  n = length t.short_id

  -- The token behind the length of the short identifier, and before it.
  abbrev body : Bytes
  body = t.short_id ++ (t.timestamp ++ (t.nonce ++ t.ciphertext))

  abbrev keys : Bytes
  keys = t.eph_pub ++ t.user_pub

  regroup : token_bytes t ≡ keys ++ byte n ∷ body
  unfolding token_bytes
  regroup = sym (append_assoc t.eph_pub t.user_pub (byte n ∷ body))

  length-keys : length keys ≡ 64
  length-keys = omega (arith, length-append t.eph_pub t.user_pub)

  length-body : length body ≡ n + 20 + length t.ciphertext
  length-body = omega (
    arith,
    length-append t.short_id (t.timestamp ++ (t.nonce ++ t.ciphertext)),
    length-append t.timestamp (t.nonce ++ t.ciphertext),
    length-append t.nonce t.ciphertext,
  )

  length-token_bytes : length (token_bytes t) ≡ 85 + n + length t.ciphertext
  length-token_bytes =
      rw regroup (omega (arith, length-append keys (byte n ∷ body), length-keys, length-body))

  short_size : get_or (token_bytes t) 64 0 ≡ n
  short_size = rw regroup (get_or-append_of 64 keys (byte n) body 0 length-keys ∙ omega arith)

  drop_keys : drop 65 (token_bytes t) ≡ body
  drop_keys = rw regroup (
      sym (drop-drop 64 1 65 (keys ++ byte n ∷ body) refl)
      ∙ ap (drop 1) (drop-append_of 64 keys (byte n ∷ body) length-keys))

  first_key : take 32 (token_bytes t) ≡ t.eph_pub
  unfolding token_bytes
  first_key = take-append_of 32 t.eph_pub (t.user_pub ++ byte n ∷ body) eph

  second_key : take 32 (drop 32 (token_bytes t)) ≡ t.user_pub
  unfolding token_bytes
  second_key =
      ap (take 32) (drop-append_of 32 t.eph_pub (t.user_pub ++ byte n ∷ body) eph)
      ∙ take-append_of 32 t.user_pub (byte n ∷ body) user

  split_token-token_bytes : split_token n (token_bytes t) ≡ t
  unfolding split_token
  split_token-token_bytes =
      let rest = t.timestamp ++ (t.nonce ++ t.ciphertext) in
      let c = take-append_self t.short_id rest in
      let c' = drop-append_self t.short_id rest in
      let d = take-append_of 8 t.timestamp (t.nonce ++ t.ciphertext) time in
      let d' = drop-append_of 8 t.timestamp (t.nonce ++ t.ciphertext) time in
      let e = take-append_of 12 t.nonce t.ciphertext once in
      let e' = drop-append_of 12 t.nonce t.ciphertext once in
      rw (first_key, second_key, drop_keys, c, c', d, d', e, e') refl

  pub parse_token-token_bytes : parse_token (token_bytes t) ≡ some t
  unfolding parse_token
  parse_token-token_bytes =
      rw (short_size, split_token-token_bytes) (ground (arith, length-token_bytes))
