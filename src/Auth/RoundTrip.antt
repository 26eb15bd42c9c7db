-- ===== src/Auth/RoundTrip.antt =====
-- A token that a client generates is accepted by its server.
use nightveil.Prelude.{
  Bytes, length, some, ◌+◌, ◌-◌, ◌≡◌, ◌≤◌, arith, refl, sym, take-append_of, ℕ, ◌∙◌, ◌∷◌, [], pos,
  true, ◌<◌, ◌^◌, Option, Result, none, replicate, ok, ◌>>=◌, false, ltb,
}
use nightveil.Auth.Crypto.{
  Crypto, Laws, Token, combine, derive_key, info_v2, put_be64, token_bytes, copy_to,
  get_be64-put_be64,
}
use nightveil.Auth.Token.{
  ClientX25519, TokenError, generate_token, or_error, no_ephemeral_public, no_shared_ephemeral,
  no_shared_user, no_key,
}
use nightveil.Auth.Layout.{IsSized, parse_token-token_bytes}
use nightveil.Auth.Validate.{
  UserEntry, ServerX25519, hex, same_bytes, find_user, to_int64, time_diff, parse_token,
  key_matches, open_token, check_token, validate, HttpRequest, extract_token, is_empty,
}

time_diff-to_int64 :
    (now then_ : ℕ)
    → now < 2 ^ 63
    → then_ < 2 ^ 63
    → to_int64 (time_diff now then_) ≡ pos ((now - then_) + (then_ - now))
unfolding time_diff
time_diff-to_int64 now then_ h k = ground arith

same_bytes_self : (s : Bytes) → same_bytes s s ≡ true
same_bytes_self [] = refl
same_bytes_self (x ∷ s) = let ih = same_bytes_self s in ground arith

or_error-eq-ok {ℓ κ} :
    {A : Type ℓ} {B : Type κ} (e : TokenError) (m : Option A) (f : A → Result TokenError B) {b : B}
    → (or_error e m >>= f) ≡ ok b
    → (a : A) × (m ≡ some a) × (f a ≡ ok b)
or_error-eq-ok e none f h = cc
or_error-eq-ok e (some a) f h = (a, refl, h)

-- What `GenerateToken` went through to return a token.
record IsGenerated (C : Crypto) (c : ClientX25519) (eph_priv nonce : Bytes) (now : ℕ)
    (id bytes : Bytes) : Type 0 where
  eph_pub : Bytes
  shared_eph : Bytes
  shared_user : Bytes
  auth_key : Bytes
  public : C.x25519 eph_priv C.basepoint ≡ some eph_pub
  with_eph : C.x25519 eph_priv c.server_public_key ≡ some shared_eph
  with_user : C.x25519 c.user_private_key c.server_public_key ≡ some shared_user
  derived :
      derive_key C (combine shared_eph shared_user) c.short_id (put_be64 now) info_v2
      ≡ some auth_key
  layout :
      bytes
      ≡ token_bytes (record {
        eph_pub = eph_pub;
        user_pub = c.user_public_key;
        short_id = c.short_id;
        timestamp = put_be64 now;
        nonce = nonce;
        ciphertext = C.seal auth_key nonce id;
      })

generate_token-IsGenerated :
    (C : Crypto) (c : ClientX25519) (eph_priv nonce : Bytes) (now : ℕ) (id : Bytes) {bytes : Bytes}
    → generate_token C c eph_priv nonce now id ≡ ok bytes
    → IsGenerated C c eph_priv nonce now id bytes
unfolding generate_token
generate_token-IsGenerated C c eph_priv nonce now id h =
    let (eph_pub, p, h₁) = or_error-eq-ok no_ephemeral_public (C.x25519 eph_priv C.basepoint) _ h in
    let (eph, q, h₂) =
      or_error-eq-ok no_shared_ephemeral (C.x25519 eph_priv c.server_public_key) _ h₁ in
    let (user, r, h₃) =
      or_error-eq-ok no_shared_user (C.x25519 c.user_private_key c.server_public_key) _ h₂ in
    let (key, s, h₄) =
      or_error-eq-ok no_key (derive_key C (combine eph user) c.short_id (put_be64 now) info_v2) _
        h₃ in
    record {
      eph_pub = eph_pub;
      shared_eph = eph;
      shared_user = user;
      auth_key = key;
      public = p;
      with_eph = q;
      with_user = r;
      derived = s;
      layout = cc h₄;
    }

is_empty-pos : (s : Bytes) → 0 < length s → is_empty s ≡ false
is_empty-pos [] h = elim h [ ]
is_empty-pos (x ∷ s) h = refl

parse_token-pos : (s : Bytes) {t : Token} → parse_token s ≡ some t → 0 < length s
unfolding parse_token
parse_token-pos [] h = cc
parse_token-pos (x ∷ s) h = omega arith

-- A client and a server that know each other: the public keys belong to the private ones, and the
-- server has the client's key under its short identifier.
pub record AreKnown (C : Crypto) (c : ClientX25519) (s : ServerX25519) : Type 0 where
  pub server_key : C.x25519 s.private_key C.basepoint ≡ some c.server_public_key
  pub user_key : C.x25519 c.user_private_key C.basepoint ≡ some c.user_public_key
  pub short : length c.short_id ≤ 8
  pub entry : UserEntry
  pub found : find_user (hex c.short_id) s.users ≡ some entry
  pub registered : entry.public_key ≡ c.user_public_key

copy_to-full : (s : Bytes) → length s ≡ 32 → copy_to 32 s ≡ s
copy_to-full s e = take-append_of 32 s (replicate 32 0) e

module _ (C : Crypto) (laws : Laws C) (c : ClientX25519) (s : ServerX25519)
    (known : AreKnown C c s) where
  open known use {server_key, user_key, short, entry, found, registered}

  key_matches_known : key_matches entry.public_key c.user_public_key ≡ true
  key_matches_known =
      let full =
        copy_to-full c.user_public_key (laws.point_size c.user_private_key C.basepoint user_key) in
      rw (registered, full, same_bytes_self c.user_public_key) (ground arith)

  open_token-IsGenerated :
      (eph_priv nonce : Bytes) (now : ℕ) (id bytes : Bytes)
      (g : IsGenerated C c eph_priv nonce now id bytes)
      → length id ≡ 16
      → open_token C s (record {
        eph_pub = g.eph_pub;
        user_pub = c.user_public_key;
        short_id = c.short_id;
        timestamp = put_be64 now;
        nonce = nonce;
        ciphertext = C.seal g.auth_key nonce id;
      })
        ≡ some id
  unfolding open_token
  open_token-IsGenerated eph_priv nonce now id bytes g size =
      let eph = sym (laws.agree eph_priv s.private_key g.public server_key) ∙ g.with_eph in
      let user =
        sym (laws.agree c.user_private_key s.private_key user_key server_key) ∙ g.with_user in
      rw (eph, user, g.derived, laws.unseal-seal g.auth_key nonce id, size) refl

  check_token-IsGenerated :
      (eph_priv nonce : Bytes) (now later : ℕ) (id bytes : Bytes) {most : ℕ}
      → IsGenerated C c eph_priv nonce now id bytes
      → length id ≡ 16
      → length nonce ≡ 12
      → now < 2 ^ 63
      → later < 2 ^ 63
      → s.max_time_diff ≡ pos most
      → (later - now) + (now - later) ≤ most
      → (t : Token) × (parse_token bytes ≡ some t) × (check_token C s later t ≡ some id)
  unfolding check_token
  check_token-IsGenerated eph_priv nonce now later id bytes {most} g size once p q m near =
      let t : Token = record {
        eph_pub = g.eph_pub;
        user_pub = c.user_public_key;
        short_id = c.short_id;
        timestamp = put_be64 now;
        nonce = nonce;
        ciphertext = C.seal g.auth_key nonce id;
      } in
      let sized : IsSized t = record {
        eph = laws.point_size eph_priv C.basepoint g.public;
        user = laws.point_size c.user_private_key C.basepoint user_key;
        short = short;
        time = unfold put_be64 in refl;
        once = once;
        sealed = omega (arith, laws.seal_size g.auth_key nonce id);
      } in
      let stamp = get_be64-put_be64 now (omega arith) in
      let diff = time_diff-to_int64 later now q p in
      let close : ltb most ((later - now) + (now - later)) ≡ false = ground arith in
      (
        t,
        rw g.layout (parse_token-token_bytes t sized),
        rw (found, key_matches_known, stamp, diff, m)
            (ground (arith, open_token-IsGenerated eph_priv nonce now id bytes g size)),
      )

  -- A request with a token that a client generated is accepted, and as the session that the client
  -- meant, by a server that it is known to, while the server's clock is no further from the client's
  -- than the server allows; under the documented laws of the cryptography and of base64.
  pub validate-generate_token :
      (r : HttpRequest) (eph_priv nonce : Bytes) (now later : ℕ) (id : Bytes) {bytes : Bytes}
      {most : ℕ}
      → generate_token C c eph_priv nonce now id ≡ ok bytes
      → extract_token r s.token_header ≡ C.encode64 bytes
      → length id ≡ 16
      → length nonce ≡ 12
      → now < 2 ^ 63
      → later < 2 ^ 63
      → s.max_time_diff ≡ pos most
      → (later - now) + (now - later) ≤ most
      → validate C s later r ≡ some id
  unfolding validate
  validate-generate_token r eph_priv nonce now later id {bytes} h carried size once p q m near =
      let g = generate_token-IsGenerated C c eph_priv nonce now id h in
      let (t, parsed, accepted) =
        check_token-IsGenerated eph_priv nonce now later id bytes g size once p q m near in
      let text =
        is_empty-pos (C.encode64 bytes)
          (laws.encode64-nonempty bytes (parse_token-pos bytes parsed)) in
      rw (carried, text, laws.decode64-encode64 bytes, parsed) accepted
