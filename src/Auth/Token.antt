-- ===== src/Auth/Token.antt =====
-- internal/crypto/auth/x25519.go, the client: `GenerateToken`. What `rand.Read` gives, and the time
-- in seconds, are arguments.
use nightveil.Prelude.{Bytes, Option, Result, none, some, ℕ, ◌>>=◌, err, ok}
use nightveil.Auth.Crypto.{Crypto, combine, derive_key, info_v2, put_be64, token_bytes}

pub record ClientX25519 : Type 0 where
  pub server_public_key : Bytes
  pub user_private_key : Bytes
  pub user_public_key : Bytes
  pub short_id : Bytes

pub data TokenError : Type 0 where
  no_ephemeral_public no_shared_ephemeral no_shared_user no_key : TokenError

-- `v, err := …; if err != nil { return nil, … }`
abbrev pub or_error {ℓ} : {A : Type ℓ} → TokenError → Option A → Result TokenError A
or_error e none = err e
or_error e (some a) = ok a

unfoldable pub generate_token :
    Crypto → ClientX25519 → Bytes → Bytes → ℕ → Bytes → Result TokenError Bytes
generate_token C c eph_priv nonce now session_id = do
  eph_pub ← or_error no_ephemeral_public (C.x25519 eph_priv C.basepoint)
  shared_eph ← or_error no_shared_ephemeral (C.x25519 eph_priv c.server_public_key)
  shared_user ← or_error no_shared_user (C.x25519 c.user_private_key c.server_public_key)
  let ts = put_be64 now
  auth_key ← or_error no_key (derive_key C (combine shared_eph shared_user) c.short_id ts info_v2)
  ok (
      token_bytes (record {
        eph_pub = eph_pub;
        user_pub = c.user_public_key;
        short_id = c.short_id;
        timestamp = ts;
        nonce = nonce;
        ciphertext = C.seal auth_key nonce session_id;
      }))
