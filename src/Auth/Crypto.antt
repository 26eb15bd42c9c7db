-- ===== src/Auth/Crypto.antt =====
-- internal/crypto/auth/x25519.go: what it uses of X25519, HKDF, ChaCha20-Poly1305 and base64, the
-- derivation of a key, and the layout of a token. A key is the list of its bytes.
use nightveil.Prelude.{
  Bytes, Option, [], arith, byte, codes, length, replicate, some, take, ℕ, ◌%◌, ◌*◌, ◌++◌, ◌+◌, ◌/◌,
  ◌<◌, ◌^◌, ◌∷◌, ◌≡◌, All, get_or, suc, zero,
}

-- `curve25519.X25519(scalar, point)`, `none` for its error; 32 bytes of
-- `hkdf.New(sha256.New, secret, salt, info)`; `Seal` and `Open` of an AEAD with a key and a nonce;
-- `base64.RawURLEncoding`.
pub record Crypto : Type 0 where
  pub x25519 : Bytes → Bytes → Option Bytes
  pub basepoint : Bytes
  pub hkdf : Bytes → Bytes → Bytes → Option Bytes
  pub seal : Bytes → Bytes → Bytes → Bytes
  pub unseal : Bytes → Bytes → Bytes → Option Bytes
  pub encode64 : Bytes → Bytes
  pub decode64 : Bytes → Option Bytes

-- What is documented of them: sizes, Diffie and Hellman's equation, and that what is sealed or
-- encoded is opened or decoded.
pub record Laws (C : Crypto) : Type 0 where
  pub point_size : (k p : Bytes) {q : Bytes} → C.x25519 k p ≡ some q → length q ≡ 32
  pub agree :
      (a b : Bytes) {A B : Bytes}
      → C.x25519 a C.basepoint ≡ some A
      → C.x25519 b C.basepoint ≡ some B
      → C.x25519 a B ≡ C.x25519 b A
  pub seal_size : (k n m : Bytes) → length (C.seal k n m) ≡ length m + 16
  pub unseal-seal : (k n m : Bytes) → C.unseal k n (C.seal k n m) ≡ some m
  pub decode64-encode64 : (m : Bytes) → C.decode64 (C.encode64 m) ≡ some m
  pub encode64-nonempty : (m : Bytes) → 0 < length m → 0 < length (C.encode64 m)

-- `copy` to an array of `n` zeros.
abbrev pub copy_to : ℕ → Bytes → Bytes
copy_to n s = take n (s ++ replicate n 0)

-- The two shared secrets in 64 bytes.
abbrev pub combine : Bytes → Bytes → Bytes
combine eph user = copy_to 32 eph ++ copy_to 32 user

-- The salt is the short identifier and the time.
unfoldable pub derive_key : Crypto → Bytes → Bytes → Bytes → Bytes → Option Bytes
derive_key C shared short_id timestamp info = C.hkdf shared (short_id ++ timestamp) info

abbrev pub info_v2 : Bytes
info_v2 = codes "nv-auth-v2"

-- `binary.BigEndian.PutUint64`, of a number below 2^64.
unfoldable pub put_be64 : ℕ → Bytes
put_be64 v =
    (v / 2 ^ 56 % 256)
    ∷ (v / 2 ^ 48 % 256)
    ∷ (v / 2 ^ 40 % 256)
    ∷ (v / 2 ^ 32 % 256)
    ∷ (v / 2 ^ 24 % 256)
    ∷ (v / 2 ^ 16 % 256)
    ∷ (v / 2 ^ 8 % 256)
    ∷ (v % 256)
    ∷ []

-- `binary.BigEndian.Uint64` of eight bytes.
unfoldable pub get_be64 : Bytes → ℕ
get_be64 s =
    get_or s 0 0 * 2 ^ 56
    + get_or s 1 0 * 2 ^ 48
    + get_or s 2 0 * 2 ^ 40
    + get_or s 3 0 * 2 ^ 32
    + get_or s 4 0 * 2 ^ 24
    + get_or s 5 0 * 2 ^ 16
    + get_or s 6 0 * 2 ^ 8
    + get_or s 7 0

pub get_be64-lt : (s : Bytes) → All (λ b. b < 256) s → get_be64 s < 2 ^ 64
unfolding get_be64
get_be64-lt s a = omega (
  arith,
  get_or-All s 0 a,
  get_or-All s 1 a,
  get_or-All s 2 a,
  get_or-All s 3 a,
  get_or-All s 4 a,
  get_or-All s 5 a,
  get_or-All s 6 a,
  get_or-All s 7 a,
)
  where
    get_or-All : (s : Bytes) (i : ℕ) → All (λ b. b < 256) s → get_or s i 0 < 256
    get_or-All [] i a = omega arith
    get_or-All (x ∷ s) zero a = a.0
    get_or-All (x ∷ s) (suc i) a = get_or-All s i a.1

pub get_be64-put_be64 : (v : ℕ) → v < 2 ^ 64 → get_be64 (put_be64 v) ≡ v
unfolding get_be64 put_be64
get_be64-put_be64 v h = omega arith

-- The parts of a token, in their order.
pub record Token : Type 0 where
  pub eph_pub : Bytes
  pub user_pub : Bytes
  pub short_id : Bytes
  pub timestamp : Bytes
  pub nonce : Bytes
  pub ciphertext : Bytes

unfoldable pub token_bytes : Token → Bytes
token_bytes t =
    t.eph_pub
    ++ (t.user_pub
        ++ byte (length t.short_id) ∷ (t.short_id ++ (t.timestamp ++ (t.nonce ++ t.ciphertext))))
