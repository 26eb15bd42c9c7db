-- ===== src/Transport/Quic/Obfuscate/RoundTrip.antt =====
-- internal/transport/quictun/obfuscate.go: a packet is read back as it was written.
use nightveil.Transport.Quic.Obfuscate.{
  xor_from, read_from, write_to, derive_packet_key, xor_bytes, salt_size,
}
use Prim.Native.Nat.{bit_xor}
use nightveil.Prelude.{
  Bool, arith, refl, suc, true, zero, ℕ, ◌&&◌, ◌<◌, ◌==◌, ==_iff, ◌≡◌, All, Bytes, [], ap, ap₂,
  drop-append_of, get_or, length, length-append, take, take-append_of, ◌%◌, ◌++◌, ◌+◌, ◌∙◌, ◌∷◌,
}

-- A table over a small range is checked by evaluation.
all_below : ℕ → (ℕ → Bool) → Bool
all_below zero p = true
all_below (suc n) p = p n && all_below n p

all_below_lem : (n : ℕ) (p : ℕ → Bool) (x : ℕ) → all_below n p ≡ true → x < n → p x ≡ true
unfolding all_below
all_below_lem zero p x h lt = absurd (omega arith)
all_below_lem (suc n) p x h lt = ground (arith, all_below_lem n p x)

twice_table : all_below 256 (λ k. all_below 256 (λ x. bit_xor (bit_xor x k) k == x)) ≡ true
unfolding all_below
twice_table = refl

bit_xor_twice : (x k : ℕ) → x < 256 → k < 256 → bit_xor (bit_xor x k) k ≡ x
bit_xor_twice x k h l =
    let row =
      all_below_lem 256 (λ j. all_below 256 (λ y. bit_xor (bit_xor y j) j == y)) k twice_table l in
    (==_iff _ x).0 (all_below_lem 256 (λ y. bit_xor (bit_xor y k) k == y) x row h)

get_or-byte : (key : Bytes) (i : ℕ) → All (λ b. b < 256) key → get_or key i 0 < 256
get_or-byte [] i h = omega arith
get_or-byte (k ∷ key) zero (h, hs) = h
get_or-byte (k ∷ key) (suc i) (h, hs) = get_or-byte key i hs

-- Under the same key and from the same index, what is left of a packet gives back as much of it.
xor_from-xor_from :
    (i n : ℕ) (key p : Bytes)
    → All (λ b. b < 256) key
    → All (λ b. b < 256) p
    → xor_from i key (take n (xor_from i key p)) ≡ take n p
unfolding xor_from
xor_from-xor_from i zero key [] k h = refl
xor_from-xor_from i (suc n) key [] k h = refl
xor_from-xor_from i zero key (x ∷ p) k h = refl
xor_from-xor_from i (suc n) key (x ∷ p) k (h, hs) =
    ap₂ ◌∷◌ (bit_xor_twice x (get_or key (i % length key) 0) h (get_or-byte key (i % length key) k))
      (xor_from-xor_from (i + 1) n key p k hs)

take-append_room :
    (n m k : ℕ) (xs ys : Bytes) → length xs ≡ m → k ≡ n + m → take k (xs ++ ys) ≡ xs ++ take n ys
take-append_room n zero k [] ys e h = let same : k ≡ n = omega arith in ap (λ j. take j ys) same
take-append_room n (suc m) k [] ys e h = absurd (omega arith)
take-append_room n zero k (x ∷ xs) ys e h = absurd (omega arith)
take-append_room n (suc m) zero (x ∷ xs) ys e h = absurd (omega arith)
take-append_room n (suc m) (suc k) (x ∷ xs) ys e h =
    ap (λ zs. x ∷ zs) (take-append_room n m k xs ys (omega arith) (omega arith))

module _ (sum256 : Bytes → Bytes) (laws : (s : Bytes) → All (λ b. b < 256) (sum256 s)) where
  -- What is read of a packet, by its salt and by what the salt is followed by.
  read_from-append :
      (psk salt body : Bytes) (room : ℕ)
      → length salt ≡ 8
      → read_from sum256 psk room (salt ++ body)
        ≡ xor_bytes (take room body) (derive_packet_key sum256 psk salt)
  unfolding read_from derive_packet_key
  read_from-append psk salt body room h =
      let got : take (room + salt_size) (salt ++ body) ≡ salt ++ take room body =
        take-append_room room 8 (room + salt_size) salt body h refl in
      rw (got, take-append_of 8 salt (take room body) h, drop-append_of 8 salt (take room body) h)
        (ground (arith, length-append salt (take room body)))

  -- Whatever the pre-shared key and the 8 bytes of salt, a packet that `WriteTo` made of some bytes
  -- gives `ReadFrom` these bytes back, cut off where the reader's buffer ends; each byte of the hash
  -- being below 256.
  pub read_from-write_to :
      (psk salt p : Bytes) (room : ℕ)
      → length salt ≡ 8
      → All (λ b. b < 256) p
      → read_from sum256 psk room (write_to sum256 psk salt p) ≡ take room p
  unfolding write_to derive_packet_key
  read_from-write_to psk salt p room h b =
      let key = sum256 (psk ++ salt) in
      read_from-append psk salt (xor_bytes p key) room h
      ∙ xor_from-xor_from 0 room key p (laws (psk ++ salt)) b
