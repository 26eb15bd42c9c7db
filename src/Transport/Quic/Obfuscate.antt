-- ===== src/Transport/Quic/Obfuscate.antt =====
-- internal/transport/quictun/obfuscate.go: packets under a salt and a key stream. `blake2b.Sum256` is
-- a parameter, and the salt that `WriteTo` draws is an argument.
pub mod RoundTrip
pub mod Tests
use Prim.Native.Nat.{bit_xor}
use nightveil.Prelude.{
  Bytes, [], drop, get_or, if◌then◌else◌, length, ltb, take, zero, suc, ℕ, ◌%◌, ◌++◌, ◌+◌, ◌∷◌,
}

abbrev pub salt_size : ℕ
salt_size = 8

-- The bytes from index `i` on.
unfoldable pub xor_from : ℕ → Bytes → Bytes → Bytes
xor_from i key [] = []
xor_from i key (x ∷ p) = bit_xor x (get_or key (i % length key) 0) ∷ xor_from (i + 1) key p

-- `xorBytes`
abbrev pub xor_bytes : Bytes → Bytes → Bytes
xor_bytes p key = xor_from 0 key p

module _ (sum256 : Bytes → Bytes) where
  unfoldable pub derive_packet_key : Bytes → Bytes → Bytes
  derive_packet_key psk salt = sum256 (psk ++ salt)

  -- `WriteTo`: the packet that goes to the inner connection.
  unfoldable pub write_to : Bytes → Bytes → Bytes → Bytes
  unfolding derive_packet_key
  write_to psk salt p = salt ++ xor_bytes p (derive_packet_key psk salt)

  -- `ReadFrom` into a buffer of `room` bytes, of a packet that arrived: what the count covers. The
  -- inner read drops what does not fit into `room + saltSize` bytes.
  unfoldable pub read_from : Bytes → ℕ → Bytes → Bytes
  unfolding derive_packet_key
  read_from psk room packet =
      let got = take (room + salt_size) packet in
      let salt = take salt_size got in
      if ltb (length got) salt_size
      then []
      else xor_bytes (drop salt_size got) (derive_packet_key psk salt)
