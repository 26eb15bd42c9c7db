-- ===== src/Prelude/Wire.antt =====
-- Byte sequences, and Go's encoding/binary at 16 bits.
use Prim.Native.Nat.{ℕ, ◌+◌, ◌*◌, ◌/◌, ◌%◌, ◌<◌}
use Prim.Native.Char.{code}
use Prim.Native.String.{String}
use mathlib.Core.Path.{◌≡◌}
use mathlib.Core.List.{List, [], ◌∷◌}
use native.Mathlib.Omega.{arith}

abbrev pub Bytes : Type 0
Bytes = List ℕ

-- The code points of a literal; these are its bytes when the text is ASCII.
abbrev pub codes : String → Bytes
codes String.[] = []
codes (String.◌∷◌ c s) = code c ∷ codes s

-- The conversion `uint16(n)` of a number that is not negative.
abbrev pub uint16 : ℕ → ℕ
uint16 n = n % 65536

-- The conversion `byte(n)`.
abbrev pub byte : ℕ → ℕ
byte n = n % 256

-- `binary.LittleEndian.PutUint16` and `binary.BigEndian.PutUint16`: low and high byte of `v`.
abbrev pub low_byte : ℕ → ℕ
low_byte v = v % 256

abbrev pub high_byte : ℕ → ℕ
high_byte v = v / 256 % 256

-- `binary.LittleEndian.Uint16` and `binary.BigEndian.Uint16`, from the two bytes.
abbrev pub join_bytes : ℕ → ℕ → ℕ
join_bytes lo hi = lo + 256 * hi

pub join_bytes_lem : (v : ℕ) → v < 65536 → join_bytes (low_byte v) (high_byte v) ≡ v
join_bytes_lem v h = omega arith
