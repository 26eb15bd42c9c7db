-- ===== src/Security/Sni.antt =====
-- internal/security/reality.go: `SNIExtract`. An index or a slice that is out of range is a panic,
-- `none`; so is a loop that uses up its fuel. `append` is not used, so a slice ends at its length.
pub mod Total
pub mod Tests
use nightveil.Prelude.{
  Bool, Bytes, List, Option, [], drop, get_elem?, if◌then◌else◌, leb, length, ltb, none, not, some,
  suc, take, zero, ℕ, ◌&&◌, ◌*◌, ◌+◌, ◌-◌, ◌==◌, ◌∷◌,
}
use nightveil.Prelude.Steps.{◌>>=◌}

-- `s[i:j]`
unfoldable pub slice : Bytes → ℕ → ℕ → Option Bytes
slice s i j = if leb i j && leb j (length s) then some (take (j - i) (drop i s)) else none

-- `int(s[i])<<8 | int(s[i+1])`
unfoldable pub be16 : Bytes → ℕ → Option ℕ
be16 s i = do high ← get_elem? s i; low ← get_elem? s (i + 1); some (high * 256 + low)

-- The name in the body of an SNI extension, `none` inside where the walk goes on.
unfoldable pub name_in : Bytes → Option (Option Bytes)
unfolding slice be16
name_in d = if ltb (length d) 5 then some (some []) else (do
  name_len ← be16 d 3
  if leb (5 + name_len) (length d)
      then (do name ← slice d 5 (5 + name_len); some (some name))
      else some none)

-- What one extension, whose body begins at `at_`, decides.
unfoldable pub extension : Bytes → ℕ → ℕ → ℕ → ℕ → Option (Option Bytes)
unfolding slice name_in
extension s end_ at_ ext_type ext_len =
    if ext_type == 0 && leb (at_ + ext_len) end_
    then (do d ← slice s at_ (at_ + ext_len); name_in d)
    else some none

abbrev pub or_rest : Option Bytes → Option Bytes → Option Bytes
or_rest (some name) rest = some name
or_rest none rest = rest

-- The walk over the extensions.
unfoldable pub walk : Bytes → ℕ → ℕ → ℕ → Option Bytes
unfolding be16 extension
walk s end_ zero at_ = none
walk s end_ (suc fuel) at_ = if ltb end_ (at_ + 4) then some [] else (do
  ext_type ← be16 s at_
  ext_len ← be16 s (at_ + 2)
  found ← extension s end_ (at_ + 4) ext_type ext_len
  or_rest found (walk s end_ fuel (at_ + 4 + ext_len)))

-- From the length of the extensions on.
unfoldable pub from_extensions : Bytes → ℕ → Option Bytes
unfolding be16 walk
from_extensions s at_ = if ltb (length s) (at_ + 2) then some [] else (do
  extensions_len ← be16 s at_
  let end_ = at_ + 2 + extensions_len in
      walk s (if ltb (length s) end_ then length s else end_) (suc (length s)) (at_ + 2))

-- From the compression methods on.
unfoldable pub from_methods : Bytes → ℕ → Option Bytes
unfolding from_extensions
from_methods s at_ =
    if ltb (length s) (at_ + 1)
    then some []
    else (do comp_methods_len ← get_elem? s at_; from_extensions s (at_ + 1 + comp_methods_len))

-- From the cipher suites on.
unfoldable pub from_suites : Bytes → ℕ → Option Bytes
unfolding be16 from_methods
from_suites s at_ =
    if ltb (length s) (at_ + 2)
    then some []
    else (do cipher_suites_len ← be16 s at_; from_methods s (at_ + 2 + cipher_suites_len))

-- From the session identifier on, behind the headers, the version and the random bytes.
unfoldable pub from_session : Bytes → Option Bytes
unfolding from_suites
from_session s =
    if leb (length s) 43
    then some []
    else (do session_id_len ← get_elem? s 43; from_suites s (43 + 1 + session_id_len))

unfoldable pub sni_extract : Bytes → Option Bytes
unfolding from_session
sni_extract s = if ltb (length s) 44 then some [] else (do
  content_type ← get_elem? s 0
  handshake_type ← get_elem? s 5
  if not (content_type == 22)
      then some []
      else if not (handshake_type == 1)
      then some []
      else from_session s)
