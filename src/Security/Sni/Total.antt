-- ===== src/Security/Sni/Total.antt =====
-- internal/security/reality.go: `SNIExtract` always returns.
use nightveil.Prelude.{
  Bool, Bytes, Option, [], arith, drop, false, get_elem?, if◌then◌else◌, leb, length, ltb, none,
  refl, some, suc, take, tests, true, zero, ℕ, ◌+◌, ◌-◌, ◌<◌, ◌≡◌, ◌≤◌, ◌∷◌, ◌==◌, ◌&&◌, not,
}
use nightveil.Prelude.Steps.{◌>>=◌}
use nightveil.Security.Sni.{
  be16, extension, from_extensions, from_methods, from_session, from_suites, name_in, or_rest,
  slice, sni_extract, walk,
}

-- No panic, and an end.
abbrev pub Returns : {A : Type 0} → Option A → Type 0
Returns {A} o = (a : A) × (o ≡ some a)

>>=-Returns :
    {A B : Type 0} (o : Option A) (f : A → Option B)
    → Returns o
    → ((a : A) → o ≡ some a → Returns (f a))
    → Returns (o >>= f)
>>=-Returns none f (a, e) h = cc
>>=-Returns (some x) f r h = h x refl

if-Returns :
    {A : Type 0} (b : Bool) (x y : Option A)
    → (b ≡ true → Returns x)
    → (b ≡ false → Returns y)
    → Returns (if b then x else y)
if-Returns true x y f g = f refl
if-Returns false x y f g = g refl

get_elem?-Returns : (s : Bytes) (i : ℕ) → i < length s → Returns (get_elem? s i)
get_elem?-Returns [] i h = absurd (omega arith)
get_elem?-Returns (x ∷ s) zero h = (x, refl)
get_elem?-Returns (x ∷ s) (suc i) h = get_elem?-Returns s i (omega arith)

be16-Returns : (s : Bytes) (i : ℕ) → i + 1 < length s → Returns (be16 s i)
unfolding be16
be16-Returns s i h = >>=-Returns (get_elem? s i) _ (get_elem?-Returns s i (omega arith)) (λ high _.
    >>=-Returns (get_elem? s (i + 1)) _ (get_elem?-Returns s (i + 1) h) (λ low _. (_, refl)))

slice-Returns : (s : Bytes) (i j : ℕ) → i ≤ j → j ≤ length s → Returns (slice s i j)
unfolding slice
slice-Returns s i j h k = (take (j - i) (drop i s), ground arith)

name_in-Returns : (d : Bytes) → Returns (name_in d)
unfolding name_in
name_in-Returns d =
    if-Returns (ltb (length d) 5) _ _ (λ _. (_, refl))
      (λ long. >>=-Returns (be16 d 3) _ (be16-Returns d 3 (ground arith)) (λ name_len _.
        if-Returns (leb (5 + name_len) (length d)) _ _
          (λ fits.
            >>=-Returns (slice d 5 (5 + name_len)) _
              (slice-Returns d 5 (5 + name_len) (omega arith) (omega tests)) (λ name _. (_, refl)))
          (λ _. (_, refl))))

extension-Returns :
    (s : Bytes) (end_ at_ ext_type ext_len : ℕ)
    → end_ ≤ length s
    → Returns (extension s end_ at_ ext_type ext_len)
unfolding extension
extension-Returns s end_ at_ ext_type ext_len h =
    if-Returns (ext_type == 0 && leb (at_ + ext_len) end_) _ _
      (λ fits.
        >>=-Returns (slice s at_ (at_ + ext_len)) _
          (slice-Returns s at_ (at_ + ext_len) (omega arith) (ground arith))
          (λ d _. name_in-Returns d))
      (λ _. (_, refl))

or_rest-Returns : (found rest : Option Bytes) → Returns rest → Returns (or_rest found rest)
or_rest-Returns none rest r = r
or_rest-Returns (some name) rest r = (name, refl)

-- Each round moves on by at least four bytes, so the fuel is enough.
walk-Returns :
    (s : Bytes) (end_ fuel at_ : ℕ)
    → end_ ≤ length s
    → 0 < fuel
    → end_ < at_ + fuel
    → Returns (walk s end_ fuel at_)
unfolding walk
walk-Returns s end_ zero at_ h z k = absurd (omega arith)
walk-Returns s end_ (suc fuel) at_ h z k =
    if-Returns (ltb end_ (at_ + 4)) _ _ (λ _. (_, refl))
      (λ room. >>=-Returns (be16 s at_) _ (be16-Returns s at_ (ground arith)) (λ ext_type _.
        >>=-Returns (be16 s (at_ + 2)) _ (be16-Returns s (at_ + 2) (ground arith)) (λ ext_len _.
          >>=-Returns (extension s end_ (at_ + 4) ext_type ext_len) _
            (extension-Returns s end_ (at_ + 4) ext_type ext_len h)
            (λ found _.
              or_rest-Returns found _
                (walk-Returns s end_ fuel (at_ + 4 + ext_len) h (ground arith) (ground arith))))))

from_extensions-Returns : (s : Bytes) (at_ : ℕ) → Returns (from_extensions s at_)
unfolding from_extensions
from_extensions-Returns s at_ =
    if-Returns (ltb (length s) (at_ + 2)) _ _ (λ _. (_, refl))
      (λ room. >>=-Returns (be16 s at_) _ (be16-Returns s at_ (ground arith)) (λ n _.
        let end_ = at_ + 2 + n in
        walk-Returns s (if ltb (length s) end_ then length s else end_) (suc (length s)) (at_ + 2)
          (ground arith) (omega arith) (ground arith)))

from_methods-Returns : (s : Bytes) (at_ : ℕ) → Returns (from_methods s at_)
unfolding from_methods
from_methods-Returns s at_ =
    if-Returns (ltb (length s) (at_ + 1)) _ _ (λ _. (_, refl))
      (λ room.
        >>=-Returns (get_elem? s at_) _ (get_elem?-Returns s at_ (ground arith))
          (λ n _. from_extensions-Returns s (at_ + 1 + n)))

from_suites-Returns : (s : Bytes) (at_ : ℕ) → Returns (from_suites s at_)
unfolding from_suites
from_suites-Returns s at_ =
    if-Returns (ltb (length s) (at_ + 2)) _ _ (λ _. (_, refl))
      (λ room.
        >>=-Returns (be16 s at_) _ (be16-Returns s at_ (ground arith))
          (λ n _. from_methods-Returns s (at_ + 2 + n)))

from_session-Returns : (s : Bytes) → Returns (from_session s)
unfolding from_session
from_session-Returns s =
    if-Returns (leb (length s) 43) _ _ (λ _. (_, refl))
      (λ room.
        >>=-Returns (get_elem? s 43) _ (get_elem?-Returns s 43 (ground arith))
          (λ n _. from_suites-Returns s (43 + 1 + n)))

-- Whatever the bytes that a client sends, `SNIExtract` returns: no index and no slice is out of
-- range, and the walk over the extensions ends.
pub sni_extract_total : (s : Bytes) → (name : Bytes) × (sni_extract s ≡ some name)
unfolding sni_extract
sni_extract_total s =
    if-Returns (ltb (length s) 44) _ _ (λ _. (_, refl))
      (λ long. >>=-Returns (get_elem? s 0) _ (get_elem?-Returns s 0 (ground arith)) (λ a _.
        >>=-Returns (get_elem? s 5) _ (get_elem?-Returns s 5 (ground arith)) (λ b _.
          if-Returns (not (a == 22)) _ _ (λ _. (_, refl))
            (λ _. if-Returns (not (b == 1)) _ _ (λ _. (_, refl)) (λ _. from_session-Returns s)))))
