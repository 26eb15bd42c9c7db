-- ===== src/Protocol/Decimal.antt =====
-- Decimal bytes in text: `%d` of `fmt.Sprintf` and of `fmt.Sscanf` at a Go `byte`. A text is the
-- list of its bytes. Of the white space that `Sscanf` skips before a number only the ASCII
-- characters are here.
use nightveil.Prelude.{
  ℕ, Bool, Bytes, Option, [], arith, false, if◌then◌else◌, leb, ltb, none, refl, some, ◌%◌, ◌&&◌,
  ◌*◌, ◌++◌, ◌+◌, ◌-◌, ◌/◌, ◌<◌, ◌==◌, ◌||◌, ◌∷◌, ◌≡◌, Bool-cases, inl, inr, ◌∙◌,
}

unfoldable pub format_byte : ℕ → Bytes
format_byte n =
    if ltb n 10
    then (b'0' + n) ∷ []
    else if ltb n 100
    then (b'0' + n / 10) ∷ (b'0' + n % 10) ∷ []
    else (b'0' + n / 100) ∷ (b'0' + n / 10 % 10) ∷ (b'0' + n % 10) ∷ []

abbrev pub is_digit : ℕ → Bool
is_digit c = leb b'0' c && leb c b'9'

-- Tab, vertical tab, form feed, carriage return, space.
abbrev pub is_space : ℕ → Bool
is_space c = c == 32 || c == 9 || c == 11 || c == 12 || c == 13

unfoldable pub skip_space : Bytes → Bytes
skip_space [] = []
skip_space (c ∷ s) = if is_space c then skip_space s else c ∷ s

-- The digits read so far stand for `acc`.
unfoldable pub scan_digits : Bytes → ℕ → ℕ × Bytes
scan_digits [] acc = (acc, [])
scan_digits (c ∷ s) acc =
    let rest = scan_digits s (acc * 10 + (c - b'0')) in if is_digit c then rest else (acc, c ∷ s)

-- At least one digit, and a number that a byte holds.
unfoldable pub scan_number : Bytes → Option (ℕ × Bytes)
scan_number [] = none
scan_number (c ∷ s) =
    let (n, rest) = scan_digits (c ∷ s) 0 in
    if is_digit c then if ltb n 256 then some (n, rest) else none else none

unfoldable pub scan_byte : Bytes → Option (ℕ × Bytes)
scan_byte s = scan_number (skip_space s)

-- A literal character of the format.
unfoldable pub scan_char : ℕ → Bytes → Option Bytes
scan_char c [] = none
scan_char c (x ∷ s) = if x == c then some s else none

-- What follows a number does not go on with a digit.
abbrev pub Stops : Bytes → Type 0
Stops [] = Unit
Stops (c ∷ s) = is_digit c ≡ false

scan_digits_stop : (s : Bytes) (acc : ℕ) → Stops s → scan_digits s acc ≡ (acc, s)
unfolding scan_digits
scan_digits_stop [] acc h = refl
scan_digits_stop (c ∷ s) acc h = rw h

-- One more digit; the new value `next` is a variable with an equation.
scan_digits_one :
    (d acc next : ℕ) (s : Bytes)
    → d < 10
    → next ≡ acc * 10 + d
    → scan_digits ((b'0' + d) ∷ s) acc ≡ scan_digits s next
unfolding scan_digits
scan_digits_one d acc next s h e = ground arith

scan_byte_digits :
    (d : ℕ) (s : Bytes) (n : ℕ) (rest : Bytes)
    → d < 10
    → scan_digits ((b'0' + d) ∷ s) 0 ≡ (n, rest)
    → n < 256
    → scan_byte ((b'0' + d) ∷ s) ≡ some (n, rest)
unfolding scan_byte skip_space scan_number
scan_byte_digits d s n rest h e k = ground arith

-- A byte is read back from its decimal text, up to a text that does not go on with a digit.
pub scan_byte-format_byte :
    (n : ℕ) (rest : Bytes)
    → n < 256
    → Stops rest
    → scan_byte (format_byte n ++ rest) ≡ some (n, rest)
unfolding format_byte
scan_byte-format_byte n rest h stop =
    let last = scan_digits_stop rest n stop in
    elim (Bool-cases (ltb n 10)) [
      | inl one ↦ rw one (
          scan_byte_digits n rest n rest (ground arith)
            (scan_digits_one n 0 n rest (ground arith) (omega arith) ∙ last) h)
      | inr more ↦ elim (Bool-cases (ltb n 100)) [
        | inl two ↦
            rw (more, two)
              (scan_byte_digits (n / 10) _ n rest (ground arith)
                (scan_digits_one (n / 10) 0 (n / 10) _ (ground arith) (omega arith)
                  ∙ scan_digits_one (n % 10) (n / 10) n rest (omega arith) (omega arith)
                  ∙ last)
                h)
        | inr three ↦
            rw (more, three)
              (scan_byte_digits (n / 100) _ n rest (omega arith)
                (scan_digits_one (n / 100) 0 (n / 100) _ (omega arith) (omega arith)
                  ∙ scan_digits_one (n / 10 % 10) (n / 100) (n / 10) _ (omega arith) (omega arith)
                  ∙ scan_digits_one (n % 10) (n / 10) n rest (omega arith) (omega arith)
                  ∙ last)
                h)
      ]
    ]
