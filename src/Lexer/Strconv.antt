-- ===== src/Lexer/Strconv.antt =====
-- What the scanner uses of Go's package strconv. `ParseInt` and `FormatInt` are written out for
-- the texts that reach them, which hold letters and digits and no sign. Floating point and the
-- quoting verb `%q` are operations of the record `Strconv`, a parameter of the scanner.
use kolang.Prelude.{
  ℕ, zero, suc, ◌+◌, ◌-◌, ◌*◌, ◌/◌, ◌%◌, [], ◌∷◌, Option, true, false, ltb, if◌then◌else◌, Text,
}
use kolang.Lexer.Chars.{within}

pub record Strconv : Type 0 where
  -- `ParseFloat(s, 64)`, then `FormatFloat(v, 'f', -1, 64)` of its value; `none` is an error.
  pub format_float : Text → Option Text
  -- The text that `%q` prints.
  pub quote : Text → Text

-- `ParseInt(s, base, 64)`: a value, `ErrSyntax` or `ErrRange`.
pub data ParsedInt : Type 0 where
  value : ℕ → ParsedInt
  bad_syntax bad_range : ParsedInt

-- The value of a digit rune; 36 and above is no digit in any base.
unfoldable pub digit_value : ℕ → ℕ
digit_value r =
    if within b'0' b'9' r
    then r - b'0'
    else if within b'a' b'z' r
    then r - b'a' + 10
    else if within b'A' b'Z' r
    then r - b'A' + 10
    else 36

-- `ParseUint`'s loop from left to right: the first bad digit or the first value that does not fit
-- 64 bits decides. At the end `ParseInt` refuses what does not fit 63 bits.
unfoldable pub parse_digits : ℕ → ℕ → Text → ParsedInt
unfolding digit_value
parse_digits base n [] = if ltb n 0x8000000000000000 then value n else bad_range
parse_digits base n (c ∷ cs) = elim (ltb (digit_value c) base) [
  | false ↦ bad_syntax
  | true ↦ elim (ltb (n * base + digit_value c) 0x1_0000_0000_0000_0000) [
    | false ↦ bad_range
    | true ↦ parse_digits base (n * base + digit_value c) cs
  ]
]

unfoldable pub parse_int : ℕ → Text → ParsedInt
unfolding parse_digits
parse_int base [] = bad_syntax
parse_int base (c ∷ cs) = parse_digits base 0 (c ∷ cs)

format_digits : ℕ → ℕ → Text → Text
format_digits zero n acc = acc
format_digits (suc f) n acc = elim (ltb n 10) [
  | true ↦ (b'0' + n) ∷ acc
  | false ↦ format_digits f (n / 10) ((b'0' + n % 10) ∷ acc)
]

-- `FormatInt(n, 10)` for a number that is not negative. It takes as many rounds as `n` has digits.
unfoldable pub format_int : ℕ → Text
unfolding format_digits
format_int n = format_digits (suc n) n []
