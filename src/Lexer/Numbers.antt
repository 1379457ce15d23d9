-- ===== src/Lexer/Numbers.antt =====
-- internal/lexer/lexer.go: `lexNumber`.
use kolang.Prelude.{ℕ, [], ◌∷◌, ◌++◌, Bool, ◌||◌, Option, none, some, ◌==◌, if◌then◌else◌, Text}
use kolang.Token.{int, float, illegal}
use kolang.Lexer.State.{Lexer, advance, emit_cur}
use kolang.Lexer.Chars.{within, persian_digit, is_separator}
use kolang.Lexer.Strconv.{Strconv, ParsedInt, value, bad_syntax, bad_range, parse_int, format_int}

-- One rune of a decimal part: a digit to keep, a separator to drop, or the end.
pub data Rune : Type 0 where
  keep : ℕ → Rune
  drop stop : Rune

unfoldable pub classify : ℕ → Rune
unfolding persian_digit
classify r = elim (persian_digit r) [
  | some d ↦ keep d
  | none ↦ if within b'0' b'9' r then keep r else if is_separator r then drop else stop
]

abbrev pub kept : Rune → Text → Text
kept (keep d) sb = sb ++ (d ∷ [])
kept _ sb = sb

abbrev pub is_stop : Rune → Bool
is_stop stop = Bool.true
is_stop _ = Bool.false

-- The loop over decimal digits.
unfoldable pub read_digits : Text → Text → Lexer → Text × Lexer
unfolding classify
read_digits sb [] l = (sb, l)
read_digits sb (r ∷ rs) l =
    if is_stop (classify r) then (sb, l) else read_digits (kept (classify r) sb) rs (advance r rs l)

-- The loop behind a base prefix. No separator is dropped there.
unfoldable pub classify_radix : ℕ → Rune
unfolding persian_digit
classify_radix r = elim (persian_digit r) [
  | some d ↦ keep d
  | none ↦ if within b'0' b'9' r || within b'a' b'f' r || within b'A' b'F' r then keep r else stop
]

unfoldable pub read_radix : Text → Text → Lexer → Text × Lexer
unfolding classify_radix
read_radix sb [] l = (sb, l)
read_radix sb (r ∷ rs) l =
    if is_stop (classify_radix r)
    then (sb, l)
    else read_radix (kept (classify_radix r) sb) rs (advance r rs l)

-- The base that a prefix letter names.
unfoldable pub prefix_base : ℕ → Option ℕ
prefix_base r =
    if r == b'x' || r == b'X'
    then some 16
    else if r == b'b' || r == b'B'
    then some 2
    else if r == b'o' || r == b'O'
    then some 8
    else none

-- The message for a malformed number, before the quoted text.
abbrev pub bad_number : Text
bad_number =
    0x639 ∷ 0x62F ∷ 0x62F ∷ b' ' ∷ 0x646 ∷ 0x627 ∷ 0x645 ∷ 0x639 ∷ 0x62A ∷ 0x628 ∷ 0x631 ∷ b':'
    ∷ b' ' ∷ []

abbrev pub is_point : ℕ → Bool
is_point r = r == b'.' || r == 0x66B

module _ (go : Strconv) (line col : ℕ) where
  unfoldable pub emit_bad : Text → Lexer → Lexer
  emit_bad sb = emit_cur illegal (bad_number ++ go.quote sb) line col

  unfoldable pub emit_float : Text → Lexer → Lexer
  unfolding emit_bad
  emit_float sb l = elim (go.format_float sb) [
    | some lit ↦ emit_cur float lit line col l
    | none ↦ emit_bad sb l
  ]

  unfoldable pub emit_radix : ParsedInt → Text → Lexer → Lexer
  unfolding emit_bad
  emit_radix (value n) sb l = emit_cur int (format_int n) line col l
  emit_radix _ sb l = emit_bad sb l

  -- An integer that does not fit is promoted to a float.
  unfoldable pub emit_decimal : ParsedInt → Text → Lexer → Lexer
  unfolding emit_bad emit_float
  emit_decimal (value n) sb l = emit_cur int (format_int n) line col l
  emit_decimal bad_range sb l = emit_float sb l
  emit_decimal bad_syntax sb l = emit_bad sb l

  abbrev pub emit_fraction : Text × Lexer → Lexer
  emit_fraction (sb, behind) = emit_float sb behind

  -- Behind the integer digits `sb`: a fraction, or the end of an integer.
  unfoldable pub lex_fraction : Text → Text → Lexer → Lexer
  unfolding read_digits emit_float emit_decimal parse_int
  lex_fraction sb [] l = emit_decimal (parse_int 10 sb) sb l
  lex_fraction sb (r ∷ rs) l =
      if is_point r
      then emit_fraction (read_digits (sb ++ (b'.' ∷ [])) rs (advance r rs l))
      else emit_decimal (parse_int 10 sb) sb l

  abbrev pub after_digits : Text × Lexer → Lexer
  after_digits (sb, behind) = lex_fraction sb behind.rest behind

  unfoldable pub lex_decimal : Text → Lexer → Lexer
  unfolding read_digits lex_fraction
  lex_decimal rs l = after_digits (read_digits [] rs l)

  abbrev pub after_radix : ℕ → Text × Lexer → Lexer
  after_radix base (sb, behind) = emit_radix (parse_int base sb) sb behind

  -- Behind a prefix that names `base`.
  unfoldable pub lex_radix : ℕ → Text → Lexer → Lexer
  unfolding read_radix emit_radix parse_int
  lex_radix base rs l = after_radix base (read_radix [] rs l)

-- A zero and a letter may open a prefixed literal.
unfoldable pub lex_number : Strconv → Text → Lexer → Lexer
unfolding prefix_base lex_decimal lex_radix
lex_number go (z ∷ x ∷ rs) l =
    if z == b'0' || z == 0x6F0
    then elim (prefix_base x) [
      | some base ↦ lex_radix go l.line l.col base rs (advance x rs (advance z (x ∷ rs) l))
      | none ↦ lex_decimal go l.line l.col (z ∷ x ∷ rs) l
    ]
    else lex_decimal go l.line l.col (z ∷ x ∷ rs) l
lex_number go rs l = lex_decimal go l.line l.col rs l
