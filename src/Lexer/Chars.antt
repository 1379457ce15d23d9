-- ===== src/Lexer/Chars.antt =====
-- internal/lexer/lexer.go: the classes of runes.
use kolang.Prelude.{
  ℕ, ◌+◌, ◌-◌, Bool, true, false, ◌&&◌, ◌||◌, Option, none, some, leb, ◌==◌, if◌then◌else◌,
}

-- `lo <= r && r <= hi`.
abbrev pub within : ℕ → ℕ → ℕ → Bool
within lo hi r = leb lo r && leb r hi

unfoldable pub persian_digit : ℕ → Option ℕ
persian_digit r = if within 0x6F0 0x6F9 r then some (r - 0x6F0 + b'0') else none

unfoldable pub is_letter : ℕ → Bool
is_letter r =
    if within b'a' b'z' r || within b'A' b'Z' r
    then true
    else if within 0x600 0x6FF r
    then if within 0x64B 0x65F r then false else true
    else within 0xFB50 0xFDFF r || within 0xFE70 0xFEFF r

unfoldable pub is_ident_start : ℕ → Bool
unfolding is_letter
is_ident_start r = is_letter r || r == b'_'

unfoldable pub is_ident_part : ℕ → Bool
unfolding is_letter
is_ident_part r = if is_letter r || within b'0' b'9' r || r == b'_' then true else r == 0x200C

-- The runes that start a number: a Latin or a Persian digit.
abbrev pub is_digit : ℕ → Bool
is_digit r = within b'0' b'9' r || within 0x6F0 0x6F9 r

-- A group separator inside a number.
abbrev pub is_separator : ℕ → Bool
is_separator r = r == 0x66C || r == b','
