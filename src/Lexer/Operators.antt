-- ===== src/Lexer/Operators.antt =====
-- internal/lexer/lexer.go: `lexOperator`. An operator's literal is its own spelling.
use kolang.Prelude.{ℕ, List, [], ◌∷◌, ◌++◌, none, some, Text, lookup}
use kolang.Token.{
  TokenType, illegal, floordiv_eq, equal, less_equal, greater_equal, floordiv, plus_eq, minus_eq,
  star_eq, pow_eq, div_eq, percent_eq, send, recv, arrow, pipe, ezafe, assign, plus, minus, pow,
  star, div, percent, less, greater, lparen, rparen, lbracket, rbracket, lbrace, rbrace, colon,
}
use kolang.Lexer.State.{Lexer, advance, emit}
use kolang.Lexer.Strconv.{Strconv}

-- `switch three`, `switch two` and `switch r`, row by row. 0xF7 is the division sign, 0xD7 the
-- multiplication sign and 0x650 the kasra.
abbrev pub three_rune : List (Text × TokenType)
three_rune = (0xF7 ∷ b'/' ∷ b'=' ∷ [], floordiv_eq) ∷ []

abbrev pub two_rune : List (Text × TokenType)
two_rune =
    (b'=' ∷ b'=' ∷ [], equal)
    ∷ (b'<' ∷ b'=' ∷ [], less_equal)
    ∷ (b'>' ∷ b'=' ∷ [], greater_equal)
    ∷ (0xF7 ∷ b'/' ∷ [], floordiv)
    ∷ (b'+' ∷ b'=' ∷ [], plus_eq)
    ∷ (b'-' ∷ b'=' ∷ [], minus_eq)
    ∷ (0xD7 ∷ b'=' ∷ [], star_eq)
    ∷ (b'*' ∷ b'=' ∷ [], pow_eq)
    ∷ (0xF7 ∷ b'=' ∷ [], div_eq)
    ∷ (b'%' ∷ b'=' ∷ [], percent_eq)
    ∷ (b'<' ∷ b'<' ∷ [], send)
    ∷ (b'>' ∷ b'>' ∷ [], recv)
    ∷ (b'-' ∷ b'>' ∷ [], arrow)
    ∷ (b'|' ∷ b'>' ∷ [], pipe)
    ∷ []

abbrev pub one_rune : List (Text × TokenType)
one_rune =
    (0x650 ∷ [], ezafe)
    ∷ (b'=' ∷ [], assign)
    ∷ (b'+' ∷ [], plus)
    ∷ (b'-' ∷ [], minus)
    ∷ (b'*' ∷ [], pow)
    ∷ (0xD7 ∷ [], star)
    ∷ (0xF7 ∷ [], div)
    ∷ (b'%' ∷ [], percent)
    ∷ (b'<' ∷ [], less)
    ∷ (b'>' ∷ [], greater)
    ∷ (b'(' ∷ [], lparen)
    ∷ (b')' ∷ [], rparen)
    ∷ (b'[' ∷ [], lbracket)
    ∷ (b']' ∷ [], rbracket)
    ∷ (b'{' ∷ [], lbrace)
    ∷ (b'}' ∷ [], rbrace)
    ∷ (b':' ∷ [], colon)
    ∷ []

-- The message for an unknown rune, before the quoted text.
abbrev pub bad_rune : Text
bad_rune =
    0x6A9 ∷ 0x627 ∷ 0x631 ∷ 0x627 ∷ 0x6A9 ∷ 0x62A ∷ 0x631 ∷ b' ' ∷ 0x646 ∷ 0x627 ∷ 0x645 ∷ 0x639
    ∷ 0x62A ∷ 0x628 ∷ 0x631 ∷ b':' ∷ b' ' ∷ []

unfoldable pub lex_one : Strconv → ℕ → Text → Lexer → Lexer
unfolding lookup
lex_one go r rs l = elim (lookup (r ∷ []) one_rune) [
  | some t ↦ emit t (r ∷ []) (advance r rs l)
  | none ↦ emit illegal (bad_rune ++ go.quote (r ∷ [])) (advance r rs l)
]

unfoldable pub lex_two : Strconv → ℕ → Text → Lexer → Lexer
unfolding lookup lex_one
lex_two go r [] l = lex_one go r [] l
lex_two go r (s ∷ rs) l = elim (lookup (r ∷ s ∷ []) two_rune) [
  | some t ↦ emit t (r ∷ s ∷ []) (advance s rs (advance r (s ∷ rs) l))
  | none ↦ lex_one go r (s ∷ rs) l
]

-- `lexOperator`, at the rune `r` followed by `rs`: the longest spelling wins.
unfoldable pub lex_operator : Strconv → ℕ → Text → Lexer → Lexer
unfolding lookup lex_two
lex_operator go r (s ∷ t ∷ rs) l = elim (lookup (r ∷ s ∷ t ∷ []) three_rune) [
  | some k ↦ emit k (r ∷ s ∷ t ∷ []) (advance t rs (advance s (t ∷ rs) (advance r (s ∷ t ∷ rs) l)))
  | none ↦ lex_two go r (s ∷ t ∷ rs) l
]
lex_operator go r rs l = lex_two go r rs l
