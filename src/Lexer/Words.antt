-- ===== src/Lexer/Words.antt =====
-- internal/lexer/lexer.go: `lexIdentifier` and `lexString`.
use kolang.Prelude.{ℕ, [], ◌∷◌, ◌++◌, none, some, ◌==◌, if◌then◌else◌, Text, lookup}
use kolang.Token.{ident, string, illegal, TokenType}
use kolang.Token.Keywords.{keywords}
use kolang.Lexer.State.{Lexer, advance, emit, emit_cur}
use kolang.Lexer.Chars.{is_ident_part}

-- The loop of `lexIdentifier`: the text read, and the state behind it.
unfoldable pub read_ident : Text → Text → Lexer → Text × Lexer
unfolding is_ident_part
read_ident sb [] l = (sb, l)
read_ident sb (r ∷ rs) l =
    if is_ident_part r then read_ident (sb ++ (r ∷ [])) rs (advance r rs l) else (sb, l)

-- The kind of an identifier: its keyword, if it is one.
unfoldable pub word_type : Text → TokenType
unfolding lookup
word_type lit = elim (lookup lit keywords) [ some t ↦ t | none ↦ ident ]

abbrev pub emit_word : Text × Lexer → Lexer
emit_word (lit, behind) = emit (word_type lit) lit behind

unfoldable pub lex_identifier : Text → Lexer → Lexer
unfolding read_ident word_type
lex_identifier rs l = emit_word (read_ident [] rs l)

-- The message for a string that is not closed.
abbrev pub unclosed_string : Text
unclosed_string =
    0x645 ∷ 0x62A ∷ 0x646 ∷ b' ' ∷ 0x628 ∷ 0x633 ∷ 0x62A ∷ 0x647 ∷ b' ' ∷ 0x646 ∷ 0x634 ∷ 0x62F
    ∷ 0x647 ∷ []

-- The loop of `lexString`, behind the opening quote; 0xBB is the closing one.
unfoldable pub read_string : ℕ → ℕ → Text → Text → Lexer → Lexer
read_string line col sb [] l = emit_cur illegal unclosed_string line col l
read_string line col sb (r ∷ rs) l =
    if r == 0xBB
    then emit string sb (advance r rs l)
    else read_string line col (sb ++ (r ∷ [])) rs (advance r rs l)

-- `lexString`, at the opening quote 0xAB followed by `rs`.
unfoldable pub lex_string : Text → Lexer → Lexer
unfolding read_string
lex_string rs l = read_string l.line l.col [] rs (advance 0xAB rs l)
