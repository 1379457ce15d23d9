-- ===== src/Lexer/State.antt =====
-- internal/lexer/lexer.go: the scanner's state, and the steps that move it.
use kolang.Prelude.{ℕ, ◌+◌, List, [], ◌∷◌, ◌++◌, ◌==◌, if◌then◌else◌, Text, length}
use kolang.Prelude.Int.{ℤ, sub_ℕ}
use kolang.Token.{TokenType, Token}

-- `rest` is the text from `pos` on. The indentation stack has its top first.
pub record Lexer : Type 0 where
  pub rest : Text
  pub line : ℕ
  pub col : ℕ
  pub indents : List ℕ
  pub tokens : List Token

-- `advance`, at a state whose `rest` is `r` followed by `after`.
abbrev pub advance : ℕ → Text → Lexer → Lexer
advance r after l = record l {
  rest = after;
  line = if r == b'\n' then l.line + 1 else l.line;
  col = if r == b'\n' then 1 else l.col + 1;
}

-- `append(l.tokens, t)`.
abbrev pub push : Token → Lexer → Lexer
push t l = record l { tokens = l.tokens ++ (t ∷ []) }

-- `emitCur`: a token with a position of its own.
abbrev pub emit_cur : TokenType → Text → ℕ → ℕ → Lexer → Lexer
emit_cur t lit line col = push (record { type = t; literal = lit; line = line; col = ℤ.pos col })

-- `emit`: the column is the current one less the literal's length.
abbrev pub emit : TokenType → Text → Lexer → Lexer
emit t lit l =
    push (record { type = t; literal = lit; line = l.line; col = sub_ℕ l.col (length lit) }) l
