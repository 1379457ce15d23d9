-- ===== src/Lexer/Skip.antt =====
-- internal/lexer/lexer.go: `skipComment`, and the loop that passes blanks.
use kolang.Prelude.{ℕ, [], ◌∷◌, Bool, ◌&&◌, ◌||◌, ◌==◌, if◌then◌else◌, Text}
use kolang.Token.{illegal}
use kolang.Lexer.State.{Lexer, advance, emit_cur}

abbrev pub is_blank : ℕ → Bool
is_blank r = r == b' ' || r == b'\t'

-- The message for a block comment that is not closed, as code points.
abbrev pub unclosed_comment : Text
unclosed_comment =
    0x6A9 ∷ 0x627 ∷ 0x645 ∷ 0x646 ∷ 0x62A ∷ b' ' ∷ 0x628 ∷ 0x644 ∷ 0x648 ∷ 0x6A9 ∷ b' ' ∷ 0x628
    ∷ 0x633 ∷ 0x62A ∷ 0x647 ∷ b' ' ∷ 0x646 ∷ 0x634 ∷ 0x62F ∷ 0x647 ∷ []

-- Each loop is given the `rest` of its state.
unfoldable pub skip_blanks : Text → Lexer → Lexer
skip_blanks [] l = l
skip_blanks (r ∷ rs) l = if is_blank r then skip_blanks rs (advance r rs l) else l

unfoldable pub skip_line : Text → Lexer → Lexer
skip_line [] l = l
skip_line (r ∷ rs) l = if r == b'\n' then l else skip_line rs (advance r rs l)

-- The loop of a block comment; at the end of the text it reports the comment's start.
unfoldable pub skip_block : ℕ → ℕ → Text → Lexer → Lexer
skip_block line col [] l = emit_cur illegal unclosed_comment line col l
skip_block line col (r ∷ []) l = emit_cur illegal unclosed_comment line col (advance r [] l)
skip_block line col (r ∷ s ∷ rs) l =
    if r == b'/' && s == b'/'
    then advance s rs (advance r (s ∷ rs) l)
    else skip_block line col (s ∷ rs) (advance r (s ∷ rs) l)

-- Behind the first slash.
unfoldable pub skip_comment_body : ℕ → ℕ → Text → Lexer → Lexer
unfolding skip_line skip_block
skip_comment_body line col [] l = l
skip_comment_body line col (s ∷ rs) l =
    if s == b'/' then skip_block line col rs (advance s rs l) else skip_line (s ∷ rs) l

-- `skipComment`, at a slash followed by `rs`.
unfoldable pub skip_comment : Text → Lexer → Lexer
unfolding skip_comment_body
skip_comment rs l = skip_comment_body l.line l.col rs (advance b'/' rs l)
