-- ===== src/Lexer/Run.antt =====
-- internal/lexer/lexer.go: the main loop `run`, and `Lex`.
use kolang.Prelude.{
  ℕ, zero, suc, List, [], ◌∷◌, Bool, true, false, Option, none, some, ◌==◌, if◌then◌else◌, Text,
  length,
}
use kolang.Token.{Token, newline, dedent, eof}
use kolang.Lexer.State.{Lexer, advance, emit}
use kolang.Lexer.Chars.{is_digit, is_ident_start}
use kolang.Lexer.Strconv.{Strconv}
use kolang.Lexer.Skip.{is_blank, skip_comment}
use kolang.Lexer.Indent.{handle_line_start}
use kolang.Lexer.Words.{lex_identifier, lex_string}
use kolang.Lexer.Numbers.{lex_number}
use kolang.Lexer.Operators.{lex_operator}

-- The switch of the loop, at the rune `r` followed by `rs`. 0xAB is the opening quote.
unfoldable pub lex_token : Strconv → ℕ → Text → Lexer → Lexer
unfolding is_ident_start skip_comment lex_identifier lex_string lex_number lex_operator
lex_token go r rs l =
    if is_blank r
    then advance r rs l
    else if r == b'\n'
    then emit newline (b'\n' ∷ []) (advance r rs l)
    else if r == 0xAB
    then lex_string rs l
    else if r == b'/'
    then skip_comment rs l
    else if is_digit r
    then lex_number go (r ∷ rs) l
    else if is_ident_start r
    then lex_identifier (r ∷ rs) l
    else lex_operator go r rs l

-- Close the remaining blocks.
unfoldable pub close_all : List ℕ → Lexer → Lexer
close_all [] l = l
close_all (t ∷ []) l = l
close_all (t ∷ u ∷ below) l =
    close_all (u ∷ below) (emit dedent [] (record l { indents = u ∷ below }))

unfoldable pub finish : Lexer → Lexer
unfolding close_all
finish l = emit eof [] (close_all l.indents l)

-- Behind `handleLineStart`. Only a newline sets `atLineStart` again.
unfoldable pub dispatch : Strconv → (Bool → Lexer → Option Lexer) → Text → Lexer → Option Lexer
unfolding lex_token finish
dispatch go again [] l = some (finish l)
dispatch go again (r ∷ rs) l = again (r == b'\n') (lex_token go r rs l)

abbrev pub after_line_start : (Lexer → Option Lexer) → Option Lexer → Option Lexer
after_line_start k none = none
after_line_start k (some l) = k l

unfoldable pub loop_body :
    Strconv → (Bool → Lexer → Option Lexer) → Bool → Text → Lexer → Option Lexer
unfolding dispatch handle_line_start
loop_body go again at_line_start [] l = some (finish l)
loop_body go again true (r ∷ rs) l =
    after_line_start (λ m. dispatch go again m.rest m) (handle_line_start (suc (length (r ∷ rs))) l)
loop_body go again false (r ∷ rs) l = dispatch go again (r ∷ rs) l

-- `run`. Each round of the loop spends one unit of fuel; `none` is out of fuel.
unfoldable pub run : Strconv → ℕ → Bool → Lexer → Option Lexer
unfolding loop_body
run go zero at_line_start l = none
run go (suc fuel) at_line_start l = loop_body go (run go fuel) at_line_start l.rest l

abbrev pub initial : Text → Lexer
initial src = record { rest = src; line = 1; col = 1; indents = 0 ∷ []; tokens = [] }

abbrev pub tokens_of : Option Lexer → Option (List Token)
tokens_of none = none
tokens_of (some l) = some l.tokens

-- `Lex`, on one unit of fuel more than the text has runes.
unfoldable pub lex : Strconv → Text → Option (List Token)
unfolding run
lex go src = tokens_of (run go (suc (length src)) true (initial src))
