-- ===== src/Lexer/Nesting/Skips.antt =====
-- Comments, blanks and the widths of lines leave the blocks as they are.
use kolang.Prelude.{ℕ, ◌+◌, ◌≡◌, refl, ◌∷◌, [], Bool, true, false, ◌==◌, ◌&&◌, Text, if◌then◌else◌}
use kolang.Token.{illegal}
use kolang.Lexer.State.{Lexer, advance}
use kolang.Lexer.Skip.{
  is_blank, skip_blanks, skip_line, skip_block, skip_comment_body, skip_comment, unclosed_comment,
}
use kolang.Lexer.Indent.{measure}
use kolang.Lexer.Nesting.Walk.{Keeps, Keeps-refl, Keeps-trans, advance-Keeps, emit_cur-Keeps}

-- Either branch of a test.
pub Keeps-if : (b : Bool) {l m n : Lexer} → Keeps l m → Keeps l n → Keeps l (if b then m else n)
Keeps-if true h k = h
Keeps-if false h k = k

pub skip_blanks-Keeps : (rs : Text) (l : Lexer) → l.rest ≡ rs → Keeps l (skip_blanks rs l)
unfolding skip_blanks
skip_blanks-Keeps [] l e = Keeps-refl l
skip_blanks-Keeps (r ∷ rs) l e =
    Keeps-if (is_blank r)
      (Keeps-trans (advance-Keeps r rs l e) (skip_blanks-Keeps rs (advance r rs l) refl))
      (Keeps-refl l)

pub skip_line-Keeps : (rs : Text) (l : Lexer) → l.rest ≡ rs → Keeps l (skip_line rs l)
unfolding skip_line
skip_line-Keeps [] l e = Keeps-refl l
skip_line-Keeps (r ∷ rs) l e =
    Keeps-if (r == b'\n') (Keeps-refl l)
      (Keeps-trans (advance-Keeps r rs l e) (skip_line-Keeps rs (advance r rs l) refl))

pub skip_block-Keeps :
    (line col : ℕ) (rs : Text) (l : Lexer) → l.rest ≡ rs → Keeps l (skip_block line col rs l)
unfolding skip_block
skip_block-Keeps line col [] l e = emit_cur-Keeps illegal unclosed_comment line col l tt
skip_block-Keeps line col (r ∷ []) l e =
    Keeps-trans (advance-Keeps r [] l e)
      (emit_cur-Keeps illegal unclosed_comment line col (advance r [] l) tt)
skip_block-Keeps line col (r ∷ s ∷ rs) l e =
    let first = advance-Keeps r (s ∷ rs) l e in
    Keeps-if (r == b'/' && s == b'/')
      (Keeps-trans first (advance-Keeps s rs (advance r (s ∷ rs) l) refl))
      (Keeps-trans first (skip_block-Keeps line col (s ∷ rs) (advance r (s ∷ rs) l) refl))

skip_comment_body-Keeps :
    (line col : ℕ) (rs : Text) (l : Lexer) → l.rest ≡ rs → Keeps l (skip_comment_body line col rs l)
unfolding skip_comment_body
skip_comment_body-Keeps line col [] l e = Keeps-refl l
skip_comment_body-Keeps line col (s ∷ rs) l e =
    Keeps-if (s == b'/')
      (Keeps-trans (advance-Keeps s rs l e) (skip_block-Keeps line col rs (advance s rs l) refl))
      (skip_line-Keeps (s ∷ rs) l e)

-- Behind the slash.
pub skip_comment-Keeps : (rs : Text) (l : Lexer) → Keeps (advance b'/' rs l) (skip_comment rs l)
unfolding skip_comment
skip_comment-Keeps rs l = skip_comment_body-Keeps l.line l.col rs (advance b'/' rs l) refl

Keeps-if_measured :
    (b : Bool) (l : Lexer) (m n : ℕ × Lexer)
    → Keeps l m.1
    → Keeps l n.1
    → Keeps l (if b then m else n).1
Keeps-if_measured true l m n h k = h
Keeps-if_measured false l m n h k = k

pub measure-Keeps :
    (rs : Text) (width : ℕ) (l : Lexer) → l.rest ≡ rs → Keeps l (measure rs width l).1
unfolding measure
measure-Keeps [] width l e = Keeps-refl l
measure-Keeps (r ∷ rs) width l e =
    let first = advance-Keeps r rs l e in
    Keeps-if_measured (r == b' ') l _ _
      (Keeps-trans first (measure-Keeps rs (width + 1) (advance r rs l) refl))
      (Keeps-if_measured (r == b'\t') l _ _
        (Keeps-trans first (measure-Keeps rs (width + 4) (advance r rs l) refl)) (Keeps-refl l))
