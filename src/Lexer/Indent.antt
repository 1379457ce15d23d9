-- ===== src/Lexer/Indent.antt =====
-- internal/lexer/lexer.go: `emitIndents` and `handleLineStart`.
use kolang.Prelude.{
  ℕ, zero, suc, ◌+◌, List, [], ◌∷◌, Option, none, some, ltb, ◌==◌, if◌then◌else◌, Text,
}
use kolang.Token.{indent, dedent}
use kolang.Lexer.State.{Lexer, advance, emit}
use kolang.Lexer.Skip.{skip_blanks, skip_comment}

-- `for len(l.indents) > 1 && top > indent`: pop, and emit a DEDENT.
unfoldable pub pop_above : ℕ → List ℕ → Lexer → Lexer
pop_above width [] l = l
pop_above width (t ∷ []) l = l
pop_above width (t ∷ u ∷ below) l =
    if ltb width t
    then pop_above width (u ∷ below) (emit dedent [] (record l { indents = u ∷ below }))
    else l

-- Tolerate an inconsistent dedent.
abbrev pub reset_top : ℕ → List ℕ → List ℕ
reset_top width [] = []
reset_top width (t ∷ below) = if t == width then t ∷ below else width ∷ below

-- The else-if branch of `emitIndents`.
unfoldable pub close_blocks : ℕ → Lexer → Lexer
unfolding pop_above
close_blocks width l =
    let popped = pop_above width l.indents l in
    record popped { indents = reset_top width popped.indents }

abbrev pub top : List ℕ → ℕ
top [] = 0
top (t ∷ _) = t

unfoldable pub emit_indents : ℕ → Lexer → Lexer
unfolding close_blocks
emit_indents width l =
    if ltb (top l.indents) width
    then emit indent [] (record l { indents = width ∷ l.indents })
    else if ltb width (top l.indents)
    then close_blocks width l
    else l

-- The leading whitespace of a line: its width, and the state behind it.
unfoldable pub measure : Text → ℕ → Lexer → ℕ × Lexer
measure [] width l = (width, l)
measure (r ∷ rs) width l =
    if r == b' '
    then measure rs (width + 1) (advance r rs l)
    else (let tabbed = measure rs (width + 4) (advance r rs l) in
        if r == b'\t' then tabbed else (width, l))

-- What follows a comment at the start of a line decides: the end of the text or code restores the
-- state before the comment, a newline goes on with the next line.
unfoldable pub after_comment : (Lexer → Option Lexer) → ℕ → Lexer → Text → Lexer → Option Lexer
unfolding emit_indents
after_comment again width saved [] l = some saved
after_comment again width saved (r ∷ rs) l =
    if r == b'\n' then again (advance r rs l) else some (emit_indents width saved)

unfoldable pub line_head : (Lexer → Option Lexer) → ℕ → Text → Lexer → Option Lexer
unfolding emit_indents after_comment skip_comment skip_blanks
line_head again width [] l = some l
line_head again width (r ∷ rs) l =
    if r == b'\n'
    then again (advance r rs l)
    else if r == b'/'
    then (let skipped = skip_comment rs l in
        let behind = skip_blanks skipped.rest skipped in
        after_comment again width l behind.rest behind)
    else some (emit_indents width l)

-- `handleLineStart`. Each round of its loop spends one unit of fuel; `none` is out of fuel.
unfoldable pub handle_line_start : ℕ → Lexer → Option Lexer
unfolding measure line_head
handle_line_start zero l = none
handle_line_start (suc fuel) l =
    let (width, measured) = measure l.rest 0 l in
    line_head (handle_line_start fuel) width measured.rest measured
