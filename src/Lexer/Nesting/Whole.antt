-- ===== src/Lexer/Nesting/Whole.antt =====
-- `handleLineStart`, `run` and `Lex`: they end, and the INDENT and DEDENT tokens of the result
-- are balanced.
use kolang.Prelude.{
  ℕ, zero, suc, ◌≤◌, ◌<◌, ◌≡◌, refl, ◌∙◌, ap, List, [], ◌∷◌, ◌++◌, Bool, true, false, ◌==◌, Option,
  some, Text, if_split, arith, length,
}
use kolang.Token.{Token, eof}
use kolang.Lexer.State.{Lexer, advance}
use kolang.Lexer.Strconv.{Strconv}
use kolang.Lexer.Skip.{skip_comment, skip_blanks}
use kolang.Lexer.Indent.{measure, emit_indents, after_comment, line_head, handle_line_start}
use kolang.Lexer.Run.{lex_token, close_all, finish, dispatch, loop_body, run, initial, lex}
use kolang.Lexer.Nesting.Walk.{walk, Keeps-trans, advance-Keeps}
use kolang.Lexer.Nesting.Skips.{skip_blanks-Keeps, measure-Keeps}
use kolang.Lexer.Nesting.Blocks.{
  IsNested, Keeps-IsNested, pop-IsNested, emit_indents-IsNested, rest-emit_indents, lex_token-Keeps,
  comment-Keeps,
}

-- An operation that ends, in a nested state with at most `bound` runes left.
abbrev Reaches : ℕ → Option Lexer → Type 0
Reaches bound o = (m : Lexer) × (o ≡ some m) × IsNested m × (length m.rest ≤ bound)

Reaches-some : {bound : ℕ} (m : Lexer) → IsNested m → length m.rest ≤ bound → Reaches bound (some m)
Reaches-some m h le = (m, refl, h, le)

Reaches-mono : {a b : ℕ} {o : Option Lexer} → a ≤ b → Reaches a o → Reaches b o
Reaches-mono le (m, e, h, k) = (m, e, h, omega arith)

-- The loop's next round, from any nested state with less than `fuel` runes left.
abbrev Again : ℕ → (Lexer → Option Lexer) → Type 0
Again fuel again =
    (m : Lexer) → length m.rest < fuel → IsNested m → Reaches (length m.rest) (again m)

-- Behind one rune of a state that is followed by `r` and `rs`.
next_round :
    {fuel bound : ℕ} (again : Lexer → Option Lexer) (r : ℕ) (rs : Text) (l : Lexer)
    → Again fuel again
    → l.rest ≡ r ∷ rs
    → IsNested l
    → length l.rest ≤ bound
    → bound ≤ fuel
    → Reaches bound (again (advance r rs l))
next_round again r rs l go e h le enough =
    let shorter = ap (λ (t : Text). length t) e in
    Reaches-mono {a = length rs} (omega arith)
      (go (advance r rs l) (omega arith) (Keeps-IsNested (advance-Keeps r rs l e) h))

Reaches-emit_indents :
    {bound : ℕ} (width : ℕ) (l : Lexer)
    → IsNested l
    → length l.rest ≤ bound
    → Reaches bound (some (emit_indents width l))
Reaches-emit_indents width l h le =
    Reaches-some (emit_indents width l) (emit_indents-IsNested width l h)
      (omega (arith, ap (λ (t : Text). length t) (rest-emit_indents width l)))

after_comment-Reaches :
    {fuel bound : ℕ} (again : Lexer → Option Lexer) (width : ℕ) (saved : Lexer) (rs : Text)
    (l : Lexer)
    → Again fuel again
    → l.rest ≡ rs
    → IsNested l
    → length l.rest ≤ bound
    → bound ≤ fuel
    → IsNested saved
    → length saved.rest ≤ bound
    → Reaches bound (after_comment again width saved rs l)
unfolding after_comment
after_comment-Reaches again width saved [] l go e h le enough hs les = Reaches-some saved hs les
after_comment-Reaches {bound = bound} again width saved (r ∷ rs) l go e h le enough hs les =
    if_split (Reaches bound) (r == b'\n') _ _ (λ _. next_round again r rs l go e h le enough)
      (λ _. Reaches-emit_indents width saved hs les)

line_head-Reaches :
    {fuel bound : ℕ} (again : Lexer → Option Lexer) (width : ℕ) (rs : Text) (l : Lexer)
    → Again fuel again
    → l.rest ≡ rs
    → IsNested l
    → length l.rest ≤ bound
    → bound ≤ fuel
    → Reaches bound (line_head again width rs l)
unfolding line_head
line_head-Reaches again width [] l go e h le enough = Reaches-some l h le
line_head-Reaches {bound = bound} again width (r ∷ rs) l go e h le enough =
    if_split (Reaches bound) (r == b'\n') _ _ (λ _. next_round again r rs l go e h le enough)
      (λ _.
        if_split (Reaches bound) (r == b'/') _ _
          (λ slash.
            let skipped = skip_comment rs l in
            let k =
              Keeps-trans (comment-Keeps r rs l e slash)
                (skip_blanks-Keeps skipped.rest skipped refl) in
            let behind = skip_blanks skipped.rest skipped in
            after_comment-Reaches again width l behind.rest behind go refl (Keeps-IsNested k h)
              (omega (arith, k.shorter)) enough h le)
          (λ _. Reaches-emit_indents width l h le))

-- Each round of `handleLineStart` reads a rune, so fuel above the text's length is enough.
handle_line_start-Reaches : (fuel : ℕ) → Again fuel (handle_line_start fuel)
unfolding handle_line_start
handle_line_start-Reaches zero l enough h = absurd (omega arith)
handle_line_start-Reaches (suc fuel) l enough h =
    let k = measure-Keeps l.rest 0 l refl in
    let (width, measured) = measure l.rest 0 l in
    line_head-Reaches (handle_line_start fuel) width measured.rest measured
      (handle_line_start-Reaches fuel) refl (Keeps-IsNested k h) k.shorter (omega arith)

-- A finished scan: balanced tokens, and one EOF token behind them.
abbrev pub Finished : List Token → Type 0
Finished ts =
    (body : List Token) × (last : Token) × (ts ≡ body ++ (last ∷ []))
    × (last.type ≡ eof)
    × (walk body 0 ≡ some 0)

close_all-opened :
    (stack : List ℕ) (l : Lexer)
    → l.indents ≡ stack
    → IsNested l
    → walk (close_all stack l).tokens 0 ≡ some 0
unfolding close_all
close_all-opened [] l e h = absurd (omega (arith, h.stacked, ap (λ (s : List ℕ). length s) e))
close_all-opened (t ∷ []) l e h =
    h.opened ∙ ap some (omega (arith, h.stacked, ap (λ (s : List ℕ). length s) e))
close_all-opened (t ∷ u ∷ below) l e h =
    close_all-opened (u ∷ below) _ refl (pop-IsNested t u below l e h)

finish-Finished : (l : Lexer) → IsNested l → Finished (finish l).tokens
unfolding finish
finish-Finished l h =
    let closed = close_all l.indents l in
    (closed.tokens, _, refl, refl, close_all-opened l.indents l refl h)

-- A scan that ends, and is finished.
abbrev Scans : Option Lexer → Type 0
Scans o = (m : Lexer) × (o ≡ some m) × Finished m.tokens

abbrev Loops : ℕ → (Bool → Lexer → Option Lexer) → Type 0
Loops fuel again =
    (at_line_start : Bool) (m : Lexer)
    → length m.rest < fuel
    → IsNested m
    → Scans (again at_line_start m)

module _ (go : Strconv) where
  dispatch-Scans :
      (fuel : ℕ) (again : Bool → Lexer → Option Lexer) (rs : Text) (l : Lexer)
      → Loops fuel again
      → l.rest ≡ rs
      → length l.rest ≤ fuel
      → IsNested l
      → Scans (dispatch go again rs l)
  unfolding dispatch
  dispatch-Scans fuel again [] l next e enough h = (finish l, refl, finish-Finished l h)
  dispatch-Scans fuel again (r ∷ rs) l next e enough h =
      let k = lex_token-Keeps go r rs l in
      let first = advance-Keeps r rs l e in
      next (r == b'\n') (lex_token go r rs l)
        (omega (arith, k.shorter, ap (λ (t : Text). length t) e))
        (Keeps-IsNested k (Keeps-IsNested first h))

  loop_body-Scans :
      (fuel : ℕ) (again : Bool → Lexer → Option Lexer) (at_line_start : Bool) (rs : Text)
      (l : Lexer)
      → Loops fuel again
      → l.rest ≡ rs
      → length l.rest ≤ fuel
      → IsNested l
      → Scans (loop_body go again at_line_start rs l)
  unfolding loop_body
  loop_body-Scans fuel again true [] l next e enough h = (finish l, refl, finish-Finished l h)
  loop_body-Scans fuel again false [] l next e enough h = (finish l, refl, finish-Finished l h)
  loop_body-Scans fuel again true (r ∷ rs) l next e enough h =
      let read = ap (λ (t : Text). length t) e in
      let (m, ended, nested, shorter) =
        handle_line_start-Reaches (suc (length (r ∷ rs))) l (omega arith) h in
      rw ended (dispatch-Scans fuel again m.rest m next refl (omega arith) nested)
  loop_body-Scans fuel again false (r ∷ rs) l next e enough h =
      dispatch-Scans fuel again (r ∷ rs) l next e enough h

  run-Scans : (fuel : ℕ) → Loops fuel (run go fuel)
  unfolding run
  run-Scans zero at_line_start l enough h = absurd (omega arith)
  run-Scans (suc fuel) at_line_start l enough h =
      loop_body-Scans fuel (run go fuel) at_line_start l.rest l (run-Scans fuel) refl (omega arith)
        h

pub initial-IsNested : (src : Text) → IsNested (initial src)
unfolding walk
initial-IsNested src = record { depth = 0; opened = refl; stacked = refl; falling = tt }

-- `Lex` ends on every text. Its tokens are a list in which every DEDENT closes an INDENT before it
-- and every INDENT is closed, with no EOF inside, followed by one EOF token.
pub lex-Finished :
    (go : Strconv) (src : Text) → (ts : List Token) × (lex go src ≡ some ts) × Finished ts
unfolding lex
lex-Finished go src =
    let (m, ended, finished) =
      run-Scans go (suc (length src)) true (initial src) (omega arith) (initial-IsNested src) in
    (m.tokens, rw ended, finished)
