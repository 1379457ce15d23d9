-- ===== src/Interpolation.antt =====
-- internal/eval/eval_strings.go: the placeholders of a string literal. The source walks over bytes,
-- of which only the braces and the guillemets matter; the model walks over code points.
pub mod Placeholder
pub mod Template
use kolang.Prelude.{
  ℕ, zero, suc, ◌+◌, ◌-◌, ◌==◌, Bool, true, false, List, [], ◌∷◌, ◌++◌, Option, none, some, Text,
  length, if◌then◌else◌,
}
use kolang.Syntax.{Expr}
use kolang.Lexer.Strconv.{Strconv}
use kolang.Parser.Core.{Result, done}
use kolang.Parser.Program.{parse_expr_text}
use kolang.Control.World.{Signal, Outcome, ok, err, runtime_error, Step, bind, continue_with}

abbrev pub left_guillemet : ℕ
left_guillemet = 0xab

abbrev pub right_guillemet : ℕ
right_guillemet = 0xbb

-- A character before an inner text that is complete.
abbrev pub with_char : ℕ → Option Text → Option Text
with_char c none = none
with_char c (some t) = some (c ∷ t)

-- The loop that looks for the brace at which a placeholder ends: its text up to there. `depth` counts
-- the open braces besides the first one, `quotes` is `strDepth`. `none` is a placeholder without end.
unfoldable pub placeholder : ℕ → ℕ → Text → Option Text
placeholder depth quotes [] = none
placeholder depth quotes (c ∷ cs) =
    let opened = placeholder depth (suc quotes) cs in
    let closed = placeholder depth (quotes - 1) cs in
    let deeper = placeholder (suc depth) quotes cs in
    let higher = placeholder (depth - 1) quotes cs in
    let same = placeholder depth quotes cs in
    if c == left_guillemet
    then with_char c opened
    else if c == right_guillemet
    then with_char c closed
    else if quotes == 0
    then (if c == b'{'
        then with_char c deeper
        else if c == b'}'
        then (if depth == 0 then some [] else with_char c higher)
        else with_char c same)
    else with_char c same

abbrev pub starts_with : ℕ → Text → Bool
starts_with c [] = false
starts_with c (d ∷ ds) = d == c

module _ {S V X : Type 0} where
  -- `sb.WriteString(t)`, and what follows.
  unfoldable pub write : Text → Step S V X Text → Step S V X Text
  write t m s = bind m (λ rest s'. (ok (t ++ rest), s')) s

  -- What becomes of a placeholder: `again` goes on behind a number of characters.
  unfoldable pub expand :
      (Text → Step S V X Text)
      → Step S V X Text
      → (ℕ → Step S V X Text)
      → Option Text
      → Step S V X Text
  expand evaluated unfinished again none s = unfinished s
  expand evaluated unfinished again (some inner) s =
      bind (evaluated inner) (λ t. write t (again (length inner + 1))) s

  -- The main loop, behind the first characters that it skips. `evaluated` gives the text of a
  -- placeholder's value.
  unfoldable pub walk : (Text → Step S V X Text) → Step S V X Text → ℕ → Text → Step S V X Text
  unfolding placeholder
  walk evaluated unfinished skipped [] s = (ok [], s)
  walk evaluated unfinished (suc skipped) (c ∷ cs) s = walk evaluated unfinished skipped cs s
  walk evaluated unfinished zero (c ∷ cs) s =
      let again = λ (n : ℕ). walk evaluated unfinished n cs in
      if c == b'{'
      then (if starts_with b'{' cs
          then write (b'{' ∷ []) (again 1) s
          else expand evaluated unfinished again (placeholder 0 0 cs) s)
      else if c == b'}'
      then write (b'}' ∷ []) (again (if starts_with b'}' cs then 1 else 0)) s
      else write (c ∷ []) (again 0) s

  -- `interpolate`.
  unfoldable pub interpolate : (Text → Step S V X Text) → Step S V X Text → Text → Step S V X Text
  unfolding walk
  interpolate evaluated unfinished raw s = walk evaluated unfinished 0 raw s

module _ {F S V X : Type 0} (parse_float : Text → Option F) (conv : Strconv) where
  -- A source that does not parse: `invalid` is the error of `evalInterpExpr`.
  abbrev pub parsed : (Expr F → Step S V X V) → Step S V X V → Result F (Expr F) → Step S V X V
  parsed eval_expr invalid (done e _) = eval_expr e
  parsed eval_expr invalid _ = invalid

  -- `evalInterpExpr`.
  unfoldable pub eval_interp_expr : (Expr F → Step S V X V) → Step S V X V → Text → Step S V X V
  unfolding parse_expr_text
  eval_interp_expr eval_expr invalid src s =
      parsed eval_expr invalid (parse_expr_text parse_float conv src) s

  -- `Stringify(v)` of the value of a placeholder.
  unfoldable pub placeholder_text :
      (V → Text) → (Expr F → Step S V X V) → Step S V X V → Text → Step S V X Text
  unfolding eval_interp_expr
  placeholder_text shown eval_expr invalid src s =
      bind (eval_interp_expr eval_expr invalid src) (λ v s'. (ok (shown v), s')) s
