-- ===== src/Parser/Outcome.antt =====
-- internal/parser/parser.go: how the parsing of a text, of a program and of an expression ends.
use kolang.Prelude.{
  ℕ, zero, suc, ◌<◌, ◌≡◌, refl, ◌⊎◌, inl, inr, Text, arith, true, [], Option, length, if_split,
}
use mathlib.Core.Path.{subst⁻¹}
use kolang.Token.{eof}
use kolang.Token.Spelling.{same_type}
use kolang.Syntax.{Expr}
use kolang.Lexer.Strconv.{Strconv}
use kolang.Lexer.Nesting.Whole.{lex-Finished}
use kolang.Parser.Core.{
  Depth, no_depth, Problem, Parser, State, Result, done, failed, stuck, peek, pure, see_if, see,
}
use kolang.Parser.Expressions.{binary, parse_expression, parse_single_expr}
use kolang.Parser.Program.{
  program_loop, parse_program, parse_lexed, parse_program_text, parse_expr_text,
}
use kolang.Parser.Progress.{Held, Good, Eats, Good-of_Eats}
use kolang.Parser.Progress.Rules.{kept}
use kolang.Parser.Progress.Program.{Good-parse_program, Eats-parse_expression}
use kolang.Parser.Ensures.{
  Gives, Ensures, Ensures-fail, Ensures-out_of_fuel, Ensures-asking, Ensures-looped,
  Ensures-take_if, Ensures-bind, Ensures-then_pure,
}

unfoldable pub AtEnd : {F : Type 0} → State F → Type 0
AtEnd s = same_type eof (peek s).type ≡ true

module _ {F A : Type 0} where
  Ensures-see_end :
      (a : A) (miss : Parser F A)
      → Ensures (λ _ t. AtEnd t) miss
      → Ensures (λ _ t. AtEnd t) (see eof (pure a) miss)
  unfolding Ensures Gives AtEnd see_if pure
  Ensures-see_end a miss h s =
      if_split (Gives (λ _ t. AtEnd t)) (same_type eof (peek s).type) (done a s) (miss s) (λ e. e)
        (λ _. h s)

module _ {F : Type 0} (again : Depth → ℕ → Parser F (Expr F)) where
  program_loop-AtEnd : (n : ℕ) → Ensures (λ _ t. AtEnd t) (program_loop again n)
  unfolding program_loop
  program_loop-AtEnd zero = Ensures-out_of_fuel _
  program_loop-AtEnd (suc n) =
      search
        (Ensures-see_end, Ensures-take_if, Ensures-then_pure, Ensures-bind, program_loop-AtEnd n)
        depth 10

module _ {F A : Type 0} where
  -- The two ways in which a parse can end, where `P` is what a success means.
  unfoldable pub Ended : (A → State F → Type 0) → Result F A → Type 0
  Ended P r =
      ((a : A) × (t : State F) × (r ≡ done a t) × P a t)
      ⊎ ((p : Problem) × (t : State F) × (r ≡ failed p t))

  Ended-of :
      (n : ℕ) (P : A → State F → Type 0) (r : Result F A) → Held 0 n r → Gives P r → Ended P r
  unfolding Held Gives Ended
  Ended-of n P (done a t) h g = inl (a, t, refl, g)
  Ended-of n P (failed p t) h g = inr (p, t, refl)
  Ended-of n P stuck h g = elim h [ ]

  Ended-eats : (n : ℕ) (r : Result F A) → Held 1 n r → Ended (λ _ t. length t.toks < n) r
  unfolding Held Ended
  Ended-eats n (done a t) h = inl (a, t, refl, omega arith)
  Ended-eats n (failed p t) h = inr (p, t, refl)
  Ended-eats n stuck h = elim h [ ]

module _ {F : Type 0} (parse_float : Text → Option F) where
  -- On every list of tokens and at every depth `parseExpression` ends, with a tree behind which fewer
  -- tokens are left, or with an error.
  pub parse_expression_ends :
      (d : Depth) (s : State F)
      → Ended (λ _ t. length t.toks < length s.toks) (parse_expression parse_float d s)
  unfolding Eats
  parse_expression_ends d s =
      Ended-eats (length s.toks) _
        (Eats-parse_expression parse_float (suc (length s.toks)) d s (omega arith))

  parse_program-Ended : (s : State F) → Ended (λ _ t. AtEnd t) (parse_program parse_float s)
  unfolding parse_program Good Ensures
  parse_program-Ended s =
      Ended-of (length s.toks) _ _
        (Good-parse_program parse_float (suc (length s.toks)) s (omega arith))
        (Ensures-looped _ _ (program_loop-AtEnd (binary parse_float)) s)

  Good-parse_single_expr : (n : ℕ) → Good n (parse_single_expr parse_float)
  unfolding parse_single_expr
  Good-parse_single_expr n =
      search
        (
          kept,
          Good-of_Eats n (parse_expression parse_float no_depth)
              (Eats-parse_expression parse_float n no_depth),
        )
        depth 20

  Ensures-parse_single_expr : Ensures (λ _ t. AtEnd t) (parse_single_expr parse_float)
  unfolding parse_single_expr
  Ensures-parse_single_expr =
      search (Ensures-bind, Ensures-see_end, Ensures-asking, Ensures-fail) depth 10

  parse_single_expr-Ended : (s : State F) → Ended (λ _ t. AtEnd t) (parse_single_expr parse_float s)
  unfolding Good Ensures
  parse_single_expr-Ended s =
      Ended-of (length s.toks) _ _ (Good-parse_single_expr (suc (length s.toks)) s (omega arith))
        (Ensures-parse_single_expr s)

  -- `ParseProgram` ends on every text: with the statements of the program, and then the next token is
  -- the one that marks the end, or with an error.
  pub parse_program_text_ends :
      (conv : Strconv) (src : Text)
      → Ended (λ _ t. AtEnd t) (parse_program_text parse_float conv src)
  unfolding parse_program_text parse_lexed
  parse_program_text_ends conv src =
      let (ts, ended, _) = lex-Finished conv src in
      subst⁻¹ (λ r. Ended (λ _ t. AtEnd t) (parse_lexed (parse_program parse_float) r)) ended
        (parse_program-Ended (record { toks = ts; pending = [] }))

  -- `ParseSingleExpr` ends on every text: with an expression, and then the next token is the one that
  -- marks the end, or with an error.
  pub parse_expr_text_ends :
      (conv : Strconv) (src : Text) → Ended (λ _ t. AtEnd t) (parse_expr_text parse_float conv src)
  unfolding parse_expr_text parse_lexed
  parse_expr_text_ends conv src =
      let (ts, ended, _) = lex-Finished conv src in
      subst⁻¹ (λ r. Ended (λ _ t. AtEnd t) (parse_lexed (parse_single_expr parse_float) r)) ended
        (parse_single_expr-Ended (record { toks = ts; pending = [] }))
