-- ===== src/Parser/Expressions.antt =====
-- internal/parser/parser.go: precedence climbing, and a single expression.
use kolang.Prelude.{ℕ, zero, suc, Option, ◌&&◌, ◌==◌, ltb, Text, [], ◌∷◌}
use kolang.Token.{minus, cop_pos, cop_neg, recv, if_kw, else_kw, newline, eof}
use kolang.Token.Spelling.{same_type}
use kolang.Syntax.{Expr, line_of, unary, ternary_expr, recv_expr}
use kolang.Parser.Core.{
  Depth, no_depth, condition_copula, expected_end, about, Parser, pure, fail, asking, see, take,
  take_if, looped, out_of_fuel, ◌>>=◌, ◌>>◌, expect, match,
}
use kolang.Parser.Operators.{prec_lowest, prec_cmp, prec_pow, binds, right_level, joined}
use kolang.Parser.Items.{expression}
use kolang.Parser.Terms.{is_yield, yielded, parse_primary}

abbrev pub in_cond : Depth → Depth
in_cond d = record d { cond = suc d.cond }

-- The operators "-" and "not" of a `Unary`.
abbrev pub op_neg : Text
op_neg = 0x2D ∷ []

abbrev pub op_not : Text
op_not = 0x6E ∷ 0x6F ∷ 0x74 ∷ []

module _ {F : Type 0} where
  abbrev pub negated : Expr F → Expr F
  negated e = unary (line_of e) op_not e

  -- The copula behind a condition, which it may negate.
  unfoldable pub copula : Expr F → Parser F (Expr F)
  unfolding take_if fail
  copula e =
      take cop_pos (λ _. pure e)
        (take cop_neg (λ _. pure (negated e)) (fail (about condition_copula [])))

  -- The negation behind an expression, outside of a condition.
  unfoldable pub negation : Depth → Expr F → Parser F (Expr F)
  negation d left =
      take_if (λ t. (d.cond == 0) && same_type cop_neg t) (λ _. pure (negated left)) (pure left)

module _ {F : Type 0} (parse_float : Text → Option F) (again : Depth → ℕ → Parser F (Expr F))
    (d : Depth) where
  -- `parsePrefix`.
  unfoldable pub parse_prefix : Parser F (Expr F)
  unfolding expression parse_primary
  parse_prefix =
      take_if (λ t. is_yield t && ltb 0 d.paren)
        (λ tk. do e ← expression again d; pure (yielded tk e))
        (take minus (λ tk. do e ← again d prec_pow; pure (unary tk.line op_neg e))
          (take cop_neg (λ tk. do e ← again d prec_cmp; pure (unary tk.line op_not e))
            (take recv (λ tk. do e ← parse_primary parse_float again d; pure (recv_expr tk.line e))
              (parse_primary parse_float again d))))

module _ {F : Type 0} (again : Depth → ℕ → Parser F (Expr F)) (d : Depth) where
  -- The loop on the binary operators that bind at a level.
  unfoldable pub operators : ℕ → ℕ → Expr F → Parser F (Expr F)
  unfolding binds right_level joined
  operators min zero left = out_of_fuel
  operators min (suc n) left =
      take_if (binds min)
        (λ tk. do
          right ← again d (right_level tk.type)
          operators min n (joined tk.type left right))
        (pure left)

  unfoldable pub ternary : Expr F → Parser F (Expr F)
  unfolding expression copula
  ternary left =
      take_if (λ t. (d.comp == 0) && same_type if_kw t)
        (λ _. do
          c ← expression again (in_cond d)
          cond ← copula c
          expect else_kw
          other ← expression again d
          pure (ternary_expr (line_of left) cond left other))
        (pure left)

module _ {F : Type 0} (parse_float : Text → Option F) where
  -- `parseBinary`, on fuel.
  unfoldable pub parse_binary : ℕ → Depth → ℕ → Parser F (Expr F)
  unfolding parse_prefix operators negation ternary
  parse_binary zero d min = out_of_fuel
  parse_binary (suc n) d min = do
    first ← parse_prefix parse_float (parse_binary n) d
    merged ← looped λ k. operators (parse_binary n) d min k first
    e ← negation d merged
    ternary (parse_binary n) d e

  -- `parseBinary` with the fuel that it needs, and `parseExpression`.
  unfoldable pub binary : Depth → ℕ → Parser F (Expr F)
  unfolding parse_binary
  binary d min = looped λ n. parse_binary n d min

  unfoldable pub parse_expression : Depth → Parser F (Expr F)
  unfolding binary
  parse_expression d = binary d prec_lowest

  -- `ParseSingleExpr`, of the tokens that `Lex` gives.
  unfoldable pub parse_single_expr : Parser F (Expr F)
  unfolding parse_expression
  parse_single_expr = do
    e ← parse_expression no_depth
    match newline
    see eof (pure e) (asking λ tk. fail (about expected_end tk.literal))
