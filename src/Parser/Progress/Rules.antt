-- ===== src/Parser/Progress/Rules.antt =====
-- internal/parser/parser.go: the tokens behind `parseBinary` as its callers use it, and the rules
-- for every other function.
use kolang.Prelude.{ℕ, suc, ◌≤◌, arith}
use kolang.Syntax.{Expr}
use kolang.Parser.Operators.{prec_lowest}
use kolang.Parser.Items.{expression}
use kolang.Parser.Core.{Depth, Parser}
use kolang.Parser.Progress.{
  Good, Eats, Good-of_Eats, Eats-weaken, Good-asking, Eats-asking, Good-choose,
}
use kolang.Parser.Progress.Choices.{
  Eats-take_ahead, Eats-take_if, Good-take_if, Good-taken, Good-see_if, Eats-see_if,
  Good-take_before, Good-taken_before, Good-see_before, Good-see_ahead,
}
use kolang.Parser.Progress.Actions.{
  Good-bind, Eats-bind, Good-eaten, Good-pure, Eats-fail, Eats-fail_at, Good-next, Good-match,
  Good-lenient, Good-attempt, Eats-expect_name, Eats-expect, Good-fail, Good-expect_name,
  Good-expect, Good-push_decorator, Good-take_pending,
}

module _ {F : Type 0} where
  unfoldable pub Feeds : ℕ → (Depth → ℕ → Parser F (Expr F)) → Type 0
  unfolding Eats
  Feeds n again = (d : Depth) (p : ℕ) → Eats n (again d p)

  pub Feeds-weaken :
      (k n : ℕ) (again : Depth → ℕ → Parser F (Expr F)) → k ≤ n → Feeds n again → Feeds k again
  unfolding Feeds
  Feeds-weaken k n again le h d p = Eats-weaken k n (again d p) le (h d p)

  pub Feeds-pred :
      (n : ℕ) (again : Depth → ℕ → Parser F (Expr F)) → Feeds (suc n) again → Feeds n again
  Feeds-pred n again h = Feeds-weaken n (suc n) again (omega arith) h

  pub Good-again :
      (n : ℕ) (again : Depth → ℕ → Parser F (Expr F)) (d : Depth) (p : ℕ)
      → Feeds n again
      → Good n (again d p)
  unfolding Feeds
  Good-again n again d p h = Good-of_Eats n _ (h d p)

  pub Eats-expression :
      (n : ℕ) (again : Depth → ℕ → Parser F (Expr F)) (d : Depth)
      → Feeds n again
      → Eats n (expression again d)
  unfolding Feeds expression
  Eats-expression n again d h = h d prec_lowest

  pub Good-expression :
      (n : ℕ) (again : Depth → ℕ → Parser F (Expr F)) (d : Depth)
      → Feeds n again
      → Good n (expression again d)
  Good-expression n again d h = Good-of_Eats n _ (Eats-expression n again d h)

-- Where the bound stays as it is.
pub ruleset kept = (
  Good-pure, Good-next, Good-match, Good-lenient, Good-attempt, Good-bind, Good-taken,
  Good-taken_before, Good-see_if, Good-see_ahead, Good-asking, Good-choose, Good-fail, Good-expect,
  Good-expect_name, Good-push_decorator, Good-take_pending, Good-expression,
)

-- Where a token is taken, behind which the bound is one less; and where an action eats a token.
pub ruleset taking = (Good-take_if, Good-take_before, Good-see_before, Good-eaten)

pub ruleset eating = (
  Eats-take_if, Eats-take_ahead, Eats-see_if, Eats-asking, Eats-fail, Eats-fail_at, Eats-expect,
  Eats-expect_name, Eats-bind,
)
