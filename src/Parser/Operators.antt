-- ===== src/Parser/Operators.antt =====
-- internal/parser/parser.go: the table `binops`, and the tree of a binary operator.
use kolang.Prelude.{ℕ, ◌+◌, Bool, true, false, Option, none, some, leb}
use kolang.Token.{
  TokenType, pipe, or_kw, and_kw, equal, less, greater, less_equal, greater_equal, in_kw, plus,
  minus, star, div, floordiv, percent, pow,
}
use kolang.Token.Spelling.{spelling}
use kolang.Syntax.{Expr, line_of, pipe_expr, binary_op}

-- The levels, from the loosest to the tightest: the constants skip 1, as `iota` has moved on.
abbrev pub prec_lowest : ℕ
prec_lowest = 0

abbrev pub prec_pipe : ℕ
prec_pipe = 2

abbrev pub prec_or : ℕ
prec_or = 3

abbrev pub prec_and : ℕ
prec_and = 4

abbrev pub prec_cmp : ℕ
prec_cmp = 5

abbrev pub prec_add : ℕ
prec_add = 6

abbrev pub prec_mul : ℕ
prec_mul = 7

abbrev pub prec_pow : ℕ
prec_pow = 8

-- `binops`: the level, and whether the operator associates to the right.
unfoldable pub binops : TokenType → Option (ℕ × Bool)
binops pipe = some (prec_pipe, false)
binops or_kw = some (prec_or, false)
binops and_kw = some (prec_and, false)
binops equal = some (prec_cmp, false)
binops less = some (prec_cmp, false)
binops greater = some (prec_cmp, false)
binops less_equal = some (prec_cmp, false)
binops greater_equal = some (prec_cmp, false)
binops in_kw = some (prec_cmp, false)
binops plus = some (prec_add, false)
binops minus = some (prec_add, false)
binops star = some (prec_mul, false)
binops div = some (prec_mul, false)
binops floordiv = some (prec_mul, false)
binops percent = some (prec_mul, false)
binops pow = some (prec_pow, true)
binops _ = none

abbrev pub at_least : ℕ → Option (ℕ × Bool) → Bool
at_least min none = false
at_least min (some info) = leb min info.0

-- `ok && info.prec >= minPrec`. The test for the pipe operator is the same one at its own level.
unfoldable pub binds : ℕ → TokenType → Bool
unfolding binops
binds min t = at_least min (binops t)

abbrev pub next_level : Option (ℕ × Bool) → ℕ
next_level none = prec_lowest
next_level (some (prec, true)) = prec
next_level (some (prec, false)) = prec + 1

-- `nextPrec`.
unfoldable pub right_level : TokenType → ℕ
unfolding binops
right_level t = next_level (binops t)

module _ {F : Type 0} where
  unfoldable pub joined : TokenType → Expr F → Expr F → Expr F
  joined pipe left right = pipe_expr (line_of left) left right
  joined op left right = binary_op (line_of left) (spelling op) left right
