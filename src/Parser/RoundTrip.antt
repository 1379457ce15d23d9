-- ===== src/Parser/RoundTrip.antt =====
-- internal/parser/parser.go: operator expressions over names, how they are written with no more
-- parentheses than needed, and the tree that stands for one.
pub mod Steps
pub mod Trees
use kolang.Prelude.{
  ℕ, zero, suc, ◌+◌, ◌≤◌, ◌<◌, ◌≡◌, refl, List, [], ◌∷◌, Bool, true, false, arith, length, leb, ap,
  ◌∙◌, some, if◌then◌else◌, if_split, Text,
}
use kolang.Prelude.Int.{pos}
use kolang.Token.{
  Token, TokenType, pipe, or_kw, and_kw, equal, less, greater, less_equal, greater_equal, in_kw,
  plus, minus, star, div, floordiv, percent, pow, lparen, rparen, ezafe, lbracket, cop_neg, if_kw,
}
use kolang.Token.Spelling.{same_type, spelling}
use kolang.Syntax.{Expr, ident, line_of, pipe_expr, binary_op}
use kolang.Parser.Core.{peek_in}
use kolang.Parser.Operators.{binops, next_level, at_least, binds, right_level, joined}
use kolang.Parser.Terms.{is_yield}

pub data LeftOp : Type 0 where
  piped or_also and_also is_equal is_less is_greater no_more no_less is_in added subtracted
        multiplied divided floored remainder :
      LeftOp

-- All operators; only the power associates to the right.
pub data Op : Type 0 where
  left : LeftOp → Op
  power : Op

abbrev pub token_of : Op → TokenType
token_of (left piped) = pipe
token_of (left or_also) = or_kw
token_of (left and_also) = and_kw
token_of (left is_equal) = equal
token_of (left is_less) = less
token_of (left is_greater) = greater
token_of (left no_more) = less_equal
token_of (left no_less) = greater_equal
token_of (left is_in) = in_kw
token_of (left added) = plus
token_of (left subtracted) = minus
token_of (left multiplied) = star
token_of (left divided) = div
token_of (left floored) = floordiv
token_of (left remainder) = percent
token_of power = pow

-- The level of an operator: a pipe is the loosest, then come disjunction, conjunction, the tests, the
-- sums, the products and the power.
abbrev pub left_level : LeftOp → ℕ
left_level piped = 2
left_level or_also = 3
left_level and_also = 4
left_level is_equal = 5
left_level is_less = 5
left_level is_greater = 5
left_level no_more = 5
left_level no_less = 5
left_level is_in = 5
left_level added = 6
left_level subtracted = 6
left_level multiplied = 7
left_level divided = 7
left_level floored = 7
left_level remainder = 7

abbrev pub level : Op → ℕ
level (left o) = left_level o
level power = 8

-- The level that an operand on the left and on the right must have to stand without parentheses.
abbrev pub on_left : Op → ℕ
on_left (left o) = left_level o
on_left power = 9

abbrev pub on_right : Op → ℕ
on_right (left o) = suc (left_level o)
on_right power = 8

pub data Tree : Type 0 where
  leaf : Text → Tree
  node : Op → Tree → Tree → Tree

abbrev pub fits : ℕ → Tree → Bool
fits p (leaf x) = true
fits p (node o l r) = leb p (level o)

-- The tokens of a tree before others, all of them on one line; with parentheses where its level is
-- below `p`.
abbrev pub on_line : ℕ → TokenType → Text → Token
on_line line type literal = record { type = type; literal = literal; line = line; col = pos 1 }

unfoldable pub grouped : ℕ → Bool → (List Token → List Token) → List Token → List Token
grouped line true body rest = body rest
grouped line false body rest = on_line line lparen [] ∷ body (on_line line rparen [] ∷ rest)

unfoldable pub bare : ℕ → Tree → List Token → List Token
unfolding grouped
bare line (leaf x) rest = on_line line TokenType.ident x ∷ rest
bare line (node o l r) rest =
    grouped line (fits (on_left o) l) (bare line l)
      (on_line line (token_of o) [] ∷ grouped line (fits (on_right o) r) (bare line r) rest)

unfoldable pub written : ℕ → ℕ → Tree → List Token → List Token
unfolding grouped bare
written line p t rest = grouped line (fits p t) (bare line t) rest

-- The tree of an operator: a pipe has a node of its own, and any other operator is named as its token
-- is spelled.
unfoldable pub combined : {F : Type 0} → ℕ → Op → Expr F → Expr F → Expr F
combined line power a b = binary_op line (spelling pow) a b
combined line (left piped) a b = pipe_expr line a b
combined line (left or_also) a b = binary_op line (spelling (token_of (left or_also))) a b
combined line (left and_also) a b = binary_op line (spelling (token_of (left and_also))) a b
combined line (left is_equal) a b = binary_op line (spelling (token_of (left is_equal))) a b
combined line (left is_less) a b = binary_op line (spelling (token_of (left is_less))) a b
combined line (left is_greater) a b = binary_op line (spelling (token_of (left is_greater))) a b
combined line (left no_more) a b = binary_op line (spelling (token_of (left no_more))) a b
combined line (left no_less) a b = binary_op line (spelling (token_of (left no_less))) a b
combined line (left is_in) a b = binary_op line (spelling (token_of (left is_in))) a b
combined line (left added) a b = binary_op line (spelling (token_of (left added))) a b
combined line (left subtracted) a b = binary_op line (spelling (token_of (left subtracted))) a b
combined line (left multiplied) a b = binary_op line (spelling (token_of (left multiplied))) a b
combined line (left divided) a b = binary_op line (spelling (token_of (left divided))) a b
combined line (left floored) a b = binary_op line (spelling (token_of (left floored))) a b
combined line (left remainder) a b = binary_op line (spelling (token_of (left remainder))) a b

unfoldable pub tree_of : {F : Type 0} → ℕ → Tree → Expr F
unfolding combined
tree_of line (leaf x) = ident line x
tree_of line (node o l r) = combined line o (tree_of line l) (tree_of line r)

line_of-combined :
    {F : Type 0} (line : ℕ) (o : Op) (a b : Expr F) → line_of (combined line o a b) ≡ line
unfolding line_of combined
line_of-combined line power a b = refl
line_of-combined line (left piped) a b = refl
line_of-combined line (left or_also) a b = refl
line_of-combined line (left and_also) a b = refl
line_of-combined line (left is_equal) a b = refl
line_of-combined line (left is_less) a b = refl
line_of-combined line (left is_greater) a b = refl
line_of-combined line (left no_more) a b = refl
line_of-combined line (left no_less) a b = refl
line_of-combined line (left is_in) a b = refl
line_of-combined line (left added) a b = refl
line_of-combined line (left subtracted) a b = refl
line_of-combined line (left multiplied) a b = refl
line_of-combined line (left divided) a b = refl
line_of-combined line (left floored) a b = refl
line_of-combined line (left remainder) a b = refl

line_of-tree_of : (F : Type 0) (line : ℕ) (t : Tree) → line_of (tree_of {F = F} line t) ≡ line
unfolding line_of tree_of
line_of-tree_of F line (leaf x) = refl
line_of-tree_of F line (node o l r) = line_of-combined line o (tree_of line l) (tree_of line r)

joined-token_of :
    {F : Type 0} (o : Op) (a b : Expr F) → joined (token_of o) a b ≡ combined (line_of a) o a b
unfolding joined combined
joined-token_of power a b = refl
joined-token_of (left piped) a b = refl
joined-token_of (left or_also) a b = refl
joined-token_of (left and_also) a b = refl
joined-token_of (left is_equal) a b = refl
joined-token_of (left is_less) a b = refl
joined-token_of (left is_greater) a b = refl
joined-token_of (left no_more) a b = refl
joined-token_of (left no_less) a b = refl
joined-token_of (left is_in) a b = refl
joined-token_of (left added) a b = refl
joined-token_of (left subtracted) a b = refl
joined-token_of (left multiplied) a b = refl
joined-token_of (left divided) a b = refl
joined-token_of (left floored) a b = refl
joined-token_of (left remainder) a b = refl

pub joined-tree_of :
    {F : Type 0} (line : ℕ) (o : Op) (l r : Tree)
    → joined (token_of o) (tree_of {F = F} line l) (tree_of line r) ≡ tree_of line (node o l r)
unfolding tree_of
joined-tree_of line o l r =
    joined-token_of o (tree_of line l) (tree_of line r)
    ∙ ap (λ k. combined k o (tree_of line l) (tree_of line r)) (line_of-tree_of _ line l)

-- A token behind which no postfix form, negation or conditional continues.
pub record Quiet (u : TokenType) : Type 0 where
  pub yields : is_yield u ≡ false
  pub ezafes : same_type ezafe u ≡ false
  pub calls : same_type lparen u ≡ false
  pub subscripts : same_type lbracket u ≡ false
  pub negates : same_type cop_neg u ≡ false
  pub asks : same_type if_kw u ≡ false

-- A token that is no operator which the operand on the right of an operator of level `p` would take.
abbrev pub Stops : ℕ → TokenType → Type 0
Stops p u = (o : Op) → p ≤ level o → binds (on_right o) u ≡ false

pub Stops_mono : (p q : ℕ) (u : TokenType) → p ≤ q → Stops p u → Stops q u
Stops_mono p q u le h o at = h o (omega arith)

binops-left : (o : LeftOp) → binops (token_of (left o)) ≡ some (left_level o, false)
unfolding binops
binops-left piped = refl
binops-left or_also = refl
binops-left and_also = refl
binops-left is_equal = refl
binops-left is_less = refl
binops-left is_greater = refl
binops-left no_more = refl
binops-left no_less = refl
binops-left is_in = refl
binops-left added = refl
binops-left subtracted = refl
binops-left multiplied = refl
binops-left divided = refl
binops-left floored = refl
binops-left remainder = refl

plus_one : (n : ℕ) → n + 1 ≡ suc n
plus_one n = omega arith

pub right_level-token_of : (o : Op) → right_level (token_of o) ≡ on_right o
unfolding right_level
right_level-token_of power = refl
right_level-token_of (left o) = ap next_level (binops-left o) ∙ plus_one (left_level o)

pub binds-token_of : (p : ℕ) (o : Op) → binds p (token_of o) ≡ leb p (level o)
unfolding binds
binds-token_of p power = refl
binds-token_of p (left o) = ap (at_least p) (binops-left o)

left_level-bound : (o : LeftOp) → left_level o ≤ 7
left_level-bound piped = omega arith
left_level-bound or_also = omega arith
left_level-bound and_also = omega arith
left_level-bound is_equal = omega arith
left_level-bound is_less = omega arith
left_level-bound is_greater = omega arith
left_level-bound no_more = omega arith
left_level-bound no_less = omega arith
left_level-bound is_in = omega arith
left_level-bound added = omega arith
left_level-bound subtracted = omega arith
left_level-bound multiplied = omega arith
left_level-bound divided = omega arith
left_level-bound floored = omega arith
left_level-bound remainder = omega arith

lt→leb : (a b : ℕ) → b < a → leb a b ≡ false
lt→leb a b lt = ground arith

-- An operator stops what stands on its left.
pub Stops-token_of : (o : Op) → Stops (on_left o) (token_of o)
Stops-token_of o o' le =
    binds-token_of (on_right o') o ∙ lt→leb (on_right o') (level o) (above o o' le)
  where
    above : (o o' : Op) → on_left o ≤ level o' → level o < on_right o'
    above (left o) (left o') le = omega arith
    above (left o) power le = omega (arith, left_level-bound o)
    above power (left o') le = absurd (omega (arith, left_level-bound o'))
    above power power le = absurd (omega arith)
