-- ===== src/Tests/Parsing.antt =====
-- The parser on short inputs.
use kolang.Prelude.{ℕ, [], ◌∷◌, List, Option, none, ◌≡◌, refl, Text, false, length, ◌<◌}
use kolang.Prelude.Int.{pos}
use kolang.Token.{Token, TokenType, int, plus, star, newline, eof}
use kolang.Token.Spelling.{same_type}
use kolang.Syntax.{Expr, number_lit, int_val, binary_op, line_of}
use kolang.Parser.Core.{State, done, no_depth, looped, ◌>>=◌, see_if, match}
use kolang.Parser.Expressions.{binary, parse_expression, parse_single_expr}
use kolang.Parser.Program.{parse_program_text, parse_expr_text}
use kolang.Parser.Outcome.{
  Ended, AtEnd, parse_program_text_ends, parse_expr_text_ends, parse_expression_ends,
}
use kolang.Parser.Operators.{binds}
use kolang.Parser.RoundTrip.{
  left, power, added, subtracted, multiplied, on_right, Tree, leaf, node, written, tree_of, Quiet,
}
use kolang.Parser.RoundTrip.Steps.{at}
use kolang.Parser.RoundTrip.Trees.{binary-written}
use kolang.Lexer.Strconv.{Strconv}

abbrev no_float : Text → Option ℕ
no_float t = none

abbrev no_conv : Strconv
no_conv = record { format_float = λ t. none; quote = λ t. t }

abbrev tok : TokenType → Text → Token
tok t l = record { type = t; literal = l; line = 1; col = pos 1 }

abbrev start : List Token → State ℕ
start ts = record { toks = ts; pending = [] }

abbrev sum_product : List Token
sum_product =
    tok int (0x31 ∷ [])
    ∷ tok plus []
    ∷ tok int (0x32 ∷ [])
    ∷ tok star []
    ∷ tok int (0x33 ∷ [])
    ∷ tok newline []
    ∷ tok eof []
    ∷ []

abbrev number : ℕ → Expr ℕ
number n = number_lit 1 (int_val (pos n))

parse_single_expr_precedence :
    parse_single_expr no_float (start sum_product)
    ≡ done
        (binary_op 1 (0x2B ∷ []) (number 1) (binary_op 1 (0xD7 ∷ []) (number 2) (number 3)))
        (start (tok eof [] ∷ []))
unfolding parse_single_expr ◌>>=◌ looped same_type see_if match line_of
parse_single_expr_precedence = refl

-- 1+2, and a line with a condition.
abbrev short_text : Text
short_text = 0x31 ∷ 0x2B ∷ 0x32 ∷ 0x0A ∷ []

parse_program_text_ends_example :
    Ended (λ _ t. AtEnd t) (parse_program_text no_float no_conv short_text)
parse_program_text_ends_example = parse_program_text_ends no_float no_conv short_text

parse_expr_text_ends_example : Ended (λ _ t. AtEnd t) (parse_expr_text no_float no_conv short_text)
parse_expr_text_ends_example = parse_expr_text_ends no_float no_conv short_text

parse_expression_ends_example :
    Ended
      (λ _ t. length t.toks < length sum_product)
      (parse_expression no_float no_depth (start sum_product))
parse_expression_ends_example = parse_expression_ends no_float no_depth (start sum_product)

-- The names a, b and c in (a + b) * c ** a - b, which is written with one pair of parentheses.
abbrev name_a : Tree
name_a = leaf (0x61 ∷ [])

abbrev name_b : Tree
name_b = leaf (0x62 ∷ [])

abbrev name_c : Tree
name_c = leaf (0x63 ∷ [])

abbrev operator_tree : Tree
operator_tree =
    node (left subtracted)
      (node (left multiplied) (node (left added) name_a name_b) (node power name_c name_a)) name_b

abbrev the_end : List Token
the_end = tok eof [] ∷ []

eof-Quiet : Quiet eof
unfolding same_type
eof-Quiet = record {
  yields = refl;
  ezafes = refl;
  calls = refl;
  subscripts = refl;
  negates = refl;
  asks = refl;
}

eof-binds : (p : ℕ) → binds p eof ≡ false
unfolding binds
eof-binds p = refl

binary-written_example :
    binary no_float no_depth 0 (at [] (written 1 0 operator_tree the_end))
    ≡ done (tree_of 1 operator_tree) (at [] the_end)
binary-written_example =
    binary-written no_float 1 [] operator_tree no_depth 0 the_end (eof-binds 0)
      (λ o le. eof-binds (on_right o)) eof-Quiet

length-written : length (written 1 0 operator_tree []) ≡ 11
unfolding written
length-written = refl
