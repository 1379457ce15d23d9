-- ===== src/Parser/Progress/Program.antt =====
-- internal/parser/parser.go: a program, an expression and a statement are parsed on any tokens.
use kolang.Prelude.{ℕ, zero, suc, Text, Option}
use kolang.Syntax.{Expr, Stmt}
use kolang.Parser.Core.{Depth, Parser}
use kolang.Parser.Expressions.{parse_expression}
use kolang.Parser.Program.{
  names_loop, simple_keyword, statement_of, parse_statement, program_loop, parse_program,
}
use kolang.Token.Spelling.{same_type}
use kolang.Parser.Progress.{Good, Eats, Good-zero, Eats-zero, Good-looped, Eats-looped}
use kolang.Parser.Progress.Rules.{Feeds, Feeds-weaken, Feeds-pred, kept, taking, eating}
use kolang.Parser.Progress.Signatures.{Good-parse_decorator, Eats-parse_expr_statement}
use kolang.Parser.Progress.Terms.{Feeds-binary}
use kolang.Parser.Progress.Statements.{
  Good-parse_def, Good-parse_class_def, Good-parse_interface_def, Good-parse_if, Good-parse_while,
  Good-parse_from_import, Good-parse_for, Good-parse_with, Good-parse_try,
}

module _ (F : Type 0) where
  Good-names_loop : (n : ℕ) → Good n (names_loop {F = F} n)
  unfolding names_loop same_type
  Good-names_loop zero = Good-zero _
  Good-names_loop (suc n) = search (taking, kept, Good-names_loop n) depth 20

module _ {F : Type 0} (again : Depth → ℕ → Parser F (Expr F)) where
  Eats-simple_keyword : (n : ℕ) → Feeds (suc n) again → Eats (suc n) (simple_keyword again)
  unfolding simple_keyword same_type
  Eats-simple_keyword n h =
      let fewer = Feeds-pred n again h in
      search
        (
          eating, kept, Good-looped, Good-names_loop, Good-parse_decorator,
          Eats-parse_expr_statement,
        )
        depth 30

module _ {F : Type 0} (again : Depth → ℕ → Parser F (Expr F))
    (item : Parser F (Option (Stmt F))) where
  Eats-statement_of :
      (n : ℕ) → Feeds (suc n) again → Eats n item → Eats (suc n) (statement_of again item)
  unfolding statement_of same_type
  Eats-statement_of n h i =
      let fewer = Feeds-pred n again h in
      search
        (
          eating, kept, Eats-simple_keyword, Good-parse_def, Good-parse_class_def,
          Good-parse_interface_def, Good-parse_if, Good-parse_while, Good-parse_from_import,
          Good-parse_for, Good-parse_with, Good-parse_try,
        )
        depth 30 fits 3000

module _ {F : Type 0} (again : Depth → ℕ → Parser F (Expr F)) where
  Eats-parse_statement : (n : ℕ) → Feeds n again → Eats n (parse_statement again n)
  unfolding parse_statement
  Eats-parse_statement zero h = Eats-zero _
  Eats-parse_statement (suc n) h =
      Eats-statement_of again (parse_statement again n) n h
        (Eats-parse_statement n (Feeds-pred n again h))

  Good-program_loop : (n : ℕ) → Feeds n again → Good n (program_loop again n)
  unfolding program_loop same_type
  Good-program_loop zero h = Good-zero _
  Good-program_loop (suc n) h =
      let fewer = Feeds-pred n again h in
      search
        (taking, kept, Eats-looped, Eats-parse_statement, Feeds-weaken, Good-program_loop n fewer)
        depth 20

module _ {F : Type 0} (parse_float : Text → Option F) where
  pub Good-parse_program : (n : ℕ) → Good n (parse_program parse_float)
  unfolding parse_program
  Good-parse_program n = search (Good-looped, Good-program_loop, Feeds-binary) depth 20

  pub Eats-parse_expression : (n : ℕ) (d : Depth) → Eats n (parse_expression parse_float d)
  unfolding parse_expression Feeds
  Eats-parse_expression n d = Feeds-binary parse_float n d _
