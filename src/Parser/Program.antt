-- ===== src/Parser/Program.antt =====
-- internal/parser/parser.go: statements and whole programs.
use kolang.Prelude.{ℕ, zero, suc, List, [], ◌∷◌, Option, none, some, ◌||◌, Text}
use kolang.Token.{
  Token, def, if_kw, while, for, with, from_kw, break, continue, pass, class, interf, try, finally,
  raise, yield, yieldfrom, go, global, nonlocal, decor, newline, dedent, eof, ident, sep,
}
use kolang.Token.Spelling.{same_type}
use kolang.Syntax.{
  Expr, Stmt, Stmts, no_stmts, break_stmt, continue_stmt, go_stmt, global_stmt, nonlocal_stmt,
}
use kolang.Parser.Core.{
  Depth, no_depth, outside_try, bare_yield, about, Parser, Result, stuck, pure, fail_at, asking,
  see, see_if, take, take_if, looped, out_of_fuel, ◌>>=◌, ◌>>◌, match, expect,
}
use kolang.Lexer.Strconv.{Strconv}
use kolang.Lexer.Run.{lex}
use kolang.Parser.Items.{expression}
use kolang.Parser.Expressions.{binary, parse_single_expr}
use kolang.Parser.Signatures.{parse_decorator}
use kolang.Parser.Simple.{parse_expr_statement}
use kolang.Parser.Blocks.{parse_def, parse_class_def, parse_interface_def, with_stmt_first}
use kolang.Parser.Compound.{
  parse_if, parse_while, parse_for, parse_with, parse_from_import, parse_try,
}

module _ {F : Type 0} where
  unfoldable pub names_loop : ℕ → Parser F (List Text)
  unfolding expect
  names_loop zero = out_of_fuel
  names_loop (suc n) = do
    nm ← expect ident
    take sep (λ _. do rest ← names_loop n; pure (nm.literal ∷ rest)) (pure (nm.literal ∷ []))

  abbrev pub whole : Parser F (Stmt F) → Parser F (Option (Stmt F))
  whole m = do s ← m; pure (some s)

module _ {F : Type 0} (again : Depth → ℕ → Parser F (Expr F)) where
  -- The keywords of `parseStatement` that hold no block.
  unfoldable pub simple_keyword : Parser F (Option (Stmt F))
  unfolding expression names_loop parse_decorator parse_expr_statement
  simple_keyword =
      see_if (λ t. same_type finally t || same_type raise t)
        (asking λ tk. fail_at tk.line (about outside_try tk.literal))
        (see_if (λ t. same_type yield t || same_type yieldfrom t)
          (asking λ tk. fail_at tk.line (about bare_yield tk.literal))
          (take go (λ tk. do e ← expression again no_depth; pure (some (go_stmt tk.line e)))
            (take global
              (λ tk. do names ← looped names_loop; pure (some (global_stmt tk.line names)))
              (take nonlocal
                (λ tk. do names ← looped names_loop; pure (some (nonlocal_stmt tk.line names)))
                (take decor (λ tk. do parse_decorator again tk; pure none)
                  (take newline (λ _. pure none) (whole (parse_expr_statement again))))))))

module _ {F : Type 0} (again : Depth → ℕ → Parser F (Expr F))
    (item : Parser F (Option (Stmt F))) where
  -- `parseStatement`, whose inner statements are `item`.
  unfoldable pub statement_of : Parser F (Option (Stmt F))
  unfolding simple_keyword parse_def parse_if parse_while parse_for parse_with parse_from_import
      parse_class_def parse_interface_def parse_try
  statement_of =
      take def (λ tk. whole (parse_def again item tk))
        (take if_kw (λ tk. whole (parse_if again item tk))
          (take while (λ tk. whole (parse_while again item tk))
            (take for (λ tk. whole (parse_for again item tk))
              (take with (λ tk. whole (parse_with again item tk))
                (take from_kw (λ tk. whole (parse_from_import tk))
                  (take break (λ tk. pure (some (break_stmt tk.line)))
                    (take continue (λ tk. pure (some (continue_stmt tk.line)))
                      (take pass (λ _. pure none)
                        (take class (λ tk. whole (parse_class_def again item tk))
                          (take interf (λ tk. whole (parse_interface_def again tk))
                            (take try (λ tk. whole (parse_try again item tk))
                              (simple_keyword again))))))))))))

module _ {F : Type 0} (again : Depth → ℕ → Parser F (Expr F)) where
  -- `parseStatement`, on fuel.
  unfoldable pub parse_statement : ℕ → Parser F (Option (Stmt F))
  unfolding statement_of
  parse_statement zero = out_of_fuel
  parse_statement (suc n) = statement_of again (parse_statement n)

  -- `parseProgram`.
  unfoldable pub program_loop : ℕ → Parser F (Stmts F)
  unfolding parse_statement match
  program_loop zero = out_of_fuel
  program_loop (suc n) = see eof (pure no_stmts) (
      take_if (λ t. same_type newline t || same_type dedent t) (λ _. program_loop n)
        do
          s ← looped parse_statement
          match newline
          rest ← program_loop n
          pure (with_stmt_first s rest))

module _ {F : Type 0} where
  -- `New`, on the tokens that the scanner gives.
  unfoldable pub parse_lexed : {A : Type 0} → Parser F A → Option (List Token) → Result F A
  parse_lexed m none = stuck
  parse_lexed m (some ts) = m (record { toks = ts; pending = [] })

module _ {F : Type 0} (parse_float : Text → Option F) where
  unfoldable pub parse_program : Parser F (Stmts F)
  unfolding program_loop binary
  parse_program = looped (program_loop (binary parse_float))

  -- `ParseProgram` and `ParseSingleExpr`.
  unfoldable pub parse_program_text : Strconv → Text → Result F (Stmts F)
  unfolding parse_lexed parse_program lex
  parse_program_text conv src = parse_lexed parse_program (lex conv src)

  unfoldable pub parse_expr_text : Strconv → Text → Result F (Expr F)
  unfolding parse_lexed parse_single_expr lex
  parse_expr_text conv src = parse_lexed (parse_single_expr parse_float) (lex conv src)
