-- ===== src/Parser/Blocks.antt =====
-- internal/parser/parser.go: blocks, definitions, classes and interfaces. `item` is `parseStatement`.
use kolang.Prelude.{
  ℕ, zero, suc, List, [], ◌∷◌, Option, none, some, Bool, false, ◌&&◌, ◌||◌, Text, text_eq,
}
use kolang.Token.{
  Token, TokenType, colon, newline, indent, dedent, eof, ident, lparen, pass, decor, extends,
  implements,
}
use kolang.Token.Spelling.{same_type}
use kolang.Syntax.{
  Expr, Stmt, Stmts, no_stmts, stmt, Block, block, some_block, no_block, Def, Defs, no_defs, method,
  def_stmt, class_def, interface_def,
}
use kolang.Parser.Core.{
  Depth, def_name, class_name, parent_name, implements_name, iface_name, only_methods, method_name,
  about, Parser, pure, fail, asking, take, take_ahead, see_if, looped, out_of_fuel, ◌>>=◌, ◌>>◌,
  match, expect, expect_name, take_pending,
}
use kolang.Parser.Signatures.{parse_decorator, parse_func_sig}
use kolang.Parser.Simple.{parse_expr_statement}

abbrev pub ends_block : TokenType → Bool
ends_block t = same_type dedent t || same_type eof t

module _ {F : Type 0} where
  -- `if s != nil { append }`.
  abbrev pub with_stmt_first : Option (Stmt F) → Stmts F → Stmts F
  with_stmt_first none ss = ss
  with_stmt_first (some s) ss = stmt s ss

  abbrev pub stmts_of : Block F → Stmts F
  stmts_of (block line ss) = ss

  abbrev pub block_line : Block F → ℕ
  block_line (block line ss) = line

  -- The head of an indented body, of which the line of the colon is kept.
  unfoldable pub body_head : Parser F Token
  unfolding expect
  body_head = do c ← expect colon; expect newline; expect indent; pure c

module _ {F : Type 0} (item : Parser F (Option (Stmt F))) where
  unfoldable pub block_loop : ℕ → Parser F (Stmts F)
  unfolding match
  block_loop zero = out_of_fuel
  block_loop (suc n) = see_if ends_block (pure no_stmts) (
      take newline (λ _. block_loop n)
        do s ← item; match newline; rest ← block_loop n; pure (with_stmt_first s rest))

  -- `parseBlock`, and `parseClassBlock` with another item.
  unfoldable pub parse_block : Parser F (Block F)
  unfolding body_head block_loop expect
  parse_block = do c ← body_head; ss ← looped block_loop; expect dedent; pure (block c.line ss)

module _ {F : Type 0} (again : Depth → ℕ → Parser F (Expr F))
    (item : Parser F (Option (Stmt F))) where
  -- `parseDef`, behind its keyword.
  unfoldable pub parse_def : Token → Parser F (Stmt F)
  unfolding parse_func_sig parse_block
  parse_def tk = do
    name ← expect_name (same_type ident) def_name
    sig ← parse_func_sig again
    decs ← take_pending
    body ← parse_block item
    pure (def_stmt (Def.def tk.line name.literal sig.0 (some_block body) decs sig.1))

  -- The constructor of a class, behind its name.
  unfoldable pub constructor : Token → Parser F (Stmt F)
  unfolding parse_func_sig parse_block
  constructor tk = do
    sig ← parse_func_sig again
    body ← parse_block item
    pure (def_stmt (Def.def tk.line tk.literal sig.0 (some_block body) [] sig.1))

-- The name of a constructor, and whether it stands before a parenthesis.
abbrev pub constructor_name : Text
constructor_name = 0x633 ∷ 0x627 ∷ 0x62E ∷ 0x62A ∷ []

unfoldable pub is_constructor : List Token → Bool
unfolding text_eq
is_constructor (t ∷ u ∷ ts) =
    same_type ident t.type && text_eq t.literal constructor_name && same_type lparen u.type
is_constructor _ = false

module _ {F : Type 0} (again : Depth → ℕ → Parser F (Expr F))
    (item : Parser F (Option (Stmt F))) where
  -- `parseClassStatement`.
  unfoldable pub class_statement : Parser F (Option (Stmt F))
  unfolding parse_def parse_decorator is_constructor constructor parse_expr_statement
  class_statement =
      take pass (λ _. pure none)
        (take TokenType.def (λ tk. do s ← parse_def again item tk; pure (some s))
          (take decor (λ tk. do parse_decorator again tk; pure none)
            (take_ahead is_constructor (λ tk. do s ← constructor again item tk; pure (some s))
              do s ← parse_expr_statement again; pure (some s))))

  -- The parent and the interface, of which the last one counts.
  unfoldable pub heritage : ℕ → Text → Text → Parser F (Text × Text)
  heritage zero parent iface = out_of_fuel
  heritage (suc n) parent iface =
      take extends
        (λ _. do name ← expect_name (same_type ident) parent_name; heritage n name.literal iface)
        (take implements
          (λ _. do
            name ← expect_name (same_type ident) implements_name
            heritage n parent name.literal)
          (pure (parent, iface)))

  -- `parseClassDef`, behind its keyword.
  unfoldable pub parse_class_def : Token → Parser F (Stmt F)
  unfolding heritage class_statement parse_block
  parse_class_def tk = do
    name ← expect_name (same_type ident) class_name
    names ← looped λ n. heritage n [] []
    body ← parse_block class_statement
    pure (class_def tk.line name.literal names.0 names.1 (stmts_of body))

module _ {F : Type 0} (again : Depth → ℕ → Parser F (Expr F)) where
  unfoldable pub methods_loop : ℕ → Parser F (Defs F)
  unfolding parse_func_sig match
  methods_loop zero = out_of_fuel
  methods_loop (suc n) = see_if ends_block (pure no_defs) (
      take newline (λ _. methods_loop n)
        (take TokenType.def
          (λ _. do
            name ← expect_name (same_type ident) method_name
            sig ← parse_func_sig again
            match newline
            rest ← methods_loop n
            pure (method (Def.def name.line name.literal sig.0 no_block [] sig.1) rest))
          (asking λ tk. fail (about only_methods tk.literal))))

  -- `parseInterfaceDef`, behind its keyword.
  unfoldable pub parse_interface_def : Token → Parser F (Stmt F)
  unfolding body_head methods_loop expect
  parse_interface_def tk = do
    name ← expect_name (same_type ident) iface_name
    body_head
    ms ← looped methods_loop
    expect dedent
    pure (interface_def tk.line name.literal ms)
