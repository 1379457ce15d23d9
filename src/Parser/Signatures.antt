-- ===== src/Parser/Signatures.antt =====
-- internal/parser/parser.go: type annotations, decorators and the signatures of functions.
use kolang.Prelude.{
  ℕ, zero, suc, ◌-◌, List, [], ◌∷◌, ◌++◌, Bool, true, false, not, ◌&&◌, ◌||◌, if◌then◌else◌, ltb,
  Text,
}
use kolang.Token.{
  Token, TokenType, ident, lparen, rparen, newline, indent, dedent, eof, sep, colon, assign, pow,
  arrow, ezafe, decor,
}
use kolang.Token.Spelling.{same_type}
use kolang.Syntax.{Expr, absent, present, no_exprs, no_kwargs, Param, DecoratorStmt}
use kolang.Parser.Core.{
  Depth, no_depth, param_name, star_name, decorator_name, decorator_def, about, Parser, pure, fail,
  see, take, take_if, see_ahead, looped, out_of_fuel, ◌>>=◌, ◌>>◌, is_name, match, expect,
  expect_name, push_decorator,
}
use kolang.Parser.Items.{expression, parse_args}

-- `strings.Join(parts, " ")`.
unfoldable pub join : List Text → Text
join [] = []
join (t ∷ []) = t
join (t ∷ u ∷ ts) = t ++ 0x20 ∷ join (u ∷ ts)

-- Whether a token belongs to an annotation that `stop` ends, inside of so many parentheses; and their
-- number behind it.
unfoldable pub annotates : TokenType → ℕ → TokenType → Bool
annotates stop depth t =
    if same_type lparen t
    then true
    else if same_type rparen t
    then ltb 0 depth
    else if same_type newline t || same_type dedent t || same_type eof t
    then false
    else if same_type stop t
    then same_type sep stop && ltb 0 depth
    else true

unfoldable pub depth_behind : ℕ → TokenType → ℕ
depth_behind depth t =
    if same_type lparen t then suc depth else if same_type rparen t then depth - 1 else depth

-- `nextIsDefOrDecor`.
unfoldable pub next_is_def_or_decor : List Token → Bool
next_is_def_or_decor [] = false
next_is_def_or_decor (t ∷ ts) =
    if same_type newline t.type || same_type indent t.type || same_type dedent t.type
    then next_is_def_or_decor ts
    else same_type TokenType.def t.type || same_type decor t.type

module _ {F : Type 0} where
  unfoldable pub annotation : TokenType → ℕ → ℕ → Parser F (List Text)
  unfolding annotates depth_behind
  annotation stop zero depth = out_of_fuel
  annotation stop (suc n) depth =
      take_if (annotates stop depth)
        (λ tk. do rest ← annotation stop n (depth_behind depth tk.type); pure (tk.literal ∷ rest))
        (pure [])

  -- `readTypeAnnUntil`.
  unfoldable pub read_type_ann : TokenType → Parser F Text
  unfolding annotation join
  read_type_ann stop = do parts ← looped λ n. annotation stop n 0; pure (join parts)

module _ {F : Type 0} (again : Depth → ℕ → Parser F (Expr F)) where
  -- `parseDecorator`, behind its keyword.
  unfoldable pub parse_decorator : Token → Parser F (DecoratorStmt F)
  unfolding parse_args next_is_def_or_decor
  parse_decorator tk = do
    name ← expect_name (same_type ident) decorator_name
    r ← see lparen (parse_args again no_depth) (pure (no_exprs, no_kwargs))
    see_ahead next_is_def_or_decor
        (push_decorator (record { line = tk.line; name = name.literal; args = r.0 }))
        (fail (about decorator_def []))

  unfoldable pub parse_param : Parser F (Param F)
  unfolding read_type_ann expression is_name
  parse_param =
      take pow
        (λ _. do
          twice ← match pow
          nm ← expect_name is_name star_name
          pure (record {
            line = nm.line;
            name = nm.literal;
            default = absent;
            ann = [];
            variadic = not twice;
            kwargs = twice;
          }))
        do
          nm ← expect_name is_name param_name
          ann ← take colon (λ _. read_type_ann sep) (pure [])
          dv ← take assign (λ _. do e ← expression again no_depth; pure (present e)) (pure absent)
          pure (record {
            line = nm.line;
            name = nm.literal;
            default = dv;
            ann = ann;
            variadic = false;
            kwargs = false;
          })

  unfoldable pub params_loop : ℕ → Parser F (List (Param F))
  unfolding parse_param
  params_loop zero = out_of_fuel
  params_loop (suc n) = do
    prm ← parse_param
    take sep (λ _. do rest ← params_loop n; pure (prm ∷ rest)) (pure (prm ∷ []))

  -- `parseFuncSig`: the parameters and the type of the result.
  unfoldable pub parse_func_sig : Parser F (List (Param F) × Text)
  unfolding params_loop read_type_ann
  parse_func_sig = do
    match ezafe
    expect lparen
    params ← see rparen (pure []) (looped params_loop)
    expect rparen
    ret ← take arrow (λ _. read_type_ann colon) (pure [])
    pure (params, ret)
