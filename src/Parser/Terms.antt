-- ===== src/Parser/Terms.antt =====
-- internal/parser/parser.go: the atoms, the receivers behind an ezafe and the postfix forms.
use kolang.Prelude.{
  ℕ, zero, suc, Option, none, some, true, false, Bool, ◌&&◌, ◌||◌, if◌then◌else◌, ltb, Text,
  text_eq,
}
use kolang.Prelude.Int.{pos}
use kolang.Token.{
  Token, TokenType, int, float, string, true_kw, false_kw, none_kw, self, super, print, closed,
  close, channel, lparen, lbracket, lbrace, ezafe, yield, yieldfrom,
}
use kolang.Token.Spelling.{spelling, same_type}
use kolang.Syntax.{
  Expr, line_of, absent, present, Exprs, no_exprs, expr, no_kwargs, int_val, f_val, number_lit,
  str_lit, bool_lit, none_lit, ident, call, member_access, method_call, channel_lit, yield_expr,
  yield_from_expr,
}
use kolang.Lexer.Strconv.{ParsedInt, value, bad_syntax, bad_range, parse_int}
use kolang.Parser.Core.{
  Depth, bad_int, bad_float, unexpected_expr, about, Parser, pure, fail, asking, see, take, take_if,
  choose, looped, out_of_fuel, ◌>>=◌,
}
use kolang.Parser.Items.{parse_args, subscript, parse_paren, parse_list_lit, parse_dict_set_lit}

module _ {F : Type 0} where
  -- `INT` and `FLOAT`; an error has the line of the token behind it.
  unfoldable pub int_of : Token → ParsedInt → Parser F (Expr F)
  int_of tk (value n) = pure (number_lit tk.line (int_val (pos n)))
  int_of tk bad_syntax = fail (about bad_int tk.literal)
  int_of tk bad_range = fail (about bad_int tk.literal)

  unfoldable pub float_of : Token → Option F → Parser F (Expr F)
  float_of tk (some v) = pure (number_lit tk.line (f_val v))
  float_of tk none = fail (about bad_float tk.literal)

  -- `parseChannelLit`, of the arguments: the type and the size. One argument is the size if it is a
  -- number, and of three or more none is kept.
  unfoldable pub channel_of : ℕ → Exprs F → Expr F
  channel_of line (expr (number_lit l n) no_exprs) =
      channel_lit line absent (present (number_lit l n))
  channel_of line (expr e no_exprs) = channel_lit line (present e) absent
  channel_of line (expr e (expr f no_exprs)) = channel_lit line (present e) (present f)
  channel_of line _ = channel_lit line absent absent

  -- An identifier whose name is the keyword's.
  abbrev pub word : Token → Parser F (Expr F)
  word tk = pure (ident tk.line (spelling tk.type))

  -- `id, ok := e.(*ast.Ident); ok && id.Name == "..."`, of the name that `SUPER` has.
  unfoldable pub is_super : Expr F → Bool
  unfolding text_eq
  is_super (ident _ name) = text_eq name (spelling super)
  is_super _ = false

  abbrev pub yielded : Token → Expr F → Expr F
  yielded tk e =
      if same_type yieldfrom tk.type then yield_from_expr tk.line e else yield_expr tk.line e

abbrev pub is_yield : TokenType → Bool
is_yield t = same_type yield t || same_type yieldfrom t

module _ {F : Type 0} (again : Depth → ℕ → Parser F (Expr F)) (d : Depth) where
  unfoldable pub parse_channel_lit : Token → Parser F (Expr F)
  unfolding parse_args channel_of
  parse_channel_lit tk = do r ← parse_args again d; pure (channel_of tk.line r.0)

module _ {F : Type 0} (parse_float : Text → Option F) (again : Depth → ℕ → Parser F (Expr F))
    (d : Depth) where
  -- `parseAtom`.
  unfoldable pub parse_atom : Parser F (Expr F)
  unfolding int_of float_of parse_int parse_channel_lit parse_paren parse_list_lit
      parse_dict_set_lit
  parse_atom =
      take int (λ tk. int_of tk (parse_int 10 tk.literal))
        (take float (λ tk. float_of tk (parse_float tk.literal))
          (take string (λ tk. pure (str_lit tk.line tk.literal))
            (take true_kw (λ tk. pure (bool_lit tk.line true))
              (take false_kw (λ tk. pure (bool_lit tk.line false))
                (take none_kw (λ tk. pure (none_lit tk.line))
                  (take self word (
                    take super word (
                      take TokenType.ident (λ tk. pure (ident tk.line tk.literal))
                        (take print word (
                          take channel (parse_channel_lit again d) (
                            take closed word (
                              take close word (
                                take lparen (λ tk. parse_paren again d tk.line)
                                  (take lbracket (λ tk. parse_list_lit again d tk.line)
                                    (take lbrace (λ tk. parse_dict_set_lit again d tk.line)
                                      (asking λ tk.
                                        fail (about unexpected_expr tk.literal)))))))))))))))))

module _ {F : Type 0} (again : Depth → ℕ → Parser F (Expr F)) (d : Depth) where
  -- The super keyword and a call of it, whose keyword arguments are dropped.
  unfoldable pub super_call : Expr F → Parser F (Expr F)
  unfolding is_super parse_args
  super_call e =
      choose (is_super e)
        (see lparen (do r ← parse_args again d; pure (call (line_of e) e r.0 no_kwargs)) (pure e))
        (pure e)

  -- The subscripts behind a receiver.
  unfoldable pub subscripts : ℕ → Expr F → Parser F (Expr F)
  unfolding subscript
  subscripts zero e = out_of_fuel
  subscripts (suc n) e =
      take lbracket (λ tk. do e' ← subscript again d tk.line e; subscripts n e') (pure e)

  -- What follows an ezafe: the arguments of a method and its receiver, or a receiver. `receiver` is
  -- `parseReceiver`.
  unfoldable pub ezafe_tail : Parser F (Expr F) → ℕ → Expr F → Parser F (Expr F)
  unfolding parse_args
  ezafe_tail receiver line e =
      see lparen (do r ← parse_args again d; recv ← receiver; pure (method_call line recv e r.0))
        do recv ← receiver; pure (member_access line recv e)

  unfoldable pub ezafes : Parser F (Expr F) → ℕ → Expr F → Parser F (Expr F)
  unfolding ezafe_tail
  ezafes receiver zero e = out_of_fuel
  ezafes receiver (suc n) e =
      take ezafe (λ tk. do e' ← ezafe_tail receiver tk.line e; ezafes receiver n e') (pure e)

module _ {F : Type 0} (parse_float : Text → Option F) (again : Depth → ℕ → Parser F (Expr F))
    (d : Depth) where
  unfoldable pub receiver : ℕ → Parser F (Expr F)
  unfolding parse_atom super_call subscripts ezafes
  receiver zero = out_of_fuel
  receiver (suc n) = do
    a ← parse_atom parse_float again d
    c ← super_call again d a
    s ← looped λ k. subscripts again d k c
    looped λ k. ezafes again d (receiver n) k s

  unfoldable pub parse_receiver : Parser F (Expr F)
  unfolding receiver
  parse_receiver = looped receiver

  -- `parsePostfix`.
  unfoldable pub postfix : ℕ → Expr F → Parser F (Expr F)
  unfolding ezafe_tail parse_args subscript parse_receiver
  postfix zero e = out_of_fuel
  postfix (suc n) e =
      take_if (λ t. is_yield t && ltb 0 d.paren) (λ tk. pure (yielded tk e))
        (take ezafe (λ tk. do e' ← ezafe_tail again d parse_receiver tk.line e; postfix n e')
          (see lparen (asking λ tk. do r ← parse_args again d; postfix n (call tk.line e r.0 r.1))
            (take lbracket (λ tk. do e' ← subscript again d tk.line e; postfix n e') (pure e))))

  -- `parsePrimaryAndPostfix`.
  unfoldable pub parse_primary : Parser F (Expr F)
  unfolding parse_atom postfix
  parse_primary = do a ← parse_atom parse_float again d; looped λ k. postfix k a
