-- ===== src/Parser/Items.antt =====
-- internal/parser/parser.go: arguments, subscripts and the literals with brackets. `again` is
-- `parseBinary`, of which `expression` is the call at the lowest level.
use kolang.Prelude.{ℕ, zero, suc, Text, ◌||◌}
use kolang.Token.{
  lparen, rparen, rbracket, rbrace, colon, sep, assign, ident, for, in_kw, if_kw, cop_pos,
}
use kolang.Token.Spelling.{same_type}
use kolang.Syntax.{
  Expr, OptExpr, absent, present, Exprs, no_exprs, expr, Kwargs, no_kwargs, kwarg, Clauses,
  no_clauses, clause, index, slice, gen_exp, tuple_lit, list_lit, list_comp, dict_lit, dict_comp,
  set_lit, set_comp,
}
use kolang.Parser.Core.{
  Depth, comp_name, about, Parser, pure, fail, asking, see, take, take_if, take_before, see_if,
  looped, out_of_fuel, ◌>>=◌, ◌>>◌, is_name, next, expect, lenient, attempt,
}
use kolang.Parser.Operators.{prec_lowest}

-- An argument of a call.
pub data Arg (F : Type 0) : Type 0 where
  positional : Expr F → Arg F
  keyword : ℕ → Text → Expr F → Arg F

-- The elements of a list literal, or a comprehension, which takes its last element alone.
pub data ListBody (F : Type 0) : Type 0 where
  elems : Exprs F → ListBody F
  comp : Expr F → Clauses F → ListBody F

module _ {F : Type 0} where
  abbrev pub with_arg : Arg F → Exprs F × Kwargs F → Exprs F × Kwargs F
  with_arg (positional e) (args, kwargs) = (expr e args, kwargs)
  with_arg (keyword line name e) (args, kwargs) = (args, kwarg line name e kwargs)

  abbrev pub with_elem : Expr F → ListBody F → ListBody F
  with_elem e (elems es) = elems (expr e es)
  with_elem e (comp f cs) = comp f cs

  abbrev pub list_of : ℕ → ListBody F → Expr F
  list_of line (elems es) = list_lit line es
  list_of line (comp e cs) = list_comp line e cs

abbrev pub in_paren : Depth → Depth
in_paren d = record d { paren = suc d.paren }

abbrev pub in_comp : Depth → Depth
in_comp d = record d { comp = suc d.comp }

module _ {F : Type 0} (again : Depth → ℕ → Parser F (Expr F)) (d : Depth) where
  -- `parseExpression`.
  unfoldable pub expression : Parser F (Expr F)
  expression = again d prec_lowest

  unfoldable pub slice_component : Parser F (OptExpr F)
  unfolding expression
  slice_component =
      see_if (λ t. same_type rbracket t || same_type colon t) (pure absent)
        do e ← expression; pure (present e)

  -- The second colon and the step.
  unfoldable pub slice_step : Parser F (OptExpr F)
  unfolding slice_component
  slice_step = take colon (λ _. attempt slice_component) (pure absent)

  -- What follows a `[`: a slice or an index. A bound behind an opening colon is the low one.
  unfoldable pub subscript : ℕ → Expr F → Parser F (Expr F)
  unfolding slice_component slice_step expression
  subscript line e =
      take colon
        (λ _. do
          low ← slice_component
          step ← slice_step
          lenient rbracket
          pure (slice line e low absent step))
        do
          idx ← expression
          take colon
              (λ _. do
                high ← attempt slice_component
                step ← slice_step
                lenient rbracket
                pure (slice line e (present idx) high step))
              do lenient rbracket; pure (index line e idx)

module _ {F : Type 0} (again : Depth → ℕ → Parser F (Expr F)) (d : Depth) where
  unfoldable pub one_arg : Parser F (Arg F)
  unfolding expression
  one_arg =
      take_before ident assign
        (λ name. do next; e ← expression again d; pure (keyword name.line name.literal e))
        do e ← expression again d; pure (positional e)

  unfoldable pub args_loop : ℕ → Parser F (Exprs F × Kwargs F)
  unfolding one_arg
  args_loop zero = out_of_fuel
  args_loop (suc n) = do
    a ← one_arg
    take sep (λ _. do rest ← args_loop n; pure (with_arg a rest))
        (pure (with_arg a (no_exprs, no_kwargs)))

  -- `parseCompClauses`, at a depth that counts it.
  unfoldable pub comp_filter : Parser F (OptExpr F)
  unfolding expression
  comp_filter =
      take if_kw (λ _. do c ← expression again d; expect cop_pos; pure (present c)) (pure absent)

  unfoldable pub clauses_loop : ℕ → Parser F (Clauses F)
  unfolding comp_filter expression
  clauses_loop zero = out_of_fuel
  clauses_loop (suc n) =
      take for
        (λ f.
          take_if is_name
            (λ v. do
              expect in_kw
              iterable ← expression again d
              filter ← comp_filter
              rest ← clauses_loop n
              pure (clause f.line v.literal iterable filter rest))
            (asking λ v. fail (about comp_name v.literal)))
        (pure no_clauses)

module _ {F : Type 0} (again : Depth → ℕ → Parser F (Expr F)) (d : Depth) where
  -- `parseArgs`.
  unfoldable pub parse_args : Parser F (Exprs F × Kwargs F)
  unfolding args_loop
  parse_args = do
    expect lparen
    take rparen (λ _. pure (no_exprs, no_kwargs))
        do r ← looped (args_loop again (in_paren d)); expect rparen; pure r

  unfoldable pub comp_clauses : Parser F (Clauses F)
  unfolding clauses_loop
  comp_clauses = looped (clauses_loop again (in_comp d))

  -- What follows the separator of a tuple.
  unfoldable pub tuple_items : ℕ → Parser F (Exprs F)
  unfolding expression
  tuple_items zero = out_of_fuel
  tuple_items (suc n) = see rparen (pure no_exprs) do
    e ← expression again d
    take sep (λ _. do rest ← tuple_items n; pure (expr e rest)) (pure (expr e no_exprs))

  unfoldable pub list_items : ℕ → Parser F (ListBody F)
  unfolding expression comp_clauses
  list_items zero = out_of_fuel
  list_items (suc n) = do
    e ← expression again d
    see for (do cs ← comp_clauses; lenient rbracket; pure (comp e cs))
        (take sep (λ _. do rest ← list_items n; pure (with_elem e rest))
          do expect rbracket; pure (elems (expr e no_exprs)))

  unfoldable pub dict_pairs : ℕ → Parser F (Exprs F × Exprs F)
  unfolding expression
  dict_pairs zero = out_of_fuel
  dict_pairs (suc n) =
      take sep
        (λ _. do
          k ← expression again d
          lenient colon
          v ← expression again d
          rest ← dict_pairs n
          pure (expr k rest.0, expr v rest.1))
        (pure (no_exprs, no_exprs))

  unfoldable pub set_elems : ℕ → Parser F (Exprs F)
  unfolding expression
  set_elems zero = out_of_fuel
  set_elems (suc n) =
      take sep (λ _. do e ← expression again d; rest ← set_elems n; pure (expr e rest))
        (pure no_exprs)

module _ {F : Type 0} (again : Depth → ℕ → Parser F (Expr F)) (d : Depth) (line : ℕ) where
  -- `parseParen`, `parseListLit` and `parseDictSetLit`, behind the opening bracket of a line.
  unfoldable pub parse_paren : Parser F (Expr F)
  unfolding expression comp_clauses tuple_items
  parse_paren =
      take rparen (λ _. pure (tuple_lit line no_exprs))
        do
          first ← expression again (in_paren d)
          see for
              (do
                cs ← comp_clauses again (in_paren d)
                lenient rparen
                pure (gen_exp line first cs))
              (take sep
                (λ _. do
                  items ← looped (tuple_items again (in_paren d))
                  lenient rparen
                  pure (tuple_lit line (expr first items)))
                do expect rparen; pure first)

  unfoldable pub parse_list_lit : Parser F (Expr F)
  unfolding list_items
  parse_list_lit =
      take rbracket (λ _. pure (list_lit line no_exprs))
        do body ← looped (list_items again d); pure (list_of line body)

  -- Behind the colon of the first key.
  unfoldable pub dict_body : Expr F → Parser F (Expr F)
  unfolding expression comp_clauses dict_pairs
  dict_body first = do
    val ← expression again d
    see for (do cs ← comp_clauses again d; lenient rbrace; pure (dict_comp line first val cs))
        do
          rest ← looped (dict_pairs again d)
          lenient rbrace
          pure (dict_lit line (expr first rest.0) (expr val rest.1))

  unfoldable pub set_body : Expr F → Parser F (Expr F)
  unfolding comp_clauses set_elems
  set_body first =
      see for (do cs ← comp_clauses again d; lenient rbrace; pure (set_comp line first cs))
        do rest ← looped (set_elems again d); lenient rbrace; pure (set_lit line (expr first rest))

  unfoldable pub parse_dict_set_lit : Parser F (Expr F)
  unfolding expression dict_body set_body
  parse_dict_set_lit =
      take rbrace (λ _. pure (dict_lit line no_exprs no_exprs))
        do first ← expression again d; take colon (λ _. dict_body first) (set_body first)
