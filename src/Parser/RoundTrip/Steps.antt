-- ===== src/Parser/RoundTrip/Steps.antt =====
-- internal/parser/parser.go: the steps of the expression parser on a name, on a group, on an operator
-- and on a token that ends the expression.
use kolang.Prelude.{
  ℕ, suc, ◌≡◌, refl, ap, ◌∙◌, List, [], ◌∷◌, Bool, true, false, length, ◌==◌, ◌&&◌, Text, Option,
}
use kolang.Token.{Token, TokenType, lparen, rparen}
use kolang.Token.Spelling.{same_type}
use kolang.Syntax.{Expr, ident, DecoratorStmt}
use kolang.Parser.Core.{
  Depth, Parser, State, Result, done, failed, stuck, peek_in, bind_at, ◌>>=◌, pure, take_if, see_if,
  looped, expect,
}
use kolang.Parser.Operators.{binds, right_level, joined, prec_lowest}
use kolang.Parser.Items.{in_paren, expression, parse_paren}
use kolang.Parser.Terms.{parse_atom, postfix, parse_primary}
use kolang.Parser.Expressions.{parse_prefix, operators, negation, ternary, parse_binary}
use kolang.Parser.RoundTrip.{
  Quiet, Op, left, power, token_of, on_line, piped, or_also, and_also, is_equal, is_less,
  is_greater, no_more, no_less, is_in, added, subtracted, multiplied, divided, floored, remainder,
}

pub Quiet-token_of : (o : Op) → Quiet (token_of o)
unfolding same_type
Quiet-token_of (left piped) = record {
  yields = refl;
  ezafes = refl;
  calls = refl;
  subscripts = refl;
  negates = refl;
  asks = refl;
}
Quiet-token_of (left or_also) = record {
  yields = refl;
  ezafes = refl;
  calls = refl;
  subscripts = refl;
  negates = refl;
  asks = refl;
}
Quiet-token_of (left and_also) = record {
  yields = refl;
  ezafes = refl;
  calls = refl;
  subscripts = refl;
  negates = refl;
  asks = refl;
}
Quiet-token_of (left is_equal) = record {
  yields = refl;
  ezafes = refl;
  calls = refl;
  subscripts = refl;
  negates = refl;
  asks = refl;
}
Quiet-token_of (left is_less) = record {
  yields = refl;
  ezafes = refl;
  calls = refl;
  subscripts = refl;
  negates = refl;
  asks = refl;
}
Quiet-token_of (left is_greater) = record {
  yields = refl;
  ezafes = refl;
  calls = refl;
  subscripts = refl;
  negates = refl;
  asks = refl;
}
Quiet-token_of (left no_more) = record {
  yields = refl;
  ezafes = refl;
  calls = refl;
  subscripts = refl;
  negates = refl;
  asks = refl;
}
Quiet-token_of (left no_less) = record {
  yields = refl;
  ezafes = refl;
  calls = refl;
  subscripts = refl;
  negates = refl;
  asks = refl;
}
Quiet-token_of (left is_in) = record {
  yields = refl;
  ezafes = refl;
  calls = refl;
  subscripts = refl;
  negates = refl;
  asks = refl;
}
Quiet-token_of (left added) = record {
  yields = refl;
  ezafes = refl;
  calls = refl;
  subscripts = refl;
  negates = refl;
  asks = refl;
}
Quiet-token_of (left subtracted) = record {
  yields = refl;
  ezafes = refl;
  calls = refl;
  subscripts = refl;
  negates = refl;
  asks = refl;
}
Quiet-token_of (left multiplied) = record {
  yields = refl;
  ezafes = refl;
  calls = refl;
  subscripts = refl;
  negates = refl;
  asks = refl;
}
Quiet-token_of (left divided) = record {
  yields = refl;
  ezafes = refl;
  calls = refl;
  subscripts = refl;
  negates = refl;
  asks = refl;
}
Quiet-token_of (left floored) = record {
  yields = refl;
  ezafes = refl;
  calls = refl;
  subscripts = refl;
  negates = refl;
  asks = refl;
}
Quiet-token_of (left remainder) = record {
  yields = refl;
  ezafes = refl;
  calls = refl;
  subscripts = refl;
  negates = refl;
  asks = refl;
}
Quiet-token_of power = record {
  yields = refl;
  ezafes = refl;
  calls = refl;
  subscripts = refl;
  negates = refl;
  asks = refl;
}

pub Quiet-rparen : Quiet rparen
unfolding same_type
Quiet-rparen = record {
  yields = refl;
  ezafes = refl;
  calls = refl;
  subscripts = refl;
  negates = refl;
  asks = refl;
}

and_false : (b : Bool) → (b && false) ≡ false
and_false true = refl
and_false false = refl

module _ {F : Type 0} (parse_float : Text → Option F) (again : Depth → ℕ → Parser F (Expr F))
    (d : Depth) where
  -- A prefix expression and the operators behind it.
  unfoldable pub climb : ℕ → Parser F (Expr F)
  unfolding parse_prefix operators
  climb min = parse_prefix parse_float again d >>= λ e. looped λ k. operators again d min k e

module _ {F : Type 0} (pend : List (DecoratorStmt F)) where
  abbrev pub at : List Token → State F
  at ts = record { toks = ts; pending = pend }

module _ {F : Type 0} (parse_float : Text → Option F) (again : Depth → ℕ → Parser F (Expr F))
    (d : Depth) (pend : List (DecoratorStmt F)) where
  postfix-Quiet :
      (n : ℕ) (e : Expr F) (ts : List Token)
      → Quiet (peek_in ts).type
      → postfix parse_float again d (suc n) e (at pend ts) ≡ done e (at pend ts)
  unfolding postfix take_if see_if pure
  postfix-Quiet n e ts q = rw (q.yields, q.ezafes, q.calls, q.subscripts)

  pub parse_prefix-name :
      (line : ℕ) (x : Text) (ts : List Token)
      → Quiet (peek_in ts).type
      → parse_prefix parse_float again d (at pend (on_line line TokenType.ident x ∷ ts))
        ≡ done (ident line x) (at pend ts)
  unfolding parse_prefix parse_primary parse_atom take_if see_if pure ◌>>=◌ looped same_type
  parse_prefix-name line x ts q = postfix-Quiet (length ts) (ident line x) ts q

  parse_paren-group :
      (line line' : ℕ) (e : Expr F) (ts rest : List Token)
      → same_type rparen (peek_in ts).type ≡ false
      → again (in_paren d) prec_lowest (at pend ts)
        ≡ done e (at pend (on_line line' rparen [] ∷ rest))
      → parse_paren again d line (at pend ts) ≡ done e (at pend rest)
  unfolding parse_paren expression take_if see_if pure ◌>>=◌ same_type expect
  parse_paren-group line line' e ts rest h inner = rw (h, inner)

  pub parse_prefix-group :
      (line line' : ℕ) (e : Expr F) (ts rest : List Token)
      → same_type rparen (peek_in ts).type ≡ false
      → again (in_paren d) prec_lowest (at pend ts)
        ≡ done e (at pend (on_line line' rparen [] ∷ rest))
      → Quiet (peek_in rest).type
      → parse_prefix parse_float again d (at pend (on_line line lparen [] ∷ ts))
        ≡ done e (at pend rest)
  unfolding parse_prefix parse_primary parse_atom take_if see_if pure ◌>>=◌ looped same_type
  parse_prefix-group line line' e ts rest h inner q =
      ap (bind_at (λ a. looped λ k. postfix parse_float again d k a))
        (parse_paren-group line line' e ts rest h inner)
      ∙ postfix-Quiet (length rest) e rest q

  -- The loop takes an operator and the operand on its right, and ends at what does not bind.
  pub operators-step :
      (min n : ℕ) (e e' : Expr F) (tk : Token) (ts rest : List Token)
      → binds min tk.type ≡ true
      → again d (right_level tk.type) (at pend ts) ≡ done e' (at pend rest)
      → operators again d min (suc n) e (at pend (tk ∷ ts))
        ≡ operators again d min n (joined tk.type e e') (at pend rest)
  unfolding operators take_if ◌>>=◌
  operators-step min n e e' tk ts rest b right = rw (b, right)

  pub operators-stop :
      (min n : ℕ) (e : Expr F) (ts : List Token)
      → binds min (peek_in ts).type ≡ false
      → operators again d min (suc n) e (at pend ts) ≡ done e (at pend ts)
  unfolding operators take_if pure
  operators-stop min n e ts b = rw b

  ternary-Quiet :
      (e : Expr F) (ts : List Token)
      → Quiet (peek_in ts).type
      → ternary again d e (at pend ts) ≡ done e (at pend ts)
  unfolding ternary take_if pure
  ternary-Quiet e ts q = rw (q.asks, and_false (d.comp == 0))

  negation-Quiet :
      (e : Expr F) (ts : List Token)
      → Quiet (peek_in ts).type
      → negation d e (at pend ts) ≡ done e (at pend ts)
  unfolding negation take_if pure
  negation-Quiet e ts q = rw (q.negates, and_false (d.cond == 0))

  pub climb-prefix :
      (min : ℕ) (e : Expr F) (ts rest : List Token)
      → parse_prefix parse_float again d (at pend ts) ≡ done e (at pend rest)
      → climb parse_float again d min (at pend ts)
        ≡ operators again d min (suc (length rest)) e (at pend rest)
  unfolding climb ◌>>=◌ looped
  climb-prefix min e ts rest h = rw h

module _ {F A B C : Type 0} where
  bind_at_assoc :
      (g : A → Parser F B) (h : B → Parser F C) (r : Result F A)
      → bind_at (λ a. g a >>= h) r ≡ bind_at h (bind_at g r)
  unfolding bind_at ◌>>=◌
  bind_at_assoc g h (done a s) = refl
  bind_at_assoc g h (failed p s) = refl
  bind_at_assoc g h stuck = refl

module _ {F : Type 0} (parse_float : Text → Option F) (n : ℕ) (d : Depth)
    (pend : List (DecoratorStmt F)) where
  pub parse_binary-climb :
      (min : ℕ) (e : Expr F) (ts rest : List Token)
      → Quiet (peek_in rest).type
      → climb parse_float (parse_binary parse_float n) d min (at pend ts) ≡ done e (at pend rest)
      → parse_binary parse_float (suc n) d min (at pend ts) ≡ done e (at pend rest)
  unfolding parse_binary climb ◌>>=◌
  parse_binary-climb min e ts rest q h =
      let pb : Depth → ℕ → Parser F (Expr F) = parse_binary parse_float n in
      bind_at_assoc (λ f. looped λ k. operators pb d min k f) (λ m. negation d m >>= ternary pb d)
        (parse_prefix parse_float pb d (at pend ts))
      ∙ ap (bind_at (λ m. negation d m >>= ternary pb d)) h
      ∙ ap (bind_at (ternary pb d)) (negation-Quiet parse_float pb d pend e rest q)
      ∙ ternary-Quiet parse_float pb d pend e rest q
