-- ===== src/Parser/Progress/Terms.antt =====
-- internal/parser/parser.go: the tokens behind atoms, receivers and postfix forms; and an expression
-- is parsed on any tokens.
use kolang.Prelude.{ℕ, zero, suc, Option, some, none, Text, arith}
use kolang.Token.{Token}
use kolang.Token.Spelling.{same_type}
use kolang.Syntax.{Expr}
use kolang.Lexer.Strconv.{ParsedInt, value, bad_syntax, bad_range}
use kolang.Parser.Core.{Depth, about, bad_int, bad_float, Parser}
use kolang.Parser.Operators.{binds}
use kolang.Parser.Terms.{
  int_of, float_of, parse_channel_lit, parse_atom, super_call, subscripts, ezafe_tail, ezafes,
  receiver, parse_receiver, postfix, parse_primary,
}
use kolang.Parser.Expressions.{
  copula, parse_prefix, operators, negation, ternary, parse_binary, binary,
}
use kolang.Parser.Progress.{
  Good, Eats, Good-of_Eats, Good-weaken, Good-zero, Eats-zero, Good-looped, Eats-looped,
}
use kolang.Parser.Progress.Rules.{Feeds, Feeds-weaken, Feeds-pred, Good-again, kept, taking, eating}
use kolang.Parser.Progress.Actions.{Good-pure, Good-fail}
use kolang.Parser.Progress.Items.{
  Good-subscript, Eats-parse_args, Good-parse_args, Good-parse_paren, Good-parse_list_lit,
  Good-parse_dict_set_lit,
}

module _ (F : Type 0) where
  Good-int_of : (n : ℕ) (tk : Token) (v : ParsedInt) → Good n (int_of {F = F} tk v)
  unfolding int_of
  Good-int_of n tk (value v) = Good-pure F n _
  Good-int_of n tk bad_syntax = Good-fail F _ n (about bad_int tk.literal)
  Good-int_of n tk bad_range = Good-fail F _ n (about bad_int tk.literal)

  Good-float_of : (n : ℕ) (tk : Token) (v : Option F) → Good n (float_of tk v)
  unfolding float_of
  Good-float_of n tk (some v) = Good-pure F n _
  Good-float_of n tk none = Good-fail F _ n (about bad_float tk.literal)

module _ {F : Type 0} (again : Depth → ℕ → Parser F (Expr F)) where
  Good-parse_channel_lit :
      (n : ℕ) (d : Depth) (tk : Token) → Feeds n again → Good n (parse_channel_lit again d tk)
  unfolding parse_channel_lit
  Good-parse_channel_lit n d tk h = search (kept, Good-parse_args) depth 10

  Good-super_call : (n : ℕ) (d : Depth) (e : Expr F) → Feeds n again → Good n (super_call again d e)
  unfolding super_call
  Good-super_call n d e h = search (kept, Good-parse_args) depth 10

  Good-subscripts :
      (n : ℕ) (d : Depth) (e : Expr F) → Feeds n again → Good n (subscripts again d n e)
  unfolding subscripts same_type
  Good-subscripts zero d e h = Good-zero _
  Good-subscripts (suc n) d e h =
      let fewer = Feeds-pred n again h in
      search (taking, kept, Good-subscript, λ (f : Expr F). Good-subscripts n d f fewer) depth 20

  Good-ezafe_tail :
      (n : ℕ) (d : Depth) (receiver : Parser F (Expr F)) (line : ℕ) (e : Expr F)
      → Feeds n again
      → Good n receiver
      → Good n (ezafe_tail again d receiver line e)
  unfolding ezafe_tail
  Good-ezafe_tail n d receiver line e h r = search (kept, Good-parse_args) depth 10

  Good-ezafes :
      (n : ℕ) (d : Depth) (receiver : Parser F (Expr F)) (e : Expr F)
      → Feeds n again
      → Good n receiver
      → Good n (ezafes again d receiver n e)
  unfolding ezafes same_type
  Good-ezafes zero d receiver e h r = Good-zero _
  Good-ezafes (suc n) d receiver e h r =
      let fewer = Feeds-pred n again h in
      let r' = Good-weaken n (suc n) receiver (omega arith) r in
      search (taking, kept, Good-ezafe_tail, λ (f : Expr F). Good-ezafes n d receiver f fewer r')
        depth 20

module _ {F : Type 0} (parse_float : Text → Option F) (again : Depth → ℕ → Parser F (Expr F)) where
  Eats-parse_atom :
      (n : ℕ) (d : Depth) → Feeds n again → Eats (suc n) (parse_atom parse_float again d)
  unfolding parse_atom same_type
  Eats-parse_atom n d h =
      search
        (
          eating, kept, Good-int_of, Good-float_of, Good-parse_channel_lit, Good-parse_paren,
          Good-parse_list_lit, Good-parse_dict_set_lit,
        )
        depth 30 fits 3000

  -- The receiver of an ezafe needs as much fuel as there are tokens.
  Eats-receiver : (n : ℕ) (d : Depth) → Feeds n again → Eats n (receiver parse_float again d n)
  unfolding receiver
  Eats-receiver zero d h = Eats-zero _
  Eats-receiver (suc n) d h =
      let fewer = Feeds-pred n again h in
      search
        (
          eating,
          kept,
          Eats-parse_atom,
          Good-super_call,
          Good-looped,
          Good-subscripts,
          Good-ezafes,
          Good-weaken,
          Feeds-weaken,
          Good-of_Eats n _ (Eats-receiver n d fewer),
        )
        depth 20

  Good-receiver : (n : ℕ) (d : Depth) → Feeds n again → Good n (parse_receiver parse_float again d)
  unfolding parse_receiver
  Good-receiver n d h =
      Good-looped n _ (λ k le. Good-of_Eats k _ (Eats-receiver k d (Feeds-weaken k n again le h)))

  Good-postfix :
      (n : ℕ) (d : Depth) (e : Expr F) → Feeds n again → Good n (postfix parse_float again d n e)
  unfolding postfix same_type
  Good-postfix zero d e h = Good-zero _
  Good-postfix (suc n) d e h =
      let fewer = Feeds-pred n again h in
      search
        (
          taking,
          kept,
          Good-receiver,
          Good-ezafe_tail,
          Eats-parse_args,
          Good-subscript,
          λ (f : Expr F). Good-postfix n d f fewer,
        )
        depth 30

  Eats-parse_primary :
      (n : ℕ) (d : Depth) → Feeds n again → Eats (suc n) (parse_primary parse_float again d)
  unfolding parse_primary
  Eats-parse_primary n d h =
      search (eating, Eats-parse_atom, Good-looped, Good-postfix, Feeds-weaken) depth 10

  Good-parse_primary :
      (n : ℕ) (d : Depth) → Feeds n again → Good n (parse_primary parse_float again d)
  Good-parse_primary n d h =
      Good-weaken n (suc n) _ (omega arith) (Good-of_Eats (suc n) _ (Eats-parse_primary n d h))

  Eats-parse_prefix :
      (n : ℕ) (d : Depth) → Feeds n again → Eats (suc n) (parse_prefix parse_float again d)
  unfolding parse_prefix same_type
  Eats-parse_prefix n d h =
      search
        (
          eating,
          kept,
          Eats-parse_primary,
          Good-parse_primary,
          λ (e : Depth) (p : ℕ). Good-again n again e p h,
        )
        depth 20

module _ {F : Type 0} (again : Depth → ℕ → Parser F (Expr F)) where
  Good-operators :
      (n : ℕ) (d : Depth) (min : ℕ) (e : Expr F)
      → Feeds n again
      → Good n (operators again d min n e)
  unfolding operators binds
  Good-operators zero d min e h = Good-zero _
  Good-operators (suc n) d min e h =
      let fewer = Feeds-pred n again h in
      search
        (
          taking,
          kept,
          λ (e : Depth) (p : ℕ). Good-again n again e p fewer,
          λ (f : Expr F). Good-operators n d min f fewer,
        )
        depth 20

  Good-negation : (n : ℕ) (d : Depth) (e : Expr F) → Good n (negation d e)
  unfolding negation
  Good-negation n d e = search (kept) depth 10

  Good-copula : (n : ℕ) (e : Expr F) → Good n (copula e)
  unfolding copula
  Good-copula n e = search (kept) depth 10

  Good-ternary : (n : ℕ) (d : Depth) (e : Expr F) → Feeds n again → Good n (ternary again d e)
  unfolding ternary
  Good-ternary n d e h = search (kept, Good-copula) depth 20

module _ {F : Type 0} (parse_float : Text → Option F) where
  -- As much fuel as there are tokens is enough.
  Feeds-parse_binary : (n : ℕ) → Feeds n (parse_binary parse_float n)
  unfolding parse_binary Feeds
  Feeds-parse_binary zero d p = Eats-zero _
  Feeds-parse_binary (suc n) d p =
      search
        (
          eating,
          kept,
          Eats-parse_prefix,
          Good-looped,
          Good-operators,
          Good-negation,
          Good-ternary,
          Feeds-weaken,
          Feeds-parse_binary n,
        )
        depth 20

  pub Feeds-binary : (n : ℕ) → Feeds n (binary parse_float)
  unfolding binary Feeds
  Feeds-binary n d p = Eats-looped n _ (λ k le. Feeds-parse_binary k d p)
