-- ===== src/Parser/Progress/Signatures.antt =====
-- internal/parser/parser.go: the tokens behind annotations, signatures and the statements that begin
-- with an expression.
use kolang.Prelude.{ℕ, zero, suc, ◌≡◌, refl, Text, false, [], Option, none, some}
use kolang.Token.{Token, TokenType, eof}
use kolang.Syntax.{Expr, Exprs}
use kolang.Parser.Core.{Depth, Message, about, import_name, Parser}
use kolang.Parser.Signatures.{
  annotates, annotation, read_type_ann, parse_decorator, parse_param, params_loop, parse_func_sig,
}
use kolang.Parser.Simple.{
  only, import_of, more_exprs, parse_assignment, annotated, object, verb_final, verb_rest,
  parse_expr_statement,
}
use kolang.Token.Spelling.{same_type}
use kolang.Parser.Progress.{Good, Eats, Good-zero, Eats-zero, Good-looped}
use kolang.Parser.Progress.Rules.{
  Feeds, Feeds-weaken, Feeds-pred, Eats-expression, kept, taking, eating,
}
use kolang.Parser.Progress.Actions.{Good-pure, Good-fail, Eats-later}
use kolang.Parser.Progress.Items.{Good-parse_args}

annotates-eof : (stop : TokenType) (depth : ℕ) → annotates stop depth eof ≡ false
unfolding annotates same_type
annotates-eof stop depth = refl

module _ (F : Type 0) where
  Good-annotation :
      (n : ℕ) (stop : TokenType) (depth : ℕ) → Good n (annotation {F = F} stop n depth)
  unfolding annotation
  Good-annotation zero stop depth = Good-zero _
  Good-annotation (suc n) stop depth =
      search (taking, kept, annotates-eof, λ (k : ℕ). Good-annotation n stop k) depth 20

  Good-read_type_ann : (n : ℕ) (stop : TokenType) → Good n (read_type_ann {F = F} stop)
  unfolding read_type_ann
  Good-read_type_ann n stop = search (kept, Good-looped, Good-annotation) depth 10

module _ {F : Type 0} (again : Depth → ℕ → Parser F (Expr F)) where
  pub Good-parse_decorator :
      (n : ℕ) (tk : Token) → Feeds n again → Good n (parse_decorator again tk)
  unfolding parse_decorator
  Good-parse_decorator n tk h = search (kept, Good-parse_args) depth 20

  Good-parse_param : (n : ℕ) → Feeds n again → Good n (parse_param again)
  unfolding parse_param
  Good-parse_param n h = search (kept, Good-read_type_ann) depth 20

  Good-params_loop : (n : ℕ) → Feeds n again → Good n (params_loop again n)
  unfolding params_loop same_type
  Good-params_loop zero h = Good-zero _
  Good-params_loop (suc n) h =
      let fewer = Feeds-pred n again h in
      search (taking, kept, Good-parse_param, Good-params_loop n fewer) depth 20

  pub Eats-parse_func_sig : (n : ℕ) → Feeds n again → Eats (suc n) (parse_func_sig again)
  unfolding parse_func_sig same_type
  Eats-parse_func_sig n h =
      search
        (eating, Eats-later, kept, Good-looped, Good-params_loop, Feeds-weaken, Good-read_type_ann)
        depth 20

module _ (F : Type 0) where
  Good-import_of : (n line : ℕ) (name : Option Text) → Good n (import_of {F = F} line name)
  unfolding import_of
  Good-import_of n line none = Good-fail F _ n (about import_name [])
  Good-import_of n line (some name) = Good-pure F n _

module _ {F : Type 0} where
  Good-only :
      {A : Type 0} (n : ℕ) (message : Message) (rest : Exprs F) (m : Parser F A)
      → Good n m
      → Good n (only message rest m)
  unfolding only
  Good-only n message rest m h = search (kept) depth 10

module _ {F : Type 0} (again : Depth → ℕ → Parser F (Expr F)) where
  Good-more_exprs : (n : ℕ) → Feeds n again → Good n (more_exprs again n)
  unfolding more_exprs same_type
  Good-more_exprs zero h = Good-zero _
  Good-more_exprs (suc n) h =
      let fewer = Feeds-pred n again h in search (taking, kept, Good-more_exprs n fewer) depth 20

  Good-parse_assignment :
      (n : ℕ) (target : Expr F) (targets : Exprs F) (op : Token)
      → Feeds n again
      → Good n (parse_assignment again target targets op)
  unfolding parse_assignment
  Good-parse_assignment n target targets op h =
      search (kept, Good-looped, Good-more_exprs, Feeds-weaken, Good-only) depth 20

  Good-annotated : (n : ℕ) (id : Expr F) → Feeds n again → Good n (annotated again id)
  unfolding annotated
  Good-annotated n id h = search (kept, Good-read_type_ann) depth 20

  Good-object : (n : ℕ) (verb : TokenType) → Feeds n again → Good n (object again verb)
  unfolding object
  Good-object n verb h = search (kept) depth 20

  Good-verb_rest :
      (n : ℕ) (e : Expr F) (rest : Exprs F) → Feeds n again → Good n (verb_rest again e rest)
  unfolding verb_rest
  Good-verb_rest n e rest h = search (kept, Good-only, Good-object) depth 20

  Good-verb_final :
      (n : ℕ) (e : Expr F) (rest : Exprs F) → Feeds n again → Good n (verb_final again e rest)
  unfolding verb_final
  Good-verb_final n e rest h =
      search
        (kept, Good-only, Good-annotated, Good-parse_assignment, Good-import_of, Good-verb_rest)
        depth 20

  pub Eats-parse_expr_statement : (n : ℕ) → Feeds n again → Eats n (parse_expr_statement again)
  unfolding parse_expr_statement
  Eats-parse_expr_statement zero h = Eats-zero _
  Eats-parse_expr_statement (suc n) h =
      let fewer = Feeds-pred n again h in
      search
        (eating, kept, Eats-expression, Good-looped, Good-more_exprs, Feeds-weaken, Good-verb_final)
        depth 20
