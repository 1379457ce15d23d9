-- ===== src/Parser/Progress/Statements.antt =====
-- internal/parser/parser.go: the tokens behind statements. `item` is `parseStatement`.
use kolang.Prelude.{ℕ, zero, suc, Text, arith, Bool, Option}
use kolang.Token.{Token, TokenType}
use kolang.Syntax.{Expr, Stmt}
use kolang.Parser.Core.{Depth, Message, Parser}
use kolang.Parser.Signatures.{parse_func_sig}
use kolang.Parser.Blocks.{
  body_head, block_loop, parse_block, parse_def, constructor, is_constructor, class_statement,
  heritage, parse_class_def, methods_loop, parse_interface_def,
}
use kolang.Parser.Compound.{
  checked, parse_condition, elses, parse_if, parse_while, loop_vars, loop_head, alias_if,
  for_range_rest, parse_for, parse_with, handlers_loop, parse_try, parse_from_import,
}
use kolang.Token.Spelling.{same_type}
use kolang.Parser.Progress.{
  Good, Eats, Good-of_Eats, Good-weaken, Good-zero, Eats-zero, Good-looped, Eats-weaken,
}
use kolang.Parser.Progress.Rules.{
  Feeds, Feeds-weaken, Feeds-pred, Eats-expression, kept, taking, eating,
}
use kolang.Parser.Progress.Signatures.{
  Good-parse_decorator, Eats-parse_func_sig, Eats-parse_expr_statement,
}

module _ (F : Type 0) where
  Eats-body_head : (n : ℕ) → Eats (suc n) (body_head {F = F})
  unfolding body_head same_type
  Eats-body_head n = search (eating, kept) depth 20

  Good-body_head : (n : ℕ) → Good n (body_head {F = F})
  unfolding body_head
  Good-body_head n = search (kept) depth 20

module _ {F : Type 0} where
  Good-checked : (n : ℕ) (e : Expr F) → Good n (checked e)
  unfolding checked
  Good-checked n e = search (kept) depth 20

module _ {F : Type 0} (item : Parser F (Option (Stmt F))) where
  Good-block_loop : (n : ℕ) → Eats n item → Good n (block_loop item n)
  unfolding block_loop same_type
  Good-block_loop zero h = Good-zero _
  Good-block_loop (suc n) h =
      let fewer = Eats-weaken n (suc n) item (omega arith) h in
      search (taking, kept, Good-block_loop n fewer) depth 20

  Eats-parse_block : (n : ℕ) → Eats n item → Eats (suc n) (parse_block item)
  unfolding parse_block
  Eats-parse_block n h =
      search (eating, kept, Eats-body_head, Good-looped, Good-block_loop, Eats-weaken) depth 20

  Good-parse_block : (n : ℕ) → Eats n item → Good n (parse_block item)
  Good-parse_block n h =
      Good-weaken n (suc n) _ (omega arith) (Good-of_Eats (suc n) _ (Eats-parse_block n h))

module _ {F : Type 0} (again : Depth → ℕ → Parser F (Expr F)) where
  Good-parse_func_sig : (n : ℕ) → Feeds n again → Good n (parse_func_sig again)
  Good-parse_func_sig n h =
      Good-weaken n (suc n) _ (omega arith) (Good-of_Eats (suc n) _ (Eats-parse_func_sig again n h))

module _ {F : Type 0} (again : Depth → ℕ → Parser F (Expr F))
    (item : Parser F (Option (Stmt F))) where
  pub Good-parse_def :
      (n : ℕ) (tk : Token) → Feeds n again → Eats n item → Good n (parse_def again item tk)
  unfolding parse_def
  Good-parse_def n tk h i = search (kept, Good-parse_func_sig, Good-parse_block) depth 20

  Good-constructor :
      (n : ℕ) (tk : Token) → Feeds n again → Eats n item → Good n (constructor again item tk)
  unfolding constructor
  Good-constructor n tk h i = search (kept, Good-parse_func_sig, Good-parse_block) depth 20

  Eats-class_statement : (n : ℕ) → Feeds n again → Eats n item → Eats n (class_statement again item)
  unfolding class_statement is_constructor same_type
  Eats-class_statement zero h i = Eats-zero _
  Eats-class_statement (suc n) h i =
      let fewer = Feeds-pred n again h in
      let i' = Eats-weaken n (suc n) item (omega arith) i in
      search
        (
          eating, kept, Good-parse_def, Good-parse_decorator, Good-constructor,
          Eats-parse_expr_statement,
        )
        depth 20

  Good-heritage : (n : ℕ) (p i : Text) → Good n (heritage again item n p i)
  unfolding heritage same_type
  Good-heritage zero p i = Good-zero _
  Good-heritage (suc n) p i = search (taking, kept, λ (q j : Text). Good-heritage n q j) depth 20

  pub Good-parse_class_def :
      (n : ℕ) (tk : Token) → Feeds n again → Eats n item → Good n (parse_class_def again item tk)
  unfolding parse_class_def
  Good-parse_class_def n tk h i =
      search (kept, Good-looped, Good-heritage, Good-parse_block, Eats-class_statement) depth 20

module _ {F : Type 0} (again : Depth → ℕ → Parser F (Expr F)) where
  Good-methods_loop : (n : ℕ) → Feeds n again → Good n (methods_loop again n)
  unfolding methods_loop same_type
  Good-methods_loop zero h = Good-zero _
  Good-methods_loop (suc n) h =
      let fewer = Feeds-pred n again h in
      search (taking, kept, Good-parse_func_sig, Good-methods_loop n fewer) depth 20

  pub Good-parse_interface_def :
      (n : ℕ) (tk : Token) → Feeds n again → Good n (parse_interface_def again tk)
  unfolding parse_interface_def
  Good-parse_interface_def n tk h =
      search (kept, Good-body_head, Good-looped, Good-methods_loop, Feeds-weaken) depth 20

  Good-parse_condition : (n : ℕ) → Feeds n again → Good n (parse_condition again)
  unfolding parse_condition
  Good-parse_condition n h = search (kept, Good-checked) depth 20

module _ {F : Type 0} (again : Depth → ℕ → Parser F (Expr F))
    (item : Parser F (Option (Stmt F))) where
  Good-elses : (n : ℕ) → Feeds n again → Eats n item → Good n (elses again item n)
  unfolding elses same_type
  Good-elses zero h i = Good-zero _
  Good-elses (suc n) h i =
      let fewer = Feeds-pred n again h in
      let i' = Eats-weaken n (suc n) item (omega arith) i in
      search (taking, kept, Good-parse_condition, Good-parse_block, Good-elses n fewer i') depth 20

  pub Good-parse_if :
      (n : ℕ) (tk : Token) → Feeds n again → Eats n item → Good n (parse_if again item tk)
  unfolding parse_if
  Good-parse_if n tk h i =
      search
        (
          kept, Good-parse_condition, Good-parse_block, Good-looped, Good-elses, Feeds-weaken,
          Eats-weaken,
        )
        depth 20

  pub Good-parse_while :
      (n : ℕ) (tk : Token) → Feeds n again → Eats n item → Good n (parse_while again item tk)
  unfolding parse_while
  Good-parse_while n tk h i = search (kept, Good-parse_condition, Good-parse_block) depth 20

module _ (F : Type 0) where
  Good-loop_vars : (n : ℕ) (message : Message) → Good n (loop_vars {F = F} message n)
  unfolding loop_vars same_type
  Good-loop_vars zero message = Good-zero _
  Good-loop_vars (suc n) message = search (taking, kept, Good-loop_vars n message) depth 20

  Good-loop_head : (n : ℕ) → Good n (loop_head {F = F})
  unfolding loop_head
  Good-loop_head n = search (kept, Good-looped, Good-loop_vars) depth 20

  Good-alias_if :
      (n : ℕ) (test : TokenType → Bool) (message : Message) → Good n (alias_if {F = F} test message)
  unfolding alias_if
  Good-alias_if n test message = search (kept) depth 20

  pub Good-parse_from_import : (n : ℕ) (tk : Token) → Good n (parse_from_import {F = F} tk)
  unfolding parse_from_import
  Good-parse_from_import n tk = search (kept, Good-alias_if) depth 20

module _ {F : Type 0} (again : Depth → ℕ → Parser F (Expr F))
    (item : Parser F (Option (Stmt F))) where
  Good-for_range_rest :
      (n : ℕ) (tk : Token) (e : Expr F)
      → Feeds n again
      → Eats n item
      → Good n (for_range_rest again item tk e)
  unfolding for_range_rest
  Good-for_range_rest n tk e h i = search (kept, Good-parse_block) depth 20

  pub Good-parse_for :
      (n : ℕ) (tk : Token) → Feeds n again → Eats n item → Good n (parse_for again item tk)
  unfolding parse_for
  Good-parse_for n tk h i =
      search (kept, Good-loop_head, Good-for_range_rest, Good-parse_block) depth 20

  pub Good-parse_with :
      (n : ℕ) (tk : Token) → Feeds n again → Eats n item → Good n (parse_with again item tk)
  unfolding parse_with
  Good-parse_with n tk h i = search (kept, Good-alias_if, Good-parse_block) depth 20

  Good-handlers_loop : (n : ℕ) → Feeds n again → Eats n item → Good n (handlers_loop again item n)
  unfolding handlers_loop same_type
  Good-handlers_loop zero h i = Good-zero _
  Good-handlers_loop (suc n) h i =
      let fewer = Feeds-pred n again h in
      let i' = Eats-weaken n (suc n) item (omega arith) i in
      search
        (
          taking,
          kept,
          Eats-expression,
          Good-alias_if,
          Good-parse_block,
          Good-handlers_loop n fewer i',
        )
        depth 30

  pub Good-parse_try :
      (n : ℕ) (tk : Token) → Feeds n again → Eats n item → Good n (parse_try again item tk)
  unfolding parse_try
  Good-parse_try n tk h i =
      search (kept, Good-parse_block, Good-looped, Good-handlers_loop, Feeds-weaken, Eats-weaken)
        depth 20
