-- ===== src/Parser/Progress/Items.antt =====
-- internal/parser/parser.go: the tokens behind arguments, subscripts and the literals with brackets.
use kolang.Prelude.{arith, ℕ, zero, suc}
use kolang.Syntax.{Expr}
use kolang.Token.Spelling.{same_type}
use kolang.Parser.Core.{is_name, Depth, Parser}
use kolang.Parser.Items.{
  slice_component, slice_step, subscript, one_arg, args_loop, comp_filter, clauses_loop, parse_args,
  comp_clauses, tuple_items, list_items, dict_pairs, set_elems, parse_paren, parse_list_lit,
  dict_body, set_body, parse_dict_set_lit,
}
use kolang.Parser.Progress.{Good, Eats, Good-zero, Good-looped, Good-weaken, Good-of_Eats}
use kolang.Parser.Progress.Rules.{Feeds, taking, eating, Feeds-weaken, Feeds-pred, kept}

module _ {F : Type 0} (again : Depth → ℕ → Parser F (Expr F)) where
  Good-slice_component : (n : ℕ) (d : Depth) → Feeds n again → Good n (slice_component again d)
  unfolding slice_component
  Good-slice_component n d h = search (kept) depth 10

  Good-slice_step : (n : ℕ) (d : Depth) → Feeds n again → Good n (slice_step again d)
  unfolding slice_step
  Good-slice_step n d h = search (kept, Good-slice_component) depth 10

  pub Good-subscript :
      (n : ℕ) (d : Depth) (line : ℕ) (e : Expr F)
      → Feeds n again
      → Good n (subscript again d line e)
  unfolding subscript
  Good-subscript n d line e h = search (kept, Good-slice_component, Good-slice_step) depth 20

  Good-one_arg : (n : ℕ) (d : Depth) → Feeds n again → Good n (one_arg again d)
  unfolding one_arg
  Good-one_arg n d h = search (kept) depth 20

  Good-args_loop : (n : ℕ) (d : Depth) → Feeds n again → Good n (args_loop again d n)
  unfolding args_loop same_type
  Good-args_loop zero d h = Good-zero _
  Good-args_loop (suc n) d h =
      let fewer = Feeds-pred n again h in
      search (taking, kept, Good-one_arg, Good-args_loop n d fewer) depth 20

  pub Good-comp_filter : (n : ℕ) (d : Depth) → Feeds n again → Good n (comp_filter again d)
  unfolding comp_filter
  Good-comp_filter n d h = search (kept) depth 20

  Good-clauses_loop : (n : ℕ) (d : Depth) → Feeds n again → Good n (clauses_loop again d n)
  unfolding clauses_loop same_type is_name
  Good-clauses_loop zero d h = Good-zero _
  Good-clauses_loop (suc n) d h =
      let fewer = Feeds-pred n again h in
      search (taking, kept, Good-comp_filter, Good-clauses_loop n d fewer) depth 20

  pub Eats-parse_args : (n : ℕ) (d : Depth) → Feeds n again → Eats (suc n) (parse_args again d)
  unfolding parse_args same_type
  Eats-parse_args n d h = search (eating, kept, Good-looped, Good-args_loop, Feeds-weaken) depth 20

  pub Good-parse_args : (n : ℕ) (d : Depth) → Feeds n again → Good n (parse_args again d)
  Good-parse_args n d h =
      Good-weaken n (suc n) _ (omega arith) (Good-of_Eats (suc n) _ (Eats-parse_args n d h))

  pub Good-comp_clauses : (n : ℕ) (d : Depth) → Feeds n again → Good n (comp_clauses again d)
  unfolding comp_clauses
  Good-comp_clauses n d h = search (Good-looped, Good-clauses_loop, Feeds-weaken) depth 20

  Good-tuple_items : (n : ℕ) (d : Depth) → Feeds n again → Good n (tuple_items again d n)
  unfolding tuple_items same_type
  Good-tuple_items zero d h = Good-zero _
  Good-tuple_items (suc n) d h =
      let fewer = Feeds-pred n again h in search (taking, kept, Good-tuple_items n d fewer) depth 20

  Good-list_items : (n : ℕ) (d : Depth) → Feeds n again → Good n (list_items again d n)
  unfolding list_items same_type
  Good-list_items zero d h = Good-zero _
  Good-list_items (suc n) d h =
      let fewer = Feeds-pred n again h in
      search (taking, kept, Good-comp_clauses, Good-list_items n d fewer) depth 20

  Good-dict_pairs : (n : ℕ) (d : Depth) → Feeds n again → Good n (dict_pairs again d n)
  unfolding dict_pairs same_type
  Good-dict_pairs zero d h = Good-zero _
  Good-dict_pairs (suc n) d h =
      let fewer = Feeds-pred n again h in search (taking, kept, Good-dict_pairs n d fewer) depth 20

  Good-set_elems : (n : ℕ) (d : Depth) → Feeds n again → Good n (set_elems again d n)
  unfolding set_elems same_type
  Good-set_elems zero d h = Good-zero _
  Good-set_elems (suc n) d h =
      let fewer = Feeds-pred n again h in search (taking, kept, Good-set_elems n d fewer) depth 20

  pub Good-parse_paren :
      (n : ℕ) (d : Depth) (line : ℕ) → Feeds n again → Good n (parse_paren again d line)
  unfolding parse_paren
  Good-parse_paren n d line h =
      search (kept, Good-looped, Feeds-weaken, Good-comp_clauses, Good-tuple_items) depth 20

  pub Good-parse_list_lit :
      (n : ℕ) (d : Depth) (line : ℕ) → Feeds n again → Good n (parse_list_lit again d line)
  unfolding parse_list_lit
  Good-parse_list_lit n d line h =
      search (kept, Good-looped, Feeds-weaken, Good-list_items) depth 20

  pub Good-dict_body :
      (n : ℕ) (d : Depth) (line : ℕ) (first : Expr F)
      → Feeds n again
      → Good n (dict_body again d line first)
  unfolding dict_body
  Good-dict_body n d line first h =
      search (kept, Good-looped, Feeds-weaken, Good-comp_clauses, Good-dict_pairs) depth 20

  pub Good-set_body :
      (n : ℕ) (d : Depth) (line : ℕ) (first : Expr F)
      → Feeds n again
      → Good n (set_body again d line first)
  unfolding set_body
  Good-set_body n d line first h =
      search (kept, Good-looped, Feeds-weaken, Good-comp_clauses, Good-set_elems) depth 20

  pub Good-parse_dict_set_lit :
      (n : ℕ) (d : Depth) (line : ℕ) → Feeds n again → Good n (parse_dict_set_lit again d line)
  unfolding parse_dict_set_lit
  Good-parse_dict_set_lit n d line h = search (kept, Good-dict_body, Good-set_body) depth 20
