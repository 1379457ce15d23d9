-- ===== src/Tests/Operating.antt =====
-- The operators, the placeholders of a text and the evaluation of expressions, at concrete inputs.
use kolang.Prelude.{
  ℕ, suc, ◌≡◌, refl, ap, Bool, true, false, List, [], ◌∷◌, ◌++◌, Option, none, some, Text, text_eq,
  text_eq_iff, lookup, has, Bool-cases, inl, inr, codes, arith, if◌then◌else◌,
}
use kolang.Prelude.Int.{ℤ, pos, negsuc}
use kolang.Int64.{quot64}
use kolang.Token.{plus, floordiv, pow, less}
use kolang.Token.Spelling.{spelling}
use kolang.Syntax.{Expr, number_lit, int_val, f_val, ident, binary_op}
use kolang.Env.Store.{get, get_in, scopes}
use kolang.Control.World.{ok, Step, bind, continue_with}
use kolang.Values.{Value, nil, bool, int, string, list, dict, no_items, item, no_entries, entry}
use kolang.Values.Equality.{equal}
use kolang.Values.Symmetry.{equal_comm}
use kolang.Operators.{to_bool, result, raises, exc_zero, apply_binop}
use kolang.Operators.Kinds.{Kind, int_kind, bool_kind, kind}
use kolang.Operators.Types.{Fits}
use kolang.Operators.Overflow.{MayOverflow, apply_binop-Exact}
use kolang.Interpolation.{interpolate}
use kolang.Interpolation.Placeholder.{empty, plain, braces}
use kolang.Interpolation.Template.{Part, literal, hole, written, filled, interpolate-written}
use kolang.Expressions.Connected.{outcome, connected, InStore, set_name-InStore, get-set_name}
use kolang.Expressions.Typing.{Context, HasKind, int_lit, float_lit, variable, operator}
use kolang.Expressions.Safety.{Safe, evaluated, eval_expr-Safe}
use kolang.Expressions.{Clause, passes, comp_rec}
use kolang.Expressions.Interface.{Machine}
use kolang.Expressions.Comprehension.{
  PureClause, Names, Agree, AllRead, IsScoped, comp_rec-elements,
}
use kolang.Tests.Toys.{floats, eq_comm, of_zero, printing, State, raise, bare}

-- The quotient of two int64 truncates, also below zero.
quotient_run :
    apply_binop floats floordiv (int (negsuc 6)) (int (pos 2)) 1 ≡ result (int (negsuc 2))
unfolding apply_binop quot64
quotient_run = refl

zero_run : apply_binop floats floordiv (string []) (int (pos 0)) 1 ≡ raises exc_zero 1
unfolding apply_binop
zero_run = refl

-- Two to the power of 64 is no int64.
apply_binop-Exact_example :
    Fits floats pow
      (int (pos 2))
      (int (pos 64))
      3
      (apply_binop floats pow (int (pos 2)) (int (pos 64)) 3)
    × MayOverflow
        (int (pos 2))
        (int (pos 64))
        (apply_binop floats pow (int (pos 2)) (int (pos 64)) 3)
apply_binop-Exact_example =
    apply_binop-Exact floats of_zero pow (int (pos 2)) (int (pos 64)) 3 (omega arith, omega arith)
      (omega arith, omega arith)

-- Two dictionaries that hold the same, in other orders.
abbrev first_dict : Value ℤ
first_dict =
    dict (entry (codes "a") (list (item (int (pos 1)) no_items)) (entry (codes "b") nil no_entries))

abbrev second_dict : Value ℤ
second_dict =
    dict (entry (codes "b") nil (entry (codes "a") (list (item (int (pos 1)) no_items)) no_entries))

dicts_equal : equal floats first_dict second_dict ≡ true
unfolding equal
dicts_equal = refl

equal_comm_example : equal floats first_dict second_dict ≡ equal floats second_dict first_dict
unfolding equal
equal_comm_example =
    equal_comm floats eq_comm first_dict second_dict ((refl, (refl, tt)), ((tt, tt), (tt, tt)))
      ((refl, (refl, tt)), (tt, ((tt, tt), tt)))

-- Texts with braces, and a placeholder with a dictionary and a text in it.
abbrev parts : List Part
parts = literal (codes "a{") ∷ hole (codes "f{}") ∷ literal (codes "}") ∷ []

abbrev echo : Text → Step ℕ Text Text Text
echo t s = (ok (codes "<" ++ t ++ codes ">"), suc s)

abbrev no_end : Step ℕ Text Text Text
no_end s = (ok [], s)

written-parts : written parts ≡ codes "a{{{f{}}}}"
written-parts = refl

interpolate-written_example : interpolate echo no_end (written parts) 0 ≡ filled echo no_end parts 0
interpolate-written_example =
    interpolate-written echo no_end parts 0
      (plain b'f' (refl, refl, (refl, refl)) (braces empty empty), refl, tt)

some_kind : {j k : Kind} → some j ≡ some k → j ≡ k
some_kind e = cc

none_kind : {k : Kind} → none ≡ some k → ⊥
none_kind e = cc

-- A scope with one name, and the expression `x + 2 < 7.0`.
abbrev state : State
state = record {
  heap =
      record {
        store = (codes "x", int (pos 5)) ∷ [];
        types = [];
        parent = none;
        globals = [];
        nonlocs = [];
      }
      ∷ [];
  defers = [];
  rest = 0;
}

abbrev kinds : Context
kinds name = if text_eq name (codes "x") then some int_kind else none

x_bound :
    (name : Text) (k : Kind)
    → text_eq name (codes "x") ≡ true
    → kinds name ≡ some k
    → (v : Value ℤ) × (get state.heap 0 name ≡ some v) × (kind v ≡ k)
unfolding get get_in scopes lookup kind
x_bound name k same h =
    let is : name ≡ codes "x" = (text_eq_iff name (codes "x")).0 same in
    let known : some int_kind ≡ some k = rw same at h in (int (pos 5), rw is refl, some_kind known)

kinds_hold :
    (name : Text) (k : Kind)
    → kinds name ≡ some k
    → (v : Value ℤ) × (get state.heap 0 name ≡ some v) × (kind v ≡ k)
kinds_hold name k h = elim (Bool-cases (text_eq name (codes "x"))) [
  | inl same ↦ x_bound name k same h
  | inr other ↦ let clash : none ≡ some k = rw other at h in absurd (none_kind clash)
]

abbrev comparison : Expr ℤ
comparison =
    binary_op 1 (spelling less)
      (binary_op 1 (spelling plus) (ident 1 (codes "x")) (number_lit 1 (int_val (pos 2))))
      (number_lit 1 (f_val (pos 7)))

comparison-HasKind : HasKind kinds comparison bool_kind
unfolding text_eq
comparison-HasKind =
    operator 1 (spelling less) less refl refl
      (operator 1 (spelling plus) plus refl refl (variable 1 (codes "x") refl refl)
        (int_lit 1 (pos 2)))
      (float_lit 1 (pos 7))

eval_expr-Safe_example :
    Safe floats printing raise [] bare of_zero bool_kind state
      (evaluated floats printing raise [] bare of_zero comparison 0 state)
eval_expr-Safe_example =
    eval_expr-Safe floats printing raise [] bare of_zero kinds 0 state kinds_hold comparison
      bool_kind comparison-HasKind

-- The elements j for i in [1, 2] and j in [i, 3] where i is bound.
abbrev machine : Machine ℤ State (Value ℤ) ℕ
machine = connected raise [] floats printing bare

abbrev value_in : Option (Value ℤ) → Value ℤ
value_in none = nil
value_in (some v) = v

abbrev is_bound : Option (Value ℤ) → Bool
is_bound none = false
is_bound (some v) = true

abbrev pair : Value ℤ → Value ℤ → Value ℤ
pair v w = list (item v (item w no_items))

abbrev clauses : List (Clause State (Value ℤ) ℕ)
clauses =
    record {
      line = 1;
      name = codes "i";
      iterable = λ s. (ok (pair (int (pos 1)) (int (pos 2))), s);
      filter = none;
    }
    ∷ record {
      line = 1;
      name = codes "j";
      iterable = λ s. (ok (pair (value_in (machine.get 0 (codes "i") s)) (int (pos 3))), s);
      filter = some (λ s. (ok (bool (is_bound (machine.get 0 (codes "i") s))), s));
    }
    ∷ []

abbrev pure_clauses : List (PureClause (Value ℤ))
pure_clauses =
    record {
      name = codes "i";
      items = λ names. int (pos 1) ∷ int (pos 2) ∷ [];
      keeps = λ names. true;
    }
    ∷ record {
      name = codes "j";
      items = λ names. value_in (names (codes "i")) ∷ int (pos 3) ∷ [];
      keeps = λ names. is_bound (names (codes "i"));
    }
    ∷ []

abbrev element_j : Names (Value ℤ) → Value ℤ
element_j names = value_in (names (codes "j"))

abbrev step_j : Step State (Value ℤ) ℕ (Value ℤ)
step_j s = (ok (value_in (machine.get 0 (codes "j") s)), s)

abbrev emit : List (Value ℤ) → Step State (Value ℤ) ℕ (List (Value ℤ))
emit out = bind step_j (λ v s. (ok (out ++ (v ∷ [])), s))

clauses-AllRead :
    AllRead machine 0
      (InStore floats printing raise [] bare 0)
      (set_name-InStore floats printing raise [] bare 0)
      (get-set_name floats printing raise [] bare 0)
      clauses
      pure_clauses
unfolding passes connected outcome to_bool continue_with
clauses-AllRead = (
  (refl, λ s op. (pair (int (pos 1)) (int (pos 2)), refl, refl), λ s op. refl),
  (
    (
      refl,
      λ s op. (pair (value_in (machine.get 0 (codes "i") s)) (int (pos 3)), refl, refl),
      λ s op. refl,
    ),
    tt,
  ),
)

clauses-IsScoped : IsScoped pure_clauses
unfolding has text_eq
clauses-IsScoped = (
  λ names names' agree. refl,
  λ names names' agree. refl,
  (
    λ names names' agree. ap (λ o. value_in o ∷ int (pos 3) ∷ []) (agree (codes "i") refl),
    λ names names' agree. ap is_bound (agree (codes "i") refl),
    tt,
  ),
)

comp_rec-elements_example :
    (s : State) × (comp_rec machine 0 emit clauses [] state
      ≡ (ok (int (pos 1) ∷ int (pos 3) ∷ int (pos 2) ∷ int (pos 3) ∷ []), s))
    × Agree (codes "i" ∷ codes "j" ∷ []) (λ n. machine.get 0 n state) (λ n. machine.get 0 n s)
    × InStore floats printing raise [] bare 0 s
unfolding text_eq
comp_rec-elements_example =
    comp_rec-elements machine 0 (InStore floats printing raise [] bare 0)
      (set_name-InStore floats printing raise [] bare 0)
      (get-set_name floats printing raise [] bare 0) step_j element_j (λ s op. refl) clauses
      pure_clauses clauses-AllRead clauses-IsScoped state [] (omega arith)
