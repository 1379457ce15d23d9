-- ===== src/Tests/Toys.antt =====
-- Small instances of what the evaluation of expressions is given: float64 by integers, and a machine
-- that only makes lists.
use kolang.Prelude.{ℕ, ◌==◌, ◌&&◌, ◌≡◌, Bool, List, [], ◌∷◌, Option, none, some, arith}
use kolang.Prelude.Int.{ℤ, pos, pos_part, neg_part, ltb_ℤ, ◌+ℤ◌, ◌-ℤ◌, ◌*ℤ◌}
use kolang.Int64.{quot, is_zero}
use kolang.Control.World.{Signal, Outcome, ok, err, raise_signal, break_signal, World}
use kolang.Values.{Value, nil, list, Items, no_items, item, Floats}
use kolang.Values.Printed.{Printing}
use kolang.Operators.{Raised}
use kolang.Expressions.Interface.{Machine}

abbrev pub floats : Floats ℤ
floats = record {
  of_int = λ i. i;
  is_zero = is_zero;
  add = ◌+ℤ◌;
  sub = ◌-ℤ◌;
  mul = ◌*ℤ◌;
  div = quot;
  floor_div = quot;
  remainder = λ a b. a;
  power = λ a b. a;
  neg = λ a. pos 0 -ℤ a;
  eq = λ a b. pos_part a == pos_part b && neg_part a == neg_part b;
  lt = ltb_ℤ;
}

pub eq_comm : (t u : ℤ) → floats.eq t u ≡ floats.eq u t
eq_comm t u = ground arith

pub of_zero : (i : ℤ) → is_zero i ≡ Bool.true → floats.is_zero (floats.of_int i) ≡ Bool.true
of_zero i h = h

abbrev pub printing : Printing ℤ
printing = record { format_float = λ t. []; sorted = λ ts. ts; shown = λ s p. [] }

abbrev pub State : Type 0
State = World (Value ℤ) ℕ ℕ

abbrev pub raise : Raised → ℕ → State → Signal (Value ℤ) ℕ × State
raise class line s = (raise_signal (some 0) line, s)

abbrev items_of : List (Value ℤ) → Items ℤ
items_of [] = no_items
items_of (v ∷ vs) = item v (items_of vs)

abbrev list_of : Items ℤ → List (Value ℤ)
list_of no_items = []
list_of (item v vs) = v ∷ list_of vs

abbrev iterated : Value ℤ → State → Option (List (Value ℤ)) × State
iterated (list vs) s = (some (list_of vs), s)
iterated _ s = (none, s)

abbrev no_step : {A : Type 0} → State → Outcome (Value ℤ) ℕ A × State
no_step s = (err break_signal, s)

abbrev pub bare : Machine ℤ State (Value ℤ) ℕ
bare = record {
  number = λ n. nil;
  bool = λ b. nil;
  nil = nil;
  literal = λ l env raw. no_step;
  get = λ env n s. none;
  set_name = λ env n v s. s;
  new_env = λ env s. (s, 0);
  super_marker = λ l. no_step;
  to_bool = λ v l. no_step;
  apply_unary = λ op v l. no_step;
  apply_binop = λ op v w l. no_step;
  in_operator = λ v w l. no_step;
  new_list = λ vs s. (ok (list (items_of vs)), s);
  new_tuple = λ vs. no_step;
  stringify = λ v s. [];
  new_dict = λ m. no_step;
  new_set = λ m. no_step;
  new_channel = λ n. no_step;
  new_generator = λ l e cls env. no_step;
  iter_values = iterated;
  call = λ f vs kws l. no_step;
  call_method = λ v attr args env l. no_step;
  pipe_method = λ v attr vs l. no_step;
  attribute = λ v attr l. no_step;
  index = λ v i l. no_step;
  slice_bound = λ v l. no_step;
  slice = λ v lo hi st l. no_step;
  channel_size = λ v l. no_step;
  receive = λ v l. no_step;
}
