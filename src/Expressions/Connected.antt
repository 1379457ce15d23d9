-- ===== src/Expressions/Connected.antt =====
-- internal/eval: the evaluation of expressions, connected with the values, the operators and the
-- scopes.
use kolang.Prelude.{ℕ, ◌<◌, ◌≡◌, some, Text, length, text_eq, if◌then◌else◌}
use kolang.Syntax.{Number, int_val, f_val}
use kolang.Env.Store
use kolang.Env.Define.{length-set, get-set_lem}
use kolang.Control.World.{Signal, ok, err, Step, World}
use kolang.Values.{Value, nil, bool, int, float, Floats}
use kolang.Values.Printed.{Printing, stringify}
use kolang.Operators
use kolang.Operators.{Raised, Computed, result, raises, panics, holds, first_named, binop_cases}
use kolang.Expressions.Interface.{Machine}

module _ {F : Type 0} where
  abbrev pub number_value : Number F → Value F
  number_value (int_val i) = int i
  number_value (f_val t) = float t

-- `raise` makes an exception of a class on a line. `message` stands for the texts of the errors of
-- the interpreter, which the operators leave out.
module _ {F D R X : Type 0}
    (raise : Raised → ℕ → World (Value F) D R → Signal (Value F) X × World (Value F) D R)
    (message : Text) where
  -- A panic is an error of the interpreter here; no operator gives one.
  unfoldable pub outcome : {A : Type 0} → Computed A → Step (World (Value F) D R) (Value F) X A
  outcome (result a) s = (ok a, s)
  outcome (raises class line) s = (err (raise class line s).0, (raise class line s).1)
  outcome (Computed.runtime_error line) s = (err (Signal.runtime_error line message), s)
  outcome panics s = (err (Signal.runtime_error 0 message), s)

  -- The interpreter with these operators and scopes, and the rest of another one.
  unfoldable pub connected :
      Floats F
      → Printing F
      → Machine F (World (Value F) D R) (Value F) X
      → Machine F (World (Value F) D R) (Value F) X
  unfolding outcome Operators.to_bool Operators.apply_unary Operators.apply_binop first_named
      Operators.in_operator stringify Store.get Store.set Store.new_env
  connected floats printing others = record others {
    number = number_value;
    bool = bool;
    nil = nil;
    get = λ env name s. Store.get s.heap env name;
    set_name = λ env name v s. record s { heap = Store.set s.heap env name v };
    new_env = λ env s. (
      record s { heap = (Store.new_env s.heap (some env)).0 },
      (Store.new_env s.heap (some env)).1,
    );
    to_bool = λ v line. outcome (Operators.to_bool v line);
    apply_unary = λ op v line. outcome (Operators.apply_unary floats op v line);
    apply_binop =
        λ op l r line. outcome (Operators.apply_binop floats (first_named op binop_cases) l r line);
    in_operator = λ l r line. outcome (holds (Operators.in_operator floats printing l r line));
    stringify = λ v s. stringify printing v;
  }

-- What a comprehension asks of its scope holds of the store of scopes.
module _ {F D R X : Type 0} (floats : Floats F) (printing : Printing F)
    (raise : Raised → ℕ → World (Value F) D R → Signal (Value F) X × World (Value F) D R)
    (message : Text) (others : Machine F (World (Value F) D R) (Value F) X) (env : ℕ) where
  abbrev pub InStore : World (Value F) D R → Type 0
  InStore s = env < length s.heap

  pub set_name-InStore :
      (m : Text) (v : Value F) (s : World (Value F) D R)
      → InStore s
      → InStore ((connected raise message floats printing others).set_name env m v s)
  unfolding connected
  set_name-InStore m v s h = rw (length-set s.heap env m v) h

  pub get-set_name :
      (n m : Text) (v : Value F) (s : World (Value F) D R)
      → InStore s
      → (connected raise message floats printing others).get env n
          ((connected raise message floats printing others).set_name env m v s)
        ≡ (if text_eq m n
            then some v
            else (connected raise message floats printing others).get env n s)
  unfolding connected
  get-set_name n m v s h = get-set_lem s.heap env m n v h
