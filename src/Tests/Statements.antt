-- ===== src/Tests/Statements.antt =====
-- Statements, on a world whose one variable part is a counter.
use kolang.Prelude.{
  ℕ, ◌-◌, ◌≡◌, refl, ap, List, [], ◌∷◌, ◌++◌, Option, some, Bool, false, arith, length, map, ltb,
  if◌then◌else◌, ◌==◌,
}
use kolang.Prelude.Int.{ℤ, pos, pos_part}
use kolang.Control.World.{
  Outcome, ok, err, Step, World, return_signal, break_signal, raise_signal, runtime_error,
}
use kolang.Control.Loops.{eval_while, values_from, range_loop, items_loop, set_name}
use kolang.Control.Loops.Range.{range_loop-values_from}
use kolang.Control.Loops.Escape.{EndsOutside, eval_while-EndsOutside, eval_while_ends}
use kolang.Control.Try.{Handler, eval_try, matches_exception}
use kolang.Control.Try.Handlers.{skips_nil, skips_cons, RunsLast, eval_try_lem}
use kolang.Control.Calls.{run_defers, call_function, Callee, add_to}
use kolang.Control.Program.{TopStmt, stmt, break_stmt, eval_program, eval_repl_stmts}
use kolang.Control.Program.Agree.{reported, IsReport, eval_program_lem}
use kolang.Control.Params.{Binding, Param, bind_params}
use kolang.Control.Params.Count.{Unnamed, set_all, bind_params_lem}
use kolang.Prelude.{none, ◌≤◌, lookup}
use kolang.Control.Calls.Order.{reverse, Calls, run_defers-Calls}
use kolang.Control.Calls.Balance.{call_function-Keeps}

-- Values, exceptions and deferred calls are numbers; the rest of the world is a list of those met.
abbrev W : Type 0
W = World ℕ ℕ (List ℕ)

abbrev Act : Type 0
Act = Step W ℕ ℕ ℕ

abbrev start : W
start = record { heap = []; defers = []; rest = [] }

-- Writes a number down; the number 3 raises an exception, too.
abbrev note : ℕ → W → W
note n s = record s { rest = s.rest ++ (n ∷ []) }

abbrev call : ℕ → Act
call n s = (if n == 3 then err (raise_signal (some 3) 1) else ok n, note n s)

abbrev below_two : Step W ℕ ℕ Bool
below_two s = (ok (ltb (length s.rest) 2), s)

-- The body of a loop that breaks once it is there.
abbrev breaking : Act
breaking s = (err break_signal, note 0 s)

abbrev counting : Act
counting s = (ok 0, note 0 s)

eval_while-EndsOutside_example : EndsOutside (eval_while 3 0 below_two breaking start)
eval_while-EndsOutside_example = eval_while-EndsOutside 0 below_two breaking (λ s. tt) 3 start

-- Loops on numbers: the state is a counter.
abbrev positive : Step ℕ ℕ ℕ Bool
positive s = (ok (ltb 0 s), s)

abbrev minus_one : Step ℕ ℕ ℕ ℕ
minus_one s = (ok 0, s - 1)

eval_while_ends_example : (r : Outcome ℕ ℕ ℕ × ℕ) × (eval_while 6 0 positive minus_one 5 ≡ some r)
eval_while_ends_example =
    eval_while_ends 0 positive minus_one (λ s. s) (λ s h. ground arith) 6 5 (omega arith)

abbrev as_value : ℤ → ℕ
as_value i = pos_part i

abbrev body : ℕ → Act
body e s = (ok e, note e s)

range_loop-values_from_example :
    range_loop 4 0 (pos 1) (pos 3) (λ j. set_name [] (as_value j)) body 0 (pos 0) start
    ≡ items_loop 0 (λ v. set_name [] v) body 0 (map as_value (pos 0 ∷ pos 1 ∷ pos 2 ∷ [])) start
unfolding values_from
range_loop-values_from_example =
    range_loop-values_from 0 as_value (λ v. set_name [] v) body 0 4 (pos 1) (pos 3) (pos 0)
      (pos 0 ∷ pos 1 ∷ pos 2 ∷ []) refl start

-- Of three calls, the one deferred second raises, and so the first is not run.
run_defers-Calls_example :
    Calls call (1 ∷ 3 ∷ 2 ∷ []) start (run_defers call (reverse (1 ∷ 3 ∷ 2 ∷ [])) start)
run_defers-Calls_example = run_defers-Calls call (1 ∷ 3 ∷ 2 ∷ []) start

-- The last one raises, and the others are not run.
run_defers_raised :
    run_defers call (1 ∷ 3 ∷ 2 ∷ []) start ≡ (some (raise_signal (some 3) 1), note 3 (note 2 start))
unfolding run_defers
run_defers_raised = refl

-- The call of a function that writes 1 down, defers the writing of 2, and returns 7.
abbrev callee : Callee ℕ ℕ ℕ (List ℕ)
callee = record {
  is_generator = false;
  generator = 0;
  too_deep = runtime_error 0 [];
  env = 0;
  bind_params = λ e s. (ok 0, s);
  check_params = λ e s. (ok 0, s);
  check_return = λ e v s. (ok 0, s);
  body = λ e s. (err (return_signal 7), note 1 (record s { defers = add_to 2 s.defers }));
}

call_function-Keeps_example : (call_function 0 call callee start).1.defers ≡ []
unfolding add_to
call_function-Keeps_example =
    call_function-Keeps 0 call callee (λ d s. refl) (λ e s. refl) (λ e s. refl) (λ e v s. refl)
      (λ e s d ds h. (d ++ (2 ∷ []), ap add_two h)) start
  where
    add_two : List (List ℕ) → List (List ℕ)
    add_two xs = add_to 2 xs

-- A block that raises 4, a handler for 5, and one for 4. The value of a class expression is its class.
abbrev handler : ℕ → ℕ → Handler W ℕ ℕ
handler c n = record { exception = some (call c); bind_alias = λ x s. s; body = call n }

abbrev matches : Option ℕ → Option Act → Step W ℕ ℕ Bool
matches = matches_exception {C = ℕ} (λ v. some v) (λ x c. x == c) (λ g. g) (runtime_error 0 [])

abbrev raising : Act
raising s = (err (raise_signal (some 4) 1), note 0 s)

eval_try_example :
    RunsLast
      (some (call 6))
      (call 2 (note 4 (note 5 (note 0 start))))
      (eval_try matches raising ((handler 5 1 ∷ []) ++ (handler 4 2 ∷ [])) (some (call 6)) start)
    × RunsLast
        (some (call 6))
        (err (raise_signal (some 4) 1), note 5 (note 0 start))
        (eval_try matches raising (handler 5 1 ∷ []) (some (call 6)) start)
unfolding matches_exception
eval_try_example =
    eval_try_lem matches (some 4) 1 raising (handler 5 1 ∷ []) [] (handler 4 2) (some (call 6))
      start (note 0 start) (note 5 (note 0 start)) (note 4 (note 5 (note 0 start))) refl
      (skips_cons refl skips_nil) refl

-- A program whose last statement is a bare `break`. Its global scope is noted as it is made.
abbrev statements : ℕ → List (TopStmt W ℕ ℕ)
statements e = stmt (call e) ∷ break_stmt 2 ∷ []

abbrev installed : W → W × ℕ
installed s = (note 8 s, 1)

eval_program_example :
    (eval_program (λ x. []) 0 installed (note 9) statements start ≡ (
      reported (eval_repl_stmts (λ x. []) 0 (statements 1) (note 8 start)).0,
      note 9 (eval_repl_stmts (λ x. []) 0 (statements 1) (note 8 start)).1,
    ))
    × IsReport (eval_repl_stmts (λ x. []) 0 (statements 1) (note 8 start)).0
eval_program_example = eval_program_lem (λ x. []) 0 installed (note 9) statements start

abbrev binding : Binding ℕ ℕ ℕ (List ℕ)
binding = record {
  make_list = λ vs. length vs;
  make_dict = λ kvs. length kvs;
  kwargs = (2 ∷ [], 20) ∷ [];
  env = 0;
  nil = 0;
  duplicate = λ s. (raise_signal none 1, s);
  too_many = λ s. (raise_signal none 1, s);
}

abbrev param : ℕ → Param W ℕ ℕ
param n = record {
  name = n ∷ [];
  default = none;
  variadic = false;
  kwargs = false;
  missing = runtime_error 1 [];
}

-- The first parameter is bound by position, and the second one by its keyword.
bind_params_example :
    (1 ≤ 2)
    × Unnamed binding.kwargs (param 1 ∷ param 2 ∷ []) (10 ∷ [])
    × (bind_params binding (param 1 ∷ param 2 ∷ []) (10 ∷ []) [] start
        ≡ bind_params binding
            (param 2 ∷ [])
            []
            []
            (record start { heap = set_all start.heap 0 (param 1 ∷ param 2 ∷ []) (10 ∷ []) }))
unfolding bind_params lookup
bind_params_example =
    bind_params_lem binding (param 1 ∷ param 2 ∷ []) (10 ∷ []) [] start 0
      ((refl, refl, (refl, refl, tt))) refl
