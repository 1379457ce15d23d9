-- ===== src/Expressions/Literals.antt =====
-- internal/eval: `evalExpr` with the literals of texts, whose placeholders are expressions again, and
-- with the methods and the frames.
use kolang.Prelude.{ℕ, zero, suc, Option, Text}
use kolang.Lexer.Strconv.{Strconv}
use kolang.Control.World.{Step, bind}
use kolang.Interpolation.{interpolate, placeholder_text}
use kolang.Methods.{Objects, call_method, pipe_method, super_marker}
use kolang.Expressions.{give}
use kolang.Expressions.Interface.{Machine}
use kolang.Expressions.Evaluate.{eval_expr}

module _ {F Fn S V X : Type 0} where
  -- The dispatch of methods, and the parent class by name.
  unfoldable pub with_objects : Objects Fn S V X → Machine F S V X → Machine F S V X
  unfolding call_method pipe_method super_marker
  with_objects objects machine = record machine {
    super_marker = super_marker objects;
    call_method = call_method objects;
    pipe_method = pipe_method objects;
  }

-- The value of a text, the texts of values, and the two errors, on the line of the literal.
module _ {F S V X : Type 0} (parse_float : Text → Option F) (conv : Strconv) (string : Text → V)
    (shown : V → Text) (invalid : ℕ → Step S V X V) (unfinished : ℕ → Step S V X Text) where
  -- Literals inside of the placeholders of literals, to a depth; deeper ones are left to the machine
  -- that is given.
  unfoldable pub with_literals : ℕ → Machine F S V X → Machine F S V X
  unfolding interpolate placeholder_text eval_expr
  with_literals zero machine = machine
  with_literals (suc depth) machine = record machine {
    literal = λ line env raw.
        bind
          (interpolate
            (placeholder_text parse_float conv shown
              (λ e. eval_expr (with_literals depth machine) e env) (invalid line))
            (unfinished line) raw)
          (λ t. give (string t));
  }
