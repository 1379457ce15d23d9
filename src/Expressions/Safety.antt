-- ===== src/Expressions/Safety.antt =====
-- internal/eval/eval_expr.go: `evalExpr` of an expression that has a type.
use kolang.Prelude.{
  ℕ, ◌≡◌, refl, sym, ◌∙◌, ◌⊎◌, inl, inr, Bool, true, false, [], ◌∷◌, some, Text, codes, text_eq,
  not, if_split,
}
use mathlib.Core.Path.{subst}
use kolang.Prelude.Int.{ℤ}
use kolang.Int64.{neg64, is_zero}
use kolang.Token.{TokenType, pow, and_kw, or_kw}
use kolang.Token.Spelling.{spelling}
use kolang.Syntax.{Expr}
use kolang.Env.Store
use kolang.Control.World.{Signal, Outcome, ok, err, Step, World, bind, continue_with}
use kolang.Values.{Value, nil, bool, int, float, Floats}
use kolang.Values.Printed.{Printing}
use kolang.Operators
use kolang.Operators.{
  Raised, exc_zero, exc_val, exc_type, Computed, result, raises, panics, apply_binop, first_named,
  binop_cases,
}
use kolang.Operators.Kinds.{Kind, int_kind, float_kind, bool_kind, kind, binop_kinds, IsKind}
use kolang.Operators.Named.{IsBinop, typed-IsBinop}
use kolang.Operators.Types.{Fits, apply_binop-Fits}
use kolang.Expressions.Messages.{super_name}
use kolang.Expressions.Interface.{Machine}
use kolang.Expressions.{eval_ident, eval_binary, short_circuit, eval_ternary, same_truth}
use kolang.Expressions.Evaluate.{eval_expr}
use kolang.Expressions.Connected.{outcome, connected}
use kolang.Expressions.Typing.{
  Context, HasKind, int_lit, float_lit, truth, nothing, variable, negative, opposite, logical,
  operator, conditional,
}

single : (k j : Kind) → IsKind k (j ∷ []) → k ≡ j
single k j (inl e) = e
single k j (inr e) = absurd e

module _ {F : Type 0} where
  bool_value : (v : Value F) → kind v ≡ bool_kind → (b : Bool) × (v ≡ bool b)
  unfolding kind
  bool_value (bool b) h = (b, refl)
  bool_value nil h = absurd (cc)
  bool_value _ h = absurd (cc)

no_kind : {k : Kind} → [] ≡ k ∷ [] → ⊥
no_kind e = cc

power_kinds_of :
    (t : TokenType) (a b : Kind)
    → t ≡ pow
    → a ≡ int_kind
    → b ≡ int_kind
    → binop_kinds t a b ≡ binop_kinds pow int_kind int_kind
power_kinds_of t a b e f g = rw (e, f, g) refl

two_kinds : {k : Kind} → binop_kinds pow int_kind int_kind ≡ k ∷ [] → ⊥
two_kinds e = cc

module _ {F D R X : Type 0} (floats : Floats F) (printing : Printing F)
    (raise : Raised → ℕ → World (Value F) D R → Signal (Value F) X × World (Value F) D R)
    (message : Text) (others : Machine F (World (Value F) D R) (Value F) X)
    (of_zero : (i : ℤ) → is_zero i ≡ true → floats.is_zero (floats.of_int i) ≡ true) where
  abbrev pub evaluated : Expr F → ℕ → Step (World (Value F) D R) (Value F) X (Value F)
  evaluated = eval_expr (connected raise message floats printing others)

  -- A value of a kind in an unchanged state, or the exception of a division by zero.
  pub data Safe (k : Kind) (s : World (Value F) D R)
      (r : Outcome (Value F) X (Value F) × World (Value F) D R) : Type 0 where
    gives : (v : Value F) → kind v ≡ k → r ≡ (ok v, s) → Safe k s r
    divides_by_zero :
        (line : ℕ) → r ≡ (err (raise exc_zero line s).0, (raise exc_zero line s).1) → Safe k s r

  -- The names of a context are bound to values of their kinds.
  abbrev pub Models : Context → ℕ → World (Value F) D R → Type 0
  Models names env s =
      (name : Text) (k : Kind)
      → names name ≡ some k
      → (v : Value F) × (Store.get s.heap env name ≡ some v) × (kind v ≡ k)

  bind-Safe :
      {j k : Kind} (s : World (Value F) D R) (m : Step (World (Value F) D R) (Value F) X (Value F))
      (f : Value F → Step (World (Value F) D R) (Value F) X (Value F))
      → Safe j s (m s)
      → ((v : Value F) → kind v ≡ j → Safe k s (f v s))
      → Safe k s (bind m f s)
  unfolding continue_with
  bind-Safe s m f (gives v h e) next = rw e (next v h)
  bind-Safe s m f (divides_by_zero line e) next = divides_by_zero line (rw e refl)

  Fits-Safe :
      (t : TokenType) (l r : Value F) (line : ℕ) (s : World (Value F) D R) (k : Kind)
      → binop_kinds t (kind l) (kind r) ≡ k ∷ []
      → (c : Computed (Value F)) → Fits floats t l r line c
      → Safe k s (outcome raise message c s)
  unfolding outcome
  Fits-Safe t l r line s k kinds (result v) h =
      gives v (single (kind v) k (subst (IsKind (kind v)) kinds h.0)) refl
  Fits-Safe t l r line s k kinds (raises exc_zero n) h = divides_by_zero n refl
  Fits-Safe t l r line s k kinds (raises exc_val n) h =
      absurd (two_kinds (sym (power_kinds_of t (kind l) (kind r) h.0 h.1 h.2) ∙ kinds))
  Fits-Safe t l r line s k kinds (raises exc_type n) h = absurd (no_kind (sym h.0 ∙ kinds))
  Fits-Safe t l r line s k kinds (Computed.runtime_error n) h = absurd (no_kind (sym h ∙ kinds))
  Fits-Safe t l r line s k kinds panics h = absurd h

  apply_binop-Safe :
      (t : TokenType) (l r : Value F) (line : ℕ) (s : World (Value F) D R) (k : Kind)
      → binop_kinds t (kind l) (kind r) ≡ k ∷ []
      → Safe k s (outcome raise message (apply_binop floats t l r line) s)
  apply_binop-Safe t l r line s k kinds =
      Fits-Safe t l r line s k kinds (apply_binop floats t l r line)
        (apply_binop-Fits floats of_zero t l r line)

  ident-Safe :
      (names : Context) (k : Kind) (l : ℕ) (name : Text) (env : ℕ) (s : World (Value F) D R)
      → text_eq name super_name ≡ false
      → (v : Value F) → Store.get s.heap env name ≡ some v
      → kind v ≡ k
      → Safe k s (eval_ident (connected raise message floats printing others) l name env s)
  unfolding eval_ident connected
  ident-Safe names k l name env s own v found h = gives v h (rw (own, found) refl)

  abbrev machine : Machine F (World (Value F) D R) (Value F) X
  machine = connected raise message floats printing others

  abbrev Run : Type 0
  Run = Step (World (Value F) D R) (Value F) X (Value F)

  negative-Safe :
      (op : Text) (v : Value F) (line : ℕ) (s : World (Value F) D R) (k : Kind)
      → op ≡ codes "-"
      → (k ≡ int_kind) ⊎ (k ≡ float_kind)
      → kind v ≡ k
      → Safe k s (machine.apply_unary op v line s)
  unfolding connected Operators.apply_unary outcome kind text_eq
  negative-Safe op (int i) line s k e n h = gives (int (neg64 i)) h (rw e refl)
  negative-Safe op (float t) line s k e n h = gives (float (floats.neg t)) h (rw e refl)
  negative-Safe op nil line s k e (inl n) h = absurd (cc)
  negative-Safe op nil line s k e (inr n) h = absurd (cc)
  negative-Safe op _ line s k e (inl n) h = absurd (cc)
  negative-Safe op _ line s k e (inr n) h = absurd (cc)

  opposite-Safe :
      (op : Text) (b : Bool) (line : ℕ) (s : World (Value F) D R)
      → op ≡ codes "not"
      → Safe bool_kind s (machine.apply_unary op (bool b) line s)
  unfolding connected Operators.apply_unary Operators.to_bool outcome kind text_eq
  opposite-Safe op b line s e = gives (bool (not b)) refl (rw e refl)

  opposite_value :
      (op : Text) (v : Value F) (line : ℕ) (s : World (Value F) D R)
      → op ≡ codes "not"
      → kind v ≡ bool_kind
      → Safe bool_kind s (machine.apply_unary op v line s)
  opposite_value op v line s e h =
      let (b, shape) = bool_value v h in
      subst (λ w. Safe bool_kind s (machine.apply_unary op w line s)) (sym shape)
        (opposite-Safe op b line s e)

  -- A condition that is a truth is passed on.
  with_bool :
      {k : Kind} (b : Bool) (line : ℕ) (s : World (Value F) D R) (f : Bool → Run)
      → Safe k s (f b s)
      → Safe k s (bind (machine.to_bool (bool b) line) f s)
  unfolding connected Operators.to_bool outcome continue_with
  with_bool b line s f h = h

  bool-Safe :
      {k : Kind} (m : Run) (line : ℕ) (s : World (Value F) D R) (f : Bool → Run)
      → Safe bool_kind s (m s)
      → ((b : Bool) → Safe k s (f b s))
      → Safe k s (bind m (λ v. bind (machine.to_bool v line) f) s)
  bool-Safe {k} m line s f h next =
      bind-Safe s m (λ v. bind (machine.to_bool v line) f) h
        (λ v e.
          let (b, shape) = bool_value v e in
          subst (λ w. Safe k s (bind (machine.to_bool w line) f s)) (sym shape)
            (with_bool b line s f (next b)))

  bool_result : (b : Bool) (s : World (Value F) D R) → Safe bool_kind s (ok (machine.bool b), s)
  unfolding connected kind
  bool_result b s = gives (bool b) refl refl

  short_circuit-Safe :
      (stop : Bool) (line : ℕ) (left right : Run) (s : World (Value F) D R)
      → Safe bool_kind s (left s)
      → Safe bool_kind s (right s)
      → Safe bool_kind s (short_circuit machine stop line left right s)
  unfolding short_circuit
  short_circuit-Safe stop line left right s h g = bool-Safe left line s _ h (λ b.
      if_split {A = Run} (λ m. Safe bool_kind s (m s)) (same_truth b stop) _ _
        (λ _. bool_result stop s) (λ _. bool-Safe right line s _ g (λ c. bool_result c s)))

  ternary-Safe :
      {k : Kind} (line : ℕ) (cond on_true on_false : Run) (s : World (Value F) D R)
      → Safe bool_kind s (cond s)
      → Safe k s (on_true s)
      → Safe k s (on_false s)
      → Safe k s (eval_ternary machine line cond on_true on_false s)
  unfolding eval_ternary
  ternary-Safe {k} line cond on_true on_false s h g f =
      bool-Safe cond line s _ h
        (λ b. if_split {A = Run} (λ m. Safe k s (m s)) b on_true on_false (λ _. g) (λ _. f))

  -- The step of an operator of `applyBinop`.
  operator_step :
      (line : ℕ) (op : Text) (t : TokenType) (left right : Run) (s : World (Value F) D R)
      → op ≡ spelling t
      → IsBinop t
      → bind left (λ l. bind right (λ r. machine.apply_binop op l r line)) s
        ≡ eval_binary machine line op left right s
  unfolding eval_binary
  operator_step line op t left right s e is = rw (e, is.no_and, is.no_or, is.no_in) refl

  machine_binop :
      (op : Text) (t : TokenType) (l r : Value F) (line : ℕ) (s : World (Value F) D R)
      → op ≡ spelling t
      → IsBinop t
      → outcome raise message (apply_binop floats t l r line) s ≡ machine.apply_binop op l r line s
  unfolding connected
  machine_binop op t l r line s e is = rw (e, is.named) refl

  operator-Safe :
      {a b k : Kind} (line : ℕ) (op : Text) (t : TokenType) (left right : Run)
      (s : World (Value F) D R)
      → op ≡ spelling t
      → binop_kinds t a b ≡ k ∷ []
      → Safe a s (left s)
      → Safe b s (right s)
      → Safe k s (eval_binary machine line op left right s)
  operator-Safe {a} {b} {k} line op t left right s e kinds h g =
      let is = typed-IsBinop t a b kinds in
      subst (Safe k s) (operator_step line op t left right s e is) (
        bind-Safe s left _ h (λ l el.
          bind-Safe s right (λ r. machine.apply_binop op l r line) g
            (λ r er.
              subst (Safe k s) (machine_binop op t l r line s e is)
                (apply_binop-Safe t l r line s k (rw (el, er) kinds)))))

  logical-Safe :
      (line : ℕ) (op : Text) (left right : Run) (s : World (Value F) D R)
      → (op ≡ spelling and_kw) ⊎ (op ≡ spelling or_kw)
      → Safe bool_kind s (left s)
      → Safe bool_kind s (right s)
      → Safe bool_kind s (eval_binary machine line op left right s)
  unfolding eval_binary
  logical-Safe line op left right s (inl e) h g =
      rw e (short_circuit-Safe false line left right s h g)
  logical-Safe line op left right s (inr e) h g =
      rw e (short_circuit-Safe true line left right s h g)

  module _ (names : Context) (env : ℕ) (s : World (Value F) D R) (models : Models names env s) where
    typed-Safe : {e : Expr F} {k : Kind} → HasKind names e k → Safe k s (eval_expr machine e env s)
    unfolding eval_expr connected kind
    typed-Safe (int_lit l i) = gives (int i) refl refl
    typed-Safe (float_lit l t) = gives (float t) refl refl
    typed-Safe (truth l b) = gives (bool b) refl refl
    typed-Safe (nothing l) = gives nil refl refl
    typed-Safe (variable {k} l name own bound) =
        let (v, found, h) = models name k bound in ident-Safe names k l name env s own v found h
    typed-Safe (negative {e} {k} l op is n h) =
        bind-Safe s (eval_expr machine e env) (λ v. machine.apply_unary op v l) (typed-Safe h)
          (λ v kv. negative-Safe op v l s k is n kv)
    typed-Safe (opposite {e} l op is h) =
        bind-Safe s (eval_expr machine e env) (λ v. machine.apply_unary op v l) (typed-Safe h)
          (λ v kv. opposite_value op v l s is kv)
    typed-Safe (logical {e} {f} l op is h g) =
        logical-Safe l op (eval_expr machine e env) (eval_expr machine f env) s is (typed-Safe h)
          (typed-Safe g)
    typed-Safe (operator {e} {f} l op t is kinds h g) =
        operator-Safe l op t (eval_expr machine e env) (eval_expr machine f env) s is kinds
          (typed-Safe h) (typed-Safe g)
    typed-Safe (conditional {c} {e} {f} l h g d) =
        ternary-Safe l (eval_expr machine c env) (eval_expr machine e env) (eval_expr machine f env)
          s (typed-Safe h) (typed-Safe g) (typed-Safe d)

  -- Where the float64 of the int64 zero is zero: in a scope whose names have the kinds that a context
  -- gives them, an expression of numbers, truths, names and operators that has a kind in the
  -- context gives a value of that kind, or raises the division by zero. It never meets a type error,
  -- a missing name or another error, and a value leaves the state as it was.
  pub eval_expr-Safe :
      (names : Context) (env : ℕ) (s : World (Value F) D R)
      → Models names env s
      → (e : Expr F) (k : Kind) → HasKind names e k
      → Safe k s (evaluated e env s)
  eval_expr-Safe names env s models e k h = typed-Safe names env s models h
