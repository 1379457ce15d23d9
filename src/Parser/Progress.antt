-- ===== src/Parser/Progress.antt =====
-- internal/parser/parser.go: what the parsing functions do to the number of tokens that are left.
-- `Good n m`: on fewer than `n` tokens `m` is not out of fuel and leaves no more tokens than it
-- found. `Eats n m`: where it succeeds, it leaves fewer.
pub mod Choices
pub mod Actions
pub mod Rules
pub mod Items
pub mod Terms
pub mod Signatures
pub mod Statements
pub mod Program
use kolang.Prelude.{
  ℕ, zero, suc, ◌+◌, ◌-◌, ◌≤◌, ◌<◌, ◌≡◌, refl, List, [], ◌∷◌, ◌++◌, Bool, true, false, arith,
  length, if_split, ◌&&◌, ap,
}
use kolang.Token.{Token, TokenType, eof}
use kolang.Syntax.{Expr, OptExpr, DecoratorStmt}
use kolang.Token.Spelling.{same_type}
use kolang.Parser.Operators.{prec_lowest}
use kolang.Parser.Items.{expression}
use kolang.Parser.Core.{
  Depth, Message, Reason, about, wanted, peek_in, tail, State, Result, done, failed, stuck, Parser,
  peek, peek_at_one, advance, pure, fail, fail_at, asking, take_if, see_if, see_before, take_before,
  looped, see_ahead, take_ahead, choose, bind_at, ◌>>=◌, next, match, lenient, expect, attempt_at,
  attempt, expect_name, push_decorator, take_pending,
}

pub length-tail : (ts : List Token) → length (tail ts) ≤ length ts
length-tail [] = omega arith
length-tail (t ∷ ts) = omega arith

module _ {F A : Type 0} where
  unfoldable pub Held : ℕ → ℕ → Result F A → Type 0
  Held e n (done a s) = e + length s.toks ≤ n
  Held e n (failed p s) = length s.toks ≤ n
  Held e n stuck = ⊥

  unfoldable pub Good : ℕ → Parser F A → Type 0
  unfolding Held
  Good n m = (s : State F) → length s.toks < n → Held 0 (length s.toks) (m s)

  unfoldable pub Eats : ℕ → Parser F A → Type 0
  unfolding Held
  Eats n m = (s : State F) → length s.toks < n → Held 1 (length s.toks) (m s)

  pub Held-weaken : (e n k : ℕ) (r : Result F A) → n ≤ k → Held e n r → Held e k r
  unfolding Held
  Held-weaken e n k (done a s) le h = omega arith
  Held-weaken e n k (failed p s) le h = omega arith
  Held-weaken e n k stuck le h = elim h [ ]

  pub Held-one : (n : ℕ) (r : Result F A) → Held 1 n r → Held 0 n r
  unfolding Held
  Held-one n (done a s) h = omega arith
  Held-one n (failed p s) h = h
  Held-one n stuck h = elim h [ ]

  pub Held-zero : (n k : ℕ) (r : Result F A) → n < k → Held 0 n r → Held 1 k r
  unfolding Held
  Held-zero n k (done a s) lt h = omega arith
  Held-zero n k (failed p s) lt h = omega arith
  Held-zero n k stuck lt h = elim h [ ]

  pub Good-of_Eats : (n : ℕ) (m : Parser F A) → Eats n m → Good n m
  unfolding Good Eats
  Good-of_Eats n m h s lt = Held-one (length s.toks) (m s) (h s lt)

  pub Good-weaken : (k n : ℕ) (m : Parser F A) → k ≤ n → Good n m → Good k m
  unfolding Good
  Good-weaken k n m le h s lt = h s (omega arith)

  pub Eats-weaken : (k n : ℕ) (m : Parser F A) → k ≤ n → Eats n m → Eats k m
  unfolding Eats
  Eats-weaken k n m le h s lt = h s (omega arith)

  pub Good-zero : (m : Parser F A) → Good 0 m
  unfolding Good
  Good-zero m s lt = absurd (omega arith)

  pub Eats-zero : (m : Parser F A) → Eats 0 m
  unfolding Eats
  Eats-zero m s lt = absurd (omega arith)

  pub Good-asking :
      (n : ℕ) (k : Token → Parser F A) → ((t : Token) → Good n (k t)) → Good n (asking k)
  unfolding Good asking
  Good-asking n k h s lt = h (peek s) s lt

  pub Eats-asking :
      (n : ℕ) (k : Token → Parser F A) → ((t : Token) → Eats n (k t)) → Eats n (asking k)
  unfolding Eats asking
  Eats-asking n k h s lt = h (peek s) s lt

  pub Good-choose :
      (n : ℕ) (b : Bool) (m k : Parser F A) → Good n m → Good n k → Good n (choose b m k)
  unfolding Good choose
  Good-choose n true m k hm hk s lt = hm s lt
  Good-choose n false m k hm hk s lt = hk s lt

  pub Good-looped :
      (n : ℕ) (f : ℕ → Parser F A) → ((k : ℕ) → k ≤ n → Good k (f k)) → Good n (looped f)
  unfolding Good looped
  Good-looped n f h s lt = h (suc (length s.toks)) (omega arith) s (omega arith)

  pub Eats-looped :
      (n : ℕ) (f : ℕ → Parser F A) → ((k : ℕ) → k ≤ n → Eats k (f k)) → Eats n (looped f)
  unfolding Eats looped
  Eats-looped n f h s lt = h (suc (length s.toks)) (omega arith) s (omega arith)
