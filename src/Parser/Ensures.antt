-- ===== src/Parser/Ensures.antt =====
-- internal/parser/parser.go: what holds where a parsing function succeeds.
use kolang.Prelude.{ℕ, suc, Bool, length, if_split}
use kolang.Token.{Token, TokenType}
use kolang.Parser.Core.{
  Parser, State, Result, done, failed, stuck, peek, pure, bind_at, ◌>>=◌, take_if, Reason, looped,
  asking, fail, out_of_fuel, advance,
}

-- What holds of the value and the state where an action succeeds.
module _ {F A : Type 0} where
  unfoldable pub Gives : (A → State F → Type 0) → Result F A → Type 0
  Gives P (done a s) = P a s
  Gives P (failed p s) = Unit
  Gives P stuck = Unit

  unfoldable pub Ensures : (A → State F → Type 0) → Parser F A → Type 0
  unfolding Gives
  Ensures P m = (s : State F) → Gives P (m s)

  pub Ensures-fail : (P : A → State F → Type 0) (r : Reason) → Ensures P (fail r)
  unfolding Ensures Gives fail
  Ensures-fail P r s = tt

  pub Ensures-out_of_fuel : (P : A → State F → Type 0) → Ensures P out_of_fuel
  unfolding Ensures Gives out_of_fuel
  Ensures-out_of_fuel P s = tt

  pub Ensures-asking :
      (P : A → State F → Type 0) (k : Token → Parser F A)
      → ((t : Token) → Ensures P (k t))
      → Ensures P (asking k)
  unfolding Ensures asking
  Ensures-asking P k h s = h (peek s) s

  pub Ensures-looped :
      (P : A → State F → Type 0) (f : ℕ → Parser F A)
      → ((n : ℕ) → Ensures P (f n))
      → Ensures P (looped f)
  unfolding Ensures looped
  Ensures-looped P f h s = h (suc (length s.toks)) s

  pub Ensures-take_if :
      (P : A → State F → Type 0) (test : TokenType → Bool) (hit : Token → Parser F A)
      (miss : Parser F A)
      → ((t : Token) → Ensures P (hit t))
      → Ensures P miss
      → Ensures P (take_if test hit miss)
  unfolding Ensures take_if
  Ensures-take_if P test hit miss h k s =
      if_split (Gives P) (test (peek s).type) (hit (peek s) (advance s)) (miss s)
        (λ _. h (peek s) (advance s)) (λ _. k s)

module _ {F A B : Type 0} where
  Gives-bind_at :
      (P : B → State F → Type 0) (k : A → Parser F B) (r : Result F A)
      → ((a : A) → Ensures P (k a))
      → Gives P (bind_at k r)
  unfolding Ensures Gives bind_at
  Gives-bind_at P k (done a s) h = h a s
  Gives-bind_at P k (failed p s) h = tt
  Gives-bind_at P k stuck h = tt

  pub Ensures-bind :
      (P : B → State F → Type 0) (m : Parser F A) (k : A → Parser F B)
      → ((a : A) → Ensures P (k a))
      → Ensures P (m >>= k)
  unfolding Ensures ◌>>=◌
  Ensures-bind P m k h s = Gives-bind_at P k (m s) h

  Gives-then_pure :
      (P : State F → Type 0) (f : A → B) (r : Result F A)
      → Gives (λ a s. P s) r
      → Gives (λ b s. P s) (bind_at (λ a. pure (f a)) r)
  unfolding Gives bind_at pure
  Gives-then_pure P f (done a s) h = h
  Gives-then_pure P f (failed p s) h = tt
  Gives-then_pure P f stuck h = tt

  -- A last step that leaves the state.
  pub Ensures-then_pure :
      (P : State F → Type 0) (f : A → B) (m : Parser F A)
      → Ensures (λ a s. P s) m
      → Ensures (λ b s. P s) (m >>= λ a. pure (f a))
  unfolding Ensures ◌>>=◌
  Ensures-then_pure P f m h s = Gives-then_pure P f (m s) (h s)
