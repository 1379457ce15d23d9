-- ===== src/Parser/Progress/Choices.antt =====
-- internal/parser/parser.go: the tokens behind a choice by the tokens that come next.
use kolang.Prelude.{
  ℕ, suc, ◌<◌, ◌≡◌, List, [], ◌∷◌, Bool, true, false, arith, length, if_split, ◌&&◌, ap,
}
use kolang.Token.{Token, TokenType, eof}
use kolang.Syntax.{DecoratorStmt}
use kolang.Token.Spelling.{same_type}
use kolang.Parser.Core.{
  peek_in, tail, State, Parser, peek, peek_at_one, advance, take_if, see_if, see_before,
  take_before, see_ahead, take_ahead,
}
use kolang.Parser.Progress.{Held, Good, Eats, length-tail, Held-weaken, Held-one, Held-zero}

module _ {F A : Type 0} where
  -- A test that the end fails: where it holds there is a token to take.
  Held-advance :
      (m : Parser F A) (n : ℕ) (ts : List Token) (p : List (DecoratorStmt F))
      (test : List Token → Bool)
      → test [] ≡ false
      → Good n m
      → length ts < suc n
      → test ts ≡ true
      → Held 1 (length ts) (m (advance (record { toks = ts; pending = p })))
  unfolding Good
  Held-advance m n [] p test e h lt b = absurd (cc)
  Held-advance m n (t ∷ ts) p test e h lt b =
      Held-zero (length ts) (suc (length ts)) (m (record { toks = ts; pending = p })) (omega arith)
        (h (record { toks = ts; pending = p }) (omega arith))

  pub Eats-take_ahead :
      (n : ℕ) (test : List Token → Bool) (hit : Token → Parser F A) (miss : Parser F A)
      → test [] ≡ false
      → ((t : Token) → Good n (hit t))
      → Eats (suc n) miss
      → Eats (suc n) (take_ahead test hit miss)
  unfolding Eats take_ahead
  Eats-take_ahead n test hit miss e h k s lt =
      if_split (Held 1 (length s.toks)) (test s.toks) (hit (peek s) (advance s)) (miss s)
        (λ b. Held-advance (hit (peek s)) n s.toks s.pending test e (h (peek s)) lt b) (λ _. k s lt)

  pub Eats-take_if :
      (n : ℕ) (test : TokenType → Bool) (hit : Token → Parser F A) (miss : Parser F A)
      → test eof ≡ false
      → ((t : Token) → Good n (hit t))
      → Eats (suc n) miss
      → Eats (suc n) (take_if test hit miss)
  unfolding Eats take_if
  Eats-take_if n test hit miss e h k s lt =
      if_split (Held 1 (length s.toks)) (test (peek s).type) (hit (peek s) (advance s)) (miss s)
        (λ b.
          Held-advance (hit (peek s)) n s.toks s.pending (λ ts. test (peek_in ts).type) e
            (h (peek s)) lt b)
        (λ _. k s lt)

  -- With a miss that eats nothing.
  pub Good-take_if :
      (n : ℕ) (test : TokenType → Bool) (hit : Token → Parser F A) (miss : Parser F A)
      → test eof ≡ false
      → ((t : Token) → Good n (hit t))
      → Good (suc n) miss
      → Good (suc n) (take_if test hit miss)
  unfolding Good take_if
  Good-take_if n test hit miss e h k s lt =
      if_split (Held 0 (length s.toks)) (test (peek s).type) (hit (peek s) (advance s)) (miss s)
        (λ b. Held-one (length s.toks) (hit (peek s) (advance s)) (
          Held-advance (hit (peek s)) n s.toks s.pending (λ ts. test (peek_in ts).type) e
            (h (peek s)) lt b))
        (λ _. k s lt)

  Held-tail :
      (n : ℕ) (s : State F) (m : Parser F A)
      → Good n m
      → length s.toks < n
      → Held 0 (length s.toks) (m (advance s))
  unfolding Good
  Held-tail n s m h lt =
      Held-weaken 0 (length (tail s.toks)) (length s.toks) (m (advance s)) (length-tail s.toks)
        (h (advance s) (omega (arith, length-tail s.toks)))

  -- Whatever the test, with a bound that need not be a successor.
  pub Good-taken :
      (n : ℕ) (test : TokenType → Bool) (hit : Token → Parser F A) (miss : Parser F A)
      → ((t : Token) → Good n (hit t))
      → Good n miss
      → Good n (take_if test hit miss)
  unfolding Good take_if
  Good-taken n test hit miss h k s lt =
      if_split (Held 0 (length s.toks)) (test (peek s).type) (hit (peek s) (advance s)) (miss s)
        (λ _. Held-tail n s (hit (peek s)) (h (peek s)) lt) (λ _. k s lt)

  pub Good-see_if :
      (n : ℕ) (test : TokenType → Bool) (hit miss : Parser F A)
      → Good n hit
      → Good n miss
      → Good n (see_if test hit miss)
  unfolding Good see_if
  Good-see_if n test hit miss h k s lt =
      if_split (Held 0 (length s.toks)) (test (peek s).type) (hit s) (miss s) (λ _. h s lt)
        (λ _. k s lt)

  pub Eats-see_if :
      (n : ℕ) (test : TokenType → Bool) (hit miss : Parser F A)
      → Eats n hit
      → Eats n miss
      → Eats n (see_if test hit miss)
  unfolding Eats see_if
  Eats-see_if n test hit miss h k s lt =
      if_split (Held 1 (length s.toks)) (test (peek s).type) (hit s) (miss s) (λ _. h s lt)
        (λ _. k s lt)

  pub Good-take_before :
      (n : ℕ) (t u : TokenType) (hit : Token → Parser F A) (miss : Parser F A)
      → same_type t eof ≡ false
      → ((t : Token) → Good n (hit t))
      → Good (suc n) miss
      → Good (suc n) (take_before t u hit miss)
  unfolding Good take_before
  Good-take_before n t u hit miss e h k s lt =
      if_split (Held 0 (length s.toks))
        (same_type t (peek s).type && same_type u (peek_at_one s).type) (hit (peek s) (advance s))
        (miss s)
        (λ b. Held-one (length s.toks) (hit (peek s) (advance s)) (
          Held-advance (hit (peek s)) n s.toks s.pending
            (λ ts. same_type t (peek_in ts).type && same_type u (peek_in (tail ts)).type)
            (ap (λ x. x && same_type u eof) e) (h (peek s)) lt b))
        (λ _. k s lt)

  pub Good-taken_before :
      (n : ℕ) (t u : TokenType) (hit : Token → Parser F A) (miss : Parser F A)
      → ((t : Token) → Good n (hit t))
      → Good n miss
      → Good n (take_before t u hit miss)
  unfolding Good take_before
  Good-taken_before n t u hit miss h k s lt =
      if_split (Held 0 (length s.toks))
        (same_type t (peek s).type && same_type u (peek_at_one s).type) (hit (peek s) (advance s))
        (miss s) (λ _. Held-tail n s (hit (peek s)) (h (peek s)) lt) (λ _. k s lt)

  pub Good-see_before :
      (n : ℕ) (t u : TokenType) (hit miss : Parser F A)
      → Good n hit
      → Good n miss
      → Good n (see_before t u hit miss)
  unfolding Good see_before
  Good-see_before n t u hit miss h k s lt =
      if_split (Held 0 (length s.toks))
        (same_type t (peek s).type && same_type u (peek_at_one s).type) (hit s) (miss s)
        (λ _. h s lt) (λ _. k s lt)

  pub Good-see_ahead :
      (n : ℕ) (test : List Token → Bool) (hit miss : Parser F A)
      → Good n hit
      → Good n miss
      → Good n (see_ahead test hit miss)
  unfolding Good see_ahead
  Good-see_ahead n test hit miss h k s lt =
      if_split (Held 0 (length s.toks)) (test s.toks) (hit s) (miss s) (λ _. h s lt) (λ _. k s lt)
