-- ===== src/Parser/Progress/Actions.antt =====
-- internal/parser/parser.go: the tokens behind a sequence of actions, and behind the single ones.
use kolang.Prelude.{ℕ, suc, ◌≡◌, Bool, true, false, arith, length}
use kolang.Token.{Token, TokenType, eof}
use kolang.Syntax.{OptExpr, DecoratorStmt}
use kolang.Token.Spelling.{same_type}
use kolang.Parser.Core.{
  Message, Reason, about, wanted, Result, done, failed, stuck, Parser, pure, fail, fail_at, bind_at,
  ◌>>=◌, next, match, lenient, expect, attempt_at, attempt, expect_name, push_decorator,
  take_pending,
}
use kolang.Parser.Progress.{
  Held, Good, Eats, Good-of_Eats, Good-asking, Eats-asking, length-tail, Held-weaken, Held-zero,
}
use kolang.Parser.Progress.Choices.{Eats-take_if, Good-taken}

module _ {F A B : Type 0} where
  Held-bind :
      (k : A → Parser F B) (n : ℕ) (r : Result F A)
      → Held 0 n r
      → ((a : A) → Good (suc n) (k a))
      → Held 0 n (bind_at k r)
  unfolding Held Good bind_at
  Held-bind k n (done a s) h g =
      Held-weaken 0 (length s.toks) n (k a s) (omega arith) (g a s (omega arith))
  Held-bind k n (failed p s) h g = h
  Held-bind k n stuck h g = elim h [ ]

  Held-eaten :
      (k : A → Parser F B) (n : ℕ) (r : Result F A)
      → Held 1 n r
      → ((a : A) → Good n (k a))
      → Held 1 n (bind_at k r)
  unfolding Held Good bind_at
  Held-eaten k n (done a s) h g =
      Held-zero (length s.toks) n (k a s) (omega arith) (g a s (omega arith))
  Held-eaten k n (failed p s) h g = h
  Held-eaten k n stuck h g = elim h [ ]

  Held-later :
      (k : A → Parser F B) (n : ℕ) (r : Result F A)
      → Held 0 n r
      → ((a : A) → Eats (suc n) (k a))
      → Held 1 n (bind_at k r)
  unfolding Held Eats bind_at
  Held-later k n (done a s) h g =
      Held-weaken 1 (length s.toks) n (k a s) (omega arith) (g a s (omega arith))
  Held-later k n (failed p s) h g = h
  Held-later k n stuck h g = elim h [ ]

  pub Good-bind :
      (n : ℕ) (m : Parser F A) (k : A → Parser F B)
      → Good n m
      → ((a : A) → Good n (k a))
      → Good n (m >>= k)
  unfolding Good ◌>>=◌
  Good-bind n m k h g s lt =
      Held-bind k (length s.toks) (m s) (h s lt) (λ a t le. g a t (omega arith))

  -- What follows an action that eats has one token fewer.
  pub Eats-bind :
      (n : ℕ) (m : Parser F A) (k : A → Parser F B)
      → Eats (suc n) m
      → ((a : A) → Good n (k a))
      → Eats (suc n) (m >>= k)
  unfolding Eats Good ◌>>=◌
  Eats-bind n m k h g s lt =
      Held-eaten k (length s.toks) (m s) (h s lt) (λ a t le. g a t (omega arith))

  pub Good-eaten :
      (n : ℕ) (m : Parser F A) (k : A → Parser F B)
      → Eats (suc n) m
      → ((a : A) → Good n (k a))
      → Good (suc n) (m >>= k)
  Good-eaten n m k h g = Good-of_Eats (suc n) _ (Eats-bind n m k h g)

  pub Eats-later :
      (n : ℕ) (m : Parser F A) (k : A → Parser F B)
      → Good n m
      → ((a : A) → Eats n (k a))
      → Eats n (m >>= k)
  unfolding Good Eats ◌>>=◌
  Eats-later n m k h g s lt =
      Held-later k (length s.toks) (m s) (h s lt) (λ a t le. g a t (omega arith))

module _ (F : Type 0) where
  pub Good-pure : {A : Type 0} (n : ℕ) (a : A) → Good n (pure {F = F} a)
  unfolding Good Held pure
  Good-pure n a s lt = omega arith

  pub Eats-fail : (A : Type 0) (n : ℕ) (r : Reason) → Eats n (fail {F = F} {A = A} r)
  unfolding Eats Held fail
  Eats-fail A n r s lt = omega arith

  pub Eats-fail_at : (A : Type 0) (n l : ℕ) (r : Reason) → Eats n (fail_at {F = F} {A = A} l r)
  unfolding Eats Held fail_at
  Eats-fail_at A n l r s lt = omega arith

  pub Good-next : (n : ℕ) → Good n (next {F = F})
  unfolding Good Held next
  Good-next n s lt = omega (arith, length-tail s.toks)

  pub Good-match : (n : ℕ) (t : TokenType) → Good n (match {F = F} t)
  unfolding match
  Good-match n t = Good-taken n (same_type t) _ _ (λ _. Good-pure n true) (Good-pure n false)

  pub Good-lenient : (n : ℕ) (t : TokenType) → Good n (lenient {F = F} t)
  unfolding lenient
  Good-lenient n t = Good-match n t

  Held-attempt : (n : ℕ) (r : Result F (OptExpr F)) → Held 0 n r → Held 0 n (attempt_at r)
  unfolding Held attempt_at
  Held-attempt n (done a s) h = h
  Held-attempt n (failed p s) h = omega arith
  Held-attempt n stuck h = h

  pub Good-attempt : (n : ℕ) (m : Parser F (OptExpr F)) → Good n m → Good n (attempt m)
  unfolding Good attempt
  Good-attempt n m h s lt = Held-attempt (length s.toks) (m s) (h s lt)

  pub Eats-expect_name :
      (n : ℕ) (test : TokenType → Bool) (message : Message)
      → test eof ≡ false
      → Eats (suc n) (expect_name {F = F} test message)
  unfolding expect_name
  Eats-expect_name n test message e =
      Eats-take_if n test _ _ e (λ t. Good-pure n t)
        (Eats-asking (suc n) _ (λ t. Eats-fail Token (suc n) (about message t.literal)))

  pub Eats-expect :
      (n : ℕ) (t : TokenType) → same_type t eof ≡ false → Eats (suc n) (expect {F = F} t)
  unfolding expect
  Eats-expect n t e =
      Eats-take_if n (same_type t) _ _ e (λ t. Good-pure n t)
        (Eats-asking (suc n) _ (λ u. Eats-fail Token (suc n) (wanted t u.literal)))

  pub Good-fail : (A : Type 0) (n : ℕ) (r : Reason) → Good n (fail {F = F} {A = A} r)
  Good-fail A n r = Good-of_Eats n _ (Eats-fail A n r)

  pub Good-expect_name :
      (n : ℕ) (test : TokenType → Bool) (message : Message)
      → Good n (expect_name {F = F} test message)
  unfolding expect_name
  Good-expect_name n test message =
      Good-taken n test _ _ (λ t. Good-pure n t)
        (Good-asking n _ (λ t. Good-fail Token n (about message t.literal)))

  pub Good-expect : (n : ℕ) (t : TokenType) → Good n (expect {F = F} t)
  unfolding expect
  Good-expect n t =
      Good-taken n (same_type t) _ _ (λ t. Good-pure n t)
        (Good-asking n _ (λ u. Good-fail Token n (wanted t u.literal)))

  pub Good-push_decorator : (n : ℕ) (dec : DecoratorStmt F) → Good n (push_decorator dec)
  unfolding Good Held push_decorator
  Good-push_decorator n dec s lt = omega arith

  pub Good-take_pending : (n : ℕ) → Good n (take_pending {F = F})
  unfolding Good Held take_pending
  Good-take_pending n s lt = omega arith
