-- ===== src/Parser/Core.antt =====
-- internal/parser/parser.go: the parser's state, its errors, and the steps on the tokens.
use kolang.Prelude.{
  ℕ, suc, List, [], ◌∷◌, Bool, true, false, if◌then◌else◌, ◌&&◌, ◌||◌, Text, length, ◌++◌,
}
use kolang.Prelude.Int.{pos}
use kolang.Token.{Token, TokenType, eof, ident, self}
use kolang.Token.Spelling.{same_type}
use kolang.Syntax.{OptExpr, absent, DecoratorStmt}

-- `compDepth`, `parenDepth` and `condDepth`. Each function that raises one lowers it again before
-- it returns, in every case, so that they are arguments and no part of the state.
pub record Depth : Type 0 where
  pub comp : ℕ
  pub paren : ℕ
  pub cond : ℕ

abbrev pub no_depth : Depth
no_depth = record { comp = 0; paren = 0; cond = 0 }

-- The messages, each named for what it is about.
pub data Message : Type 0 where
  expected_end send_one close_one defer_one annotation_value import_one import_name raise_one :
      Message
  input_one list_unexpected yield_one yield_from_one unexpected_after decorator_name : Message
  decorator_def counts_differ compound_one def_name param_name class_name parent_name iface_name :
      Message
  only_methods method_name loop_name for_head with_name module_name member_name alias_name : Message
  condition_copula condition_kind bad_int bad_float unexpected_expr comp_name outside_try : Message
  bare_yield implements_name star_name loop_tuple_name : Message

-- `errf`'s text: what `expect` wanted, with the literal that it saw; or a message, with a literal.
pub data Reason : Type 0 where
  wanted : TokenType → Text → Reason
  about : Message → Text → Reason

pub record Problem : Type 0 where
  pub line : ℕ
  pub reason : Reason

module _ (F : Type 0) where
  -- The tokens from `pos` on, and `pendingDecorators`.
  pub record State : Type 0 where
    pub toks : List Token
    pub pending : List (DecoratorStmt F)

-- A value or an error, with the state in which it was returned; or out of fuel.
pub data Result (F A : Type 0) : Type 0 where
  done : A → State F → Result F A
  failed : Problem → State F → Result F A
  stuck : Result F A

abbrev pub Parser : Type 0 → Type 0 → Type 0
Parser F A = State F → Result F A

abbrev pub end_token : Token
end_token = record { type = eof; literal = []; line = 0; col = pos 0 }

-- `peek`, `peekAt(1)`, and the tokens behind `next`, which stays at the end.
abbrev pub peek_in : List Token → Token
peek_in [] = end_token
peek_in (t ∷ ts) = t

abbrev pub tail : List Token → List Token
tail [] = []
tail (t ∷ ts) = ts

module _ {F : Type 0} where
  abbrev pub peek : State F → Token
  peek s = peek_in s.toks

  abbrev pub peek_at_one : State F → Token
  peek_at_one s = peek_in (tail s.toks)

  abbrev pub advance : State F → State F
  advance s = record s { toks = tail s.toks }

module _ {F A : Type 0} where
  unfoldable pub pure : A → Parser F A
  pure a s = done a s

  -- `errf`, and `fmt.Errorf` with a line of its own.
  unfoldable pub fail : Reason → Parser F A
  fail r s = failed (record { line = (peek s).line; reason = r }) s

  unfoldable pub fail_at : ℕ → Reason → Parser F A
  fail_at line r s = failed (record { line = line; reason = r }) s

  -- An action that looks at the next token.
  unfoldable pub asking : (Token → Parser F A) → Parser F A
  asking k s = k (peek s) s

  unfoldable pub see_if : (TokenType → Bool) → Parser F A → Parser F A → Parser F A
  see_if test hit miss s = if test (peek s).type then hit s else miss s

  -- `if test(p.peek().Type) { tk := p.next(); ... }`, and what is done otherwise.
  unfoldable pub take_if : (TokenType → Bool) → (Token → Parser F A) → Parser F A → Parser F A
  take_if test hit miss s = if test (peek s).type then hit (peek s) (advance s) else miss s

  -- The same, where the token behind it is of a given type.
  unfoldable pub take_before :
      TokenType → TokenType → (Token → Parser F A) → Parser F A → Parser F A
  take_before t u hit miss s =
      if same_type t (peek s).type && same_type u (peek_at_one s).type
      then hit (peek s) (advance s)
      else miss s

  unfoldable pub see_before : TokenType → TokenType → Parser F A → Parser F A → Parser F A
  see_before t u hit miss s =
      if same_type t (peek s).type && same_type u (peek_at_one s).type then hit s else miss s

  -- A loop with as much fuel as there are tokens left, and one unit more.
  unfoldable pub looped : (ℕ → Parser F A) → Parser F A
  looped f s = f (suc (length s.toks)) s

  -- A test of all the tokens that are left, with and without taking the first.
  unfoldable pub see_ahead : (List Token → Bool) → Parser F A → Parser F A → Parser F A
  see_ahead test hit miss s = if test s.toks then hit s else miss s

  unfoldable pub take_ahead : (List Token → Bool) → (Token → Parser F A) → Parser F A → Parser F A
  take_ahead test hit miss s = if test s.toks then hit (peek s) (advance s) else miss s

  unfoldable pub out_of_fuel : Parser F A
  out_of_fuel s = stuck

  unfoldable pub choose : Bool → Parser F A → Parser F A → Parser F A
  choose b hit miss s = if b then hit s else miss s

module _ {F A B : Type 0} where
  unfoldable pub bind_at : (A → Parser F B) → Result F A → Result F B
  bind_at k (done a s) = k a s
  bind_at k (failed e s) = failed e s
  bind_at k stuck = stuck

  infixl 1 ◌>>=◌
  unfoldable pub ◌>>=◌ : Parser F A → (A → Parser F B) → Parser F B
  unfolding bind_at
  (m >>= k) s = bind_at k (m s)

  infixl 1 ◌>>◌
  abbrev pub ◌>>◌ : Parser F A → Parser F B → Parser F B
  m >> k = m >>= λ _. k

module _ {F A : Type 0} where
  abbrev pub see : TokenType → Parser F A → Parser F A → Parser F A
  see t = see_if (same_type t)

  abbrev pub take : TokenType → (Token → Parser F A) → Parser F A → Parser F A
  take t = take_if (same_type t)

-- `tk.Type != token.IDENT && tk.Type != token.SELF`, the other way round.
unfoldable pub is_name : TokenType → Bool
is_name t = same_type ident t || same_type self t

module _ {F : Type 0} where
  unfoldable pub next : Parser F Token
  next s = done (peek s) (advance s)

  unfoldable pub match : TokenType → Parser F Bool
  unfolding take_if pure
  match t = take t (λ _. pure true) (pure false)

  unfoldable pub expect : TokenType → Parser F Token
  unfolding take_if asking pure fail
  expect t = take t pure (asking λ tk. fail (wanted t tk.literal))

  -- `p.expect(t)` whose error is dropped.
  unfoldable pub lenient : TokenType → Parser F Bool
  unfolding match
  lenient t = match t

  -- `x, _ = ...` of an expression that may be absent: an error gives nil, where it came up.
  unfoldable pub attempt_at : Result F (OptExpr F) → Result F (OptExpr F)
  attempt_at (done e s) = done e s
  attempt_at (failed e s) = done absent s
  attempt_at stuck = stuck

  unfoldable pub attempt : Parser F (OptExpr F) → Parser F (OptExpr F)
  unfolding attempt_at
  attempt m s = attempt_at (m s)

  -- A name of a kind, or an error about it.
  unfoldable pub expect_name : (TokenType → Bool) → Message → Parser F Token
  unfolding take_if asking pure fail
  expect_name test message = take_if test pure (asking λ tk. fail (about message tk.literal))

  -- `p.pendingDecorators = append(...)`, and their use by a definition, which clears them.
  unfoldable pub push_decorator : DecoratorStmt F → Parser F (DecoratorStmt F)
  push_decorator dec s = done dec (record s { pending = s.pending ++ dec ∷ [] })

  unfoldable pub take_pending : Parser F (List (DecoratorStmt F))
  take_pending s = done s.pending (record s { pending = [] })
