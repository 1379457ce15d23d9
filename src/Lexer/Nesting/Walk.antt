-- ===== src/Lexer/Nesting/Walk.antt =====
-- The block structure of a token list, and the frame of an operation that opens or closes no block.
use kolang.Prelude.{
  ℕ, zero, suc, ◌≤◌, ◌≡◌, refl, List, [], ◌∷◌, ◌++◌, Option, none, some, arith, Text, length, ◌∙◌,
  ap,
}
use kolang.Token.{TokenType, Token, indent, dedent, eof}
use kolang.Lexer.State.{Lexer, advance, push, emit, emit_cur}

-- One token's effect on the number of open blocks. `none`: a block is closed that is not open, or
-- the end of the text stands inside the list.
abbrev pub depth_step : TokenType → ℕ → Option ℕ
depth_step indent d = some (suc d)
depth_step dedent zero = none
depth_step dedent (suc d) = some d
depth_step eof d = none
depth_step _ d = some d

abbrev pub ◌>>=◌ : Option ℕ → (ℕ → Option ℕ) → Option ℕ
◌>>=◌ none k = none
◌>>=◌ (some d) k = k d

-- The number of open blocks behind a list of tokens, from `d` before it.
unfoldable pub walk : List Token → ℕ → Option ℕ
walk [] d = some d
walk (t ∷ ts) d = ◌>>=◌ (depth_step t.type d) (walk ts)

bind_regroup :
    (o : Option ℕ) {f : ℕ → Option ℕ} (g h : ℕ → Option ℕ)
    → ((e : ℕ) → f e ≡ ◌>>=◌ (g e) h)
    → ◌>>=◌ o f ≡ ◌>>=◌ (◌>>=◌ o g) h
bind_regroup none g h k = refl
bind_regroup (some e) g h k = k e

pub walk-append : (xs ys : List Token) (d : ℕ) → walk (xs ++ ys) d ≡ ◌>>=◌ (walk xs d) (walk ys)
unfolding walk
walk-append [] ys d = refl
walk-append (x ∷ xs) ys d =
    bind_regroup (depth_step x.type d) (walk xs) (walk ys) (walk-append xs ys)

-- A kind of token that neither opens nor closes a block.
abbrev pub IsPlain : TokenType → Type 0
IsPlain indent = ⊥
IsPlain dedent = ⊥
IsPlain eof = ⊥
IsPlain _ = Unit

depth_step-IsPlain : (t : TokenType) (d : ℕ) → IsPlain t → depth_step t d ≡ some d
depth_step-IsPlain indent d h = absurd h
depth_step-IsPlain dedent d h = absurd h
depth_step-IsPlain eof d h = absurd h
depth_step-IsPlain _ d h = refl

-- `m` comes after `l` with the same blocks open, and no more text before it.
pub record Keeps (l m : Lexer) : Type 0 where
  pub stack : m.indents ≡ l.indents
  pub nesting : (d : ℕ) → walk m.tokens d ≡ walk l.tokens d
  pub shorter : length m.rest ≤ length l.rest

pub Keeps-refl : (l : Lexer) → Keeps l l
Keeps-refl l = record { stack = refl; nesting = λ d. refl; shorter = omega arith }

pub Keeps-trans : {l m n : Lexer} → Keeps l m → Keeps m n → Keeps l n
Keeps-trans h k = record {
  stack = k.stack ∙ h.stack;
  nesting = λ d. k.nesting d ∙ h.nesting d;
  shorter = omega (arith, h.shorter, k.shorter);
}

pub advance-Keeps : (r : ℕ) (rs : Text) (l : Lexer) → l.rest ≡ r ∷ rs → Keeps l (advance r rs l)
advance-Keeps r rs l e = record {
  stack = refl;
  nesting = λ d. refl;
  shorter = omega (arith, ap (λ (t : Text). length t) e);
}

pub walk-push :
    (ts : List Token) (t : Token) (d : ℕ) → IsPlain t.type → walk (ts ++ (t ∷ [])) d ≡ walk ts d
walk-push ts t d p = walk-append ts (t ∷ []) d ∙ after (walk ts d)
  where
    after : (o : Option ℕ) → ◌>>=◌ o (walk (t ∷ [])) ≡ o
    after none = refl
    after (some e) = unfold walk in rw (depth_step-IsPlain t.type e p)

pub push-Keeps : (t : Token) (l : Lexer) → IsPlain t.type → Keeps l (push t l)
push-Keeps t l p = record {
  stack = refl;
  nesting = λ d. walk-push l.tokens t d p;
  shorter = omega arith;
}

pub emit-Keeps : (t : TokenType) (lit : Text) (l : Lexer) → IsPlain t → Keeps l (emit t lit l)
emit-Keeps t lit l p = push-Keeps _ l p

pub emit_cur-Keeps :
    (t : TokenType) (lit : Text) (line col : ℕ) (l : Lexer)
    → IsPlain t
    → Keeps l (emit_cur t lit line col l)
emit_cur-Keeps t lit line col l p = push-Keeps _ l p
