-- ===== src/Parser/RoundTrip/Trees.antt =====
-- internal/parser/parser.go: an operator expression that is written with no more parentheses than
-- needed is parsed as the tree that it was written from.
use kolang.Prelude.{
  ℕ, zero, suc, ◌≤◌, ◌<◌, ◌≡◌, refl, ap, ◌∙◌, List, [], ◌∷◌, Bool, true, false, arith, length, leb,
  leb→le, Text, Option,
}
use kolang.Token.{Token, TokenType, lparen, rparen}
use kolang.Token.Spelling.{same_type}
use kolang.Syntax.{ident, DecoratorStmt}
use kolang.Parser.Core.{Depth, done, peek_in, looped}
use kolang.Parser.Operators.{binds, prec_lowest, right_level}
use kolang.Parser.Items.{in_paren}
use kolang.Parser.Expressions.{parse_prefix, operators, parse_binary, binary}
use kolang.Parser.RoundTrip.{
  Op, left, power, token_of, level, on_left, on_right, Tree, leaf, node, fits, on_line, grouped,
  bare, written, tree_of, Quiet, Stops, Stops_mono, right_level-token_of, binds-token_of,
  Stops-token_of, joined-tree_of,
}
use kolang.Parser.RoundTrip.Steps.{
  at, climb, climb-prefix, parse_prefix-name, parse_prefix-group, operators-step, operators-stop,
  parse_binary-climb, Quiet-token_of, Quiet-rparen,
}

level-on_left : (o : Op) → level o ≤ on_left o
level-on_left (left o) = omega arith
level-on_left power = omega arith

level-on_right : (o : Op) → level o ≤ on_right o
level-on_right (left o) = omega arith
level-on_right power = omega arith

-- What a token must be behind a tree that stands without parentheses.
RootStops : Tree → TokenType → Type 0
RootStops (leaf x) u = Unit
RootStops (node o l r) u = Stops (level o) u

RootStops-of : (t : Tree) (p : ℕ) (u : TokenType) → fits p t ≡ true → Stops p u → RootStops t u
unfolding RootStops
RootStops-of (leaf x) p u f h = tt
RootStops-of (node o l r) p u f h = Stops_mono p (level o) u (leb→le p (level o) f) h

fits-zero : (t : Tree) → fits 0 t ≡ true
fits-zero (leaf x) = refl
fits-zero (node o l r) = ground arith

fits_mono : (t : Tree) (p q : ℕ) → p ≤ q → fits q t ≡ true → fits p t ≡ true
fits_mono (leaf x) p q le f = refl
fits_mono (node o l r) p q le f = ground arith

grouped-length :
    (line : ℕ) (b : Bool) (body : List Token → List Token) (rest : List Token)
    → ((ts : List Token) → length ts < length (body ts))
    → length rest < length (grouped line b body rest)
unfolding grouped
grouped-length line true body rest h = h rest
grouped-length line false body rest h = omega (arith, h (on_line line rparen [] ∷ rest))

bare-length : (line : ℕ) (t : Tree) (rest : List Token) → length rest < length (bare line t rest)
unfolding bare
bare-length line (leaf x) rest = omega arith
bare-length line (node o l r) rest =
    let behind : List Token = grouped line (fits (on_right o) r) (bare line r) rest in
    omega (
      arith,
      grouped-length line (fits (on_right o) r) (bare line r) rest (bare-length line r),
      grouped-length line (fits (on_left o) l) (bare line l) (on_line line (token_of o) [] ∷ behind)
          (bare-length line l),
    )

-- A tree begins with a name or a parenthesis that opens.
grouped-opens :
    (line : ℕ) (b : Bool) (body : List Token → List Token) (rest : List Token)
    → ((ts : List Token) → same_type rparen (peek_in (body ts)).type ≡ false)
    → same_type rparen (peek_in (grouped line b body rest)).type ≡ false
unfolding grouped same_type
grouped-opens line true body rest h = h rest
grouped-opens line false body rest h = refl

bare-opens :
    (line : ℕ) (t : Tree) (rest : List Token)
    → same_type rparen (peek_in (bare line t rest)).type ≡ false
unfolding bare same_type
bare-opens line (leaf x) rest = refl
bare-opens line (node o l r) rest =
    grouped-opens line (fits (on_left o) l) (bare line l) _ (bare-opens line l)

rparen-binds : (p : ℕ) → binds p rparen ≡ false
unfolding binds
rparen-binds p = refl

RootStops-rparen : (t : Tree) → RootStops t rparen
unfolding RootStops
RootStops-rparen (leaf x) = tt
RootStops-rparen (node o l r) = λ o' le. rparen-binds (on_right o')

module _ {F : Type 0} (parse_float : Text → Option F) (line : ℕ)
    (pend : List (DecoratorStmt F)) where
  -- The prefix expression and the operators that bind read a tree that stands without parentheses,
  -- and the loop goes on behind it.
  Climbs : Tree → Type 0
  Climbs t =
      (n : ℕ) (d : Depth) (min : ℕ) (rest : List Token)
      → length (bare line t rest) ≤ n
      → fits min t ≡ true
      → RootStops t (peek_in rest).type
      → Quiet (peek_in rest).type
      → (k : ℕ) × (length rest ≤ k)
        × (climb parse_float (parse_binary parse_float n) d min (at pend (bare line t rest))
            ≡ operators (parse_binary parse_float n) d min (suc k) (tree_of line t) (at pend rest))

  read_bare :
      (t : Tree)
      → Climbs t
      → (n : ℕ) (d : Depth) (min : ℕ) (rest : List Token) → length (bare line t rest) < n
      → fits min t ≡ true
      → binds min (peek_in rest).type ≡ false
      → RootStops t (peek_in rest).type
      → Quiet (peek_in rest).type
      → parse_binary parse_float n d min (at pend (bare line t rest))
        ≡ done (tree_of line t) (at pend rest)
  unfolding Climbs
  read_bare t c zero d min rest lt f b s q = absurd (omega arith)
  read_bare t c (suc m) d min rest lt f b s q =
      let (k, more, e) = c m d min rest (omega arith) f s q in
      parse_binary-climb parse_float m d pend min (tree_of line t) (bare line t rest) rest q (
        e
        ∙ operators-stop parse_float (parse_binary parse_float m) d pend min k (tree_of line t) rest
            b)

  -- A tree in parentheses is a prefix expression.
  read_group :
      (t : Tree)
      → Climbs t
      → (n : ℕ) (d : Depth) (rest : List Token)
      → length (bare line t (on_line line rparen [] ∷ rest)) < n
      → Quiet (peek_in rest).type
      → parse_prefix parse_float
          (parse_binary parse_float n)
          d
          (at pend (on_line line lparen [] ∷ bare line t (on_line line rparen [] ∷ rest)))
        ≡ done (tree_of line t) (at pend rest)
  read_group t c n d rest lt q =
      parse_prefix-group parse_float (parse_binary parse_float n) d pend line line (tree_of line t)
        (bare line t (on_line line rparen [] ∷ rest)) rest
        (bare-opens line t (on_line line rparen [] ∷ rest))
        (read_bare t c n (in_paren d) prec_lowest (on_line line rparen [] ∷ rest) lt (fits-zero t)
          (rparen-binds prec_lowest) (RootStops-rparen t) Quiet-rparen)
        q

  -- The operand on the left of an operator.
  climb_written :
      (t : Tree)
      → Climbs t
      → (n : ℕ) (d : Depth) (min p : ℕ) (rest : List Token) → (b : Bool) → fits p t ≡ b
      → length (grouped line b (bare line t) rest) ≤ n
      → min ≤ p
      → Stops p (peek_in rest).type
      → Quiet (peek_in rest).type
      → (k : ℕ) × (length rest ≤ k)
        × (climb parse_float
              (parse_binary parse_float n)
              d
              min
              (at pend (grouped line b (bare line t) rest))
            ≡ operators (parse_binary parse_float n) d min (suc k) (tree_of line t) (at pend rest))
  unfolding grouped Climbs
  climb_written t c n d min p rest true f le m s q =
      c n d min rest le (fits_mono t min p m f) (RootStops-of t p (peek_in rest).type f s) q
  climb_written t c n d min p rest false f le m s q = (
    length rest,
    omega arith,
    climb-prefix parse_float (parse_binary parse_float n) d pend min (tree_of line t) _ rest
        (read_group t c n d rest (omega arith) q),
  )

  -- The operand on the right, and a whole expression.
  read_written :
      (t : Tree)
      → Climbs t
      → (n : ℕ) (d : Depth) (p : ℕ) (rest : List Token) → (b : Bool) → fits p t ≡ b
      → length (grouped line b (bare line t) rest) < n
      → binds p (peek_in rest).type ≡ false
      → Stops p (peek_in rest).type
      → Quiet (peek_in rest).type
      → parse_binary parse_float n d p (at pend (grouped line b (bare line t) rest))
        ≡ done (tree_of line t) (at pend rest)
  read_written t c zero d p rest b f lt e s q = absurd (omega arith)
  read_written t c (suc m) d p rest b f lt e s q =
      let (k, more, eq) = climb_written t c m d p p rest b f (omega arith) (omega arith) s q in
      parse_binary-climb parse_float m d pend p (tree_of line t) _ rest q (
        eq
        ∙ operators-stop parse_float (parse_binary parse_float m) d pend p k (tree_of line t) rest
            e)

  -- The loop behind the operand on the left takes the operator and the operand on its right.
  climb_node :
      (o : Op) (l r : Tree)
      → Climbs r
      → (n : ℕ) (d : Depth) (min k : ℕ) (rest : List Token)
      → length (grouped line (fits (on_right o) r) (bare line r) rest) < k
      → length (grouped line (fits (on_right o) r) (bare line r) rest) < n
      → leb min (level o) ≡ true
      → Stops (level o) (peek_in rest).type
      → Quiet (peek_in rest).type
      → (k' : ℕ) × (length rest ≤ k')
        × (operators (parse_binary parse_float n) d min (suc k) (tree_of line l) (
              at pend (
                on_line line (token_of o) []
                ∷ grouped line (fits (on_right o) r) (bare line r) rest))
            ≡ operators
                (parse_binary parse_float n)
                d
                min
                (suc k')
                (tree_of line (node o l r))
                (at pend rest))
  climb_node o l r c n d min zero rest lt lt' b s q = absurd (omega arith)
  climb_node o l r c n d min (suc k) rest lt lt' b s q =
      let behind : List Token = grouped line (fits (on_right o) r) (bare line r) rest in
      let right : parse_binary parse_float n d (right_level (token_of o)) (at pend behind)
          ≡ done (tree_of line r) (at pend rest) =
        ap (λ p. parse_binary parse_float n d p (at pend behind)) (right_level-token_of o)
        ∙ read_written r c n d (on_right o) rest (fits (on_right o) r) refl lt' (s o (omega arith))
            (Stops_mono (level o) (on_right o) (peek_in rest).type (level-on_right o) s) q in
      (
        k,
        omega (
          arith,
          grouped-length line (fits (on_right o) r) (bare line r) rest (bare-length line r),
        ),
        operators-step parse_float (parse_binary parse_float n) d pend min (suc k) (tree_of line l)
              (tree_of line r) (on_line line (token_of o) []) behind rest (binds-token_of min o ∙ b)
              right
            ∙ ap (λ e. operators (parse_binary parse_float n) d min (suc k) e (at pend rest))
                (joined-tree_of line o l r),
      )

  climbs : (t : Tree) → Climbs t
  unfolding Climbs bare tree_of RootStops
  climbs (leaf x) n d min rest le f s q = (
    length rest,
    omega arith,
    climb-prefix parse_float (parse_binary parse_float n) d pend min (ident line x) _ rest
        (parse_prefix-name parse_float (parse_binary parse_float n) d pend line x rest q),
  )
  climbs (node o l r) n d min rest le f s q =
      let behind : List Token = grouped line (fits (on_right o) r) (bare line r) rest in
      let (k, more, e) =
        climb_written l (climbs l) n d min (on_left o) (on_line line (token_of o) [] ∷ behind)
          (fits (on_left o) l) refl le (omega (arith, leb→le min (level o) f, level-on_left o))
          (Stops-token_of o) (Quiet-token_of o) in
      let shorter =
        grouped-length line (fits (on_left o) l) (bare line l)
          (on_line line (token_of o) [] ∷ behind) (bare-length line l) in
      let (k', more', e') =
        climb_node o l r (climbs r) n d min k rest (omega arith) (omega arith) f s q in
      (k', more', e ∙ e')

  -- `parseBinary` at a level reads a tree that is written for that level, up to a token that ends it:
  -- one that is no operator of that level or above, no negation, no conditional and no postfix form.
  -- All tokens of the tree are on one line. It gives the tree back and leaves what follows, at every
  -- depth.
  pub binary-written :
      (t : Tree) (d : Depth) (p : ℕ) (rest : List Token)
      → binds p (peek_in rest).type ≡ false
      → Stops p (peek_in rest).type
      → Quiet (peek_in rest).type
      → binary parse_float d p (at pend (written line p t rest))
        ≡ done (tree_of line t) (at pend rest)
  unfolding binary looped written
  binary-written t d p rest b s q =
      read_written t (climbs t) (suc (length (written line p t rest))) d p rest (fits p t) refl
        (omega arith) b s q
