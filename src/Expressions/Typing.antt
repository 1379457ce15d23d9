-- ===== src/Expressions/Typing.antt =====
-- Expressions that have a type: those of numbers, truths, names and operators.
use kolang.Prelude.{ℕ, ◌≡◌, ◌⊎◌, Bool, false, [], ◌∷◌, Option, some, Text, codes, text_eq}
use kolang.Token.{TokenType, and_kw, or_kw}
use kolang.Token.Spelling.{spelling}
use kolang.Prelude.Int.{ℤ}
use kolang.Syntax.{
  Expr, number_lit, int_val, f_val, bool_lit, none_lit, ident, unary, binary_op, ternary_expr,
}
use kolang.Operators.Kinds.{Kind, int_kind, float_kind, bool_kind, other_kind, binop_kinds}
use kolang.Expressions.Messages.{super_name}

-- The kinds that the names in scope have.
abbrev pub Context : Type 0
Context = Text → Option Kind

-- The power of two int64 has two possible types, and no rule. A rule for each of the others.
pub data HasKind {F : Type 0} (names : Context) : Expr F → Kind → Type 0 where
  int_lit : (l : ℕ) (i : ℤ) → HasKind names (number_lit l (int_val i)) int_kind
  float_lit : (l : ℕ) (t : F) → HasKind names (number_lit l (f_val t)) float_kind
  truth : (l : ℕ) (b : Bool) → HasKind names (bool_lit l b) bool_kind
  nothing : (l : ℕ) → HasKind names (none_lit l) other_kind
  variable :
      {k : Kind} (l : ℕ) (name : Text)
      → text_eq name super_name ≡ false
      → names name ≡ some k
      → HasKind names (ident l name) k
  negative :
      {e : Expr F} {k : Kind} (l : ℕ) (op : Text)
      → op ≡ codes "-"
      → (k ≡ int_kind) ⊎ (k ≡ float_kind)
      → HasKind names e k
      → HasKind names (unary l op e) k
  opposite :
      {e : Expr F} (l : ℕ) (op : Text)
      → op ≡ codes "not"
      → HasKind names e bool_kind
      → HasKind names (unary l op e) bool_kind
  logical :
      {e f : Expr F} (l : ℕ) (op : Text)
      → (op ≡ spelling and_kw) ⊎ (op ≡ spelling or_kw)
      → HasKind names e bool_kind
      → HasKind names f bool_kind
      → HasKind names (binary_op l op e f) bool_kind
  operator :
      {e f : Expr F} {a b k : Kind} (l : ℕ) (op : Text) (t : TokenType)
      → op ≡ spelling t
      → binop_kinds t a b ≡ k ∷ []
      → HasKind names e a
      → HasKind names f b
      → HasKind names (binary_op l op e f) k
  conditional :
      {c e f : Expr F} {k : Kind} (l : ℕ)
      → HasKind names c bool_kind
      → HasKind names e k
      → HasKind names f k
      → HasKind names (ternary_expr l c e f) k
