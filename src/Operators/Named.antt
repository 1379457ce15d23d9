-- ===== src/Operators/Named.antt =====
-- internal/eval/eval_expr.go: the spellings of the operators in the switches of `evalBinary` and
-- `applyBinop`.
use kolang.Prelude.{◌≡◌, refl, false, [], ◌∷◌, text_eq}
use kolang.Token.{
  TokenType, plus, minus, star, div, floordiv, percent, pow, equal, less, greater, less_equal,
  greater_equal, and_kw, or_kw, in_kw,
}
use kolang.Token.Spelling.{spelling}
use kolang.Operators.{first_named, binop_cases}
use kolang.Operators.Kinds.{Kind, binop_kinds}

-- An operator with a type is one of `applyBinop`: its spelling leads to its case.
pub record IsBinop (t : TokenType) : Type 0 where
  pub no_and : text_eq (spelling t) (spelling and_kw) ≡ false
  pub no_or : text_eq (spelling t) (spelling or_kw) ≡ false
  pub no_in : text_eq (spelling t) (spelling in_kw) ≡ false
  pub named : first_named (spelling t) binop_cases ≡ t

pub typed-IsBinop : (t : TokenType) (a b : Kind) {k : Kind} → binop_kinds t a b ≡ k ∷ [] → IsBinop t
unfolding text_eq spelling first_named
typed-IsBinop plus a b h = record { no_and = refl; no_or = refl; no_in = refl; named = refl }
typed-IsBinop minus a b h = record { no_and = refl; no_or = refl; no_in = refl; named = refl }
typed-IsBinop star a b h = record { no_and = refl; no_or = refl; no_in = refl; named = refl }
typed-IsBinop div a b h = record { no_and = refl; no_or = refl; no_in = refl; named = refl }
typed-IsBinop floordiv a b h = record { no_and = refl; no_or = refl; no_in = refl; named = refl }
typed-IsBinop percent a b h = record { no_and = refl; no_or = refl; no_in = refl; named = refl }
typed-IsBinop pow a b h = record { no_and = refl; no_or = refl; no_in = refl; named = refl }
typed-IsBinop equal a b h = record { no_and = refl; no_or = refl; no_in = refl; named = refl }
typed-IsBinop less a b h = record { no_and = refl; no_or = refl; no_in = refl; named = refl }
typed-IsBinop greater a b h = record { no_and = refl; no_or = refl; no_in = refl; named = refl }
typed-IsBinop less_equal a b h = record { no_and = refl; no_or = refl; no_in = refl; named = refl }
typed-IsBinop greater_equal a b h = record {
  no_and = refl;
  no_or = refl;
  no_in = refl;
  named = refl;
}
typed-IsBinop _ a b h = absurd (cc)
