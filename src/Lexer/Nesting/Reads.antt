-- ===== src/Lexer/Nesting/Reads.antt =====
-- Words, numbers, strings and operators leave the blocks as they are and read at least one rune.
use kolang.Prelude.{
  ℕ, ap, ◌≡◌, refl, ap, ◌∷◌, [], ◌++◌, List, Bool, true, false, ◌==◌, Option, none, some, Text,
  if◌then◌else◌, arith, lookup,
}
use kolang.Token.{TokenType, ident, string, illegal}
use kolang.Token.Keywords.{keywords}
use kolang.Lexer.State.{Lexer, advance}
use kolang.Lexer.Chars.{is_ident_start, is_ident_part}
use kolang.Lexer.Words.{
  read_ident, word_type, emit_word, lex_identifier, read_string, lex_string, unclosed_string,
}
use kolang.Lexer.Nesting.Walk.{
  IsPlain, Keeps, Keeps-refl, Keeps-trans, advance-Keeps, emit-Keeps, emit_cur-Keeps,
}
use kolang.Lexer.Nesting.Skips.{Keeps-if}

-- Every row of a table satisfies `P`.
abbrev pub AllRows : (TokenType → Type 0) → List (Text × TokenType) → Type 0
AllRows P [] = Unit
AllRows P ((k, t) ∷ rows) = P t × AllRows P rows

abbrev pub OnRow : (TokenType → Type 0) → Option TokenType → Type 0
OnRow P none = Unit
OnRow P (some t) = P t

OnRow-if :
    (P : TokenType → Type 0) (b : Bool) {t : TokenType} (o : Option TokenType)
    → P t
    → OnRow P o
    → OnRow P (if b then some t else o)
OnRow-if P true o h k = h
OnRow-if P false o h k = k

-- What holds of every row holds of the row that is found.
pub lookup-AllRows :
    (P : TokenType → Type 0) (k : Text) (rows : List (Text × TokenType))
    → AllRows P rows
    → OnRow P (lookup k rows)
unfolding lookup
lookup-AllRows P k [] h = tt
lookup-AllRows P k ((j, t) ∷ rows) (h, hs) = OnRow-if P _ _ h (lookup-AllRows P k rows hs)

-- Either outcome of a table.
pub Keeps-row :
    (P : TokenType → Type 0) (o : Option TokenType) {l : Lexer} (f : TokenType → Lexer) (m : Lexer)
    → OnRow P o
    → ((t : TokenType) → P t → Keeps l (f t))
    → Keeps l m
    → Keeps l (elim o [ some t ↦ f t | none ↦ m ])
Keeps-row P none f m h onSome onNone = onNone
Keeps-row P (some t) f m h onSome onNone = onSome t h

module _ (line col : ℕ) where
  read_string-Keeps :
      (sb rs : Text) (l : Lexer) → l.rest ≡ rs → Keeps l (read_string line col sb rs l)
  unfolding read_string
  read_string-Keeps sb [] l e = emit_cur-Keeps illegal unclosed_string line col l tt
  read_string-Keeps sb (r ∷ rs) l e =
      let first = advance-Keeps r rs l e in
      Keeps-if (r == 0xBB) (Keeps-trans first (emit-Keeps string sb (advance r rs l) tt))
        (Keeps-trans first (read_string-Keeps (sb ++ (r ∷ [])) rs (advance r rs l) refl))

pub lex_string-Keeps : (rs : Text) (l : Lexer) → Keeps (advance 0xAB rs l) (lex_string rs l)
unfolding lex_string
lex_string-Keeps rs l = read_string-Keeps l.line l.col [] rs (advance 0xAB rs l) refl

-- Either branch of a test on a text and a state.
pub Keeps-if_read :
    (b : Bool) (l : Lexer) (p q : Text × Lexer)
    → Keeps l p.1
    → Keeps l q.1
    → Keeps l (if b then p else q).1
Keeps-if_read true l p q h k = h
Keeps-if_read false l p q h k = k

pub read_ident-Keeps : (sb rs : Text) (l : Lexer) → l.rest ≡ rs → Keeps l (read_ident sb rs l).1
unfolding read_ident
read_ident-Keeps sb [] l e = Keeps-refl l
read_ident-Keeps sb (r ∷ rs) l e =
    Keeps-if_read (is_ident_part r) l _ _
      (Keeps-trans (advance-Keeps r rs l e)
        (read_ident-Keeps (sb ++ (r ∷ [])) rs (advance r rs l) refl))
      (Keeps-refl l)

is_ident_part-start : (r : ℕ) → is_ident_start r ≡ true → is_ident_part r ≡ true
unfolding is_ident_start is_ident_part
is_ident_part-start r h = ground arith

word_type-IsPlain : (lit : Text) → IsPlain (word_type lit)
unfolding word_type
word_type-IsPlain lit = after (lookup lit keywords) (lookup-AllRows IsPlain lit keywords plain_rows)
  where
    plain_rows : AllRows IsPlain keywords
    plain_rows = search tt

    after :
        (o : Option TokenType) → OnRow IsPlain o → IsPlain (elim o [ some t ↦ t | none ↦ ident ])
    after none h = tt
    after (some t) h = h

emit_word-Keeps : (l : Lexer) (p : Text × Lexer) → Keeps l p.1 → Keeps l (emit_word p)
emit_word-Keeps l (lit, m) h =
    Keeps-trans h (emit-Keeps (word_type lit) lit m (word_type-IsPlain lit))

read_ident_first :
    (r : ℕ) (rs : Text) (l : Lexer)
    → is_ident_start r ≡ true
    → read_ident [] (r ∷ rs) l ≡ read_ident (r ∷ []) rs (advance r rs l)
unfolding read_ident
read_ident_first r rs l h = rw (is_ident_part-start r h)

lex_identifier_first :
    (r : ℕ) (rs : Text) (l : Lexer)
    → is_ident_start r ≡ true
    → lex_identifier (r ∷ rs) l ≡ emit_word (read_ident (r ∷ []) rs (advance r rs l))
unfolding lex_identifier
lex_identifier_first r rs l h = ap emit_word (read_ident_first r rs l h)

pub lex_identifier-Keeps :
    (r : ℕ) (rs : Text) (l : Lexer)
    → is_ident_start r ≡ true
    → Keeps (advance r rs l) (lex_identifier (r ∷ rs) l)
lex_identifier-Keeps r rs l h = rw (lex_identifier_first r rs l h) (
    emit_word-Keeps (advance r rs l) (read_ident (r ∷ []) rs (advance r rs l))
      (read_ident-Keeps (r ∷ []) rs (advance r rs l) refl))
