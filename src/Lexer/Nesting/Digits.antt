-- ===== src/Lexer/Nesting/Digits.antt =====
-- Numbers and operators leave the blocks as they are and read at least one rune.
use kolang.Prelude.{
  ℕ, ◌≡◌, refl, ap, ◌∷◌, [], ◌++◌, true, false, ◌==◌, ◌||◌, Option, none, some, Text, arith, lookup,
}
use kolang.Token.{illegal, int, float}
use kolang.Lexer.State.{Lexer, advance}
use kolang.Lexer.Chars.{is_digit}
use kolang.Lexer.Strconv.{Strconv, ParsedInt, value, bad_syntax, bad_range, parse_int, format_int}
use kolang.Lexer.Numbers.{
  classify, is_stop, kept, read_digits, classify_radix, read_radix, emit_bad, emit_float,
  emit_radix, emit_decimal, emit_fraction, is_point, lex_fraction, after_digits, lex_decimal,
  after_radix, lex_radix, lex_number, prefix_base,
}
use kolang.Lexer.Operators.{lex_one, lex_two, lex_operator, one_rune, two_rune, three_rune}
use kolang.Lexer.Nesting.Walk.{
  IsPlain, Keeps, Keeps-refl, Keeps-trans, advance-Keeps, emit-Keeps, emit_cur-Keeps,
}
use kolang.Lexer.Nesting.Skips.{Keeps-if}
use kolang.Lexer.Nesting.Reads.{Keeps-if_read, lookup-AllRows, Keeps-row}

read_digits-Keeps : (sb rs : Text) (l : Lexer) → l.rest ≡ rs → Keeps l (read_digits sb rs l).1
unfolding read_digits
read_digits-Keeps sb [] l e = Keeps-refl l
read_digits-Keeps sb (r ∷ rs) l e = Keeps-if_read (is_stop (classify r)) l _ _ (Keeps-refl l) (
    Keeps-trans (advance-Keeps r rs l e)
      (read_digits-Keeps (kept (classify r) sb) rs (advance r rs l) refl))

read_radix-Keeps : (sb rs : Text) (l : Lexer) → l.rest ≡ rs → Keeps l (read_radix sb rs l).1
unfolding read_radix
read_radix-Keeps sb [] l e = Keeps-refl l
read_radix-Keeps sb (r ∷ rs) l e = Keeps-if_read (is_stop (classify_radix r)) l _ _ (Keeps-refl l) (
    Keeps-trans (advance-Keeps r rs l e)
      (read_radix-Keeps (kept (classify_radix r) sb) rs (advance r rs l) refl))

classify-is_digit : (r : ℕ) → is_digit r ≡ true → is_stop (classify r) ≡ false
unfolding classify
classify-is_digit r h = ground arith

read_digits_first :
    (r : ℕ) (rs : Text) (l : Lexer)
    → is_digit r ≡ true
    → read_digits [] (r ∷ rs) l ≡ read_digits (kept (classify r) []) rs (advance r rs l)
unfolding read_digits
read_digits_first r rs l h = rw (classify-is_digit r h)

module _ (go : Strconv) (line col : ℕ) where
  emit_bad-Keeps : (sb : Text) (l : Lexer) → Keeps l (emit_bad go line col sb l)
  unfolding emit_bad
  emit_bad-Keeps sb l = emit_cur-Keeps illegal _ line col l tt

  emit_float-Keeps : (sb : Text) (l : Lexer) → Keeps l (emit_float go line col sb l)
  unfolding emit_float
  emit_float-Keeps sb l = after (go.format_float sb)
    where
      after :
          (o : Option Text)
          → Keeps l (elim o [
            | some lit ↦ kolang.Lexer.State.emit_cur float lit line col l
            | none ↦ emit_bad go line col sb l
          ])
      after (some lit) = emit_cur-Keeps float lit line col l tt
      after none = emit_bad-Keeps sb l

  emit_radix-Keeps :
      (n : ParsedInt) (sb : Text) (l : Lexer) → Keeps l (emit_radix go line col n sb l)
  unfolding emit_radix
  emit_radix-Keeps (value n) sb l = emit_cur-Keeps int (format_int n) line col l tt
  emit_radix-Keeps _ sb l = emit_bad-Keeps sb l

  emit_decimal-Keeps :
      (n : ParsedInt) (sb : Text) (l : Lexer) → Keeps l (emit_decimal go line col n sb l)
  unfolding emit_decimal
  emit_decimal-Keeps (value n) sb l = emit_cur-Keeps int (format_int n) line col l tt
  emit_decimal-Keeps bad_range sb l = emit_float-Keeps sb l
  emit_decimal-Keeps bad_syntax sb l = emit_bad-Keeps sb l

  emit_fraction-Keeps :
      (l : Lexer) (p : Text × Lexer) → Keeps l p.1 → Keeps l (emit_fraction go line col p)
  emit_fraction-Keeps l (sb, m) h = Keeps-trans h (emit_float-Keeps sb m)

  lex_fraction-Keeps :
      (sb rs : Text) (l : Lexer) → l.rest ≡ rs → Keeps l (lex_fraction go line col sb rs l)
  unfolding lex_fraction
  lex_fraction-Keeps sb [] l e = emit_decimal-Keeps (parse_int 10 sb) sb l
  lex_fraction-Keeps sb (r ∷ rs) l e =
      Keeps-if (is_point r)
        (Keeps-trans (advance-Keeps r rs l e) (
          emit_fraction-Keeps (advance r rs l) _
            (read_digits-Keeps (sb ++ (b'.' ∷ [])) rs (advance r rs l) refl)))
        (emit_decimal-Keeps (parse_int 10 sb) sb l)

  after_digits-Keeps :
      (l : Lexer) (p : Text × Lexer) → Keeps l p.1 → Keeps l (after_digits go line col p)
  after_digits-Keeps l (sb, m) h = Keeps-trans h (lex_fraction-Keeps sb m.rest m refl)

  lex_decimal_first :
      (r : ℕ) (rs : Text) (l : Lexer)
      → is_digit r ≡ true
      → lex_decimal go line col (r ∷ rs) l
        ≡ after_digits go line col (read_digits (kept (classify r) []) rs (advance r rs l))
  unfolding lex_decimal
  lex_decimal_first r rs l h = ap (after_digits go line col) (read_digits_first r rs l h)

  lex_decimal-Keeps :
      (r : ℕ) (rs : Text) (l : Lexer)
      → is_digit r ≡ true
      → Keeps (advance r rs l) (lex_decimal go line col (r ∷ rs) l)
  lex_decimal-Keeps r rs l h = rw (lex_decimal_first r rs l h) (
      after_digits-Keeps (advance r rs l) (read_digits (kept (classify r) []) rs (advance r rs l))
        (read_digits-Keeps (kept (classify r) []) rs (advance r rs l) refl))

  after_radix-Keeps :
      (base : ℕ) (l : Lexer) (p : Text × Lexer)
      → Keeps l p.1
      → Keeps l (after_radix go line col base p)
  after_radix-Keeps base l (sb, m) h = Keeps-trans h (emit_radix-Keeps (parse_int base sb) sb m)

  lex_radix-Keeps : (base : ℕ) (l : Lexer) → Keeps l (lex_radix go line col base l.rest l)
  unfolding lex_radix
  lex_radix-Keeps base l = after_radix-Keeps base l _ (read_radix-Keeps [] l.rest l refl)

pub lex_number-Keeps :
    (go : Strconv) (r : ℕ) (rs : Text) (l : Lexer)
    → is_digit r ≡ true
    → Keeps (advance r rs l) (lex_number go (r ∷ rs) l)
unfolding lex_number
lex_number-Keeps go r [] l h = lex_decimal-Keeps go l.line l.col r [] l h
lex_number-Keeps go r (x ∷ rs) l h =
    Keeps-if (r == b'0' || r == 0x6F0) (after (prefix_base x)) plain
  where
    plain : Keeps (advance r (x ∷ rs) l) (lex_decimal go l.line l.col (r ∷ x ∷ rs) l)
    plain = lex_decimal-Keeps go l.line l.col r (x ∷ rs) l h

    second : Lexer
    second = advance x rs (advance r (x ∷ rs) l)

    after :
        (o : Option ℕ)
        → Keeps (advance r (x ∷ rs) l) (elim o [
          | some base ↦ lex_radix go l.line l.col base rs second
          | none ↦ lex_decimal go l.line l.col (r ∷ x ∷ rs) l
        ])
    after (some base) =
        Keeps-trans (advance-Keeps x rs (advance r (x ∷ rs) l) refl)
          (lex_radix-Keeps go l.line l.col base second)
    after none = plain

lex_one-Keeps :
    (go : Strconv) (r : ℕ) (rs : Text) (l : Lexer) → Keeps (advance r rs l) (lex_one go r rs l)
unfolding lex_one
lex_one-Keeps go r rs l =
    Keeps-row IsPlain (lookup (r ∷ []) one_rune) _ _
      (lookup-AllRows IsPlain (r ∷ []) one_rune (search tt))
      (λ t h. emit-Keeps t (r ∷ []) (advance r rs l) h) (emit-Keeps illegal _ (advance r rs l) tt)

lex_two-Keeps :
    (go : Strconv) (r : ℕ) (rs : Text) (l : Lexer) → Keeps (advance r rs l) (lex_two go r rs l)
unfolding lex_two
lex_two-Keeps go r [] l = lex_one-Keeps go r [] l
lex_two-Keeps go r (s ∷ rs) l =
    Keeps-row IsPlain (lookup (r ∷ s ∷ []) two_rune) _ _
      (lookup-AllRows IsPlain (r ∷ s ∷ []) two_rune (search tt))
      (λ t h. Keeps-trans (advance-Keeps s rs (advance r (s ∷ rs) l) refl) (emit-Keeps t _ _ h))
      (lex_one-Keeps go r (s ∷ rs) l)

pub lex_operator-Keeps :
    (go : Strconv) (r : ℕ) (rs : Text) (l : Lexer) → Keeps (advance r rs l) (lex_operator go r rs l)
unfolding lex_operator
lex_operator-Keeps go r [] l = lex_two-Keeps go r [] l
lex_operator-Keeps go r (s ∷ []) l = lex_two-Keeps go r (s ∷ []) l
lex_operator-Keeps go r (s ∷ u ∷ rs) l =
    Keeps-row IsPlain (lookup (r ∷ s ∷ u ∷ []) three_rune) _ _
      (lookup-AllRows IsPlain (r ∷ s ∷ u ∷ []) three_rune (search tt))
      (λ t h.
        Keeps-trans
          (Keeps-trans (advance-Keeps s (u ∷ rs) (advance r (s ∷ u ∷ rs) l) refl)
            (advance-Keeps u rs (advance s (u ∷ rs) (advance r (s ∷ u ∷ rs) l)) refl))
          (emit-Keeps t _ _ h))
      (lex_two-Keeps go r (s ∷ u ∷ rs) l)
