-- ===== src/Interpolation/Placeholder.antt =====
-- internal/eval/eval_strings.go: the end of a placeholder behind a balanced source.
use kolang.Prelude.{
  ℕ, suc, ◌==◌, ◌≡◌, refl, sym, ap, ◌∙◌, false, [], ◌∷◌, ◌++◌, Option, some, Text, arith,
  append_assoc, append-nil,
}
use kolang.Interpolation.{left_guillemet, right_guillemet, with_char, placeholder}

abbrev pub Unquoted : ℕ → Type 0
Unquoted c = ((c == left_guillemet) ≡ false) × ((c == right_guillemet) ≡ false)

abbrev pub AllUnquoted : Text → Type 0
AllUnquoted [] = Unit {0}
AllUnquoted (c ∷ t) = Unquoted c × AllUnquoted t

-- A character that does not open or close anything.
abbrev pub Plain : ℕ → Type 0
Plain c = ((c == b'{') ≡ false) × ((c == b'}') ≡ false) × Unquoted c

-- The source of a placeholder: braces nest, and a nested text may hold any brace.
pub data Balanced : Text → Type 0 where
  empty : Balanced []
  plain : {t : Text} (c : ℕ) → Plain c → Balanced t → Balanced (c ∷ t)
  braces : {inner t : Text} → Balanced inner → Balanced t → Balanced (b'{' ∷ (inner ++ (b'}' ∷ t)))
  quoted :
      {t : Text} (inner : Text)
      → AllUnquoted inner
      → Balanced t
      → Balanced (left_guillemet ∷ (inner ++ (right_guillemet ∷ t)))

abbrev prefixed : Text → Option Text → Option Text
prefixed [] o = o
prefixed (c ∷ t) o = with_char c (prefixed t o)

prefixed-append : (s t : Text) (o : Option Text) → prefixed (s ++ t) o ≡ prefixed s (prefixed t o)
prefixed-append [] t o = refl
prefixed-append (c ∷ s) t o = ap (with_char c) (prefixed-append s t o)

placeholder-Plain :
    (depth c : ℕ) (t : Text)
    → Plain c
    → placeholder depth 0 (c ∷ t) ≡ with_char c (placeholder depth 0 t)
unfolding placeholder
placeholder-Plain depth c t h = ground arith

placeholder-open :
    (depth : ℕ) (t : Text)
    → placeholder depth 0 (b'{' ∷ t) ≡ with_char b'{' (placeholder (suc depth) 0 t)
unfolding placeholder
placeholder-open depth t = refl

placeholder-close :
    (depth : ℕ) (t : Text)
    → placeholder (suc depth) 0 (b'}' ∷ t) ≡ with_char b'}' (placeholder depth 0 t)
unfolding placeholder
placeholder-close depth t = ground arith

placeholder-quote :
    (depth : ℕ) (t : Text)
    → placeholder depth 0 (left_guillemet ∷ t) ≡ with_char left_guillemet (placeholder depth 1 t)
unfolding placeholder
placeholder-quote depth t = refl

placeholder-unquote :
    (depth : ℕ) (t : Text)
    → placeholder depth 1 (right_guillemet ∷ t) ≡ with_char right_guillemet (placeholder depth 0 t)
unfolding placeholder
placeholder-unquote depth t = refl

placeholder-inside :
    (depth c : ℕ) (t : Text)
    → Unquoted c
    → placeholder depth 1 (c ∷ t) ≡ with_char c (placeholder depth 1 t)
unfolding placeholder
placeholder-inside depth c t h = ground arith

placeholder-AllUnquoted :
    (depth : ℕ) (inner t : Text)
    → AllUnquoted inner
    → placeholder depth 1 (inner ++ t) ≡ prefixed inner (placeholder depth 1 t)
placeholder-AllUnquoted depth [] t h = refl
placeholder-AllUnquoted depth (c ∷ inner) t h =
    placeholder-inside depth c (inner ++ t) h.0
    ∙ ap (with_char c) (placeholder-AllUnquoted depth inner t h.1)

placeholder-Balanced :
    (depth : ℕ) {e : Text} (t : Text)
    → Balanced e
    → placeholder depth 0 (e ++ t) ≡ prefixed e (placeholder depth 0 t)
placeholder-Balanced depth t empty = refl
placeholder-Balanced depth t (plain c h b) =
    placeholder-Plain depth c _ h ∙ ap (with_char c) (placeholder-Balanced depth t b)
placeholder-Balanced depth t (braces {inner} {t = later} b d) =
    placeholder-open depth ((inner ++ (b'}' ∷ later)) ++ t)
    ∙ ap (with_char b'{') (
        ap (placeholder (suc depth) 0) (append_assoc inner (b'}' ∷ later) t)
        ∙ placeholder-Balanced (suc depth) (b'}' ∷ (later ++ t)) b
        ∙ ap (prefixed inner) (
            placeholder-close depth (later ++ t)
            ∙ ap (with_char b'}') (placeholder-Balanced depth t d))
        ∙ sym (prefixed-append inner (b'}' ∷ later) (placeholder depth 0 t)))
placeholder-Balanced depth t (quoted {t = later} inner h b) =
    placeholder-quote depth ((inner ++ (right_guillemet ∷ later)) ++ t)
    ∙ ap (with_char left_guillemet) (
        ap (placeholder depth 1) (append_assoc inner (right_guillemet ∷ later) t)
        ∙ placeholder-AllUnquoted depth inner (right_guillemet ∷ (later ++ t)) h
        ∙ ap (prefixed inner) (
            placeholder-unquote depth (later ++ t)
            ∙ ap (with_char right_guillemet) (placeholder-Balanced depth t b))
        ∙ sym (prefixed-append inner (right_guillemet ∷ later) (placeholder depth 0 t)))

prefixed-some : (s t : Text) → prefixed s (some t) ≡ some (s ++ t)
prefixed-some [] t = refl
prefixed-some (c ∷ s) t = ap (with_char c) (prefixed-some s t)

placeholder_end : (t : Text) → placeholder 0 0 (b'}' ∷ t) ≡ some []
unfolding placeholder
placeholder_end t = refl

-- A placeholder's source is found whole.
pub placeholder-hole :
    {e : Text} (t : Text) → Balanced e → placeholder 0 0 (e ++ (b'}' ∷ t)) ≡ some e
placeholder-hole {e} t b =
    placeholder-Balanced 0 (b'}' ∷ t) b
    ∙ ap (prefixed e) (placeholder_end t)
    ∙ prefixed-some e []
    ∙ ap some (append-nil e)
