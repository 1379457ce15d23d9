-- ===== src/Lexer/Nesting/Blocks.antt =====
-- `emitIndents`, `handleLineStart` and one token: the open blocks match the indentation stack.
use mathlib.Core.Path.{subst}
use kolang.Lexer.Skip.{skip_comment}
use kolang.Lexer.Words.{lex_string}
use kolang.Prelude.{
  ==_iff, ℕ, suc, ◌≤◌, ◌<◌, ◌≡◌, refl, sym, ◌∙◌, ap, List, [], ◌∷◌, ◌++◌, Bool, true, false, ◌==◌,
  some, Text, Bool-cases, inl, inr, if_split, if◌then◌else◌, arith, length, ltb,
}
use kolang.Token.{Token, indent, dedent, newline}
use kolang.Lexer.State.{Lexer, advance, emit}
use kolang.Lexer.Chars.{is_digit, is_ident_start}
use kolang.Lexer.Strconv.{Strconv}
use kolang.Lexer.Skip.{is_blank}
use kolang.Lexer.Indent.{pop_above, reset_top, close_blocks, top, emit_indents}
use kolang.Lexer.Run.{lex_token}
use kolang.Lexer.Nesting.Walk.{
  walk, walk-append, Keeps, Keeps-refl, Keeps-trans, advance-Keeps, emit-Keeps,
}
use kolang.Lexer.Nesting.Skips.{skip_comment-Keeps}
use kolang.Lexer.Nesting.Reads.{lex_string-Keeps, lex_identifier-Keeps}
use kolang.Lexer.Nesting.Digits.{lex_number-Keeps, lex_operator-Keeps}

-- The widths of the open blocks, innermost first, fall strictly.
abbrev pub Falls : List ℕ → Type 0
Falls [] = Unit
Falls (t ∷ []) = Unit
Falls (t ∷ u ∷ below) = (u < t) × Falls (u ∷ below)

-- As many blocks are open in the tokens as the indentation stack has entries above its bottom.
pub record IsNested (l : Lexer) : Type 0 where
  pub depth : ℕ
  pub opened : walk l.tokens 0 ≡ some depth
  pub stacked : length l.indents ≡ suc depth
  pub falling : Falls l.indents

pub Keeps-IsNested : {l m : Lexer} → Keeps l m → IsNested l → IsNested m
Keeps-IsNested {l} {m} k h = record {
  depth = h.depth;
  opened = k.nesting 0 ∙ h.opened;
  stacked = rw k.stack h.stacked;
  falling = rw k.stack h.falling;
}

pub walk-push_dedent :
    (ts : List Token) (t : Token) (d : ℕ)
    → t.type ≡ dedent
    → walk ts 0 ≡ some (suc d)
    → walk (ts ++ (t ∷ [])) 0 ≡ some d
walk-push_dedent ts t d e h = walk-append ts (t ∷ []) 0 ∙ rw h (unfold walk in rw e)

walk-push_indent :
    (ts : List Token) (t : Token) (d : ℕ)
    → t.type ≡ indent
    → walk ts 0 ≡ some d
    → walk (ts ++ (t ∷ [])) 0 ≡ some (suc d)
walk-push_indent ts t d e h = walk-append ts (t ∷ []) 0 ∙ rw h (unfold walk in rw e)

-- Closing the innermost of at least two entries.
pub pop-IsNested :
    (t u : ℕ) (below : List ℕ) (l : Lexer)
    → l.indents ≡ t ∷ u ∷ below
    → IsNested l
    → IsNested (emit dedent [] (record l { indents = u ∷ below }))
pop-IsNested t u below l e h = record {
  depth = length below;
  opened =
      walk-push_dedent l.tokens _ (length below) refl
        (h.opened ∙ ap some (omega (arith, h.stacked, ap (λ (s : List ℕ). length s) e)));
  stacked = refl;
  falling = (rw e at h.falling).1;
}

pub pop_above-IsNested :
    (width : ℕ) (stack : List ℕ) (l : Lexer)
    → l.indents ≡ stack
    → IsNested l
    → IsNested (pop_above width stack l)
unfolding pop_above
pop_above-IsNested width [] l e h = h
pop_above-IsNested width (t ∷ []) l e h = h
pop_above-IsNested width (t ∷ u ∷ below) l e h = elim (Bool-cases (ltb width t)) [
  | inl above ↦
      rw above (pop_above-IsNested width (u ∷ below) _ refl (pop-IsNested t u below l e h))
  | inr kept ↦ rw kept h
]

-- What is left has its top at most `width`, or is the bottom.
abbrev Popped : ℕ → List ℕ → Type 0
Popped width [] = Unit
Popped width (t ∷ []) = Unit
Popped width (t ∷ u ∷ below) = t ≤ width

pop_above-Popped :
    (width : ℕ) (stack : List ℕ) (l : Lexer)
    → l.indents ≡ stack
    → Popped width (pop_above width stack l).indents
unfolding pop_above
pop_above-Popped width [] l e = rw e tt
pop_above-Popped width (t ∷ []) l e = rw e tt
pop_above-Popped width (t ∷ u ∷ below) l e = elim (Bool-cases (ltb width t)) [
  | inl above ↦ rw above (pop_above-Popped width (u ∷ below) _ refl)
  | inr kept ↦ rw (kept, e) (ground arith)
]

pub rest-pop_above :
    (width : ℕ) (stack : List ℕ) (l : Lexer) → (pop_above width stack l).rest ≡ l.rest
unfolding pop_above
rest-pop_above width [] l = refl
rest-pop_above width (t ∷ []) l = refl
rest-pop_above width (t ∷ u ∷ below) l = elim (Bool-cases (ltb width t)) [
  | inl above ↦ rw above (rest-pop_above width (u ∷ below) _)
  | inr kept ↦ rw kept
]

Falls-if : (b : Bool) (xs ys : List ℕ) → Falls xs → Falls ys → Falls (if b then xs else ys)
Falls-if true xs ys h k = h
Falls-if false xs ys h k = k

reset_top-Falls :
    (width : ℕ) (stack : List ℕ) → Popped width stack → Falls stack → Falls (reset_top width stack)
reset_top-Falls width [] p h = tt
reset_top-Falls width (t ∷ []) p h = Falls-if (t == width) (t ∷ []) (width ∷ []) tt tt
reset_top-Falls width (t ∷ u ∷ below) p h =
    Falls-if (t == width) (t ∷ u ∷ below) (width ∷ u ∷ below) h (omega arith, h.1)

length-reset_top : (width : ℕ) (stack : List ℕ) → length (reset_top width stack) ≡ length stack
length-reset_top width [] = refl
length-reset_top width (t ∷ below) = ground arith

close_blocks-IsNested : (width : ℕ) (l : Lexer) → IsNested l → IsNested (close_blocks width l)
unfolding close_blocks
close_blocks-IsNested width l h =
    let k = pop_above-IsNested width l.indents l refl h in
    let popped = pop_above width l.indents l in
    record {
      depth = k.depth;
      opened = k.opened;
      stacked = length-reset_top width popped.indents ∙ k.stacked;
      falling =
          reset_top-Falls width popped.indents (pop_above-Popped width l.indents l refl) k.falling;
    }

Falls-push : (width : ℕ) (stack : List ℕ) → top stack < width → Falls stack → Falls (width ∷ stack)
Falls-push width [] h k = tt
Falls-push width (t ∷ below) h k = (h, k)

open_block-IsNested :
    (width : ℕ) (l : Lexer)
    → top l.indents < width
    → IsNested l
    → IsNested (emit indent [] (record l { indents = width ∷ l.indents }))
open_block-IsNested width l above h = record {
  depth = suc h.depth;
  opened = walk-push_indent l.tokens _ h.depth refl h.opened;
  stacked = ap suc h.stacked;
  falling = Falls-push width l.indents above h.falling;
}

pub emit_indents-IsNested : (width : ℕ) (l : Lexer) → IsNested l → IsNested (emit_indents width l)
unfolding emit_indents
emit_indents-IsNested width l h =
    if_split IsNested (ltb (top l.indents) width) _ _
      (λ above. open_block-IsNested width l (ground arith) h)
      (λ _.
        if_split IsNested (ltb width (top l.indents)) _ _ (λ _. close_blocks-IsNested width l h)
          (λ _. h))

pub rest-emit_indents : (width : ℕ) (l : Lexer) → (emit_indents width l).rest ≡ l.rest
unfolding emit_indents close_blocks
rest-emit_indents width l =
    if_split (λ (m : Lexer). m.rest ≡ l.rest) (ltb (top l.indents) width) _ _ (λ _. refl)
      (λ _.
        if_split (λ (m : Lexer). m.rest ≡ l.rest) (ltb width (top l.indents)) _ _
          (λ _. rest-pop_above width l.indents l) (λ _. refl))

top-reset_top : (width t : ℕ) (below : List ℕ) → top (reset_top width (t ∷ below)) ≡ width
top-reset_top width t below = ground arith

top-close_blocks : (width : ℕ) (l : Lexer) → IsNested l → top (close_blocks width l).indents ≡ width
unfolding close_blocks
top-close_blocks width l h =
    after (pop_above width l.indents l).indents
      (pop_above-IsNested width l.indents l refl h).stacked
  where
    after : {d : ℕ} (stack : List ℕ) → length stack ≡ suc d → top (reset_top width stack) ≡ width
    after [] e = absurd (omega arith)
    after (t ∷ below) e = top-reset_top width t below

-- Behind a line's indentation the innermost block has that line's width, the INDENT and DEDENT
-- tokens match the indentation stack, and its widths fall strictly from the innermost out.
pub emit_indents_lem :
    (width : ℕ) (l : Lexer)
    → IsNested l
    → (top (emit_indents width l).indents ≡ width) × IsNested (emit_indents width l)
emit_indents_lem width l h = (on_top, emit_indents-IsNested width l h)
  where
    on_top : top (emit_indents width l).indents ≡ width
    on_top =
        unfold emit_indents in
        if_split (λ (m : Lexer). top m.indents ≡ width) (ltb (top l.indents) width) _ _ (λ _. refl)
          (λ above.
            if_split (λ (m : Lexer). top m.indents ≡ width) (ltb width (top l.indents)) _ _
              (λ _. top-close_blocks width l h) (λ under. ground arith))

-- One token is read, and the blocks stay as they are.
pub lex_token-Keeps :
    (go : Strconv) (r : ℕ) (rs : Text) (l : Lexer) → Keeps (advance r rs l) (lex_token go r rs l)
unfolding lex_token
lex_token-Keeps go r rs l =
    if_split K (is_blank r) _ _ (λ _. Keeps-refl (advance r rs l))
      (λ _.
        if_split K (r == b'\n') _ _ (λ _. emit-Keeps newline _ (advance r rs l) tt)
          (λ _.
            if_split K (r == 0xAB) _ _
              (λ e.
                subst (λ x. Keeps (advance x rs l) (lex_string rs l)) (sym ((==_iff r 0xAB).0 e))
                  (lex_string-Keeps rs l))
              (λ _.
                if_split K (r == b'/') _ _
                  (λ e.
                    subst (λ x. Keeps (advance x rs l) (skip_comment rs l))
                      (sym ((==_iff r b'/').0 e)) (skip_comment-Keeps rs l))
                  (λ _. if_split K (is_digit r) _ _ (lex_number-Keeps go r rs l) (λ _.
                    if_split K (is_ident_start r) _ _ (lex_identifier-Keeps r rs l)
                      (λ _. lex_operator-Keeps go r rs l))))))
  where
    K : Lexer → Type 0
    K = Keeps (advance r rs l)

pub comment-Keeps :
    (r : ℕ) (rs : Text) (l : Lexer)
    → l.rest ≡ r ∷ rs
    → (r == b'/') ≡ true
    → Keeps l (skip_comment rs l)
comment-Keeps r rs l e slash = Keeps-trans (advance-Keeps r rs l e) (
    subst (λ x. Keeps (advance x rs l) (skip_comment rs l)) (sym ((==_iff r b'/').0 slash))
      (skip_comment-Keeps rs l))
