-- ===== src/Interpolation/Template.antt =====
-- internal/eval/eval_strings.go: a literal as it is written for a template, and `interpolate` of it.
use kolang.Prelude.{
  ℕ, suc, ◌+◌, ◌==◌, ◌≡◌, refl, sym, ap, ◌∙◌, false, List, [], ◌∷◌, ◌++◌, Text, length, Bool-cases,
  inl, inr, ==_iff, if◌then◌else◌, arith, append_assoc,
}
use mathlib.Core.Path.{fun_ext}
use kolang.Control.World.{Outcome, ok, err, Step, bind, continue_with}
use kolang.Interpolation.Placeholder.{Balanced, placeholder-hole}
use kolang.Interpolation.{starts_with, write, expand, walk, interpolate}

-- A template: texts that stand for themselves, and the sources of placeholders.
pub data Part : Type 0 where
  literal : Text → Part
  hole : Text → Part

-- Each brace is written twice.
abbrev pub escaped : Text → Text
escaped [] = []
escaped (c ∷ t) =
    let rest = escaped t in
    if c == b'{' then b'{' ∷ b'{' ∷ rest else if c == b'}' then b'}' ∷ b'}' ∷ rest else c ∷ rest

-- The literal that is written for a template.
abbrev pub written : List Part → Text
written [] = []
written (literal t ∷ ps) = escaped t ++ written ps
written (hole e ∷ ps) = b'{' ∷ (e ++ (b'}' ∷ written ps))

abbrev pub IsTemplate : List Part → Type 0
IsTemplate [] = Unit {0}
IsTemplate (literal t ∷ ps) = IsTemplate ps
IsTemplate (hole e ∷ ps) = Balanced e × (starts_with b'{' e ≡ false) × IsTemplate ps

suc_form : (n : ℕ) → n + 1 ≡ suc n
suc_form n = omega arith

starts_inside :
    (e t : Text) → starts_with b'{' e ≡ false → starts_with b'{' (e ++ (b'}' ∷ t)) ≡ false
starts_inside [] t h = refl
starts_inside (c ∷ e) t h = h

module _ {S V X : Type 0} (evaluated : Text → Step S V X Text) (unfinished : Step S V X Text) where
  -- The parts one after the other.
  abbrev pub filled : List Part → Step S V X Text
  filled [] s = (ok [], s)
  filled (literal t ∷ ps) s = write t (filled ps) s
  filled (hole e ∷ ps) s = bind (evaluated e) (λ t. write t (filled ps)) s

  abbrev from : ℕ → Text → Step S V X Text
  from = walk evaluated unfinished

  -- Writing steps that agree.
  write_agrees :
      (t : Text) (m n : Step S V X Text) (s : S) → ((u : S) → m u ≡ n u) → write t m s ≡ write t n s
  unfolding write
  write_agrees t m n s h = ap (continue_with (λ rest u. (ok (t ++ rest), u))) (h s)

  nothing_written :
      (r : Outcome V X Text × S) → r ≡ continue_with (λ rest u. (ok ([] ++ rest), u)) r
  unfolding continue_with
  nothing_written (ok t, s) = refl
  nothing_written (err g, s) = refl

  twice_written :
      (a b : Text) (r : Outcome V X Text × S)
      → continue_with
          (λ rest u. (ok (a ++ rest), u))
          (continue_with (λ rest u. (ok (b ++ rest), u)) r)
        ≡ continue_with (λ rest u. (ok ((a ++ b) ++ rest), u)) r
  unfolding continue_with
  twice_written a b (ok t, s) = rw (append_assoc a b t) refl
  twice_written a b (err g, s) = refl

  write_nothing : (m : Step S V X Text) (s : S) → m s ≡ write [] m s
  unfolding write
  write_nothing m s = nothing_written (m s)

  write_twice :
      (a b : Text) (m : Step S V X Text) (s : S) → write a (write b m) s ≡ write (a ++ b) m s
  unfolding write
  write_twice a b m s = twice_written a b (m s)

  walk_past : (xs t : Text) (c : ℕ) (s : S) → from (suc (length xs)) (xs ++ (c ∷ t)) s ≡ from 0 t s
  unfolding walk
  walk_past [] t c s = refl
  walk_past (x ∷ xs) t c s = walk_past xs t c s

  walk_nothing : (s : S) → from 0 [] s ≡ (ok [], s)
  unfolding walk
  walk_nothing s = refl

  walk_open : (t : Text) (s : S) → from 0 (b'{' ∷ b'{' ∷ t) s ≡ write (b'{' ∷ []) (from 0 t) s
  unfolding walk
  walk_open t s = refl

  walk_close : (t : Text) (s : S) → from 0 (b'}' ∷ b'}' ∷ t) s ≡ write (b'}' ∷ []) (from 0 t) s
  unfolding walk
  walk_close t s = refl

  walk_plain :
      (c : ℕ) (t : Text) (s : S)
      → (c == b'{') ≡ false
      → (c == b'}') ≡ false
      → from 0 (c ∷ t) s ≡ write (c ∷ []) (from 0 t) s
  unfolding walk
  walk_plain c t s h k = rw (h, k) refl

  walk-escaped : (t r : Text) (s : S) → from 0 (escaped t ++ r) s ≡ write t (from 0 r) s
  walk-escaped [] r s = write_nothing (from 0 r) s
  walk-escaped (c ∷ t) r s =
      let later =
        write_agrees (c ∷ []) _ _ s (walk-escaped t r) ∙ write_twice (c ∷ []) t (from 0 r) s in
      elim (Bool-cases (c == b'{')) [
        | inl opens ↦
            let brace : c ≡ b'{' = (==_iff c b'{').0 opens in
            rw opens (
              walk_open (escaped t ++ r) s
              ∙ ap (λ d. write (d ∷ []) (from 0 (escaped t ++ r)) s) (sym brace)
              ∙ later)
        | inr other ↦ elim (Bool-cases (c == b'}')) [
          | inl closes ↦
              let brace : c ≡ b'}' = (==_iff c b'}').0 closes in
              rw (other, closes)
                (walk_close (escaped t ++ r) s
                  ∙ ap (λ d. write (d ∷ []) (from 0 (escaped t ++ r)) s) (sym brace)
                  ∙ later)
          | inr plain_char ↦
              rw (other, plain_char) (walk_plain c (escaped t ++ r) s other plain_char ∙ later)
        ]
      ]

  past : (e t : Text) (s : S) → from (length e + 1) (e ++ (b'}' ∷ t)) s ≡ from 0 t s
  past e t s = ap (λ n. from n (e ++ (b'}' ∷ t)) s) (suc_form (length e)) ∙ walk_past e t b'}' s

  bound_agrees :
      (m n : Step S V X Text) (e : Text) (s : S)
      → ((u : S) → m u ≡ n u)
      → bind (evaluated e) (λ x. write x m) s ≡ bind (evaluated e) (λ x. write x n) s
  bound_agrees m n e s h =
      ap (λ k. continue_with k (evaluated e s))
        (fun_ext (λ x. fun_ext (λ u. write_agrees x m n u h)))

  walk-hole :
      (e t : Text) (s : S)
      → Balanced e
      → starts_with b'{' e ≡ false
      → from 0 (b'{' ∷ (e ++ (b'}' ∷ t))) s ≡ bind (evaluated e) (λ x. write x (from 0 t)) s
  unfolding walk expand continue_with
  walk-hole e t s b h =
      rw (starts_inside e t h, placeholder-hole t b) (bound_agrees _ (from 0 t) e s (past e t))

  walk-written : (ps : List Part) (s : S) → IsTemplate ps → from 0 (written ps) s ≡ filled ps s
  walk-written [] s h = walk_nothing s
  walk-written (literal t ∷ ps) s h =
      walk-escaped t (written ps) s ∙ write_agrees t _ _ s (λ u. walk-written ps u h)
  walk-written (hole e ∷ ps) s h =
      walk-hole e (written ps) s h.0 h.1
      ∙ bound_agrees (from 0 (written ps)) (filled ps) e s (λ u. walk-written ps u h.2)

  -- For a template whose placeholders hold balanced sources that do not begin with a brace, the
  -- literal that is written for it, every brace of its texts twice, is interpolated to its texts as
  -- they were and the values of its placeholders, evaluated in their order, up to the first error.
  pub interpolate-written :
      (ps : List Part) (s : S)
      → IsTemplate ps
      → interpolate evaluated unfinished (written ps) s ≡ filled ps s
  unfolding interpolate
  interpolate-written ps s h = walk-written ps s h
