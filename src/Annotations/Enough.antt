-- ===== src/Annotations/Enough.antt =====
-- internal/eval/eval_types.go: the fuel of the check of a value against an annotation.
use kolang.Prelude.{
  ℕ, zero, suc, ◌≤◌, ◌<◌, ◌==◌, ◌&&◌, ◌≢◌, Bool, true, false, List, [], ◌∷◌, map, Text, length,
  if◌then◌else◌, if_split, arith,
}
use kolang.Prelude.Int.{ℤ, pos, ◌+ℤ◌, ◌-ℤ◌}
use kolang.Values.{Value, nil, tuple, Items, no_items, item, item_count}
use kolang.Annotations.{
  trim_left, before, trim_right, trim, split_loop, split_type_list, all_parts, in_front, new_part,
  Checked, fits, mismatch, out_of_fuel, and_then, closes, but_last, Declared, check_each,
  check_parts, check_trimmed, check_type, type_matches, is_none,
}
use kolang.Annotations.Names.{separator}

module _ (is_space : ℕ → Bool) where
  length-trim_left : (s : Text) → length (trim_left is_space s) ≤ length s
  unfolding trim_left
  length-trim_left [] = omega arith
  length-trim_left (c ∷ cs) = ground (arith, length-trim_left cs)

  length-before : (c : ℕ) (s : Text) → length (before is_space c s) ≤ suc (length s)
  length-before c [] = ground arith
  length-before c (d ∷ ds) = omega arith

  length-trim_right : (s : Text) → length (trim_right is_space s) ≤ length s
  unfolding trim_right
  length-trim_right [] = omega arith
  length-trim_right (c ∷ cs) =
      omega (arith, length-before c (trim_right is_space cs), length-trim_right cs)

  length-trim : (s : Text) → length (trim is_space s) ≤ length s
  unfolding trim
  length-trim s = omega (arith, length-trim_right (trim_left is_space s), length-trim_left s)

  -- No part is longer than a bound.
  abbrev Short : ℕ → List Text → Type 0
  Short n [] = Unit {0}
  Short n (p ∷ ps) = (length p ≤ n) × Short n ps

  abbrev ShortParts : ℕ → Text × List Text → Type 0
  ShortParts n (part, parts) = (length part ≤ n) × Short n parts

  Short-suc : (n : ℕ) (ps : List Text) → Short n ps → Short (suc n) ps
  Short-suc n [] h = tt
  Short-suc n (p ∷ ps) h = (omega arith, Short-suc n ps h.1)

  in_front-Short :
      (n c : ℕ) (r : Text × List Text) → ShortParts n r → ShortParts (suc n) (in_front c r)
  in_front-Short n c (part, parts) h = (omega arith, Short-suc n parts h.1)

  new_part-Short : (n : ℕ) (r : Text × List Text) → ShortParts n r → ShortParts (suc n) (new_part r)
  new_part-Short n (part, parts) h = (omega arith, (omega arith, Short-suc n parts h.1))

  split_loop-Short : (depth : ℤ) (s : Text) → ShortParts (length s) (split_loop depth s)
  unfolding split_loop
  split_loop-Short depth [] = (omega arith, tt)
  split_loop-Short depth (c ∷ cs) =
      if_split (ShortParts (suc (length cs))) (c == b'(') _ _
        (λ _. in_front-Short (length cs) c _ (split_loop-Short (depth +ℤ pos 1) cs))
        (λ _.
          if_split (ShortParts (suc (length cs))) (c == b')') _ _
            (λ _. in_front-Short (length cs) c _ (split_loop-Short (depth -ℤ pos 1) cs))
            (λ _.
              if_split (ShortParts (suc (length cs))) (c == separator && is_none depth)
                (new_part (split_loop depth cs)) (in_front c (split_loop depth cs))
                (λ _. new_part-Short (length cs) _ (split_loop-Short depth cs))
                (λ _. in_front-Short (length cs) c _ (split_loop-Short depth cs))))

  map-trim-Short : (n : ℕ) (ps : List Text) → Short n ps → Short n (map (trim is_space) ps)
  map-trim-Short n [] h = tt
  map-trim-Short n (p ∷ ps) h = (omega (arith, length-trim p), map-trim-Short n ps h.1)

  all_parts-Short :
      (n : ℕ) (r : Text × List Text) → ShortParts n r → Short n (all_parts (trim is_space) r)
  all_parts-Short n (part, parts) h = map-trim-Short n (part ∷ parts) h

  split_type_list-Short : (s : Text) → Short (length s) (split_type_list is_space s)
  unfolding split_type_list
  split_type_list-Short s =
      all_parts-Short (length s) (split_loop (pos 0) s) (split_loop-Short (pos 0) s)

length-but_last : (s : Text) → length (but_last s) ≤ length s
length-but_last [] = omega arith
length-but_last (c ∷ []) = omega arith
length-but_last (c ∷ d ∷ ds) = omega (arith, length-but_last (d ∷ ds))

module _ {F Fn : Type 0} (decl : Declared F Fn) (is_space : ℕ → Bool) where
  -- A check that has fuel for texts below a bound.
  abbrev Fuelled : ℕ → (Value F → Text → Checked) → Type 0
  Fuelled n again = (v : Value F) (p : Text) → length p < n → again v p ≢ out_of_fuel

  and_then-ne : (a b : Checked) → a ≢ out_of_fuel → b ≢ out_of_fuel → and_then a b ≢ out_of_fuel
  and_then-ne fits b h k = k
  and_then-ne mismatch b h k = h
  and_then-ne out_of_fuel b h k = h

  check_each-Fuelled :
      (n k : ℕ) (again : Value F → Text → Checked)
      → k < n
      → Fuelled n again
      → (vs : Items F) (ps : List Text) → Short is_space k ps
      → check_each decl again vs ps ≢ out_of_fuel
  unfolding check_each
  check_each-Fuelled n k again lt h no_items ps s e = absurd (cc)
  check_each-Fuelled n k again lt h (item nil vs) [] s e = absurd (cc)
  check_each-Fuelled n k again lt h (item v vs) [] s e = absurd (cc)
  check_each-Fuelled n k again lt h (item nil vs) (p ∷ ps) s e =
      check_each-Fuelled n k again lt h vs ps s.1 e
  check_each-Fuelled n k again lt h (item v vs) (p ∷ ps) s e =
      and_then-ne _ _ (h v p (omega arith)) (check_each-Fuelled n k again lt h vs ps s.1) e

  fits-ne : fits ≢ out_of_fuel
  fits-ne e = cc

  mismatch-ne : mismatch ≢ out_of_fuel
  mismatch-ne e = cc

  check_tuple-Fuelled :
      (n k : ℕ) (again : Value F → Text → Checked)
      → k < n
      → Fuelled n again
      → (vs : Items F) (ps : List Text) → Short is_space k ps
      → (b : Bool) → (if b then check_each decl again vs ps else mismatch) ≢ out_of_fuel
  check_tuple-Fuelled n k again lt h vs ps s true = check_each-Fuelled n k again lt h vs ps s
  check_tuple-Fuelled n k again lt h vs ps s false = mismatch-ne

  check_parts-Fuelled :
      (n k : ℕ) (again : Value F → Text → Checked)
      → k < n
      → Fuelled n again
      → (v : Value F) (ps : List Text) → Short is_space k ps
      → check_parts decl again v ps ≢ out_of_fuel
  unfolding check_parts
  check_parts-Fuelled n k again lt h v (p ∷ []) s = h v p (omega arith)
  check_parts-Fuelled n k again lt h (tuple vs) [] s =
      check_tuple-Fuelled n k again lt h vs [] s (0 == item_count vs)
  check_parts-Fuelled n k again lt h (tuple vs) (p ∷ q ∷ ps) s =
      check_tuple-Fuelled n k again lt h vs (p ∷ q ∷ ps) s (length (p ∷ q ∷ ps) == item_count vs)
  check_parts-Fuelled n k again lt h nil [] s = mismatch-ne
  check_parts-Fuelled n k again lt h nil (p ∷ q ∷ ps) s = mismatch-ne
  check_parts-Fuelled n k again lt h _ [] s = mismatch-ne
  check_parts-Fuelled n k again lt h _ (p ∷ q ∷ ps) s = mismatch-ne

  check_trimmed-Fuelled :
      (n : ℕ) (again : Value F → Text → Checked)
      → Fuelled n again
      → (v : Value F) (t : Text) → length t ≤ n
      → check_trimmed decl is_space again v t ≢ out_of_fuel
  check_trimmed-Fuelled n again h v [] s = fits-ne
  check_trimmed-Fuelled n again h v (c ∷ cs) s =
      let inner = trim is_space (but_last cs) in
      let shorter : length inner < n =
        omega (arith, length-trim is_space (but_last cs), length-but_last cs) in
      if_split (λ r. r ≢ out_of_fuel) (c == b'(' && closes cs)
        (check_parts decl again v (split_type_list is_space inner))
        (if type_matches decl v (c ∷ cs) then fits else mismatch)
        (λ _.
          check_parts-Fuelled n (length inner) again shorter h v (split_type_list is_space inner)
            (split_type_list-Short is_space inner))
        (λ _.
          if_split (λ r. r ≢ out_of_fuel) (type_matches decl v (c ∷ cs)) fits mismatch
            (λ _. fits-ne) (λ _. mismatch-ne))

  -- The check of a value against an annotation ends.
  pub check_type_ends :
      (n : ℕ) (v : Value F) (ann : Text)
      → length ann < n
      → check_type decl is_space n v ann ≢ out_of_fuel
  unfolding check_type
  check_type_ends zero v ann h = absurd (omega arith)
  check_type_ends (suc n) v ann h =
      check_trimmed-Fuelled n (check_type decl is_space n) (check_type_ends n) v (trim is_space ann)
        (omega (arith, length-trim is_space ann))
