-- ===== src/Tests/Elements.antt =====
-- Elements of a list at concrete indices.
use kolang.Prelude.{ℕ, [], ◌∷◌, List, ◌≡◌, ◌≢◌, refl, false, length}
use kolang.Prelude.Int.{ℤ, pos, negsuc}
use kolang.Indexing.{
  int_index, float_index, Floats, got, bad_index, panics, position, eval_index, set_index,
  eval_index_safe, eval_index-set_index,
}

-- A half stands for 1.5.
abbrev halves : Floats ℕ
halves = record { truncated = λ n. pos 1; is_whole = λ n. false }

abbrev three : List ℕ
three = 5 ∷ 6 ∷ 7 ∷ []

abbrev changed_last : List ℕ
changed_last = 5 ∷ 6 ∷ 9 ∷ []

set_last : set_index halves three (int_index (negsuc 0)) 9 ≡ got changed_last
unfolding set_index
set_last = refl

-- A float64 with a fraction is no index to read at, but it is one to write at.
eval_index_half : eval_index halves three (float_index 3) ≡ bad_index
unfolding eval_index
eval_index_half = refl

set_index_half : set_index halves three (float_index 3) 9 ≡ got (5 ∷ 9 ∷ 7 ∷ [])
unfolding set_index
set_index_half = refl

eval_index_safe_example : eval_index halves three (int_index (pos 3)) ≢ panics
eval_index_safe_example = eval_index_safe halves three (int_index (pos 3))

eval_index-set_index_example :
    (eval_index halves changed_last (int_index (negsuc 0)) ≡ got 9)
    × (length changed_last ≡ length three)
    × ((j : ℤ)
        → position j 3 ≢ position (negsuc 0) 3
        → eval_index halves changed_last (int_index j) ≡ eval_index halves three (int_index j))
eval_index-set_index_example = eval_index-set_index halves three changed_last (negsuc 0) 9 set_last
