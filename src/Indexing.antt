-- ===== src/Indexing.antt =====
-- internal/eval: reading an element of a list (`evalIndex` of eval_members.go) and writing one
-- (`setIndex` of eval_assign.go), with the indices that they take.
use kolang.Prelude.{
  ℕ, zero, suc, ◌<◌, ◌≡◌, ◌≢◌, refl, sym, ap, ◌∙◌, List, [], ◌∷◌, Option, none, some, Bool, ltb,
  if◌then◌else◌, length, get_elem?, set, length-set, get_elem?-set_self, get_elem?-set_ne, arith,
}
use kolang.Prelude.Int.{ℤ, pos, negsuc, ltb_ℤ}
use kolang.Int64.{add64}

-- The values that an index can be: an int64, a float64, or anything else.
pub data Index (F : Type 0) : Type 0 where
  int_index : ℤ → Index F
  float_index : F → Index F
  other_index : Index F

-- What is used of a float64: `int64(t)`, and `t == float64(int64(t))`.
pub record Floats (F : Type 0) : Type 0 where
  pub truncated : F → ℤ
  pub is_whole : F → Bool

-- The outcome: a value, the error about the index, the error about the range, or a panic.
pub data Access (A : Type 0) : Type 0 where
  got : A → Access A
  bad_index out_of_range panics : Access A

module _ {F : Type 0} (floats : Floats F) where
  unfoldable pub to_number : Index F → Option ℤ
  to_number (int_index i) = some i
  to_number (float_index t) = some (floats.truncated t)
  to_number other_index = none

  unfoldable pub to_index : Index F → Option ℤ
  to_index (int_index i) = some i
  to_index (float_index t) = if floats.is_whole t then some (floats.truncated t) else none
  to_index other_index = none

-- A negative index counts from the end; then it is in range, or is not.
unfoldable pub from_end : ℤ → ℕ → ℤ
unfolding add64
from_end i n = if ltb_ℤ i (pos 0) then add64 i (pos n) else i

unfoldable pub in_list : ℤ → ℕ → Option ℕ
in_list (pos k) n = if ltb k n then some k else none
in_list (negsuc k) n = none

unfoldable pub position : ℤ → ℕ → Option ℕ
unfolding from_end in_list
position i n = in_list (from_end i n) n

module _ {V : Type 0} where
  unfoldable pub found : Option V → Access V
  found none = panics
  found (some v) = got v

  unfoldable pub read_at : List V → Option ℕ → Access V
  unfolding found
  read_at xs none = out_of_range
  read_at xs (some k) = found (get_elem? xs k)

  unfoldable pub write_at : List V → V → Option ℕ → Access (List V)
  write_at xs v none = out_of_range
  write_at xs v (some k) = got (set xs k v)

  unfoldable pub read_from : List V → Option ℤ → Access V
  unfolding read_at position
  read_from xs none = bad_index
  read_from xs (some i) = read_at xs (position i (length xs))

  unfoldable pub write_to : List V → V → Option ℤ → Access (List V)
  unfolding write_at position
  write_to xs v none = bad_index
  write_to xs v (some i) = write_at xs v (position i (length xs))

module _ {F V : Type 0} (floats : Floats F) where
  -- `evalIndex` and `setIndex` of a list.
  unfoldable pub eval_index : List V → Index F → Access V
  unfolding to_index read_from
  eval_index xs i = read_from xs (to_index floats i)

  unfoldable pub set_index : List V → Index F → V → Access (List V)
  unfolding to_number write_to
  set_index xs i v = write_to xs v (to_number floats i)

in_list-lt : (i : ℤ) (n k : ℕ) → in_list i n ≡ some k → k < n
unfolding in_list
in_list-lt (pos j) n k e = ground arith
in_list-lt (negsuc j) n k e = absurd (cc)

position-in_list : (i : ℤ) (n k : ℕ) → position i n ≡ some k → in_list (from_end i n) n ≡ some k
unfolding position
position-in_list i n k e = e

module _ {V : Type 0} where
  write_at_lem :
      (xs ys : List V) (v : V) (p : Option ℕ)
      → write_at xs v p ≡ got ys
      → (k : ℕ) × (p ≡ some k) × (ys ≡ set xs k v)
  unfolding write_at
  write_at_lem xs ys v none h = absurd (cc)
  write_at_lem xs ys v (some k) h = (k, refl, cc)

  -- Another place reads what it read before.
  read_at-set :
      (xs : List V) (v : V) (k : ℕ) (p : Option ℕ)
      → p ≢ some k
      → read_at (set xs k v) p ≡ read_at xs p
  unfolding read_at
  read_at-set xs v k none n = refl
  read_at-set xs v k (some j) n = ap found (get_elem?-set_ne xs v (λ e. n (ap some (sym e))))

  found-get_elem? : (xs : List V) (k : ℕ) → k < length xs → found (get_elem? xs k) ≢ panics
  unfolding found
  found-get_elem? [] k lt e = absurd (omega arith)
  found-get_elem? (x ∷ xs) zero lt e = absurd (cc)
  found-get_elem? (x ∷ xs) (suc k) lt e = found-get_elem? xs k (omega arith) e

  read_at-panics :
      (xs : List V) (i : ℤ) (p : Option ℕ) → in_list i (length xs) ≡ p → read_at xs p ≢ panics
  unfolding read_at
  read_at-panics xs i none h e = absurd (cc)
  read_at-panics xs i (some k) h e = found-get_elem? xs k (in_list-lt i (length xs) k h) e

  read_from-panics : (xs : List V) (i : Option ℤ) → read_from xs i ≢ panics
  unfolding read_from position
  read_from-panics xs none e = absurd (cc)
  read_from-panics xs (some i) e = read_at-panics xs (from_end i (length xs)) _ refl e

module _ {F V : Type 0} (floats : Floats F) where
  -- Whatever the list and the index, and whatever the float64 arithmetic gives, no read panics.
  pub eval_index_safe : (xs : List V) (i : Index F) → eval_index floats xs i ≢ panics
  unfolding eval_index
  eval_index_safe xs i = read_from-panics xs (to_index floats i)

  -- Where an element is written at an integer index, it is read back there, from the front or from the
  -- end; the length stays; and every index of another place reads what it read before, errors
  -- included.
  pub eval_index-set_index :
      (xs ys : List V) (i : ℤ) (v : V)
      → set_index floats xs (int_index i) v ≡ got ys
      → (eval_index floats ys (int_index i) ≡ got v)
        × (length ys ≡ length xs)
        × ((j : ℤ)
            → position j (length xs) ≢ position i (length xs)
            → eval_index floats ys (int_index j) ≡ eval_index floats xs (int_index j))
  unfolding eval_index set_index
  eval_index-set_index xs ys i v h =
      let (k, place, changed) = write_at_lem xs ys v (position i (length xs)) h in
      let same : length ys ≡ length xs = ap length changed ∙ length-set xs k v in
      let inside : k < length xs =
        in_list-lt (from_end i (length xs)) (length xs) k
          (position-in_list i (length xs) k place) in
      (
        ap (λ n. read_at ys (position i n)) same
            ∙ ap (read_at ys) place
            ∙ ap (λ zs. read_at zs (some k)) changed
            ∙ ap found (get_elem?-set_self xs k v inside),
        same,
        λ j n.
            ap (λ m. read_at ys (position j m)) same
            ∙ ap (λ zs. read_at zs (position j (length xs))) changed
            ∙ read_at-set xs v k (position j (length xs)) (λ e. n (e ∙ sym place)),
      )
