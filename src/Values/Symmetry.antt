-- ===== src/Values/Symmetry.antt =====
-- internal/eval/eval_helpers.go: `equal` with its operands in the other order.
use kolang.Prelude.{
  ℕ, ◌≡◌, refl, sym, ◌∙◌, Option-cases, ==_iff, text_eq_refl, ◌==◌, ◌&&◌, Bool, true, false, Option,
  none, some, Text, text_eq, text_eq_iff, Bool-cases, arith, inl, inr,
}
use mathlib.Core.Path.{subst}
use kolang.Values.{
  Sort, Value, nil, bool, int, float, string, list, tuple, dict, set, object, Items, no_items, item,
  Entries, no_entries, entry, Floats, find, size, item_count,
}
use kolang.Values.Equality.{
  same_object, same_bool, keys_in, found_equal, is_found, equal, all_equal, all_in,
}
use kolang.Values.Keys.{IsMap, Within, keys_in_sound, keys_in_complete, pigeonhole}

same_object_comm : (s : Sort) (p : ℕ) (t : Sort) (q : ℕ) → same_object s p t q ≡ same_object t q s p
unfolding same_object
same_object_comm Sort.instance_sort p Sort.instance_sort q = ground arith
same_object_comm _ p _ q = ground arith

text_eq_comm : (a b : Text) → text_eq a b ≡ text_eq b a
text_eq_comm a b = ground (arith, text_eq_iff a b, text_eq_iff b a)

same_bool_comm : (a b : Bool) → same_bool a b ≡ same_bool b a
same_bool_comm a b = ground arith

==_comm : (m n : ℕ) → (m == n) ≡ (n == m)
==_comm m n = ground arith

-- Two truths that imply each other are one.
iff_eq : (a b : Bool) → (a ≡ true → b ≡ true) → (b ≡ true → a ≡ true) → a ≡ b
iff_eq true true h k = refl
iff_eq true false h k = cc (h refl)
iff_eq false true h k = cc (k refl)
iff_eq false false h k = refl

module _ {F : Type 0} where
  keys_in_turned :
      (a b : Entries F)
      → IsMap a
      → IsMap b
      → (size a == size b && keys_in a b) ≡ true
      → (size b == size a && keys_in b a) ≡ true
  keys_in_turned a b ma mb h =
      let same : size a ≡ size b = ground arith in
      let inside : keys_in a b ≡ true = ground arith in
      let back : keys_in b a ≡ true =
        keys_in_complete b a (pigeonhole a b ma mb (omega arith) (keys_in_sound a b inside)) in
      ground arith

  nothing_found : (k : Text) {v : Value F} → find k no_entries ≡ some v → ⊥
  unfolding find
  nothing_found k e = cc

  -- What is found in a map is its first entry or is found behind it.
  first_or_later :
      (P : Value F → Type 0) (i k : Text) (u v : Value F) (m : Entries F)
      → find k (entry i u m) ≡ some v
      → P u
      → (find k m ≡ some v → P v)
      → P v
  unfolding find
  first_or_later P i k u v m e here there = elim (Bool-cases (text_eq i k)) [
    | inl same ↦ let found : u ≡ v = ground arith in subst P found here
    | inr other ↦ there (ground arith)
  ]

  -- Every map that a value holds has each key once.
  abbrev mutual
    pub IsSound : Value F → Type 0
    IsSound (list xs) = AllSound xs
    IsSound (tuple xs) = AllSound xs
    IsSound (dict m) = IsMap m × EntriesSound m
    IsSound (set m) = IsMap m
    IsSound _ = Unit {0}

    pub AllSound : Items F → Type 0
    AllSound no_items = Unit {0}
    AllSound (item x xs) = IsSound x × AllSound xs

    pub EntriesSound : Entries F → Type 0
    EntriesSound no_entries = Unit {0}
    EntriesSound (entry k v m) = IsSound v × EntriesSound m

  found-IsSound :
      (m : Entries F) (k : Text) (v : Value F) → EntriesSound m → find k m ≡ some v → IsSound v
  unfolding find
  found-IsSound no_entries k v s e = absurd (cc)
  found-IsSound (entry i w m) k v s e =
      first_or_later IsSound i k w v m e s.0 (found-IsSound m k v s.1)

and_split : (a b : Bool) → (a && b) ≡ true → (a ≡ true) × (b ≡ true)
and_split a b h = ground arith

module _ {F : Type 0} where
  later :
      (m : Entries F) (i k : Text) (u v : Value F)
      → find i m ≡ none
      → find k m ≡ some v
      → find k (entry i u m) ≡ some v
  unfolding find
  later m i k u v fresh e = ground (arith, text_eq_iff i k)

module _ {F : Type 0} (floats : Floats F) where
  -- What two maps have under one key compares alike both ways.
  abbrev Linked : Entries F → Entries F → Type 0
  Linked a b =
      (k : Text) (v w : Value F)
      → find k a ≡ some v
      → find k b ≡ some w
      → equal floats v w ≡ equal floats w v

  abbrev Answers : Entries F → Entries F → Type 0
  Answers a b =
      (k : Text) (v : Value F) → find k a ≡ some v → found_equal (equal floats v) (find k b) ≡ true

  all_in_entry :
      (i : Text) (v : Value F) (m b : Entries F)
      → all_in floats (entry i v m) b
        ≡ (found_equal (equal floats v) (find i b) && all_in floats m b)
  unfolding equal
  all_in_entry i v m b = refl

  all_in_parts :
      (i : Text) (v : Value F) (m b : Entries F)
      → all_in floats (entry i v m) b ≡ true
      → (found_equal (equal floats v) (find i b) ≡ true) × (all_in floats m b ≡ true)
  all_in_parts i v m b h = and_split _ _ (sym (all_in_entry i v m b) ∙ h)

  found_equal_found :
      (equals : Value F → Bool) (o : Option (Value F))
      → found_equal equals o ≡ true
      → is_found o ≡ true
  found_equal_found equals none h = h
  found_equal_found equals (some w) h = refl

  all_in-keys_in : (a b : Entries F) → all_in floats a b ≡ true → keys_in a b ≡ true
  unfolding keys_in
  all_in-keys_in no_entries b h = refl
  all_in-keys_in (entry i v m) b h =
      let (first, rest) = all_in_parts i v m b h in
      let held = found_equal_found (equal floats v) (find i b) first in
      rw (held, all_in-keys_in m b rest)

  all_in_sound : (a b : Entries F) → all_in floats a b ≡ true → Answers a b
  unfolding find
  all_in_sound no_entries b h k v e = absurd (cc)
  all_in_sound (entry i u m) b h k v e =
      let (first, rest) = all_in_parts i u m b h in
      elim (Bool-cases (text_eq i k)) [
        | inl same ↦
            let found : u ≡ v = ground arith in
            let key : i ≡ k = (text_eq_iff i k).0 same in rw (← found, ← key) first
        | inr other ↦
            let found : find k m ≡ some v = ground arith in all_in_sound m b rest k v found
      ]

  all_in_nothing : (b : Entries F) → all_in floats no_entries b ≡ true
  unfolding equal
  all_in_nothing b = refl

  all_in_complete : (a b : Entries F) → IsMap a → Answers a b → all_in floats a b ≡ true
  unfolding find
  all_in_complete no_entries b ma h = all_in_nothing b
  all_in_complete (entry i u m) b ma h =
      let first : found_equal (equal floats u) (find i b) ≡ true = h i u (rw (text_eq_refl i)) in
      let rest : all_in floats m b ≡ true =
        all_in_complete m b ma.1 (λ k v e. h k v (later m i k u v ma.0 e)) in
      rw (all_in_entry i u m b, first) rest

  Answers-turned : (a b : Entries F) → Linked a b → Within b a → Answers a b → Answers b a
  Answers-turned a b linked back h k w e = elim (Option-cases (find k a)) [
    | inl missing ↦
        let held : is_found (find k a) ≡ true = back k (rw e refl) in
        let clash : false ≡ true = rw missing at held in cc clash
    | inr (v, found) ↦
        let alike : equal floats v w ≡ true = rw e at (h k v found) in
        rw found (sym (linked k v w found e) ∙ alike)
  ]

  dict_turned :
      (a b : Entries F)
      → IsMap a
      → IsMap b
      → Linked a b
      → (size a == size b && all_in floats a b) ≡ true
      → (size b == size a && all_in floats b a) ≡ true
  dict_turned a b ma mb linked h =
      let (sizes, inside) = and_split (size a == size b) (all_in floats a b) h in
      let same : size a ≡ size b = (==_iff (size a) (size b)).0 sizes in
      let back : Within b a =
        pigeonhole a b ma mb (omega arith) (keys_in_sound a b (all_in-keys_in a b inside)) in
      let turned : all_in floats b a ≡ true =
        all_in_complete b a mb (Answers-turned a b linked back (all_in_sound a b inside)) in
      rw ((==_iff (size b) (size a)).1 (sym same)) turned

module _ {F : Type 0} (floats : Floats F)
    (eq_comm : (t u : F) → floats.eq t u ≡ floats.eq u t) where
  mutual
    unfolding equal

    equal_turned : (v w : Value F) → IsSound v → IsSound w → equal floats v w ≡ equal floats w v
    equal_turned (int i) (int j) s t = eq_comm (floats.of_int i) (floats.of_int j)
    equal_turned (int i) (float u) s t = eq_comm (floats.of_int i) u
    equal_turned (float u) (int j) s t = eq_comm u (floats.of_int j)
    equal_turned (float u) (float w) s t = eq_comm u w
    equal_turned (bool a) (bool b) s t = same_bool_comm a b
    equal_turned (string a) (string b) s t = text_eq_comm a b
    equal_turned nil nil s t = refl
    equal_turned (list xs) (list ys) s t =
        rw (==_comm (item_count xs) (item_count ys), all_equal_turned xs ys s t)
    equal_turned (tuple xs) (tuple ys) s t =
        rw (==_comm (item_count xs) (item_count ys), all_equal_turned xs ys s t)
    equal_turned (dict a) (dict b) s t =
        let linked : Linked floats a b =
          λ k v w e f. each_turned a k v w s.1 e (found-IsSound b k w t.1 f) in
        iff_eq _ _ (dict_turned floats a b s.0 t.0 linked)
          (dict_turned floats b a t.0 s.0 (λ k v w e f. sym (linked k w v f e)))
    equal_turned (set a) (set b) s t = iff_eq _ _ (keys_in_turned a b s t) (keys_in_turned b a t s)
    equal_turned (object s p) (object t q) h k = same_object_comm s p t q
    equal_turned _ _ s t = refl

    all_equal_turned :
        (xs ys : Items F)
        → AllSound xs
        → AllSound ys
        → all_equal floats xs ys ≡ all_equal floats ys xs
    all_equal_turned no_items no_items s t = refl
    all_equal_turned no_items (item y ys) s t = refl
    all_equal_turned (item x xs) no_items s t = refl
    all_equal_turned (item x xs) (item y ys) s t =
        rw (equal_turned x y s.0 t.0, all_equal_turned xs ys s.1 t.1)

    each_turned :
        (m : Entries F) (k : Text) (v w : Value F)
        → EntriesSound m
        → find k m ≡ some v
        → IsSound w
        → equal floats v w ≡ equal floats w v
    each_turned no_entries k v w s e t = absurd (nothing_found k e)
    each_turned (entry i u m) k v w s e t =
        let here = equal_turned u w s.0 t in
        let there = λ (f : find k m ≡ some v). each_turned m k v w s.1 f t in
        first_or_later (λ x. equal floats x w ≡ equal floats w x) i k u v m e here there

  -- Where the comparison of floats does not depend on the order of its operands, and each map in the
  -- two values has each key once, `equal` does not depend on the order of its operands.
  pub equal_comm : (v w : Value F) → IsSound v → IsSound w → equal floats v w ≡ equal floats w v
  equal_comm v w s t = equal_turned v w s t
