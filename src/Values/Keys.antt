-- ===== src/Values/Keys.antt =====
-- internal/eval/eval_helpers.go: the keys of the maps that `equal` compares.
use kolang.Prelude.{
  suc, ◌≤◌, ◌≡◌, refl, true, none, Text, text_eq, text_eq_iff, text_eq_refl, if◌then◌else◌, arith,
}
use kolang.Values.{Value, Entries, no_entries, entry, find, size, without}
use kolang.Values.Equality.{is_found, keys_in}

module _ {F : Type 0} where
  abbrev pub IsMap : Entries F → Type 0
  IsMap no_entries = Unit {0}
  IsMap (entry k v m) = (find k m ≡ none) × IsMap m

  abbrev pub Holds : Entries F → Text → Type 0
  Holds m k = is_found (find k m) ≡ true

  abbrev pub Within : Entries F → Entries F → Type 0
  Within a b = (k : Text) → Holds a k → Holds b k

  pub find_other :
      (m : Entries F) (k j : Text)
      → IsMap m
      → find j (without k m) ≡ (if text_eq k j then none else find j m)
  unfolding find without
  find_other no_entries k j h = ground arith
  find_other (entry i v m) k j h =
      ground (arith, text_eq_iff k j, text_eq_iff i k, text_eq_iff i j, find_other m k j)

  pub size-without : (m : Entries F) (k : Text) → Holds m k → suc (size (without k m)) ≡ size m
  unfolding find size without
  size-without no_entries k h = absurd (cc)
  size-without (entry i v m) k h = ground (arith, size-without m k)

  pub without-IsMap : (m : Entries F) (k : Text) → IsMap m → IsMap (without k m)
  unfolding find size without
  without-IsMap no_entries k h = tt
  without-IsMap (entry i v m) k h = ground (arith, without-IsMap m k, find_other m k i)

  pub keys_in_sound : (a b : Entries F) → keys_in a b ≡ true → Within a b
  unfolding find keys_in
  keys_in_sound no_entries b e k h = absurd (cc)
  keys_in_sound (entry i v m) b e k h =
      ground (arith, text_eq_iff i k, λ (p : keys_in m b ≡ true). keys_in_sound m b p k)

  Holds-later : (m : Entries F) (i k : Text) (v : Value F) → Holds m k → Holds (entry i v m) k
  unfolding find
  Holds-later m i k v h = ground arith

  Holds-first : (m : Entries F) (i : Text) (v : Value F) → Holds (entry i v m) i
  unfolding find
  Holds-first m i v = rw (text_eq_refl i)

  pub keys_in_complete : (a b : Entries F) → Within a b → keys_in a b ≡ true
  unfolding find keys_in
  keys_in_complete no_entries b w = refl
  keys_in_complete (entry i v m) b w =
      let first : Holds b i = w i (Holds-first m i v) in
      let rest : keys_in m b ≡ true = keys_in_complete m b (λ k h. w k (Holds-later m i k v h)) in
      rw (first, rest)

  -- The other keys of one map are other keys of the other.
  Within-without :
      (m b : Entries F) (i : Text) (v : Value F)
      → find i m ≡ none
      → IsMap b
      → Within (entry i v m) b
      → Within m (without i b)
  unfolding find
  Within-without m b i v fresh mb w k h =
      ground (arith, find_other b i k mb, text_eq_iff i k, w k (Holds-later m i k v h))

  Within-back :
      (m b : Entries F) (i : Text) (v : Value F)
      → IsMap b
      → Within (without i b) m
      → Within b (entry i v m)
  unfolding find
  Within-back m b i v mb w k h = ground (arith, find_other b i k mb, w k)

  pub pigeonhole :
      (a b : Entries F) → IsMap a → IsMap b → ◌≤◌ (size b) (size a) → Within a b → Within b a
  unfolding size find
  pigeonhole no_entries no_entries ma mb h w = λ k e. e
  pigeonhole no_entries (entry i v m) ma mb h w = absurd (omega arith)
  pigeonhole (entry i v m) b ma mb h w = Within-back m b i v mb (
      pigeonhole m (without i b) ma.1 (without-IsMap b i mb)
        (omega (arith, size-without b i (w i (Holds-first m i v))))
        (Within-without m b i v ma.0 mb w))
