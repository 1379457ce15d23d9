-- ===== src/Classes/Chain.antt =====
-- Where parents are older than their children the walk up the parents ends.
use kolang.Prelude.{
  ℕ, zero, suc, ◌<◌, ◌≡◌, refl, sym, ap, ◌∙◌, List, [], ◌∷◌, Option, none, some, Bool, true, false,
  if◌then◌else◌, inl, inr, arith, ◌⊎◌, ◌==◌, ==_iff,
}
use kolang.Classes.{up, walk, any}

abbrev pub IsOrdered : (ℕ → Option ℕ) → Type 0
IsOrdered parent = (c p : ℕ) → parent c ≡ some p → p < c

up_same : (f g : ℕ → List ℕ) (o : Option ℕ) → ((p : ℕ) → o ≡ some p → f p ≡ g p) → up f o ≡ up g o
up_same f g none h = refl
up_same f g (some p) h = h p refl

pub walk-suc :
    (parent : ℕ → Option ℕ) (n c : ℕ) → walk parent (suc n) c ≡ c ∷ up (walk parent n) (parent c)
unfolding walk
walk-suc parent n c = refl

-- More fuel changes nothing.
pub walk_fuel :
    (parent : ℕ → Option ℕ)
    → IsOrdered parent
    → (n m c : ℕ) → c < n
    → c < m
    → walk parent n c ≡ walk parent m c
walk_fuel parent ordered zero m c h k = absurd (omega arith)
walk_fuel parent ordered (suc n) zero c h k = absurd (omega arith)
walk_fuel parent ordered (suc n) (suc m) c h k =
    rw (walk-suc parent n c, walk-suc parent m c)
      (ap (◌∷◌ c) (
        up_same (walk parent n) (walk parent m) (parent c) (λ p e.
          walk_fuel parent ordered n m p (omega (arith, ordered c p e))
            (omega (arith, ordered c p e)))))

module _ (test : ℕ → Bool) where
  pub any_here : (k : ℕ) (ks : List ℕ) → test k ≡ true → any test (k ∷ ks) ≡ true
  unfolding any
  any_here k ks h = rw h refl

  pub any_there : (k : ℕ) (ks : List ℕ) → any test ks ≡ true → any test (k ∷ ks) ≡ true
  unfolding any
  any_there k ks h = on (test k)
    where
      on : (b : Bool) → (if b then true else any test ks) ≡ true
      on true = refl
      on false = h

  pub any_cases :
      (k : ℕ) (ks : List ℕ) → any test (k ∷ ks) ≡ true → (test k ≡ true) ⊎ (any test ks ≡ true)
  unfolding any
  any_cases k ks h = on (test k) h
    where
      on : (b : Bool) → (if b then true else any test ks) ≡ true → (b ≡ true) ⊎ (any test ks ≡ true)
      on true e = inl refl
      on false e = inr e

-- What holds of a test on a member's chain holds on the whole chain.
any-up :
    (test found : ℕ → Bool) (above : ℕ → List ℕ) (o : Option ℕ)
    → ((p : ℕ) → o ≡ some p → any found (above p) ≡ true → any test (above p) ≡ true)
    → any found (up above o) ≡ true
    → any test (up above o) ≡ true
unfolding any
any-up test found above none h e = absurd (cc)
any-up test found above (some p) h e = h p refl e

-- A test that a class passes, itself or up from it, is passed up from each of its descendants.
pub any-walk :
    (parent : ℕ → Option ℕ)
    → IsOrdered parent
    → (test : ℕ → Bool) (fuel a b : ℕ) → a < fuel
    → any (λ k. k == b) (walk parent fuel a) ≡ true
    → any test (walk parent (suc b) b) ≡ true
    → any test (walk parent fuel a) ≡ true
any-walk parent ordered test zero a b h found passed = absurd (omega arith)
any-walk parent ordered test (suc fuel) a b h found passed =
    elim (any_cases (λ k. k == b) a (up (walk parent fuel) (parent a))
      (rw (walk-suc parent fuel a) at found)) [
        | inl same ↦ here ((==_iff a b).0 same)
        | inr higher ↦ rw (walk-suc parent fuel a) (
            any_there test a (up (walk parent fuel) (parent a)) (
              any-up test (λ k. k == b) (walk parent fuel) (parent a)
                (λ p e f.
                  any-walk parent ordered test fuel p b (omega (arith, ordered a p e)) f passed)
                higher))
      ]
  where
    here : a ≡ b → any test (walk parent (suc fuel) a) ≡ true
    here e =
        rw (e, walk_fuel parent ordered (suc fuel) (suc b) b (rw (sym e) h) (omega arith)) passed

-- From a class up to itself, its parent, the parent of that, and so on.
pub data IsUpFrom (parent : ℕ → Option ℕ) : ℕ → ℕ → Type 0 where
  itself : {a : ℕ} → IsUpFrom parent a a
  higher : {a b : ℕ} (p : ℕ) → parent a ≡ some p → IsUpFrom parent p b → IsUpFrom parent a b

walk-zero : (parent : ℕ → Option ℕ) (c : ℕ) → walk parent zero c ≡ []
unfolding walk
walk-zero parent c = refl

none_passes : (test : ℕ → Bool) → any test [] ≡ true → ⊥
unfolding any
none_passes test h = cc

pub walk-IsUpFrom :
    (parent : ℕ → Option ℕ) (test : ℕ → Bool) (fuel a : ℕ)
    → any test (walk parent fuel a) ≡ true
    → (k : ℕ) × IsUpFrom parent a k × (test k ≡ true)
walk-IsUpFrom parent test zero a h =
    absurd (none_passes test (sym (ap (any test) (walk-zero parent a)) ∙ h))
walk-IsUpFrom parent test (suc fuel) a h =
    elim (any_cases test a (up (walk parent fuel) (parent a)) (rw (walk-suc parent fuel a) at h)) [
      | inl here ↦ (a, itself, here)
      | inr above ↦ from (parent a) refl above (walk-IsUpFrom parent test fuel)
    ]
  where
    from :
        (o : Option ℕ)
        → parent a ≡ o
        → any test (up (walk parent fuel) o) ≡ true
        → ((p : ℕ)
            → any test (walk parent fuel p) ≡ true
            → (k : ℕ) × IsUpFrom parent p k × (test k ≡ true))
        → (k : ℕ) × IsUpFrom parent a k × (test k ≡ true)
    from none e h rest = absurd (none_passes test h)
    from (some p) e h rest = let up = rest p h in (up.0, higher p e up.1, up.2)

pub IsUpFrom-walk :
    (parent : ℕ → Option ℕ)
    → IsOrdered parent
    → (test : ℕ → Bool) (fuel a k : ℕ) → IsUpFrom parent a k
    → test k ≡ true
    → a < fuel
    → any test (walk parent fuel a) ≡ true
IsUpFrom-walk parent ordered test zero a k up h less = absurd (omega arith)
IsUpFrom-walk parent ordered test (suc fuel) a k itself h less =
    rw (walk-suc parent fuel a) (any_here test a (up (walk parent fuel) (parent a)) h)
IsUpFrom-walk parent ordered test (suc fuel) a k (higher p e rest) h less =
    rw (walk-suc parent fuel a) (
      any_there test a (up (walk parent fuel) (parent a))
        (rw e (IsUpFrom-walk parent ordered test fuel p k rest h (omega (arith, ordered a p e)))))
