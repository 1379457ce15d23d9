-- ===== src/Tests/Scopes.antt =====
-- Scopes: a root, a function's scope in it, and another one beside that.
use kolang.Prelude.{
  ℕ, ◌≡◌, refl, List, [], ◌∷◌, Option, none, some, Text, codes, if◌then◌else◌, arith, has, lookup,
  text_eq,
}
use kolang.Env.Store.{
  Scope, Store, new_env, get, assign, scopes, chain, root_of, parent_of, owner, local,
}
use kolang.Env.Chain.{Built, empty, next, opens, Built-scopes}
use kolang.Env.Binding.{owns, get-assign-owner, get-assign_other, get-assign_new, assign_global}

abbrev name : Text
name = codes "x"

abbrev other : Text
other = codes "y"

abbrev scope : List (Text × ℕ) → Option ℕ → List Text → Scope ℕ
scope store parent globals = record {
  store = store;
  types = [];
  parent = parent;
  globals = globals;
  nonlocs = [];
}

abbrev sample : Store ℕ
sample = scope ((name, 5) ∷ []) none [] ∷ scope [] (some 0) [] ∷ scope [] (some 0) (name ∷ []) ∷ []

built : Built (new_env {V = ℕ} [] none).0
built = next empty (opens none (λ p e. absurd (cc)))

Built-scopes_example :
    (parent_of (new_env {V = ℕ} [] none).0 (root_of (scopes (new_env {V = ℕ} [] none).0 0) 0)
      ≡ none)
    × (chain 3 (new_env {V = ℕ} [] none).0 0 ≡ scopes (new_env {V = ℕ} [] none).0 0)
Built-scopes_example = Built-scopes 0 3 (omega arith) built

get-assign-owner_example :
    get (assign sample 1 name 7) 0 name
    ≡ (if owns (owner sample (scopes sample 0) name) 0 then some 7 else get sample 0 name)
unfolding owner scopes chain has lookup
get-assign-owner_example = get-assign-owner sample 1 0 0 name 7 (refl, refl) refl

get-assign_other_example : get (assign sample 1 name 7) 0 other ≡ get sample 0 other
unfolding text_eq
get-assign_other_example = get-assign_other sample 1 0 name other 7 refl

get-assign_new_example :
    (get (assign sample 1 other 7) 1 other ≡ some 7)
    × (get (assign sample 1 other 7) 0 other ≡ get sample 0 other)
unfolding owner scopes chain has lookup
get-assign_new_example = get-assign_new sample 1 0 other 7 (omega arith) (refl, refl) refl refl

assign_global_example :
    (get (assign sample 2 name 7) (root_of (scopes sample 2) 2) name ≡ some 7)
    × (local (assign sample 2 name 7) 1 other ≡ local sample 1 other)
unfolding root_of scopes chain has lookup
assign_global_example = assign_global sample 2 1 name other 7 refl (omega arith) (λ e. cc)
