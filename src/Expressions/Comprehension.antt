-- ===== src/Expressions/Comprehension.antt =====
-- internal/eval/eval_comp.go: `compRec` beside the elements that lexical scoping gives.
use kolang.Prelude.{
  ℕ, ◌≡◌, refl, sym, ap, ◌∙◌, Bool, true, false, List, [], ◌∷◌, ◌++◌, Option, some, Text, text_eq,
  has, if◌then◌else◌, Bool-cases, inl, inr, append-nil, append_assoc,
}
use mathlib.Core.Path.{fun_ext}
use kolang.Control.World.{Outcome, ok, Step, bind, continue_with}
use kolang.Expressions.Interface.{Machine}
use kolang.Expressions.{give, Clause, passes, comp_items, comp_clause, comp_rec}

module _ (V : Type 0) where
  -- What the names of a scope are bound to.
  abbrev pub Names : Type 0
  Names = Text → Option V

  -- A clause without effects: its name, and its items and its filter in a scope.
  pub record PureClause : Type 0 where
    pub name : Text
    pub items : Names → List V
    pub keeps : Names → Bool

module _ {V : Type 0} where
  abbrev pub binding : Names V → Text → V → Names V
  binding names name v n = if text_eq name n then some v else names n

  abbrev pub concat_map : (V → List V) → List V → List V
  concat_map f [] = []
  concat_map f (v ∷ vs) = f v ++ concat_map f vs

  -- What is given for one item, which the filter may pass over.
  abbrev pub if_kept : PureClause V → (Names V → List V) → Names V → V → List V
  if_kept p inner names v =
      if p.keeps (binding names p.name v) then inner (binding names p.name v) else []

  -- The elements of a comprehension.
  abbrev pub elements : (Names V → V) → List (PureClause V) → Names V → List V
  elements element [] names = element names ∷ []
  elements element (p ∷ ps) names =
      concat_map (if_kept p (elements element ps) names) (p.items names)

  abbrev pub bound_by : List (PureClause V) → List Text
  bound_by [] = []
  bound_by (p ∷ ps) = p.name ∷ bound_by ps

  -- Two scopes that agree on all names but these, and a reading that does not see these.
  abbrev pub Agree : List Text → Names V → Names V → Type 0
  Agree hidden names names' = (n : Text) → has n hidden ≡ false → names n ≡ names' n

  abbrev pub Ignores : {A : Type 0} → List Text → (Names V → A) → Type 0
  Ignores hidden f = (names names' : Names V) → Agree hidden names names' → f names ≡ f names'

  -- No expression reads a name that only a later clause, or for an iterable its own one, binds.
  abbrev pub IsScoped : List (PureClause V) → Type 0
  IsScoped [] = Unit {0}
  IsScoped (p ∷ ps) =
      Ignores (p.name ∷ bound_by ps) p.items × Ignores (bound_by ps) p.keeps × IsScoped ps

  Agree-inside :
      (hidden : List Text) (names names' : Names V) (name : Text) (v : V) (names'' : Names V)
      → ((n : Text) → names'' n ≡ binding names' name v n)
      → Agree (name ∷ hidden) names names'
      → Agree hidden (binding names name v) names''
  unfolding has
  Agree-inside hidden names names' name v names'' bound agree n h =
      elim (Bool-cases (text_eq name n)) [
        | inl same ↦ rw same (sym (rw same at (bound n)))
        | inr other ↦ rw other (agree n (rw other h) ∙ sym (rw other at (bound n)))
      ]

  Agree-outside :
      (hidden : List Text) (names names' : Names V) (name : Text) (v : V)
      → Agree hidden (binding names name v) names'
      → Agree (name ∷ hidden) names names'
  unfolding has
  Agree-outside hidden names names' name v agree n h = elim (Bool-cases (text_eq name n)) [
    | inl same ↦ let clash : true ≡ false = rw same at h in cc clash
    | inr other ↦ rw other at (agree n (rw other at h))
  ]

module _ {F S V X : Type 0} (machine : Machine F S V X) (env : ℕ) (IsOpen : S → Type 0)
    (set_name-IsOpen : (m : Text) (v : V) (s : S) → IsOpen s → IsOpen (machine.set_name env m v s))
    (get-set : (n m : Text) (v : V) (s : S)
      → IsOpen s
      → machine.get env n (machine.set_name env m v s)
        ≡ (if text_eq m n then some v else machine.get env n s)) where
  abbrev pub look : S → Names V
  look s n = machine.get env n s

  -- The steps of a clause that only read the scope.
  abbrev pub Reads : Clause S V X → PureClause V → Type 0
  Reads cl p =
      (cl.name ≡ p.name)
      × ((s : S)
          → IsOpen s
          → (it : V) × (cl.iterable s ≡ (ok it, s))
            × (machine.iter_values it s ≡ (some (p.items (look s)), s)))
      × ((s : S) → IsOpen s → passes machine cl.line cl.filter s ≡ (ok (p.keeps (look s)), s))

  abbrev pub AllRead : List (Clause S V X) → List (PureClause V) → Type 0
  AllRead [] [] = Unit {0}
  AllRead (cl ∷ cls) (p ∷ ps) = Reads cl p × AllRead cls ps
  AllRead _ _ = ⊥

  module _ (value : Step S V X V) (element : Names V → V)
      (reads : (s : S) → IsOpen s → value s ≡ (ok (element (look s)), s)) where
    -- `emit` of a list comprehension.
    abbrev pub collect : List V → Step S V X (List V)
    collect out = bind value (λ v. give (out ++ (v ∷ [])))

    -- The elements behind those that are there, and a scope in which only some names may differ.
    abbrev pub Produces : List Text → List V → Names V → List V → Outcome V X (List V) × S → Type 0
    Produces hidden vs names out r =
        (s : S) × (r ≡ (ok (out ++ vs), s)) × Agree hidden names (look s) × IsOpen s

    abbrev Inner : (List V → Step S V X (List V)) → List (PureClause V) → Type 0
    Inner inner ps =
        (names : Names V) (s : S) (out : List V)
        → IsOpen s
        → Agree (bound_by ps) names (look s)
        → Produces (bound_by ps) (elements element ps names) names out (inner out s)

    continue_ok :
        (k : List V → Step S V X (List V)) (out : List V) (s : S)
        → continue_with k (ok out, s) ≡ k out s
    unfolding continue_with
    continue_ok k out s = refl

    item_step :
        (inner : List V → Step S V X (List V)) (cl : Clause S V X) (p : PureClause V)
        → Reads cl p
        → (v : V) (vs : List V) (s : S) (out : List V) (b : Bool)
        → IsOpen (machine.set_name env cl.name v s)
        → p.keeps (look (machine.set_name env cl.name v s)) ≡ b
        → comp_items machine inner env cl (v ∷ vs) out s
          ≡ bind
              (if b then inner out else give out)
              (comp_items machine inner env cl vs)
              (machine.set_name env cl.name v s)
    unfolding comp_items continue_with
    item_step inner cl p rd v vs s out b op h =
        rw (rd.2 (machine.set_name env cl.name v s) op, h) refl

    collect-Inner : Inner collect []
    unfolding continue_with has
    collect-Inner names s out op agree = (
      s,
      rw (reads s op)
          (ap (λ ns. (ok (out ++ (element ns ∷ [])), s)) (sym (fun_ext (λ n. agree n refl)))),
      agree,
      op,
    )

    comp_items-Inner :
        (inner : List V → Step S V X (List V)) (cl : Clause S V X) (p : PureClause V)
        (ps : List (PureClause V))
        → Reads cl p
        → Ignores (bound_by ps) p.keeps
        → Inner inner ps
        → (names : Names V) (vs : List V) (s : S) (out : List V) → IsOpen s
        → Agree (p.name ∷ bound_by ps) names (look s)
        → Produces
            (p.name ∷ bound_by ps)
            (concat_map (if_kept p (elements element ps) names) vs)
            names
            out
            (comp_items machine inner env cl vs out s)
    unfolding comp_items
    comp_items-Inner inner cl p ps rd ig ih names [] s out op agree =
        (s, rw (append-nil out) refl, agree, op)
    comp_items-Inner inner cl p ps rd ig ih names (v ∷ vs) s out op agree =
        let s1 = machine.set_name env cl.name v s in
        let bound = binding names p.name v in
        let inside : Agree (bound_by ps) bound (look s1) =
          Agree-inside (bound_by ps) names (look s) p.name v (look s1)
            (λ n.
              get-set n cl.name v s op ∙ ap (λ m. if text_eq m n then some v else look s n) rd.0)
            agree in
        let op1 = set_name-IsOpen cl.name v s op in
        let same : p.keeps bound ≡ p.keeps (look s1) = ig bound (look s1) inside in
        elim (Bool-cases (p.keeps bound)) [
          | inl keep ↦
              let (s2, ran, after, op2) = ih bound s1 out op1 inside in
              let (s3, rest, last, op3) =
                comp_items-Inner inner cl p ps rd ig ih names vs s2
                  (out ++ elements element ps bound) op2
                  (Agree-outside (bound_by ps) names (look s2) p.name v after) in
              (
                s3,
                item_step inner cl p rd v vs s out true op1 (sym same ∙ keep)
                    ∙ ap (continue_with (comp_items machine inner env cl vs)) ran
                    ∙ continue_ok (comp_items machine inner env cl vs) _ s2
                    ∙ rest
                    ∙ rw keep
                        (ap (λ xs. (ok xs, s3)) (append_assoc out (elements element ps bound) _)),
                last,
                op3,
              )
          | inr skip ↦
              let (s3, rest, last, op3) =
                comp_items-Inner inner cl p ps rd ig ih names vs s1 out op1
                  (Agree-outside (bound_by ps) names (look s1) p.name v inside) in
              (
                s3,
                item_step inner cl p rd v vs s out false op1 (sym same ∙ skip)
                    ∙ continue_ok (comp_items machine inner env cl vs) out s1
                    ∙ rw skip rest,
                last,
                op3,
              )
        ]

    comp_rec-Inner :
        (cls : List (Clause S V X)) (ps : List (PureClause V))
        → AllRead cls ps
        → IsScoped ps
        → Inner (comp_rec machine env collect cls) ps
    unfolding comp_rec comp_clause continue_with
    comp_rec-Inner [] [] rd sc names s out op agree = collect-Inner names s out op agree
    comp_rec-Inner [] (p ∷ ps) rd sc names s out op agree = absurd rd
    comp_rec-Inner (cl ∷ cls) [] rd sc names s out op agree = absurd rd
    comp_rec-Inner (cl ∷ cls) (p ∷ ps) rd sc names s out op agree =
        let (it, evaluated, iterated) = rd.0.1 s op in
        let inner = comp_rec-Inner cls ps rd.1 sc.2 in
        let same : p.items names ≡ p.items (look s) = sc.0 names (look s) agree in
        let (s2, ran, after, op2) =
          comp_items-Inner (comp_rec machine env collect cls) cl p ps rd.0 sc.1 inner names
            (p.items (look s)) s out op agree in
        (
          s2,
          rw (evaluated, iterated) ran
              ∙ ap (λ vs. (ok (out ++ concat_map (if_kept p (elements element ps) names) vs), s2))
                  (sym same),
          after,
          op2,
        )

    -- Where, in a state in which the scope is there, a name that is set is read back and the other names keep their values, and the iterables,
    -- the filters and the element of a comprehension only read the scope, and no iterable reads a
    -- name that its clause or a later one binds, and no filter one that a later clause binds: the
    -- comprehension succeeds with the elements that its clauses describe, in their order, behind
    -- those that are there, and no other name of the scope is changed.
    pub comp_rec-elements :
        (cls : List (Clause S V X)) (ps : List (PureClause V))
        → AllRead cls ps
        → IsScoped ps
        → (s : S) (out : List V) → IsOpen s
        → Produces
            (bound_by ps)
            (elements element ps (look s))
            (look s)
            out
            (comp_rec machine env collect cls out s)
    comp_rec-elements cls ps rd sc s out op =
        comp_rec-Inner cls ps rd sc (look s) s out op (λ n h. refl)
