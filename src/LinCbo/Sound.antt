-- ===== src/LinCbo/Sound.antt =====
-- algo/lincbo.c: `lincbo_step` ends, and every implication that it records holds in the context.
use fca4j_project.Base.{
  ℕ, zero, suc, ◌+◌, ◌-◌, ◌<◌, ◌≤◌, ◌≡◌, false, List, [], ◌∷◌, ◌++◌, Option, none, some, get_or,
  Bool-cases, inl, inr, arith, ==_refl, if◌then◌else◌,
}
use fca4j_project.Roaring.{Roaring}
use fca4j_project.Roaring.Sets.{Has, Subset, Below}
use fca4j_project.Roaring.Cardinal.{cardinality-lt}
use fca4j_project.Context.{BinaryContext, IsContext, row}
use fca4j_project.Closure.{compute_extent, compute_intent}
use fca4j_project.Closure.Derivation.{compute_extent_iff, compute_intent_iff}
use fca4j_project.Implication.{CImplication, impl_create_with_support}
use fca4j_project.LinCbo.{
  LinCbOState,
  Closed.{},
  implication_at,
  no_implication,
  default_of,
  lincbo_add_implication,
  extend,
}
use fca4j_project.LinCbo.Total.{ConclusionsBelow}

module _ {B : Type 0} ⦃R : Roaring B⦄ where
  open R use {
    create, contains, add, or, andnot, equals, is_empty, cardinality, contains-or, contains-create,
    contains-andnot, contains-add, equals_iff,
  }

  -- Every object that has the premise has the conclusion.
  abbrev pub HoldsIn : BinaryContext B → CImplication B → Type 0
  HoldsIn ctx imp =
      (o : ℕ)
      → o < ctx.nb_objects
      → Subset imp.premise (row ctx o)
      → Subset imp.conclusion (row ctx o)

  -- The state of the run on `ctx`.
  pub record IsSound (ctx : BinaryContext B) (st : LinCbOState B) : Type 0 where
    pub same_ctx : st.ctx ≡ ctx
    pub small : ConclusionsBelow ctx.nb_attributes st
    pub default_small : Below ctx.nb_attributes (default_of st.default_conclusion)
    pub holds : (i : ℕ) → HoldsIn ctx (implication_at st i)

  -- What the step records for the set `bo`.
  unfoldable pub closure_of : BinaryContext B → B → B
  closure_of ctx bo = or bo (compute_intent ctx (compute_extent ctx bo))

  pub closure_of-Below :
      (ctx : BinaryContext B) (bo : B)
      → IsContext ctx
      → Below ctx.nb_attributes bo
      → Below ctx.nb_attributes (closure_of ctx bo)
  unfolding closure_of
  closure_of-Below ctx bo wf below a h =
      let intent = compute_intent ctx (compute_extent ctx bo) in
      elim (Bool-cases (contains bo a)) [
        | inl given ↦ below a given
        | inr new ↦
            ((compute_intent_iff ctx (compute_extent ctx bo) a wf).0
              (ground (arith, contains-or bo intent a))).0
      ]

  recorded : BinaryContext B → B → CImplication B
  recorded ctx bo = impl_create_with_support bo (closure_of ctx bo) (some (compute_extent ctx bo))

  recorded-HoldsIn :
      (ctx : BinaryContext B) (bo : B) → IsContext ctx → HoldsIn ctx (recorded ctx bo)
  unfolding recorded impl_create_with_support closure_of
  recorded-HoldsIn ctx bo wf o lt sub a h =
      let intent = compute_intent ctx (compute_extent ctx bo) in
      let here : Has (compute_extent ctx bo) o = (compute_extent_iff ctx bo o wf).1 (lt, sub) in
      ((compute_intent_iff ctx (compute_extent ctx bo) a wf).0
          (ground (arith, h, contains-andnot (or bo intent) bo a, contains-or bo intent a))).1
        o here

  recorded-Below :
      (ctx : BinaryContext B) (bo : B)
      → IsContext ctx
      → Below ctx.nb_attributes bo
      → Below ctx.nb_attributes (recorded ctx bo).conclusion
  unfolding recorded impl_create_with_support
  recorded-Below ctx bo wf below x h =
      closure_of-Below ctx bo wf below x (ground (arith, contains-andnot (closure_of ctx bo) bo x))

  -- A property of all implications, kept when one is pushed.
  push_all :
      (P : CImplication B → Type 0) (imps : List (CImplication B)) (imp : CImplication B)
      → ((i : ℕ) → P (get_or imps i no_implication))
      → P imp
      → P no_implication
      → (i : ℕ) → P (get_or (imps ++ imp ∷ []) i no_implication)
  push_all P [] imp all here out zero = here
  push_all P [] imp all here out (suc i) = out
  push_all P (x ∷ imps) imp all here out zero = all 0
  push_all P (x ∷ imps) imp all here out (suc i) = push_all P imps imp (λ j. all (suc j)) here out i

  default-Below :
      (n : ℕ) (premise conclusion : B) (d : Option B)
      → Below n (default_of d)
      → Below n conclusion
      → Below n (default_of (if is_empty premise then some (or (default_of d) conclusion) else d))
  default-Below n premise conclusion d below small = elim (Bool-cases (is_empty premise)) [
    | inl e ↦
        rw e (λ x h. ground (arith, contains-or (default_of d) conclusion x, below x, small x))
    | inr e ↦ rw e below
  ]

  pub add_implication-IsSound :
      (ctx : BinaryContext B) (st : LinCbOState B) (bo : B)
      → IsContext ctx
      → IsSound ctx st
      → Below ctx.nb_attributes bo
      → IsSound ctx (lincbo_add_implication st bo (closure_of ctx bo) (compute_extent ctx bo))
  unfolding lincbo_add_implication recorded
  add_implication-IsSound ctx st bo wf inv below =
      let imp : CImplication B = recorded ctx bo in
      let conclusion_small : Below ctx.nb_attributes imp.conclusion =
        recorded-Below ctx bo wf below in
      record {
        same_ctx = inv.same_ctx;
        small =
            push_all (λ (c : CImplication B). Below ctx.nb_attributes c.conclusion) st.implications
              imp inv.small conclusion_small (λ x h. ground (arith, h, contains-create x));
        default_small =
            default-Below ctx.nb_attributes bo imp.conclusion st.default_conclusion
              inv.default_small conclusion_small;
        holds =
            push_all (HoldsIn ctx) st.implications imp inv.holds (recorded-HoldsIn ctx bo wf)
              (λ o lt sub x h. ground (arith, h, contains-create x));
      }

  -- The step returns a state, and a sound one.
  abbrev pub Returns : BinaryContext B → Option (LinCbOState B) → Type 0
  Returns ctx none = ⊥
  Returns ctx (some st) = IsSound ctx st

  -- What the recursive call does, with room for the fuel that it has.
  abbrev pub StepReturns :
      BinaryContext B → ℕ → (LinCbOState B → B → ℕ → B → List ℕ → Option (LinCbOState B)) → Type 0
  StepReturns ctx fuel rec =
      (st : LinCbOState B) (b : B) (from : ℕ) (z : B) (count : List ℕ)
      → IsSound ctx st
      → Below ctx.nb_attributes b
      → Subset z b
      → ctx.nb_attributes < fuel + cardinality b
      → Returns ctx (rec st b from z count)

  one_more : (bo : B) (a : ℕ) → contains bo a ≡ false → cardinality bo < cardinality (add bo a)
  one_more bo a new =
      cardinality-lt bo (add bo a) (λ x h. ground (arith, contains-add bo a x))
        (λ back. ground (arith, back a, contains-add bo a a, ==_refl a, new))

  after_call :
      (ctx : BinaryContext B) (result : Option (LinCbOState B))
      (go_on : LinCbOState B → Option (LinCbOState B))
      → Returns ctx result
      → ((st : LinCbOState B) → IsSound ctx st → Returns ctx (go_on st))
      → Returns ctx (elim result [ none ↦ none | some st ↦ go_on st ])
  after_call ctx none go_on r q = r
  after_call ctx (some st) go_on r q = q st r

  pub extend-Returns :
      (ctx : BinaryContext B) (fuel from left : ℕ) (bo : B) (count : List ℕ) (st : LinCbOState B)
      (rec : LinCbOState B → B → ℕ → B → List ℕ → Option (LinCbOState B))
      → StepReturns ctx fuel rec
      → IsSound ctx st
      → Below ctx.nb_attributes bo
      → left ≤ ctx.nb_attributes - from
      → ctx.nb_attributes < suc fuel + cardinality bo
      → Returns ctx (extend rec from left bo count st)
  unfolding extend
  extend-Returns ctx fuel from zero bo count st rec ok inv below room enough = inv
  extend-Returns ctx fuel from (suc left) bo count st rec ok inv below room enough =
      elim (Bool-cases (contains bo (from + left))) [
        | inl e ↦
            rw (e, extend)
              (extend-Returns ctx fuel from left bo count st rec ok inv below (omega arith) enough)
        | inr e ↦
            rw (e, extend)
              (after_call ctx
                (rec st (add bo (from + left)) (from + left + 1) (add create (from + left)) count)
                (λ next. extend rec from left bo count next)
                (ok st (add bo (from + left)) (from + left + 1) (add create (from + left)) count inv
                  (λ x h. ground (arith, room, below x, contains-add bo (from + left) x))
                  (λ x h. ground (
                    arith,
                    contains-add bo (from + left) x,
                    contains-add create (from + left) x,
                    contains-create x,
                  ))
                  (omega (arith, one_more bo (from + left) e)))
                (λ next inv'.
                  extend-Returns ctx fuel from left bo count next rec ok inv' below (omega arith)
                    enough))
      ]
