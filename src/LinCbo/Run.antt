-- ===== src/LinCbo/Run.antt =====
-- algo/lincbo.c: the recursion `lincbo_step` returns a sound state.
use fca4j_project.Base.{
  ℕ, zero, suc, ◌+◌, ◌-◌, ◌<◌, ◌≡◌, refl, true, false, List, [], Option, none, some, Bool-cases,
  inl, inr, arith,
}
use mathlib.Core.Path.{subst}
use fca4j_project.Roaring.{Roaring}
use fca4j_project.Roaring.Sets.{Subset, Below}
use fca4j_project.Roaring.Cardinal.{cardinality-lt, cardinality-le, cardinality_mono}
use fca4j_project.Context.{BinaryContext, IsContext}
use fca4j_project.Closure.{compute_extent, compute_intent}
use fca4j_project.LinCbo.{
  LinCbOState,
  Closed,
  Closed.{failed, out_of_fuel, closed},
  with_default,
  default_of,
  lincbo_add_implication,
  lincbo_equals_until,
  lincbo_lin_closure_rc,
  extend,
  lincbo_step,
  lincbo_init,
}
use fca4j_project.LinCbo.Total.{IsClosureOf, lin_closure-total}
use fca4j_project.LinCbo.Sound.{
  IsSound, Returns, StepReturns, closure_of, closure_of-Below, add_implication-IsSound,
  extend-Returns,
}

module _ {B : Type 0} ⦃R : Roaring B⦄ where
  open R use {
    create, contains, or, andnot, equals, cardinality, contains-or, contains-andnot,
    contains-create, equals_iff,
  }

  with_default-Below :
      (n : ℕ) (b : B) (d : Option B)
      → Below n b
      → Below n (default_of d)
      → Below n (with_default b d)
  with_default-Below n b none below small x h = below x h
  with_default-Below n b (some d) below small x h =
      ground (arith, contains-or b d x, below x, small x)

  -- A set that its closure properly extends: the closure has more elements.
  closure_larger :
      (ctx : BinaryContext B) (b bo : B)
      → Subset b bo
      → equals bo (closure_of ctx bo) ≡ false
      → cardinality b < cardinality (closure_of ctx bo)
  unfolding closure_of
  closure_larger ctx b bo sub ne =
      let intent = compute_intent ctx (compute_extent ctx bo) in
      cardinality-lt b (or bo intent) (λ x h. ground (arith, contains-or bo intent x, sub x h))
        (λ back. cc (
          ne,
          (equals_iff bo (or bo intent)).1
              (λ x. ground (arith, contains-or bo intent x, back x, sub x)),
        ))

  -- `some r` of the linear closure, whichever branch follows.
  after_closure :
      (ctx : BinaryContext B) (st : LinCbOState B) (b : B) (r : Closed B)
      (go_on : B → List ℕ → Option (LinCbOState B))
      → IsSound ctx st
      → IsClosureOf ctx.nb_attributes b r
      → ((bo : B) (count : List ℕ)
          → Subset b bo
          → Below ctx.nb_attributes bo
          → Returns ctx (go_on bo count))
      → Returns ctx
          (elim r [ failed ↦ some st | out_of_fuel ↦ none | closed bo count ↦ go_on bo count ])
  after_closure ctx st b failed go_on inv c q = inv
  after_closure ctx st b out_of_fuel go_on inv c q = c
  after_closure ctx st b (closed bo count) go_on inv c q = q bo count c.0 c.1

  -- The branches that follow the linear closure.
  branches :
      (fuel : ℕ) (st : LinCbOState B) (b bo : B) (from : ℕ) (count : List ℕ)
      → IsContext st.ctx
      → StepReturns st.ctx fuel (lincbo_step fuel)
      → IsSound st.ctx st
      → Subset b bo
      → Below st.ctx.nb_attributes bo
      → st.ctx.nb_attributes < suc fuel + cardinality b
      → let bclosure = closure_of st.ctx bo in
        let st' = lincbo_add_implication st bo bclosure (compute_extent st.ctx bo) in
        Returns st.ctx (elim (equals bo bclosure) [
          | false ↦ elim (lincbo_equals_until bo bclosure from) [
            | true ↦ lincbo_step fuel st' bclosure from (andnot bclosure bo) count
            | false ↦ some st'
          ]
          | true ↦ extend (lincbo_step fuel) from (st.ctx.nb_attributes - from) bo count st
        ])
  branches fuel st b bo from count wf ok inv wider below enough =
      let bclosure = closure_of st.ctx bo in
      let st' = lincbo_add_implication st bo bclosure (compute_extent st.ctx bo) in
      let inv' = add_implication-IsSound st.ctx st bo wf inv below in
      elim (Bool-cases (equals bo bclosure)) [
        | inl e ↦ rw e (
            extend-Returns st.ctx fuel from (st.ctx.nb_attributes - from) bo count st
              (lincbo_step fuel) ok inv below (omega arith)
              (omega (arith, cardinality_mono b bo wider)))
        | inr e ↦ elim (Bool-cases (lincbo_equals_until bo bclosure from)) [
          | inr e' ↦ rw (e, e') inv'
          | inl e' ↦
              rw (e, e')
                (ok st' bclosure from (andnot bclosure bo) count inv'
                  (closure_of-Below st.ctx bo wf below)
                  (λ x h. ground (arith, h, contains-andnot bclosure bo x))
                  (omega (arith, closure_larger st.ctx b bo wider e)))
        ]
      ]

  step_core :
      (fuel : ℕ) (st : LinCbOState B) (b : B) (from : ℕ) (z : B) (count : List ℕ)
      → IsContext st.ctx
      → StepReturns st.ctx fuel (lincbo_step fuel)
      → IsSound st.ctx st
      → Below st.ctx.nb_attributes b
      → Subset z b
      → st.ctx.nb_attributes < suc fuel + cardinality b
      → Returns st.ctx (lincbo_step (suc fuel) st b from z count)
  unfolding lincbo_step closure_of
  step_core fuel st b from z count wf ok inv below sub enough =
      after_closure st.ctx st b (lincbo_lin_closure_rc (st.ctx.nb_attributes + 1) st b from z count)
        (λ bo count.
          let bclosure = closure_of st.ctx bo in
          let st' = lincbo_add_implication st bo bclosure (compute_extent st.ctx bo) in
          elim (equals bo bclosure) [
            | false ↦ elim (lincbo_equals_until bo bclosure from) [
              | true ↦ lincbo_step fuel st' bclosure from (andnot bclosure bo) count
              | false ↦ some st'
            ]
            | true ↦ extend (lincbo_step fuel) from (st.ctx.nb_attributes - from) bo count st
          ])
        inv
        (lin_closure-total st b z from st.ctx.nb_attributes count inv.small
          (with_default-Below st.ctx.nb_attributes b st.default_conclusion below inv.default_small)
          below sub)
        (λ bo count' wider below'. branches fuel st b bo from count' wf ok inv wider below' enough)

  -- `none` is excluded: the recursion returns, in a sound state, when the fuel exceeds the number
  -- of attributes outside `b`.
  step-Returns :
      (ctx : BinaryContext B) (fuel : ℕ) (st : LinCbOState B) (b : B) (from : ℕ) (z : B)
      (count : List ℕ)
      → IsContext ctx
      → IsSound ctx st
      → Below ctx.nb_attributes b
      → Subset z b
      → ctx.nb_attributes < fuel + cardinality b
      → Returns ctx (lincbo_step fuel st b from z count)
  step-Returns ctx zero st b from z count wf inv below sub enough =
      absurd (omega (arith, enough, cardinality-le ctx.nb_attributes b below))
  step-Returns ctx (suc fuel) st b from z count wf inv below sub enough =
      subst
        (λ (c : BinaryContext B).
          IsContext c
          → StepReturns c fuel (lincbo_step fuel)
          → IsSound c st
          → Below c.nb_attributes b
          → c.nb_attributes < suc fuel + cardinality b
          → Returns c (lincbo_step (suc fuel) st b from z count))
        inv.same_ctx
        (λ wf' ok inv' below' enough'.
          step_core fuel st b from z count wf' ok inv' below' sub enough')
        wf
        (λ st' b' from' z' count' inv' below' sub' enough'.
          step-Returns ctx fuel st' b' from' z' count' wf inv' below' sub' enough')
        inv below enough

  -- Nothing holds less than an implication with an empty conclusion.
  init-IsSound : (ctx : BinaryContext B) → IsSound ctx (lincbo_init ctx)
  unfolding lincbo_init
  init-IsSound ctx = record {
    same_ctx = refl;
    small = λ i x h. ground (arith, h, contains-create x);
    default_small = λ x h. ground (arith, h, contains-create x);
    holds = λ i o lt sub x h. ground (arith, h, contains-create x);
  }

  -- On a well-formed context, one more unit of fuel than there are attributes is enough for the
  -- run of LinCbO from the empty set: it returns a basis, each implication of which holds in
  -- the context (every object with the premise has the conclusion).
  pub lincbo-Returns :
      (ctx : BinaryContext B) (fuel : ℕ)
      → IsContext ctx
      → ctx.nb_attributes < fuel
      → Returns ctx (lincbo_step fuel (lincbo_init ctx) create 0 create [])
  lincbo-Returns ctx fuel wf enough =
      step-Returns ctx fuel (lincbo_init ctx) create 0 create [] wf (init-IsSound ctx)
        (λ x h. ground (arith, h, contains-create x)) (λ x h. h) (omega arith)
