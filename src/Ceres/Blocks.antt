-- ===== src/Ceres/Blocks.antt =====
-- algo/ceres.c: the loop on the blocks returns.
use fca4j_project.Base.{
  ℕ, zero, suc, ◌+◌, ◌-◌, ◌≤◌, ◌<◌, ◌≡◌, refl, sym, ◌∙◌, ap, not, ◌&&◌, true, false, List, Option,
  none, some, length, get_or, set, ◌==◌, ltb, arith, Bool-cases, inl, inr, for_to, for_inv,
  length-set,
}
use mathlib.Core.Path.{subst}
use fca4j_project.Bitset.{bs_equal, bs_or}
use fca4j_project.AddExtent.{◌>>=◌}
use fca4j_project.Ceres.{Ceres, CeresContext, PreConcept}
use fca4j_project.Ceres.Classify.{classify}
use fca4j_project.Ceres.LeftPart.{wolp}
use fca4j_project.Ceres.Total.{IsRunning, enough, GoesOn, GoesOn-bind, classify-GoesOn, wolp-GoesOn}
use fca4j_project.Ceres.Run.{
  Blocks, pre, merge_into, merge_block, join_top, fill_rext, store_rext, treat_below, treat_top,
  treat, block_loop,
}

store_rext-IsRunning :
    (ce : Ceres) (c : ℕ) (rext : List ℕ) → IsRunning ce → IsRunning (store_rext ce c rext)
unfolding store_rext
store_rext-IsRunning ce c rext run = record {
  counters = run.counters;
  stamps = run.stamps;
  stamped = run.stamped;
  is_top = run.is_top;
  inhabited = run.inhabited;
  root = run.root;
}

treat_below-GoesOn :
    (fuel : ℕ) (ce : Ceres) (p : PreConcept) (covered : List ℕ)
    → IsRunning ce
    → enough ce.cx ≤ fuel
    → GoesOn (λ out. out.0) ce.cx (treat_below fuel ce p covered)
unfolding treat_below store_rext
treat_below-GoesOn fuel ce p covered run fuel_enough =
    GoesOn-bind (λ out. out.0) (λ out. out.0) ce.cx (classify fuel ce p true) _
      (classify-GoesOn fuel ce p true run fuel_enough)
      (λ placed goes same.
        let filled = fill_rext (placed.0) (placed.1) in
        let stored = store_rext (placed.0) (placed.2) filled.rext in
        let covered' = bs_or covered (placed.1).rint ce.wa in
        GoesOn-bind (λ out. out) (λ out. out.0) ce.cx (wolp fuel stored filled covered') _
          (subst (λ c. GoesOn (λ out. out) c (wolp fuel stored filled covered')) same
            (wolp-GoesOn fuel stored filled covered'
              (store_rext-IsRunning placed.0 placed.2 filled.rext goes)
              (subst (λ c. enough c ≤ fuel) (sym same) fuel_enough)))
          (λ out go eq. (go, eq)))

treat_top-IsRunning :
    (ce : Ceres) (p : PreConcept) (covered : List ℕ)
    → IsRunning ce
    → IsRunning (treat_top ce p covered).0 × ((treat_top ce p covered).0.cx ≡ ce.cx)
unfolding treat_top join_top
treat_top-IsRunning ce p covered run = (
  record {
    counters = run.counters;
    stamps = run.stamps;
    stamped = run.stamped;
    is_top = run.is_top;
    inhabited = run.inhabited;
    root = run.root;
  },
  refl,
)

-- The loop on the blocks goes on: over the same context, and with a table of the same size.
abbrev pub BlocksGo : ℕ → CeresContext → Option Blocks → Type 0
BlocksGo k cx none = ⊥
BlocksGo k cx (some b) = IsRunning b.ce × (b.ce.cx ≡ cx) × (length b.tab ≡ k)

after_treat :
    (k i : ℕ) (b : Blocks) (cx : CeresContext) (r : Option (Ceres × PreConcept × List ℕ))
    → length b.tab ≡ k
    → GoesOn (λ out. out.0) cx r
    → BlocksGo k cx (
        r >>= λ next. some (record {
          ce = next.0;
          tab = set b.tab i next.1;
          done = set b.done i true;
          covered = next.2;
        }))
after_treat k i b cx none len h = h
after_treat k i b cx (some next) len h = (h.0, h.1, length-set b.tab i next.1 ∙ len)

treat-BlocksGo :
    (fuel size i k : ℕ) (cx : CeresContext) (b : Blocks)
    → enough cx ≤ fuel
    → BlocksGo k cx (some b)
    → BlocksGo k cx (treat fuel size i b)
unfolding treat
treat-BlocksGo fuel size i k cx b fuel_enough go = elim (Bool-cases (get_or b.done i false)) [
  | inl e ↦ rw (e, treat) go
  | inr e ↦ elim (Bool-cases (ltb size b.ce.cx.nb_obj)) [
    | inl below ↦
        rw (e, below, treat)
          (after_treat k i b cx (treat_below fuel b.ce (pre b.tab i) b.covered) go.2 (
            subst (λ c. GoesOn (λ out. out.0) c (treat_below fuel b.ce (pre b.tab i) b.covered))
              go.1
              (treat_below-GoesOn fuel b.ce (pre b.tab i) b.covered go.0
                (subst (λ c. enough c ≤ fuel) (sym go.1) fuel_enough))))
    | inr above ↦
        let top = treat_top-IsRunning b.ce (pre b.tab i) b.covered go.0 in
        rw (e, above, treat)
          (after_treat k i b cx (some (treat_top b.ce (pre b.tab i) b.covered)) go.2
            (top.0, top.1 ∙ go.1))
  ]
]

BlocksGo-bind :
    (fuel size i k : ℕ) (cx : CeresContext) (s : Option Blocks)
    → enough cx ≤ fuel
    → BlocksGo k cx s
    → BlocksGo k cx (s >>= λ st. treat fuel size i st)
BlocksGo-bind fuel size i k cx none fuel_enough go = go
BlocksGo-bind fuel size i k cx (some b) fuel_enough go =
    treat-BlocksGo fuel size i k cx b fuel_enough go

-- The merges change neither the run nor the size of the table.
abbrev SameRun : Blocks → Blocks → Type 0
SameRun b b' = (b'.ce ≡ b.ce) × (length b'.tab ≡ length b.tab)

merge_into-SameRun : (e i : ℕ) (b : Blocks) → SameRun b (merge_into e i b)
unfolding merge_into
merge_into-SameRun e i b =
    elim (Bool-cases
      (not (get_or b.done i false) && bs_equal (pre b.tab i).ext (pre b.tab e).ext b.ce.wo)) [
        | inl t ↦ rw t (refl, length-set b.tab i _)
        | inr t ↦ rw t (refl, refl)
      ]

merge_block-SameRun :
    (left size start e : ℕ) (b : Blocks)
    → SameRun b (merge_block left size start e b).0 × (e ≤ (merge_block left size start e b).1)
unfolding merge_block
merge_block-SameRun zero size start e b = ((refl, refl), omega arith)
merge_block-SameRun (suc left) size start e b =
    elim (Bool-cases (ltb e (length b.tab) && (pre b.tab e).ext_card == size)) [
      | inr t ↦ rw (t, merge_block) ((refl, refl), omega arith)
      | inl t ↦
          let merged = for_to (e - start) (λ i s. merge_into e (start + i) s) b in
          let kept : SameRun b merged =
            for_inv (λ i s. SameRun b s) (λ i s. merge_into e (start + i) s) (e - start) b
              (λ i s l h. let m = merge_into-SameRun e (start + i) s in (m.0 ∙ h.0, m.1 ∙ h.1))
              (refl, refl) in
          let rest = merge_block-SameRun left size start (e + 1) merged in
          rw (t, merge_block) ((rest.0.0 ∙ kept.0, rest.0.1 ∙ kept.1), omega (arith, rest.1))
    ]

after_block :
    (cx : CeresContext) (k : ℕ) (s : Option Blocks) (rest : Blocks → Option Ceres)
    → BlocksGo k cx s
    → ((b : Blocks) → BlocksGo k cx (some b) → GoesOn (λ out. out) cx (rest b))
    → GoesOn (λ out. out) cx (s >>= rest)
after_block cx k none rest go next = go
after_block cx k (some b) rest go next = next b go

pub block_loop-GoesOn :
    (left fuel start e k : ℕ) (cx : CeresContext) (b : Blocks)
    → enough cx ≤ fuel
    → k ≤ left + start
    → start < e
    → BlocksGo k cx (some b)
    → GoesOn (λ out. out) cx (block_loop left fuel start e b)
unfolding block_loop
block_loop-GoesOn zero fuel start e k cx b fuel_enough rounds later go =
    let t : ltb start (length b.tab) ≡ false = ground (arith, go.2) in rw t (go.0, go.1)
block_loop-GoesOn (suc left) fuel start e k cx b fuel_enough rounds later go =
    elim (Bool-cases (ltb start (length b.tab))) [
      | inr t ↦ rw (t, block_loop) (go.0, go.1)
      | inl t ↦
          let merged = merge_block (length b.tab) (pre b.tab start).ext_card start e b in
          let same = merge_block-SameRun (length b.tab) (pre b.tab start).ext_card start e b in
          let begun : BlocksGo k cx (some (merged.0)) = (
            subst IsRunning (sym same.0.0) go.0,
            ap (λ c. c.cx) same.0.0 ∙ go.1,
            same.0.1 ∙ go.2,
          ) in
          rw (t, block_loop)
            (after_block cx k
              (for_to (merged.1 - start)
                (λ i s. s >>= λ st. treat fuel (pre b.tab start).ext_card (start + i) st)
                (some (merged.0)))
              (λ treated. block_loop left fuel merged.1 (merged.1 + 1) treated)
              (for_inv (λ i s. BlocksGo k cx s)
                (λ i s. s >>= λ st. treat fuel (pre b.tab start).ext_card (start + i) st)
                (merged.1 - start) (some (merged.0))
                (λ i s l h.
                  BlocksGo-bind fuel (pre b.tab start).ext_card (start + i) k cx s fuel_enough h)
                begun)
              (λ treated h.
                block_loop-GoesOn left fuel merged.1 (merged.1 + 1) k cx treated fuel_enough
                  (omega (arith, same.1)) (omega arith) h))
    ]
