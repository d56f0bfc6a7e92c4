-- ===== src/LincboPruning/Examples.antt =====
-- The theorems on LinCbO with pruning applied to the sample context.
use fca4j_project.Base.{
  ℕ, ◌<◌, ◌*◌, ◌≡◌, ◌↔◌, ◌∙◌, sym, refl, true, List, [], ◌∷◌, length, map, none, some, get_or,
  arith,
}
use fca4j_project.Roaring.Model.{list_roaring}
use fca4j_project.Roaring.Sets.{Has, Below}
use fca4j_project.Context.Examples.{sample, sample-IsContext, sample_size}
use fca4j_project.Closure.{compute_extent, closure}
use fca4j_project.Implication.{CImplication}
use fca4j_project.BitsetRoaring.{bs_from_roaring}
use fca4j_project.BitsetRoaring.RoundTrip.{from_roaring-IsWords, test-from_roaring}
use fca4j_project.Bitset.{aw_n, bs_test}
use fca4j_project.LincboPruning.{
  LincboState, prune_lifo, lincbo_state_create, pruning_after_child, pruning_unwind,
  pruning_snapshot,
}
use fca4j_project.LincboPruning.Closure.{real_closure_dense}
use fca4j_project.LincboPruning.Output.{flat_basis, basis_total}
use fca4j_project.LincboPruning.Extent.{lincbo_state_create-IsDense}
use fca4j_project.LincboPruning.Agree.{SameBits, real_closure_dense_iff}
use fca4j_project.LincboPruning.Array.{listed, read_basis, read_basis-flat_basis}
use fca4j_project.LincboPruning.Lifo.{Kept, Treats, begins, records, pruning_unwind-Kept}

-- The second attribute.
abbrev second : List ℕ
second = 1 ∷ []

abbrev words : List ℕ
words = bs_from_roaring second 1

abbrev state : LincboState (List ℕ)
state = lincbo_state_create sample prune_lifo

second-Below : Below 64 second
second-Below x h = ground arith

state_width : state.w ≡ 1
unfolding lincbo_state_create aw_n
state_width = ground (arith, sample_size)

second-SameBits : SameBits state words second
second-SameBits a =
    let same = test-from_roaring second 1 second-Below a in
    (λ h. (omega (arith, second-Below a h, state_width), same ∙ h), λ h. sym same ∙ h.1)

real_closure_dense_iff_example :
    ((o : ℕ)
      → Has ((real_closure_dense state words (0 ∷ [])).1) o
        ↔ Has (compute_extent state.ctx second) o)
    × ((a : ℕ)
        → a < 64 * state.w
        → (bs_test ((real_closure_dense state words (0 ∷ [])).0) a ≡ true)
          ↔ Has (closure state.ctx second) a)
real_closure_dense_iff_example =
    real_closure_dense_iff state words (0 ∷ []) second
      (lincbo_state_create-IsDense sample prune_lifo sample-IsContext)
      (from_roaring-IsWords second 1) (omega (arith, state_width)) second-SameBits

abbrev basis : List (CImplication (List ℕ))
basis =
    record { premise = 1 ∷ []; conclusion = 0 ∷ 2 ∷ []; support = none; support_size = 2 }
    ∷ record { premise = 0 ∷ 3 ∷ []; conclusion = 4 ∷ []; support = none; support_size = 1 }
    ∷ []

read_basis-flat_basis_example :
    (read_basis (flat_basis basis) ≡ map listed basis)
    × (length (flat_basis basis) ≡ basis_total basis)
read_basis-flat_basis_example = read_basis-flat_basis basis

recorded : Treats state (pruning_after_child state 1 (some 0) 0)
recorded = records 1 (some 0) 0 begins

pruning_unwind-Kept_example :
    ((pruning_unwind
        (pruning_after_child state 1 (some 0) 0)
        (pruning_snapshot state)).pruning_stack
      ≡ state.pruning_stack)
    × ((j : ℕ)
        → Kept (get_or state.rules j none) (
            get_or
              (pruning_unwind
                (pruning_after_child state 1 (some 0) 0)
                (pruning_snapshot state)).rules
              j
              none))
unfolding lincbo_state_create
pruning_unwind-Kept_example = pruning_unwind-Kept recorded refl
