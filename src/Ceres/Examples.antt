-- ===== src/Ceres/Examples.antt =====
-- The theorems on Ceres applied to the context of three objects and two attributes.
use fca4j_project.Base.{ℕ, ◌≡◌, ◌⊎◌, refl, true, false, [], ◌∷◌, List, replicate, arith}
use fca4j_project.Roaring.Model.{list_roaring}
use fca4j_project.Context.Examples.{matrix, sample, sample_size}
use fca4j_project.Base.Counting.{count_keys, sum_buckets, place_items, counting_sort}
use fca4j_project.DynOrder.{
  DynOrder, at, dyn_create, dyn_new_concept, dyn_fill, dyn_ensure_cap, dyn_add_edge,
}
use fca4j_project.Ceres.{PreConcept, ceres_ctx_from_matrix}
use fca4j_project.Ceres.Dense.{DenseOf, ceres_ctx_from_matrix-DenseOf}
use fca4j_project.Ceres.Classify.{walk}
use fca4j_project.Ceres.Queue.{Walked, walk-fits}
use fca4j_project.Ceres.Run.{run_ceres_flat, sort_preconcepts_desc, copy_back}
use fca4j_project.Ceres.Returns.{Returned, run_ceres_flat-Returned}
use fca4j_project.Ceres.Sort.{IsReversed, sort_preconcepts_desc-IsReversed}

ceres_ctx_from_matrix-DenseOf_example : DenseOf 3 2 matrix (ceres_ctx_from_matrix true 3 2 matrix)
ceres_ctx_from_matrix-DenseOf_example = ceres_ctx_from_matrix-DenseOf 3 2 matrix

run_ceres_flat-Returned_example :
    Returned
      ((sample.nb_objects ≡ 0) ⊎ (true ≡ false) ⊎ (true ≡ false))
      (run_ceres_flat 7 true true sample)
run_ceres_flat-Returned_example =
    run_ceres_flat-Returned 7 true true sample (omega (arith, sample_size))

-- Two pre-concepts of equal cardinality, and a larger one.
abbrev first : PreConcept
first = record { ext = 1 ∷ []; intent = 1 ∷ []; rext = []; rint = 1 ∷ []; ext_card = 1 }

abbrev second : PreConcept
second = record { ext = 2 ∷ []; intent = 2 ∷ []; rext = []; rint = 2 ∷ []; ext_card = 1 }

abbrev large : PreConcept
large = record { ext = 3 ∷ []; intent = 4 ∷ []; rext = []; rint = 4 ∷ []; ext_card = 2 }

sort_preconcepts_desc-IsReversed_example :
    IsReversed 3
      (first ∷ second ∷ large ∷ [])
      (sort_preconcepts_desc (first ∷ second ∷ large ∷ []) 3)
sort_preconcepts_desc-IsReversed_example =
    sort_preconcepts_desc-IsReversed (first ∷ second ∷ large ∷ []) 3
      (omega arith, (omega arith, (omega arith, tt)))

reversed_ties : sort_preconcepts_desc (first ∷ second ∷ large ∷ []) 3 ≡ large ∷ second ∷ first ∷ []
unfolding sort_preconcepts_desc copy_back counting_sort place_items sum_buckets count_keys
reversed_ties = refl

-- A top with one concept below it.
abbrev small_order : DynOrder
small_order = dyn_add_edge (dyn_new_concept (dyn_new_concept (dyn_create 3 2)).0).0 1 0

small_root : at small_order.upper 0 ≡ []
unfolding dyn_add_edge dyn_new_concept dyn_fill dyn_ensure_cap dyn_create
small_root = refl

abbrev seven_zeros : List ℕ
seven_zeros = replicate 7 0

walk-fits_example : Walked seven_zeros seven_zeros 7 (
    walk 7 small_order (0 ∷ []) [] 1 true 1 (0 ∷ []) (record {
      marks = seven_zeros;
      mark_epoch = seven_zeros;
      puc = seven_zeros;
      intent = 1 ∷ [];
      seen = [];
    }))
walk-fits_example =
    walk-fits 7 small_order (0 ∷ []) [] 1 true 1 0 seven_zeros seven_zeros seven_zeros (1 ∷ []) refl
      (omega arith) small_root refl (omega arith)
