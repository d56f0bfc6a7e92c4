-- ===== src/Closure/Examples.antt =====
-- The theorems on closures applied to the sample context.
use fca4j_project.Base.{ℕ, ◌↔◌, List, [], ◌∷◌, arith}
use fca4j_project.Roaring.Model.{list_roaring}
use fca4j_project.Roaring.Sets.{Subset, Below, SameSet}
use fca4j_project.Context.Examples.{sample, sample-IsContext, sample_size}
use fca4j_project.Closure.{compute_extent, compute_intent, closure}
use fca4j_project.Closure.Laws.{extent-intent_galois, closure_operator}

abbrev first : List ℕ
first = 0 ∷ []

abbrev both : List ℕ
both = 0 ∷ 1 ∷ []

first-Below : Below sample.nb_attributes first
first-Below x h = ground (arith, sample_size)

both-Below : Below sample.nb_attributes both
both-Below x h = ground (arith, sample_size)

first-both : Subset first both
first-both x h = ground arith

both-objects : Below sample.nb_objects both
both-objects x h = ground (arith, sample_size)

extent-intent_galois_example :
    Subset first (compute_intent sample both) ↔ Subset both (compute_extent sample first)
extent-intent_galois_example =
    extent-intent_galois sample both first sample-IsContext both-objects first-Below

closure_operator_example :
    Subset first (closure sample first)
    × Subset (closure sample first) (closure sample both)
    × SameSet (closure sample (closure sample first)) (closure sample first)
    × Below sample.nb_attributes (closure sample first)
closure_operator_example =
    closure_operator sample first both sample-IsContext first-Below both-Below first-both
