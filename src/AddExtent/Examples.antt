-- ===== src/AddExtent/Examples.antt =====
-- The theorems on AddExtent applied to the sample context.
use fca4j_project.Base.{ℕ, ◌<◌, ◌≡◌, ◌⊎◌, true, length, elem, List, [], ◌∷◌, some, ltb, arith}
use fca4j_project.Roaring.Model.{list_roaring}
use fca4j_project.Roaring.Sets.{Subset}
use fca4j_project.Context.Examples.{sample, sample-IsContext}
use mathlib.Core.Path.{ap, ◌∙◌, sym}
use fca4j_project.ConceptOrder.{ConceptOrder}
use fca4j_project.ConceptOrder.Concepts.{add_concept-IsOrder}
use fca4j_project.ConceptOrder.Examples.{empty, empty-IsOrder, empty_counter, all, with_top}
use fca4j_project.AddExtent.{extent_of, add_extent, build_lattice, get_smallest_containing}
use fca4j_project.AddExtent.Descent.{IsNested, Climbs, IsSmallest, get_smallest_lem}
use fca4j_project.AddExtent.Insert.{Inserts, added-IsNested}
use fca4j_project.AddExtent.Correct.{Placed, add_extent_correct}
use fca4j_project.AddExtent.Build.{IsIntroduced, build_lattice_correct}
use fca4j_project.AddExtent.Run.{run_addextent_flat}
use fca4j_project.AddExtent.Output.{run_addextent_flat_correct}
use fca4j_project.ConceptOrder.Flat.{flat_total}
use fca4j_project.ConceptOrder.Decode.{decode}
use fca4j_project.ConceptOrder.RoundTrip.{edges_of, concepts_of}

build_lattice_correct_example :
    (co : ConceptOrder (List ℕ)) × (build_lattice sample ≡ some co)
    × IsNested co
    × ((x : ℕ) → list_roaring.contains (extent_of co 0) x ≡ ltb x sample.nb_objects)
    × ((a : ℕ) → a < sample.nb_attributes → IsIntroduced sample co a)
    × ((c : ℕ) → c < co.counter → Climbs co.graph c 0)
build_lattice_correct_example = build_lattice_correct sample sample-IsContext

empty-IsNested : IsNested empty
empty-IsNested = record {
  order = empty-IsOrder;
  upward = λ c p h. absurd (
      ground (
        arith,
        empty-IsOrder.vertices c,
        empty-IsOrder.graph_wf.child_vertex c p h,
        empty_counter,
      ));
}

with_top-IsNested : IsNested with_top
with_top-IsNested = added-IsNested empty all [] empty-IsNested

with_top_counter : 0 < with_top.counter
with_top_counter = omega (arith, (add_concept-IsOrder empty all [] empty-IsOrder).1.counter_next)

top_extent : extent_of with_top 0 ≡ all
top_extent =
    let adds = (add_concept-IsOrder empty all [] empty-IsOrder).1 in
    ap (extent_of with_top) (sym (adds.id_next ∙ empty_counter)) ∙ adds.extent_new

abbrev part : List ℕ
part = 1 ∷ 2 ∷ []

part-Subset : Subset part (extent_of with_top 0)
part-Subset x h = ap (elem x) top_extent ∙ ground arith

top_cardinality : list_roaring.cardinality (extent_of with_top 0) < 4
top_cardinality = omega (arith, ap list_roaring.cardinality top_extent)

get_smallest_lem_example :
    (g : ℕ) × (get_smallest_containing 4 with_top part 0 ≡ some g) × IsSmallest with_top part 0 g
get_smallest_lem_example =
    get_smallest_lem 4 with_top part 0 with_top-IsNested with_top_counter part-Subset
      top_cardinality

add_extent_correct_example :
    (co : ConceptOrder (List ℕ)) × (r : ℕ) × (add_extent 4 with_top part 0 ≡ some (co, r))
    × Inserts with_top co part 0 r
    × ((r < with_top.counter) ⊎ Placed with_top co part r)
add_extent_correct_example =
    add_extent_correct 4 with_top part 0 with_top-IsNested with_top_counter part-Subset
      top_cardinality

run_addextent_flat_correct_example :
    (co : ConceptOrder (List ℕ)) × (flat : List ℕ) × (run_addextent_flat true sample
      ≡ some (some flat))
    × (length flat ≡ flat_total co)
    × (decode flat ≡ some (edges_of co co.counter, concepts_of co co.counter))
    × IsNested co
    × ((a : ℕ) → a < sample.nb_attributes → IsIntroduced sample co a)
run_addextent_flat_correct_example = run_addextent_flat_correct sample sample-IsContext
