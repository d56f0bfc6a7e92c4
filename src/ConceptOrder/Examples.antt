-- ===== src/ConceptOrder/Examples.antt =====
-- A small order of two concepts, and the theorems on orders applied to it.
use fca4j_project.Base.{
  ℕ, ◌+◌, ◌≡◌, refl, ◌∙◌, ap, ◌↔◌, true, false, ◌&&◌, List, [], ◌∷◌, some, length, if◌then◌else◌,
  ◌==◌, arith,
}
use fca4j_project.Roaring.Model.{list_roaring}
use fca4j_project.Roaring.Sets.{Has}
use fca4j_project.Context.Examples.{sample}
use fca4j_project.DGraph.{DGraph, bitmap_at, children_of, parents_of, dgraph_create}
use fca4j_project.ConceptOrder.{
  ConceptOrder, co_create, co_add_concept, co_add_edge, co_remove_edge, co_compute_rextents,
  IsOrder,
}
use fca4j_project.ConceptOrder.Concepts.{AddsConcept, add_concept-IsOrder, create-IsOrder}
use fca4j_project.ConceptOrder.Edges.{add_edge-IsOrder, remove_edge-IsOrder}
use fca4j_project.ConceptOrder.Reduced.{compute_rextents_iff}
use fca4j_project.ConceptOrder.Flat.{
  co_to_flat_array, flat_total, flat_edges, flat_concepts, flat_edge_count, push,
}
use fca4j_project.ConceptOrder.Decode.{decode}
use fca4j_project.ConceptOrder.RoundTrip.{edges_of, concepts_of, decode-flat}

abbrev pub empty : ConceptOrder (List ℕ)
empty = co_create sample

abbrev pub all : List ℕ
all = 0 ∷ 1 ∷ 2 ∷ []

abbrev some_objects : List ℕ
some_objects = 0 ∷ 1 ∷ []

abbrev pub with_top : ConceptOrder (List ℕ)
with_top = (co_add_concept empty all []).0

abbrev two : ConceptOrder (List ℕ)
two = (co_add_concept with_top some_objects []).0

pub empty-IsOrder : IsOrder empty
empty-IsOrder = create-IsOrder empty sample refl

pub empty_counter : empty.counter ≡ 0
unfolding co_create
empty_counter = refl

with_top-IsOrder : IsOrder with_top
with_top-IsOrder = (add_concept-IsOrder empty all [] empty-IsOrder).0

two-IsOrder : IsOrder two
two-IsOrder = (add_concept-IsOrder with_top some_objects [] with_top-IsOrder).0

two_counter : two.counter ≡ 2
two_counter =
    (add_concept-IsOrder with_top some_objects [] with_top-IsOrder).1.counter_next
    ∙ ap (λ n. n + 1) ((add_concept-IsOrder empty all [] empty-IsOrder).1.counter_next)
    ∙ ap (λ n. n + 1 + 1) empty_counter

add_concept-IsOrder_example :
    IsOrder two
    × AddsConcept with_top two (co_add_concept with_top some_objects []).1 some_objects []
add_concept-IsOrder_example = add_concept-IsOrder with_top some_objects [] with_top-IsOrder

add_edge-IsOrder_example :
    IsOrder (co_add_edge two 1 0)
    × ((y z : ℕ)
        → list_roaring.contains (parents_of (co_add_edge two 1 0).graph y) z
          ≡ (if y == 1 && z == 0 then true else list_roaring.contains (parents_of two.graph y) z))
add_edge-IsOrder_example =
    add_edge-IsOrder two two-IsOrder 1 0 (omega (arith, two_counter)) (omega (arith, two_counter))

remove_edge-IsOrder_example :
    IsOrder (co_remove_edge two 1 0)
    × ((y z : ℕ)
        → list_roaring.contains (parents_of (co_remove_edge two 1 0).graph y) z
          ≡ (if y == 1 && z == 0 then false else list_roaring.contains (parents_of two.graph y) z))
remove_edge-IsOrder_example =
    remove_edge-IsOrder two two-IsOrder 1 0 (omega (arith, two_counter))
      (omega (arith, two_counter))

compute_rextents_iff_example : Has (bitmap_at (co_compute_rextents two).rextents 0) 2 ↔ (
    Has (bitmap_at two.extents 0) 2
    × ((d : ℕ)
        → Has (children_of two.graph 0) d
        → list_roaring.contains (bitmap_at two.extents d) 2 ≡ false))
compute_rextents_iff_example =
    compute_rextents_iff two 0 2 (omega (arith, two-IsOrder.room, two-IsOrder.rextents_length))
      (omega (arith, two_counter))

abbrev written : List ℕ
written = flat_concepts two (flat_edges two (push (push [] two.counter) (flat_edge_count two)))

decode-flat_example :
    (length written ≡ flat_total two)
    × (decode written ≡ some (edges_of two two.counter, concepts_of two two.counter))
unfolding co_to_flat_array
decode-flat_example = decode-flat two written refl

abbrev no_vertex : DGraph (List ℕ)
no_vertex = dgraph_create 256
