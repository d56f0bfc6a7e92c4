-- ===== src/Graph/Examples.antt =====
-- The reduction of a triangle: the edge 0 → 2 goes.
use fca4j_project.Base.{ℕ, zero, suc, ◌<◌, ◌≡◌, refl, true, List, [], ◌∷◌, some, arith}
use fca4j_project.Roaring.Model.{list_roaring}
use fca4j_project.Graph.{AttrGraph, successors, reduce_vertex, from_successors, enqueue_new, spread}
use fca4j_project.Graph.Reduced.{Reduces, reduce_vertex-Reduces}

abbrev triangle : AttrGraph (List ℕ)
triangle = record { n = 3; adj = (1 ∷ 2 ∷ []) ∷ (2 ∷ []) ∷ [] ∷ [] }

triangle_small : (x w : ℕ) → list_roaring.contains (successors triangle x) w ≡ true → w < 3
triangle_small zero w h = ground arith
triangle_small (suc zero) w h = ground arith
triangle_small (suc (suc zero)) w h = absurd (ground arith)
triangle_small (suc (suc (suc x))) w h = absurd (ground arith)

reduce_vertex-Reduces_example : Reduces triangle 0 (reduce_vertex 3 triangle 0)
reduce_vertex-Reduces_example =
    reduce_vertex-Reduces 3 triangle 0 triangle_small (omega arith) (omega arith) (omega arith)

triangle_reduced :
    reduce_vertex 3 triangle 0 ≡ some (record { n = 3; adj = (1 ∷ []) ∷ (2 ∷ []) ∷ [] ∷ [] })
unfolding reduce_vertex from_successors enqueue_new spread
triangle_reduced = refl
