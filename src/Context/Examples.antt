-- ===== src/Context/Examples.antt =====
-- Concrete contexts, and the theorems on contexts applied to them.
use fca4j_project.Base.{ℕ, ◌≡◌, true, List, [], ◌∷◌, if◌then◌else◌, ◌==◌, ◌&&◌, arith}
use fca4j_project.Roaring.Model.{list_roaring}
use fca4j_project.Context.{BinaryContext, row, ctx_set, ctx_from_matrix, IsContext}
use fca4j_project.Context.Laws.{ctx_set-IsContext}
use fca4j_project.Context.Matrix.{Built, rows_done, ctx_from_matrix-Built}

-- Three objects and two attributes: 10, 11 and 01.
abbrev pub matrix : List ℕ
matrix = 1 ∷ 0 ∷ 1 ∷ 1 ∷ 0 ∷ 1 ∷ []

abbrev pub sample : BinaryContext (List ℕ)
sample = ctx_from_matrix 3 2 matrix []

pub sample-IsContext : IsContext sample
sample-IsContext = (ctx_from_matrix-Built 3 2 matrix []).wf

pub sample_size : (sample.nb_objects ≡ 3) × (sample.nb_attributes ≡ 2)
sample_size = (
  (ctx_from_matrix-Built {B = List ℕ} 3 2 matrix []).objects,
  (ctx_from_matrix-Built {B = List ℕ} 3 2 matrix []).attributes,
)

ctx_from_matrix-Built_example : Built 3 2 (rows_done 2 matrix 3) sample
ctx_from_matrix-Built_example = ctx_from_matrix-Built 3 2 matrix []

ctx_set-IsContext_example :
    IsContext (ctx_set sample 0 1 true)
    × ((o a : ℕ)
        → list_roaring.contains (row (ctx_set sample 0 1 true) o) a
          ≡ (if o == 0 && a == 1 then true else list_roaring.contains (row sample o) a))
ctx_set-IsContext_example =
    ctx_set-IsContext sample 0 1 true sample-IsContext (omega (arith, sample_size))
      (omega (arith, sample_size))
