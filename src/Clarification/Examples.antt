-- ===== src/Clarification/Examples.antt =====
-- The clarification of the sample context.
use fca4j_project.Base.{ℕ, ◌<◌, ◌≡◌, ◌↔◌, true}
use fca4j_project.Roaring.Model.{list_roaring}
use fca4j_project.Context.{col}
use fca4j_project.Context.Examples.{sample}
use fca4j_project.Clarification.Cover.{IsMember, clarify-IsMember}

clarify-IsMember_example :
    ((x : ℕ) → x < sample.nb_attributes → (c : ℕ) × IsMember sample c x)
    × ((x y c d : ℕ)
        → IsMember sample c x
        → IsMember sample d y
        → (list_roaring.equals (col sample x) (col sample y) ≡ true) ↔ (c ≡ d))
clarify-IsMember_example = clarify-IsMember sample
