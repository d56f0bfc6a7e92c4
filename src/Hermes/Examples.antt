-- ===== src/Hermes/Examples.antt =====
-- The theorems on Hermes applied to small contexts.
use fca4j_project.Base.{ℕ, refl, false, List, [], ◌∷◌, replicate, arith, get_or-replicate, Bool}
use fca4j_project.Roaring.Model.{list_roaring}
use fca4j_project.Hermes.{RefSet}
use fca4j_project.Hermes.Clarify.{group_block}
use fca4j_project.Hermes.Block.{GroupingOf, group_block-GroupingOf}

-- Three sets of two values; the first and the last are equal.
abbrev three_sets : List (RefSet (List ℕ))
three_sets =
    record { refs = 0 ∷ []; values = 1 ∷ 2 ∷ [] }
    ∷ record { refs = 1 ∷ []; values = 2 ∷ 3 ∷ [] }
    ∷ record { refs = 2 ∷ []; values = 2 ∷ 1 ∷ [] }
    ∷ []

abbrev none_dead : List Bool
none_dead = replicate 3 false

group_block-GroupingOf_example : GroupingOf three_sets 0 3 (group_block 0 3 three_sets none_dead)
group_block-GroupingOf_example =
    group_block-GroupingOf three_sets none_dead 0 3 (omega arith) (omega arith) refl
      (λ q a l. get_or-replicate 3 q false)
