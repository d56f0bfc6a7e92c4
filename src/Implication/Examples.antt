-- ===== src/Implication/Examples.antt =====
-- The theorem on implications applied to one.
use fca4j_project.Base.{ℕ, ◌≡◌, false, ◌&&◌, ◌||◌, List, [], ◌∷◌, Option, some}
use fca4j_project.Roaring.Model.{list_roaring}
use fca4j_project.Implication.{impl_create, impl_create_with_support}
use fca4j_project.Implication.Laws.{impl_create-split}

abbrev premise : List ℕ
premise = 1 ∷ []

abbrev conclusion : List ℕ
conclusion = 1 ∷ 2 ∷ []

abbrev support : Option (List ℕ)
support = some (4 ∷ [])

impl_create-split_example :
    let i = impl_create premise conclusion 7 in
    let j = impl_create_with_support premise conclusion support in
    ((list_roaring.contains i.premise 2 && list_roaring.contains i.conclusion 2) ≡ false)
    × ((list_roaring.contains i.premise 2 || list_roaring.contains i.conclusion 2)
        ≡ (list_roaring.contains premise 2 || list_roaring.contains conclusion 2))
    × ((list_roaring.contains j.premise 2 && list_roaring.contains j.conclusion 2) ≡ false)
    × ((list_roaring.contains j.premise 2 || list_roaring.contains j.conclusion 2)
        ≡ (list_roaring.contains premise 2 || list_roaring.contains conclusion 2))
impl_create-split_example = impl_create-split premise conclusion support 7 2
