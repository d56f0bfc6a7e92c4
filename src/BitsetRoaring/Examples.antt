-- ===== src/BitsetRoaring/Examples.antt =====
-- The round trip applied to a small bitmap.
use fca4j_project.Base.{ℕ, ◌≡◌, List, [], ◌∷◌, arith}
use fca4j_project.Roaring.Model.{list_roaring}
use fca4j_project.Roaring.Sets.{Below, SameSet}
use fca4j_project.Bitset.{bs_test}
use fca4j_project.BitsetRoaring.{bs_from_roaring, bs_to_roaring}
use fca4j_project.BitsetRoaring.RoundTrip.{to_roaring-from_roaring}

abbrev items : List ℕ
items = 3 ∷ 70 ∷ []

items-Below : Below 128 items
items-Below x h = ground arith

to_roaring-from_roaring_example :
    SameSet (bs_to_roaring (bs_from_roaring items 2) 2) items
    × ((j : ℕ) → bs_test (bs_from_roaring items 2) j ≡ list_roaring.contains items j)
to_roaring-from_roaring_example = to_roaring-from_roaring items 2 items-Below
