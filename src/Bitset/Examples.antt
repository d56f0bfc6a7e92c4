-- ===== src/Bitset/Examples.antt =====
-- The theorems on bitsets applied to arrays of two words.
use fca4j_project.Base.{
  ℕ, zero, suc, ◌*◌, ◌<◌, ◌≡◌, refl, ◌↔◌, true, not, ◌&&◌, ◌||◌, List, [], ◌∷◌, length, elem,
  Ascending, AllBelow, if◌then◌else◌, ltb, ◌==◌, arith,
}
use fca4j_project.Bitset.{
  bs_set, bs_clear, bs_test, bs_or, bs_and, bs_andnot, bs_card, bs_subset, bs_equal,
  bs_nonzero_words, bs_subset_sparse, bs_foreach, aw_popcount, word_items,
}
use fca4j_project.Bitset.Words.{IsWords}
use fca4j_project.Bitset.Ops.{test-set_clear, test-or_and_andnot}
use fca4j_project.Bitset.Tests.{bs_subset_iff, bs_equal_iff}
use fca4j_project.Bitset.Sparse.{subset_sparse-eq-subset}
use fca4j_project.Bitset.Items.{bs_foreach_lem}

-- The sets {0, 2, 64} and {0, 1, 2, 64}.
abbrev small : List ℕ
small = 5 ∷ 1 ∷ []

abbrev large : List ℕ
large = 7 ∷ 1 ∷ []

small-IsWords : IsWords small
small-IsWords zero = omega arith
small-IsWords (suc zero) = omega arith
small-IsWords (suc (suc i)) = omega arith

large-IsWords : IsWords large
large-IsWords zero = omega arith
large-IsWords (suc zero) = omega arith
large-IsWords (suc (suc i)) = omega arith

small_items : bs_foreach small 2 ≡ 0 ∷ 2 ∷ 64 ∷ []
unfolding bs_foreach word_items
small_items = refl

small_card : bs_card small 2 ≡ 3
unfolding bs_card aw_popcount
small_card = refl

test-set_clear_example :
    (bs_test (bs_set small 1) 1 ≡ (1 == 1 || bs_test small 1))
    × (bs_test (bs_clear small 1) 1 ≡ (not (1 == 1) && bs_test small 1))
test-set_clear_example = test-set_clear small 1 1 (omega arith)

test-or_and_andnot_example :
    (bs_test (bs_or small large 2) 1
      ≡ (if ltb 1 (64 * 2) then bs_test small 1 || bs_test large 1 else bs_test small 1))
    × (bs_test (bs_and small large 2) 1
        ≡ (if ltb 1 (64 * 2) then bs_test small 1 && bs_test large 1 else bs_test small 1))
    × (bs_test (bs_andnot small large 2) 1
        ≡ (if ltb 1 (64 * 2) then bs_test small 1 && not (bs_test large 1) else bs_test small 1))
test-or_and_andnot_example = test-or_and_andnot small large 2 1 (omega arith) large-IsWords

bs_subset_iff_example :
    (bs_subset small large 2 ≡ true)
    ↔ ((j : ℕ) → j < 64 * 2 → bs_test small j ≡ true → bs_test large j ≡ true)
bs_subset_iff_example = bs_subset_iff small large 2 small-IsWords large-IsWords

bs_equal_iff_example :
    (bs_equal small large 2 ≡ true) ↔ ((j : ℕ) → j < 64 * 2 → bs_test small j ≡ bs_test large j)
bs_equal_iff_example = bs_equal_iff small large 2 small-IsWords large-IsWords

subset_sparse-eq-subset_example :
    bs_subset_sparse small large (bs_nonzero_words small 2) ≡ bs_subset small large 2
subset_sparse-eq-subset_example = subset_sparse-eq-subset small large 2

bs_foreach_lem_example :
    ((j : ℕ) → elem j (bs_foreach small 2) ≡ (ltb j (64 * 2) && bs_test small j))
    × Ascending (bs_foreach small 2)
    × AllBelow (64 * 2) (bs_foreach small 2)
    × (bs_card small 2 ≡ length (bs_foreach small 2))
bs_foreach_lem_example = bs_foreach_lem small 2 small-IsWords
