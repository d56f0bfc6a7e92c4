-- ===== src/Bitset/Sparse.antt =====
-- The sparse inclusion test, on the words recorded as occupied, is the dense one.
use fca4j_project.Base.{
  ℕ, zero, suc, ◌≡◌, refl, ◌↔◌, true, ◌&&◌, not, ltb, List, [], ◌∷◌, ◌==◌, elem, elem-append, arith,
  Bool-ext, ==_refl, Bool-cases, inl, inr,
}
use Prim.Native.Nat.{bit_and}
use fca4j_project.Base.Bits.{bit_and-le}
use fca4j_project.Bitset.{word, aw_not, bs_subset, bs_nonzero_words, bs_subset_sparse}
use fca4j_project.Bitset.Words.{all_words_iff}

elem-nonzero_words :
    (x : List ℕ) (w i : ℕ) → elem i (bs_nonzero_words x w) ≡ (ltb i w && not (word x i == 0))
unfolding bs_nonzero_words
elem-nonzero_words x zero i = ground arith
elem-nonzero_words x (suc w) i =
    ground (arith, elem-nonzero_words x w i, elem-append i (bs_nonzero_words x w) (w ∷ []))

subset_sparse_iff :
    (x y idx : List ℕ)
    → (bs_subset_sparse x y idx ≡ true)
      ↔ ((i : ℕ) → elem i idx ≡ true → bit_and (word x i) (aw_not (word y i)) == 0 ≡ true)
unfolding bs_subset_sparse
subset_sparse_iff x y [] = (λ _ i e. absurd (ground arith), λ _. refl)
subset_sparse_iff x y (k ∷ idx) =
    let ih = subset_sparse_iff x y idx in
    (
      λ h i e. elim (Bool-cases (i == k)) [
        | inl same ↦ ground arith
        | inr other ↦ ground (arith, ih.0 (ground arith) i)
      ],
      λ h. ground (arith, h k (ground (arith, ==_refl k)), ih.1 (λ i e. h i (ground arith))),
    )

-- Testing only the words that `bs_nonzero_words` recorded of `x` gives the answer of `bs_subset`.
pub subset_sparse-eq-subset :
    (x y : List ℕ) (w : ℕ) → bs_subset_sparse x y (bs_nonzero_words x w) ≡ bs_subset x y w
unfolding bs_subset
subset_sparse-eq-subset x y w =
    let idx = bs_nonzero_words x w in
    let dense = all_words_iff (λ i. bit_and (word x i) (aw_not (word y i)) == 0) w 0 in
    let sparse = subset_sparse_iff x y idx in
    Bool-ext (bs_subset_sparse x y idx) (bs_subset x y w)
      (λ h. dense.1 (λ i p q. elim (Bool-cases (word x i == 0)) [
        | inl blank ↦ ground (arith, bit_and-le (word x i) (aw_not (word y i)))
        | inr busy ↦ sparse.0 h i (ground (arith, elem-nonzero_words x w i))
      ]))
      (λ h. sparse.1 (λ i e. dense.0 h i (omega arith) (ground (arith, elem-nonzero_words x w i))))
