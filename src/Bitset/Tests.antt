-- ===== src/Bitset/Tests.antt =====
-- The tests of bitset.h decide what they name of the sets of bits.
use fca4j_project.Base.{ℕ, ◌+◌, ◌*◌, ◌/◌, ◌%◌, ◌<◌, ◌≡◌, ◌↔◌, true, List, ◌==◌, arith, ==_iff}
use fca4j_project.Base.Bits.{bit, bit-and, bit-not, bit-zero, zero_of_bits, eq_of_bits, bit_and-le}
use Prim.Native.Nat.{bit_and}
use fca4j_project.Bitset.{word, aw_not, bs_test, bs_subset, bs_equal}
use fca4j_project.Bitset.Words.{IsWords, bs_test_lem, all_words_iff}

-- Bit `k` of word `i` is the bit 64 * i + k of the set.
test-bit : (a : List ℕ) (i k : ℕ) → k < 64 → bs_test a (64 * i + k) ≡ bit (word a i) k
test-bit a i k h =
    let q : (64 * i + k) / 64 ≡ i = omega arith in
    let r : (64 * i + k) % 64 ≡ k = omega arith in rw (bs_test_lem, q, r)

-- One word of `x & ~y` is zero exactly when its bits of `x` are all in `y`.
andnot-word_iff :
    (x y : List ℕ) (i : ℕ)
    → IsWords x
    → IsWords y
    → (bit_and (word x i) (aw_not (word y i)) == 0 ≡ true)
      ↔ ((k : ℕ) → k < 64 → bs_test x (64 * i + k) ≡ true → bs_test y (64 * i + k) ≡ true)
andnot-word_iff x y i wx wy =
    let masked = bit_and (word x i) (aw_not (word y i)) in
    let bits = λ (k : ℕ) (l : k < 64). bit-and k (word x i) (aw_not (word y i)) in
    (
      λ e k l t. ground (
        arith,
        bit-and k (word x i) (aw_not (word y i)),
        bit-not 64 k (word y i) (wy i) l,
        test-bit x i k l,
        test-bit y i k l,
        bit-zero k,
      ),
      λ sub. (==_iff masked 0).1 (
          zero_of_bits 64 masked (omega (arith, bit_and-le (word x i) (aw_not (word y i)), wx i))
            (λ k l. ground (
              arith,
              bit-and k (word x i) (aw_not (word y i)),
              bit-not 64 k (word y i) (wy i) l,
              test-bit x i k l,
              test-bit y i k l,
              sub k l,
            ))),
    )

-- `bs_subset x y w` says whether each of the first 64 * w bits set in `x` is set in `y`, for
-- arrays of 64-bit words.
pub bs_subset_iff :
    (x y : List ℕ) (w : ℕ)
    → IsWords x
    → IsWords y
    → (bs_subset x y w ≡ true) ↔ ((j : ℕ) → j < 64 * w → bs_test x j ≡ true → bs_test y j ≡ true)
unfolding bs_subset
bs_subset_iff x y w wx wy =
    let loop = all_words_iff (λ i. bit_and (word x i) (aw_not (word y i)) == 0) w 0 in
    (
      λ h j l t.
          let e : 64 * (j / 64) + j % 64 ≡ j = omega arith in
          rw e at (
            (andnot-word_iff x y (j / 64) wx wy).0 (loop.0 h (j / 64) (omega arith) (omega arith))
              (j % 64) (omega arith) (rw e t)),
      λ sub.
          loop.1 (λ i p q. (andnot-word_iff x y i wx wy).1 (λ k l. sub (64 * i + k) (omega arith))),
    )

-- `bs_equal a b w` says whether the first 64 * w bits are the same, for arrays of 64-bit words.
pub bs_equal_iff :
    (a b : List ℕ) (w : ℕ)
    → IsWords a
    → IsWords b
    → (bs_equal a b w ≡ true) ↔ ((j : ℕ) → j < 64 * w → bs_test a j ≡ bs_test b j)
unfolding bs_equal
bs_equal_iff a b w wa wb =
    let loop = all_words_iff (λ i. word a i == word b i) w 0 in
    (
      λ h j l.
          ground (
            arith,
            bs_test_lem a j,
            bs_test_lem b j,
            loop.0 h (j / 64) (omega arith) (omega arith),
          ),
      λ same. loop.1 (λ i p q. (==_iff (word a i) (word b i)).1 (
          eq_of_bits 64 (word a i) (word b i) (wa i) (wb i) (λ k l.
            ground (arith, same (64 * i + k) (omega arith), test-bit a i k l, test-bit b i k l)))),
    )
