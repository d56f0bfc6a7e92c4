-- ===== src/Bitset/Ops.antt =====
-- The operations of bitset.h act on each bit as the set operation that they name.
use fca4j_project.Base.{
  ℕ, ◌*◌, ◌/◌, ◌%◌, ◌^◌, ◌≤◌, ◌<◌, ◌≡◌, not, ◌&&◌, ◌||◌, List, length, set, if◌then◌else◌, ltb,
  ◌==◌, arith, get_or-set_self, get_or-set_ne,
}
use fca4j_project.Base.Bits.{bit-or, bit-and, bit-not, bit-pow, bit-zero}
use Prim.Native.Nat.{bit_or, bit_and, suc}
use native.Mathlib.Nat.{pow-suc, one-le-pow, pow-le-pow_right}
use fca4j_project.Bitset.{
  word, aw_not, bs_zero, bs_copy, bs_set, bs_clear, bs_test, bs_or, bs_and, bs_andnot, bs_and_to,
  bs_or_to,
}
use fca4j_project.Bitset.Words.{IsWords, bs_test_lem, word-loop}

pow_lt : (k : ℕ) → k < 64 → 2 ^ k < 2 ^ 64
pow_lt k h = omega (
  arith,
  pow-suc 2 k,
  one-le-pow k 2,
  pow-le-pow_right {n = 2} (omega arith) {i = suc k} {j = 64} h,
)

-- `bs_set` sets the one bit `i`, which is in bounds, and leaves every other as it was; `bs_clear`
-- clears it.
pub test-set_clear :
    (a : List ℕ) (i j : ℕ)
    → i / 64 < length a
    → (bs_test (bs_set a i) j ≡ (j == i || bs_test a j))
      × (bs_test (bs_clear a i) j ≡ (not (j == i) && bs_test a j))
unfolding bs_set bs_clear
test-set_clear a i j h = (
  ground (
    arith,
    bs_test_lem (set a (i / 64) (bit_or (word a (i / 64)) (2 ^ (i % 64)))) j,
    bs_test_lem a j,
    get_or-set_self a (i / 64) (bit_or (word a (i / 64)) (2 ^ (i % 64))) 0,
    get_or-set_ne a (i / 64) (j / 64) (bit_or (word a (i / 64)) (2 ^ (i % 64))) 0,
    bit-or (j % 64) (word a (i / 64)) (2 ^ (i % 64)),
    bit-pow (i % 64) (j % 64),
  ),
  ground (
    arith,
    bs_test_lem (set a (i / 64) (bit_and (word a (i / 64)) (aw_not (2 ^ (i % 64))))) j,
    bs_test_lem a j,
    get_or-set_self a (i / 64) (bit_and (word a (i / 64)) (aw_not (2 ^ (i % 64)))) 0,
    get_or-set_ne a (i / 64) (j / 64) (bit_and (word a (i / 64)) (aw_not (2 ^ (i % 64)))) 0,
    bit-and (j % 64) (word a (i / 64)) (aw_not (2 ^ (i % 64))),
    bit-not 64 (j % 64) (2 ^ (i % 64)),
    bit-pow (i % 64) (j % 64),
    pow_lt (i % 64),
  ),
)

-- The loops `dst |= src`, `dst &= src` and `dst &= ~src` over the first `w` words, which are in
-- bounds, are union, intersection and difference on the first 64 * w bits, and change no other.
pub test-or_and_andnot :
    (dst src : List ℕ) (w j : ℕ)
    → w ≤ length dst
    → IsWords src
    → (bs_test (bs_or dst src w) j
        ≡ (if ltb j (64 * w) then bs_test dst j || bs_test src j else bs_test dst j))
      × (bs_test (bs_and dst src w) j
          ≡ (if ltb j (64 * w) then bs_test dst j && bs_test src j else bs_test dst j))
      × (bs_test (bs_andnot dst src w) j
          ≡ (if ltb j (64 * w) then bs_test dst j && not (bs_test src j) else bs_test dst j))
unfolding bs_or bs_and bs_andnot
test-or_and_andnot dst src w j h words = (
  ground (
    arith,
    bs_test_lem (bs_or dst src w) j,
    bs_test_lem dst j,
    bs_test_lem src j,
    word-loop (λ i x. bit_or x (word src i)) w dst (j / 64),
    bit-or (j % 64) (word dst (j / 64)) (word src (j / 64)),
  ),
  ground (
    arith,
    bs_test_lem (bs_and dst src w) j,
    bs_test_lem dst j,
    bs_test_lem src j,
    word-loop (λ i x. bit_and x (word src i)) w dst (j / 64),
    bit-and (j % 64) (word dst (j / 64)) (word src (j / 64)),
  ),
  ground (
    arith,
    bs_test_lem (bs_andnot dst src w) j,
    bs_test_lem dst j,
    bs_test_lem src j,
    word-loop (λ i x. bit_and x (aw_not (word src i))) w dst (j / 64),
    bit-and (j % 64) (word dst (j / 64)) (aw_not (word src (j / 64))),
    bit-not 64 (j % 64) (word src (j / 64)) (words (j / 64)),
  ),
)

-- The loops that clear, copy, and store `a & b` or `a | b` over the first `w` words, which are in
-- bounds, store the empty set, `a`, the intersection and the union on the first 64 * w bits, and
-- change no other.
pub test-to :
    (dst a b : List ℕ) (w j : ℕ)
    → w ≤ length dst
    → (bs_test (bs_zero dst w) j ≡ (not (ltb j (64 * w)) && bs_test dst j))
      × (bs_test (bs_copy dst a w) j ≡ (if ltb j (64 * w) then bs_test a j else bs_test dst j))
      × (bs_test (bs_and_to dst a b w) j
          ≡ (if ltb j (64 * w) then bs_test a j && bs_test b j else bs_test dst j))
      × (bs_test (bs_or_to dst a b w) j
          ≡ (if ltb j (64 * w) then bs_test a j || bs_test b j else bs_test dst j))
unfolding bs_zero bs_copy bs_and_to bs_or_to
test-to dst a b w j h = (
  ground (
    arith,
    bs_test_lem (bs_zero dst w) j,
    bs_test_lem dst j,
    word-loop (λ i x. 0) w dst (j / 64),
    bit-zero (j % 64),
  ),
  ground (
    arith,
    bs_test_lem (bs_copy dst a w) j,
    bs_test_lem dst j,
    bs_test_lem a j,
    word-loop (λ i x. word a i) w dst (j / 64),
  ),
  ground (
    arith,
    bs_test_lem (bs_and_to dst a b w) j,
    bs_test_lem dst j,
    bs_test_lem a j,
    bs_test_lem b j,
    word-loop (λ i x. bit_and (word a i) (word b i)) w dst (j / 64),
    bit-and (j % 64) (word a (j / 64)) (word b (j / 64)),
  ),
  ground (
    arith,
    bs_test_lem (bs_or_to dst a b w) j,
    bs_test_lem dst j,
    bs_test_lem a j,
    bs_test_lem b j,
    word-loop (λ i x. bit_or (word a i) (word b i)) w dst (j / 64),
    bit-or (j % 64) (word a (j / 64)) (word b (j / 64)),
  ),
)
