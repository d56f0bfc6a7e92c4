-- ===== src/Bitset.antt =====
-- core/bitset.h: dense bitsets, arrays of 64-bit words. A word is a number below 2 ^ 64, `i >> 6`
-- is `i / 64`, `i & 63` is `i % 64`, and `1 << k` is `2 ^ k`. A read out of bounds, undefined in
-- C, reads 0, and a write out of bounds changes nothing.
pub mod Words
pub mod Ops
pub mod Tests
pub mod Sparse
pub mod Lowest
pub mod Items
pub mod Examples
use fca4j_project.Base.{
  ℕ, zero, suc, ◌+◌, ◌-◌, ◌*◌, ◌/◌, ◌%◌, ◌^◌, Bool, true, false, not, List, [], ◌∷◌, ◌++◌, get_or,
  set, if◌then◌else◌, for_to, ◌==◌,
}
use fca4j_project.Base.Bits.{bit_not}
use Prim.Native.Nat.{bit_and, bit_or, bit_xor}

-- AW_N
unfoldable pub aw_n : ℕ → ℕ
aw_n nbits = (nbits + 64 - 1) / 64

-- a[i]
abbrev pub word : List ℕ → ℕ → ℕ
word a i = get_or a i 0

-- ~x
abbrev pub aw_not : ℕ → ℕ
aw_not x = bit_not 64 x

-- AW_POPCOUNT: the compiler's builtin, the number of bits set among the lowest `n`.
unfoldable pub popcount_below : ℕ → ℕ → ℕ
popcount_below zero x = 0
popcount_below (suc n) x = x % 2 + popcount_below n (x / 2)

unfoldable pub aw_popcount : ℕ → ℕ
unfolding popcount_below
aw_popcount x = popcount_below 64 x

-- aw_ctz_fallback, with one round of fuel for each bit; the builtins agree on non-zero words.
unfoldable pub ctz_loop : ℕ → ℕ → ℕ → ℕ
ctz_loop zero x n = n
ctz_loop (suc fuel) x n = elim (x % 2 == 1) [ true ↦ n | false ↦ ctz_loop fuel (x / 2) (n + 1) ]

unfoldable pub aw_ctz : ℕ → ℕ
unfolding ctz_loop
aw_ctz x = ctz_loop 64 x 0

unfoldable pub bs_zero : List ℕ → ℕ → List ℕ
bs_zero a w = for_to w (λ i d. set d i 0) a

unfoldable pub bs_copy : List ℕ → List ℕ → ℕ → List ℕ
bs_copy dst src w = for_to w (λ i d. set d i (word src i)) dst

unfoldable pub bs_set : List ℕ → ℕ → List ℕ
bs_set a i = set a (i / 64) (bit_or (word a (i / 64)) (2 ^ (i % 64)))

unfoldable pub bs_clear : List ℕ → ℕ → List ℕ
bs_clear a i = set a (i / 64) (bit_and (word a (i / 64)) (aw_not (2 ^ (i % 64))))

unfoldable pub bs_test : List ℕ → ℕ → Bool
bs_test a i = (word a (i / 64) / 2 ^ (i % 64)) % 2 == 1

unfoldable pub bs_or : List ℕ → List ℕ → ℕ → List ℕ
bs_or dst src w = for_to w (λ i d. set d i (bit_or (word d i) (word src i))) dst

unfoldable pub bs_and : List ℕ → List ℕ → ℕ → List ℕ
bs_and dst src w = for_to w (λ i d. set d i (bit_and (word d i) (word src i))) dst

unfoldable pub bs_andnot : List ℕ → List ℕ → ℕ → List ℕ
bs_andnot dst src w = for_to w (λ i d. set d i (bit_and (word d i) (aw_not (word src i)))) dst

unfoldable pub bs_and_to : List ℕ → List ℕ → List ℕ → ℕ → List ℕ
bs_and_to dst a b w = for_to w (λ i d. set d i (bit_and (word a i) (word b i))) dst

unfoldable pub bs_or_to : List ℕ → List ℕ → List ℕ → ℕ → List ℕ
bs_or_to dst a b w = for_to w (λ i d. set d i (bit_or (word a i) (word b i))) dst

unfoldable pub bs_card : List ℕ → ℕ → ℕ
bs_card a w = for_to w (λ i c. c + aw_popcount (word a i)) 0

unfoldable pub bs_card_and : List ℕ → List ℕ → ℕ → ℕ
bs_card_and a b w = for_to w (λ i c. c + aw_popcount (bit_and (word a i) (word b i))) 0

-- The loops that leave at the first word that fails `good`: `left` rounds from index `i`.
unfoldable pub all_words : (ℕ → Bool) → ℕ → ℕ → Bool
all_words good zero i = true
all_words good (suc left) i = elim (good i) [ true ↦ all_words good left (i + 1) | false ↦ false ]

unfoldable pub bs_empty : List ℕ → ℕ → Bool
unfolding all_words
bs_empty a w = all_words (λ i. word a i == 0) w 0

unfoldable pub bs_intersects : List ℕ → List ℕ → ℕ → Bool
unfolding all_words
bs_intersects a b w = not (all_words (λ i. bit_and (word a i) (word b i) == 0) w 0)

unfoldable pub bs_subset : List ℕ → List ℕ → ℕ → Bool
unfolding all_words
bs_subset x y w = all_words (λ i. bit_and (word x i) (aw_not (word y i)) == 0) w 0

unfoldable pub bs_equal : List ℕ → List ℕ → ℕ → Bool
unfolding all_words
bs_equal a b w = all_words (λ i. word a i == word b i) w 0

-- The indices that the code writes to `idx[0 .. n)`.
unfoldable pub bs_nonzero_words : List ℕ → ℕ → List ℕ
bs_nonzero_words x w = for_to w (λ i idx. if word x i == 0 then idx else idx ++ i ∷ []) []

unfoldable pub bs_subset_sparse : List ℕ → List ℕ → List ℕ → Bool
bs_subset_sparse x y [] = true
bs_subset_sparse x y (i ∷ idx) = elim (bit_and (word x i) (aw_not (word y i)) == 0) [
  | true ↦ bs_subset_sparse x y idx
  | false ↦ false
]

-- The inner loop of BS_FOREACH: the bits of one word, lowest first, that start at index `base`.
unfoldable pub word_items : ℕ → ℕ → ℕ → List ℕ
unfolding aw_ctz
word_items zero base x = []
word_items (suc fuel) base x = elim (x == 0) [
  | true ↦ []
  | false ↦ (base + aw_ctz x) ∷ word_items fuel base (bit_and x (x - 1))
]

-- The indices that BS_FOREACH visits, in order.
unfoldable pub bs_foreach : List ℕ → ℕ → List ℕ
bs_foreach a w = for_to w (λ i seen. seen ++ word_items 64 (i * 64) (word a i)) []

unfoldable pub bs_fmix64 : ℕ → ℕ
bs_fmix64 k =
    let k1 = bit_xor k (k / 2 ^ 33) in
    let k2 = (k1 * 0xff51afd7ed558ccd) % 2 ^ 64 in
    let k3 = bit_xor k2 (k2 / 2 ^ 33) in
    let k4 = (k3 * 0xc4ceb9fe1a85ec53) % 2 ^ 64 in bit_xor k4 (k4 / 2 ^ 33)

unfoldable pub bs_hash : List ℕ → ℕ → ℕ
unfolding bs_fmix64
bs_hash a w =
    bs_fmix64
      (for_to w (λ i h. (bit_xor h (word a i) * 1099511628211) % 2 ^ 64) 1469598103934665603)
