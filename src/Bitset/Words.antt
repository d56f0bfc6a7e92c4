-- ===== src/Bitset/Words.antt =====
-- The loops over words, index by index, and the test of one bit.
use fca4j_project.Base.{
  ℕ, zero, suc, ◌+◌, ◌/◌, ◌%◌, ◌^◌, ◌≤◌, ◌<◌, ◌≡◌, refl, ◌∙◌, ◌↔◌, Bool, true, List, length, set,
  if◌then◌else◌, ltb, for_to, arith, length-set, get_or-set_self, get_or-set_ne, ◌==◌, Bool-cases,
  inl, inr,
}
use fca4j_project.Base.Bits.{bit, bit-shr}
use Prim.Native.Nat.{bit_and, bit_or}
use fca4j_project.Bitset.{word, bs_test, all_words, bs_set, bs_zero, bs_copy, bs_and}

-- Every word is a 64-bit word.
abbrev pub IsWords : List ℕ → Type 0
IsWords a = (i : ℕ) → word a i < 2 ^ 64

pub bs_test_lem : (a : List ℕ) (i : ℕ) → bs_test a i ≡ bit (word a (i / 64)) (i % 64)
unfolding bs_test
bs_test_lem a i = bit-shr (i % 64) (word a (i / 64))

-- The loop `for (i < w) d[i] = new i d[i]`.
pub length-loop :
    (new : ℕ → ℕ → ℕ) (w : ℕ) (dst : List ℕ)
    → length (for_to w (λ i d. set d i (new i (word d i))) dst) ≡ length dst
length-loop new zero dst = refl
length-loop new (suc w) dst = length-set _ w _ ∙ length-loop new w dst

pub word-loop :
    (new : ℕ → ℕ → ℕ) (w : ℕ) (dst : List ℕ) (j : ℕ)
    → w ≤ length dst
    → word (for_to w (λ i d. set d i (new i (word d i))) dst) j
      ≡ (if ltb j w then new j (word dst j) else word dst j)
word-loop new zero dst j h = ground arith
word-loop new (suc w) dst j h =
    let before = for_to w (λ i d. set d i (new i (word d i))) dst in
    ground (
      arith,
      word-loop new w dst j (omega arith),
      word-loop new w dst w (omega arith),
      length-loop new w dst,
      get_or-set_self before w (new w (word before w)) 0,
      get_or-set_ne before w j (new w (word before w)) 0,
    )

all_words_sound :
    (good : ℕ → Bool) (left i j : ℕ)
    → all_words good left i ≡ true
    → i ≤ j
    → j < i + left
    → good j ≡ true
unfolding all_words
all_words_sound good zero i j h p q = absurd (omega arith)
all_words_sound good (suc left) i j h p q = elim (Bool-cases (j == i)) [
  | inl same ↦ ground arith
  | inr later ↦ ground (arith, all_words_sound good left (i + 1) j)
]

-- The loop passes exactly when every word that it can reach is good.
pub all_words_iff :
    (good : ℕ → Bool) (left i : ℕ)
    → (all_words good left i ≡ true) ↔ ((j : ℕ) → i ≤ j → j < i + left → good j ≡ true)
unfolding all_words
all_words_iff good zero i = (λ _ j h k. absurd (omega arith), λ _. refl)
all_words_iff good (suc left) i =
    let ih = all_words_iff good left (i + 1) in
    (
      λ h j p q. all_words_sound good (suc left) i j h p q,
      λ h.
          ground (
            arith,
            h i (omega arith) (omega arith),
            ih.1 (λ j p q. h j (omega arith) (omega arith)),
          ),
    )

pub length-bs_set : (a : List ℕ) (i : ℕ) → length (bs_set a i) ≡ length a
unfolding bs_set
length-bs_set a i = length-set a (i / 64) (bit_or (word a (i / 64)) (2 ^ (i % 64)))

pub length-bs_and : (d s : List ℕ) (w : ℕ) → length (bs_and d s w) ≡ length d
unfolding bs_and
length-bs_and d s w = length-loop (λ i x. bit_and x (word s i)) w d

pub length-bs_copy : (d s : List ℕ) (w : ℕ) → length (bs_copy d s w) ≡ length d
unfolding bs_copy
length-bs_copy d s w = length-loop (λ i x. word s i) w d

pub length-bs_zero : (d : List ℕ) (w : ℕ) → length (bs_zero d w) ≡ length d
unfolding bs_zero
length-bs_zero d w = length-loop (λ i x. 0) w d
