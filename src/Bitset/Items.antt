-- ===== src/Bitset/Items.antt =====
-- BS_FOREACH visits exactly the bits set, each once and in ascending order, and `bs_card` is
-- their number.
use fca4j_project.Base.{
  ℕ, zero, suc, ◌+◌, ◌-◌, ◌*◌, ◌/◌, ◌%◌, ◌^◌, ◌≤◌, ◌<◌, ◌≡◌, refl, sym, ap, ◌∙◌, true, false, not,
  ◌&&◌, ltb, leb, ◌==◌, arith, Bool-cases, inl, inr, List, [], ◌∷◌, length, length-append, elem,
  elem-append, Above, Ascending, AllBelow, AllFrom, Ascending-append, AllBelow-append,
  AllBelow-mono, ==_iff,
}
use Prim.Native.Nat.{bit_and}
use native.Mathlib.Decide.{dec_lt}
use fca4j_project.Base.Bits.{bit, bit_and-le, zero_of_bits, bit-zero}
use fca4j_project.Bitset.{
  word, aw_ctz, aw_popcount, bs_test, bs_card, word_items, bs_foreach, popcount_below,
}
use fca4j_project.Bitset.Words.{IsWords, bs_test_lem}
use fca4j_project.Bitset.Lowest.{IsLowest, ctz-IsLowest, bit-clear_lowest, popcount_clear}

-- What the loop over one word gives when the bits below `m` are already gone.
record IsItems (base m x : ℕ) (items : List ℕ) : Type 0 where
  member : (j : ℕ) → elem j items ≡ (leb base j && (ltb j (base + 64) && bit x (j - base)))
  ascending : Ascending items
  from : AllFrom (base + m) items
  below : AllBelow (base + 64) items
  count : length items ≡ aw_popcount x

-- A word with no bit left.
popcount_zero : (w : ℕ) → popcount_below w 0 ≡ 0
unfolding popcount_below
popcount_zero zero = refl
popcount_zero (suc w) = omega (arith, popcount_zero w)

IsItems-nil : (base m : ℕ) → IsItems base m 0 []
IsItems-nil base m = record {
  member = λ j. ground (arith, bit-zero (j - base));
  ascending = tt;
  from = tt;
  below = tt;
  count = unfold aw_popcount in sym (popcount_zero 64);
}

AllFrom-mono : (n m : ℕ) (xs : List ℕ) → n ≤ m → AllFrom m xs → AllFrom n xs
AllFrom-mono n m [] h p = tt
AllFrom-mono n m (x ∷ xs) h p = (omega arith, AllFrom-mono n m xs h p.1)

Above-of_from : (x : ℕ) (xs : List ℕ) → AllFrom (x + 1) xs → Ascending xs → Above x xs
Above-of_from x [] f a = tt
Above-of_from x (y ∷ ys) f a = (omega arith, a)

-- One round: the lowest bit `c`, then the bits of the word without it.
IsItems-cons :
    (base m x y c : ℕ) (items : List ℕ)
    → m ≤ c
    → IsLowest 64 x c
    → ((i : ℕ) → bit y i ≡ (bit x i && not (i == c)))
    → IsItems base (suc c) y items
    → IsItems base m x ((base + c) ∷ items)
IsItems-cons base m x y c items h low clears rest = record {
  member = λ j. ground (arith, rest.member j, clears (j - base), low.is_set, low.in_range);
  ascending =
      Above-of_from (base + c) items
        (AllFrom-mono (base + c + 1) (base + suc c) items (omega arith) rest.from) rest.ascending;
  from = (omega arith, AllFrom-mono (base + m) (base + suc c) items (omega arith) rest.from);
  below = (omega (arith, low.in_range), rest.below);
  count =
      unfold aw_popcount in
      (ap suc rest.count ∙ sym (popcount_clear 64 x y c low.in_range low.is_set clears));
}

gone_after :
    (x i c y : ℕ)
    → i < suc c
    → IsLowest 64 x c
    → ((i : ℕ) → bit y i ≡ (bit x i && not (i == c)))
    → bit y i ≡ false
gone_after x i c y l low clears = ground (arith, clears i, low.clear_below i)

lowest-le : (m x c : ℕ) → ((i : ℕ) → i < m → bit x i ≡ false) → bit x c ≡ true → m ≤ c
lowest-le m x c gone s = elim (dec_lt c m) [ yes p ↦ ground (arith, gone c p) | no p ↦ omega arith ]

word_items-IsItems :
    (fuel base m x : ℕ)
    → 64 ≤ m + fuel
    → x < 2 ^ 64
    → ((i : ℕ) → i < m → bit x i ≡ false)
    → IsItems base m x (word_items fuel base x)
unfolding word_items
word_items-IsItems zero base m x e h gone =
    let z : x ≡ 0 = zero_of_bits 64 x h (λ i l. gone i (omega arith)) in rw z (IsItems-nil base m)
word_items-IsItems (suc fuel) base m x e h gone = elim (Bool-cases (x == 0)) [
  | inl none_left ↦ let z : x ≡ 0 = (==_iff x 0).0 none_left in rw z (IsItems-nil base m)
  | inr more ↦
      let c = aw_ctz x in
      let y = bit_and x (x - 1) in
      let low = ctz-IsLowest x (λ z. ground arith) h in
      let clears = λ (i : ℕ). bit-clear_lowest x c i low in
      let past : m ≤ c = lowest-le m x c gone low.is_set in
      let rest =
        word_items-IsItems fuel base (suc c) y (omega arith) (omega (arith, bit_and-le x (x - 1)))
          (λ i l. gone_after x i c y l low clears) in
      rw (more, word_items)
        (IsItems-cons base m x y c (word_items fuel base y) past low clears rest)
]

word_index : (w j : ℕ) → w * 64 ≤ j → j < w * 64 + 64 → (j / 64 ≡ w) × (j % 64 ≡ j - w * 64)
word_index w j h k = omega arith

-- The walk over the first `w` words visits exactly the bits set below 64 * w, each once and in
-- ascending order, and `bs_card` is the number of them, for arrays of 64-bit words.
pub bs_foreach_lem :
    (a : List ℕ) (w : ℕ)
    → IsWords a
    → ((j : ℕ) → elem j (bs_foreach a w) ≡ (ltb j (64 * w) && bs_test a j))
      × Ascending (bs_foreach a w)
      × AllBelow (64 * w) (bs_foreach a w)
      × (bs_card a w ≡ length (bs_foreach a w))
unfolding bs_foreach bs_card
bs_foreach_lem a zero words = (λ j. ground arith, tt, tt, refl)
bs_foreach_lem a (suc w) words =
    let (member, ascending, below, count) = bs_foreach_lem a w words in
    let seen = bs_foreach a w in
    let items = word_items 64 (w * 64) (word a w) in
    let here =
      word_items-IsItems 64 (w * 64) 0 (word a w) (omega arith) (words w)
        (λ i l. absurd (omega arith)) in
    (
      λ j. ground (
        arith,
        elem-append j seen items,
        member j,
        here.member j,
        bs_test_lem a j,
        word_index w j,
      ),
      Ascending-append (64 * w) seen items ascending below
          (AllFrom-mono (64 * w) (w * 64 + 0) items (omega arith) here.from) here.ascending,
      AllBelow-append (64 * suc w) seen items
          (AllBelow-mono (64 * w) (64 * suc w) seen (omega arith) below)
          (AllBelow-mono (w * 64 + 64) (64 * suc w) items (omega arith) here.below),
      omega (arith, count, here.count, length-append seen items),
    )
