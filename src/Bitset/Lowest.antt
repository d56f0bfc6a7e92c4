-- ===== src/Bitset/Lowest.antt =====
-- The lowest set bit of a word: `aw_ctz` finds it, and `x & (x - 1)` clears it alone.
use fca4j_project.Base.{
  ℕ, zero, suc, ◌+◌, ◌-◌, ◌/◌, ◌%◌, ◌^◌, ◌<◌, ◌≡◌, refl, ◌≢◌, true, false, not, ◌&&◌, ◌==◌, arith,
  Bool-cases, inl, inr,
}
use Prim.Native.Nat.{bit_and}
use mathlib.Core.Path.{subst, sym}
use native.Mathlib.Nat.{pow-suc}
use fca4j_project.Base.Bits.{bit, bit-and}
use fca4j_project.Bitset.{ctz_loop, aw_ctz, popcount_below}

-- `c` is the lowest set bit of the `w`-bit number `x`.
pub record IsLowest (w x c : ℕ) : Type 0 where
  pub counts : (n : ℕ) → ctz_loop w x n ≡ n + c
  pub in_range : c < w
  pub is_set : bit x c ≡ true
  pub clear_below : (i : ℕ) → i < c → bit x i ≡ false
  pub clears : (i : ℕ) → (bit x i && bit (x - 1) i) ≡ (bit x i && not (i == c))

Lowest-odd : (w x : ℕ) → x % 2 == 1 ≡ true → IsLowest (suc w) x 0
unfolding ctz_loop
Lowest-odd w x odd = record {
  counts = λ n. rw (odd, ctz_loop) (omega arith);
  in_range = omega arith;
  is_set = odd;
  clear_below = λ i h. absurd (omega arith);
  clears = at;
}
  where
    at : (i : ℕ) → (bit x i && bit (x - 1) i) ≡ (bit x i && not (i == 0))
    at zero = ground arith
    at (suc i) = let e : (x - 1) / 2 ≡ x / 2 = ground arith in rw e (ground arith)

Lowest-even :
    (w x c : ℕ) → x % 2 == 1 ≡ false → x ≢ 0 → IsLowest w (x / 2) c → IsLowest (suc w) x (suc c)
unfolding ctz_loop
Lowest-even w x c even pos low = record {
  counts = λ n. rw (even, ctz_loop) (omega (arith, low.counts (n + 1)));
  in_range = omega (arith, low.in_range);
  is_set = low.is_set;
  clear_below = below;
  clears = at;
}
  where
    below : (i : ℕ) → i < suc c → bit x i ≡ false
    below zero h = even
    below (suc i) h = low.clear_below i (omega arith)

    at : (i : ℕ) → (bit x i && bit (x - 1) i) ≡ (bit x i && not (i == suc c))
    at zero = rw even
    at (suc i) =
        let e : (x - 1) / 2 ≡ x / 2 - 1 = ground arith in rw e (ground (arith, low.clears i))

lowest : (w x : ℕ) → x ≢ 0 → x < 2 ^ w → (c : ℕ) × IsLowest w x c
lowest zero x pos h = absurd (pos (omega arith))
lowest (suc w) x pos h = elim (Bool-cases (x % 2 == 1)) [
  | inl odd ↦ (0, Lowest-odd w x odd)
  | inr even ↦
      let (c, low) = lowest w (x / 2) (λ e. pos (ground arith)) (omega (arith, pow-suc 2 w)) in
      (suc c, Lowest-even w x c even pos low)
]

-- On a non-zero word `aw_ctz` is the index of the lowest set bit.
pub ctz-IsLowest : (x : ℕ) → x ≢ 0 → x < 2 ^ 64 → IsLowest 64 x (aw_ctz x)
unfolding aw_ctz
ctz-IsLowest x pos h =
    let (c, low) = lowest 64 x pos h in subst (IsLowest 64 x) (sym (low.counts 0)) (at c low)
  where
    at : (c : ℕ) → IsLowest 64 x c → IsLowest 64 x (0 + c)
    at c low = let e : 0 + c ≡ c = omega arith in rw e low

-- The other bits stay when `x & (x - 1)` is taken.
pub bit-clear_lowest :
    (x c i : ℕ) → IsLowest 64 x c → bit (bit_and x (x - 1)) i ≡ (bit x i && not (i == c))
bit-clear_lowest x c i low = ground (arith, bit-and i x (x - 1), low.clears i)

popcount_ext :
    (w x y : ℕ) → ((i : ℕ) → i < w → bit x i ≡ bit y i) → popcount_below w x ≡ popcount_below w y
unfolding popcount_below
popcount_ext zero x y e = refl
popcount_ext (suc w) x y e =
    ground
      (arith, e 0 (omega arith), popcount_ext w (x / 2) (y / 2) (λ i h. e (suc i) (omega arith)))

-- Clearing one set bit takes one from the count.
pub popcount_clear :
    (w x y c : ℕ)
    → c < w
    → bit x c ≡ true
    → ((i : ℕ) → bit y i ≡ (bit x i && not (i == c)))
    → popcount_below w x ≡ suc (popcount_below w y)
unfolding popcount_below
popcount_clear zero x y c h s e = absurd (omega arith)
popcount_clear (suc w) x y zero h s e =
    ground (arith, e 0, popcount_ext w (x / 2) (y / 2) (λ i l. ground (arith, e (suc i))))
popcount_clear (suc w) x y (suc c) h s e = ground (
  arith,
  e 0,
  popcount_clear w (x / 2) (y / 2) c (omega arith) s (λ i. ground (arith, e (suc i))),
)
