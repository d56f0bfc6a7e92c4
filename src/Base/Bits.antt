-- ===== src/Base/Bits.antt =====
-- Bits of a number, and the bitwise operations read bit by bit.
use Prim.Native.Nat.{
  ℕ, zero, suc, ◌+◌, ◌-◌, ◌*◌, ◌/◌, ◌%◌, ◌^◌, ◌≤◌, ◌<◌, min, max, bit_and, bit_or, digits,
  bit_and-bitwise, bit_or-bitwise,
}
use mathlib.Core.Path.{◌≡◌, refl, ◌∙◌, ap}
use mathlib.Core.Bool.{Bool, false, not, ◌&&◌, ◌||◌}
use native.Mathlib.Omega.{arith}
use native.Mathlib.Nat.{mul_comm, div-div-eq-div-mul, le_refl, pow-suc, one-le-pow}
use fca4j_project.Base.Tests.{◌==◌}

-- Bit `i` of `x`.
abbrev pub bit : ℕ → ℕ → Bool
bit x zero = x % 2 == 1
bit x (suc i) = bit (x / 2) i

-- ~x on `w` bits.
abbrev pub bit_not : ℕ → ℕ → ℕ
bit_not w x = 2 ^ w - 1 - x

-- The digit recursions of the native operations, on any count `n` of digits that covers `a`.
abbrev or_digits : ℕ → ℕ → ℕ → ℕ
or_digits = digits (λ y. y) max

abbrev and_digits : ℕ → ℕ → ℕ → ℕ
and_digits = digits (λ y. 0) min

pub bit-zero : (i : ℕ) → bit 0 i ≡ false
bit-zero zero = refl
bit-zero (suc i) = bit-zero i

bit-or_digits : (i n a b : ℕ) → a ≤ n → bit (or_digits n a b) i ≡ (bit a i || bit b i)
bit-or_digits i zero a b h = let e : a ≡ 0 = omega arith in rw (e, bit-zero i)
bit-or_digits i (suc n) zero b h = rw (bit-zero i)
bit-or_digits zero (suc n) (suc a) b h = ground arith
bit-or_digits (suc i) (suc n) (suc a) b h =
    let low = or_digits n (suc a / 2) (b / 2) in
    let top : (low * 2 + max (suc a % 2) (b % 2)) / 2 ≡ low = omega arith in
    rw top (bit-or_digits i n (suc a / 2) (b / 2) (omega arith))

bit-and_digits : (i n a b : ℕ) → a ≤ n → bit (and_digits n a b) i ≡ (bit a i && bit b i)
bit-and_digits i zero a b h = let e : a ≡ 0 = omega arith in rw (e, bit-zero i)
bit-and_digits i (suc n) zero b h = rw (bit-zero i)
bit-and_digits zero (suc n) (suc a) b h = ground arith
bit-and_digits (suc i) (suc n) (suc a) b h =
    let low = and_digits n (suc a / 2) (b / 2) in
    let top : (low * 2 + min (suc a % 2) (b % 2)) / 2 ≡ low = omega arith in
    rw top (bit-and_digits i n (suc a / 2) (b / 2) (omega arith))

or_digits-lt : (w n a b : ℕ) → a < 2 ^ w → b < 2 ^ w → or_digits n a b < 2 ^ w
or_digits-lt w zero a b h k = k
or_digits-lt w (suc n) zero b h k = k
or_digits-lt zero (suc n) (suc a) b h k = absurd (omega arith)
or_digits-lt (suc w) (suc n) (suc a) b h k =
    let room = pow-suc 2 w in
    let low = or_digits-lt w n (suc a / 2) (b / 2) (omega (arith, room)) (omega (arith, room)) in
    omega (arith, room, low)

and_digits-le : (n a b : ℕ) → and_digits n a b ≤ a
and_digits-le zero a b = omega arith
and_digits-le (suc n) zero b = omega arith
and_digits-le (suc n) (suc a) b = omega (arith, and_digits-le n (suc a / 2) (b / 2))

and_digits-le_right : (n a b : ℕ) → and_digits n a b ≤ b
and_digits-le_right zero a b = omega arith
and_digits-le_right (suc n) zero b = omega arith
and_digits-le_right (suc n) (suc a) b = omega (arith, and_digits-le_right n (suc a / 2) (b / 2))

pub bit-or : (i a b : ℕ) → bit (bit_or a b) i ≡ (bit a i || bit b i)
bit-or i a b = rw bit_or-bitwise (bit-or_digits i a a b (le_refl a))

pub bit-and : (i a b : ℕ) → bit (bit_and a b) i ≡ (bit a i && bit b i)
bit-and i a b = rw bit_and-bitwise (bit-and_digits i a a b (le_refl a))

pub bit_or-lt : (w a b : ℕ) → a < 2 ^ w → b < 2 ^ w → bit_or a b < 2 ^ w
bit_or-lt w a b h k = rw bit_or-bitwise (or_digits-lt w a a b h k)

pub bit_and-le : (a b : ℕ) → bit_and a b ≤ a
bit_and-le a b = rw bit_and-bitwise (and_digits-le a a b)

pub bit_and-le_right : (a b : ℕ) → bit_and a b ≤ b
bit_and-le_right a b = rw bit_and-bitwise (and_digits-le_right a a b)

pub bit-not : (w i x : ℕ) → x < 2 ^ w → i < w → bit (bit_not w x) i ≡ not (bit x i)
bit-not zero i x h l = absurd (omega arith)
bit-not (suc w) zero x h l = ground (arith, pow-suc 2 w, one-le-pow w 2)
bit-not (suc w) (suc i) x h l =
    ap (λ t. bit t i) half ∙ bit-not w i (x / 2) (omega (arith, pow-suc 2 w)) (omega arith)
  where
    half : bit_not (suc w) x / 2 ≡ bit_not w (x / 2)
    half = omega (arith, pow-suc 2 w, one-le-pow w 2)

-- `1 << k`
pub bit-pow : (k i : ℕ) → bit (2 ^ k) i ≡ (i == k)
bit-pow zero zero = refl
bit-pow zero (suc i) = ground (arith, bit-zero i)
bit-pow (suc k) zero = ground (arith, pow-suc 2 k)
bit-pow (suc k) (suc i) = ap (λ t. bit t i) half ∙ bit-pow k i ∙ ground arith
  where
    half : 2 ^ suc k / 2 ≡ 2 ^ k
    half = omega (arith, pow-suc 2 k)

-- `(x >> i) & 1`
pub bit-shr : (i x : ℕ) → (x / 2 ^ i) % 2 == 1 ≡ bit x i
bit-shr zero x = ground arith
bit-shr (suc i) x = ap (λ t. t % 2 == 1) half ∙ bit-shr i (x / 2)
  where
    half : x / 2 ^ suc i ≡ x / 2 / 2 ^ i
    half = simp (pow-suc, div-div-eq-div-mul) (ground (arith, mul_comm 2 (2 ^ i)))

-- A number below 2 ^ w with no bit set is 0.
pub zero_of_bits : (w x : ℕ) → x < 2 ^ w → ((i : ℕ) → i < w → bit x i ≡ false) → x ≡ 0
zero_of_bits zero x h z = omega arith
zero_of_bits (suc w) x h z = ground (
  arith,
  z 0 (omega arith),
  zero_of_bits w (x / 2) (omega (arith, pow-suc 2 w)) (λ i l. z (suc i) (omega arith)),
)

pub eq_of_bits : (w x y : ℕ) → x < 2 ^ w → y < 2 ^ w → ((i : ℕ) → i < w → bit x i ≡ bit y i) → x ≡ y
eq_of_bits zero x y h k e = omega arith
eq_of_bits (suc w) x y h k e = ground (
  arith,
  e 0 (omega arith),
  eq_of_bits w (x / 2) (y / 2) (omega (arith, pow-suc 2 w)) (omega (arith, pow-suc 2 w))
      (λ i l. e (suc i) (omega arith)),
)

-- The mask 2 ^ w - 1 keeps what is below 2 ^ w, and sends 2 ^ w to 0.
pub bit_and-mask : (w y : ℕ) → y < 2 ^ w → bit_and y (2 ^ w - 1) ≡ y
bit_and-mask w y h =
    eq_of_bits w (bit_and y (2 ^ w - 1)) y (omega (arith, bit_and-le y (2 ^ w - 1))) h (λ i l.
      ground (
        arith,
        bit-and i y (2 ^ w - 1),
        bit-not w i 0 (one-le-pow w 2 (omega arith)) l,
        bit-zero i,
      ))

pub bit_and-mask_top : (w : ℕ) → bit_and (2 ^ w) (2 ^ w - 1) ≡ 0
bit_and-mask_top w =
    zero_of_bits w (bit_and (2 ^ w) (2 ^ w - 1))
      (omega (arith, bit_and-le_right (2 ^ w) (2 ^ w - 1), one-le-pow w 2 (omega arith)))
      (λ i l. ground (arith, bit-and i (2 ^ w) (2 ^ w - 1), bit-pow w i))
