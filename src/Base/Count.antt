-- ===== src/Base/Count.antt =====
-- How many indices below a bound pass a test.
use Prim.Native.Nat.{ℕ, zero, suc, ◌+◌, ◌≤◌, ◌<◌}
use mathlib.Core.Path.{◌≡◌, refl, sym, ◌∙◌}
use mathlib.Core.Bool.{Bool, true, false}
use native.Mathlib.Omega.{arith}
use fca4j_project.Base.Tests.{if◌then◌else◌, ◌==◌, Bool-cases, ==_iff}
use mathlib.Core.Logic.{inl, inr}

abbrev pub count_to : ℕ → (ℕ → Bool) → ℕ
count_to zero f = 0
count_to (suc n) f = (if f n then 1 else 0) + count_to n f

pub count_to-le : (n : ℕ) (f : ℕ → Bool) → count_to n f ≤ n
count_to-le zero f = omega arith
count_to-le (suc n) f = ground (arith, count_to-le n f)

pub count_to_mono :
    (n : ℕ) (f g : ℕ → Bool)
    → ((i : ℕ) → i < n → f i ≡ true → g i ≡ true)
    → count_to n f ≤ count_to n g
count_to_mono zero f g h = omega arith
count_to_mono (suc n) f g h =
    ground (arith, count_to_mono n f g (λ i l. h i (omega arith)), h n (omega arith))

-- One index that passed the wider test fails the narrower one.
pub count_to-drop :
    (n : ℕ) (f g : ℕ → Bool) (p : ℕ)
    → ((i : ℕ) → i < n → f i ≡ true → g i ≡ true)
    → p < n
    → f p ≡ false
    → g p ≡ true
    → count_to n f + 1 ≤ count_to n g
count_to-drop zero f g p h l a b = absurd (omega arith)
count_to-drop (suc n) f g p h l a b = elim (Bool-cases (p == n)) [
  | inl e ↦
      let same = (==_iff p n).0 e in
      ground (arith, same, count_to_mono n f g (λ i k. h i (omega arith)))
  | inr e ↦ ground (
    arith,
    count_to-drop n f g p (λ i k. h i (omega arith)) (ground arith) a b,
    h n (omega arith),
  )
]

-- A test that differs at one index counts one more at most.
pub count_to-grow :
    (n : ℕ) (f g : ℕ → Bool) (p : ℕ)
    → ((i : ℕ) → (i == p) ≡ false → f i ≡ g i)
    → count_to n f ≤ count_to n g + 1
count_to-grow zero f g p h = omega arith
count_to-grow (suc n) f g p h = elim (Bool-cases (n == p)) [
  | inl e ↦
      let same = (==_iff n p).0 e in
      ground (arith, count_to_mono n f g (λ i l t. sym (h i (ground (arith, l, same))) ∙ t))
  | inr e ↦ ground (arith, count_to-grow n f g p h, h n e)
]

pub count_to-none : (n : ℕ) (f : ℕ → Bool) → ((i : ℕ) → f i ≡ false) → count_to n f ≡ 0
count_to-none zero f h = refl
count_to-none (suc n) f h = ground (arith, h n, count_to-none n f h)
