-- ===== src/Base/Loops.antt =====
-- The counted loop `for (i = 0; i < n; i++)` and its invariant rule.
use Prim.Native.Nat.{ℕ, zero, suc, ◌<◌}
use native.Mathlib.Omega.{arith}
use mathlib.Core.Path.{◌≡◌, refl, ap}

-- The rounds 0, 1, … n - 1 in this order: the last one is outermost.
abbrev pub for_to {ℓ} : {S : Type ℓ} → ℕ → (ℕ → S → S) → S → S
for_to zero body s = s
for_to (suc n) body s = body n (for_to n body s)

pub for_inv {ℓ κ} :
    {S : Type ℓ} (P : ℕ → S → Type κ) (body : ℕ → S → S) (n : ℕ) (s : S)
    → ((i : ℕ) (t : S) → i < n → P i t → P (suc i) (body i t))
    → P 0 s
    → P n (for_to n body s)
for_inv P body zero s keep h = h
for_inv P body (suc n) s keep h =
    keep n (for_to n body s) (omega arith)
      (for_inv P body n s (λ i t l p. keep i t (omega arith) p) h)

-- The first round of a loop, taken off.
pub for_to-shift {ℓ} :
    {S : Type ℓ} (n : ℕ) (body : ℕ → S → S) (s : S)
    → for_to (suc n) body s ≡ for_to n (λ i. body (suc i)) (body 0 s)
for_to-shift zero body s = refl
for_to-shift (suc n) body s = ap (body (suc n)) (for_to-shift n body s)
