-- ===== src/Base/Ascends.antt =====
-- The keys of a stable sort ascend.
use Prim.Native.Nat.{ℕ, zero, suc, ◌+◌, ◌-◌, ◌≤◌, ◌<◌}
use mathlib.Core.Path.{◌≡◌, refl, ◌∙◌, ap}
use mathlib.Core.Logic.{inl, inr}
use mathlib.Core.List.{List, [], ◌∷◌}
use native.Mathlib.Omega.{arith}
use fca4j_project.Base.Tests.{◌==◌, ltb, Bool-cases, ==_iff}
use fca4j_project.Base.Lists.{length, get_or}
use fca4j_project.Base.Buckets.{items_of, below, KeysUpTo, below_suc, below_mono, below_zero}
use fca4j_project.Base.Stable.{IsStable}

module _ {ℓ} {A : Type ℓ} (key : A → ℕ) where
  -- A position of the sorted list is that of some item of some key.
  locate :
      (xs : List A) (m p : ℕ)
      → p < below key m xs
      → (v : ℕ) × (j : ℕ) × (v < m) × (j < length (items_of key v xs)) × (p ≡ below key v xs + j)
  locate xs zero p l = absurd (omega (arith, l, below_zero key xs))
  locate xs (suc m) p l = elim (Bool-cases (ltb p (below key m xs))) [
    | inl lower ↦
        let (v, j, lt, inside, e) = locate xs m p (ground arith) in (v, j, omega arith, inside, e)
    | inr upper ↦ (
      m,
      p - below key m xs,
      omega arith,
      ground (arith, upper, below_suc key m xs, l),
      ground (arith, upper),
    )
  ]

  below_all : (m : ℕ) (xs : List A) → KeysUpTo key m xs → below key (m + 1) xs ≡ length xs
  below_all m [] keys = refl
  below_all m (x ∷ xs) keys = ground (arith, keys.0, below_all m xs keys.1)

  key_of_items :
      (v : ℕ) (xs : List A) (j : ℕ) (d : A)
      → j < length (items_of key v xs)
      → key (get_or (items_of key v xs) j d) ≡ v
  key_of_items v [] j d l = absurd (omega arith)
  key_of_items v (x ∷ xs) zero d l = elim (Bool-cases (key x == v)) [
    | inl e ↦ rw e ((==_iff (key x) v).0 e)
    | inr e ↦ rw e (key_of_items v xs zero d (rw e at l))
  ]
  key_of_items v (x ∷ xs) (suc j) d l = elim (Bool-cases (key x == v)) [
    | inl e ↦
        let l' : suc j < suc (length (items_of key v xs)) = rw e at l in
        rw e (key_of_items v xs j d (omega arith))
    | inr e ↦ rw e (key_of_items v xs (suc j) d (rw e at l))
  ]

  -- The keys of a stable sort ascend.
  pub IsStable-ascends :
      (m : ℕ) (xs sorted : List A) (d : A) (p q : ℕ)
      → KeysUpTo key m xs
      → IsStable key m xs sorted
      → p ≤ q
      → q < length xs
      → key (get_or sorted p d) ≤ key (get_or sorted q d)
  IsStable-ascends m xs sorted d p q keys s le l =
      let all = below_all m xs keys in
      let (v, j, vm, jl, at_p) = locate xs (m + 1) p (omega (arith, all)) in
      let (w, k, wm, kl, at_q) = locate xs (m + 1) q (omega (arith, all)) in
      let key_p : key (get_or sorted p d) ≡ v =
        ap (λ t. key (get_or sorted t d)) at_p
        ∙ (ap key (s.stands v j d (omega arith) jl) ∙ key_of_items v xs j d jl) in
      let key_q : key (get_or sorted q d) ≡ w =
        ap (λ t. key (get_or sorted t d)) at_q
        ∙ (ap key (s.stands w k d (omega arith) kl) ∙ key_of_items w xs k d kl) in
      let order : v ≤ w = elim (Bool-cases (ltb w v)) [
        | inr e ↦ ground arith
        | inl e ↦
            let lt : w + 1 ≤ v = ground arith in
            absurd
              (omega (arith, at_p, at_q, kl, below_suc key w xs, below_mono key (w + 1) v xs lt))
      ] in
      omega (arith, key_p, key_q, order)
