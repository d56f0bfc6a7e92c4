-- ===== src/AddExtent/Candidates.antt =====
-- The dominance filter keeps only ids that were in the list or the candidate.
use fca4j_project.Base.{
  ℕ, zero, suc, ◌-◌, ◌≤◌, ◌<◌, ◌≡◌, List, [], ◌∷◌, ◌++◌, length, get_or, set, take, arith,
  Bool-cases, inl, inr,
}
use fca4j_project.Roaring.{Roaring}
use fca4j_project.ConceptOrder.{ConceptOrder}
use fca4j_project.AddExtent.SwapRemove.{length-swap_remove}
use fca4j_project.AddExtent.{swap_remove, dominance, offer_child, extent_of}

-- Every id of the list satisfies `Q`.
abbrev pub All : (ℕ → Type 0) → List ℕ → Type 0
All Q [] = Unit
All Q (x ∷ xs) = Q x × All Q xs

module _ (Q : ℕ → Type 0) where
  pub All-get_or : (xs : List ℕ) (i : ℕ) → i < length xs → All Q xs → Q (get_or xs i 0)
  All-get_or [] i h a = absurd (omega arith)
  All-get_or (x ∷ xs) zero h a = a.0
  All-get_or (x ∷ xs) (suc i) h a = All-get_or xs i (omega arith) a.1

  All-set : (xs : List ℕ) (i v : ℕ) → Q v → All Q xs → All Q (set xs i v)
  All-set [] i v q a = tt
  All-set (x ∷ xs) zero v q a = (q, a.1)
  All-set (x ∷ xs) (suc i) v q a = (a.0, All-set xs i v q a.1)

  All-take : (n : ℕ) (xs : List ℕ) → All Q xs → All Q (take n xs)
  All-take zero xs a = tt
  All-take (suc n) [] a = tt
  All-take (suc n) (x ∷ xs) a = (a.0, All-take n xs a.1)

  All-append : (xs ys : List ℕ) → All Q xs → All Q ys → All Q (xs ++ ys)
  All-append [] ys a b = b
  All-append (x ∷ xs) ys a b = (a.0, All-append xs ys a.1 b)

  swap_remove-All :
      (l : List ℕ) (j : ℕ)
      → j < length l
      → All Q l
      → All Q (swap_remove l j) × (length (swap_remove l j) ≡ length l - 1)
  unfolding swap_remove
  swap_remove-All l j h a =
      let last = get_or l (length l - 1) 0 in
      (
        All-take (length l - 1) (set l j last)
            (All-set l j last (All-get_or l (length l - 1) (omega arith) a) a),
        length-swap_remove l j h,
      )

  module _ {B : Type 0} ⦃R : Roaring B⦄ (co : ConceptOrder B) (candidate : ℕ) where
    open R use {is_subset}

    dominance-All :
        (j : ℕ) (l : List ℕ) → j ≤ length l → All Q l → All Q (dominance co candidate j l).0
    unfolding dominance
    dominance-All zero l h a = a
    dominance-All (suc j) l h a =
        elim (Bool-cases (is_subset (extent_of co candidate) (extent_of co (get_or l j 0)))) [
          | inl dominated ↦ rw (dominated, dominance) a
          | inr free ↦
              elim (Bool-cases (is_subset (extent_of co (get_or l j 0)) (extent_of co candidate))) [
                | inl dominates ↦
                    let (kept, shorter) = swap_remove-All l j (omega arith) a in
                    rw (free, dominates, dominance)
                      (dominance-All j (swap_remove l j) (omega arith) kept)
                | inr apart ↦ rw (free, apart, dominance) (dominance-All j l (omega arith) a)
              ]
        ]

    pub offer_child-All : (l : List ℕ) → Q candidate → All Q l → All Q (offer_child co candidate l)
    unfolding offer_child
    offer_child-All l q a =
        let kept = (dominance co candidate (length l) l).0 in
        let kept-All = dominance-All (length l) l (omega arith) a in
        elim (Bool-cases (dominance co candidate (length l) l).1) [
          | inl joins ↦ rw joins (All-append kept (candidate ∷ []) kept-All (q, tt))
          | inr out ↦ rw out kept-All
        ]
