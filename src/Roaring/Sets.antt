-- ===== src/Roaring/Sets.antt =====
-- Bitmaps as sets: membership, inclusion, equality, and the iteration over a bitmap.
use fca4j_project.Base.{
  ℕ, ◌≡◌, sym, ◌↔◌, true, Bool-ext, List, [], ◌∷◌, foldl, elem, arith, ◌==◌, ==_refl, ==_iff,
  Bool-cases, inl, inr, ◌<◌,
}
use mathlib.Core.Path.{subst}
use fca4j_project.Roaring.{Roaring}

module _ {B : Type 0} ⦃R : Roaring B⦄ where
  open R use {contains, to_list, equals, is_subset, equals_iff, elem-to_list}

  -- `x` is in the bitmap.
  abbrev pub Has : B → ℕ → Type 0
  Has b x = contains b x ≡ true

  abbrev pub Subset : B → B → Type 0
  Subset a b = (x : ℕ) → contains a x ≡ true → contains b x ≡ true

  -- All elements lie below `n`.
  abbrev pub Below : ℕ → B → Type 0
  Below n b = (x : ℕ) → contains b x ≡ true → x < n

  abbrev pub SameSet : B → B → Type 0
  SameSet a b = (x : ℕ) → contains a x ≡ contains b x

  pub SameSet-of_subsets : (a b : B) → Subset a b → Subset b a → SameSet a b
  SameSet-of_subsets a b f g x = Bool-ext (contains a x) (contains b x) (f x) (g x)

-- What an iteration that only adds conditions computes: it holds of the start and of each item.
pub all_visited :
    {S : Type 0} (P : S → Type 0) (Q : ℕ → Type 0) (body : S → ℕ → S)
    → ((s : S) (x : ℕ) → P (body s x) ↔ (P s × Q x))
    → (xs : List ℕ) (s : S) → P (foldl body s xs) ↔ (P s × ((x : ℕ) → elem x xs ≡ true → Q x))
all_visited P Q body keep [] s = (λ p. (p, λ x e. absurd (ground arith)), λ h. h.0)
all_visited P Q body keep (y ∷ xs) s =
    let ih = all_visited P Q body keep xs (body s y) in
    (
      λ p.
          let (p', q) = ih.0 p in
          let (here, qy) = (keep s y).0 p' in (here, λ x e. elim_or x y xs e qy q),
      λ h.
          ih.1 ((keep s y).1 (h.0, h.1 y (ground (arith, ==_refl y))), λ x e. h.1 x (ground arith)),
    )
  where
    elim_or :
        (x y : ℕ) (xs : List ℕ)
        → elem x (y ∷ xs) ≡ true
        → Q y
        → ((x : ℕ) → elem x xs ≡ true → Q x)
        → Q x
    elim_or x y xs e qy q = elim (Bool-cases (x == y)) [
      | inl same ↦ subst Q (sym ((==_iff x y).0 same)) qy
      | inr other ↦ q x (ground arith)
    ]
