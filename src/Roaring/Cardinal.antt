-- ===== src/Roaring/Cardinal.antt =====
-- A proper subset has fewer elements.
use fca4j_project.Base.{
  ℕ, ◌+◌, ◌≤◌, ◌<◌, ◌≡◌, refl, ◌∙◌, ap, sym, true, ◌⊎◌, inl, inr, List, [], ◌∷◌, length, elem, ◌==◌,
  Above, Ascending, arith, ==_refl, ==_iff, Bool-cases, elem-Above,
}
use mathlib.Core.Path.{subst}
use fca4j_project.Roaring.{Roaring}
use fca4j_project.Roaring.Sets.{Subset, Below}

abbrev Within : List ℕ → List ℕ → Type 0
Within xs ys = (x : ℕ) → elem x xs ≡ true → elem x ys ≡ true

Above-Ascending : (m : ℕ) (xs : List ℕ) → Above m xs → Ascending xs
Above-Ascending m [] a = tt
Above-Ascending m (x ∷ xs) a = a.1

Within-nil : (x : ℕ) (xs : List ℕ) → ¬ Within (x ∷ xs) []
Within-nil x xs w = cc (w x (ground (arith, ==_refl x)))

-- Behind equal heads.
Within-tails : (x : ℕ) (xs ys : List ℕ) → Above x xs → Within (x ∷ xs) (x ∷ ys) → Within xs ys
Within-tails x xs ys a w z e =
    let above = elem-Above x z xs a e in ground (arith, w z (ground arith), above)

-- A smaller head on the right is not needed.
Within-drop :
    (x y : ℕ) (xs ys : List ℕ) → Above x xs → y < x → Within (x ∷ xs) (y ∷ ys) → Within (x ∷ xs) ys
Within-drop x y xs ys a lt w z e = elim (Bool-cases (z == x)) [
  | inl same ↦ ground (arith, w z e)
  | inr other ↦ let above = elem-Above x z xs a (ground arith) in ground (arith, w z e)
]

head-le : (x y : ℕ) (xs ys : List ℕ) → Above y ys → Within (x ∷ xs) (y ∷ ys) → y ≤ x
head-le x y xs ys a w = elim (Bool-cases (x == y)) [
  | inl same ↦ ground arith
  | inr other ↦
      let here : elem x (y ∷ ys) ≡ true = w x (ground (arith, ==_refl x)) in
      omega (arith, elem-Above y x ys a (ground arith))
]

fewer_or_same :
    (xs ys : List ℕ)
    → Ascending xs
    → Ascending ys
    → Within xs ys
    → (length xs < length ys) ⊎ ((length xs ≡ length ys) × Within ys xs)
fewer_or_same [] [] a b w = inr (refl, w)
fewer_or_same [] (y ∷ ys) a b w = inl (omega arith)
fewer_or_same (x ∷ xs) [] a b w = absurd (Within-nil x xs w)
fewer_or_same (x ∷ xs) (y ∷ ys) a b w = elim (Bool-cases (x == y)) [
  | inl same ↦
      let e : x ≡ y = (==_iff x y).0 same in
      let tails = Within-tails x xs ys a (subst (λ z. Within (x ∷ xs) (z ∷ ys)) (sym e) w) in
      elim (fewer_or_same xs ys (Above-Ascending x xs a) (Above-Ascending y ys b) tails) [
        | inl fewer ↦ inl (omega arith)
        | inr (n, back) ↦ inr (omega arith, λ z h. ground (arith, back z))
      ]
  | inr other ↦
      let below : y < x = ground (arith, head-le x y xs ys b w) in
      elim (fewer_or_same (x ∷ xs) ys a (Above-Ascending y ys b)
        (Within-drop x y xs ys a below w)) [
          | inl fewer ↦ inl (omega arith)
          | inr (e, _) ↦ inl (omega arith)
        ]
]

Above-length :
    (m n : ℕ) (xs : List ℕ)
    → Above m xs
    → ((x : ℕ) → elem x xs ≡ true → x < n)
    → m < n
    → length xs + m < n
Above-length m n [] a below lt = omega arith
Above-length m n (x ∷ xs) a below lt = omega (
  arith,
  Above-length x n xs a.1 (λ y e. below y (ground arith)) (below x (ground (arith, ==_refl x))),
)

Ascending-length :
    (n : ℕ) (xs : List ℕ) → Ascending xs → ((x : ℕ) → elem x xs ≡ true → x < n) → length xs ≤ n
Ascending-length n [] a below = omega arith
Ascending-length n (x ∷ xs) a below = omega (
  arith,
  Above-length x n xs a (λ y e. below y (ground arith)) (below x (ground (arith, ==_refl x))),
)

-- Ascending lists of the same elements are equal.
Ascending-eq :
    (xs ys : List ℕ) → Ascending xs → Ascending ys → Within xs ys → Within ys xs → xs ≡ ys
Ascending-eq [] [] a b w v = refl
Ascending-eq [] (y ∷ ys) a b w v = absurd (Within-nil y ys v)
Ascending-eq (x ∷ xs) [] a b w v = absurd (Within-nil x xs w)
Ascending-eq (x ∷ xs) (y ∷ ys) a b w v =
    let e : x ≡ y = omega (arith, head-le x y xs ys b w, head-le y x ys xs a v) in
    let w' = Within-tails x xs ys a (subst (λ z. Within (x ∷ xs) (z ∷ ys)) (sym e) w) in
    let v' = Within-tails y ys xs b (subst (λ z. Within (y ∷ ys) (z ∷ xs)) e v) in
    let tails = Ascending-eq xs ys (Above-Ascending x xs a) (Above-Ascending y ys b) w' v' in
    ap (λ z. z ∷ xs) e ∙ ap (λ t. y ∷ t) tails

module _ {B : Type 0} ⦃R : Roaring B⦄ where
  open R use {
    cardinality, contains, equals, equals_iff, to_list, elem-to_list, to_list-Ascending,
    cardinality_lem,
  }

  -- A subset that does not include the whole has a smaller cardinality.
  pub cardinality-lt : (a b : B) → Subset a b → ¬ Subset b a → cardinality a < cardinality b
  cardinality-lt a b sub proper =
      elim (fewer_or_same (to_list a) (to_list b) (to_list-Ascending a) (to_list-Ascending b)
        (λ x e. elem-to_list b x ∙ sub x (sym (elem-to_list a x) ∙ e))) [
          | inl fewer ↦ omega (arith, cardinality_lem a, cardinality_lem b)
          | inr (n, back) ↦
              absurd (proper (λ x h. sym (elem-to_list a x) ∙ back x (elem-to_list b x ∙ h)))
        ]

  -- A subset has at most as many elements.
  pub cardinality_mono : (a b : B) → Subset a b → cardinality a ≤ cardinality b
  cardinality_mono a b sub =
      elim (fewer_or_same (to_list a) (to_list b) (to_list-Ascending a) (to_list-Ascending b)
        (λ x e. elem-to_list b x ∙ sub x (sym (elem-to_list a x) ∙ e))) [
          | inl fewer ↦ omega (arith, cardinality_lem a, cardinality_lem b)
          | inr (n, back) ↦ omega (arith, cardinality_lem a, cardinality_lem b)
        ]

  -- A set of indices below `n` has at most `n` elements.
  pub cardinality-le : (n : ℕ) (a : B) → Below n a → cardinality a ≤ n
  cardinality-le n a below = omega (
    arith,
    cardinality_lem a,
    Ascending-length n (to_list a) (to_list-Ascending a)
        (λ x e. below x (sym (elem-to_list a x) ∙ e)),
  )

  -- Equal sets are iterated alike.
  pub to_list-same : (a b : B) → equals a b ≡ true → to_list a ≡ to_list b
  to_list-same a b e =
      let same = (equals_iff a b).0 e in
      Ascending-eq (to_list a) (to_list b) (to_list-Ascending a) (to_list-Ascending b)
        (λ x h. elem-to_list b x ∙ sym (same x) ∙ sym (elem-to_list a x) ∙ h)
        (λ x h. elem-to_list a x ∙ same x ∙ sym (elem-to_list b x) ∙ h)
