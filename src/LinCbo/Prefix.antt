-- ===== src/LinCbo/Prefix.antt =====
-- algo/lincbo.c: `lincbo_equals_until` compares the two sets below the bound.
use fca4j_project.Base.{
  ℕ, ◌+◌, ◌<◌, ◌≡◌, ◌↔◌, refl, true, false, ◌&&◌, List, [], ◌∷◌, leb, ltb, ◌==◌, elem, Above,
  Ascending, elem-Above, Bool-cases, inl, inr, arith, sym, ◌∙◌, ap, ==_iff, ◌||◌, &&_iff, lt_iff,
}
use mathlib.Core.Path.{subst}
use fca4j_project.Roaring.{Roaring}
use fca4j_project.LinCbo.{equals_until, lincbo_equals_until}

abbrev AgreeBelow : ℕ → List ℕ → List ℕ → Type 0
AgreeBelow from xs ys = (v : ℕ) → v < from → elem v xs ≡ elem v ys

Above-mono : (m n : ℕ) (xs : List ℕ) → n < m → Above m xs → Above n xs
Above-mono m n [] lt h = tt
Above-mono m n (x ∷ xs) lt h = (omega arith, h.1)

-- An element at or below the bound of the list is not in it.
elem-Above-false : (m x : ℕ) (xs : List ℕ) → Above m xs → x < m + 1 → elem x xs ≡ false
elem-Above-false m x xs h lt = elim (Bool-cases (elem x xs)) [
  | inl e ↦ absurd (omega (arith, elem-Above m x xs h e))
  | inr e ↦ e
]

Ascending-tail : (m : ℕ) (xs : List ℕ) → Above m xs → Ascending xs
Ascending-tail m [] h = tt
Ascending-tail m (x ∷ xs) h = h.1

-- A list that starts at the bound or above has no element below it.
starts-Above :
    (from x : ℕ) (xs : List ℕ)
    → Above x xs
    → (v : ℕ) → v < from
    → leb from x ≡ true
    → elem v (x ∷ xs) ≡ false
starts-Above from x xs h v lt le = ground (arith, elem-Above-false x v xs h)

-- A list that starts below the bound, and one that does not hold this element, disagree.
agree_start :
    (from x : ℕ) (xs ys : List ℕ)
    → AgreeBelow from (x ∷ xs) ys
    → elem x ys ≡ false
    → leb from x ≡ true
agree_start from x xs ys agree out = ground (arith, agree x)

elem_lt_start : (x y : ℕ) (ys : List ℕ) → Above y ys → x < y → elem x (y ∷ ys) ≡ false
elem_lt_start x y ys h lt = ground (arith, elem-Above-false y x ys h)

agree_tails :
    (from x : ℕ) (xs ys : List ℕ)
    → Above x xs
    → Above x ys
    → AgreeBelow from (x ∷ xs) (x ∷ ys)
    → AgreeBelow from xs ys
agree_tails from x xs ys a b agree v lt = elim (Bool-cases (v == x)) [
  | inl e ↦
      let same = (==_iff v x).0 e in
      let at_most : v < x + 1 = omega (arith, same) in
      elem-Above-false x v xs a at_most ∙ sym (elem-Above-false x v ys b at_most)
  | inr e ↦ ground (arith, e, agree v lt)
]

agree_cons :
    (from x : ℕ) (xs ys : List ℕ) → AgreeBelow from xs ys → AgreeBelow from (x ∷ xs) (x ∷ ys)
agree_cons from x xs ys agree v lt = ap (λ b. v == x || b) (agree v lt)

heads_agree :
    (from x y : ℕ) (xs ys : List ℕ)
    → Above x xs
    → Above y ys
    → x == y ≡ false
    → (leb from x && leb from y ≡ true) ↔ AgreeBelow from (x ∷ xs) (y ∷ ys)
heads_agree from x y xs ys a b ne = (
  λ le v lt.
      starts-Above from x xs a v lt ((&&_iff (leb from x) (leb from y)).0 le).0
      ∙ sym (starts-Above from y ys b v lt ((&&_iff (leb from x) (leb from y)).0 le).1),
  λ agree.
      let back : AgreeBelow from (y ∷ ys) (x ∷ xs) = λ v lt. sym (agree v lt) in
      elim (Bool-cases (ltb x y)) [
        | inl lt ↦
            let below : leb from x ≡ true =
              agree_start from x xs (y ∷ ys) agree (elem_lt_start x y ys b ((lt_iff x y).0 lt)) in
            ground arith
        | inr ge ↦
            let lt : y < x = ground arith in
            let below : leb from y ≡ true =
              agree_start from y ys (x ∷ xs) back (elem_lt_start y x xs a lt) in
            ground arith
      ],
)

equals_until_iff :
    (from : ℕ) (xs ys : List ℕ)
    → Ascending xs
    → Ascending ys
    → (equals_until from xs ys ≡ true) ↔ AgreeBelow from xs ys
unfolding equals_until
equals_until_iff from [] [] a b = (λ _ v lt. refl, λ _. refl)
equals_until_iff from [] (y ∷ ys) a b = (
  λ le v lt. sym (starts-Above from y ys b v lt le),
  λ agree. agree_start from y ys [] (λ v lt. sym (agree v lt)) refl,
)
equals_until_iff from (x ∷ xs) [] a b =
    (λ le v lt. starts-Above from x xs a v lt le, λ agree. agree_start from x xs [] agree refl)
equals_until_iff from (x ∷ xs) (y ∷ ys) a b = elim (Bool-cases (x == y)) [
  | inl e ↦
      let tails = equals_until_iff from xs ys (Ascending-tail x xs a) (Ascending-tail y ys b) in
      let same = (==_iff x y).0 e in
      let b' : Above x ys = subst (λ z. Above z ys) (sym same) b in
      rw (e, equals_until)
        (
          λ eq.
              subst (λ z. AgreeBelow from (x ∷ xs) (z ∷ ys)) same
                (agree_cons from x xs ys (tails.0 eq)),
          λ agree. tails.1 (
              agree_tails from x xs ys a b'
                (subst (λ z. AgreeBelow from (x ∷ xs) (z ∷ ys)) (sym same) agree)),
        )
  | inr e ↦ rw (e, equals_until) (heads_agree from x y xs ys a b e)
]

module _ {B : Type 0} ⦃R : Roaring B⦄ where
  open R use {contains, to_list, elem-to_list, to_list-Ascending}

  -- `lincbo_equals_until` holds exactly when the two sets have the same elements below the
  -- bound `from` (the attributes up to `y`).
  pub lincbo_equals_until_iff :
      (s1 s2 : B) (from : ℕ)
      → (lincbo_equals_until s1 s2 from ≡ true)
        ↔ ((v : ℕ) → v < from → contains s1 v ≡ contains s2 v)
  unfolding lincbo_equals_until
  lincbo_equals_until_iff s1 s2 from =
      let lists =
        equals_until_iff from (to_list s1) (to_list s2) (to_list-Ascending s1)
          (to_list-Ascending s2) in
      (
        λ e v lt. sym (elem-to_list s1 v) ∙ lists.0 e v lt ∙ elem-to_list s2 v,
        λ agree. lists.1 (λ v lt. elem-to_list s1 v ∙ agree v lt ∙ sym (elem-to_list s2 v)),
      )
