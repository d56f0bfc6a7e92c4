-- ===== src/Ceres/Sort.antt =====
-- algo/ceres.c, sort_preconcepts_desc: the order that the blocks are treated in.
use fca4j_project.Base.{
  ℕ, ◌+◌, ◌-◌, ◌≤◌, ◌<◌, ◌≡◌, refl, sym, ◌∙◌, ap, Bool-cases, inl, inr, List, length, set,
  replicate, ◌==◌, ==_iff, arith, for_inv, length-set, length-replicate, get_or-set_self,
  get_or-set_ne,
}
use mathlib.Core.Path.{subst}
use fca4j_project.Base.Counting.{counting_sort}
use fca4j_project.Base.Buckets.{items_of, below, below-le, KeysUpTo, below_suc}
use fca4j_project.Base.Stable.{counting_sort-IsStable}
use fca4j_project.Base.Ascends.{IsStable-ascends}
use fca4j_project.Ceres.{PreConcept}
use fca4j_project.Ceres.Run.{pre, no_preconcept, copy_back, sort_preconcepts_desc}

-- The first `n` entries are copied, the last of `tmp` first.
record CopiedTo (tmp tab : List PreConcept) (n : ℕ) (out : List PreConcept) : Type 0 where
  same : length out ≡ length tab
  copied : (i : ℕ) → i < n → pre out i ≡ pre tmp (length tab - 1 - i)

copy_back-CopiedTo : (tmp tab : List PreConcept) → CopiedTo tmp tab (length tab) (copy_back tmp tab)
unfolding copy_back
copy_back-CopiedTo tmp tab =
    for_inv (λ n out. CopiedTo tmp tab n out) (λ i t. set t i (pre tmp (length tab - 1 - i)))
      (length tab) tab
      (λ n out l c.
        let v = pre tmp (length tab - 1 - n) in
        record {
          same = length-set out n v ∙ c.same;
          copied = λ i li. elim (Bool-cases (i == n)) [
            | inl e ↦
                subst (λ k. pre (set out n v) k ≡ pre tmp (length tab - 1 - k))
                  (sym ((==_iff i n).0 e))
                  (get_or-set_self out n v no_preconcept (omega (arith, c.same)))
            | inr e ↦
                get_or-set_ne out n i v no_preconcept (λ h. ground (arith, e, h))
                ∙ c.copied i (ground (arith, e))
          ];
        })
      (record { same = refl; copied = λ i l. absurd (omega arith) })

-- By descending cardinality of the extent, and the last one first where the cardinalities are
-- equal.
pub record IsReversed (m : ℕ) (tab out : List PreConcept) : Type 0 where
  pub same_length : length out ≡ length tab
  pub descends : (p q : ℕ) → p ≤ q → q < length tab → (pre out q).ext_card ≤ (pre out p).ext_card
  pub stands :
      (v j : ℕ)
      → v ≤ m
      → j < length (items_of (λ p. p.ext_card) v tab)
      → pre out (length tab - 1 - (below (λ p. p.ext_card) v tab + j))
        ≡ pre (items_of (λ p. p.ext_card) v tab) j

-- For pre-concepts whose cardinalities are at most the number of objects, `sort_preconcepts_desc`
-- gives a table of the same size in which the cardinalities descend, and the j-th pre-concept of a
-- cardinality stands before all those of smaller cardinalities and before the j earlier ones of
-- the same cardinality: pre-concepts of equal cardinality come out in the reverse order.
pub sort_preconcepts_desc-IsReversed :
    (tab : List PreConcept) (nb_obj : ℕ)
    → KeysUpTo (λ p. p.ext_card) nb_obj tab
    → IsReversed nb_obj tab (sort_preconcepts_desc tab nb_obj)
unfolding sort_preconcepts_desc
sort_preconcepts_desc-IsReversed tab nb_obj keys =
    let key = λ (p : PreConcept). p.ext_card in
    let tmp = replicate (length tab) no_preconcept in
    let sorted = counting_sort key nb_obj tab tmp in
    let s =
      counting_sort-IsStable key nb_obj tab tmp (length-replicate (length tab) no_preconcept)
        keys in
    let c = copy_back-CopiedTo sorted tab in
    record {
      same_length = c.same;
      descends = λ p q le l.
          rw (c.copied p (omega arith), c.copied q l)
            (IsStable-ascends key nb_obj tab sorted no_preconcept (length tab - 1 - q)
              (length tab - 1 - p) keys s (omega arith) (omega arith));
      stands = λ v j le l.
          let at_j = below key v tab + j in
          let inside : at_j < length tab =
            omega (arith, l, below_suc key v tab, below-le key (v + 1) tab) in
          let back : length tab - 1 - (length tab - 1 - at_j) ≡ at_j = omega (arith, inside) in
          c.copied (length tab - 1 - at_j) (omega (arith, inside))
          ∙ ap (λ i. pre sorted i) back
          ∙ s.stands v j no_preconcept le l;
    }
