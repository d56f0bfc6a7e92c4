-- ===== src/Closure/Derivation.antt =====
-- Both branches of `compute_extent` and `compute_intent` compute the derivation operators.
use fca4j_project.Base.{
  ℕ, zero, suc, ◌<◌, ◌≡◌, ◌↔◌, ◌&&◌, foldl, if◌then◌else◌, ltb, for_to, sym, ◌∙◌, arith, Bool-cases,
  inl, inr, ◌==◌,
}
use fca4j_project.Roaring.{Roaring}
use fca4j_project.Roaring.Sets.{Has, all_visited}
use fca4j_project.Context.{BinaryContext, row, col, IsContext}
use fca4j_project.Closure.{compute_extent, compute_intent}

module _ {B : Type 0} ⦃R : Roaring B⦄ where
  open R use {
    create, contains, add, add_range, and, is_subset, to_list, cardinality, contains-create,
    contains-add, contains-add_range, contains-and, is_subset_iff, elem-to_list,
  }

  -- The first loop: start from all of `[0, n)` and intersect with a line for each item.
  meet_lines :
      (line : ℕ → B) (n : ℕ) (items : B) (x : ℕ)
      → Has (foldl (λ acc i. and acc (line i)) (add_range create 0 n) (to_list items)) x
        ↔ ((x < n) × ((i : ℕ) → Has items i → Has (line i) x))
  meet_lines line n items x =
      let visited =
        all_visited (λ s. Has s x) (λ i. Has (line i) x) (λ acc i. and acc (line i))
          (λ s i. ground (arith, contains-and s (line i) x)) (to_list items)
          (add_range create 0 n) in
      let start = contains-add_range create 0 n x in
      (
        λ h.
            let (a, b) = visited.0 h in
            (
              ground (arith, start, contains-create x),
              λ i hi. b i (ground (arith, elem-to_list items i)),
            ),
        λ h.
            visited.1
              (ground (arith, h.0, start), λ i e. h.1 i (ground (arith, elem-to_list items i))),
      )

  -- The second loop: keep the lines that include all the items.
  lines_above :
      (line : ℕ → B) (items : B) (x n : ℕ)
      → contains (for_to n (λ i acc. if is_subset items (line i) then add acc i else acc) create) x
        ≡ (ltb x n && is_subset items (line x))
  lines_above line items x zero = ground (arith, contains-create x)
  lines_above line items x (suc n) =
      let acc = for_to n (λ i acc. if is_subset items (line i) then add acc i else acc) create in
      elim (Bool-cases (x == n)) [
        | inl e ↦ ground (arith, lines_above line items x n, contains-add acc n x)
        | inr e ↦ ground (arith, lines_above line items x n, contains-add acc n x)
      ]

  -- The objects in the computed extent are exactly those of the context that have every
  -- attribute given, whichever of the two loops computes it.
  pub compute_extent_iff :
      (ctx : BinaryContext B) (attributes : B) (o : ℕ)
      → IsContext ctx
      → Has (compute_extent ctx attributes) o
        ↔ ((o < ctx.nb_objects) × ((a : ℕ) → Has attributes a → Has (row ctx o) a))
  unfolding compute_extent
  compute_extent_iff ctx attributes o c = elim (Bool-cases (ltb ctx.nb_attributes ctx.nb_objects)) [
    | inl few ↦
        let meets = meet_lines (col ctx) ctx.nb_objects attributes o in
        rw few (
          λ h. ((meets.0 h).0, λ a ha. c.agree o a ∙ (meets.0 h).1 a ha),
          λ h. meets.1 (h.0, λ a ha. sym (c.agree o a) ∙ h.1 a ha),
        )
    | inr many ↦
        let subset = is_subset_iff attributes (row ctx o) in
        rw (many, lines_above (row ctx) attributes o ctx.nb_objects)
          (λ h. (ground arith, subset.0 (ground arith)), λ h. ground (arith, h.0, subset.1 h.1))
  ]

  -- The attributes in the computed intent are exactly those of the context that every object
  -- given has, whichever of the two loops computes it.
  pub compute_intent_iff :
      (ctx : BinaryContext B) (extent : B) (a : ℕ)
      → IsContext ctx
      → Has (compute_intent ctx extent) a
        ↔ ((a < ctx.nb_attributes) × ((o : ℕ) → Has extent o → Has (row ctx o) a))
  unfolding compute_intent
  compute_intent_iff ctx extent a c =
      elim (Bool-cases (ltb (cardinality extent) ctx.nb_attributes)) [
        | inl few ↦ rw few (meet_lines (row ctx) ctx.nb_attributes extent a)
        | inr many ↦
            let subset = is_subset_iff extent (col ctx a) in
            rw (many, lines_above (col ctx) extent a ctx.nb_attributes)
              (
                λ h. (ground arith, λ o ho. c.agree o a ∙ subset.0 (ground arith) o ho),
                λ h. ground (arith, h.0, subset.1 (λ o ho. sym (c.agree o a) ∙ h.1 o ho)),
              )
      ]
