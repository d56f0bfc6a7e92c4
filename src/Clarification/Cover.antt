-- ===== src/Clarification/Cover.antt =====
-- core/clarification.c: the classes of `clarify_context` are those of equal columns.
use fca4j_project.Base.{
  ℕ, zero, suc, ◌<◌, ◌≤◌, ◌≡◌, ◌↔◌, sym, ◌∙◌, ap, true, [], Option, none, some, get_or, replicate,
  for_to, arith, ==_refl, length-replicate, get_or-replicate,
}
use fca4j_project.Roaring.{Roaring}
use fca4j_project.Context.{BinaryContext, col}
use fca4j_project.Clarification.{Classes, classify, all_classes, clarify_context}
use fca4j_project.Clarification.Partition.{is_class, is_some, in_class, classified_cell}
use fca4j_project.Clarification.Outer.{IsPartition}
use fca4j_project.Clarification.Round.{classify-IsPartition}

-- A cell that is set holds some class.
some_class : (o : Option ℕ) → is_some o ≡ true → (c : ℕ) × (is_class o c ≡ true)
some_class none e = absurd (ground arith)
some_class (some d) e = (d, ==_refl d)

module _ {B : Type 0} ⦃R : Roaring B⦄ where
  open R use {create, contains, equals}

  start-IsPartition :
      (ctx : BinaryContext B)
      → IsPartition ctx 0
          (record { class_of = replicate ctx.nb_attributes none; classes = []; class_rep = [] })
  start-IsPartition ctx = record {
    length_of = length-replicate ctx.nb_attributes none;
    members = λ x c h. absurd (omega arith);
    in_range = λ x c h. absurd (nobody x c h);
    columns = λ x y c d h _. absurd (nobody x c h);
    free = λ x y c h _ _. absurd (nobody x c h);
    done = λ x h. absurd (omega arith);
  }
    where
      nobody : (x c : ℕ) → ¬ (in_class (replicate ctx.nb_attributes none) x c ≡ true)
      nobody x c h =
          let cell = ap (λ o. is_class o c) (get_or-replicate ctx.nb_attributes x none) in
          ground (arith, cell, h)

  rounds-IsPartition :
      (ctx : BinaryContext B) (n : ℕ) (s : Classes B)
      → n ≤ ctx.nb_attributes
      → IsPartition ctx 0 s
      → IsPartition ctx n (for_to n (classify ctx) s)
  rounds-IsPartition ctx zero s le p = p
  rounds-IsPartition ctx (suc n) s le p =
      classify-IsPartition ctx n (for_to n (classify ctx) s) (omega arith)
        (rounds-IsPartition ctx n s (omega arith) p)

  -- The attribute `x` is in class `c` of the result.
  abbrev pub IsMember : BinaryContext B → ℕ → ℕ → Type 0
  IsMember ctx c x =
      (c < (clarify_context ctx).nb_classes)
      × (contains (get_or (clarify_context ctx).attr_classes c create) x ≡ true)

  -- The classes that `clarify_context` returns cover the attributes, and two attributes are in the
  -- same class exactly when their columns are equal; so no attribute is in two classes.
  pub clarify-IsMember :
      (ctx : BinaryContext B)
      → ((x : ℕ) → x < ctx.nb_attributes → (c : ℕ) × IsMember ctx c x)
        × ((x y c d : ℕ)
            → IsMember ctx c x
            → IsMember ctx d y
            → (equals (col ctx x) (col ctx y) ≡ true) ↔ (c ≡ d))
  unfolding clarify_context all_classes
  clarify-IsMember ctx =
      let p =
        rounds-IsPartition ctx ctx.nb_attributes
          (record { class_of = replicate ctx.nb_attributes none; classes = []; class_rep = [] })
          (omega arith) (start-IsPartition ctx) in
      (
        λ x h.
            let found = all_classes ctx in
            let (c, hc) =
              some_class (get_or found.class_of x none)
                (sym (classified_cell found.class_of x) ∙ p.done x h) in
            (c, (p.in_range x c hc, p.members x c (p.in_range x c hc) ∙ hc)),
        λ x y c d hx hy.
            p.columns x y c d (sym (p.members x c hx.0) ∙ hx.1) (sym (p.members y d hy.0) ∙ hy.1),
      )
