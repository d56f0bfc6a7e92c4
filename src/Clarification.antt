-- ===== src/Clarification.antt =====
-- core/clarification.h and core/clarification.c: attributes with equal columns become one.
pub mod Partition
pub mod Outer
pub mod Round
pub mod Cover
pub mod Examples
use fca4j_project.Base.{
  ℕ, ◌+◌, ◌-◌, Bool, true, false, List, [], ◌∷◌, ◌++◌, Option, none, some, length, get_or, set,
  replicate, if◌then◌else◌, ltb, foldl, for_to,
}
use fca4j_project.Roaring.{Roaring}
use fca4j_project.Context.{
  BinaryContext, col, ctx_create, ctx_set, ctx_add_attr_name, ctx_add_obj_name,
}

pub record ClarificationResult (B : Type 0) : Type 0 where
  pub clarified : BinaryContext B
  -- for each clarified attribute, the attributes that it stands for
  pub attr_classes : List B
  pub nb_classes : ℕ

-- class_of with `none` for -1, and the vectors `classes` and `class_rep`.
pub record Classes (B : Type 0) : Type 0 where
  pub class_of : List (Option ℕ)
  pub classes : List B
  pub class_rep : List ℕ

-- class_of[a] >= 0
abbrev pub classified : List (Option ℕ) → ℕ → Bool
classified class_of a = elim (get_or class_of a none) [ none ↦ false | some c ↦ true ]

module _ {B : Type 0} ⦃R : Roaring B⦄ where
  open R use {create, contains, add, equals, to_list, minimum}

  -- One round of the inner loop, on attribute `b`.
  unfoldable pub join_class :
      BinaryContext B → ℕ → ℕ → ℕ → B × List (Option ℕ) → B × List (Option ℕ)
  join_class ctx a cls b s =
      if classified s.1 b
      then s
      else if equals (col ctx a) (col ctx b)
      then (add s.0 b, set s.1 b (some cls))
      else s

  -- One round of the outer loop, on attribute `a`.
  unfoldable pub classify : BinaryContext B → ℕ → Classes B → Classes B
  classify ctx a s =
      if classified s.class_of a
      then s
      else let cls = length s.classes in
        let joined =
          for_to (ctx.nb_attributes - (a + 1)) (λ k t. join_class ctx a cls (a + 1 + k) t)
            (add create a, set s.class_of a (some cls)) in
        record {
          class_of = joined.1;
          classes = s.classes ++ joined.0 ∷ [];
          class_rep = s.class_rep ++ a ∷ [];
        }

  unfoldable pub all_classes : BinaryContext B → Classes B
  all_classes ctx =
      for_to ctx.nb_attributes (classify ctx)
        (record { class_of = replicate ctx.nb_attributes none; classes = []; class_rep = [] })

  -- The column and the name of clarified attribute `ca`, from its representative.
  unfoldable pub copy_column : BinaryContext B → List ℕ → ℕ → BinaryContext B → BinaryContext B
  copy_column ctx class_rep ca clar =
      let rep = get_or class_rep ca 0 in
      let filled =
        for_to ctx.nb_objects (λ o c. if contains (col ctx rep) o then ctx_set c o ca true else c)
          clar in
      if ltb rep (length ctx.attr_names)
      then ctx_add_attr_name filled (get_or ctx.attr_names rep [])
      else filled

  unfoldable pub clarify_context : BinaryContext B → ClarificationResult B
  clarify_context ctx =
      let found = all_classes ctx in
      let nb = length found.classes in
      let columns =
        for_to nb (copy_column ctx found.class_rep) (ctx_create ctx.nb_objects nb ctx.name) in
      record {
        clarified =
            for_to ctx.nb_objects
              (λ o c.
                if ltb o (length ctx.obj_names)
                then ctx_add_obj_name c (get_or ctx.obj_names o [])
                else c)
              columns;
        attr_classes = found.classes;
        nb_classes = nb;
      }

  unfoldable pub convert_to_original : B → List B → B
  convert_to_original s attr_classes =
      foldl (λ result a. add result (minimum (get_or attr_classes a create))) create (to_list s)
