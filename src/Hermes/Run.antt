-- ===== src/Hermes/Run.antt =====
-- algo/hermes.c: both clarifications, the concepts of the objects and of the dominating attributes, and
-- the entry points.
use fca4j_project.Base.{
  ℕ, zero, suc, ◌+◌, Bool, true, false, List, [], ◌∷◌, ◌++◌, Option, some, length, if◌then◌else◌,
  ltb, for_to, set,
}
use fca4j_project.Roaring.{Roaring}
use fca4j_project.Context.{BinaryContext, row, col}
use fca4j_project.ConceptOrder.{ConceptOrder, co_create}
use fca4j_project.ConceptOrder.Flat.{co_to_flat_array}
use fca4j_project.ConceptOrder.Json.{co_to_json}
use fca4j_project.AddExtent.{◌>>=◌}
use fca4j_project.Hermes.{
  RefSet, HconceptSet, refset, refset_create_with_ref, refset_create_with_ref_and_values,
}
use fca4j_project.Hermes.Clarify.{hermes_clarify, hermes_compute_dom_relation}
use fca4j_project.Hermes.Hasse.{cset, hermes_compute_hasse}

module _ {B : Type 0} ⦃R : Roaring B⦄ where
  open R use {create, or, equals}

  -- The attribute sets and the object sets, both clarified.
  unfoldable pub clarified_sets :
      (List (RefSet B) → List (RefSet B))
      → BinaryContext B
      → Option (List (RefSet B) × List (RefSet B))
  clarified_sets qsort ctx =
      if ltb ctx.nb_objects ctx.nb_attributes
      then (hermes_clarify qsort
            (for_to ctx.nb_attributes
              (λ a s. s ++ refset_create_with_ref_and_values a (col ctx a) ∷ []) [])
            (for_to ctx.nb_objects (λ o s. s ++ refset_create_with_ref o ∷ []) [])
          >>= λ first. hermes_clarify qsort first.1 first.0 >>= λ second. some (second.1, second.0))
      else (hermes_clarify qsort
            (for_to ctx.nb_objects
              (λ o s. s ++ refset_create_with_ref_and_values o (row ctx o) ∷ []) [])
            (for_to ctx.nb_attributes (λ a s. s ++ refset_create_with_ref a ∷ []) [])
          >>= λ first. hermes_clarify qsort first.1 first.0 >>= λ second. some (second.0, second.1))

  -- The concepts of the object classes.
  unfoldable pub object_sets : List (RefSet B) → List (HconceptSet B)
  object_sets obj_sets =
      for_to (length obj_sets)
        (λ i cs.
          let s = refset obj_sets i in
          cs ++ record { intent = create; extent = s.refs; values = s.values } ∷ [])
        []

  -- An attribute class joins the first concept with the same values, or makes one of its own; `left`
  -- concepts from `j` on are to be looked at.
  unfoldable pub join_concept : ℕ → ℕ → RefSet B → List (HconceptSet B) → List (HconceptSet B)
  join_concept zero j dom concepts =
      concepts ++ record { intent = dom.refs; extent = create; values = dom.values } ∷ []
  join_concept (suc left) j dom concepts = elim (equals dom.values (cset concepts j).values) [
    | true ↦
        set concepts j (record (cset concepts j) { intent = or (cset concepts j).intent dom.refs })
    | false ↦ join_concept left (j + 1) dom concepts
  ]

  unfoldable pub concept_sets : List (RefSet B) → List (RefSet B) → List (HconceptSet B)
  concept_sets attr_sets obj_sets =
      let dom_sets = hermes_compute_dom_relation attr_sets in
      for_to (length dom_sets) (λ i cs. join_concept (length cs) 0 (refset dom_sets i) cs)
        (object_sets obj_sets)

  unfoldable pub build_hermes :
      ℕ → (List (RefSet B) → List (RefSet B)) → BinaryContext B → Bool → Option (ConceptOrder B)
  build_hermes fuel qsort ctx full_sets = clarified_sets qsort ctx >>= λ sets.
      hermes_compute_hasse fuel (co_create ctx) ctx (concept_sets sets.0 sets.1) full_sets

  unfoldable pub run_hermes_flat :
      ℕ → (List (RefSet B) → List (RefSet B)) → Bool → BinaryContext B → Option (Option (List ℕ))
  run_hermes_flat fuel qsort allocated ctx =
      build_hermes fuel qsort ctx false >>= λ gsh. some (co_to_flat_array allocated gsh)

  unfoldable pub run_hermes_impl :
      ℕ → (List (RefSet B) → List (RefSet B)) → BinaryContext B → Option (List ℕ)
  run_hermes_impl fuel qsort ctx = build_hermes fuel qsort ctx true >>= λ gsh. some (co_to_json gsh)
