-- ===== src/Closure.antt =====
-- core/closure.c: the derivation operators of formal concept analysis and the closure.
pub mod Derivation
pub mod Laws
pub mod Examples
use fca4j_project.Base.{ℕ, List, foldl, if◌then◌else◌, ltb, for_to}
use fca4j_project.Roaring.{Roaring}
use fca4j_project.Context.{BinaryContext, row, col}

module _ {B : Type 0} ⦃R : Roaring B⦄ where
  open R use {create, add, add_range, and, or, is_subset, to_list, cardinality}

  -- The objects that have all of `attributes`: by columns where these are fewer, else by rows.
  unfoldable pub compute_extent : BinaryContext B → B → B
  compute_extent ctx attributes =
      if ltb ctx.nb_attributes ctx.nb_objects
      then foldl (λ extent a. and extent (col ctx a)) (add_range create 0 ctx.nb_objects)
          (to_list attributes)
      else for_to ctx.nb_objects
          (λ o extent. if is_subset attributes (row ctx o) then add extent o else extent) create

  unfoldable pub compute_intent : BinaryContext B → B → B
  compute_intent ctx extent =
      if ltb (cardinality extent) ctx.nb_attributes
      then foldl (λ intent o. and intent (row ctx o)) (add_range create 0 ctx.nb_attributes)
          (to_list extent)
      else for_to ctx.nb_attributes
          (λ a intent. if is_subset extent (col ctx a) then add intent a else intent) create

  unfoldable pub closure : BinaryContext B → B → B
  closure ctx attr_set =
      let ext = compute_extent ctx attr_set in or (compute_intent ctx ext) attr_set
