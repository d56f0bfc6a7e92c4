-- ===== src/ConceptOrder/Json.antt =====
-- core/conceptorder.c, co_to_json: the order as JSON text.
use fca4j_project.Base.{ℕ, true, List, ◌++◌, if◌then◌else◌, ltb, for_to}
use fca4j_project.Roaring.{Roaring}
use fca4j_project.DGraph.{bitmap_at, children_of}
use fca4j_project.StrBuf.{StrBuf, sb_new, sb_append, sb_printf}
use fca4j_project.StrBuf.Arrays.{codes, decimal, sb_append_name, sb_append_items}
use fca4j_project.ConceptOrder.{ConceptOrder}
use fca4j_project.ConceptOrder.Flat.{flat_edge_count}

module _ {B : Type 0} ⦃R : Roaring B⦄ where
  open R use {to_list, cardinality}

  -- The body of the loop for concept `c`.
  unfoldable pub concept_json : ConceptOrder B → ℕ → StrBuf → StrBuf
  concept_json co c sb =
      let opened =
        sb_printf (if ltb 0 c then sb_append sb (codes ",") else sb)
          (codes "{\"id\":" ++ decimal c ++ codes ",\"rintent\":[") in
      let rintent =
        sb_append_items (sb_append_name co.ctx.attr_names) true (to_list (bitmap_at co.rintents c))
          opened in
      let rextent =
        sb_append_items (sb_append_name co.ctx.obj_names) true (to_list (bitmap_at co.rextents c))
          (sb_append rintent (codes "],\"rextent\":[")) in
      let cards = sb_printf rextent (
        codes "],\"ext_card\":"
        ++ decimal (cardinality (bitmap_at co.extents c))
        ++ codes ",\"int_card\":"
        ++ decimal (cardinality (bitmap_at co.intents c))
        ++ codes ",\"children\":[") in
      let children =
        sb_append_items (λ s i. sb_printf s (decimal i)) true (to_list (children_of co.graph c))
          cards in
      sb_append children (codes "]}")

  -- The edges are counted as in the flat array.
  unfoldable pub co_to_json : ConceptOrder B → List ℕ
  co_to_json co =
      let head = sb_printf sb_new (
        codes "{\"concepts\":"
        ++ decimal co.counter
        ++ codes ",\"objects\":"
        ++ decimal co.ctx.nb_objects
        ++ codes ",\"attributes\":"
        ++ decimal co.ctx.nb_attributes
        ++ codes ",") in
      let counted =
        sb_printf head
          (codes "\"edge_count\":" ++ decimal (flat_edge_count co) ++ codes ",\"lattice\":[") in
      (sb_append (for_to co.counter (concept_json co) counted) (codes "]}")).text
