-- ===== src/ConceptOrder/Flat.antt =====
-- `co_to_flat_array`: the serialisation of an order as one array of integers. A write
-- `buf[p++] = v` is an append.
use fca4j_project.Base.{
  ℕ, ◌+◌, ◌*◌, Bool, List, [], ◌∷◌, ◌++◌, Option, none, some, foldl, for_to, if◌then◌else◌,
}
use fca4j_project.Roaring.{Roaring}
use fca4j_project.DGraph.{bitmap_at, parents_of}
use fca4j_project.ConceptOrder.{ConceptOrder}

-- buf[p++] = v
abbrev pub push : List ℕ → ℕ → List ℕ
push buf v = buf ++ v ∷ []

module _ {B : Type 0} ⦃R : Roaring B⦄ where
  open R use {to_list, cardinality}

  -- E
  unfoldable pub flat_edge_count : ConceptOrder B → ℕ
  flat_edge_count co = for_to co.counter (λ c e. e + cardinality (parents_of co.graph c)) 0

  -- The number of integers allocated.
  unfoldable pub flat_total : ConceptOrder B → ℕ
  unfolding flat_edge_count
  flat_total co =
      for_to co.counter
        (λ c total.
          (total + (1 + cardinality (bitmap_at co.rextents c)))
          + (1 + cardinality (bitmap_at co.rintents c)))
        (2 + 2 * flat_edge_count co)

  unfoldable pub flat_edges : ConceptOrder B → List ℕ → List ℕ
  flat_edges co =
      for_to co.counter
        (λ c buf. foldl (λ b parent. push (push b c) parent) buf (to_list (parents_of co.graph c)))

  unfoldable pub flat_set : B → List ℕ → List ℕ
  flat_set s buf = foldl push (push buf (cardinality s)) (to_list s)

  unfoldable pub flat_concepts : ConceptOrder B → List ℕ → List ℕ
  unfolding flat_set
  flat_concepts co =
      for_to co.counter
        (λ c buf. flat_set (bitmap_at co.rintents c) (flat_set (bitmap_at co.rextents c) buf))

  -- The allocation may fail, whatever the order: `none` is the NULL with *out_len = 0.
  unfoldable pub co_to_flat_array : Bool → ConceptOrder B → Option (List ℕ)
  co_to_flat_array allocated co =
      if allocated
      then some (flat_concepts co (flat_edges co (push (push [] co.counter) (flat_edge_count co))))
      else none
