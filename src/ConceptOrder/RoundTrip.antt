-- ===== src/ConceptOrder/RoundTrip.antt =====
-- `co_to_flat_array` fills the array that it allocates, and the reader of the format gives back the
-- edges and the reduced sets that were written.
use fca4j_project.Base.{
  ℕ, zero, suc, ◌+◌, ◌*◌, ◌≡◌, refl, ap, sym, ◌∙◌, true, List, [], ◌∷◌, ◌++◌, some, foldl, for_to,
  length, arith, length-append, length-map, map,
}
use mathlib.Core.List.{append_assoc, append-nil}
use mathlib.Core.Option.{some-injective}
use mathlib.Core.Path.{ap₂}
use fca4j_project.Roaring.{Roaring}
use fca4j_project.DGraph.{bitmap_at, parents_of}
use fca4j_project.ConceptOrder.{ConceptOrder}
use fca4j_project.ConceptOrder.Flat.{
  push, flat_edge_count, flat_total, flat_edges, flat_set, flat_concepts, co_to_flat_array,
}
use fca4j_project.ConceptOrder.Decode.{
  edge, pairs_ints, set_ints, concepts_ints, decode, decode-ints, pairs_ints-append,
  concepts_ints-append, length-pairs_ints, foldl-push, foldl-pairs, length-concepts_ints,
}

module _ {B : Type 0} ⦃R : Roaring B⦄ where
  open R use {to_list, cardinality, cardinality_lem}

  flat_set_lem : (s : B) (buf : List ℕ) → flat_set s buf ≡ buf ++ set_ints (to_list s)
  unfolding flat_set
  flat_set_lem s buf =
      foldl-push (push buf (cardinality s)) (to_list s)
      ∙ append_assoc buf (cardinality s ∷ []) (to_list s)
      ∙ ap (λ (n : ℕ). buf ++ n ∷ to_list s) (cardinality_lem s)

  -- The edges and the reduced sets of the concepts below `n`, in the order of the ids.
  abbrev pub edges_of : ConceptOrder B → ℕ → List (ℕ × ℕ)
  edges_of co n = for_to n (λ c es. es ++ map (edge c) (to_list (parents_of co.graph c))) []

  abbrev pub concepts_of : ConceptOrder B → ℕ → List (List ℕ × List ℕ)
  concepts_of co n =
      for_to n
        (λ c cs. cs ++ (to_list (bitmap_at co.rextents c), to_list (bitmap_at co.rintents c)) ∷ [])
        []

  module _ (co : ConceptOrder B) where
    edges-loop :
        (n : ℕ) (buf : List ℕ)
        → for_to n
            (λ c b. foldl (λ b parent. push (push b c) parent) b (to_list (parents_of co.graph c)))
            buf
          ≡ buf ++ pairs_ints (edges_of co n)
    edges-loop zero buf = sym (append-nil buf)
    edges-loop (suc n) buf =
        let ps = to_list (parents_of co.graph n) in
        rw
          (
            edges-loop n buf,
            foldl-pairs n (buf ++ pairs_ints (edges_of co n)) ps,
            pairs_ints-append (edges_of co n) (map (edge n) ps),
          )
          (append_assoc buf (pairs_ints (edges_of co n)) (pairs_ints (map (edge n) ps)))

    concepts-loop :
        (n : ℕ) (buf : List ℕ)
        → for_to n
            (λ c b. flat_set (bitmap_at co.rintents c) (flat_set (bitmap_at co.rextents c) b))
            buf
          ≡ buf ++ concepts_ints (concepts_of co n)
    concepts-loop zero buf = sym (append-nil buf)
    concepts-loop (suc n) buf =
        rw (concepts-loop n buf)
          (simp (flat_set_lem, concepts_ints-append, append_assoc, append-nil))

    length-edges_of :
        (n : ℕ)
        → for_to n (λ c e. e + cardinality (parents_of co.graph c)) 0 ≡ length (edges_of co n)
    length-edges_of zero = refl
    length-edges_of (suc n) =
        let ps = to_list (parents_of co.graph n) in
        omega (
          arith,
          length-edges_of n,
          length-append (edges_of co n) (map (edge n) ps),
          length-map (edge n) ps,
          cardinality_lem (parents_of co.graph n),
        )

    length-concepts_of : (n : ℕ) → length (concepts_of co n) ≡ n
    length-concepts_of zero = refl
    length-concepts_of (suc n) =
        let last : List (List ℕ × List ℕ) =
          (to_list (bitmap_at co.rextents n), to_list (bitmap_at co.rintents n)) ∷ [] in
        omega (arith, length-concepts_of n, length-append (concepts_of co n) last)

    flat_total_lem :
        (n start : ℕ)
        → for_to n
            (λ c total.
              (total + (1 + cardinality (bitmap_at co.rextents c)))
              + (1 + cardinality (bitmap_at co.rintents c)))
            start
          ≡ start + length (concepts_ints (concepts_of co n))
    flat_total_lem zero start = omega arith
    flat_total_lem (suc n) start =
        let re = bitmap_at co.rextents n in
        let ri = bitmap_at co.rintents n in
        omega (
          arith,
          flat_total_lem n start,
          cardinality_lem re,
          cardinality_lem ri,
          length-concepts_ints (concepts_of co n) (to_list re) (to_list ri),
        )

    -- Where the allocation succeeds, the array written has exactly the length allocated, and the
    -- reader of the format gives back from it the edges, child before parent, and the reduced
    -- extent and intent of each concept, in the order of the ids.
    pub decode-flat :
        (flat : List ℕ)
        → co_to_flat_array true co ≡ some flat
        → (length flat ≡ flat_total co)
          × (decode flat ≡ some (edges_of co co.counter, concepts_of co co.counter))
    unfolding co_to_flat_array flat_total flat_edge_count flat_edges flat_concepts
    decode-flat flat e =
        let es = edges_of co co.counter in
        let cs = concepts_of co co.counter in
        let n = co.counter in
        let start = push (push [] n) (flat_edge_count co) in
        let written =
          concepts-loop n (flat_edges co start)
          ∙ ap (λ b. b ++ concepts_ints cs) (edges-loop n start) in
        let body : flat ≡ length cs ∷ length es ∷ (pairs_ints es ++ concepts_ints cs) =
          some-injective flat (flat_concepts co (flat_edges co start)) (sym e)
          ∙ written
          ∙ ap₂ (λ (a b : ℕ). a ∷ b ∷ (pairs_ints es ++ concepts_ints cs))
              (sym (length-concepts_of n)) (length-edges_of n) in
        (
          omega (
            arith,
            ap length body,
            length-append (pairs_ints es) (concepts_ints cs),
            length-pairs_ints es,
            length-edges_of n,
            flat_total_lem n (2 + 2 * flat_edge_count co),
          ),
          ap decode body ∙ decode-ints es cs,
        )
