-- ===== src/ConceptOrder/Edges.antt =====
-- Adding and removing an edge between concepts keeps the order well formed, `maximals` and
-- `minimals` included.
use fca4j_project.Base.{
  ℕ, ◌<◌, ◌≡◌, refl, ◌∙◌, ◌↔◌, true, false, ◌&&◌, List, [], ◌∷◌, if◌then◌else◌, ◌==◌, arith,
  Bool-cases, inl, inr, elem, ==_iff, ==_refl,
}
use fca4j_project.Roaring.{Roaring}
use fca4j_project.DGraph.{children_of, parents_of, dgraph_add_edge, dgraph_remove_edge}
use fca4j_project.DGraph.Laws.{add_edge-IsGraph, remove_edge-IsGraph, edge-vertices}
use fca4j_project.ConceptOrder.{ConceptOrder, co_add_edge, co_remove_edge, IsOrder}

module _ {B : Type 0} ⦃R : Roaring B⦄ where
  open R use {
    create, contains, add, remove, is_empty, to_list, contains-add, contains-remove, is_empty_iff,
    elem-to_list,
  }

  -- A bitmap is empty exactly when it has no member.
  pub is_empty-none : (b : B) → (is_empty b ≡ true) ↔ ((x : ℕ) → contains b x ≡ false)
  is_empty-none b = (
    λ e x. ground (arith, (is_empty_iff b).0 e, elem-to_list b x, ap_elem x ((is_empty_iff b).0 e)),
    λ none_in. (is_empty_iff b).1 (nil_of_none (to_list b) (λ x. elem-to_list b x ∙ none_in x)),
  )
    where
      ap_elem : (x : ℕ) → to_list b ≡ [] → elem x (to_list b) ≡ false
      ap_elem x e = rw e

      nil_of_none : (xs : List ℕ) → ((x : ℕ) → elem x xs ≡ false) → xs ≡ []
      nil_of_none [] h = refl
      nil_of_none (y ∷ ys) h = absurd (ground (arith, h y, ==_refl y))

  -- The elements without a neighbour, when one neighbour is added and when one is taken away.
  module _ (adj adj' : ℕ → B) (extremes : B) (n v other : ℕ) where
    gains_neighbour :
        (c : ℕ)
        → ((contains extremes c ≡ true) ↔ ((c < n) × ((p : ℕ) → contains (adj c) p ≡ false)))
        → ((c p : ℕ)
            → contains (adj' c) p ≡ (if c == v && p == other then true else contains (adj c) p))
        → (contains (remove extremes v) c ≡ true)
          ↔ ((c < n) × ((p : ℕ) → contains (adj' c) p ≡ false))
    gains_neighbour c before change =
        let taken = contains-remove extremes v c in
        (
          λ m.
              let (lt, free) = before.0 (ground arith) in
              (lt, λ p. ground (arith, free p, change c p)),
          λ t.
              let was = before.1 (t.0, λ p. ground (arith, t.1 p, change c p)) in
              ground (arith, was, t.1 other, change c other),
        )

    loses_neighbour :
        (c : ℕ)
        → v < n
        → ((contains extremes c ≡ true) ↔ ((c < n) × ((p : ℕ) → contains (adj c) p ≡ false)))
        → ((c p : ℕ)
            → contains (adj' c) p ≡ (if c == v && p == other then false else contains (adj c) p))
        → (contains (if is_empty (adj' v) then add extremes v else extremes) c ≡ true)
          ↔ ((c < n) × ((p : ℕ) → contains (adj' c) p ≡ false))
    loses_neighbour c lt before change =
        let free = is_empty-none (adj' v) in
        let added = contains-add extremes v c in
        let still : contains extremes c ≡ true → (p : ℕ) → contains (adj' c) p ≡ false =
          λ m p. ground (arith, (before.0 m).1 p, change c p) in
        elim (Bool-cases (c == v)) [
          | inl same ↦
              let e : c ≡ v = (==_iff c v).0 same in
              (
                λ m. elim (Bool-cases (is_empty (adj' v))) [
                  | inl alone ↦ (omega arith, λ p. rw e (free.0 alone p))
                  | inr not_alone ↦
                      let was : contains extremes c ≡ true = ground (arith, m) in
                      ((before.0 was).0, still was)
                ],
                λ t. let alone = free.1 (λ p. rw e at (t.1 p)) in ground (arith, added, alone),
              )
          | inr other_one ↦ (
            λ m.
                let was : contains extremes c ≡ true = ground (arith, m, added) in
                ((before.0 was).0, still was),
            λ t.
                let was = before.1 (t.0, λ p. ground (arith, t.1 p, change c p)) in
                ground (arith, was, added),
          )
        ]

  module _ (co : ConceptOrder B) (w : IsOrder co) (lower upper : ℕ) (hl : lower < co.counter)
      (hu : upper < co.counter) where
    lower_vertex : contains co.graph.vertices lower ≡ true
    lower_vertex = ground (arith, w.vertices lower)

    upper_vertex : contains co.graph.vertices upper ≡ true
    upper_vertex = ground (arith, w.vertices upper)

    -- Adding an edge between two concepts of a well-formed order keeps it well formed, and the
    -- upper covers change at that one pair.
    pub add_edge-IsOrder :
        IsOrder (co_add_edge co lower upper)
        × ((y z : ℕ)
            → contains (parents_of (co_add_edge co lower upper).graph y) z
              ≡ (if y == lower && z == upper then true else contains (parents_of co.graph y) z))
    unfolding co_add_edge
    add_edge-IsOrder =
        let graph' = dgraph_add_edge co.graph lower upper in
        let (graph, parents) =
          add_edge-IsGraph co.graph lower upper w.graph_wf lower_vertex upper_vertex in
        let same = (edge-vertices co.graph lower upper).0 in
        (
          record {
            graph_wf = graph;
            vertices = λ v. rw same (w.vertices v);
            maximal_iff = λ c.
                gains_neighbour (parents_of co.graph) (parents_of graph') co.maximals co.counter
                  lower upper c (w.maximal_iff c) parents;
            minimal_iff = λ c.
                gains_neighbour (children_of co.graph) (children_of graph') co.minimals co.counter
                  upper lower c (w.minimal_iff c)
                  (λ x y. ground (arith, graph.mirror y x, w.graph_wf.mirror y x, parents y x));
            extents_length = w.extents_length;
            intents_length = w.intents_length;
            rextents_length = w.rextents_length;
            rintents_length = w.rintents_length;
            room = w.room;
          },
          parents,
        )

    -- Removing the edge between two concepts keeps the order well formed, so that `maximals` and
    -- `minimals` get back a concept that has lost its last cover, and the upper covers change at
    -- that one pair.
    pub remove_edge-IsOrder :
        IsOrder (co_remove_edge co lower upper)
        × ((y z : ℕ)
            → contains (parents_of (co_remove_edge co lower upper).graph y) z
              ≡ (if y == lower && z == upper then false else contains (parents_of co.graph y) z))
    unfolding co_remove_edge
    remove_edge-IsOrder =
        let graph' = dgraph_remove_edge co.graph lower upper in
        let (graph, parents) =
          remove_edge-IsGraph co.graph lower upper w.graph_wf lower_vertex upper_vertex in
        let same = (edge-vertices co.graph lower upper).1 in
        (
          record {
            graph_wf = graph;
            vertices = λ v. rw same (w.vertices v);
            maximal_iff = λ c.
                loses_neighbour (parents_of co.graph) (parents_of graph') co.maximals co.counter
                  lower upper c hl (w.maximal_iff c) parents;
            minimal_iff = λ c.
                loses_neighbour (children_of co.graph) (children_of graph') co.minimals co.counter
                  upper lower c hu (w.minimal_iff c)
                  (λ x y. ground (arith, graph.mirror y x, w.graph_wf.mirror y x, parents y x));
            extents_length = w.extents_length;
            intents_length = w.intents_length;
            rextents_length = w.rextents_length;
            rintents_length = w.rintents_length;
            room = w.room;
          },
          parents,
        )
