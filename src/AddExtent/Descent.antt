-- ===== src/AddExtent/Descent.antt =====
-- The descent ends at a lowest concept whose extent contains the one to insert.
use fca4j_project.Base.{
  ℕ, zero, suc, ◌≤◌, ◌<◌, ◌≡◌, refl, sym, ◌∙◌, true, false, ◌⊎◌, inl, inr, List, [], ◌∷◌, none,
  some, elem, ◌==◌, arith, Bool-cases, ==_refl, ==_iff,
}
use fca4j_project.Roaring.{Roaring}
use fca4j_project.Roaring.Sets.{Has, Subset}
use fca4j_project.Roaring.Cardinal.{cardinality-lt}
use fca4j_project.DGraph.{DGraph, children_of, parents_of}
use fca4j_project.ConceptOrder.{ConceptOrder, IsOrder}
use fca4j_project.AddExtent.{extent_of, first_containing, get_smallest_containing}

module _ {B : Type 0} ⦃R : Roaring B⦄ where
  open R use {contains, is_subset, to_list, cardinality, is_subset_iff, elem-to_list}

  -- `a` is a proper subset of `b`.
  abbrev pub Proper : B → B → Type 0
  Proper a b = Subset a b × (¬ Subset b a)

  -- A well-formed order whose edges go up in the extents: a child's is a proper subset.
  pub record IsNested (co : ConceptOrder B) : Type 0 where
    pub order : IsOrder co
    pub upward :
        (c p : ℕ)
        → contains (parents_of co.graph c) p ≡ true
        → Proper (extent_of co c) (extent_of co p)

  -- Edges up, one after the other; none at all is allowed.
  pub data Climbs (g : DGraph B) : ℕ → ℕ → Type 0 where
    stays : (c : ℕ) → Climbs g c c
    climbs : (c p q : ℕ) → contains (parents_of g c) p ≡ true → Climbs g p q → Climbs g c q

  pub Climbs-trans : (g : DGraph B) (a b c : ℕ) → Climbs g a b → Climbs g b c → Climbs g a c
  Climbs-trans g a b c (stays _) up = up
  Climbs-trans g a b c (climbs _ p _ edge rest) up =
      climbs a p c edge (Climbs-trans g p b c rest up)

  -- Where each edge has a way up, so has each way.
  pub Climbs-map :
      (g g' : DGraph B)
      → ((c p : ℕ) → contains (parents_of g c) p ≡ true → Climbs g' c p)
      → (a b : ℕ) → Climbs g a b
      → Climbs g' a b
  Climbs-map g g' way a b (stays _) = stays a
  Climbs-map g g' way a b (climbs _ p _ edge rest) =
      Climbs-trans g' a p b (way a p edge) (Climbs-map g g' way p b rest)

  -- A child is a concept, and its extent is a proper subset.
  pub child-Proper :
      (co : ConceptOrder B) (p c : ℕ)
      → IsNested co
      → Has (children_of co.graph p) c
      → (c < co.counter) × Proper (extent_of co c) (extent_of co p)
  child-Proper co p c w h =
      let up : contains (parents_of co.graph c) p ≡ true = w.order.graph_wf.mirror c p ∙ h in
      (ground (arith, w.order.vertices c, w.order.graph_wf.child_vertex c p up), w.upward c p up)

  -- The scan finds a child whose extent contains the one given, or there is none.
  first_containing_lem :
      (co : ConceptOrder B) (extent : B) (children : List ℕ)
      → ((c : ℕ) × (first_containing co extent children ≡ some c)
          × (elem c children ≡ true)
          × Subset extent (extent_of co c))
        ⊎ ((first_containing co extent children ≡ none)
            × ((c : ℕ) → elem c children ≡ true → is_subset extent (extent_of co c) ≡ false))
  unfolding first_containing
  first_containing_lem co extent [] = inr (refl, λ c e. absurd (ground arith))
  first_containing_lem co extent (d ∷ children) =
      elim (Bool-cases (is_subset extent (extent_of co d))) [
        | inl fits ↦ inl (
          d,
          rw (fits, first_containing),
          ground (arith, ==_refl d),
          (is_subset_iff extent (extent_of co d)).0 fits,
        )
        | inr misses ↦ elim (first_containing_lem co extent children) [
          | inl (c, found, member, fits) ↦
              inl (c, rw (misses, first_containing) found, ground arith, fits)
          | inr (nothing, all) ↦ inr (
            rw (misses, first_containing) nothing,
            λ c e. elim (Bool-cases (c == d)) [
              | inl same ↦ rw ((==_iff c d).0 same) misses
              | inr other ↦ all c (ground arith)
            ],
          )
        ]
      ]

  -- What the descent promises of its result.
  pub record IsSmallest (co : ConceptOrder B) (extent : B) (start g : ℕ) : Type 0 where
    pub id_lt : g < co.counter
    pub fits : Subset extent (extent_of co g)
    pub not_larger : cardinality (extent_of co g) ≤ cardinality (extent_of co start)
    pub under : Climbs co.graph g start
    pub lowest :
        (c : ℕ) → Has (children_of co.graph g) c → is_subset extent (extent_of co c) ≡ false

  -- In a well-formed order whose edges go from an extent to one that properly contains it, from a
  -- concept of the order whose extent contains the one given, and with more fuel than the cardinality
  -- of that concept's extent, the descent returns a concept of the order that has a way up to the
  -- start, whose extent still contains the one given, is no larger than that of the start, and none
  -- of whose children's extents contains it.
  pub get_smallest_lem :
      (fuel : ℕ) (co : ConceptOrder B) (extent : B) (start : ℕ)
      → IsNested co
      → start < co.counter
      → Subset extent (extent_of co start)
      → cardinality (extent_of co start) < fuel
      → (g : ℕ) × (get_smallest_containing fuel co extent start ≡ some g)
        × IsSmallest co extent start g
  unfolding get_smallest_containing
  get_smallest_lem zero co extent start w lt fits h = absurd (omega arith)
  get_smallest_lem (suc fuel) co extent start w lt fits h =
      let children = children_of co.graph start in
      elim (first_containing_lem co extent (to_list children)) [
        | inl (c, found, member, below) ↦
            let (c_lt, proper) =
              child-Proper co start c w (sym (elem-to_list children c) ∙ member) in
            let smaller = cardinality-lt (extent_of co c) (extent_of co start) proper.0 proper.1 in
            let (g, result, small) = get_smallest_lem fuel co extent c w c_lt below (omega arith) in
            (
              g,
              rw (found, get_smallest_containing) result,
              record {
                id_lt = small.id_lt;
                fits = small.fits;
                not_larger = omega (arith, small.not_larger);
                under = Climbs-trans co.graph g c start small.under (
                    climbs c start start
                      (w.order.graph_wf.mirror c start ∙ sym (elem-to_list children c) ∙ member)
                      (stays start));
                lowest = small.lowest;
              },
            )
        | inr (nothing, all) ↦ (
          start,
          rw (nothing, get_smallest_containing),
          record {
            id_lt = lt;
            fits = fits;
            not_larger = omega arith;
            under = stays start;
            lowest = λ c hc. all c (elem-to_list children c ∙ hc);
          },
        )
      ]
