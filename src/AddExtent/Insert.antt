-- ===== src/AddExtent/Insert.antt =====
-- The new concept: created, linked between the generator and its new children.
use fca4j_project.Base.{
  ℕ, ◌≤◌, ◌<◌, ◌≡◌, refl, sym, ap, ◌∙◌, true, ◌&&◌, List, foldl, ◌==◌, arith, Bool-cases, inl, inr,
  false, ◌⊎◌, elem, if◌then◌else◌, ==_refl,
}
use mathlib.Core.Path.{subst}
use fca4j_project.Roaring.{Roaring}
use fca4j_project.DGraph.{DGraph, bitmap_at, parents_of}
use fca4j_project.ConceptOrder.{ConceptOrder, co_add_concept, co_add_edge}
use fca4j_project.ConceptOrder.Edges.{add_edge-IsOrder}
use fca4j_project.ConceptOrder.Concepts.{AddsConcept, add_concept-IsOrder}
use fca4j_project.AddExtent.{extent_of, rewire, insert_concept}
use fca4j_project.AddExtent.Candidates.{All}
use fca4j_project.AddExtent.Descent.{Proper, IsNested, Climbs, stays, climbs, Climbs-map}
use fca4j_project.AddExtent.Rewire.{
  All-map, Rewired, add_edge-Rewired, IsMovable, rewires-Rewired, rewires-edges,
}

module _ {B : Type 0} ⦃R : Roaring B⦄ where
  open R use {contains}

  -- What inserting an extent promises: a nested order that keeps the old concepts, their extents and
  -- all ways up between them, with the concept `r`, whose extent is the set inserted; it and
  -- the concepts that are new lie below the generator.
  pub record Inserts (co co' : ConceptOrder B) (extent : B) (generator r : ℕ) : Type 0 where
    pub nested : IsNested co'
    pub grows : co.counter ≤ co'.counter
    pub kept : (c : ℕ) → c < co.counter → extent_of co' c ≡ extent_of co c
    pub rintents_kept :
        (c : ℕ) → c < co.counter → bitmap_at co'.rintents c ≡ bitmap_at co.rintents c
    pub id_lt : r < co'.counter
    pub holds : (x : ℕ) → contains (extent_of co' r) x ≡ contains extent x
    pub above_kept : (c p : ℕ) → Climbs co.graph c p → Climbs co'.graph c p
    pub under :
        (c : ℕ) → (c ≡ r) ⊎ (co.counter ≤ c) → c < co'.counter → Climbs co'.graph c generator

  -- The children that the new concept may take.
  abbrev pub IsChildOf : ConceptOrder B → B → ℕ → Type 0
  IsChildOf co extent c = (c < co.counter) × Proper (extent_of co c) extent

  pub added-IsNested :
      (co : ConceptOrder B) (extent intent : B)
      → IsNested co
      → IsNested (co_add_concept co extent intent).0
  added-IsNested co extent intent w =
      let (order, adds) = add_concept-IsOrder co extent intent w.order in
      record {
        order = order;
        upward = λ c p h.
            let up : contains (parents_of co.graph c) p ≡ true = sym (adds.covers_kept c p) ∙ h in
            let c_lt : c < co.counter =
              ground (arith, w.order.graph_wf.child_vertex c p up, w.order.vertices c) in
            let p_lt : p < co.counter =
              ground (arith, w.order.graph_wf.parent_vertex c p up, w.order.vertices p) in
            rw (adds.extents_kept c c_lt, adds.extents_kept p p_lt) (w.upward c p up);
      }

  -- The new concept goes between the generator and the children; all other edges are kept.
  module _ (g g' : DGraph B) (children : List ℕ) (generator nc : ℕ)
      (edges : (c p : ℕ)
        → contains (parents_of g' c) p ≡ (
            if c == nc && p == generator
            then true
            else if elem c children && p == nc
            then true
            else if elem c children && p == generator
            then false
            else contains (parents_of g c) p)) where
    link_up : contains (parents_of g' nc) generator ≡ true
    link_up = ground (arith, edges nc generator, ==_refl nc, ==_refl generator)

    way_up : Climbs g' nc generator
    way_up = climbs nc generator generator link_up (stays generator)

    -- What went straight to the generator goes over the new concept.
    ways_kept : (a b : ℕ) → Climbs g a b → Climbs g' a b
    ways_kept = Climbs-map g g' (λ c p h. elim (Bool-cases (elem c children && p == generator)) [
      | inl over ↦
          let e : p ≡ generator = ground (arith, over) in
          climbs c nc p (ground (arith, over, edges c nc, ==_refl nc))
            (subst (λ q. Climbs g' nc q) (sym e) way_up)
      | inr old ↦ climbs c p p (ground (arith, old, edges c p, h)) (stays p)
    ])

  module _ (co : ConceptOrder B) (extent : B) (generator : ℕ) (children : List ℕ) (w : IsNested co)
      (hg : generator < co.counter) (proper : Proper extent (extent_of co generator))
      (movable : All (IsChildOf co extent) children) where
    -- The concept as it is created, before it is linked.
    abbrev added : ConceptOrder B
    added = (co_add_concept co extent (bitmap_at co.intents generator)).0

    abbrev nc : ℕ
    nc = (co_add_concept co extent (bitmap_at co.intents generator)).1

    abbrev linked : ConceptOrder B
    linked = co_add_edge (foldl (rewire generator nc) added children) nc generator

    adds : AddsConcept co added nc extent (bitmap_at co.intents generator)
    adds = (add_concept-IsOrder co extent (bitmap_at co.intents generator) w.order).1

    linked-Rewired :
        Rewired added linked
        × ((c p : ℕ)
            → contains (parents_of linked.graph c) p ≡ (
                if c == nc && p == generator
                then true
                else if elem c children && p == nc
                then true
                else if elem c children && p == generator
                then false
                else contains (parents_of co.graph c) p))
    linked-Rewired =
        let n = added.counter in
        let nested = added-IsNested co extent (bitmap_at co.intents generator) w in
        let hg' : generator < n = omega (arith, hg, adds.counter_next) in
        let hn : nc < n = omega (arith, adds.counter_next, adds.id_next) in
        let movables =
          All-map (IsChildOf co extent) (IsMovable n added.extents generator nc) children
            (λ c h. (
              omega (arith, h.0, adds.counter_next),
              rw (adds.extents_kept c h.0, adds.extent_new) h.1,
            ))
            movable in
        let rewired = foldl (rewire generator nc) added children in
        let moved =
          rewires-Rewired n added.extents generator nc children added nested refl refl hg' hn
            movables in
        let edges =
          rewires-edges n added.extents generator nc children added nested refl refl hg' hn
            movables in
        let hn' : nc < rewired.counter = omega (arith, moved.counter_same, hn) in
        let hg'' : generator < rewired.counter = omega (arith, moved.counter_same, hg') in
        let last = (add_edge-IsOrder rewired moved.nested.order nc generator hn' hg'').1 in
        let top = add_edge-Rewired rewired nc generator moved.nested hn' hg'' (
          subst (λ es. Proper (bitmap_at es nc) (bitmap_at es generator)) (sym moved.extents_same)
            (rw (adds.extents_kept generator hg, adds.extent_new) proper)) in
        (
          record {
            nested = top.nested;
            counter_same = top.counter_same ∙ moved.counter_same;
            extents_same = top.extents_same ∙ moved.extents_same;
            rintents_same = top.rintents_same ∙ moved.rintents_same;
          },
          λ c p. ground (arith, last c p, edges c p, adds.covers_kept c p),
        )

    -- Nothing was below the new concept before.
    fresh : (c : ℕ) → contains (parents_of co.graph c) nc ≡ false
    fresh c = elim (Bool-cases (contains (parents_of co.graph c) nc)) [
      | inl edge ↦ absurd (
          ground
            (arith, w.order.vertices nc, w.order.graph_wf.parent_vertex c nc edge, adds.id_next))
      | inr absent ↦ absent
    ]

    -- Inserting below a generator whose extent properly contains the new one, with children that
    -- are properly contained in it: those are then exactly the children of the new concept.
    pub insert_concept-Inserts :
        Inserts co
          (insert_concept co extent generator children).0
          extent
          generator
          (insert_concept co extent generator children).1
        × ((c : ℕ)
            → contains
                (parents_of (insert_concept co extent generator children).0.graph c)
                (insert_concept co extent generator children).1
              ≡ elem c children)
        × (contains
              (parents_of
                (insert_concept co extent generator children).0.graph
                (insert_concept co extent generator children).1)
              generator
            ≡ true)
    unfolding insert_concept
    insert_concept-Inserts =
        let (links, edges) = linked-Rewired in
        let count = links.counter_same ∙ adds.counter_next in
        let up = way_up co.graph linked.graph children generator nc edges in
        (
          record {
            nested = links.nested;
            grows = omega (arith, count);
            kept = λ c h. ap (λ es. bitmap_at es c) links.extents_same ∙ adds.extents_kept c h;
            rintents_kept =
                λ c h. ap (λ rs. bitmap_at rs c) links.rintents_same ∙ adds.rintents_kept c h;
            id_lt = omega (arith, count, adds.id_next);
            holds = λ x.
                ap (λ (b : B). contains b x)
                  (ap (λ es. bitmap_at es nc) links.extents_same ∙ adds.extent_new);
            above_kept = ways_kept co.graph linked.graph children generator nc edges;
            under = λ c new lt.
                let e : c ≡ nc = elim new [
                  | inl same ↦ same
                  | inr above ↦ omega (arith, lt, count, adds.id_next)
                ] in
                subst (λ q. Climbs linked.graph q generator) (sym e) up;
          },
          λ c. ground (arith, edges c nc, fresh c, ==_refl nc, adds.id_next, hg),
          link_up co.graph linked.graph children generator nc edges,
        )
