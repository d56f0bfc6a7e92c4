-- ===== src/ConceptOrder/Concepts.antt =====
-- `co_create` and `co_add_concept`: the new concept gets the next id, its bitmaps and no cover.
use fca4j_project.Base.{
  ℕ, ◌+◌, ◌≤◌, ◌<◌, ◌≡◌, refl, sym, ap, ◌∙◌, ◌↔◌, true, false, List, Option, none, some, length,
  set, get_or, leb, ◌==◌, arith, length-set, Bool-cases, inl, inr, ==_iff, get_or-set_self,
  get_or-set_ne, length-replicate,
}
use fca4j_project.Roaring.{Roaring}
use fca4j_project.Context.{BinaryContext}
use fca4j_project.DGraph.{
  grown, bitmap_at, children_of, parents_of, dgraph_create, dgraph_add_vertex, deref,
}
use fca4j_project.DGraph.Laws.{length-grow, get_or-grow}
use fca4j_project.DGraph.Vertices.{AddsVertex, add_vertex-AddsVertex, create-IsGraph}
use fca4j_project.ConceptOrder.{
  ConceptOrder, co_create, co_ensure_cap, co_fill, co_add_concept, IsOrder,
}

module _ {B : Type 0} ⦃R : Roaring B⦄ where
  open R use {create, contains, add, contains-create, contains-add}

  -- A new element without neighbour joins the extremes.
  new_extreme :
      (adj adj' : ℕ → B) (extremes : B) (n c : ℕ)
      → ((contains extremes c ≡ true) ↔ ((c < n) × ((p : ℕ) → contains (adj c) p ≡ false)))
      → ((p : ℕ) → contains (adj' c) p ≡ contains (adj c) p)
      → (c ≡ n → (p : ℕ) → contains (adj c) p ≡ false)
      → (contains (add extremes n) c ≡ true)
        ↔ ((c < n + 1) × ((p : ℕ) → contains (adj' c) p ≡ false))
  new_extreme adj adj' extremes n c before same fresh =
      let added = contains-add extremes n c in
      elim (Bool-cases (c == n)) [
        | inl last ↦
            let e : c ≡ n = (==_iff c n).0 last in
            (λ m. (omega arith, λ p. same p ∙ fresh e p), λ t. ground (arith, added))
        | inr old ↦ (
          λ m.
              let was : contains extremes c ≡ true = ground (arith, added) in
              let (lt, free) = before.0 was in (omega arith, λ p. same p ∙ free p),
          λ t.
              let was = before.1 (ground (arith, t.0), λ p. sym (same p) ∙ t.1 p) in
              ground (arith, was, added),
        )
      ]

  -- What growing the arrays keeps, as `co_add_concept` calls it with the counter already raised.
  record IsRoomy (co co' : ConceptOrder B) : Type 0 where
    counter_same : co'.counter ≡ co.counter
    graph_same : co'.graph ≡ co.graph
    maximals_same : co'.maximals ≡ co.maximals
    minimals_same : co'.minimals ≡ co.minimals
    extents_length : length co'.extents ≡ co'.capacity
    intents_length : length co'.intents ≡ co'.capacity
    rextents_length : length co'.rextents ≡ co'.capacity
    rintents_length : length co'.rintents ≡ co'.capacity
    room : co.counter ≤ co'.capacity
    extents_same : (i : ℕ) → get_or co'.extents i none ≡ get_or co.extents i none
    intents_same : (i : ℕ) → get_or co'.intents i none ≡ get_or co.intents i none
    rintents_same : (i : ℕ) → get_or co'.rintents i none ≡ get_or co.rintents i none

  ensure_cap-IsRoomy :
      (co : ConceptOrder B)
      → length co.extents ≡ co.capacity
      → length co.intents ≡ co.capacity
      → length co.rextents ≡ co.capacity
      → length co.rintents ≡ co.capacity
      → IsRoomy co (co_ensure_cap co co.counter)
  unfolding co_ensure_cap
  ensure_cap-IsRoomy co le li lre lri = elim (Bool-cases (leb co.counter co.capacity)) [
    | inl fits ↦ rw fits (record {
      counter_same = refl;
      graph_same = refl;
      maximals_same = refl;
      minimals_same = refl;
      extents_length = le;
      intents_length = li;
      rextents_length = lre;
      rintents_length = lri;
      room = ground arith;
      extents_same = λ i. refl;
      intents_same = λ i. refl;
      rintents_same = λ i. refl;
    })
    | inr short ↦
        let n = grown co.capacity co.counter in
        let more : co.capacity ≤ n = ground arith in
        rw short (record {
          counter_same = refl;
          graph_same = refl;
          maximals_same = refl;
          minimals_same = refl;
          extents_length = length-grow co.extents co.capacity n le more;
          intents_length = length-grow co.intents co.capacity n li more;
          rextents_length = length-grow co.rextents co.capacity n lre more;
          rintents_length = length-grow co.rintents co.capacity n lri more;
          room = ground arith;
          extents_same = get_or-grow co.extents co.capacity n;
          intents_same = get_or-grow co.intents co.capacity n;
          rintents_same = get_or-grow co.rintents co.capacity n;
        })
  ]

  -- What `co_add_concept` promises of the id and of the cells.
  pub record AddsConcept (co co' : ConceptOrder B) (n : ℕ) (extent intent : B) : Type 0 where
    pub id_next : n ≡ co.counter
    pub counter_next : co'.counter ≡ co.counter + 1
    pub extent_new : bitmap_at co'.extents n ≡ extent
    pub intent_new : bitmap_at co'.intents n ≡ intent
    pub extents_kept : (c : ℕ) → c < co.counter → bitmap_at co'.extents c ≡ bitmap_at co.extents c
    pub intents_kept : (c : ℕ) → c < co.counter → bitmap_at co'.intents c ≡ bitmap_at co.intents c
    pub rintents_kept :
        (c : ℕ) → c < co.counter → bitmap_at co'.rintents c ≡ bitmap_at co.rintents c
    pub covers_kept :
        (c p : ℕ) → contains (parents_of co'.graph c) p ≡ contains (parents_of co.graph c) p

  set_cell :
      (cells old : List (Option B)) (n c : ℕ) (b : B)
      → n < length cells
      → ((i : ℕ) → get_or cells i none ≡ get_or old i none)
      → (bitmap_at (set cells n (some b)) n ≡ b)
        × (c < n → bitmap_at (set cells n (some b)) c ≡ bitmap_at old c)
  set_cell cells old n c b h same = (
    ap deref (get_or-set_self cells n (some b) none h),
    λ l. ap deref (get_or-set_ne cells n c (some b) none (omega arith) ∙ same c),
  )

  module _ (co : ConceptOrder B) (extent intent : B) (w : IsOrder co) where
    abbrev raised : ConceptOrder B
    raised = record co { counter = co.counter + 1 }

    abbrev roomy : ConceptOrder B
    roomy = co_ensure_cap raised (co.counter + 1)

    roomy-IsRoomy : IsRoomy raised roomy
    roomy-IsRoomy =
        ensure_cap-IsRoomy raised w.extents_length w.intents_length w.rextents_length
          w.rintents_length

    graph-AddsVertex : AddsVertex co.graph (dgraph_add_vertex roomy.graph co.counter) co.counter
    graph-AddsVertex =
        rw (roomy-IsRoomy.graph_same) (add_vertex-AddsVertex co.graph co.counter w.graph_wf)

    no_edges : (x : ℕ) → contains (parents_of co.graph co.counter) x ≡ false
    no_edges x = ground (arith, w.graph_wf.child_vertex co.counter x, w.vertices co.counter)

    no_edges_down : (x : ℕ) → contains (children_of co.graph co.counter) x ≡ false
    no_edges_down x = ground (
      arith,
      w.graph_wf.parent_vertex x co.counter,
      w.graph_wf.mirror x co.counter,
      w.vertices co.counter,
    )

    -- The new concept of a well-formed order gets the next id, its extent and its intent, and no
    -- cover; the order stays well formed, and the other concepts keep their extents, intents and
    -- covers.
    pub add_concept-IsOrder :
        IsOrder (co_add_concept co extent intent).0
        × AddsConcept co
            (co_add_concept co extent intent).0
            (co_add_concept co extent intent).1
            extent
            intent
    unfolding co_add_concept co_fill
    add_concept-IsOrder =
        let big = roomy-IsRoomy in
        let new = graph-AddsVertex in
        let lt_cells : co.counter < roomy.capacity = omega (arith, big.room) in
        (
          record {
            graph_wf = new.graph;
            vertices = λ v. ground (arith, new.vertex v, w.vertices v, big.counter_same);
            maximal_iff = λ c.
                rw (big.counter_same, big.maximals_same)
                  (new_extreme (parents_of co.graph)
                    (parents_of (dgraph_add_vertex roomy.graph co.counter)) co.maximals co.counter c
                    (w.maximal_iff c) (new.same_parents c) (λ e p. rw e (no_edges p)));
            minimal_iff = λ c.
                rw (big.counter_same, big.minimals_same)
                  (new_extreme (children_of co.graph)
                    (children_of (dgraph_add_vertex roomy.graph co.counter)) co.minimals co.counter
                    c (w.minimal_iff c) (new.same_children c) (λ e p. rw e (no_edges_down p)));
            extents_length = length-set roomy.extents co.counter (some extent) ∙ big.extents_length;
            intents_length = length-set roomy.intents co.counter (some intent) ∙ big.intents_length;
            rextents_length =
                length-set roomy.rextents co.counter (some create) ∙ big.rextents_length;
            rintents_length =
                length-set roomy.rintents co.counter (some create) ∙ big.rintents_length;
            room = omega (arith, big.room, big.counter_same);
          },
          record {
            id_next = refl;
            counter_next = big.counter_same;
            extent_new =
                (set_cell roomy.extents co.extents co.counter 0 extent
                  (omega (arith, big.extents_length, lt_cells)) big.extents_same).0;
            intent_new =
                (set_cell roomy.intents co.intents co.counter 0 intent
                  (omega (arith, big.intents_length, lt_cells)) big.intents_same).0;
            extents_kept = λ c l.
                (set_cell roomy.extents co.extents co.counter c extent
                    (omega (arith, big.extents_length, lt_cells)) big.extents_same).1
                  l;
            intents_kept = λ c l.
                (set_cell roomy.intents co.intents co.counter c intent
                    (omega (arith, big.intents_length, lt_cells)) big.intents_same).1
                  l;
            rintents_kept = λ c l.
                (set_cell roomy.rintents co.rintents co.counter c create
                    (omega (arith, big.rintents_length, lt_cells)) big.rintents_same).1
                  l;
            covers_kept = new.same_parents;
          },
        )

  -- A new order is empty and well formed.
  pub create-IsOrder :
      (co : ConceptOrder B) (ctx : BinaryContext B) → co ≡ co_create ctx → IsOrder co
  unfolding co_create
  create-IsOrder co ctx e =
      let (graph, no_vertex, no_edge) = create-IsGraph (dgraph_create {B = B} 256) 256 refl in
      rw e (record {
        graph_wf = graph;
        vertices = λ v. ground (arith, no_vertex v);
        maximal_iff = λ c.
            (λ m. absurd (ground (arith, contains-create c)), λ t. absurd (omega (arith, t.0)));
        minimal_iff = λ c.
            (λ m. absurd (ground (arith, contains-create c)), λ t. absurd (omega (arith, t.0)));
        extents_length = length-replicate {A = Option B} 256 none;
        intents_length = length-replicate {A = Option B} 256 none;
        rextents_length = length-replicate {A = Option B} 256 none;
        rintents_length = length-replicate {A = Option B} 256 none;
        room = omega arith;
      })
