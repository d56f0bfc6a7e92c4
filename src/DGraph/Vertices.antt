-- ===== src/DGraph/Vertices.antt =====
-- Growing the arrays and adding a vertex change no edge.
use fca4j_project.Base.{
  ℕ, ◌+◌, ◌≤◌, ◌<◌, ◌≡◌, refl, ap, false, ◌||◌, List, Option, none, some, length, set, leb, ◌==◌,
  arith, length-set, Bool-cases, inl, inr, get_or-replicate, length-replicate,
}
use fca4j_project.Roaring.{Roaring}
use fca4j_project.DGraph.{
  DGraph, grown, grow, deref, bitmap_at, children_of, parents_of, dgraph_create, dgraph_ensure_cap,
  dgraph_new_vertex, dgraph_add_vertex, IsGraph,
}
use fca4j_project.DGraph.Laws.{get_or-grow, length-grow, contains-set}

module _ {B : Type 0} ⦃R : Roaring B⦄ where
  open R use {create, contains, add, contains-create, contains-add}

  pub bitmap_at-grow :
      (cells : List (Option B)) (capacity n i : ℕ)
      → bitmap_at (grow cells capacity n) i ≡ bitmap_at cells i
  bitmap_at-grow cells capacity n i = ap deref (get_or-grow cells capacity n i)

  -- What `dgraph_ensure_cap` promises.
  record IsGrown (g g' : DGraph B) (needed : ℕ) : Type 0 where
    graph : IsGraph g'
    enough : needed ≤ g'.capacity
    same_parents : (i : ℕ) → parents_of g' i ≡ parents_of g i
    same_children : (i : ℕ) → children_of g' i ≡ children_of g i
    same_vertices : g'.vertices ≡ g.vertices

  ensure_cap-IsGrown :
      (g : DGraph B) (needed : ℕ) → IsGraph g → IsGrown g (dgraph_ensure_cap g needed) needed
  unfolding dgraph_ensure_cap
  ensure_cap-IsGrown g needed w = elim (Bool-cases (leb needed g.capacity)) [
    | inl fits ↦ rw fits (record {
      graph = w;
      enough = ground arith;
      same_parents = λ i. refl;
      same_children = λ i. refl;
      same_vertices = refl;
    })
    | inr short ↦
        let n = grown g.capacity needed in
        let ps = λ (i : ℕ). bitmap_at-grow g.parents g.capacity n i in
        let cs = λ (i : ℕ). bitmap_at-grow g.children g.capacity n i in
        rw short (record {
          graph = record {
            children_length = length-grow g.children g.capacity n w.children_length (ground arith);
            parents_length = length-grow g.parents g.capacity n w.parents_length (ground arith);
            mirror = λ c p. rw (ps c, cs p) (w.mirror c p);
            child_vertex = λ c p h. w.child_vertex c p (rw (ps c) at h);
            parent_vertex = λ c p h. w.parent_vertex c p (rw (ps c) at h);
            vertex_lt = λ v h. ground (arith, w.vertex_lt v h);
          };
          enough = ground arith;
          same_parents = ps;
          same_children = cs;
          same_vertices = refl;
        })
  ]

  -- A cell that holds no edge, replaced by the empty bitmap.
  reset_cell :
      (cells : List (Option B)) (v y z : ℕ)
      → v < length cells
      → ((x : ℕ) → contains (bitmap_at cells v) x ≡ false)
      → contains (bitmap_at (set cells v (some create)) y) z ≡ contains (bitmap_at cells y) z
  reset_cell cells v y z h empty =
      ground (arith, contains-set cells v y z create h, contains-create z, empty z)

  -- No edge ends in an index that is no vertex.
  module _ (g : DGraph B) (w : IsGraph g) (v : ℕ) (fresh : contains g.vertices v ≡ false) where
    no_parents : (x : ℕ) → contains (parents_of g v) x ≡ false
    no_parents x = ground (arith, w.child_vertex v x)

    no_children : (x : ℕ) → contains (children_of g v) x ≡ false
    no_children x = ground (arith, w.parent_vertex x v, w.mirror x v)

  pub record AddsVertex (g g' : DGraph B) (v : ℕ) : Type 0 where
    pub graph : IsGraph g'
    pub vertex : (y : ℕ) → contains g'.vertices y ≡ (y == v || contains g.vertices y)
    pub same_parents : (y z : ℕ) → contains (parents_of g' y) z ≡ contains (parents_of g y) z
    pub same_children : (y z : ℕ) → contains (children_of g' y) z ≡ contains (children_of g y) z

  new_vertex-AddsVertex :
      (g : DGraph B) (v : ℕ) → IsGraph g → v < g.capacity → AddsVertex g (dgraph_new_vertex g v) v
  unfolding dgraph_new_vertex
  new_vertex-AddsVertex g v w h = elim (Bool-cases (contains g.vertices v)) [
    | inl old ↦ rw old (record {
      graph = w;
      vertex = λ y. ground (arith);
      same_parents = λ y z. refl;
      same_children = λ y z. refl;
    })
    | inr fresh ↦
        let ps = λ (y z : ℕ).
          reset_cell g.parents v y z (omega (arith, w.parents_length)) (no_parents g w v fresh) in
        let cs = λ (y z : ℕ).
          reset_cell g.children v y z (omega (arith, w.children_length))
            (no_children g w v fresh) in
        let vs = contains-add g.vertices v in
        rw fresh (record {
          graph = record {
            children_length =
                omega (arith, length-set g.children v (some create), w.children_length);
            parents_length = omega (arith, length-set g.parents v (some create), w.parents_length);
            mirror = λ c p. ground (arith, ps c p, cs p c, w.mirror c p);
            child_vertex = λ c p e. ground (arith, ps c p, vs c, w.child_vertex c p);
            parent_vertex = λ c p e. ground (arith, ps c p, vs p, w.parent_vertex c p);
            vertex_lt = λ y e. ground (arith, vs y, w.vertex_lt y);
          };
          vertex = vs;
          same_parents = ps;
          same_children = cs;
        })
  ]

  -- `dgraph_add_vertex` makes `v` a vertex, growing the arrays as needed, and changes no edge.
  pub add_vertex-AddsVertex :
      (g : DGraph B) (v : ℕ) → IsGraph g → AddsVertex g (dgraph_add_vertex g v) v
  unfolding dgraph_add_vertex
  add_vertex-AddsVertex g v w =
      let g' = dgraph_ensure_cap g (v + 1) in
      let big = ensure_cap-IsGrown g (v + 1) w in
      let new = new_vertex-AddsVertex g' v big.graph (omega (arith, big.enough)) in
      record {
        graph = new.graph;
        vertex = λ y. ground (arith, new.vertex y, ap (λ (b : B). contains b y) big.same_vertices);
        same_parents = λ y z.
            ground (arith, new.same_parents y z, ap (λ (b : B). contains b z) (big.same_parents y));
        same_children = λ y z.
            ground
              (arith, new.same_children y z, ap (λ (b : B). contains b z) (big.same_children y));
      }

  pub create-IsGraph :
      (g : DGraph B) (cap : ℕ)
      → g ≡ dgraph_create cap
      → IsGraph g
        × ((v : ℕ) → contains g.vertices v ≡ false)
        × ((y z : ℕ) → contains (parents_of g y) z ≡ false)
  unfolding dgraph_create
  create-IsGraph g cap e = rw e (
    record {
      children_length = length-replicate cap none;
      parents_length = length-replicate cap none;
      mirror = λ c p. ground (
        arith,
        get_or-replicate {A = Option B} cap c none,
        get_or-replicate {A = Option B} cap p none,
        contains-create c,
        contains-create p,
      );
      child_vertex = λ c p h.
          absurd (ground (arith, get_or-replicate {A = Option B} cap c none, contains-create p));
      parent_vertex = λ c p h.
          absurd (ground (arith, get_or-replicate {A = Option B} cap c none, contains-create p));
      vertex_lt = λ v h. absurd (ground (arith, contains-create v));
    },
    contains-create,
    λ y z. ground (arith, get_or-replicate {A = Option B} cap y none, contains-create z),
  )
