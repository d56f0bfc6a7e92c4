-- ===== src/DGraph/Laws.antt =====
-- The graph operations keep the two adjacencies in step and change one edge at a time.
use fca4j_project.Base.{
  ℕ, zero, suc, ◌-◌, ◌≤◌, ◌<◌, ◌≡◌, refl, Bool, true, false, ◌&&◌, List, [], ◌∷◌, Option, none,
  some, length, get_or, set, replicate, if◌then◌else◌, ◌==◌, arith, length-set, length-append,
  length-replicate, get_or-set_self, get_or-set_ne, get_or-replicate,
}
use fca4j_project.Roaring.{Roaring}
use fca4j_project.DGraph.{
  DGraph, grow, bitmap_at, children_of, parents_of, dgraph_add_edge, dgraph_remove_edge, IsGraph,
}

-- Growing adds NULL cells at the end.
pub get_or-grow {ℓ} :
    {A : Type ℓ} (cells : List (Option A)) (capacity n i : ℕ)
    → get_or (grow cells capacity n) i none ≡ get_or cells i none
get_or-grow [] capacity n i = get_or-replicate (n - capacity) i none
get_or-grow (x ∷ cells) capacity n zero = refl
get_or-grow (x ∷ cells) capacity n (suc i) = get_or-grow cells capacity n i

pub length-grow {ℓ} :
    {A : Type ℓ} (cells : List (Option A)) (capacity n : ℕ)
    → length cells ≡ capacity
    → capacity ≤ n
    → length (grow cells capacity n) ≡ n
length-grow {A} cells capacity n e h = omega (
  arith,
  length-append cells (replicate (n - capacity) none),
  length-replicate {A = Option A} (n - capacity) none,
)

module _ {B : Type 0} ⦃R : Roaring B⦄ where
  open R use {create, contains, add, remove, contains-create, contains-add, contains-remove}

  pub contains-set :
      (cells : List (Option B)) (i j y : ℕ) (b : B)
      → i < length cells
      → contains (bitmap_at (set cells i (some b)) j) y
        ≡ (if j == i then contains b y else contains (bitmap_at cells j) y)
  contains-set cells i j y b h =
      ground (arith, get_or-set_self cells i (some b) none, get_or-set_ne cells i j (some b) none)

  pub edge-vertices :
      (g : DGraph B) (child parent : ℕ)
      → ((dgraph_add_edge g child parent).vertices ≡ g.vertices)
        × ((dgraph_remove_edge g child parent).vertices ≡ g.vertices)
  unfolding dgraph_add_edge dgraph_remove_edge
  edge-vertices g child parent = (refl, refl)

  -- Setting one edge, to present or absent, in both adjacencies.
  set_edge :
      (g g' : DGraph B) (child parent : ℕ) (now : Bool)
      → IsGraph g
      → ((y z : ℕ)
          → contains (parents_of g' y) z
            ≡ (if y == child && z == parent then now else contains (parents_of g y) z))
      → ((y z : ℕ)
          → contains (children_of g' z) y
            ≡ (if y == child && z == parent then now else contains (children_of g z) y))
      → contains g.vertices child ≡ true
      → contains g.vertices parent ≡ true
      → g'.vertices ≡ g.vertices
      → g'.capacity ≡ g.capacity
      → length g'.children ≡ length g.children
      → length g'.parents ≡ length g.parents
      → IsGraph g'
  set_edge g g' child parent now w ps cs hc hp vs cap lc lp = record {
    children_length = omega (arith, w.children_length);
    parents_length = omega (arith, w.parents_length);
    mirror = λ c p. ground (arith, ps c p, cs c p, w.mirror c p);
    child_vertex = λ c p h. rw vs (ground (arith, ps c p, w.child_vertex c p));
    parent_vertex = λ c p h. rw vs (ground (arith, ps c p, w.parent_vertex c p));
    vertex_lt = λ v h. omega (arith, w.vertex_lt v (rw vs at h));
  }

  module _ (g : DGraph B) (child parent : ℕ) (w : IsGraph g) where
    module _ (hc : contains g.vertices child ≡ true) (hp : contains g.vertices parent ≡ true) where
      parents-add_edge :
          (y z : ℕ)
          → contains (parents_of (dgraph_add_edge g child parent) y) z
            ≡ (if y == child && z == parent then true else contains (parents_of g y) z)
      unfolding dgraph_add_edge
      parents-add_edge y z = ground (
        arith,
        contains-set g.parents child y z (add (parents_of g child) parent)
            (omega (arith, w.vertex_lt child hc, w.parents_length)),
        contains-add (parents_of g child) parent z,
      )

      children-add_edge :
          (y z : ℕ)
          → contains (children_of (dgraph_add_edge g child parent) z) y
            ≡ (if y == child && z == parent then true else contains (children_of g z) y)
      unfolding dgraph_add_edge
      children-add_edge y z = ground (
        arith,
        contains-set g.children parent z y (add (children_of g parent) child)
            (omega (arith, w.vertex_lt parent hp, w.children_length)),
        contains-add (children_of g parent) child y,
      )

      parents-remove_edge :
          (y z : ℕ)
          → contains (parents_of (dgraph_remove_edge g child parent) y) z
            ≡ (if y == child && z == parent then false else contains (parents_of g y) z)
      unfolding dgraph_remove_edge
      parents-remove_edge y z = ground (
        arith,
        contains-set g.parents child y z (remove (parents_of g child) parent)
            (omega (arith, w.vertex_lt child hc, w.parents_length)),
        contains-remove (parents_of g child) parent z,
      )

      children-remove_edge :
          (y z : ℕ)
          → contains (children_of (dgraph_remove_edge g child parent) z) y
            ≡ (if y == child && z == parent then false else contains (children_of g z) y)
      unfolding dgraph_remove_edge
      children-remove_edge y z = ground (
        arith,
        contains-set g.children parent z y (remove (children_of g parent) child)
            (omega (arith, w.vertex_lt parent hp, w.children_length)),
        contains-remove (children_of g parent) child y,
      )

      -- Adding an edge between two vertices keeps the graph well formed and adds that edge alone.
      pub add_edge-IsGraph :
          IsGraph (dgraph_add_edge g child parent)
          × ((y z : ℕ)
              → contains (parents_of (dgraph_add_edge g child parent) y) z
                ≡ (if y == child && z == parent then true else contains (parents_of g y) z))
      unfolding dgraph_add_edge
      add_edge-IsGraph = (
        set_edge g (dgraph_add_edge g child parent) child parent true w parents-add_edge
            children-add_edge hc hp refl refl (length-set _ _ _) (length-set _ _ _),
        parents-add_edge,
      )

      pub remove_edge-IsGraph :
          IsGraph (dgraph_remove_edge g child parent)
          × ((y z : ℕ)
              → contains (parents_of (dgraph_remove_edge g child parent) y) z
                ≡ (if y == child && z == parent then false else contains (parents_of g y) z))
      unfolding dgraph_remove_edge
      remove_edge-IsGraph = (
        set_edge g (dgraph_remove_edge g child parent) child parent false w parents-remove_edge
            children-remove_edge hc hp refl refl (length-set _ _ _) (length-set _ _ _),
        parents-remove_edge,
      )
