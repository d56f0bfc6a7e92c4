-- ===== src/DGraph.antt =====
-- core/conceptorder.c, first part: the directed graph of concepts, as one bitmap of children and
-- one of parents for each vertex. A NULL cell is `none`; reading through it, undefined in C,
-- reads the empty bitmap.
pub mod Laws
pub mod Vertices
use fca4j_project.Base.{
  ℕ, ◌+◌, ◌-◌, ◌*◌, Bool, not, List, ◌++◌, Option, none, some, length, get_or, set, replicate,
  if◌then◌else◌, ltb, leb, ◌≡◌, ◌<◌, true,
}
use fca4j_project.Roaring.{Roaring}

pub record DGraph (B : Type 0) : Type 0 where
  pub capacity : ℕ
  pub children : List (Option B)
  pub parents : List (Option B)
  pub vertices : B

-- The capacity after a growth: doubled, or as needed.
abbrev pub grown : ℕ → ℕ → ℕ
grown capacity needed = if ltb (capacity * 2) needed then needed else capacity * 2

-- realloc, and NULL in the new cells.
abbrev pub grow {ℓ} : {A : Type ℓ} → List (Option A) → ℕ → ℕ → List (Option A)
grow cells capacity new_capacity = cells ++ replicate (new_capacity - capacity) none

module _ {B : Type 0} ⦃R : Roaring B⦄ where
  open R use {create, contains, add, remove}

  abbrev pub deref : Option B → B
  deref none = create
  deref (some b) = b

  -- The bitmap that cell `i` points to.
  abbrev pub bitmap_at : List (Option B) → ℕ → B
  bitmap_at cells i = deref (get_or cells i none)

  abbrev pub children_of : DGraph B → ℕ → B
  children_of g v = bitmap_at g.children v

  abbrev pub parents_of : DGraph B → ℕ → B
  parents_of g v = bitmap_at g.parents v

  unfoldable pub dgraph_create : ℕ → DGraph B
  dgraph_create cap = record {
    capacity = cap;
    children = replicate cap none;
    parents = replicate cap none;
    vertices = create;
  }

  unfoldable pub dgraph_ensure_cap : DGraph B → ℕ → DGraph B
  dgraph_ensure_cap g needed = if leb needed g.capacity then g else record g {
    capacity = grown g.capacity needed;
    children = grow g.children g.capacity (grown g.capacity needed);
    parents = grow g.parents g.capacity (grown g.capacity needed);
  }

  -- The part of `dgraph_add_vertex` after the growth.
  unfoldable pub dgraph_new_vertex : DGraph B → ℕ → DGraph B
  dgraph_new_vertex g v =
      if not (contains g.vertices v)
      then record g {
        vertices = add g.vertices v;
        children = set g.children v (some create);
        parents = set g.parents v (some create);
      }
      else g

  unfoldable pub dgraph_add_vertex : DGraph B → ℕ → DGraph B
  dgraph_add_vertex g v = dgraph_new_vertex (dgraph_ensure_cap g (v + 1)) v

  unfoldable pub dgraph_add_edge : DGraph B → ℕ → ℕ → DGraph B
  dgraph_add_edge g child parent = record g {
    parents = set g.parents child (some (add (parents_of g child) parent));
    children = set g.children parent (some (add (children_of g parent) child));
  }

  unfoldable pub dgraph_remove_edge : DGraph B → ℕ → ℕ → DGraph B
  dgraph_remove_edge g child parent = record g {
    parents = set g.parents child (some (remove (parents_of g child) parent));
    children = set g.children parent (some (remove (children_of g parent) child));
  }

  -- The two adjacencies mirror one another, the edges join vertices, the arrays have the
  -- declared capacity, and it covers the vertices.
  pub record IsGraph (g : DGraph B) : Type 0 where
    pub children_length : length g.children ≡ g.capacity
    pub parents_length : length g.parents ≡ g.capacity
    pub mirror : (c p : ℕ) → contains (parents_of g c) p ≡ contains (children_of g p) c
    pub child_vertex : (c p : ℕ) → contains (parents_of g c) p ≡ true → contains g.vertices c ≡ true
    pub parent_vertex :
        (c p : ℕ) → contains (parents_of g c) p ≡ true → contains g.vertices p ≡ true
    pub vertex_lt : (v : ℕ) → contains g.vertices v ≡ true → v < g.capacity
