-- ===== src/ConceptOrder.antt =====
-- core/conceptorder.h and the construction part of core/conceptorder.c: the order of concepts that
-- Hermes, AddExtent and Pluton build. Concepts are numbered 0, 1, … in the order of creation.
pub mod Edges
pub mod Concepts
pub mod Reduced
pub mod Flat
pub mod Decode
pub mod Intents
pub mod Json
pub mod RoundTrip
pub mod Examples
use fca4j_project.Base.{
  ℕ, ◌+◌, ◌-◌, ◌<◌, ◌≤◌, ◌≡◌, ◌↔◌, Bool, true, false, List, ◌++◌, Option, none, some, length,
  replicate, set, if◌then◌else◌, leb, ltb, foldl, for_to,
}
use fca4j_project.Roaring.{Roaring}
use fca4j_project.Context.{BinaryContext}
use fca4j_project.DGraph.{
  DGraph, grow, grown, bitmap_at, children_of, parents_of, dgraph_create, dgraph_add_vertex,
  dgraph_add_edge, dgraph_remove_edge, IsGraph,
}

pub record ConceptOrder (B : Type 0) : Type 0 where
  pub counter : ℕ
  pub ctx : BinaryContext B
  pub graph : DGraph B
  pub capacity : ℕ
  pub extents : List (Option B)
  pub intents : List (Option B)
  pub rextents : List (Option B)
  pub rintents : List (Option B)
  pub maximals : B
  pub minimals : B

module _ {B : Type 0} ⦃R : Roaring B⦄ where
  open R use {create, contains, add, remove, andnot, is_empty, to_list}

  unfoldable pub co_create : BinaryContext B → ConceptOrder B
  co_create ctx = record {
    counter = 0;
    ctx = ctx;
    graph = dgraph_create 256;
    capacity = 256;
    extents = replicate 256 none;
    intents = replicate 256 none;
    rextents = replicate 256 none;
    rintents = replicate 256 none;
    maximals = create;
    minimals = create;
  }

  unfoldable pub co_ensure_cap : ConceptOrder B → ℕ → ConceptOrder B
  co_ensure_cap co needed = if leb needed co.capacity then co else record co {
    extents = grow co.extents co.capacity (grown co.capacity needed);
    intents = grow co.intents co.capacity (grown co.capacity needed);
    rextents = grow co.rextents co.capacity (grown co.capacity needed);
    rintents = grow co.rintents co.capacity (grown co.capacity needed);
    capacity = grown co.capacity needed;
  }

  -- `co_add_concept` after `counter++` and the growth of the arrays, for the new id `n`.
  unfoldable pub co_fill : ConceptOrder B → ℕ → B → B → ConceptOrder B
  co_fill co n extent intent = record co {
    graph = dgraph_add_vertex co.graph n;
    extents = set co.extents n (some extent);
    intents = set co.intents n (some intent);
    rextents = set co.rextents n (some create);
    rintents = set co.rintents n (some create);
    maximals = add co.maximals n;
    minimals = add co.minimals n;
  }

  unfoldable pub co_add_concept : ConceptOrder B → B → B → ConceptOrder B × ℕ
  co_add_concept co extent intent =
      let n = co.counter in
      (co_fill (co_ensure_cap (record co { counter = n + 1 }) (n + 1)) n extent intent, n)

  unfoldable pub co_add_edge : ConceptOrder B → ℕ → ℕ → ConceptOrder B
  co_add_edge co lower upper = record co {
    graph = dgraph_add_edge co.graph lower upper;
    maximals = remove co.maximals lower;
    minimals = remove co.minimals upper;
  }

  unfoldable pub co_remove_edge : ConceptOrder B → ℕ → ℕ → ConceptOrder B
  co_remove_edge co lower upper =
      let graph = dgraph_remove_edge co.graph lower upper in
      record co {
        graph = graph;
        maximals = if is_empty (parents_of graph lower) then add co.maximals lower else co.maximals;
        minimals =
            if is_empty (children_of graph upper) then add co.minimals upper else co.minimals;
      }

  -- The body of `co_compute_rextents` for concept `c`.
  unfoldable pub reduced_extent : ConceptOrder B → ℕ → B
  reduced_extent co c =
      foldl (λ re child. andnot re (bitmap_at co.extents child)) (bitmap_at co.extents c)
        (to_list (children_of co.graph c))

  unfoldable pub co_compute_rextents : ConceptOrder B → ConceptOrder B
  co_compute_rextents co =
      for_to co.counter
        (λ c o. record o { rextents = set o.rextents c (some (reduced_extent o c)) }) co

  -- A concept with no edge upwards, and one with none downwards.
  abbrev pub IsTop : ConceptOrder B → ℕ → Type 0
  IsTop co c = (c < co.counter) × ((p : ℕ) → contains (parents_of co.graph c) p ≡ false)

  abbrev pub IsBottom : ConceptOrder B → ℕ → Type 0
  IsBottom co c = (c < co.counter) × ((d : ℕ) → contains (children_of co.graph c) d ≡ false)

  -- The invariant: the vertices are the ids given out, `maximals` and `minimals` are the
  -- concepts without parent and without child, and the arrays have the declared capacity.
  pub record IsOrder (co : ConceptOrder B) : Type 0 where
    pub graph_wf : IsGraph co.graph
    pub vertices : (v : ℕ) → contains co.graph.vertices v ≡ ltb v co.counter
    pub maximal_iff : (c : ℕ) → (contains co.maximals c ≡ true) ↔ IsTop co c
    pub minimal_iff : (c : ℕ) → (contains co.minimals c ≡ true) ↔ IsBottom co c
    pub extents_length : length co.extents ≡ co.capacity
    pub intents_length : length co.intents ≡ co.capacity
    pub rextents_length : length co.rextents ≡ co.capacity
    pub rintents_length : length co.rintents ≡ co.capacity
    pub room : co.counter ≤ co.capacity
