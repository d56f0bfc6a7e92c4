-- ===== src/Graph.antt =====
-- core/graph.h and core/graph.c: graphs on the attributes. The queue from `head` on is a list. The
-- loops on the queue take fuel; `none` means that it ran out of it.
pub mod Queue
pub mod Reduction
pub mod Reduced
pub mod Examples
use fca4j_project.Base.{
  ℕ, zero, suc, ◌+◌, ◌-◌, true, false, List, [], ◌∷◌, ◌++◌, Option, none, some, get_or, set,
  replicate, if◌then◌else◌, leb, ◌==◌, foldl,
}
use fca4j_project.Roaring.{Roaring}

pub record AttrGraph (B : Type 0) : Type 0 where
  pub n : ℕ
  pub adj : List B

unfoldable pub sources : List ℕ → List ℕ → List ℕ
sources in_deg [] = []
sources in_deg (u ∷ us) =
    let rest = sources in_deg us in if get_or in_deg u 0 == 0 then u ∷ rest else rest

-- The inner loop: `if (--in_deg[v] == 0)` enqueue `v`.
unfoldable pub release : List ℕ → List ℕ → List ℕ → List ℕ × List ℕ
release [] in_deg queue = (in_deg, queue)
release (v ∷ vs) in_deg queue =
    release vs (set in_deg v (get_or in_deg v 0 - 1))
      (if get_or in_deg v 0 == 1 then queue ++ v ∷ [] else queue)

module _ {B : Type 0} ⦃R : Roaring B⦄ where
  open R use {create, contains, add, andnot, to_list, cardinality}

  unfoldable pub attrgraph_create : ℕ → AttrGraph B
  attrgraph_create n = record { n = n; adj = replicate n create }

  -- g->adj[u]
  abbrev pub successors : AttrGraph B → ℕ → B
  successors g u = get_or g.adj u create

  -- The loop that marks and enqueues the successors that are not marked yet.
  unfoldable pub enqueue_new : List ℕ → B → List ℕ → B × List ℕ
  enqueue_new [] reachable queue = (reachable, queue)
  enqueue_new (t ∷ ts) reachable queue = elim (contains reachable t) [
    | true ↦ enqueue_new ts reachable queue
    | false ↦ enqueue_new ts (add reachable t) (queue ++ t ∷ [])
  ]

  -- The first loop, over the successors of `u`.
  unfoldable pub from_successors : AttrGraph B → List ℕ → B → List ℕ → B × List ℕ
  from_successors g [] reachable queue = (reachable, queue)
  from_successors g (s ∷ succs) reachable queue =
      let next = enqueue_new (to_list (successors g s)) reachable queue in
      from_successors g succs next.0 next.1

  -- `while (head < queue.len)`
  unfoldable pub spread : ℕ → AttrGraph B → B → List ℕ → Option B
  spread fuel g reachable [] = some reachable
  spread zero g reachable (cur ∷ queue) = none
  spread (suc fuel) g reachable (cur ∷ queue) =
      let next = enqueue_new (to_list (successors g cur)) reachable queue in
      spread fuel g next.0 next.1

  -- The body of `transitive_reduction` for vertex `u`.
  unfoldable pub reduce_vertex : ℕ → AttrGraph B → ℕ → Option (AttrGraph B)
  reduce_vertex fuel g u = elim (leb (cardinality (successors g u)) 1) [
    | true ↦ some g
    | false ↦
        let start = from_successors g (to_list (successors g u)) create [] in
        elim (spread fuel g start.0 start.1) [
          | none ↦ none
          | some reachable ↦
              some (record g { adj = set g.adj u (andnot (successors g u) reachable) })
        ]
  ]

  -- The rounds u, u + 1, …, with `left` of them left.
  unfoldable pub reduce_from : ℕ → ℕ → ℕ → AttrGraph B → Option (AttrGraph B)
  reduce_from fuel zero u g = some g
  reduce_from fuel (suc left) u g = elim (reduce_vertex fuel g u) [
    | none ↦ none
    | some g' ↦ reduce_from fuel left (u + 1) g'
  ]

  unfoldable pub transitive_reduction : ℕ → AttrGraph B → Option (AttrGraph B)
  transitive_reduction fuel g = reduce_from fuel g.n 0 g

  -- The loop that counts the edges into each vertex.
  unfoldable pub in_degrees : AttrGraph B → List ℕ → List ℕ → List ℕ
  in_degrees g vertices in_deg =
      foldl (λ d u. foldl (λ e v. set e v (get_or e v 0 + 1)) d (to_list (successors g u))) in_deg
        vertices

  unfoldable pub order_queue : ℕ → AttrGraph B → List ℕ → List ℕ → List ℕ → Option (List ℕ)
  order_queue fuel g in_deg [] result = some result
  order_queue zero g in_deg (u ∷ queue) result = none
  order_queue (suc fuel) g in_deg (u ∷ queue) result =
      let next = release (to_list (successors g u)) in_deg queue in
      order_queue fuel g next.0 next.1 (result ++ u ∷ [])

  unfoldable pub topological_order : ℕ → AttrGraph B → B → Option (List ℕ)
  topological_order fuel g vertices =
      let in_deg = in_degrees g (to_list vertices) (replicate g.n 0) in
      order_queue fuel g in_deg (sources in_deg (to_list vertices)) []
