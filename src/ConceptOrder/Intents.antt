-- ===== src/ConceptOrder/Intents.antt =====
-- core/conceptorder.c, co_compute_intents: the reduced intents are propagated from the maximal
-- concepts down. The queue from `head` on is a list; the loop on it takes fuel, and `none` means
-- that it ran out of it.
use fca4j_project.Base.{
  ℕ, zero, suc, ◌-◌, List, [], ◌∷◌, ◌++◌, Option, none, some, get_or, set, if◌then◌else◌, ◌==◌,
  for_to,
}
use fca4j_project.Roaring.{Roaring}
use fca4j_project.DGraph.{bitmap_at, children_of, parents_of}
use fca4j_project.ConceptOrder.{ConceptOrder}

module _ {B : Type 0} ⦃R : Roaring B⦄ where
  open R use {or, to_list, cardinality}

  -- The number of parents of each concept.
  unfoldable pub parent_counts : ConceptOrder B → List ℕ
  parent_counts co = for_to co.counter (λ c d. d ++ cardinality (parents_of co.graph c) ∷ []) []

  unfoldable pub without_parents : ConceptOrder B → List ℕ → List ℕ
  without_parents co indegree =
      for_to co.counter (λ c queue. if get_or indegree c 0 == 0 then queue ++ c ∷ [] else queue) []

  -- intents[c] |= s
  unfoldable pub add_intent : ConceptOrder B → ℕ → B → ConceptOrder B
  add_intent co c s = record co {
    intents = set co.intents c (some (or (bitmap_at co.intents c) s));
  }

  -- The loop over the children of `c`.
  unfoldable pub propagate :
      ℕ → List ℕ → ConceptOrder B → List ℕ → List ℕ → ConceptOrder B × List ℕ × List ℕ
  propagate c [] co indegree queue = (co, indegree, queue)
  propagate c (child ∷ children) co indegree queue =
      propagate c children (add_intent co child (bitmap_at co.intents c))
        (set indegree child (get_or indegree child 0 - 1))
        (if get_or indegree child 0 == 1 then queue ++ child ∷ [] else queue)

  unfoldable pub intents_loop : ℕ → ConceptOrder B → List ℕ → List ℕ → Option (ConceptOrder B)
  intents_loop fuel co indegree [] = some co
  intents_loop zero co indegree (c ∷ queue) = none
  intents_loop (suc fuel) co indegree (c ∷ queue) =
      let own = add_intent co c (bitmap_at co.rintents c) in
      let next = propagate c (to_list (children_of co.graph c)) own indegree queue in
      intents_loop fuel next.0 next.1 next.2

  unfoldable pub co_compute_intents : ℕ → ConceptOrder B → Option (ConceptOrder B)
  co_compute_intents fuel co =
      let indegree = parent_counts co in
      if co.counter == 0
      then some co
      else intents_loop fuel co indegree (without_parents co indegree)
