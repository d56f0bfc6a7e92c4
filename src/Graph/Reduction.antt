-- ===== src/Graph/Reduction.antt =====
-- core/graph.c, transitive_reduction: what one vertex loses.
use fca4j_project.Base.{
  ℕ, zero, suc, ◌+◌, ◌<◌, ◌≤◌, ◌≡◌, sym, ◌∙◌, true, ◌⊎◌, List, [], ◌∷◌, Option, none, some, length,
  elem, elem-cons_cases, inl, inr, arith,
}
use mathlib.Core.Path.{subst}
use fca4j_project.Roaring.{Roaring}
use fca4j_project.Roaring.Sets.{Has}
use fca4j_project.Roaring.Cardinal.{cardinality-le}
use fca4j_project.Graph.{AttrGraph, successors, enqueue_new, spread}
use fca4j_project.Graph.Queue.{Enqueued, enqueue_new-Enqueued}

module _ {B : Type 0} ⦃R : Roaring B⦄ where
  open R use {
    create, contains, andnot, to_list, cardinality, contains-create, contains-andnot, elem-to_list,
  }

  -- One or more edges.
  pub data Reaches (g : AttrGraph B) : ℕ → ℕ → Type 0 where
    edge : (u v : ℕ) → Has (successors g u) v → Reaches g u v
    then_edge : (u v w : ℕ) → Reaches g u v → Has (successors g v) w → Reaches g u w

  -- The marks at the end: sound for `Q`, more than at the start, and closed.
  abbrev pub Spreads : AttrGraph B → (ℕ → Type 0) → B → Option B → Type 0
  Spreads g Q r none = ⊥
  Spreads g Q r (some r') =
      ((u : ℕ) → Has r' u → Q u)
      × ((u : ℕ) → Has r u → Has r' u)
      × ((u w : ℕ) → Has r' u → Has (successors g u) w → Has r' w)

  later-Spreads :
      (g : AttrGraph B) (Q : ℕ → Type 0) (r r1 : B) (result : Option B)
      → ((u : ℕ) → Has r u → Has r1 u)
      → Spreads g Q r1 result
      → Spreads g Q r result
  later-Spreads g Q r r1 none kept s = s
  later-Spreads g Q r r1 (some r') kept s = (s.0, λ u h. s.1 u (kept u h), s.2)

  -- A marked vertex is in the queue, or its successors are marked.
  abbrev pub Front : AttrGraph B → B → List ℕ → Type 0
  Front g r q = (u : ℕ) → Has r u → (elem u q ≡ true) ⊎ ((w : ℕ) → Has (successors g u) w → Has r w)

  next-Front :
      (g : AttrGraph B) (cur : ℕ) (r : B) (q : List ℕ) (r' : B) (q' : List ℕ)
      → Front g r (cur ∷ q)
      → Enqueued (to_list (successors g cur)) r q r' q'
      → Front g r' q'
  next-Front g cur r q r' q' front e u h = elim (e.new_queued u h) [
    | inr waiting ↦ inl waiting
    | inl old ↦ elim (front u old) [
      | inr done ↦ inr (λ w hw. e.kept w (done w hw))
      | inl waiting ↦ elim (elem-cons_cases u cur q waiting) [
        | inr behind ↦ inl (e.queued u behind)
        | inl same ↦ inr (λ w hw.
            e.offered w
              (elem-to_list (successors g cur) w ∙ subst (λ k. Has (successors g k) w) same hw))
      ]
    ]
  ]

  pub spread-Spreads :
      (fuel : ℕ) (g : AttrGraph B) (Q : ℕ → Type 0) (r : B) (q : List ℕ)
      → ((u w : ℕ) → Q u → Has (successors g u) w → Q w)
      → ((u : ℕ) → Q u → u < g.n)
      → ((u : ℕ) → Has r u → Q u)
      → ((u : ℕ) → elem u q ≡ true → Q u)
      → Front g r q
      → length q + g.n ≤ fuel + cardinality r
      → Spreads g Q r (spread fuel g r q)
  unfolding spread
  spread-Spreads fuel g Q r [] step small sound queue front enough = (
    sound,
    λ u h. h,
    λ u w h hw. elim (front u h) [ inl waiting ↦ absurd (ground arith) | inr done ↦ done w hw ],
  )
  spread-Spreads zero g Q r (cur ∷ q) step small sound queue front enough =
      absurd (omega (arith, enough, cardinality-le g.n r (λ x h. small x (sound x h))))
  spread-Spreads (suc fuel) g Q r (cur ∷ q) step small sound queue front enough =
      let next = enqueue_new (to_list (successors g cur)) r q in
      let e = enqueue_new-Enqueued (to_list (successors g cur)) r q in
      let here : Q cur = queue cur (ground arith) in
      let offered = λ (u : ℕ) (h : elem u (to_list (successors g cur)) ≡ true).
        step cur u here (sym (elem-to_list (successors g cur) u) ∙ h) in
      later-Spreads g Q r next.0 (spread fuel g next.0 next.1) e.kept (
        spread-Spreads fuel g Q next.0 next.1 step small
          (λ u h. elim (e.origin u h) [ inl old ↦ sound u old | inr new ↦ offered u new ])
          (λ u h. elim (e.queue_origin u h) [
            | inl old ↦ queue u (ground arith)
            | inr new ↦ offered u new
          ])
          (next-Front g cur r q next.0 next.1 front e) (omega (arith, e.spent, enough)))
